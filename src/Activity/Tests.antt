-- ===== src/Activity/Tests.antt =====
-- The tracker on concrete histories.
use calbridge.Common.{◌≡◌, refl, List, [], ◌∷◌, true, take, codes, ◌==◌}
use calbridge.Common.Dict.{get, put, delete}
use calbridge.Activity.{
  Call, start, calendar, finish, new_tracker, start_sync, update_active, update_calendar,
  finish_sync, is_source_syncing, step, run,
}
use calbridge.Activity.Invariant.{IsValid, run-new_tracker-IsValid}
use calbridge.Activity.History.{syncing, is_source_syncing-run}
use calbridge.Activity.Recent.{ledger, recent-ledger}

abbrev two_syncs : List Call
two_syncs =
    start (codes "a") (codes "Work") 1 100
    ∷ calendar (codes "a") (codes "Home") 1
    ∷ start (codes "b") (codes "Team") 2 150
    ∷ finish (codes "a") true (codes "done") [] 200
    ∷ []

run-new_tracker-IsValid_example : IsValid (run new_tracker two_syncs)
run-new_tracker-IsValid_example = run-new_tracker-IsValid two_syncs

is_source_syncing-run_example :
    is_source_syncing (codes "b") (run new_tracker two_syncs)
    ≡ syncing (codes "b") (is_source_syncing (codes "b") new_tracker) two_syncs
is_source_syncing-run_example = is_source_syncing-run (codes "b") new_tracker two_syncs

recent-ledger_example :
    (run new_tracker two_syncs).recent ≡ take 20 (ledger [] new_tracker two_syncs)
recent-ledger_example = recent-ledger two_syncs

syncing_b : is_source_syncing (codes "b") (run new_tracker two_syncs) ≡ true
unfolding run step start_sync update_calendar update_active finish_sync is_source_syncing get put
    delete new_tracker ◌==◌
syncing_b = refl
