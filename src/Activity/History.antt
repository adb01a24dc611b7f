-- ===== src/Activity/History.antt =====
-- What a history of calls on the tracker of internal/activity/activity.go amounts to.
use calbridge.Common.{
  ℕ, ◌≡◌, refl, Text, List, [], ◌∷◌, Bool, true, false, arith, if◌then◌else◌, ◌==◌, ==_iff,
  Option-cases, inl, inr,
}
use calbridge.Common.Dict.{get, get-put, get-delete}
use calbridge.Activity.{
  SyncActivity, Tracker, Call, fresh, start, calendar, progress, increment, finish, start_sync,
  update_active, update_calendar, update_progress, increment_progress, finish_sync,
  is_source_syncing, step, run,
}

-- Whether a source is syncing, read off the calls: the last start or finish of it decides.
pub syncing : Text → Bool → List Call → Bool
syncing k b [] = b
syncing k b (start id name total now ∷ cs) = syncing k (if id == k then true else b) cs
syncing k b (finish id ok m es now ∷ cs) = syncing k (if id == k then false else b) cs
syncing k b (_ ∷ cs) = syncing k b cs

update_active-syncing :
    (k id : Text) (f : SyncActivity → SyncActivity) (t : Tracker)
    → is_source_syncing k (update_active id f t) ≡ is_source_syncing k t
unfolding update_active is_source_syncing
update_active-syncing k id f t = elim (Option-cases (get id t.active)) [
  | inl e ↦ rw (e, update_active)
  | inr (a, e) ↦ ground (arith, get-put id k (f a) t.active, ==_iff id k)
]

finish_sync-syncing :
    (k id : Text) (b : Bool) (m : Text) (es : List Text) (now : ℕ) (t : Tracker)
    → is_source_syncing k (finish_sync id b m es now t)
      ≡ (if id == k then false else is_source_syncing k t)
unfolding finish_sync is_source_syncing
finish_sync-syncing k id b m es now t = ground (arith, get-delete id k t.active, ==_iff id k)

start_sync-syncing :
    (k id name : Text) (total now : ℕ) (t : Tracker)
    → is_source_syncing k (start_sync id name total now t)
      ≡ (if id == k then true else is_source_syncing k t)
unfolding start_sync is_source_syncing
start_sync-syncing k id name total now t =
    ground (arith, get-put id k (fresh id name total now) t.active)

-- A source is reported as syncing exactly when the last start or finish of it in the history is a
-- start, or there is none and it was syncing before.
pub is_source_syncing-run :
    (k : Text) (t : Tracker) (cs : List Call)
    → is_source_syncing k (run t cs) ≡ syncing k (is_source_syncing k t) cs
unfolding run syncing step update_calendar update_progress increment_progress
is_source_syncing-run k t [] = refl
is_source_syncing-run k t (start id name total now ∷ cs) = rw (
  is_source_syncing-run k (start_sync id name total now t) cs,
  start_sync-syncing k id name total now t,
)
is_source_syncing-run k t (finish id b m es now ∷ cs) = rw (
  is_source_syncing-run k (finish_sync id b m es now t) cs,
  finish_sync-syncing k id b m es now t,
)
is_source_syncing-run k t (calendar id name index ∷ cs) =
    rw (is_source_syncing-run k (update_calendar id name index t) cs, update_active-syncing k id)
is_source_syncing-run k t (progress id n ∷ cs) =
    rw (is_source_syncing-run k (update_progress id n t) cs, update_active-syncing k id)
is_source_syncing-run k t (increment id n ∷ cs) =
    rw (is_source_syncing-run k (increment_progress id n t) cs, update_active-syncing k id)
