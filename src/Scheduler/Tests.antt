-- ===== src/Scheduler/Tests.antt =====
-- The scheduler on concrete histories.
use calbridge.Common.{
  ◌+◌, ◌≡◌, ◌≤◌, refl, Text, List, [], ◌∷◌, Option, none, some, true, false, codes, ◌==◌, arith,
  if◌then◌else◌, In, ◌↔◌,
}
use calbridge.Common.Dict.{Dict, get, put}
use calbridge.Scheduler.{
  Job, run_job, Scheduler, ok, blocked, ◌>>=◌, new_scheduler, member, lock, deferred_unlock,
  stop_existing, close_channel, new_ticker, new_job, install, add_job, remove_job,
  update_job_interval, ensure_lock, get_sync_lock, is_held, try_lock, begin_sync, fetch_lock,
  attempt_lock, is_waiting, take_out,
}
use calbridge.Scheduler.Panics.{IsSound, Returns}
use calbridge.Scheduler.Runs.{
  Call, add, remove, fetch, attempt, start_all, stop_all, update_interval, run,
  run-new_scheduler-IsSound,
}
use calbridge.Scheduler.Locks.{syncs_of}
use calbridge.Scheduler.Exclusion.{fresh, after, Reachable-syncs_of}
use calbridge.Scheduler.Overlap.{remove_job-begin_sync}
use calbridge.Scheduler.Stuck.{Panics, update_job_interval-stuck}
use calbridge.Scheduler.Stale.{
  Watched, check_stale_sources, HasOverdueJob, HasStaleJob, check_stale_sources_iff,
}

abbrev work : Text
work = codes "work"

abbrev day : List Call
day =
    start_all (some ((work, 300) ∷ (codes "home", 60) ∷ [])) 0
    ∷ fetch work
    ∷ attempt work 2
    ∷ update_interval work 600 10
    ∷ add work 60 20
    ∷ remove (codes "home")
    ∷ stop_all
    ∷ []

run-new_scheduler-IsSound_example : Returns IsSound (run day (new_scheduler true))
run-new_scheduler-IsSound_example = run-new_scheduler-IsSound true day (
  ((omega arith, omega arith), ((omega arith, omega arith), tt)),
  (tt, (tt, (omega arith, (omega arith, (tt, (tt, tt)))))),
)

abbrev work_job : Job
work_job = record { source_id = work; interval = 60; stop_ch = 0; next_sync_at = 5 }

abbrev with_job : Scheduler
with_job = record {
  jobs = (work, work_job) ∷ [];
  sync_locks = [];
  closed = [];
  running = [];
  waiting = [];
  next_id = 1;
  routines = run_job work_job ∷ [];
  notices = [];
  has_notifier = true;
  started = false;
  cancelled = false;
  mu = false;
}

abbrev syncing_work : Scheduler
syncing_work = record with_job {
  sync_locks = (work, 1) ∷ [];
  running = (work, 1) ∷ [];
  next_id = 2;
}

abbrev waiting_work : Scheduler
waiting_work = record with_job {
  sync_locks = (work, 1) ∷ [];
  waiting = (work, 1) ∷ [];
  next_id = 2;
}

add_work : add_job work 60 5 (new_scheduler true) ≡ ok with_job
unfolding add_job lock deferred_unlock stop_existing close_channel new_ticker new_job install
    new_scheduler get put
add_work = refl

begin_work : begin_sync work with_job ≡ ok syncing_work
unfolding begin_sync fetch_lock attempt_lock is_waiting take_out get_sync_lock ensure_lock try_lock
    lock deferred_unlock get put is_held ◌==◌
begin_work = refl

Reachable-syncs_of_example : syncs_of work syncing_work.running ≤ 1
unfolding add_job lock deferred_unlock stop_existing close_channel new_ticker new_job install
    new_scheduler get put fetch_lock attempt_lock is_waiting take_out get_sync_lock ensure_lock
    try_lock is_held ◌==◌
Reachable-syncs_of_example = Reachable-syncs_of syncing_work work (
    after (attempt work 1) waiting_work syncing_work
      (after (fetch work) with_job waiting_work
        (after (add work 60 5) (new_scheduler true) with_job (fresh true) tt refl) tt refl)
      tt refl)

syncing_work-IsSound : IsSound syncing_work
unfolding member
syncing_work-IsSound = record { mu_free = refl; live = (omega arith, refl, tt, tt); used = tt }

remove_job-begin_sync_example :
    Returns
      (λ t. syncs_of work t.running ≡ 1 + syncs_of work syncing_work.running)
      (remove_job work syncing_work >>= begin_sync work)
unfolding get is_held ◌==◌
remove_job-begin_sync_example =
    remove_job-begin_sync work work_job syncing_work syncing_work-IsSound refl refl

update_job_interval-stuck_example :
    Panics
      (λ t. (get work t.jobs ≡ none) × (fetch_lock work t ≡ blocked))
      (update_job_interval work 0 9 syncing_work)
unfolding get ◌==◌
update_job_interval-stuck_example =
    update_job_interval-stuck work work_job 9 (fetch work) syncing_work syncing_work-IsSound refl tt

abbrev database : Text → Option Watched
database id =
    if id == work
    then some (record { enabled = true; sync_interval = 60; last_sync_at = none; created_at = 7 })
    else none

abbrev minute_jobs : Dict Job
minute_jobs = (work, record work_job { interval = 60_000_000_000 }) ∷ (codes "gone", work_job) ∷ []

check_stale_sources_iff_example :
    (In work (check_stale_sources database 200_000_000_000 minute_jobs)
      ↔ HasOverdueJob database 200_000_000_000 minute_jobs work)
    × (In work (check_stale_sources database 200_000_000_000 minute_jobs)
        ↔ HasStaleJob database 200_000_000_000 minute_jobs work)
unfolding ◌==◌
check_stale_sources_iff_example =
    check_stale_sources_iff database 200_000_000_000 minute_jobs work
      ((refl, omega arith), (tt, tt))
