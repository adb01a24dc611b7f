-- ===== src/Scheduler/Stuck.antt =====
-- UpdateJobInterval with an interval that is not positive.
use calbridge.Common.{ℕ, ◌≡◌, refl, Text, ◌∷◌, none, some, true}
use calbridge.Common.Dict.{get, delete, get-delete_self}
use calbridge.Scheduler.{
  add_job, add_job_with_delay, update_job_interval, update_next_sync_at, get_sync_lock, start, stop,
  new_ticker, Job, Scheduler, Outcome, ok, panic, blocked, ◌>>=◌, deferred_unlock, remove_job,
  fetch_lock,
}
use calbridge.Scheduler.Jobs.{Live-get}
use calbridge.Scheduler.Panics.{IsSound, lock-free, lock-held, close-fresh}
use calbridge.Scheduler.Runs.{
  Call, add, add_delayed, remove, update_interval, touch, fetch, attempt, finish, start_all,
  stop_all, step,
}

-- The call panics, in a state of which `P` holds.
abbrev pub Panics : (Scheduler → Type 0) → Outcome → Type 0
Panics P (ok s) = ⊥
Panics P (panic s) = P s
Panics P blocked = ⊥

-- The call takes `mu`: every one but TryLock and the end of a sync.
abbrev pub TakesMu : Call → Type 0
TakesMu (finish l) = ⊥
TakesMu (attempt id l) = ⊥
TakesMu (add id interval now) = Unit
TakesMu (add_delayed id interval delay now) = Unit
TakesMu (remove id) = Unit
TakesMu (update_interval id interval now) = Unit
TakesMu (touch id now) = Unit
TakesMu (fetch id) = Unit
TakesMu (start_all sources now) = Unit
TakesMu stop_all = Unit

step-blocked : (c : Call) (s : Scheduler) → TakesMu c → s.mu ≡ true → step c s ≡ blocked
unfolding add_job add_job_with_delay remove_job update_job_interval update_next_sync_at fetch_lock
    get_sync_lock start stop deferred_unlock
step-blocked (add id interval now) s k h = rw (lock-held s h) refl
step-blocked (add_delayed id interval delay now) s k h = rw (lock-held s h) refl
step-blocked (remove id) s k h = rw (lock-held s h) refl
step-blocked (update_interval id interval now) s k h = rw (lock-held s h) refl
step-blocked (touch id now) s k h = rw (lock-held s h) refl
step-blocked (fetch id) s k h = rw (lock-held s h) refl
step-blocked (finish l) s k h = elim k [ ]
step-blocked (attempt id l) s k h = elim k [ ]
step-blocked (start_all sources now) s k h = rw (lock-held s h) refl
step-blocked stop_all s k h = rw (lock-held s h) refl

-- In a sound state, setting the interval of a source that has a job to one that is not positive
-- panics, the job is gone and `mu` stays held: every later call that takes `mu`, that is every call
-- but TryLock and the end of a sync, waits for ever.
pub update_job_interval-stuck :
    (id : Text) (j : Job) (now : ℕ) (c : Call) (s : Scheduler)
    → IsSound s
    → get id s.jobs ≡ some j
    → TakesMu c
    → Panics (λ t. (get id t.jobs ≡ none) × (step c t ≡ blocked)) (update_job_interval id 0 now s)
unfolding update_job_interval new_ticker
update_job_interval-stuck id j now c s v e k =
    let l = Live-get s.closed s.next_id id j s.jobs v.live e in
    let s₁ : Scheduler = record s { mu = true } in
    let s₂ : Scheduler = record s₁ { closed = j.stop_ch ∷ s.closed; jobs = delete id s.jobs } in
    rw (lock-free s v.mu_free, e, ◌>>=◌, close-fresh j.stop_ch s₁ l.1)
      (get-delete_self id s.jobs, step-blocked c s₂ k refl)
