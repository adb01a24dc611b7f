-- ===== src/Scheduler/Overlap.antt =====
-- RemoveJob while a sync of the source runs.
use calbridge.Common.{
  ℕ, ◌+◌, ◌≡◌, refl, subst, inl, inr, Text, ◌∷◌, none, some, true, false, Bool-cases, ==_refl,
}
use calbridge.Common.Dict.{get, delete, get-delete_self}
use calbridge.Scheduler.{
  Job, Scheduler, ok, ◌>>=◌, deferred_unlock, remove_job, drop_job, clear_stale_state, is_held,
  try_lock, begin_sync,
}
use calbridge.Scheduler.Jobs.{Live-get}
use calbridge.Scheduler.Panics.{IsSound, Returns, lock-free, close-fresh}
use calbridge.Scheduler.Runs.{begin_sync-none}
use calbridge.Scheduler.Locks.{syncs_of}

-- A source without a lock gets a free one, and a sync of it begins.
begin_sync-unlocked :
    (id : Text) (s : Scheduler)
    → s.mu ≡ false
    → get id s.sync_locks ≡ none
    → is_held s.next_id s.running ≡ false
    → Returns (λ t. syncs_of id t.running ≡ 1 + syncs_of id s.running) (begin_sync id s)
unfolding try_lock syncs_of
begin_sync-unlocked id s m e f = rw (begin_sync-none id s m e, f, ==_refl id) refl

-- The state after RemoveJob has found a job and closed its channel.
removed : Text → ℕ → Scheduler → Scheduler
unfolding drop_job clear_stale_state
removed id c s =
    record (clear_stale_state id (drop_job id (record s { closed = c ∷ s.closed; mu = true }))) {
      mu = false;
    }

remove_job-removed :
    (id : Text) (j : Job) (s : Scheduler)
    → IsSound s
    → get id s.jobs ≡ some j
    → remove_job id s ≡ ok (removed id j.stop_ch s)
unfolding remove_job deferred_unlock removed
remove_job-removed id j s v e =
    let l = Live-get s.closed s.next_id id j s.jobs v.live e in
    let s₁ : Scheduler = record s { mu = true } in
    rw (lock-free s v.mu_free, e, ◌>>=◌, close-fresh j.stop_ch s₁ l.1) refl

removed-fields :
    (id : Text) (c : ℕ) (s : Scheduler)
    → ((removed id c s).sync_locks ≡ delete id s.sync_locks)
      × ((removed id c s).running ≡ s.running)
      × ((removed id c s).next_id ≡ s.next_id)
unfolding removed clear_stale_state drop_job
removed-fields id c s = elim (Bool-cases s.has_notifier) [
  | inl q ↦ rw q (refl, refl, refl)
  | inr q ↦ rw q (refl, refl, refl)
]

removed-mu : (id : Text) (c : ℕ) (s : Scheduler) → (removed id c s).mu ≡ false
unfolding removed
removed-mu id c s = refl

-- RemoveJob deletes the lock of the source, also while a sync holds it. So in a sound state with free
-- identifiers, where the source has a job, removing the job and then beginning a sync of the source
-- runs one more sync of it than ran before: a sync that runs is no obstacle.
pub remove_job-begin_sync :
    (id : Text) (j : Job) (s : Scheduler)
    → IsSound s
    → get id s.jobs ≡ some j
    → is_held s.next_id s.running ≡ false
    → Returns
        (λ t. syncs_of id t.running ≡ 1 + syncs_of id s.running)
        (remove_job id s >>= begin_sync id)
remove_job-begin_sync id j s v e f =
    let r = removed-fields id j.stop_ch s in
    let h : Returns (λ t. syncs_of id t.running ≡ 1 + syncs_of id (removed id j.stop_ch s).running)
        (begin_sync id (removed id j.stop_ch s)) =
      begin_sync-unlocked id (removed id j.stop_ch s) (removed-mu id j.stop_ch s)
        (rw r.0 (get-delete_self id s.sync_locks)) (rw (r.1, r.2) f) in
    rw (remove_job-removed id j s v e) (
      subst
        (λ x.
          Returns (λ t. syncs_of id t.running ≡ 1 + syncs_of id x)
            (begin_sync id (removed id j.stop_ch s)))
        r.1 h)
