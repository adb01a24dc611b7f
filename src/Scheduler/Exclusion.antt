-- ===== src/Scheduler/Exclusion.antt =====
-- At most one sync of a source: getSyncLock and TryLock in executeSync, and what RemoveJob does to it.
use calbridge.Common.{
  ℕ, ◌+◌, ◌≤◌, ◌≡◌, refl, subst, inl, inr, Text, List, [], ◌∷◌, Option, none, some, Bool, true,
  false, eqb, ◌==◌, arith, Bool-cases, ==_iff, ==_refl, ==_sound,
}
use calbridge.Common.Dict.{Dict, get, delete, get-delete}
use calbridge.Scheduler.{
  Job, Scheduler, Outcome, ok, panic, blocked, ◌>>=◌, member, close_channel, new_scheduler,
  remove_job, drop_job, clear_stale_state, is_held, release, finish_sync,
}
use calbridge.Scheduler.Panics.{lock-free, lock-held}
use calbridge.Scheduler.Runs.{
  Call, add, add_delayed, remove, update_interval, touch, fetch, attempt, finish, start_all,
  stop_all, step,
}
use calbridge.Scheduler.Locks.{
  syncs_of, AreApart, AreOwn, Keeps, Holds, Keeps-bind, deferred_unlock-Keeps, add_job-Keeps,
  add_job_with_delay-Keeps, update_job_interval-Keeps, update_next_sync_at-Keeps, stop-Keeps,
  start-Keeps, fetch_lock-Keeps, attempt_lock-Keeps,
}

-- The call removes no source of which a sync runs, or a start waits.
abbrev pub RemovesIdle : Call → Scheduler → Type 0
RemovesIdle (remove id) s = (syncs_of id s.running ≡ 0) × (syncs_of id s.waiting ≡ 0)
RemovesIdle (add id interval now) s = Unit
RemovesIdle (add_delayed id interval delay now) s = Unit
RemovesIdle (update_interval id interval now) s = Unit
RemovesIdle (touch id now) s = Unit
RemovesIdle (fetch id) s = Unit
RemovesIdle (attempt id l) s = Unit
RemovesIdle (finish l) s = Unit
RemovesIdle (start_all sources now) s = Unit
RemovesIdle stop_all s = Unit

-- The scheduler that a call leaves, also where it panics.
abbrev pub Leaves : Outcome → Scheduler → Type 0
Leaves (ok s) t = s ≡ t
Leaves (panic s) t = s ≡ t
Leaves blocked t = ⊥

-- The states that calls lead to, if no job is removed while its source syncs or starts to.
pub data Reachable : Scheduler → Type 0 where
  fresh : (has_notifier : Bool) → Reachable (new_scheduler has_notifier)
  after :
      (c : Call)
      → (s t : Scheduler) → Reachable s
      → RemovesIdle c s
      → Leaves (step c s) t
      → Reachable t

not-two : (n : ℕ) → 1 + n ≡ 0 → ⊥
not-two n e = omega (arith, e)

AreOwn-delete :
    (id : Text) (locks : Dict ℕ) (running : List (Text × ℕ))
    → syncs_of id running ≡ 0
    → AreOwn locks running
    → AreOwn (delete id locks) running
unfolding syncs_of
AreOwn-delete id locks [] e h = tt
AreOwn-delete id locks ((k, l) ∷ rest) e h = elim (Bool-cases (k == id)) [
  | inl q ↦
      let two : 1 + syncs_of id rest ≡ 0 = rw q at e in elim (not-two (syncs_of id rest) two) [ ]
  | inr q ↦
      let later : syncs_of id rest ≡ 0 = ground (arith, e, q) in
      (
        ground (arith, get-delete id k locks, ==_iff id k, ==_refl k, q, h.0),
        AreOwn-delete id locks rest later h.1,
      )
]

clear_stale_state-Keeps : (id : Text) (s : Scheduler) → Holds s → Holds (clear_stale_state id s)
unfolding clear_stale_state
clear_stale_state-Keeps id s h = elim (Bool-cases s.has_notifier) [
  | inl e ↦ rw e h
  | inr e ↦ rw e h
]

-- RemoveJob once `mu` is taken, before the notifier is told.
removed-Keeps :
    (id : Text) (o : Option Job) (s : Scheduler)
    → (syncs_of id s.running ≡ 0) × (syncs_of id s.waiting ≡ 0)
    → Holds s
    → Keeps Holds
        (elim o [ none ↦ ok s | some j ↦ (close_channel j.stop_ch s >>= λ t. ok (drop_job id t)) ])
unfolding close_channel drop_job
removed-Keeps id none s e h = h
removed-Keeps id (some j) s e h = elim (Bool-cases (member j.stop_ch s.closed)) [
  | inl q ↦ rw q h
  | inr q ↦ rw q (record {
    apart = h.apart;
    own = AreOwn-delete id s.sync_locks s.running e.0 h.own;
    ready = AreOwn-delete id s.sync_locks s.waiting e.1 h.ready;
  })
]

remove_job-Keeps :
    (id : Text) (s : Scheduler)
    → (syncs_of id s.running ≡ 0) × (syncs_of id s.waiting ≡ 0)
    → Holds s
    → Keeps Holds (remove_job id s)
unfolding remove_job
remove_job-Keeps id s e h = elim (Bool-cases s.mu) [
  | inl q ↦ rw (lock-held s q) tt
  | inr q ↦
      rw (lock-free s q, ◌>>=◌)
        (deferred_unlock-Keeps _ (
          Keeps-bind Holds _ _ (removed-Keeps id (get id s.jobs) (record s { mu = true }) e h)
            (λ t k. clear_stale_state-Keeps id t k)))
]

is_held-release :
    (l m : ℕ) (running : List (Text × ℕ))
    → is_held l running ≡ false
    → is_held l (release m running) ≡ false
unfolding is_held release
is_held-release l m [] h = refl
is_held-release l m ((k, n) ∷ rest) h = ground (arith, h, is_held-release l m rest)

AreApart-release :
    (m : ℕ) (running : List (Text × ℕ)) → AreApart running → AreApart (release m running)
unfolding release
AreApart-release m [] h = tt
AreApart-release m ((k, n) ∷ rest) h = elim (Bool-cases (eqb n m)) [
  | inl q ↦ rw q (AreApart-release m rest h.1)
  | inr q ↦ rw q (is_held-release n m rest h.0, AreApart-release m rest h.1)
]

AreOwn-release :
    (m : ℕ) (locks : Dict ℕ) (running : List (Text × ℕ))
    → AreOwn locks running
    → AreOwn locks (release m running)
unfolding release
AreOwn-release m locks [] h = tt
AreOwn-release m locks ((k, n) ∷ rest) h = elim (Bool-cases (eqb n m)) [
  | inl q ↦ rw q (AreOwn-release m locks rest h.1)
  | inr q ↦ rw q (h.0, AreOwn-release m locks rest h.1)
]

step-Keeps : (c : Call) (s : Scheduler) → RemovesIdle c s → Holds s → Keeps Holds (step c s)
unfolding finish_sync
step-Keeps (add id interval now) s e h = add_job-Keeps id interval now s h
step-Keeps (add_delayed id interval delay now) s e h =
    add_job_with_delay-Keeps id interval delay now s h
step-Keeps (remove id) s e h = remove_job-Keeps id s e h
step-Keeps (update_interval id interval now) s e h = update_job_interval-Keeps id interval now s h
step-Keeps (touch id now) s e h = update_next_sync_at-Keeps id now s h
step-Keeps (fetch id) s e h = fetch_lock-Keeps id s h
step-Keeps (attempt id l) s e h = attempt_lock-Keeps id l s h
step-Keeps (finish l) s e h = record {
  apart = AreApart-release l s.running h.apart;
  own = AreOwn-release l s.sync_locks s.running h.own;
  ready = h.ready;
}
step-Keeps (start_all sources now) s e h = start-Keeps sources now s h
step-Keeps stop_all s e h = stop-Keeps s h

Keeps-Leaves : (P : Scheduler → Type 0) (o : Outcome) (t : Scheduler) → Keeps P o → Leaves o t → P t
Keeps-Leaves P (ok s) t h e = subst P e h
Keeps-Leaves P (panic s) t h e = subst P e h
Keeps-Leaves P blocked t h e = elim e [ ]

Reachable-Holds : (s : Scheduler) → Reachable s → Holds s
unfolding new_scheduler
Reachable-Holds s (fresh b) = record { apart = tt; own = tt; ready = tt }
Reachable-Holds t (after c s u r i e) =
    Keeps-Leaves Holds (step c s) t (step-Keeps c s i (Reachable-Holds s r)) e

-- A source whose lock no sync holds has no sync.
syncs_of-free :
    (id : Text) (l : ℕ) (locks : Dict ℕ) (running : List (Text × ℕ))
    → get id locks ≡ some l
    → is_held l running ≡ false
    → AreOwn locks running
    → syncs_of id running ≡ 0
unfolding syncs_of is_held
syncs_of-free id l locks [] e f h = refl
syncs_of-free id l locks ((k, n) ∷ rest) e f h =
    let later : is_held l rest ≡ false = ground (arith, f) in
    ground (arith, f, h.0, e, ==_iff k id, syncs_of-free id l locks rest e later h.1)

syncs_of-once :
    (id : Text) (locks : Dict ℕ) (running : List (Text × ℕ))
    → AreApart running
    → AreOwn locks running
    → syncs_of id running ≤ 1
unfolding syncs_of
syncs_of-once id locks [] a h = omega arith
syncs_of-once id locks ((k, l) ∷ rest) a h = elim (Bool-cases (k == id)) [
  | inl q ↦
      let same : get id locks ≡ some l = subst (λ x. get x locks ≡ some l) (==_sound k id q) h.0 in
      let alone : syncs_of id rest ≡ 0 = syncs_of-free id l locks rest same a.0 h.1 in
      rw q (omega (arith, alone))
  | inr q ↦ rw q (omega (arith, syncs_of-once id locks rest a.1 h.1))
]

-- In every state that calls lead a new scheduler to, panics included, at most one sync of each source
-- runs, if no job is removed while a sync of its source runs or a start of one has got the lock and not
-- tried it. Between those two steps of a start any other call may come.
pub Reachable-syncs_of : (s : Scheduler) (id : Text) → Reachable s → syncs_of id s.running ≤ 1
Reachable-syncs_of s id r =
    let h = Reachable-Holds s r in syncs_of-once id s.sync_locks s.running h.apart h.own
