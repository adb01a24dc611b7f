-- ===== src/Scheduler/Locks.antt =====
-- The lock of each source, and the syncs that hold one: executeSync and the methods beside it.
use calbridge.Common.{
  ◌&&◌, eqb, subst, ==_sound, ℕ, ◌+◌, ◌≡◌, inl, inr, Text, List, [], ◌∷◌, Option, none, some, Bool,
  true, false, ◌==◌, arith, if◌then◌else◌, All, Bool-cases, Option-cases, ==_iff,
}
use calbridge.Common.Dict.{Dict, get, put, get-put}
use calbridge.Scheduler.{
  Job, Routine, run_job, run_job_with_delay, Scheduler, Outcome, ok, panic, blocked, ◌>>=◌, lock,
  unlock, deferred_unlock, close_channel, new_ticker, stop_existing, install, add_job,
  add_job_with_delay, update_job_interval, update_next_sync_at, close_all, stop_started, stop,
  add_sources, start_sources, start_fresh, start, is_held, ensure_lock, get_sync_lock, try_lock,
  fetch_lock, is_waiting, take_out, attempt_lock,
}

-- The number of syncs of a source that run.
unfoldable pub syncs_of : Text → List (Text × ℕ) → ℕ
syncs_of id [] = 0
syncs_of id ((k, l) ∷ rest) = (if k == id then 1 else 0) + syncs_of id rest

-- No two running syncs hold the same lock.
abbrev pub AreApart : List (Text × ℕ) → Type 0
AreApart [] = Unit
AreApart ((k, l) ∷ rest) = (is_held l rest ≡ false) × AreApart rest

-- Each running sync holds the lock that its source has.
abbrev pub AreOwn : Dict ℕ → List (Text × ℕ) → Type 0
AreOwn locks running = All (λ e. get e.0 locks ≡ some e.1) running

pub record IsLocked (locks : Dict ℕ) (running waiting : List (Text × ℕ)) : Type 0 where
  pub apart : AreApart running
  pub own : AreOwn locks running
  -- Each start that waits has the lock that its source has.
  pub ready : AreOwn locks waiting

-- Of the scheduler after a call, however it ends.
abbrev pub Keeps : (Scheduler → Type 0) → Outcome → Type 0
Keeps P (ok s) = P s
Keeps P (panic s) = P s
Keeps P blocked = Unit

abbrev pub Holds : Scheduler → Type 0
Holds s = IsLocked s.sync_locks s.running s.waiting

module _ (P : Scheduler → Type 0) where
  pub Keeps-bind :
      (o : Outcome) (f : Scheduler → Outcome)
      → Keeps P o
      → ((t : Scheduler) → P t → Keeps P (f t))
      → Keeps P (o >>= f)
  Keeps-bind (ok s) f h k = k s h
  Keeps-bind (panic s) f h k = h
  Keeps-bind blocked f h k = tt

  Keeps-if : (b : Bool) (x y : Outcome) → Keeps P x → Keeps P y → Keeps P (if b then x else y)
  Keeps-if true x y h k = h
  Keeps-if false x y h k = k

pub lock-Keeps : (s : Scheduler) → Holds s → Keeps Holds (lock s)
unfolding lock
lock-Keeps s h = Keeps-if Holds s.mu blocked (ok (record s { mu = true })) tt h

pub deferred_unlock-Keeps : (o : Outcome) → Keeps Holds o → Keeps Holds (deferred_unlock o)
unfolding deferred_unlock
deferred_unlock-Keeps (ok s) h = h
deferred_unlock-Keeps (panic s) h = h
deferred_unlock-Keeps blocked h = tt

pub close_channel-Keeps : (c : ℕ) (s : Scheduler) → Holds s → Keeps Holds (close_channel c s)
unfolding close_channel
close_channel-Keeps c s h = Keeps-if Holds _ (panic s) (ok (record s { closed = c ∷ s.closed })) h h

new_ticker-Keeps : (n : ℕ) (s : Scheduler) → Holds s → Keeps Holds (new_ticker n s)
unfolding new_ticker
new_ticker-Keeps n s h = Keeps-if Holds _ (panic s) (ok s) h h

stop_existing-Keeps : (id : Text) (s : Scheduler) → Holds s → Keeps Holds (stop_existing id s)
unfolding stop_existing
stop_existing-Keeps id s h = elim (Option-cases (get id s.jobs)) [
  | inl e ↦ rw (e, stop_existing) h
  | inr (j, e) ↦ rw (e, stop_existing) (close_channel-Keeps j.stop_ch s h)
]

-- Under `mu`: the job that a source has stops, and a new one is installed.
replace-Keeps :
    (id : Text) (interval next : ℕ) (routine : Job → Routine) (s : Scheduler)
    → Holds s
    → Keeps Holds (
        deferred_unlock (
          lock s >>= λ s₁. stop_existing id s₁ >>= λ s₂.
          new_ticker interval s₂ >>= λ s₃. ok (install id interval next routine s₃)))
unfolding install
replace-Keeps id interval next routine s h = deferred_unlock-Keeps _ (
    Keeps-bind Holds (lock s) _ (lock-Keeps s h) (λ s₁ h₁.
      Keeps-bind Holds (stop_existing id s₁) _ (stop_existing-Keeps id s₁ h₁) (λ s₂ h₂.
        Keeps-bind Holds (new_ticker interval s₂) _ (new_ticker-Keeps interval s₂ h₂)
          (λ s₃ h₃. h₃))))

pub add_job-Keeps :
    (id : Text) (interval now : ℕ) (s : Scheduler)
    → Holds s
    → Keeps Holds (add_job id interval now s)
unfolding add_job
add_job-Keeps id interval now s h = replace-Keeps id interval now run_job s h

pub add_job_with_delay-Keeps :
    (id : Text) (interval delay now : ℕ) (s : Scheduler)
    → Holds s
    → Keeps Holds (add_job_with_delay id interval delay now s)
unfolding add_job_with_delay
add_job_with_delay-Keeps id interval delay now s h =
    replace-Keeps id interval (now + delay) (λ j. run_job_with_delay j delay) s h

pub update_job_interval-Keeps :
    (id : Text) (interval now : ℕ) (s : Scheduler)
    → Holds s
    → Keeps Holds (update_job_interval id interval now s)
unfolding update_job_interval unlock install
update_job_interval-Keeps id interval now s h =
    Keeps-bind Holds (lock s) _ (lock-Keeps s h) (λ s₁ h₁. elim (Option-cases (get id s₁.jobs)) [
      | inl e ↦ rw (e, Keeps) h₁
      | inr (j, e) ↦
          rw (e, Keeps)
            (Keeps-bind Holds (close_channel j.stop_ch s₁) _ (close_channel-Keeps j.stop_ch s₁ h₁)
              (λ s₂ h₂.
                Keeps-bind Holds (new_ticker interval _) _ (new_ticker-Keeps interval _ h₂)
                  (λ s₃ h₃. h₃)))
    ])

pub update_next_sync_at-Keeps :
    (id : Text) (now : ℕ) (s : Scheduler) → Holds s → Keeps Holds (update_next_sync_at id now s)
unfolding update_next_sync_at
update_next_sync_at-Keeps id now s h = deferred_unlock-Keeps _ (
    Keeps-bind Holds (lock s) _ (lock-Keeps s h) (λ s₁ h₁. elim (Option-cases (get id s₁.jobs)) [
      | inl e ↦ rw (e, Keeps) h₁
      | inr (j, e) ↦ rw (e, Keeps) h₁
    ]))

close_all-Keeps : (d : Dict Job) (s : Scheduler) → Holds s → Keeps Holds (close_all d s)
unfolding close_all
close_all-Keeps [] s h = h
close_all-Keeps ((id, j) ∷ d) s h =
    Keeps-bind Holds _ (close_all d) (close_channel-Keeps j.stop_ch s h)
      (λ t k. close_all-Keeps d t k)

stop_started-Keeps : (s : Scheduler) → Holds s → Keeps Holds (stop_started s)
unfolding stop_started unlock lock
stop_started-Keeps s h =
    Keeps-bind Holds (close_all s.jobs _) _ (close_all-Keeps s.jobs _ h) (λ t k. k)

pub stop-Keeps : (s : Scheduler) → Holds s → Keeps Holds (stop s)
unfolding stop unlock
stop-Keeps s h =
    Keeps-bind Holds (lock s) _ (lock-Keeps s h)
      (λ t k. Keeps-if Holds t.started (stop_started t) _ (stop_started-Keeps t k) k)

add_sources-Keeps :
    (now i : ℕ) (l : List (Text × ℕ)) (s : Scheduler)
    → Holds s
    → Keeps Holds (add_sources now i l s)
unfolding add_sources
add_sources-Keeps now i [] s h = h
add_sources-Keeps now i ((id, n) ∷ l) s h =
    Keeps-bind Holds _ (add_sources now (i + 1) l) (add_job_with_delay-Keeps id _ _ now s h)
      (λ t k. add_sources-Keeps now (i + 1) l t k)

start_sources-Keeps :
    (sources : Option (List (Text × ℕ))) (now : ℕ) (s : Scheduler)
    → Holds s
    → Keeps Holds (start_sources sources now s)
unfolding start_sources
start_sources-Keeps none now s h = h
start_sources-Keeps (some l) now s h =
    Keeps-bind Holds _ _ (add_sources-Keeps now 0 l s h) (λ t k. k)

pub start-Keeps :
    (sources : Option (List (Text × ℕ))) (now : ℕ) (s : Scheduler)
    → Holds s
    → Keeps Holds (start sources now s)
unfolding start start_fresh unlock
start-Keeps sources now s h =
    Keeps-bind Holds (lock s) _ (lock-Keeps s h)
      (λ t k. Keeps-if Holds t.started _ _ k (start_sources-Keeps sources now _ k))

-- A new lock for a source that has none.
AreOwn-put :
    (id : Text) (l : ℕ) (locks : Dict ℕ) (running : List (Text × ℕ))
    → get id locks ≡ none
    → AreOwn locks running
    → AreOwn (put id l locks) running
AreOwn-put id l locks [] e h = tt
AreOwn-put id l locks ((k, m) ∷ rest) e h =
    (ground (arith, get-put id k l locks, ==_iff id k, h.0, e), AreOwn-put id l locks rest e h.1)

ensure_lock-Keeps : (id : Text) (s : Scheduler) → Holds s → Holds (ensure_lock id s)
unfolding ensure_lock
ensure_lock-Keeps id s h = elim (Option-cases (get id s.sync_locks)) [
  | inl e ↦
      rw (e, ensure_lock)
        (record {
          apart = h.apart;
          own = AreOwn-put id s.next_id s.sync_locks s.running e h.own;
          ready = AreOwn-put id s.next_id s.sync_locks s.waiting e h.ready;
        })
  | inr (l, e) ↦ rw (e, ensure_lock) h
]

try_lock-Keeps :
    (id : Text) (l : ℕ) (s : Scheduler)
    → get id s.sync_locks ≡ some l
    → Holds s
    → Holds (try_lock id l s)
unfolding try_lock
try_lock-Keeps id l s e h = elim (Bool-cases (is_held l s.running)) [
  | inl q ↦ rw q h
  | inr q ↦ rw q (record { apart = (q, h.apart); own = (e, h.own); ready = h.ready })
]

pub fetch_lock-Keeps : (id : Text) (s : Scheduler) → Holds s → Keeps Holds (fetch_lock id s)
unfolding fetch_lock get_sync_lock
fetch_lock-Keeps id s h =
    Keeps-bind Holds (get_sync_lock id s) _
      (deferred_unlock-Keeps _
        (Keeps-bind Holds (lock s) _ (lock-Keeps s h) (λ t k. ensure_lock-Keeps id t k)))
      (λ t k. elim (Option-cases (get id t.sync_locks)) [
        | inl e ↦ rw (e, Keeps) k
        | inr (l, e) ↦ rw (e, Keeps) (record { apart = k.apart; own = k.own; ready = (e, k.ready) })
      ])

-- A start that waits has the lock of its source.
AreOwn-is_waiting :
    (id : Text) (l : ℕ) (locks : Dict ℕ) (waiting : List (Text × ℕ))
    → is_waiting id l waiting ≡ true
    → AreOwn locks waiting
    → get id locks ≡ some l
unfolding is_waiting
AreOwn-is_waiting id l locks [] e h = cc
AreOwn-is_waiting id l locks ((k, m) ∷ rest) e h = elim (Bool-cases (k == id && eqb m l)) [
  | inl q ↦
      let same : k ≡ id = ==_sound k id (ground (arith, q)) in
      let equal : m ≡ l = ground (arith, q) in
      subst (λ x. get x locks ≡ some l) same (subst (λ n. get k locks ≡ some n) equal h.0)
  | inr q ↦ AreOwn-is_waiting id l locks rest (rw q at e) h.1
]

AreOwn-take_out :
    (id : Text) (l : ℕ) (locks : Dict ℕ) (waiting : List (Text × ℕ))
    → AreOwn locks waiting
    → AreOwn locks (take_out id l waiting)
unfolding take_out
AreOwn-take_out id l locks [] h = tt
AreOwn-take_out id l locks ((k, m) ∷ rest) h = elim (Bool-cases (k == id && eqb m l)) [
  | inl q ↦ rw q h.1
  | inr q ↦ rw q (h.0, AreOwn-take_out id l locks rest h.1)
]

pub attempt_lock-Keeps : (id : Text) (l : ℕ) (s : Scheduler) → Holds s → Holds (attempt_lock id l s)
unfolding attempt_lock
attempt_lock-Keeps id l s h = elim (Bool-cases (is_waiting id l s.waiting)) [
  | inl e ↦ rw e (
      try_lock-Keeps id l _ (AreOwn-is_waiting id l s.sync_locks s.waiting e h.ready) (record {
        apart = h.apart;
        own = h.own;
        ready = AreOwn-take_out id l s.sync_locks s.waiting h.ready;
      }))
  | inr e ↦ rw e h
]
