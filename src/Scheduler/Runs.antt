-- ===== src/Scheduler/Runs.antt =====
-- Histories of calls of the scheduler's methods.
use calbridge.Common.{
  eqb, ℕ, ◌+◌, ◌*◌, ◌<◌, ◌^◌, ◌≡◌, refl, inl, inr, Text, List, [], ◌∷◌, Option, none, some, Bool,
  true, false, arith, All, Bool-cases, Option-cases, ==_refl,
}
use calbridge.Common.Dict.{Dict, get, put, get-put}
use calbridge.Scheduler.{
  Job, Scheduler, Outcome, ok, panic, blocked, ◌>>=◌, lock, unlock, deferred_unlock, new_scheduler,
  add_job, add_job_with_delay, remove_job, update_job_interval, update_next_sync_at, close_all,
  stop_started, stop, add_sources, start_sources, start_fresh, start, second, startup_stagger,
  to_duration, ensure_lock, get_sync_lock, try_lock, is_held, is_waiting, take_out, fetch_lock,
  attempt_lock, begin_sync, finish_sync,
}
use calbridge.Scheduler.Jobs.{Live, Live-close, Live-widen}
use calbridge.Scheduler.Panics.{
  IsSound, Returns, add_job-IsSound, add_job_with_delay-IsSound, remove_job-IsSound,
  update_job_interval-IsSound, update_next_sync_at-IsSound, lock-free, close-fresh, All-suc,
}

-- One call, with the time at which it reads the clock.
pub data Call : Type 0 where
  add : Text → ℕ → ℕ → Call
  add_delayed : Text → ℕ → ℕ → ℕ → Call
  remove : Text → Call
  update_interval : Text → ℕ → ℕ → Call
  touch : Text → ℕ → Call
  fetch : Text → Call
  attempt : Text → ℕ → Call
  finish : ℕ → Call
  start_all : Option (List (Text × ℕ)) → ℕ → Call
  stop_all : Call

abbrev pub step : Call → Scheduler → Outcome
step (add id interval now) s = add_job id interval now s
step (add_delayed id interval delay now) s = add_job_with_delay id interval delay now s
step (remove id) s = remove_job id s
step (update_interval id interval now) s = update_job_interval id interval now s
step (touch id now) s = update_next_sync_at id now s
step (fetch id) s = fetch_lock id s
step (attempt id l) s = ok (attempt_lock id l s)
step (finish l) s = ok (finish_sync l s)
step (start_all sources now) s = start sources now s
step stop_all s = stop s

pub run : List Call → Scheduler → Outcome
run [] s = ok s
run (c ∷ cs) s = step c s >>= run cs

-- Every interval of the sources, in seconds, is positive and has its nanoseconds on 63 bits.
abbrev pub ArePositive : Option (List (Text × ℕ)) → Type 0
ArePositive none = Unit
ArePositive (some l) = All (λ e. (0 < e.1) × (e.1 * second < 2 ^ 63)) l

-- The intervals that the call gives are positive, as the durations that they become.
abbrev pub HasPositive : Call → Type 0
HasPositive (add id interval now) = 0 < interval
HasPositive (add_delayed id interval delay now) = 0 < interval
HasPositive (remove id) = Unit
HasPositive (update_interval id interval now) = 0 < interval
HasPositive (touch id now) = Unit
HasPositive (fetch id) = Unit
HasPositive (attempt id l) = Unit
HasPositive (finish l) = Unit
HasPositive (start_all sources now) = ArePositive sources
HasPositive stop_all = Unit

Returns-bind :
    (P Q : Scheduler → Type 0) (o : Outcome) (f : Scheduler → Outcome)
    → Returns P o
    → ((t : Scheduler) → P t → Returns Q (f t))
    → Returns Q (o >>= f)
Returns-bind P Q (ok s) f h k = k s h
Returns-bind P Q (panic s) f h k = elim h [ ]
Returns-bind P Q blocked f h k = elim h [ ]

-- Closing the channels of a list of jobs one after the other.
abbrev closed_after : Dict Job → List ℕ → List ℕ
closed_after [] cs = cs
closed_after ((id, j) ∷ d) cs = closed_after d (j.stop_ch ∷ cs)

closed_after-below :
    (b : ℕ) (d : Dict Job) (cs : List ℕ)
    → Live cs b d
    → All (λ c. c < b) cs
    → All (λ c. c < b) (closed_after d cs)
closed_after-below b [] cs h u = u
closed_after-below b ((i, j) ∷ d) cs h u =
    closed_after-below b d (j.stop_ch ∷ cs) (Live-close cs b j.stop_ch d h.2 h.3) (h.0, u)

close_all-closed_after :
    (b : ℕ) (d : Dict Job) (s : Scheduler)
    → Live s.closed b d
    → close_all d s ≡ ok (record s { closed = closed_after d s.closed })
unfolding close_all
close_all-closed_after b [] s h = refl
close_all-closed_after b ((i, j) ∷ d) s h = rw (close-fresh j.stop_ch s h.1) (
    close_all-closed_after b d (record s { closed = j.stop_ch ∷ s.closed })
      (Live-close s.closed b j.stop_ch d h.2 h.3))

stop_started-IsSound :
    (s : Scheduler)
    → Live s.closed s.next_id s.jobs
    → All (λ c. c < s.next_id) s.closed
    → Returns IsSound (stop_started s)
unfolding stop_started unlock lock
stop_started-IsSound s h u =
    let s₁ : Scheduler = record s { mu = true; started = false; cancelled = true } in
    rw (close_all-closed_after s.next_id s.jobs s₁ h) (record {
      mu_free = refl;
      live = tt;
      used = closed_after-below s.next_id s.jobs s.closed h u;
    })

stop-IsSound : (s : Scheduler) → IsSound s → Returns IsSound (stop s)
unfolding stop unlock
stop-IsSound s v = elim (Bool-cases s.started) [
  | inl e ↦
      let s₁ : Scheduler = record s { mu = true } in
      rw (lock-free s v.mu_free, e, ◌>>=◌) (stop_started-IsSound s₁ v.live v.used)
  | inr e ↦
      rw (lock-free s v.mu_free, e, ◌>>=◌) (record { mu_free = refl; live = v.live; used = v.used })
]

to_duration_positive : (n : ℕ) → 0 < n → n * second < 2 ^ 63 → 0 < to_duration n
unfolding to_duration
to_duration_positive n h k = ground arith

add_sources-IsSound :
    (now i : ℕ) (l : List (Text × ℕ)) (s : Scheduler)
    → All (λ e. (0 < e.1) × (e.1 * second < 2 ^ 63)) l
    → IsSound s
    → Returns IsSound (add_sources now i l s)
unfolding add_sources
add_sources-IsSound now i [] s h v = v
add_sources-IsSound now i ((id, interval) ∷ rest) s h v =
    Returns-bind IsSound IsSound _ (add_sources now (i + 1) rest)
      (add_job_with_delay-IsSound id (to_duration interval) (i * startup_stagger) now s
        (to_duration_positive interval h.0.0 h.0.1) v)
      (λ t w. add_sources-IsSound now (i + 1) rest t h.1 w)

start_sources-IsSound :
    (sources : Option (List (Text × ℕ))) (now : ℕ) (s : Scheduler)
    → ArePositive sources
    → IsSound s
    → Returns IsSound (start_sources sources now s)
unfolding start_sources
start_sources-IsSound none now s h v = v
start_sources-IsSound (some l) now s h v =
    Returns-bind IsSound IsSound _ _ (add_sources-IsSound now 0 l s h v)
      (λ t w. record { mu_free = w.mu_free; live = w.live; used = w.used })

start-IsSound :
    (sources : Option (List (Text × ℕ))) (now : ℕ) (s : Scheduler)
    → ArePositive sources
    → IsSound s
    → Returns IsSound (start sources now s)
unfolding start start_fresh unlock
start-IsSound sources now s h v = elim (Bool-cases s.started) [
  | inl e ↦
      rw (lock-free s v.mu_free, e, ◌>>=◌) (record { mu_free = refl; live = v.live; used = v.used })
  | inr e ↦
      rw (lock-free s v.mu_free, e, ◌>>=◌)
        (start_sources-IsSound sources now _ h
          (record { mu_free = refl; live = v.live; used = v.used }))
]

try_lock-IsSound : (id : Text) (l : ℕ) (s : Scheduler) → IsSound s → IsSound (try_lock id l s)
unfolding try_lock
try_lock-IsSound id l s v = elim (Bool-cases (is_held l s.running)) [
  | inl e ↦ rw e v
  | inr e ↦ rw e (record { mu_free = v.mu_free; live = v.live; used = v.used })
]

ensure_lock-some :
    (id : Text) (l : ℕ) (s : Scheduler) → get id s.sync_locks ≡ some l → ensure_lock id s ≡ s
unfolding ensure_lock
ensure_lock-some id l s e = rw (e, ensure_lock) refl

ensure_lock-none :
    (id : Text) (s : Scheduler)
    → get id s.sync_locks ≡ none
    → ensure_lock id s
      ≡ record s { sync_locks = put id s.next_id s.sync_locks; next_id = s.next_id + 1 }
unfolding ensure_lock
ensure_lock-none id s e = rw (e, ensure_lock) refl

get-put_self : (id : Text) (l : ℕ) (d : Dict ℕ) → get id (put id l d) ≡ some l
get-put_self id l d = rw (get-put id id l d, ==_refl id) refl

get_sync_lock-ensure_lock :
    (id : Text) (s t : Scheduler)
    → s.mu ≡ false
    → ensure_lock id (record s { mu = true }) ≡ t
    → get_sync_lock id s ≡ ok (record t { mu = false })
unfolding get_sync_lock deferred_unlock
get_sync_lock-ensure_lock id s t h e = rw (lock-free s h, ◌>>=◌, e) refl

eqb_refl : (n : ℕ) → eqb n n ≡ true
eqb_refl n = ground arith

pub begin_sync-none :
    (id : Text) (s : Scheduler)
    → s.mu ≡ false
    → get id s.sync_locks ≡ none
    → begin_sync id s
      ≡ ok (
          try_lock id s.next_id (record s {
            mu = false;
            sync_locks = put id s.next_id s.sync_locks;
            next_id = s.next_id + 1;
          }))
unfolding begin_sync fetch_lock attempt_lock is_waiting take_out
begin_sync-none id s h e =
    let s₁ : Scheduler = record s { mu = true } in
    rw
      (
        get_sync_lock-ensure_lock id s _ h (ensure_lock-none id s₁ e),
        ◌>>=◌,
        get-put_self id s.next_id s.sync_locks,
        get-put_self id s.next_id s.sync_locks,
        ==_refl id,
        eqb_refl s.next_id,
      )
      refl

get_sync_lock-IsSound :
    (id : Text) (s : Scheduler) → IsSound s → Returns IsSound (get_sync_lock id s)
get_sync_lock-IsSound id s v =
    let s₁ : Scheduler = record s { mu = true } in
    elim (Option-cases (get id s.sync_locks)) [
      | inl e ↦ rw (get_sync_lock-ensure_lock id s _ v.mu_free (ensure_lock-none id s₁ e)) (record {
        mu_free = refl;
        live = Live-widen s.closed s.next_id s.jobs v.live;
        used = All-suc s.next_id s.closed v.used;
      })
      | inr (l, e) ↦
          rw (get_sync_lock-ensure_lock id s s₁ v.mu_free (ensure_lock-some id l s₁ e))
            (record { mu_free = refl; live = v.live; used = v.used })
    ]

fetch_lock-IsSound : (id : Text) (s : Scheduler) → IsSound s → Returns IsSound (fetch_lock id s)
unfolding fetch_lock
fetch_lock-IsSound id s v =
    Returns-bind IsSound IsSound (get_sync_lock id s) _ (get_sync_lock-IsSound id s v) (λ t w.
      elim (Option-cases (get id t.sync_locks)) [
        | inl e ↦ rw (e, Returns) w
        | inr (l, e) ↦
            rw (e, Returns) (record { mu_free = w.mu_free; live = w.live; used = w.used })
      ])

attempt_lock-IsSound :
    (id : Text) (l : ℕ) (s : Scheduler) → IsSound s → IsSound (attempt_lock id l s)
unfolding attempt_lock
attempt_lock-IsSound id l s v = elim (Bool-cases (is_waiting id l s.waiting)) [
  | inl e ↦
      rw e (try_lock-IsSound id l _ (record { mu_free = v.mu_free; live = v.live; used = v.used }))
  | inr e ↦ rw e v
]

step-IsSound : (c : Call) (s : Scheduler) → HasPositive c → IsSound s → Returns IsSound (step c s)
unfolding finish_sync
step-IsSound (add id interval now) s h v = add_job-IsSound id interval now s h v
step-IsSound (add_delayed id interval delay now) s h v =
    add_job_with_delay-IsSound id interval delay now s h v
step-IsSound (remove id) s h v = remove_job-IsSound id s v
step-IsSound (update_interval id interval now) s h v =
    update_job_interval-IsSound id interval now s h v
step-IsSound (touch id now) s h v = update_next_sync_at-IsSound id now s v
step-IsSound (fetch id) s h v = fetch_lock-IsSound id s v
step-IsSound (attempt id l) s h v = attempt_lock-IsSound id l s v
step-IsSound (finish l) s h v = record { mu_free = v.mu_free; live = v.live; used = v.used }
step-IsSound (start_all sources now) s h v = start-IsSound sources now s h v
step-IsSound stop_all s h v = stop-IsSound s v

pub run-IsSound :
    (cs : List Call) (s : Scheduler) → All HasPositive cs → IsSound s → Returns IsSound (run cs s)
unfolding run
run-IsSound [] s h v = v
run-IsSound (c ∷ cs) s h v =
    Returns-bind IsSound IsSound (step c s) (run cs) (step-IsSound c s h.0 v)
      (λ t w. run-IsSound cs t h.1 w)

-- A new scheduler runs any history of calls, in which every interval that a call gives is positive and
-- every interval that Start reads has its nanoseconds on 63 bits (up to 9223372036 seconds), without a panic and without waiting for `mu` for ever, and at the end `mu` is free and the stop
-- channels of the jobs are open and different from each other.
pub run-new_scheduler-IsSound :
    (has_notifier : Bool) (cs : List Call)
    → All HasPositive cs
    → Returns IsSound (run cs (new_scheduler has_notifier))
unfolding new_scheduler
run-new_scheduler-IsSound has_notifier cs h =
    run-IsSound cs (new_scheduler has_notifier) h (record { mu_free = refl; live = tt; used = tt })
