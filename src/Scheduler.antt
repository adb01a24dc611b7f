-- ===== src/Scheduler.antt =====
-- internal/scheduler/scheduler.go: the jobs, their stop channels, and the lock of each source. A
-- method is one step, except executeSync: getSyncLock is the step `fetch_lock`, TryLock the step
-- `attempt_lock` and the end `finish_sync`, between which other steps may come. Channels and locks are numbers. A duration that is not positive is 0.
pub mod Jobs
pub mod Panics
pub mod Runs
pub mod Locks
pub mod Exclusion
pub mod Overlap
pub mod Stuck
pub mod Stale
pub mod Tests
use calbridge.Common.{
  ℕ, ◌+◌, ◌*◌, ◌≡◌, Text, List, [], ◌∷◌, ◌++◌, Option, none, some, Bool, true, false, eqb, length,
  ◌||◌, ◌&&◌, ◌==◌, if◌then◌else◌, ltb, ◌%◌, ◌^◌,
}
use calbridge.Common.Dict.{Dict, get, put, delete}

pub record Job : Type 0 where
  pub source_id : Text
  pub interval : ℕ
  pub stop_ch : ℕ
  pub next_sync_at : ℕ

-- The goroutines that the scheduler starts.
pub data Routine : Type 0 where
  run_job run_job_from_ticker : Job → Routine
  run_job_with_delay : Job → ℕ → Routine
  cleanup health_log stale_detection : Routine

-- Calls of the notifier and of the database.
pub data Notice : Type 0 where
  clear_stale : Text → Notice
  reset_statuses : Notice

pub record Scheduler : Type 0 where
  pub jobs : Dict Job
  pub sync_locks : Dict ℕ
  -- The stop channels that are closed, and the syncs that hold a lock.
  pub closed : List ℕ
  pub running : List (Text × ℕ)
  -- The starts of a sync that have the lock of their source from getSyncLock and not tried it yet.
  pub waiting : List (Text × ℕ)
  pub next_id : ℕ
  pub routines : List Routine
  pub notices : List Notice
  pub has_notifier : Bool
  pub started : Bool
  pub cancelled : Bool
  -- Whether the mutex `mu` is held.
  pub mu : Bool

-- `panic` has the state in which the panic leaves the scheduler; `blocked` waits for `mu` for ever.
pub data Outcome : Type 0 where
  ok panic : Scheduler → Outcome
  blocked : Outcome

infixl 5 ◌>>=◌
abbrev pub ◌>>=◌ : Outcome → (Scheduler → Outcome) → Outcome
ok s >>= f = f s
panic s >>= f = panic s
blocked >>= f = blocked

pub new_scheduler : Bool → Scheduler
new_scheduler has_notifier = record {
  jobs = [];
  sync_locks = [];
  closed = [];
  running = [];
  waiting = [];
  next_id = 0;
  routines = [];
  notices = [];
  has_notifier = has_notifier;
  started = false;
  cancelled = false;
  mu = false;
}

unfoldable pub member : ℕ → List ℕ → Bool
member x [] = false
member x (y ∷ ys) = eqb y x || member x ys

pub lock : Scheduler → Outcome
lock s = if s.mu then blocked else ok (record s { mu = true })

unlock : Scheduler → Outcome
unlock s = ok (record s { mu = false })

-- defer s.mu.Unlock() also runs on a panic.
pub deferred_unlock : Outcome → Outcome
deferred_unlock (ok s) = ok (record s { mu = false })
deferred_unlock (panic s) = panic (record s { mu = false })
deferred_unlock blocked = blocked

-- close(ch): closing a closed channel panics.
pub close_channel : ℕ → Scheduler → Outcome
unfolding member
close_channel c s = if member c s.closed then panic s else ok (record s { closed = c ∷ s.closed })

-- time.NewTicker panics unless the interval is positive.
pub new_ticker : ℕ → Scheduler → Outcome
new_ticker interval s = if eqb interval 0 then panic s else ok s

-- Stop the job that a source has, if it has one.
pub stop_existing : Text → Scheduler → Outcome
unfolding close_channel
stop_existing id s = elim (get id s.jobs) [ none ↦ ok s | some j ↦ close_channel j.stop_ch s ]

pub new_job : Text → ℕ → ℕ → ℕ → Job
new_job id interval next_sync_at ch = record {
  source_id = id;
  interval = interval;
  stop_ch = ch;
  next_sync_at = next_sync_at;
}

-- Put the new job in the map, and start its goroutine.
pub install : Text → ℕ → ℕ → (Job → Routine) → Scheduler → Scheduler
unfolding new_job
install id interval next_sync_at routine s =
    let j = new_job id interval next_sync_at s.next_id in
    record s { jobs = put id j s.jobs; next_id = s.next_id + 1; routines = routine j ∷ s.routines }

pub add_job : Text → ℕ → ℕ → Scheduler → Outcome
unfolding lock deferred_unlock stop_existing new_ticker install
add_job id interval now s = deferred_unlock (do
  s₁ ← lock s
  s₂ ← stop_existing id s₁
  s₃ ← new_ticker interval s₂
  ok (install id interval now run_job s₃))

pub add_job_with_delay : Text → ℕ → ℕ → ℕ → Scheduler → Outcome
unfolding lock deferred_unlock stop_existing new_ticker install
add_job_with_delay id interval delay now s = deferred_unlock (do
  s₁ ← lock s
  s₂ ← stop_existing id s₁
  s₃ ← new_ticker interval s₂
  ok (install id interval (now + delay) (λ j. run_job_with_delay j delay) s₃))

-- The two deletions of RemoveJob, after the channel is closed.
drop_job : Text → Scheduler → Scheduler
drop_job id s = record s { jobs = delete id s.jobs; sync_locks = delete id s.sync_locks }

pub clear_stale_state : Text → Scheduler → Scheduler
clear_stale_state id s =
    if s.has_notifier then record s { notices = clear_stale id ∷ s.notices } else s

pub remove_job : Text → Scheduler → Outcome
unfolding lock deferred_unlock close_channel drop_job clear_stale_state
remove_job id s = deferred_unlock (do
  s₁ ← lock s
  s₂ ← elim (get id s₁.jobs) [
    | none ↦ ok s₁
    | some j ↦ (do t ← close_channel j.stop_ch s₁; ok (drop_job id t))
  ]
  ok (clear_stale_state id s₂))

-- There is no deferred unlock here: a panic of the ticker leaves `mu` held.
pub update_job_interval : Text → ℕ → ℕ → Scheduler → Outcome
unfolding lock unlock close_channel new_ticker install
update_job_interval id interval now s = do
  s₁ ← lock s
  elim (get id s₁.jobs) [
    | none ↦ unlock s₁
    | some j ↦ (do
      s₂ ← close_channel j.stop_ch s₁
      s₃ ← new_ticker interval (record s₂ { jobs = delete id s₂.jobs })
      unlock (install id interval (now + interval) run_job_from_ticker s₃))
  ]

close_all : Dict Job → Scheduler → Outcome
unfolding close_channel
close_all [] s = ok s
close_all ((id, j) ∷ rest) s = close_channel j.stop_ch s >>= close_all rest

-- Stop once the scheduler is known to be started, with `mu` held.
stop_started : Scheduler → Outcome
unfolding lock unlock close_all
stop_started s = do
  s₁ ← unlock (record s { started = false })
  s₂ ← lock (record s₁ { cancelled = true })
  s₃ ← close_all s₂.jobs s₂
  unlock (record s₃ { jobs = [] })

-- Stop, up to the wait for the goroutines.
pub stop : Scheduler → Outcome
unfolding stop_started
stop s = lock s >>= λ s₁. if s₁.started then stop_started s₁ else unlock s₁

-- The two constants of the code, in nanoseconds.
abbrev pub startup_stagger : ℕ
startup_stagger = 30_000_000_000

abbrev pub second : ℕ
second = 1_000_000_000

-- time.Duration(n) * time.Second, on 64 bits with a sign: a negative duration is read as 0, from which
-- time.NewTicker does not tell it.
unfoldable pub to_duration : ℕ → ℕ
to_duration n = let d = (n * second) % (2 ^ 64) in if ltb d (2 ^ 63) then d else 0

-- for i, source := range sources: an enabled source's ID and its interval in seconds. The stagger fits in
-- 63 bits for up to 3 * 10 ^ 8 sources.
pub add_sources : ℕ → ℕ → List (Text × ℕ) → Scheduler → Outcome
unfolding to_duration
add_sources now i [] s = ok s
add_sources now i ((id, interval) ∷ rest) s =
    add_job_with_delay id (to_duration interval) (i * startup_stagger) now s
    >>= add_sources now (i + 1) rest

-- What follows GetEnabledSources; `none`: it failed, and Start ends with the error.
start_sources : Option (List (Text × ℕ)) → ℕ → Scheduler → Outcome
start_sources none now s = ok s
start_sources (some l) now s = do
  t ← add_sources now 0 l s
  ok (record t { routines = stale_detection ∷ health_log ∷ cleanup ∷ t.routines })

-- Start once the scheduler is known not to be started, with `mu` held.
start_fresh : Option (List (Text × ℕ)) → ℕ → Scheduler → Outcome
unfolding unlock start_sources
start_fresh sources now s = do
  t ← unlock (record s { started = true })
  start_sources sources now (record t { notices = reset_statuses ∷ t.notices })

pub start : Option (List (Text × ℕ)) → ℕ → Scheduler → Outcome
unfolding lock start_fresh
start sources now s = lock s >>= λ s₁. if s₁.started then unlock s₁ else start_fresh sources now s₁

pub get_job_count : Scheduler → ℕ
get_job_count s = length s.jobs

pub get_next_sync_at : Text → Scheduler → Option ℕ
get_next_sync_at id s = elim (get id s.jobs) [ none ↦ none | some j ↦ some j.next_sync_at ]

pub update_next_sync_at : Text → ℕ → Scheduler → Outcome
unfolding lock deferred_unlock
update_next_sync_at id now s = deferred_unlock (do
  s₁ ← lock s
  elim (get id s₁.jobs) [
    | none ↦ ok s₁
    | some j ↦
        ok (record s₁ { jobs = put id (record j { next_sync_at = now + j.interval }) s₁.jobs })
  ])

-- getSyncLock with `mu` held: a source without a lock gets a new one.
pub ensure_lock : Text → Scheduler → Scheduler
ensure_lock id s = elim (get id s.sync_locks) [
  | none ↦ record s { sync_locks = put id s.next_id s.sync_locks; next_id = s.next_id + 1 }
  | some l ↦ s
]

get_sync_lock : Text → Scheduler → Outcome
unfolding lock deferred_unlock
get_sync_lock id s = deferred_unlock (lock s >>= λ s₁. ok (ensure_lock id s₁))

-- Whether a running sync holds a lock.
pub is_held : ℕ → List (Text × ℕ) → Bool
is_held l [] = false
is_held l ((id, k) ∷ rest) = eqb k l || is_held l rest

-- lock.TryLock(): the sync runs if it gets the lock, and is skipped if not.
pub try_lock : Text → ℕ → Scheduler → Scheduler
unfolding is_held
try_lock id l s = if is_held l s.running then s else record s { running = (id, l) ∷ s.running }

-- executeSync up to the return of getSyncLock. The case `none` is not reached.
pub fetch_lock : Text → Scheduler → Outcome
unfolding get_sync_lock
fetch_lock id s = do
  t ← get_sync_lock id s
  elim (get id t.sync_locks) [
    | none ↦ ok t
    | some l ↦ ok (record t { waiting = (id, l) ∷ t.waiting })
  ]

-- Whether a start of a sync of the source has that lock and has not tried it.
pub is_waiting : Text → ℕ → List (Text × ℕ) → Bool
is_waiting id l [] = false
is_waiting id l ((k, m) ∷ rest) = k == id && eqb m l || is_waiting id l rest

pub take_out : Text → ℕ → List (Text × ℕ) → List (Text × ℕ)
take_out id l [] = []
take_out id l ((k, m) ∷ rest) =
    let r = take_out id l rest in if k == id && eqb m l then rest else (k, m) ∷ r

-- executeSync from TryLock on, by a start that waits; there is no such step where none waits.
pub attempt_lock : Text → ℕ → Scheduler → Scheduler
unfolding try_lock is_waiting take_out
attempt_lock id l s =
    if is_waiting id l s.waiting
    then try_lock id l (record s { waiting = take_out id l s.waiting })
    else s

-- The two steps one after the other, in a run in which no other step comes between them. The case
-- `none` is not reached.
pub begin_sync : Text → Scheduler → Outcome
unfolding fetch_lock attempt_lock
begin_sync id s = do
  t ← fetch_lock id s
  elim (get id t.sync_locks) [ none ↦ ok t | some l ↦ ok (attempt_lock id l t) ]

-- lock.Unlock() at the end of executeSync.
pub release : ℕ → List (Text × ℕ) → List (Text × ℕ)
release l [] = []
release l ((id, k) ∷ rest) = let r = release l rest in if eqb k l then r else (id, k) ∷ r

pub finish_sync : ℕ → Scheduler → Scheduler
unfolding release
finish_sync l s = record s { running = release l s.running }
