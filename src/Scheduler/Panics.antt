-- ===== src/Scheduler/Panics.antt =====
-- When the methods of the scheduler panic, and what a panic leaves.
use calbridge.Common.{
  ℕ, ◌+◌, ◌<◌, ◌≡◌, refl, inl, inr, Text, List, [], ◌∷◌, none, some, true, false, arith, All,
  Bool-cases, Option-cases,
}
use calbridge.Common.Dict.{get, delete, get-delete_self}
use calbridge.Scheduler.{
  Job, Routine, run_job, run_job_with_delay, Scheduler, Outcome, ok, panic, blocked, ◌>>=◌, member,
  lock, unlock, deferred_unlock, close_channel, new_ticker, stop_existing, install, add_job,
  add_job_with_delay, remove_job, update_job_interval, update_next_sync_at,
}
use calbridge.Scheduler.Jobs.{Live, Live-get, Live-delete, Live-put, Live-replace, Live-touch}

-- The mutex is free, every job has an open channel of its own, and identifiers are not used again.
pub record IsSound (s : Scheduler) : Type 0 where
  pub mu_free : s.mu ≡ false
  pub live : Live s.closed s.next_id s.jobs
  pub used : All (λ c. c < s.next_id) s.closed

-- The call returns, in a state of which `P` holds.
abbrev pub Returns : (Scheduler → Type 0) → Outcome → Type 0
Returns P (ok s) = P s
Returns P (panic s) = ⊥
Returns P blocked = ⊥

member-fresh : (b : ℕ) (cs : List ℕ) → All (λ c. c < b) cs → member b cs ≡ false
unfolding member
member-fresh b [] h = refl
member-fresh b (c ∷ cs) h = ground (arith, h.0, member-fresh b cs h.1)

pub All-suc : (b : ℕ) (cs : List ℕ) → All (λ c. c < b) cs → All (λ c. c < b + 1) cs
All-suc b [] h = tt
All-suc b (c ∷ cs) h = (omega (arith, h.0), All-suc b cs h.1)

pub lock-free : (s : Scheduler) → s.mu ≡ false → lock s ≡ ok (record s { mu = true })
unfolding lock
lock-free s h = rw h

pub lock-held : (s : Scheduler) → s.mu ≡ true → lock s ≡ blocked
unfolding lock
lock-held s h = rw h refl

pub close-fresh :
    (c : ℕ) (s : Scheduler)
    → member c s.closed ≡ false
    → close_channel c s ≡ ok (record s { closed = c ∷ s.closed })
unfolding close_channel
close-fresh c s h = rw h

stop_existing-none : (id : Text) (s : Scheduler) → get id s.jobs ≡ none → stop_existing id s ≡ ok s
unfolding stop_existing
stop_existing-none id s h = rw (h, stop_existing)

stop_existing-some :
    (id : Text) (j : Job) (s : Scheduler)
    → get id s.jobs ≡ some j
    → member j.stop_ch s.closed ≡ false
    → stop_existing id s ≡ ok (record s { closed = j.stop_ch ∷ s.closed })
unfolding stop_existing
stop_existing-some id j s h m = rw (h, stop_existing) (close-fresh j.stop_ch s m)

new_ticker-positive : (n : ℕ) (s : Scheduler) → 0 < n → new_ticker n s ≡ ok s
unfolding new_ticker
new_ticker-positive n s h = ground arith

-- A job replaces the one that the source has, or is the first one.
module _ (id : Text) (interval next : ℕ) (routine : Job → Routine) (s : Scheduler)
    (pos : 0 < interval) (v : IsSound s) where
  abbrev added : Outcome
  added = deferred_unlock (
      lock s >>= λ s₁. stop_existing id s₁ >>= λ s₂.
      new_ticker interval s₂ >>= λ s₃. ok (install id interval next routine s₃))

  installed-IsSound : get id s.jobs ≡ none → Returns IsSound added
  unfolding deferred_unlock install
  installed-IsSound e =
      let s₁ : Scheduler = record s { mu = true } in
      rw (lock-free s v.mu_free, stop_existing-none id s₁ e, new_ticker-positive interval s₁ pos)
        (record {
          mu_free = refl;
          live =
              Live-put s.closed s.next_id id _ s.jobs e refl
                (member-fresh s.next_id s.closed v.used) v.live;
          used = All-suc s.next_id s.closed v.used;
        })

  replaced-IsSound : (j : Job) → get id s.jobs ≡ some j → Returns IsSound added
  unfolding deferred_unlock install
  replaced-IsSound j e =
      let l = Live-get s.closed s.next_id id j s.jobs v.live e in
      let s₁ : Scheduler = record s { mu = true } in
      let s₂ : Scheduler = record s₁ { closed = j.stop_ch ∷ s₁.closed } in
      rw
        (
          lock-free s v.mu_free,
          stop_existing-some id j s₁ e l.1,
          new_ticker-positive interval s₂ pos,
        )
        (record {
          mu_free = refl;
          live =
              Live-replace s.closed s.next_id id _ j s.jobs e refl
                (member-fresh s.next_id s.closed v.used) v.live;
          used = (omega (arith, l.0), All-suc s.next_id s.closed v.used);
        })

  added-IsSound : Returns IsSound added
  added-IsSound = elim (Option-cases (get id s.jobs)) [
    | inl e ↦ installed-IsSound e
    | inr (j, e) ↦ replaced-IsSound j e
  ]

pub add_job-IsSound :
    (id : Text) (interval now : ℕ) (s : Scheduler)
    → 0 < interval
    → IsSound s
    → Returns IsSound (add_job id interval now s)
unfolding add_job
add_job-IsSound id interval now s pos v = added-IsSound id interval now run_job s pos v

pub add_job_with_delay-IsSound :
    (id : Text) (interval delay now : ℕ) (s : Scheduler)
    → 0 < interval
    → IsSound s
    → Returns IsSound (add_job_with_delay id interval delay now s)
unfolding add_job_with_delay
add_job_with_delay-IsSound id interval delay now s pos v =
    added-IsSound id interval (now + delay) (λ j. run_job_with_delay j delay) s pos v

pub remove_job-IsSound : (id : Text) (s : Scheduler) → IsSound s → Returns IsSound (remove_job id s)
unfolding remove_job
remove_job-IsSound id s v = elim (Option-cases (get id s.jobs)) [
  | inl e ↦
      rw (lock-free s v.mu_free, e, remove_job)
        (elim (Bool-cases s.has_notifier) [
          | inl n ↦ rw n (record { mu_free = refl; live = v.live; used = v.used })
          | inr n ↦ rw n (record { mu_free = refl; live = v.live; used = v.used })
        ])
  | inr (j, e) ↦
      let l = Live-get s.closed s.next_id id j s.jobs v.live e in
      let s₁ : Scheduler = record s { mu = true } in
      let live : Live (j.stop_ch ∷ s.closed) s.next_id (delete id s.jobs) =
        Live-delete s.closed s.next_id id j s.jobs e v.live in
      let used : All (λ c. c < s.next_id) (j.stop_ch ∷ s.closed) = (l.0, v.used) in
      rw (lock-free s v.mu_free, e, remove_job, close-fresh j.stop_ch s₁ l.1)
        (elim (Bool-cases s.has_notifier) [
          | inl n ↦ rw n (record { mu_free = refl; live = live; used = used })
          | inr n ↦ rw n (record { mu_free = refl; live = live; used = used })
        ])
]

pub update_job_interval-IsSound :
    (id : Text) (interval now : ℕ) (s : Scheduler)
    → 0 < interval
    → IsSound s
    → Returns IsSound (update_job_interval id interval now s)
unfolding update_job_interval install unlock
update_job_interval-IsSound id interval now s pos v = elim (Option-cases (get id s.jobs)) [
  | inl e ↦
      rw (lock-free s v.mu_free, e, ◌>>=◌) (record { mu_free = refl; live = v.live; used = v.used })
  | inr (j, e) ↦
      let l = Live-get s.closed s.next_id id j s.jobs v.live e in
      let s₁ : Scheduler = record s { mu = true } in
      let s₂ : Scheduler = record s₁ { closed = j.stop_ch ∷ s.closed; jobs = delete id s.jobs } in
      let used : All (λ c. c < s.next_id) (j.stop_ch ∷ s.closed) = (l.0, v.used) in
      rw
        (
          lock-free s v.mu_free,
          e,
          ◌>>=◌,
          close-fresh j.stop_ch s₁ l.1,
          new_ticker-positive interval s₂ pos,
        )
        (record {
          mu_free = refl;
          live =
              Live-put (j.stop_ch ∷ s.closed) s.next_id id _ (delete id s.jobs)
                (get-delete_self id s.jobs) refl
                (member-fresh s.next_id (j.stop_ch ∷ s.closed) used)
                (Live-delete s.closed s.next_id id j s.jobs e v.live);
          used = All-suc s.next_id (j.stop_ch ∷ s.closed) used;
        })
]

pub update_next_sync_at-IsSound :
    (id : Text) (now : ℕ) (s : Scheduler)
    → IsSound s
    → Returns IsSound (update_next_sync_at id now s)
unfolding update_next_sync_at deferred_unlock
update_next_sync_at-IsSound id now s v = elim (Option-cases (get id s.jobs)) [
  | inl e ↦
      rw (lock-free s v.mu_free, e, ◌>>=◌) (record { mu_free = refl; live = v.live; used = v.used })
  | inr (j, e) ↦
      rw (lock-free s v.mu_free, e, ◌>>=◌)
        (record {
          mu_free = refl;
          live = Live-touch s.closed s.next_id id _ j s.jobs e refl v.live;
          used = v.used;
        })
]
