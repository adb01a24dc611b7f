-- ===== src/Activity/Invariant.antt =====
-- The well-formedness of the tracker of internal/activity/activity.go.
use mathlib.Core.Path.{subst₂}
use calbridge.Common.{
  Bool-cases, ◌==◌, zero, suc, ℕ, ◌≤◌, ◌≡◌, ◌≢◌, refl, subst, Text, List, [], ◌∷◌, none, some, Bool,
  true, false, All, length, length-take, take, ltb, arith, if◌then◌else◌, ==_iff, Option-cases, inl,
  inr,
}
use calbridge.Common.Dict.{Dict, put, delete, get, get-put, get-delete}
use calbridge.Activity.{
  SyncActivity, running, Tracker, Call, start, calendar, progress, increment, finish, new_tracker,
  start_sync, update_active, update_calendar, update_progress, increment_progress, finish_sync,
  finished, final_status, step, run,
}

-- An entry of `active`: it stands under its own source and is not finished.
pub record IsRunning (k : Text) (a : SyncActivity) : Type 0 where
  pub own_key : a.source_id ≡ k
  pub unfinished : a.status ≡ running
  pub not_completed : a.completed_at ≡ none

-- An entry of `recent`.
pub record IsFinished (a : SyncActivity) : Type 0 where
  pub has_ended : a.status ≢ running
  pub stamped : a.completed_at ≢ none
  pub timed : a.duration ≢ none
  pub no_calendar : a.current_calendar ≡ []

pub record IsValid (t : Tracker) : Type 0 where
  pub limit : t.max_recent_syncs ≡ 20
  pub bounded : length t.recent ≤ 20
  pub all_running : (k : Text) (a : SyncActivity) → get k t.active ≡ some a → IsRunning k a
  pub all_finished : All IsFinished t.recent

All-take : (n : ℕ) (xs : List SyncActivity) → All IsFinished xs → All IsFinished (take n xs)
All-take zero xs h = tt
All-take (suc n) [] h = tt
All-take (suc n) (x ∷ xs) h = (h.0, All-take n xs h.1)

abbrev AllRunning : Dict SyncActivity → Type 0
AllRunning d = (k : Text) (a : SyncActivity) → get k d ≡ some a → IsRunning k a

put-AllRunning :
    (id : Text) (x : SyncActivity) (d : Dict SyncActivity)
    → IsRunning id x
    → AllRunning d
    → AllRunning (put id x d)
put-AllRunning id x d new old k a h = elim (Bool-cases (id == k)) [
  | inl e ↦
      let same : x ≡ a = cc (get-put id k x d) in subst₂ IsRunning ((==_iff id k).0 e) same new
  | inr e ↦ old k a (rw (get-put id k x d, e) at h)
]

delete-AllRunning : (id : Text) (d : Dict SyncActivity) → AllRunning d → AllRunning (delete id d)
delete-AllRunning id d old k a h = elim (Bool-cases (id == k)) [
  | inl e ↦ let missing : none ≡ some a = rw (get-delete id k d, e) at h in cc
  | inr e ↦ old k a (rw (get-delete id k d, e) at h)
]

start_sync-IsValid :
    (id name : Text) (total now : ℕ) (t : Tracker)
    → IsValid t
    → IsValid (start_sync id name total now t)
unfolding start_sync
start_sync-IsValid id name total now t v = record {
  limit = v.limit;
  bounded = v.bounded;
  all_running =
      put-AllRunning id _ t.active
        (record { own_key = refl; unfinished = refl; not_completed = refl }) v.all_running;
  all_finished = v.all_finished;
}

-- A write that leaves the key, the status and the completion time alone keeps the tracker valid.
update_active-IsValid :
    (id : Text) (f : SyncActivity → SyncActivity) (t : Tracker)
    → ((a : SyncActivity) → IsRunning id a → IsRunning id (f a))
    → IsValid t
    → IsValid (update_active id f t)
unfolding update_active
update_active-IsValid id f t keep v = elim (Option-cases (get id t.active)) [
  | inl e ↦ rw (e, update_active) v
  | inr (a, e) ↦
      rw (e, update_active)
        (record {
          limit = v.limit;
          bounded = v.bounded;
          all_running =
              put-AllRunning id (f a) t.active (keep a (v.all_running id a e)) v.all_running;
          all_finished = v.all_finished;
        })
]

final_status-ne-running : (b : Bool) (es : List Text) → final_status b es ≢ running
unfolding final_status
final_status-ne-running true [] e = cc
final_status-ne-running true (x ∷ es) e = cc
final_status-ne-running false es e = cc

finished-IsFinished :
    (b : Bool) (m : Text) (es : List Text) (now : ℕ) (a : SyncActivity)
    → IsFinished (finished b m es now a)
unfolding finished
finished-IsFinished b m es now a = record {
  has_ended = final_status-ne-running b es;
  stamped = λ e. cc;
  timed = λ e. cc;
  no_calendar = refl;
}

-- The list of recent syncs after one more, cut to the bound.
abbrev kept : ℕ → List SyncActivity → List SyncActivity
kept n xs = if ltb n (length xs) then take n xs else xs

kept-le : (n : ℕ) (xs : List SyncActivity) → length (kept n xs) ≤ n
kept-le n xs = ground (arith, length-take n xs)

kept-IsFinished : (n : ℕ) (xs : List SyncActivity) → All IsFinished xs → All IsFinished (kept n xs)
kept-IsFinished n xs h = elim (Bool-cases (ltb n (length xs))) [
  | inl e ↦ rw e (All-take n xs h)
  | inr e ↦ rw e h
]

finish_sync-IsValid :
    (id : Text) (b : Bool) (m : Text) (es : List Text) (now : ℕ) (t : Tracker)
    → IsValid t
    → IsValid (finish_sync id b m es now t)
unfolding finish_sync
finish_sync-IsValid id b m es now t v = elim (Option-cases (get id t.active)) [
  | inl e ↦ rw (e, finish_sync) v
  | inr (a, e) ↦
      rw (e, finish_sync)
        (record {
          limit = v.limit;
          bounded =
              subst (λ n. length (kept t.max_recent_syncs (finished b m es now a ∷ t.recent)) ≤ n)
                v.limit (kept-le t.max_recent_syncs (finished b m es now a ∷ t.recent));
          all_running = delete-AllRunning id t.active v.all_running;
          all_finished =
              kept-IsFinished t.max_recent_syncs (finished b m es now a ∷ t.recent)
                (finished-IsFinished b m es now a, v.all_finished);
        })
]

-- Every method keeps the tracker valid.
step-IsValid : (t : Tracker) (c : Call) → IsValid t → IsValid (step t c)
unfolding step update_calendar update_progress increment_progress
step-IsValid t (start id name total now) v = start_sync-IsValid id name total now t v
step-IsValid t (calendar id name index) v = update_active-IsValid id _ t (λ a r. ground arith) v
step-IsValid t (progress id n) v = update_active-IsValid id _ t (λ a r. ground arith) v
step-IsValid t (increment id n) v = update_active-IsValid id _ t (λ a r. ground arith) v
step-IsValid t (finish id b m es now) v = finish_sync-IsValid id b m es now t v

run-IsValid : (t : Tracker) (cs : List Call) → IsValid t → IsValid (run t cs)
unfolding run
run-IsValid t [] v = v
run-IsValid t (c ∷ cs) v = run-IsValid (step t c) cs (step-IsValid t c v)

-- After any calls on a new tracker: a limit of 20 and at most 20 recent syncs, each with an end status, a completion
-- time and a duration and no current calendar, and every active entry is running, under the key of
-- its own source, with no completion time.
pub run-new_tracker-IsValid : (cs : List Call) → IsValid (run new_tracker cs)
unfolding new_tracker get
run-new_tracker-IsValid cs =
    run-IsValid new_tracker cs
      (record { limit = refl; bounded = omega arith; all_running = λ k a h. cc; all_finished = tt })
