-- ===== src/Activity/Recent.antt =====
-- The list of recent syncs of internal/activity/activity.go against the list of all finished ones.
use calbridge.Common.{
  ℕ, zero, suc, ◌≤◌, ◌≡◌, refl, sym, ap, List, [], ◌∷◌, none, some, length, take, ltb, arith,
  if◌then◌else◌, Option-cases, subst, inl, inr,
}
use calbridge.Common.Dict.{get}
use calbridge.Activity.{
  SyncActivity, Tracker, Call, start, calendar, progress, increment, finish, new_tracker,
  start_sync, update_calendar, update_progress, increment_progress, finish_sync, finished, step,
  run,
}

-- The syncs that a call finishes, in front of those that have finished before.
ended : Tracker → Call → List SyncActivity → List SyncActivity
ended t (finish id success m es now) l = elim (get id t.active) [
  | none ↦ l
  | some a ↦ finished success m es now a ∷ l
]
ended t c l = l

-- Every sync that the calls finish, the latest first.
pub ledger : List SyncActivity → Tracker → List Call → List SyncActivity
ledger l t [] = l
ledger l t (c ∷ cs) = ledger (ended t c l) (step t c) cs

take_all : (n : ℕ) (xs : List SyncActivity) → length xs ≤ n → take n xs ≡ xs
take_all zero [] h = refl
take_all zero (x ∷ xs) h = absurd (omega arith)
take_all (suc n) [] h = refl
take_all (suc n) (x ∷ xs) h = ap (◌∷◌ x) (take_all n xs (omega arith))

take-take : (n : ℕ) (xs : List SyncActivity) → take n (take (suc n) xs) ≡ take n xs
take-take zero xs = refl
take-take (suc n) [] = refl
take-take (suc n) (x ∷ xs) = ap (◌∷◌ x) (take-take n xs)

take-cons_take :
    (n : ℕ) (x : SyncActivity) (xs : List SyncActivity) → take n (x ∷ take n xs) ≡ take n (x ∷ xs)
take-cons_take zero x xs = refl
take-cons_take (suc n) x xs = ap (◌∷◌ x) (take-take n xs)

kept-eq-take :
    (n : ℕ) (xs : List SyncActivity) → (if ltb n (length xs) then take n xs else xs) ≡ take n xs
kept-eq-take n xs = ground (arith, take_all n xs)

max-step : (t : Tracker) (c : Call) → (step t c).max_recent_syncs ≡ t.max_recent_syncs
unfolding step start_sync update_calendar update_progress increment_progress finish_sync
max-step t (start id name total now) = refl
max-step t (calendar id name index) = ground arith
max-step t (progress id n) = ground arith
max-step t (increment id n) = ground arith
max-step t (finish id b m es now) = ground arith

recent-step :
    (t : Tracker) (c : Call) (l : List SyncActivity)
    → t.recent ≡ take t.max_recent_syncs l
    → (step t c).recent ≡ take t.max_recent_syncs (ended t c l)
unfolding step start_sync update_calendar update_progress increment_progress finish_sync ended
recent-step t (start id name total now) l h = h
recent-step t (calendar id name index) l h = ground arith
recent-step t (progress id n) l h = ground arith
recent-step t (increment id n) l h = ground arith
recent-step t (finish id b m es now) l h = elim (Option-cases (get id t.active)) [
  | inl e ↦ rw (e, finish_sync, ended) h
  | inr (a, e) ↦
      rw
        (
          e,
          finish_sync,
          ended,
          kept-eq-take t.max_recent_syncs (finished b m es now a ∷ t.recent),
          h,
        )
        (take-cons_take t.max_recent_syncs (finished b m es now a) l)
]

recent-run :
    (t : Tracker) (cs : List Call) (l : List SyncActivity)
    → t.recent ≡ take t.max_recent_syncs l
    → (run t cs).recent ≡ take t.max_recent_syncs (ledger l t cs)
unfolding run ledger
recent-run t [] l h = h
recent-run t (c ∷ cs) l h =
    subst (λ n. (run (step t c) cs).recent ≡ take n (ledger (ended t c l) (step t c) cs))
      (max-step t c)
      (recent-run (step t c) cs (ended t c l) (
        subst (λ n. (step t c).recent ≡ take n (ended t c l)) (sym (max-step t c))
          (recent-step t c l h)))

-- After any calls on a new tracker the recent syncs are the 20 latest of all finished ones.
pub recent-ledger :
    (cs : List Call) → (run new_tracker cs).recent ≡ take 20 (ledger [] new_tracker cs)
unfolding new_tracker
recent-ledger cs = recent-run new_tracker cs [] refl
