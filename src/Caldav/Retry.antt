-- ===== src/Caldav/Retry.antt =====
-- retryDBOperation of internal/caldav/sync.go: an operation of the database is tried again where its error
-- says that the database is busy. `S` is what the operation works on. Durations are nanoseconds.
use calbridge.Common.{
  ℕ, zero, suc, ◌+◌, ◌*◌, ◌%◌, ◌^◌, ◌≤◌, ◌≡◌, refl, ap, ◌⊎◌, inl, inr, Text, codes, List, [], ◌∷◌,
  Option, none, some, Bool, false, ◌||◌, ltb, contains, length, if◌then◌else◌, All, arith,
  Bool-cases,
}

-- What a call of retryDBOperation comes to: its error, the sleeps, and the state.
pub record Retried (S : Type 0) : Type 0 where
  pub error : Option Text
  pub sleeps : List ℕ
  pub attempts : ℕ
  pub state : S

abbrev pub millisecond : ℕ
millisecond = 1_000_000

abbrev pub longest : ℕ
longest = 5_000_000_000

unfoldable pub is_busy : Text → Bool
is_busy e = contains e (codes "SQLITE_BUSY") || contains e (codes "database is locked")

-- 100 ms, 200 ms, ..., on 64 bits with a sign: time.Sleep returns at once from a negative duration.
unfoldable pub backoff : ℕ → ℕ
backoff i =
    let d = ((100 * 2 ^ i) * millisecond) % (2 ^ 64) in
    if ltb d (2 ^ 63) then (if ltb longest d then longest else d) else 0

unfoldable pub ended : {S : Type 0} → Option Text → S → Retried S
ended error s = record { error = error; sleeps = []; attempts = 1; state = s }

unfoldable pub slept : {S : Type 0} → ℕ → Retried S → Retried S
slept d r = record r { sleeps = d ∷ r.sleeps; attempts = suc r.attempts }

-- What follows an attempt that ends with the error: `later` is the rest of the loop.
unfoldable pub judge : {S : Type 0} → Option Text → S → ℕ → Retried S → Retried S
unfolding is_busy backoff ended slept
judge none s i later = ended none s
judge (some e) s i later = if is_busy e then slept (backoff i) later else ended (some e) s

-- The rest of the loop from `i` on, with the last error.
unfoldable pub retry : {S : Type 0} → (S → Option Text × S) → ℕ → ℕ → Option Text → S → Retried S
unfolding judge
retry operation zero i last s = record { error = last; sleeps = []; attempts = 0; state = s }
retry operation (suc left) i last s =
    let tried = operation s in
    judge tried.0 tried.1 i (retry operation left (i + 1) tried.0 tried.1)

unfoldable pub retry_db_operation : {S : Type 0} → (S → Option Text × S) → ℕ → S → Retried S
unfolding retry
retry_db_operation operation max_retries s = retry operation max_retries 0 none s

-- The operation ended otherwise than busy.
unfoldable pub IsSettled : Option Text → Type 0
unfolding is_busy
IsSettled none = Unit
IsSettled (some e) = is_busy e ≡ false

-- No more attempts than allowed, no more sleeps than attempts, no long sleep, and an end before the last
-- attempt only where the operation is not busy.
unfoldable pub IsBounded : {S : Type 0} → ℕ → Retried S → Type 0
unfolding IsSettled
IsBounded most r =
    (r.attempts ≤ most)
    × (length r.sleeps ≤ r.attempts)
    × All (λ d. d ≤ longest) r.sleeps
    × ((r.attempts ≡ most) ⊎ IsSettled r.error)

short : (d : ℕ) → (if ltb d (2 ^ 63) then (if ltb longest d then longest else d) else 0) ≤ longest
short d = ground arith

backoff_short : (i : ℕ) → backoff i ≤ longest
unfolding backoff
backoff_short i = let d = ((100 * 2 ^ i) * millisecond) % (2 ^ 64) in short d

judge-IsBounded :
    {S : Type 0} (left i : ℕ) (o : Option Text) (s : S) (later : Retried S)
    → IsBounded left later
    → IsBounded (suc left) (judge o s i later)
unfolding IsBounded IsSettled judge ended slept
judge-IsBounded left i none s later h = (omega arith, omega arith, tt, inr tt)
judge-IsBounded left i (some e) s later h = elim (Bool-cases (is_busy e)) [
  | inl b ↦ rw b (
    omega (arith, h.0),
    omega (arith, h.1),
    (backoff_short i, h.2),
    elim h.3 [ inl same ↦ inl (ap suc same) | inr settled ↦ inr settled ],
  )
  | inr b ↦ rw b (omega arith, omega arith, tt, inr b)
]

retry-IsBounded :
    {S : Type 0} (operation : S → Option Text × S) (left i : ℕ) (last : Option Text) (s : S)
    → IsBounded left (retry operation left i last s)
unfolding retry IsBounded
retry-IsBounded operation zero i last s = (omega arith, omega arith, tt, inl refl)
retry-IsBounded operation (suc left) i last s =
    let tried = operation s in
    judge-IsBounded left i tried.0 tried.1 _
      (retry-IsBounded operation left (i + 1) tried.0 tried.1)

-- Whatever the operation does, retrying it comes to an end: after at most the allowed number of attempts,
-- between which the sleeps are at most as many and never longer than five seconds, and it gives up before
-- the last attempt only where the operation succeeded, or failed with another error than a busy database.
pub retry_db_operation-IsBounded :
    {S : Type 0} (operation : S → Option Text × S) (max_retries : ℕ) (s : S)
    → IsBounded max_retries (retry_db_operation operation max_retries s)
unfolding retry_db_operation
retry_db_operation-IsBounded operation max_retries s =
    retry-IsBounded operation max_retries 0 none s
