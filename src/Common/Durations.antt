-- ===== src/Common/Durations.antt =====
-- time.Duration: nanoseconds on 64 bits with a sign. A time is a natural number of nanoseconds.
use Prim.Native.Nat.{ℕ, ◌+◌, ◌-◌, ◌%◌, ◌^◌, ◌≤◌, ◌<◌}
use mathlib.Core.Path.{◌≡◌}
use mathlib.Core.Bool.{Bool}
use native.Mathlib.Omega.{arith}
use calbridge.Common.Tests.{ltb, eqb, if◌then◌else◌}

pub data Duration : Type 0 where
  plus minus : ℕ → Duration

-- The 64 bits of a product, read with their sign.
unfoldable pub wrapped : ℕ → Duration
wrapped n =
    let bits = n % (2 ^ 64) in if ltb bits (2 ^ 63) then plus bits else minus (2 ^ 64 - bits)

-- -d, which leaves the least number as it is.
unfoldable pub negate : Duration → Duration
negate (plus n) = minus n
negate (minus n) = if eqb n (2 ^ 63) then minus n else plus n

-- t.After(now.Add(d))
unfoldable pub is_after : ℕ → ℕ → Duration → Bool
is_after t now (plus d) = ltb (now + d) t
is_after t now (minus d) = ltb now (t + d)

-- now.Sub(t) < d
unfoldable pub is_within : ℕ → ℕ → Duration → Bool
is_within now t (plus d) = ltb now (t + d)
is_within now t (minus d) = ltb (now + d) t

-- now.Sub(t) > d
unfoldable pub exceeds : ℕ → ℕ → Duration → Bool
exceeds now t (plus d) = ltb (t + d) now
exceeds now t (minus d) = ltb t (now + d)

-- At least that many nanoseconds.
abbrev pub AtLeast : ℕ → Duration → Type 0
AtLeast n (plus d) = n ≤ d
AtLeast n (minus d) = ⊥

pub wrapped_small : (n : ℕ) → n < 2 ^ 63 → wrapped n ≡ plus n
unfolding wrapped
wrapped_small n h = ground arith
