-- ===== src/Cc/Executor/Backoff.antt =====
-- pkg/cc/executor.go: how long the manager sleeps before it sends an executor again.
use cs.Prelude.{
  ℕ, zero, suc, ◌-◌, ◌*◌, ◌%◌, ◌^◌, ◌≤◌, ◌<◌, Bool, true, false, ◌&&◌, ◌||◌, ◌≡◌, refl, ◌⊎◌, inl,
  inr, arith,
}
use cs.Prelude.Tests.{ltb, ltb→lt, leb, ◌==◌, if◌then◌else◌}
use Prim.Native.Nat.{min}

-- A `time.Duration` in nanoseconds, as the bit pattern of an int64.
abbrev pub millisecond : ℕ
millisecond = 1000000

abbrev pub is_negative : ℕ → Bool
is_negative d = leb 9223372036854775808 d

-- `d > max` for a `max` that is not negative.
abbrev pub exceeds : ℕ → ℕ → Bool
exceeds d max = if is_negative d then false else ltb max d

unfoldable pub constant_retry : ℕ → ℕ → ℕ
constant_retry i retry_time = (i * millisecond) % 2 ^ 64

-- The conversion of `math.Pow(2, …)` to an int64 is exact for a power below 2^63. What a greater one
-- is converted to depends on the machine: `convert`.
abbrev pub to_duration : (ℕ → ℕ) → ℕ → ℕ
to_duration convert k = if ltb k 63 then 2 ^ k else convert k

-- `math.Pow(2, retryTime-1)` as an int64; it is one half before the first retry, which becomes zero.
abbrev pub power_before : (ℕ → ℕ) → ℕ → ℕ
power_before convert zero = 0
power_before convert (suc k) = to_duration convert k

unfoldable pub exponential_backoff_retry : (ℕ → ℕ) → ℕ → ℕ → ℕ
exponential_backoff_retry convert max retry_time =
    let wait_period = (power_before convert retry_time * millisecond) % 2 ^ 64 in
    if exceeds wait_period max then max else wait_period

-- `time.Sleep` returns at once for a duration that is negative or zero.
unfoldable pub slept : ℕ → ℕ
slept d = if is_negative d then 0 else d

-- A test of each exponent below a bound, run by computation.
tested : (test : ℕ → Bool) (bound : ℕ) → Bool
tested test zero = true
tested test (suc k) = tested test k && test k

tested-each : (test : ℕ → Bool) (bound k : ℕ) → k < bound → tested test bound ≡ true → test k ≡ true
unfolding tested
tested-each test zero k below passed = absurd (omega (arith, below))
tested-each test (suc bound) k below passed = ground (arith, tested-each test bound k)

small_power : (k : ℕ) → k < 44 → 2 ^ k * 1000000 < 9223372036854775808
unfolding tested
small_power k h =
    ltb→lt _ _ (tested-each (λ k. ltb (2 ^ k * 1000000) 9223372036854775808) 44 k h refl)

-- Up to the 44th retry in a row the manager sleeps 2^(n-1) ms, or the maximum if that is less.
pub backoff_exact :
    (convert : ℕ → ℕ) (max n : ℕ)
    → max < 9223372036854775808
    → 0 < n
    → n ≤ 44
    → slept (exponential_backoff_retry convert max n) ≡ min max (2 ^ (n - 1) * 1000000)
unfolding exponential_backoff_retry slept
backoff_exact convert max n m p q = ground (arith, small_power (n - 1))

-- Whether the product overflows to a negative duration, or to zero.
lost : ℕ → Bool
lost k = let d = (2 ^ k * 1000000) % 2 ^ 64 in is_negative d || d == 0

lost_at : (k : ℕ) → ((44 ≤ k) × (k < 48)) ⊎ ((58 ≤ k) × (k < 63)) → lost k ≡ true
unfolding tested lost
lost_at k (inl h) = ground (arith, tested-each (λ k. leb k 43 || lost k) 48 k h.1 refl)
lost_at k (inr h) = ground (arith, tested-each (λ k. leb k 57 || lost k) 63 k h.1 refl)

-- From the 45th to the 48th retry in a row, and from the 59th to the 63rd, the product of the power
-- and a millisecond overflows an int64 to a negative number or to zero, which passes the comparison
-- with the maximum: the manager does not sleep at all.
pub backoff_overflows :
    (convert : ℕ → ℕ) (max n : ℕ)
    → ((45 ≤ n) × (n ≤ 48)) ⊎ ((59 ≤ n) × (n ≤ 63))
    → slept (exponential_backoff_retry convert max n) ≡ 0
unfolding exponential_backoff_retry slept lost
backoff_overflows convert max n h = ground (arith, lost_at (n - 1))
