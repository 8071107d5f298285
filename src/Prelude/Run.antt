-- ===== src/Prelude/Run.antt =====
-- The result of running Go code: a value, a panic, or a wait that nobody ends.
use Prim.Native.Nat.{ℕ, zero, suc, ◌+◌, ◌<◌}
use mathlib.Core.Path.{◌≡◌, refl}
use mathlib.Core.Option.{Option, none, some}
use native.Mathlib.Omega.{arith}

pub data Run {ℓ} (A : Type ℓ) : Type ℓ where
  ok : A → Run A
  panic : Run A
  blocked : Run A

infixl 5 ◌>>=◌
abbrev pub ◌>>=◌ {ℓ κ} : {A : Type ℓ} {B : Type κ} → Run A → (A → Run B) → Run B
ok a >>= f = f a
panic >>= f = panic
blocked >>= f = blocked

-- Reading through a nil pointer, or out of range.
abbrev pub or_panic {ℓ} : {A : Type ℓ} → Option A → Run A
or_panic none = panic
or_panic (some a) = ok a

module _ {ℓ} {S : Type ℓ} (body : ℕ → S → Run S) where
  -- `for i := range n { body }`, with `rounds` rounds left.
  unfoldable pub for_range_from : (rounds i : ℕ) → S → Run S
  for_range_from zero i s = ok s
  for_range_from (suc k) i s = body i s >>= for_range_from k (suc i)

  for_range_from_inv {κ} :
      (P : ℕ → S → Type κ) (n : ℕ)
      → ((i : ℕ) (s : S) → i < n → P i s → (t : S) × (body i s ≡ ok t) × P (suc i) t)
      → (k i : ℕ) (s : S) → i + k ≡ n
      → P i s
      → (t : S) × (for_range_from k i s ≡ ok t) × P n t
  unfolding for_range_from
  for_range_from_inv P n keep zero i s e h = (s, refl, rw (← e) (ground (arith, h)))
  for_range_from_inv P n keep (suc k) i s e h =
      let (t, ran, h') = keep i s (omega arith) h in
      let (u, rest, done) = for_range_from_inv P n keep k (suc i) t (omega arith) h' in
      (u, rw ran rest, done)

  -- The rule for a loop: an invariant that each round keeps, and each round runs.
  pub for_range_inv {κ} :
      (P : ℕ → S → Type κ) (n : ℕ)
      → ((i : ℕ) (s : S) → i < n → P i s → (t : S) × (body i s ≡ ok t) × P (suc i) t)
      → (s : S) → P 0 s
      → (t : S) × (for_range_from n 0 s ≡ ok t) × P n t
  for_range_inv P n keep s h = for_range_from_inv P n keep n 0 s (omega arith) h
