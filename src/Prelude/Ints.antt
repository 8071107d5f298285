-- ===== src/Prelude/Ints.antt =====
-- The integers over the native numbers, as ids of type int64 and -1 for none.
use Prim.Native.Nat.{ℕ}
use mathlib.Core.Path.{ap}
use mathlib.Core.Logic.{◌≢◌}
use native.Mathlib.Decide.{ℕ_discrete}
use cs.Prelude.Tests.{Key}

pub data ℤ : Type 0 where
  pos : ℕ → ℤ
  negsuc : ℕ → ℤ

abbrev magnitude : ℤ → ℕ
magnitude (pos n) = n
magnitude (negsuc n) = n

pub pos-negsuc_ne : (m n : ℕ) → pos m ≢ negsuc n
pos-negsuc_ne m n h = cc

unfoldable pub ℤ_discrete : Discrete ℤ
ℤ_discrete (pos m) (pos n) = elim (ℕ_discrete m n) [
  | yes same ↦ yes (ap pos same)
  | no differ ↦ no (λ h. differ (ap magnitude h))
]
ℤ_discrete (negsuc m) (negsuc n) = elim (ℕ_discrete m n) [
  | yes same ↦ yes (ap negsuc same)
  | no differ ↦ no (λ h. differ (ap magnitude h))
]
ℤ_discrete (pos m) (negsuc n) = no (pos-negsuc_ne m n)
ℤ_discrete (negsuc m) (pos n) = no (λ h. cc)

instance abbrev pub int_key : Key ℤ
int_key = record { dec = ℤ_discrete }

abbrev pub minus_one : ℤ
minus_one = negsuc 0
