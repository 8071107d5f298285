-- ===== src/Prelude/Map.antt =====
-- A Go map as an association list in which a key stands once.
use mathlib.Core.Path.{◌≡◌, refl}
use mathlib.Core.Logic.{ite}
use mathlib.Core.List.{List, [], ◌∷◌}
use mathlib.Core.Option.{Option, none, some}
use native.Mathlib.Omega.{arith}
use cs.Prelude.Tests.{Key}

abbrev pub Map : Type 0 → Type 0 → Type 0
Map K V = List (K × V)

module _ {K V : Type 0} ⦃k : Key K⦄ where
  -- `v, ok := m[key]`
  unfoldable pub lookup : K → List (K × V) → Option V
  lookup a [] = none
  lookup a ((b, v) ∷ m) = ite (k.dec a b) (some v) (lookup a m)

  -- `m[key] = v`
  unfoldable pub insert : K → V → List (K × V) → List (K × V)
  insert a v [] = (a, v) ∷ []
  insert a v ((b, w) ∷ m) = ite (k.dec a b) ((a, v) ∷ m) ((b, w) ∷ insert a v m)

  pub lookup-insert :
      (a b : K) (v : V) (m : List (K × V))
      → lookup b (insert a v m) ≡ ite (k.dec b a) (some v) (lookup b m)
  unfolding lookup insert
  lookup-insert a b v [] = refl
  lookup-insert a b v ((c, w) ∷ m) = ground (arith, lookup-insert a b v m)

  -- No key stands twice.
  abbrev pub Unique : List (K × V) → Type 0
  Unique [] = Unit
  Unique ((a, v) ∷ m) = (lookup a m ≡ none) × Unique m

  pub insert-Unique : (a : K) (v : V) (m : List (K × V)) → Unique m → Unique (insert a v m)
  unfolding lookup insert
  insert-Unique a v [] u = (refl, tt)
  insert-Unique a v ((b, w) ∷ m) (fresh, u) = elim (k.dec a b) [
    | yes same ↦ ground (arith, fresh, u)
    | no differ ↦ ground (arith, lookup-insert a b v m, insert-Unique a v m u, fresh)
  ]
