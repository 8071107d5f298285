-- ===== src/Api/Call.antt =====
-- pkg/api/v1/tx.go: calls of other services in a row. After each call the code tests its error, and
-- returns if there is one.
use cs.Prelude.{◌⊎◌, inl, inr}

abbrev pub Call : Type 0 → Type 0 → Type 0 → Type 0
Call W F A = W → W × (F ⊎ A)

module _ {W F : Type 0} where
  abbrev pub pure : {A : Type 0} → A → Call W F A
  pure a w = (w, inr a)

  abbrev pub continue : {A B : Type 0} → F ⊎ A → (A → Call W F B) → Call W F B
  continue (inl f) next w = (w, inl f)
  continue (inr a) next w = next a w

  infixl 10 ◌>>=◌
  abbrev pub ◌>>=◌ : {A B : Type 0} → Call W F A → (A → Call W F B) → Call W F B
  ◌>>=◌ call next w = let (w', result) = call w in continue result next w'
