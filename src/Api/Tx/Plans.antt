-- ===== src/Api/Tx/Plans.antt =====
-- pkg/api/v1/tx.go: what a row of calls does to the services, from what each call does. The state
-- `V` of the services is a view of the state `W` that also holds the network's.
use cs.Prelude.{◌≡◌, refl, ◌⊎◌, inl, inr}
use cs.Api.Call.{Call, pure, ◌>>=◌}

-- The effects of a row of calls, in order. `R b v v'` holds if a call that returns `b` may take `v`
-- to `v'`.
pub data Plan (V A : Type 0) : Type 1 where
  done : A → Plan V A
  step : {B : Type 0} → (B → V → V → Type 0) → (B → Plan V A) → Plan V A

module _ {V A : Type 0} where
  -- All of the effects, one after the other, with the result `a`.
  unfoldable pub Runs : Plan V A → A → V → V → Type 0
  Runs (done b) a v v' = (b ≡ a) × (v' ≡ v)
  Runs (step {B} effect next) a v v' = (b : B) × (u : V) × effect b v u × Runs (next b) a u v'

  -- A call has failed: the effects of those before it, and its own or not; nothing of those after.
  unfoldable pub Stops : Plan V A → V → V → Type 0
  Stops (done b) v v' = ⊥
  Stops (step {B} effect next) v v' =
      (v' ≡ v)
      ⊎ (((b : B) × effect b v v') ⊎ ((b : B) × (u : V) × effect b v u × Stops (next b) u v'))

module _ {W F V : Type 0} (view : W → V) where
  -- A call has an effect on the services: all of it if it returns, all or nothing if it fails (the
  -- request or the response may be lost).
  abbrev pub HasEffect : {B : Type 0} → Call W F B → (B → V → V → Type 0) → Type 0
  HasEffect {B} call effect =
      (w : W)
      → ((b : B) × ((call w).1 ≡ inr b) × effect b (view w) (view (call w).0))
        ⊎ ((f : F) × ((call w).1 ≡ inl f)
            × ((view (call w).0 ≡ view w) ⊎ ((b : B) × effect b (view w) (view (call w).0))))

  abbrev pub Follows : {A : Type 0} → Call W F A → Plan V A → Type 0
  Follows {A} call plan =
      (w : W)
      → ((a : A) × ((call w).1 ≡ inr a) × Runs plan a (view w) (view (call w).0))
        ⊎ ((f : F) × ((call w).1 ≡ inl f) × Stops plan (view w) (view (call w).0))

  pub pure-Follows : {A : Type 0} (a : A) → Follows (pure a) (done a)
  unfolding Runs
  pure-Follows a w = inl (a, refl, (refl, refl))

  pub bind-Follows :
      {A B : Type 0} (call : Call W F B) (effect : B → V → V → Type 0) (next : B → Call W F A)
      (plan : B → Plan V A)
      → HasEffect call effect
      → ((b : B) → Follows (next b) (plan b))
      → Follows (call >>= next) (step effect plan)
  unfolding Runs Stops
  bind-Follows call effect next plan has follows w = elim (has w) [
    | inr (f, bad, stopped) ↦
        rw bad
          (inr (f, refl, elim stopped [ inl same ↦ inl same | inr happened ↦ inr (inl happened) ]))
    | inl (b, good, happened) ↦
        let w' = (call w).0 in
        elim (follows b w') [
          | inl (a, rest, runs) ↦ rw good (inl (a, rest, (b, view w', happened, runs)))
          | inr (f, rest, stops) ↦ rw good (inr (f, rest, inr (inr (b, view w', happened, stops))))
        ]
  ]
