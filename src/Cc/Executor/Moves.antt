-- ===== src/Cc/Executor/Moves.antt =====
-- pkg/cc/executor.go: what a stage does, and how Execute and Complete move on after it.
use mathlib.Core.Path.{subst}
use cs.Prelude.{
  ℕ, suc, ◌≤◌, ◌≡◌, sym, ◌≢◌, ◌∙◌, inl, inr, Option, none, some, List, arith, ℕ_discrete,
}
use mathlib.Core.Option
use cs.Prelude.Tests.{Option-cases}
use cs.Prelude.Lists.{
  length, get_elem?, set, get_elem?-set_self, get_elem?-set_ne, length-set, lt-get_elem?,
}
use cs.Cc.Context.{TxExecutorContext, rollback}
use cs.Cc.Executor.Stages.{TxExecutorStage, ExecError, external, StageFunc, CompleteFunc}
use cs.Cc.Executor.Stages
use cs.Cc.Executor.{TxExecutor, with_stage, move_on}

-- `P i v w`: in the world `w` the first `i` stages have taken effect, and `v` is the input of the
-- next one.
module _ {ℓ} {W V E : Type 0} (P : ℕ → V → W → Type ℓ) where
  -- Stage `i` takes effect if its call returns no error, and has no effect if it returns one.
  abbrev pub Outcome : ℕ → V → W → V → Option E → Type ℓ
  Outcome i v w output none = P (suc i) output w
  Outcome i v w output (some e) = P i v w

  pub record Effect (i : ℕ) (st : TxExecutorStage W V E) : Type ℓ where
    pub executes :
        (f : StageFunc W V E)
        → st.stage_func ≡ some f
        → (v : V) (w : W) → P i v w
        → Outcome i v (f v w).0 (f v w).2 (f v w).3
    pub completes :
        (f : CompleteFunc W V E)
        → st.complete_func ≡ some f
        → (v : V) (w : W) → P i v w
        → Outcome i v (f v w).0 (f v w).1 (f v w).2

  pub record Ready (exec : TxExecutor W V E) (w : W) : Type ℓ where
    pub holds : P exec.exec_ctx.curr exec.exec_ctx.input w
    pub inside : exec.exec_ctx.curr ≤ length exec.stages
    pub forward : exec.exec_ctx.status ≢ rollback
    pub effects :
        (i : ℕ) (st : TxExecutorStage W V E) → get_elem? exec.stages i ≡ some st → Effect i st
    pub saves :
        (ctx : TxExecutorContext V) (i : ℕ) (v : V) (u : W)
        → P i v u
        → P i v (exec.checkpointer ctx u).0

  -- Two stages with the same functions.
  pub SameFuncs : TxExecutorStage W V E → TxExecutorStage W V E → Type 0
  SameFuncs a b = (b.stage_func ≡ a.stage_func) × (b.complete_func ≡ a.complete_func)

  Effect-same : (i : ℕ) (a b : TxExecutorStage W V E) → SameFuncs a b → Effect i a → Effect i b
  unfolding SameFuncs
  Effect-same i a b (f, c) effect = record {
    executes = λ g e. effect.executes g (sym f ∙ e);
    completes = λ g e. effect.completes g (sym c ∙ e);
  }

  effects_set :
      (stages : List (TxExecutorStage W V E)) (i : ℕ) (a b : TxExecutorStage W V E)
      → get_elem? stages i ≡ some a
      → SameFuncs a b
      → ((j : ℕ) (st : TxExecutorStage W V E) → get_elem? stages j ≡ some st → Effect j st)
      → (j : ℕ) (st : TxExecutorStage W V E) → get_elem? (set stages i b) j ≡ some st
      → Effect j st
  effects_set stages i a b here same all j st e = elim (ℕ_discrete i j) [
    | yes at ↦
        let b_is_st : b ≡ st = ground (arith, at, e, get_elem?-set_self stages i b a here) in
        subst (Effect j) b_is_st
          (Effect-same j a b same (all j a (subst (λ k. get_elem? stages k ≡ some a) at here)))
    | no off ↦ all j st (sym (get_elem?-set_ne stages i j b off) ∙ e)
  ]

  -- After a call on the stage at `curr`: an error leaves all as it was, and success moves on.
  abbrev pub Moved : TxExecutor W V E → TxExecutor W V E → W → Option (ExecError E) → Type ℓ
  Moved exec exec' w none =
      Ready exec' w
      × (exec'.exec_ctx.curr ≡ suc exec.exec_ctx.curr)
      × (length exec'.stages ≡ length exec.stages)
      × (exec'.exec_ctx.status ≡ exec.exec_ctx.status)
  Moved exec exec' w (some e) =
      Ready exec' w
      × (exec'.exec_ctx.curr ≡ exec.exec_ctx.curr)
      × (length exec'.stages ≡ length exec.stages)
      × (exec'.exec_ctx.status ≡ exec.exec_ctx.status)

  pub execute-SameFuncs :
      (st : TxExecutorStage W V E) (v : V) (w : W) → SameFuncs st (Stages.execute st v w).1
  unfolding SameFuncs Stages.execute
  execute-SameFuncs st v w = ground arith

  pub complete-SameFuncs :
      (st : TxExecutorStage W V E) (v : V) (w : W) → SameFuncs st (Stages.complete st v w).1
  unfolding SameFuncs Stages.complete
  complete-SameFuncs st v w = ground arith

  -- The same of a stage's own error.
  abbrev pub Result : ℕ → V → W → V → Option (ExecError E) → Type ℓ
  Result i v w output none = P (suc i) output w
  Result i v w output (some e) = P i v w

  Result-external :
      (i : ℕ) (v : V) (w : W) (output : V) (err : Option E)
      → Outcome i v w output err
      → Result i v w output (Option.map external err)
  Result-external i v w output none h = h
  Result-external i v w output (some e) h = h

  pub execute-Result :
      (i : ℕ) (st : TxExecutorStage W V E) (v : V) (w : W)
      → Effect i st
      → P i v w
      → Result i v
          (Stages.execute st v w).0
          (Stages.execute st v w).1.output
          (Stages.execute st v w).1.err
  unfolding Stages.execute
  execute-Result i st v w effect h = elim (Option-cases st.stage_func) [
    | inl e ↦ rw (e, Stages.execute) h
    | inr (f, e) ↦
        rw (e, Stages.execute)
          (Result-external i v (f v w).0 (f v w).2 (f v w).3 (effect.executes f e v w h))
  ]

  pub complete-Result :
      (i : ℕ) (st : TxExecutorStage W V E) (v : V) (w : W)
      → Effect i st
      → P i v w
      → Result i v
          (Stages.complete st v w).0
          (Stages.complete st v w).1.output
          (Stages.complete st v w).1.err
  unfolding Stages.complete
  complete-Result i st v w effect h = elim (Option-cases st.complete_func) [
    | inl e ↦ rw (e, Stages.complete) h
    | inr (f, e) ↦
        rw (e, Stages.complete)
          (Result-external i v (f v w).0 (f v w).1 (f v w).2 (effect.completes f e v w h))
  ]

  pub stays :
      (exec : TxExecutor W V E) (w w' : W) (st st' : TxExecutorStage W V E)
      → Ready exec w
      → get_elem? exec.stages exec.exec_ctx.curr ≡ some st
      → SameFuncs st st'
      → P exec.exec_ctx.curr exec.exec_ctx.input w'
      → Ready (with_stage exec exec.exec_ctx.curr st') w'
  stays exec w w' st st' ready here same h = record {
    holds = h;
    inside = omega (arith, ready.inside, length-set exec.stages exec.exec_ctx.curr st');
    forward = ready.forward;
    effects = effects_set exec.stages exec.exec_ctx.curr st st' here same ready.effects;
    saves = ready.saves;
  }

  pub moves :
      (exec : TxExecutor W V E) (w w' : W) (st st' : TxExecutorStage W V E)
      → Ready exec w
      → get_elem? exec.stages exec.exec_ctx.curr ≡ some st
      → SameFuncs st st'
      → P (suc exec.exec_ctx.curr) st'.output w'
      → Ready (move_on (with_stage exec exec.exec_ctx.curr st') st'.output) w'
  moves exec w w' st st' ready here same h = record {
    holds = subst (λ i. P i st'.output w') (omega arith) h;
    inside = omega (
      arith,
      lt-get_elem? exec.stages exec.exec_ctx.curr st here,
      length-set exec.stages exec.exec_ctx.curr st',
    );
    forward = ready.forward;
    effects = effects_set exec.stages exec.exec_ctx.curr st st' here same ready.effects;
    saves = ready.saves;
  }
