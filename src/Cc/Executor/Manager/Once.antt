-- ===== src/Cc/Executor/Manager/Once.antt =====
-- pkg/cc/executor.go: through all retries, each stage succeeds exactly once, in order.
use mathlib.Core.Path.{subst}
use cs.Prelude.{
  ℕ, zero, suc, Bool, ◌≡◌, sym, ap, ◌∙◌, ◌≢◌, Option, none, some, List, [], ◌∷◌, ◌++◌, arith,
}
use cs.Prelude.Lists.{length, get_elem?}
use cs.Prelude.Run.{ok}
use cs.Cc.Context.{TxExecutorContext, rollback, completed}
use cs.Cc.Executor.Stages.{TxExecutorStage, StageFunc, CompleteFunc}
use cs.Cc.Executor.{TxExecutor}
use cs.Cc.Executor.Moves.{Ready, Effect, Outcome}
use cs.Cc.Executor.Manager.{done, handle}
use cs.Cc.Executor.Manager.Life.{Life, done_completed}

-- The numbers below `n`, in order.
unfoldable pub upto : ℕ → List ℕ
upto zero = []
upto (suc n) = upto n ++ n ∷ []

abbrev pub Appends : {W E : Type 0} → (W → List ℕ) → ℕ → W → W → Option E → Type 0
Appends log i w w' none = log w' ≡ log w ++ i ∷ []
Appends log i w w' (some e) = log w' ≡ log w

abbrev pub Logged : {W V : Type 0} → (W → List ℕ) → ℕ → V → W → Type 0
Logged log i v w = log w ≡ upto i

module _ {W V E : Type 0} where
  module _ (log : W → List ℕ) where
    -- The functions of stage `i` write `i` to the log when they succeed, and nothing when they fail.
    pub record Logs (i : ℕ) (st : TxExecutorStage W V E) : Type 0 where
      pub executes :
          (f : StageFunc W V E)
          → st.stage_func ≡ some f
          → (v : V) (w : W) → Appends log i w (f v w).0 (f v w).3
      pub completes :
          (f : CompleteFunc W V E)
          → st.complete_func ≡ some f
          → (v : V) (w : W) → Appends log i w (f v w).0 (f v w).2

    Appends-Outcome :
        (i : ℕ) (v output : V) (w w' : W) (err : Option E)
        → Appends log i w w' err
        → Logged log i v w
        → Outcome (Logged log) i v w' output err
    unfolding upto
    Appends-Outcome i v output w w' none a h = a ∙ ap (λ l. l ++ i ∷ []) h
    Appends-Outcome i v output w w' (some e) a h = a ∙ h

    Logs-Effect : (i : ℕ) (st : TxExecutorStage W V E) → Logs i st → Effect (Logged log) i st
    Logs-Effect i st l = record {
      executes =
          λ f e v w. Appends-Outcome i v (f v w).2 w (f v w).0 (f v w).3 (l.executes f e v w);
      completes =
          λ f e v w. Appends-Outcome i v (f v w).1 w (f v w).0 (f v w).2 (l.completes f e v w);
    }

    -- An executor at its start, with an empty log.
    pub start-Ready :
        (first : TxExecutor W V E) (w : W)
        → ((i : ℕ) (st : TxExecutorStage W V E) → get_elem? first.stages i ≡ some st → Logs i st)
        → ((ctx : TxExecutorContext V) (x : W) → log (first.checkpointer ctx x).0 ≡ log x)
        → first.exec_ctx.curr ≡ 0
        → first.exec_ctx.status ≢ rollback
        → log w ≡ []
        → Ready (Logged log) first w
    unfolding upto
    start-Ready first w logs silent zero_curr forward empty = record {
      holds = subst (λ i. log w ≡ upto i) (sym zero_curr) empty;
      inside = omega arith;
      forward = forward;
      effects = λ i st e. Logs-Effect i st (logs i st e);
      saves = λ ctx i v x l. silent ctx x ∙ l;
    }

    -- Let each stage of an executor write its number to a log when it succeeds, the checkpointer
    -- write nothing, and the executor start at stage 0, with an empty log and a status that is not
    -- rollback. When a goroutine is done with it, after any number of others that failed, the log
    -- holds the number of every stage once, in order, and the status is completed.
    pub each_stage_once :
        (unrecoverable : E → Bool) (first : TxExecutor W V E) (w : W) (exec : TxExecutor W V E)
        (u u' : W) (exec' : TxExecutor W V E)
        → ((i : ℕ) (st : TxExecutorStage W V E) → get_elem? first.stages i ≡ some st → Logs i st)
        → ((ctx : TxExecutorContext V) (x : W) → log (first.checkpointer ctx x).0 ≡ log x)
        → first.exec_ctx.curr ≡ 0
        → first.exec_ctx.status ≢ rollback
        → log w ≡ []
        → Life unrecoverable (Logged log) first w exec u
        → handle unrecoverable exec u ≡ ok (u', exec', done)
        → (log u' ≡ upto (length first.stages)) × (exec'.exec_ctx.status ≡ completed)
    each_stage_once unrecoverable first w exec u u' exec' logs silent zero_curr forward empty life
          h =
        let start = start-Ready first w logs silent zero_curr forward empty in
        let (finished, _, all) =
          done_completed unrecoverable (Logged log) first w exec u u' exec' start life h in
        (all, finished)
