-- ===== src/Cc/Executor/Stages.antt =====
-- pkg/cc/executor.go: one stage, with the functions that execute it, roll it back and complete it.
use cs.Prelude.{Option, none, some}
use mathlib.Core.Option

-- `err_tx_exec_aborted` and `err_tx_exec_force_complete` keep the text of their cause only:
-- `errors.Is` does not look into it. `external` errors are those of the stage functions.
pub data ExecError (E : Type 0) : Type 0 where
  err_tx_exec_stage_empty_func : ExecError E
  err_tx_exec_aborted : Option E → ExecError E
  err_tx_exec_force_complete : Option E → ExecError E
  external : E → ExecError E

module _ (W V E : Type 0) where
  abbrev pub StageFunc : Type 0
  StageFunc = V → W → W × V × V × Option E  -- result, output, err

  abbrev pub RollbackFunc : Type 0
  RollbackFunc = V → W → W × V × Option E  -- output, err

  abbrev pub CompleteFunc : Type 0
  CompleteFunc = V → W → W × V × Option E

  pub record TxExecutorStage : Type 0 where
    pub stage_func : Option StageFunc
    pub rollback_func : Option RollbackFunc
    pub complete_func : Option CompleteFunc
    pub output : V
    pub result : V
    pub err : Option (ExecError E)

-- `%v` of the error that stopped a stage.
abbrev pub cause : {E : Type 0} → ExecError E → Option E
cause (external e) = some e
cause _ = none

module _ {W V E : Type 0} where
  unfoldable pub new_executor_stage : V → TxExecutorStage W V E
  new_executor_stage nil = record {
    stage_func = none;
    rollback_func = none;
    complete_func = none;
    output = nil;
    result = nil;
    err = none;
  }

  abbrev pub stage : TxExecutorStage W V E → StageFunc W V E → TxExecutorStage W V E
  stage st f = record st { stage_func = some f }

  abbrev pub rollback_stage : TxExecutorStage W V E → RollbackFunc W V E → TxExecutorStage W V E
  rollback_stage st f = record st { rollback_func = some f }

  abbrev pub complete_stage : TxExecutorStage W V E → CompleteFunc W V E → TxExecutorStage W V E
  complete_stage st f = record st { complete_func = some f }

  abbrev empty : TxExecutorStage W V E → W → W × TxExecutorStage W V E
  empty st w = (w, record st { err = some err_tx_exec_stage_empty_func })

  unfoldable pub execute : TxExecutorStage W V E → V → W → W × TxExecutorStage W V E
  execute st v w = elim st.stage_func [
    | none ↦ empty st w
    | some f ↦
        let (w', result, output, err) = f v w in
        (w', record st { result = result; output = output; err = Option.map external err })
  ]

  unfoldable pub roll_back : TxExecutorStage W V E → V → W → W × TxExecutorStage W V E
  roll_back st v w = elim st.rollback_func [
    | none ↦ empty st w
    | some f ↦
        let (w', output, err) = f v w in
        (w', record st { output = output; err = Option.map external err })
  ]

  unfoldable pub complete : TxExecutorStage W V E → V → W → W × TxExecutorStage W V E
  complete st v w = elim st.complete_func [
    | none ↦ empty st w
    | some f ↦
        let (w', output, err) = f v w in
        (w', record st { output = output; err = Option.map external err })
  ]
