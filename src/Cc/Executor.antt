-- ===== src/Cc/Executor.antt =====
-- pkg/cc/executor.go: an executor commits its first stage, and then runs the other stages one after
-- the other, each until it succeeds.
pub mod Stages
pub mod Commit
pub mod Effects
pub mod Moves
pub mod Manager
pub mod Backoff
use mathlib.Core.Option
use cs.Prelude.{ℕ, zero, suc, ◌+◌, ◌-◌, Bool, true, false, Option, none, some, List, [], ◌∷◌, ◌++◌}
use cs.Prelude.Tests.{ltb, if◌then◌else◌}
use cs.Prelude.Lists.{length, get_elem?, set}
use cs.Prelude.Run.{Run, ok, panic, blocked, ◌>>=◌, or_panic}
use cs.Cc.Context.{
  TxExecutorContext, ExecStatus, pending, committed, aborted, rollback, force_complete, completed,
}
use Stages.{TxExecutorStage, ExecError, err_tx_exec_aborted, err_tx_exec_force_complete, cause}
use Stages

-- `W` is the state of everything that the stage functions and the checkpointer act on: the other
-- services and the database. `V` is `any`, and `E` the errors that those functions return.
pub record TxExecutor (W V E : Type 0) : Type 0 where
  pub exec_ctx : TxExecutorContext V
  pub checkpointer : TxExecutorContext V → W → W × Option E
  pub retry_time : ℕ
  pub commit_stage : Option (TxExecutorStage W V E)  -- a pointer that may be nil
  pub stages : List (TxExecutorStage W V E)

-- A method that may fail: the new state, the executor, and the error.
abbrev pub Call : Type 0 → Type 0 → Type 0 → Type 0
Call W V E = W × TxExecutor W V E × Option (ExecError E)

-- `Run` and `SyncRun` return `any` and `error`; a result of nil is none.
abbrev pub Answer : Type 0 → Type 0 → Type 0 → Type 0
Answer W V E = W × TxExecutor W V E × (Option V × Option (ExecError E))

abbrev pub has_next : ExecStatus → ℕ → ℕ → Bool
has_next rollback curr n = ltb 0 curr
has_next _ curr n = ltb curr n

module _ {W V E : Type 0} where
  unfoldable pub new_tx_executor :
      TxExecutorContext V → (TxExecutorContext V → W → W × Option E) → TxExecutor W V E
  new_tx_executor ctx checkpointer = record {
    exec_ctx = ctx;
    checkpointer = checkpointer;
    retry_time = 0;
    commit_stage = none;
    stages = [];
  }

  abbrev pub set_commit_stage : TxExecutor W V E → TxExecutorStage W V E → TxExecutor W V E
  set_commit_stage exec stage = record exec { commit_stage = some stage }

  abbrev pub add_stage : TxExecutor W V E → TxExecutorStage W V E → TxExecutor W V E
  add_stage exec stage = record exec { stages = exec.stages ++ stage ∷ [] }

  unfoldable pub checkpoint : TxExecutor W V E → W → W × Option E
  checkpoint exec w = exec.checkpointer exec.exec_ctx w

  unfoldable pub next : TxExecutor W V E → Bool
  next exec = has_next exec.exec_ctx.status exec.exec_ctx.curr (length exec.stages)

  abbrev pub with_stage : TxExecutor W V E → ℕ → TxExecutorStage W V E → TxExecutor W V E
  with_stage exec i stage = record exec { stages = set exec.stages i stage }

  -- `Curr += 1; Input = stage.output`
  abbrev pub move_on : TxExecutor W V E → V → TxExecutor W V E
  move_on exec output = record exec {
    exec_ctx = record exec.exec_ctx { curr = exec.exec_ctx.curr + 1; input = output };
  }

  unfoldable pub after_execute : TxExecutor W V E → W × TxExecutorStage W V E → Call W V E
  after_execute exec (w, stage) =
      let exec' = with_stage exec exec.exec_ctx.curr stage in
      elim stage.err [ some e ↦ (w, exec', some e) | none ↦ (w, move_on exec' stage.output, none) ]

  unfoldable pub execute : TxExecutor W V E → W → Run (Call W V E)
  unfolding after_execute
  execute exec w = or_panic (get_elem? exec.stages exec.exec_ctx.curr) >>= λ stage.
      ok (after_execute exec (Stages.execute stage exec.exec_ctx.input w))

  after_rollback : TxExecutor W V E → W × TxExecutorStage W V E → Call W V E
  after_rollback exec (w, stage) =
      let exec' = with_stage exec exec.exec_ctx.curr stage in
      elim stage.err [
        | some e ↦ (w, exec', some e)
        | none ↦
            (w, record exec' { exec_ctx = record exec'.exec_ctx { input = stage.output } }, none)
      ]

  -- `Curr -= 1` at 0 leaves -1, which is out of range.
  roll_back_at : ℕ → TxExecutor W V E → W → Run (Call W V E)
  unfolding after_rollback
  roll_back_at zero exec w = panic
  roll_back_at (suc curr) exec w = or_panic (get_elem? exec.stages curr) >>= λ stage. ok (
      after_rollback (record exec { exec_ctx = record exec.exec_ctx { curr = curr } })
        (Stages.roll_back stage exec.exec_ctx.input w))

  unfoldable pub roll_back : TxExecutor W V E → W → Run (Call W V E)
  unfolding roll_back_at
  roll_back exec w = roll_back_at exec.exec_ctx.curr exec w

  after_complete : TxExecutor W V E → W × TxExecutorStage W V E → Call W V E
  after_complete exec (w, stage) =
      let exec' = with_stage exec exec.exec_ctx.curr stage in
      elim stage.err [
        | some e ↦ (w, exec', some (err_tx_exec_force_complete (cause e)))
        | none ↦ (w, move_on exec' stage.output, none)
      ]

  unfoldable pub force_complete_stage : TxExecutor W V E → W → Run (Call W V E)
  unfolding after_complete
  force_complete_stage exec w = or_panic (get_elem? exec.stages exec.exec_ctx.curr) >>= λ stage.
      ok (after_complete exec (Stages.complete stage exec.exec_ctx.input w))

  unfoldable pub commit : TxExecutor W V E → W × TxExecutorStage W V E → Answer W V E
  commit exec (w, stage) =
      let exec' = record exec { commit_stage = some stage } in
      elim stage.err [
        | some e ↦ (
          w,
          record exec' { exec_ctx = record exec.exec_ctx { status = aborted } },
          (none, some (err_tx_exec_aborted (cause e))),
        )
        | none ↦ (
          w,
          record exec' {
            exec_ctx = record exec.exec_ctx {
              input = stage.output;
              result = stage.result;
              status = committed;
            };
          },
          (some stage.result, none),
        )
      ]

  unfoldable pub run_status : ExecStatus → TxExecutor W V E → W → Run (Answer W V E)
  unfolding commit
  run_status aborted exec w = ok (w, exec, (none, some (err_tx_exec_aborted none)))
  run_status committed exec w = ok (w, exec, (some exec.exec_ctx.result, none))
  run_status force_complete exec w = ok (w, exec, (some exec.exec_ctx.result, none))
  run_status completed exec w = ok (w, exec, (some exec.exec_ctx.result, none))
  run_status _ exec w = or_panic exec.commit_stage >>= λ stage.
      ok (commit exec (Stages.execute stage exec.exec_ctx.input w))

  unfoldable pub run : TxExecutor W V E → W → Run (Answer W V E)
  unfolding run_status
  run exec w = run_status exec.exec_ctx.status exec w

  -- `for exec.Next() { … }`, on fuel: `blocked` means that it ran out.
  unfoldable pub sync_stages : ℕ → Option V → TxExecutor W V E → W → Run (Answer W V E)
  sync_stages zero result exec w = blocked
  sync_stages (suc fuel) result exec w = elim (next exec) [
    | false ↦ ok (w, exec, (result, none))
    | true ↦ execute exec w >>= λ (w', exec', err). elim err [
      | some e ↦ ok (w', exec', (result, some e))
      | none ↦ sync_stages fuel result exec' w'
    ]
  ]

  unfoldable pub sync_run : TxExecutor W V E → W → Run (Answer W V E)
  sync_run exec w = run exec w >>= λ (w', exec', (result, err)). elim err [
    | some e ↦ ok (w', exec', (none, some e))
    | none ↦ sync_stages (length exec'.stages + 2) result exec' w'
  ]
