-- ===== src/Cc/Executor/Manager.antt =====
-- pkg/cc/executor.go: the goroutine in which the manager runs an executor that it received.
pub mod Loops
pub mod Rounds
pub mod Life
pub mod Once
use cs.Prelude.{ℕ, zero, suc, ◌+◌, ◌-◌, Bool, true, false, Option, none, some, List, [], ◌∷◌}
use cs.Prelude.Tests.{if◌then◌else◌}
use cs.Prelude.Lists.{length}
use cs.Prelude.Run.{Run, ok, panic, blocked, ◌>>=◌}
use cs.Cc.Context.{
  TxExecutorContext, ExecStatus, pending, committed, aborted, rollback, force_complete, completed,
}
use cs.Cc.Executor.Stages.{
  ExecError, external, err_tx_exec_aborted, err_tx_exec_force_complete,
  err_tx_exec_stage_empty_func,
}
use cs.Cc.Executor.{TxExecutor, checkpoint, execute, force_complete_stage, next}

-- How the goroutine ends: the executor was sent to the manager again, or it is done.
pub data Ending : Type 0 where
  sent_again done : Ending

abbrev pub Round : Type 0 → Type 0 → Type 0 → Type 0
Round W V E = W × TxExecutor W V E × Ending

abbrev pub is_force_complete : ExecStatus → Bool
is_force_complete force_complete = true
is_force_complete _ = false

-- `errors.Is(err, ErrTxExecUnrecoverable)`; `unrecoverable` says it of a stage function's error.
abbrev pub is_unrecoverable : {E : Type 0} → (E → Bool) → ExecError E → Bool
is_unrecoverable unrecoverable (external e) = unrecoverable e
is_unrecoverable unrecoverable _ = false

module _ {W V E : Type 0} where
  abbrev pub with_status : TxExecutor W V E → ExecStatus → TxExecutor W V E
  with_status exec status = record exec { exec_ctx = record exec.exec_ctx { status = status } }

  -- The sleep between the two changes no state here.
  unfoldable pub retry : TxExecutor W V E → TxExecutor W V E
  retry exec = record exec { retry_time = exec.retry_time + 1 }

  -- `if err := exec.Checkpoint(); err != nil { mgr.retry(exec); return }`, and what follows.
  unfoldable pub checkpoint_or_retry :
      (TxExecutor W V E → W → Run (Round W V E)) → TxExecutor W V E → W → Run (Round W V E)
  checkpoint_or_retry rest exec w =
      let (w', err) = checkpoint exec w in
      elim err [ some e ↦ ok (w', retry exec, sent_again) | none ↦ rest exec w' ]

  -- After the loop of either branch.
  unfoldable pub finish : TxExecutor W V E → W → Run (Round W V E)
  finish exec w =
      checkpoint_or_retry (λ exec' w'. ok (w', exec', done)) (with_status exec completed) w

  abbrev pub reset_retry : TxExecutor W V E → TxExecutor W V E
  reset_retry exec = record exec { retry_time = 0 }

  -- The loops run on fuel: `blocked` means that it ran out.
  unfoldable pub force_loop : ℕ → TxExecutor W V E → W → Run (Round W V E)
  force_loop zero exec w = blocked
  force_loop (suc fuel) exec w = elim (next exec) [
    | false ↦ finish exec w
    | true ↦ force_complete_stage exec w >>= λ (w', exec', err). elim err [
      | some e ↦ ok (w', retry exec', sent_again)
      | none ↦
          checkpoint_or_retry (λ saved w_saved. force_loop fuel (reset_retry saved) w_saved) exec'
            w'
    ]
  ]

  module _ (unrecoverable : E → Bool) where
    -- What an error of `Execute` leads to: `none` is a retry.
    abbrev pub after_error : TxExecutor W V E → Option (ExecError E) → Option (TxExecutor W V E)
    after_error exec none = some exec
    after_error exec (some e) =
        if is_unrecoverable unrecoverable e then some (with_status exec force_complete) else none

    unfoldable pub normal_loop : ℕ → TxExecutor W V E → W → Run (Round W V E)
    normal_loop zero exec w = blocked
    normal_loop (suc fuel) exec w = elim (next exec) [
      | false ↦ finish exec w
      | true ↦ elim (is_force_complete exec.exec_ctx.status) [
        | true ↦ ok (w, retry exec, sent_again)
        | false ↦ execute exec w >>= λ (w', exec', err). elim (after_error exec' err) [
          | none ↦ ok (w', retry exec', sent_again)
          | some moved ↦
              checkpoint_or_retry (λ saved w_saved. normal_loop fuel (reset_retry saved) w_saved)
                moved w'
        ]
      ]
    ]

    -- The body of `for exec := range mgr.recvQueue`.
    unfoldable pub handle : TxExecutor W V E → W → Run (Round W V E)
    handle exec w =
        if is_force_complete exec.exec_ctx.status
        then force_loop (length exec.stages + 2) exec w
        else normal_loop (length exec.stages + 2) exec w
