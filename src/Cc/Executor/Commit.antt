-- ===== src/Cc/Executor/Commit.antt =====
-- pkg/cc/executor.go: `Run` commits at most once.
use cs.Prelude.{◌≡◌, ◌≢◌, Option, none, some, ◌⊎◌, arith}
use cs.Prelude.Run.{ok}
use cs.Cc.Context.{pending, aborted}
use cs.Cc.Executor.Stages.{ExecError, err_tx_exec_aborted}
use cs.Cc.Executor.{TxExecutor, run}

module _ {W V E : Type 0} where
  -- Once `Run` has returned, its executor is decided: it was committed (or further on) and the call
  -- returned its result with no error, or it was aborted and the call returned an error and no
  -- result. Calling `Run` again then runs no stage, whatever has happened to the world meanwhile:
  -- it changes nothing, and returns the same result, or again the error of an aborted execution.
  pub run-run :
      (exec exec' : TxExecutor W V E) (w w' later : W) (result : Option V)
      (err : Option (ExecError E))
      → run exec w ≡ ok (w', exec', (result, err))
      → ((err ≡ none)
          × (exec'.exec_ctx.status ≢ aborted)
          × (exec'.exec_ctx.status ≢ pending)
          × (result ≡ some exec'.exec_ctx.result)
          × (run exec' later ≡ ok (later, exec', (result, none))))
        ⊎ ((result ≡ none)
            × (err ≢ none)
            × (exec'.exec_ctx.status ≡ aborted)
            × (run exec' later ≡ ok (later, exec', (none, some (err_tx_exec_aborted none)))))
  unfolding run
  run-run exec exec' w w' later result err h = ground (arith, h)
