-- ===== src/Cc/Executor/Effects.antt =====
-- pkg/cc/executor.go: Execute and Complete keep what a stage does to the world.
use mathlib.Core.Path.{subst}
use cs.Prelude.{ℕ, ◌<◌, ◌≡◌, refl, inl, inr, Option, some, arith}
use cs.Prelude.Tests.{Option-cases}
use cs.Prelude.Lists.{length, get_elem?, length-set, get_elem?-lt}
use cs.Prelude.Run.{ok}
use cs.Cc.Executor.Stages.{TxExecutorStage, ExecError, external, StageFunc, CompleteFunc}
use cs.Cc.Executor.Stages
use cs.Cc.Executor.{TxExecutor, execute, force_complete_stage, after_execute, after_complete}
use cs.Cc.Executor.Moves.{
  Ready, SameFuncs, Moved, execute-SameFuncs, complete-SameFuncs, Result, execute-Result,
  complete-Result, stays, moves,
}

module _ {ℓ} {W V E : Type 0} (P : ℕ → V → W → Type ℓ) where
  after_execute-Moved :
      (exec : TxExecutor W V E) (w w' : W) (st st' : TxExecutorStage W V E)
      → Ready P exec w
      → get_elem? exec.stages exec.exec_ctx.curr ≡ some st
      → SameFuncs P st st'
      → Result P exec.exec_ctx.curr exec.exec_ctx.input w' st'.output st'.err
      → let r = after_execute exec (w', st') in Moved P exec r.1 r.0 r.2
  unfolding after_execute
  after_execute-Moved exec w w' st st' ready here same h = elim (Option-cases st'.err) [
    | inl e ↦
        rw (e, after_execute)
          (
            moves P exec w w' st st' ready here same
                (subst (Result P exec.exec_ctx.curr exec.exec_ctx.input w' st'.output) e h),
            omega arith,
            length-set exec.stages exec.exec_ctx.curr st',
            refl,
          )
    | inr (err, e) ↦
        rw (e, after_execute)
          (
            stays P exec w w' st st' ready here same
                (subst (Result P exec.exec_ctx.curr exec.exec_ctx.input w' st'.output) e h),
            refl,
            length-set exec.stages exec.exec_ctx.curr st',
            refl,
          )
  ]

  after_complete-Moved :
      (exec : TxExecutor W V E) (w w' : W) (st st' : TxExecutorStage W V E)
      → Ready P exec w
      → get_elem? exec.stages exec.exec_ctx.curr ≡ some st
      → SameFuncs P st st'
      → Result P exec.exec_ctx.curr exec.exec_ctx.input w' st'.output st'.err
      → let r = after_complete exec (w', st') in Moved P exec r.1 r.0 r.2
  unfolding after_complete
  after_complete-Moved exec w w' st st' ready here same h = elim (Option-cases st'.err) [
    | inl e ↦
        rw (e, after_complete)
          (
            moves P exec w w' st st' ready here same
                (subst (Result P exec.exec_ctx.curr exec.exec_ctx.input w' st'.output) e h),
            omega arith,
            length-set exec.stages exec.exec_ctx.curr st',
            refl,
          )
    | inr (err, e) ↦
        rw (e, after_complete)
          (
            stays P exec w w' st st' ready here same
                (subst (Result P exec.exec_ctx.curr exec.exec_ctx.input w' st'.output) e h),
            refl,
            length-set exec.stages exec.exec_ctx.curr st',
            refl,
          )
  ]

  pub execute_lem :
      (exec : TxExecutor W V E) (w : W)
      → Ready P exec w
      → exec.exec_ctx.curr < length exec.stages
      → (w' : W) × (exec' : TxExecutor W V E) × (err : Option (ExecError E)) × (execute exec w
          ≡ ok (w', exec', err))
        × Moved P exec exec' w' err
  unfolding execute
  execute_lem exec w ready lt =
      let (st, e) = get_elem?-lt exec.stages exec.exec_ctx.curr lt in
      let ran = Stages.execute st exec.exec_ctx.input w in
      let r = after_execute exec ran in
      (
        r.0,
        r.1,
        r.2,
        rw e refl,
        after_execute-Moved exec w ran.0 st ran.1 ready e
            (execute-SameFuncs P st exec.exec_ctx.input w)
            (execute-Result P exec.exec_ctx.curr st exec.exec_ctx.input w
              (ready.effects exec.exec_ctx.curr st e) ready.holds),
      )

  pub complete_lem :
      (exec : TxExecutor W V E) (w : W)
      → Ready P exec w
      → exec.exec_ctx.curr < length exec.stages
      → (w' : W) × (exec' : TxExecutor W V E) × (err : Option (ExecError E)) × (force_complete_stage
            exec w
          ≡ ok (w', exec', err))
        × Moved P exec exec' w' err
  unfolding force_complete_stage
  complete_lem exec w ready lt =
      let (st, e) = get_elem?-lt exec.stages exec.exec_ctx.curr lt in
      let ran = Stages.complete st exec.exec_ctx.input w in
      let r = after_complete exec ran in
      (
        r.0,
        r.1,
        r.2,
        rw e refl,
        after_complete-Moved exec w ran.0 st ran.1 ready e
            (complete-SameFuncs P st exec.exec_ctx.input w)
            (complete-Result P exec.exec_ctx.curr st exec.exec_ctx.input w
              (ready.effects exec.exec_ctx.curr st e) ready.holds),
      )
