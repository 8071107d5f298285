-- ===== src/Cc/Executor/Manager/Loops.antt =====
-- pkg/cc/executor.go: the loops of the manager's goroutine end, and keep what the stages did.
use cs.Prelude.{
  ℕ, zero, suc, ◌+◌, ◌≤◌, ◌<◌, Bool, ◌≡◌, refl, ap, ◌∙◌, inl, inr, Option, none, some, arith,
}
use cs.Prelude.Tests.{Bool-cases}
use cs.Prelude.Lists.{length}
use cs.Prelude.Run.{ok}
use cs.Cc.Context.{force_complete}
use cs.Cc.Executor.Stages.{ExecError}
use cs.Cc.Executor.{TxExecutor, next}
use cs.Cc.Executor.Effects.{execute_lem, complete_lem}
use cs.Cc.Executor.Moves.{Ready, Moved}
use cs.Cc.Executor.Manager.{
  sent_again, with_status, retry, reset_retry, checkpoint_or_retry, force_loop, normal_loop, handle,
  is_force_complete, after_error, is_unrecoverable,
}
use cs.Cc.Executor.Manager.Rounds.{
  left, left_le, Ends, Ready-with, Ended-retry, finish_lem, in_range, at_end, Later, next_round,
}

module _ {ℓ} {W V E : Type 0} (P : ℕ → V → W → Type ℓ) where
  force_after :
      (fuel : ℕ) (first exec : TxExecutor W V E) (w' : W) (exec' : TxExecutor W V E)
      (err : Option (ExecError E))
      → Moved P exec exec' w' err
      → length exec.stages ≡ length first.stages
      → first.exec_ctx.curr ≤ exec.exec_ctx.curr
      → length exec.stages + left (is_force_complete exec.exec_ctx.status)
        < exec.exec_ctx.curr + suc fuel
      → Later P (force_loop fuel) first fuel
      → Ends P first (elim err [
        | some e ↦ ok (w', retry exec', sent_again)
        | none ↦ checkpoint_or_retry (λ x u. force_loop fuel (reset_retry x) u) exec' w'
      ])
  force_after fuel first exec w' exec' none m e le enough later =
      next_round P (force_loop fuel) first exec' w' fuel m.0 (m.2 ∙ e) (omega (arith, m.1))
        (omega (arith, enough, m.1, m.2, ap (λ s. left (is_force_complete s)) m.3)) later
  force_after fuel first exec w' exec' (some err) m e le enough later = (
    w',
    retry exec',
    sent_again,
    refl,
    Ended-retry P first exec' w' m.0 (m.2 ∙ e) (omega (arith, m.1)),
  )

  force_loop-Ends : (fuel : ℕ) (first : TxExecutor W V E) → Later P (force_loop fuel) first fuel
  unfolding force_loop
  force_loop-Ends zero first exec w r e le enough = absurd (omega (arith, r.inside, enough))
  force_loop-Ends (suc fuel) first exec w r e le enough = elim (Bool-cases (next exec)) [
    | inl more ↦
        let (w', exec', err, ran, moved) = complete_lem P exec w r (in_range P exec w r more) in
        rw (more, force_loop)
          (rw ran (
            force_after fuel first exec w' exec' err moved e le enough
              (force_loop-Ends fuel first)))
    | inr over ↦ rw (over, force_loop) (finish_lem P first exec w r e le (at_end P exec w r over))
  ]

  module _ (unrecoverable : E → Bool) where
    normal_after :
        (fuel : ℕ) (first exec : TxExecutor W V E) (w' : W) (exec' : TxExecutor W V E)
        (err : Option (ExecError E))
        → Moved P exec exec' w' err
        → length exec.stages ≡ length first.stages
        → first.exec_ctx.curr ≤ exec.exec_ctx.curr
        → length exec.stages + 1 < exec.exec_ctx.curr + suc fuel
        → Later P (normal_loop unrecoverable fuel) first fuel
        → Ends P first (elim (after_error unrecoverable exec' err) [
          | none ↦ ok (w', retry exec', sent_again)
          | some x ↦
              checkpoint_or_retry (λ y u. normal_loop unrecoverable fuel (reset_retry y) u) x w'
        ])
    normal_after fuel first exec w' exec' none m e le enough later =
        next_round P (normal_loop unrecoverable fuel) first exec' w' fuel m.0 (m.2 ∙ e)
          (omega (arith, m.1))
          (omega (arith, enough, m.1, m.2, left_le (is_force_complete exec'.exec_ctx.status))) later
    normal_after fuel first exec w' exec' (some err) m e le enough later =
        elim (Bool-cases (is_unrecoverable unrecoverable err)) [
          | inl fatal ↦ rw fatal (
              next_round P (normal_loop unrecoverable fuel) first (with_status exec' force_complete)
                w' fuel (Ready-with P exec' w' exec'.retry_time force_complete m.0 (λ d. cc))
                (m.2 ∙ e) (omega (arith, m.1)) (omega (arith, enough, m.1, m.2)) later)
          | inr normal ↦ rw normal (
            w',
            retry exec',
            sent_again,
            refl,
            Ended-retry P first exec' w' m.0 (m.2 ∙ e) (omega (arith, m.1)),
          )
        ]

    normal_loop-Ends :
        (fuel : ℕ) (first : TxExecutor W V E) → Later P (normal_loop unrecoverable fuel) first fuel
    unfolding normal_loop
    normal_loop-Ends zero first exec w r e le enough = absurd (omega (arith, r.inside, enough))
    normal_loop-Ends (suc fuel) first exec w r e le enough = elim (Bool-cases (next exec)) [
      | inl more ↦ elim (Bool-cases (is_force_complete exec.exec_ctx.status)) [
        | inl forced ↦
            rw (more, normal_loop)
              (rw forced (w, retry exec, sent_again, refl, Ended-retry P first exec w r e le))
        | inr free ↦
            let (w', exec', err, ran, moved) = execute_lem P exec w r (in_range P exec w r more) in
            rw (more, normal_loop)
              (rw free (
                rw ran (
                  normal_after fuel first exec w' exec' err moved e le
                    (omega (arith, enough, ap left free)) (normal_loop-Ends fuel first))))
      ]
      | inr over ↦
          rw (over, normal_loop) (finish_lem P first exec w r e le (at_end P exec w r over))
    ]

    -- The goroutine of an executor that is ready always ends: its loop never runs out of fuel, and
    -- no index is out of range. Then what the stages did is kept, the current stage has not gone
    -- back, and if the goroutine is done, the status is completed and every stage has been run.
    pub handle-Ends :
        (exec : TxExecutor W V E) (w : W)
        → Ready P exec w
        → Ends P exec (handle unrecoverable exec w)
    unfolding handle
    handle-Ends exec w r = elim (Bool-cases (is_force_complete exec.exec_ctx.status)) [
      | inl forced ↦ rw forced (
          force_loop-Ends (length exec.stages + 2) exec exec w r refl (omega arith)
            (omega (arith, left_le (is_force_complete exec.exec_ctx.status))))
      | inr free ↦ rw free (
          normal_loop-Ends (length exec.stages + 2) exec exec w r refl (omega arith)
            (omega (arith, left_le (is_force_complete exec.exec_ctx.status))))
    ]
