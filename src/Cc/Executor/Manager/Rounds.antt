-- ===== src/Cc/Executor/Manager/Rounds.antt =====
-- pkg/cc/executor.go: one round of the loops in the goroutine of TxExecutorManager.
use cs.Prelude.{ℕ, ◌+◌, ◌≤◌, ◌<◌, Bool, true, false, ◌≡◌, refl, ◌≢◌, inl, inr, arith}
use cs.Prelude.Tests.{ltb, Option-cases}
use cs.Prelude.Lists.{length}
use cs.Prelude.Run.{Run, ok}
use cs.Cc.Context.{ExecStatus, rollback, completed}
use cs.Cc.Executor.{TxExecutor, next, checkpoint, has_next}
use cs.Cc.Executor.Moves.{Ready}
use cs.Cc.Executor.Manager.{
  Ending, sent_again, done, Round, with_status, retry, reset_retry, checkpoint_or_retry, finish,
  is_force_complete,
}

has_next_forward :
    (status : ExecStatus) (curr n : ℕ) → status ≢ rollback → has_next status curr n ≡ ltb curr n
has_next_forward rollback curr n forward = absurd (forward refl)
has_next_forward _ curr n forward = refl

-- An executor that is not yet forced may take one more round, in which it becomes so.
abbrev pub left : Bool → ℕ
left true = 0
left false = 1

pub left_le : (b : Bool) → left b ≤ 1
left_le true = omega arith
left_le false = omega arith

module _ {ℓ} {W V E : Type 0} (P : ℕ → V → W → Type ℓ) where
  abbrev pub Finished : TxExecutor W V E → Ending → Type 0
  Finished exec sent_again = Unit
  Finished exec done =
      (exec.exec_ctx.status ≡ completed) × (exec.exec_ctx.curr ≡ length exec.stages)

  -- How a round ends: what the stages did is kept, and a goroutine that is done has run them all.
  pub record Ended (exec exec' : TxExecutor W V E) (w : W) (ending : Ending) : Type ℓ where
    pub ready : Ready P exec' w
    pub stages_kept : length exec'.stages ≡ length exec.stages
    pub grows : exec.exec_ctx.curr ≤ exec'.exec_ctx.curr
    pub all_done : Finished exec' ending

  -- A round that ends.
  abbrev pub Ends : TxExecutor W V E → Run (Round W V E) → Type ℓ
  Ends exec run =
      (w' : W) × (exec' : TxExecutor W V E) × (ending : Ending) × (run ≡ ok (w', exec', ending))
      × Ended exec exec' w' ending

  -- The retry counter and the status, if it is no rollback, play no part.
  pub Ready-with :
      (exec : TxExecutor W V E) (w : W) (k : ℕ) (status : ExecStatus)
      → Ready P exec w
      → status ≢ rollback
      → Ready P (record (with_status exec status) { retry_time = k }) w
  Ready-with exec w k status r forward = record {
    holds = r.holds;
    inside = r.inside;
    forward = forward;
    effects = r.effects;
    saves = r.saves;
  }

  Ready-checkpoint :
      (exec : TxExecutor W V E) (w : W) → Ready P exec w → Ready P exec (checkpoint exec w).0
  unfolding checkpoint
  Ready-checkpoint exec w r = record {
    holds = r.saves exec.exec_ctx exec.exec_ctx.curr exec.exec_ctx.input w r.holds;
    inside = r.inside;
    forward = r.forward;
    effects = r.effects;
    saves = r.saves;
  }

  Ready-retry : (exec : TxExecutor W V E) (w : W) → Ready P exec w → Ready P (retry exec) w
  unfolding retry
  Ready-retry exec w r = Ready-with exec w (exec.retry_time + 1) exec.exec_ctx.status r r.forward

  -- The executor is sent to the manager again.
  pub Ended-retry :
      (first exec : TxExecutor W V E) (w : W)
      → Ready P exec w
      → length exec.stages ≡ length first.stages
      → first.exec_ctx.curr ≤ exec.exec_ctx.curr
      → Ended first (retry exec) w sent_again
  unfolding retry
  Ended-retry first exec w r e le = record {
    ready = Ready-with exec w (exec.retry_time + 1) exec.exec_ctx.status r r.forward;
    stages_kept = e;
    grows = le;
    all_done = tt;
  }

  checkpoint_or_retry_lem :
      (first exec : TxExecutor W V E) (w : W) (rest : TxExecutor W V E → W → Run (Round W V E))
      → Ready P exec w
      → length exec.stages ≡ length first.stages
      → first.exec_ctx.curr ≤ exec.exec_ctx.curr
      → ((u : W) → Ready P exec u → Ends first (rest exec u))
      → Ends first (checkpoint_or_retry rest exec w)
  unfolding checkpoint_or_retry
  checkpoint_or_retry_lem first exec w rest r e le more =
      let saved = Ready-checkpoint exec w r in
      elim (Option-cases (checkpoint exec w).1) [
        | inl fine ↦ rw (fine, checkpoint_or_retry) (more (checkpoint exec w).0 saved)
        | inr (err, failed) ↦ (
          (checkpoint exec w).0,
          retry exec,
          sent_again,
          rw (failed, checkpoint_or_retry) refl,
          Ended-retry first exec (checkpoint exec w).0 saved e le,
        )
      ]

  pub finish_lem :
      (first exec : TxExecutor W V E) (w : W)
      → Ready P exec w
      → length exec.stages ≡ length first.stages
      → first.exec_ctx.curr ≤ exec.exec_ctx.curr
      → length exec.stages ≤ exec.exec_ctx.curr
      → Ends first (finish exec w)
  unfolding finish
  finish_lem first exec w r e le over =
      checkpoint_or_retry_lem first (with_status exec completed) w _
        (Ready-with exec w exec.retry_time completed r (λ d. cc)) e le
        (λ u saved. (
          u,
          with_status exec completed,
          done,
          refl,
          record {
            ready = saved;
            stages_kept = e;
            grows = le;
            all_done = (refl, omega (arith, saved.inside, over));
          },
        ))

  next_forward :
      (exec : TxExecutor W V E) (w : W)
      → Ready P exec w
      → next exec ≡ ltb exec.exec_ctx.curr (length exec.stages)
  unfolding next
  next_forward exec w r =
      has_next_forward exec.exec_ctx.status exec.exec_ctx.curr (length exec.stages) r.forward

  pub in_range :
      (exec : TxExecutor W V E) (w : W)
      → Ready P exec w
      → next exec ≡ true
      → exec.exec_ctx.curr < length exec.stages
  in_range exec w r more = ground (arith, next_forward exec w r)

  pub at_end :
      (exec : TxExecutor W V E) (w : W)
      → Ready P exec w
      → next exec ≡ false
      → length exec.stages ≤ exec.exec_ctx.curr
  at_end exec w r over = ground (arith, next_forward exec w r)

  -- What the recursive calls of a loop give, for the executors that are within `fuel` rounds.
  abbrev pub Later : (TxExecutor W V E → W → Run (Round W V E)) → TxExecutor W V E → ℕ → Type ℓ
  Later loop first bound =
      (exec : TxExecutor W V E) (w : W)
      → Ready P exec w
      → length exec.stages ≡ length first.stages
      → first.exec_ctx.curr ≤ exec.exec_ctx.curr
      → length exec.stages + left (is_force_complete exec.exec_ctx.status)
        < exec.exec_ctx.curr + bound
      → Ends first (loop exec w)

  -- The checkpoint after a successful step, and the next round of the loop.
  pub next_round :
      (loop : TxExecutor W V E → W → Run (Round W V E)) (first exec : TxExecutor W V E) (w : W)
      (bound : ℕ)
      → Ready P exec w
      → length exec.stages ≡ length first.stages
      → first.exec_ctx.curr ≤ exec.exec_ctx.curr
      → length exec.stages + left (is_force_complete exec.exec_ctx.status)
        < exec.exec_ctx.curr + bound
      → Later loop first bound
      → Ends first (checkpoint_or_retry (λ x u. loop (reset_retry x) u) exec w)
  next_round loop first exec w bound r e le enough later =
      checkpoint_or_retry_lem first exec w _ r e le (λ u saved.
        later (reset_retry exec) u (Ready-with exec u 0 exec.exec_ctx.status saved saved.forward) e
          le enough)
