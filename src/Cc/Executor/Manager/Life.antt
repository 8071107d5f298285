-- ===== src/Cc/Executor/Manager/Life.antt =====
-- pkg/cc/executor.go: the life of an executor, over all the goroutines in which it is run.
use mathlib.Core.Path.{subst}
use cs.Prelude.{ℕ, Bool, ◌≡◌, refl, ◌∙◌}
use cs.Prelude.Lists.{length}
use cs.Prelude.Run.{ok}
use cs.Cc.Context.{completed}
use cs.Cc.Executor.{TxExecutor}
use cs.Cc.Executor.Moves.{Ready}
use cs.Cc.Executor.Manager.{Ending, sent_again, done, handle}
use cs.Cc.Executor.Manager.Loops.{handle-Ends}
use cs.Cc.Executor.Manager.Rounds.{Ended}

module _ {W V E : Type 0} (unrecoverable : E → Bool) where
  -- Any number of goroutines, each of which sends the executor again, with steps of the rest of the
  -- world between them, which keep `P`.
  pub data Life {ℓ} (P : ℕ → V → W → Type ℓ) (first : TxExecutor W V E) (w : W)
      : TxExecutor W V E → W → Type ℓ where
    received : Life P first w first w
    again :
        {a b : TxExecutor W V E} {u u' : W}
        → Life P first w a u
        → handle unrecoverable a u ≡ ok (u', b, sent_again)
        → Life P first w b u'
    elsewhere :
        {a : TxExecutor W V E} {u u' : W}
        → Life P first w a u
        → ((i : ℕ) (v : V) → P i v u → P i v u')
        → Life P first w a u'

  module _ {ℓ} (P : ℕ → V → W → Type ℓ) where
    -- The ending of a goroutine, from its result.
    ended :
        (exec : TxExecutor W V E) (w w' : W) (exec' : TxExecutor W V E) (ending : Ending)
        → Ready P exec w
        → handle unrecoverable exec w ≡ ok (w', exec', ending)
        → Ended P exec exec' w' ending
    ended exec w w' exec' ending r h =
        let (u, x, e, ran, end) = handle-Ends P unrecoverable exec w r in
        let same_world : u ≡ w' = cc in
        let same_exec : x ≡ exec' = cc in
        let same_end : e ≡ ending = cc in
        subst (λ t. Ended P exec exec' w' t) same_end
          (subst (λ t. Ended P exec exec' t e) same_world
            (subst (λ t. Ended P exec t u e) same_exec end))

    Life-Ready :
        (first : TxExecutor W V E) (w : W) (exec : TxExecutor W V E) (u : W)
        → Ready P first w
        → Life P first w exec u
        → Ready P exec u × (length exec.stages ≡ length first.stages)
    Life-Ready first w _ _ r received = (r, refl)
    Life-Ready first w b u' r (again {a = a} {u = u} life h) =
        let (ready, e) = Life-Ready first w a u r life in
        let end = ended a u u' b sent_again ready h in (end.ready, end.stages_kept ∙ e)
    Life-Ready first w a u' r (elsewhere {u = u} life keeps) =
        let (ready, e) = Life-Ready first w a u r life in
        (
          record {
            holds = keeps a.exec_ctx.curr a.exec_ctx.input ready.holds;
            inside = ready.inside;
            forward = ready.forward;
            effects = ready.effects;
            saves = ready.saves;
          },
          e,
        )

    -- Whatever the number of goroutines that an executor goes through, with retries, forced
    -- completion and failed checkpoints, once one of them is done the status is completed, and the
    -- world is as after the success of every stage.
    pub done_completed :
        (first : TxExecutor W V E) (w : W) (exec : TxExecutor W V E) (u u' : W)
        (exec' : TxExecutor W V E)
        → Ready P first w
        → Life P first w exec u
        → handle unrecoverable exec u ≡ ok (u', exec', done)
        → (exec'.exec_ctx.status ≡ completed)
          × (exec'.exec_ctx.curr ≡ length first.stages)
          × P (length first.stages) exec'.exec_ctx.input u'
    done_completed first w exec u u' exec' r life h =
        let (ready, e) = Life-Ready first w exec u r life in
        let end = ended exec u u' exec' done ready h in
        let (finished, over) = end.all_done in
        let all : exec'.exec_ctx.curr ≡ length first.stages = over ∙ end.stages_kept ∙ e in
        (finished, all, subst (λ i. P i exec'.exec_ctx.input u') all end.ready.holds)
