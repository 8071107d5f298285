-- ===== src/Tests/Executor.antt =====
-- pkg/cc/executor.go at an executor with two stages, the first of which fails once.
use mathlib.Core.Path.{subst}
use mathlib.Core.Option.{some-injective}
use cs.Prelude.{
  ℕ, zero, suc, Bool, true, false, ◌≡◌, refl, ap, ◌∙◌, ◌≢◌, ◌⊎◌, inl, Option, none, some, List, [],
  ◌∷◌, ◌++◌, arith,
}
use cs.Prelude.Lists.{get_elem?}
use cs.Prelude.Run.{ok}
use cs.Cc.Context.{pending, committed, aborted, completed}
use cs.Cc.Executor.Stages.{TxExecutorStage, ExecError, err_tx_exec_aborted, StageFunc, CompleteFunc}
use cs.Cc.Executor.Stages
use cs.Cc.Executor.{TxExecutor, run, run_status, execute, after_execute, checkpoint, next, commit}
use cs.Cc.Executor.Moves.{Ready}
use cs.Cc.Executor.Manager.{
  sent_again, done, handle, normal_loop, checkpoint_or_retry, finish, retry,
}
use cs.Cc.Executor.Manager.Loops.{handle-Ends}
use cs.Cc.Executor.Manager.Rounds.{Ends}
use cs.Cc.Executor.Manager.Life.{Life, received, again, done_completed}
use cs.Cc.Executor.Manager.Once.{upto, Appends, Logs, Logged, start-Ready, each_stage_once}
use cs.Cc.Executor.Commit.{run-run}
use cs.Cc.Executor.Backoff.{exponential_backoff_retry, slept, backoff_overflows}

-- A log, and whether the next call fails.
abbrev World : Type 0
World = List ℕ × Bool

abbrev log : World → List ℕ
log w = w.0

abbrev Exec : Type 0
Exec = TxExecutor World ℕ Bool

abbrev Stage : Type 0
Stage = TxExecutorStage World ℕ Bool

abbrev write_log : ℕ → StageFunc World ℕ Bool
write_log i v (l, true) = ((l, false), v, v, some false)
write_log i v (l, false) = ((l ++ i ∷ [], false), v, v, none)

abbrev writes : ℕ → Stage
writes i = record {
  stage_func = some (write_log i);
  rollback_func = none;
  complete_func = none;
  output = 0;
  result = 0;
  err = none;
}

abbrev two_stages : Exec
two_stages = record {
  exec_ctx = record {
    exec_id = 1;
    ctrl_ctx = record {
      partition = 0;
      service = "users";
      attrs = [];
      dry_run = false;
      logger_id = "";
    };
    receivers = [];
    timestamps = [];
    input = 5;
    result = 0;
    status = pending;
    curr = 0;
    method = "POST";
    endpoint = "/add";
    recovered = false;
  };
  checkpointer = λ ctx w. (w, none);
  retry_time = 0;
  commit_stage = some (writes 0);
  stages = writes 0 ∷ writes 1 ∷ [];
}

write_log-Appends : (i v : ℕ) (w : World) → Appends log i w (write_log i v w).0 (write_log i v w).3
write_log-Appends i v (l, true) = refl
write_log-Appends i v (l, false) = refl

writes-Logs : (i : ℕ) (st : Stage) → writes i ≡ st → Logs log i st
writes-Logs i st same = record {
  executes = λ f e v w.
      subst (λ g. Appends log i w (g v w).0 (g v w).3)
        (some-injective (write_log i) f (ap (λ s. s.stage_func) same ∙ e))
        (write_log-Appends i v w);
  completes = λ f e v w. cc (ap (λ s. s.complete_func) same ∙ e);
}

two_stages-Logs : (i : ℕ) (st : Stage) → get_elem? two_stages.stages i ≡ some st → Logs log i st
two_stages-Logs zero st e = writes-Logs 0 st (some-injective (writes 0) st e)
two_stages-Logs (suc zero) st e = writes-Logs 1 st (some-injective (writes 1) st e)
two_stages-Logs (suc (suc i)) st e = cc e

two_stages-Ready : Ready (Logged log) two_stages ([], true)
two_stages-Ready =
    start-Ready log two_stages ([], true) two_stages-Logs (λ ctx x. refl) refl (λ e. cc e) refl

-- The executor after its first round, which fails.
abbrev failed_once : Exec
failed_once = record two_stages {
  retry_time = 1;
  stages =
      record (writes 0) { output = 5; result = 5; err = some (Stages.external false) }
      ∷ writes 1
      ∷ [];
}

first_round : handle (λ e. e) two_stages ([], true) ≡ ok (([], false), failed_once, sent_again)
unfolding handle normal_loop next execute checkpoint_or_retry retry Stages.execute
first_round = refl

-- What a stage keeps of a success.
abbrev succeeded : ℕ → Stage
succeeded i = record (writes i) { output = 5; result = 5 }

abbrev all_run : Exec
all_run = record two_stages {
  exec_ctx = record two_stages.exec_ctx { status = completed; curr = 2 };
  stages = succeeded 0 ∷ succeeded 1 ∷ [];
}

second_round : handle (λ e. e) failed_once ([], false) ≡ ok ((0 ∷ 1 ∷ [], false), all_run, done)
unfolding handle normal_loop next execute after_execute checkpoint_or_retry finish retry checkpoint
    Stages.execute
second_round = refl

retried : Life (λ e. e) (Logged log) two_stages ([], true) failed_once ([], false)
retried = again received first_round

each_stage_once_example : (0 ∷ 1 ∷ [] ≡ upto 2) × (completed ≡ completed)
each_stage_once_example =
    each_stage_once log (λ e. e) two_stages ([], true) failed_once ([], false) (0 ∷ 1 ∷ [], false)
      all_run two_stages-Logs (λ ctx x. refl) refl (λ e. cc e) refl retried second_round

handle-Ends_example : Ends (Logged log) two_stages (handle (λ e. e) two_stages ([], true))
handle-Ends_example = handle-Ends (Logged log) (λ e. e) two_stages ([], true) two_stages-Ready

done_completed_example :
    (completed ≡ completed) × (all_run.exec_ctx.curr ≡ 2) × (0 ∷ 1 ∷ [] ≡ upto 2)
done_completed_example =
    done_completed (λ e. e) (Logged log) two_stages ([], true) failed_once ([], false)
      (0 ∷ 1 ∷ [], false) all_run two_stages-Ready retried second_round

abbrev committed_exec : Exec
committed_exec = record two_stages {
  exec_ctx = record two_stages.exec_ctx { status = committed; result = 5 };
  commit_stage = some (succeeded 0);
}

run_once : run two_stages ([], false) ≡ ok ((0 ∷ [], false), committed_exec, (some 5, none))
unfolding run run_status commit Stages.execute
run_once = refl

abbrev no_error : Option (ExecError Bool)
no_error = none

run-run_example :
    ((no_error ≡ none)
      × (committed ≢ aborted)
      × (committed ≢ pending)
      × (some 5 ≡ some committed_exec.exec_ctx.result)
      × (run committed_exec ([], true) ≡ ok (([], true), committed_exec, (some 5, none))))
    ⊎ ((some committed_exec.exec_ctx.result ≡ none)
        × (no_error ≢ none)
        × (committed ≡ aborted)
        × (run committed_exec ([], true)
            ≡ ok (([], true), committed_exec, (none, some (err_tx_exec_aborted none)))))
run-run_example =
    run-run two_stages committed_exec ([], false) (0 ∷ [], false) ([], true) (some 5) none run_once

backoff_overflows_example : slept (exponential_backoff_retry (λ k. 0) 1500000000 45) ≡ 0
backoff_overflows_example =
    backoff_overflows (λ k. 0) 1500000000 45 (inl (omega arith, omega arith))
