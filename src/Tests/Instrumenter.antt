-- ===== src/Tests/Instrumenter.antt =====
-- pkg/cc/instrumenter.go, with two partitions.
use cs.Prelude.{ℕ, false, ◌≡◌, refl, ℕ_discrete, none, some, [], ◌∷◌}
use cs.Prelude.Tests.{nat_key}
use cs.Prelude.Map.{lookup}
use cs.Cc.Context.{TxStageContext, TxExecutorContext, pending}
use cs.Format.{Context, TraceContext}
use cs.Format
use cs.Database.LifeCycle.{get_result}
use cs.Cc.Instrumenter.{TraceRecorder}

abbrev traces : TraceRecorder ℕ
traces = record { requests = (3 ∷ []) ∷ [] ∷ []; responses = [] ∷ (8 ∷ []) ∷ [] }

abbrev exec_ctx : TxExecutorContext ℕ
exec_ctx = record {
  exec_id = 4;
  ctrl_ctx = record {
    partition = 0;
    service = "users";
    attrs = [];
    dry_run = false;
    logger_id = "";
  };
  receivers = [];
  timestamps = [];
  input = 5;
  result = 0;
  status = pending;
  curr = 0;
  method = "POST";
  endpoint = "/add";
  recovered = false;
}

abbrev stage_ctx : TxStageContext
stage_ctx = record { partition = 1; service = "users"; timestamp = 1; attrs = []; dry_run = false }

abbrev trace_ctx : TraceContext ℕ
trace_ctx = record { values = (0, 9) ∷ [] }

abbrev sending : Context ℕ
sending = record { trace_ctx = none; stage_ctx = none; ctrl_ctx = none; exec_ctx = some exec_ctx }

abbrev receiving : Context ℕ
receiving = record {
  trace_ctx = some trace_ctx;
  stage_ctx = some stage_ctx;
  ctrl_ctx = none;
  exec_ctx = none;
}

has_result : get_result trace_ctx ≡ some 9
unfolding get_result Format.get lookup ℕ_discrete
has_result = refl
