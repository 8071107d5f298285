-- ===== src/Format.antt =====
-- pkg/format/tx.go: the trace context, a map of values that a request's handlers share. A
-- `context.Context` is a record with a field for each key that the program puts into one.
use cs.Prelude.{ℕ, Option, some, []}
use cs.Prelude.Tests.{nat_key}
use cs.Prelude.Map.{Map, lookup, insert}
use cs.Cc.Context.{TxStageContext, TxControlContext, TxExecutorContext}

pub record TraceContext (V : Type 0) : Type 0 where
  pub values : Map ℕ V

-- The pointer of `trace_ctx` is shared by all contexts that descend from this one: a function that
-- writes to the trace context returns the context.
pub record Context (V : Type 0) : Type 0 where
  pub trace_ctx : Option (TraceContext V)
  pub stage_ctx : Option TxStageContext
  pub ctrl_ctx : Option TxControlContext
  pub exec_ctx : Option (TxExecutorContext V)

module _ {V : Type 0} where
  unfoldable pub new_trace_context : TraceContext V
  new_trace_context = record { values = [] }

  unfoldable pub get_trace_context : Context V → Option (TraceContext V)
  get_trace_context ctx = ctx.trace_ctx

  unfoldable pub set_trace_context : Context V → TraceContext V → Context V
  set_trace_context ctx trace_ctx = record ctx { trace_ctx = some trace_ctx }

  unfoldable pub insert_trace_context : Context V → Context V
  insert_trace_context ctx = record ctx { trace_ctx = some new_trace_context }

  unfoldable pub get : TraceContext V → ℕ → Option V
  get tc key = lookup key tc.values

  unfoldable pub set : TraceContext V → ℕ → V → TraceContext V
  set tc key value = record tc { values = insert key value tc.values }

  -- pkg/cc/context.go: the keys of the three contexts of a transaction.
  unfoldable pub get_tx_stage_ctx : Context V → Option TxStageContext
  get_tx_stage_ctx ctx = ctx.stage_ctx

  unfoldable pub set_tx_stage_ctx : Context V → TxStageContext → Context V
  set_tx_stage_ctx ctx stage_ctx = record ctx { stage_ctx = some stage_ctx }

  unfoldable pub get_tx_ctrl_ctx : Context V → Option TxControlContext
  get_tx_ctrl_ctx ctx = ctx.ctrl_ctx

  unfoldable pub set_tx_ctrl_ctx : Context V → TxControlContext → Context V
  set_tx_ctrl_ctx ctx ctrl_ctx = record ctx { ctrl_ctx = some ctrl_ctx }

  unfoldable pub get_tx_exec_ctx : Context V → Option (TxExecutorContext V)
  get_tx_exec_ctx ctx = ctx.exec_ctx

  unfoldable pub set_tx_exec_ctx : Context V → TxExecutorContext V → Context V
  set_tx_exec_ctx ctx exec_ctx = record ctx { exec_ctx = some exec_ctx }
