-- ===== src/Cc/Instrumenter.antt =====
-- pkg/cc/instrumenter.go: the recorders that a handler calls before and after a request, and the one
-- that keeps the requests and the responses of each partition.
pub mod Traces
use cs.Prelude.{ℕ, Option, none, some, List, [], ◌∷◌, ◌++◌}
use cs.Prelude.Lists.{get_elem?, set, replicate}
use cs.Prelude.Run.{Run, ok, panic, blocked, ◌>>=◌, or_panic}
use cs.Cc.Partition.{gen_partitions}
use cs.Format.{Context, get_trace_context}
use cs.Database.LifeCycle.{get_result}

-- `TxRecorder`, with the state `S` that its calls change.
pub record TxRecorder (V S : Type 0) : Type 0 where
  pub visit_before : Context V → S → Run S
  pub visit_after : Context V → S → Run S

pub record TxInstrumenter (V S : Type 0) : Type 0 where
  pub recorders : List (TxRecorder V S)

module _ {V S : Type 0} where
  unfoldable pub new_tx_instrumenter : TxInstrumenter V S
  new_tx_instrumenter = record { recorders = [] }

  unfoldable pub recorder : TxInstrumenter V S → TxRecorder V S → TxInstrumenter V S
  recorder inst r = record inst { recorders = inst.recorders ++ r ∷ [] }

  unfoldable pub visit_all :
      (TxRecorder V S → Context V → S → Run S) → List (TxRecorder V S) → Context V → S → Run S
  visit_all visit [] ctx s = ok s
  visit_all visit (r ∷ rs) ctx s = visit r ctx s >>= visit_all visit rs ctx

  unfoldable pub visit_before : TxInstrumenter V S → Context V → S → Run S
  visit_before inst ctx s = visit_all (λ r. r.visit_before) inst.recorders ctx s

  unfoldable pub visit_after : TxInstrumenter V S → Context V → S → Run S
  visit_after inst ctx s = visit_all (λ r. r.visit_after) inst.recorders ctx s

pub record TraceRecorder (V : Type 0) : Type 0 where
  pub requests : List (List V)
  pub responses : List (List V)

module _ {V : Type 0} where
  unfoldable pub new_trace_recorder : ℕ → TraceRecorder V
  new_trace_recorder n =
      let partitions = gen_partitions n in
      record { requests = replicate partitions []; responses = replicate partitions [] }

  -- `rows[partition] = append(rows[partition], v)`
  unfoldable pub append_at : List (List V) → ℕ → V → Run (List (List V))
  append_at rows partition v = elim (get_elem? rows partition) [
    | none ↦ panic
    | some row ↦ ok (set rows partition (row ++ v ∷ []))
  ]

  unfoldable pub trace_before : Context V → TraceRecorder V → Run (TraceRecorder V)
  trace_before ctx r = elim ctx.exec_ctx [
    | none ↦ ok r
    | some exec_ctx ↦
        append_at r.requests exec_ctx.ctrl_ctx.partition exec_ctx.input >>= λ requests.
        ok (record r { requests = requests })
  ]

  unfoldable pub trace_after : Context V → TraceRecorder V → Run (TraceRecorder V)
  trace_after ctx r = elim ctx.stage_ctx [
    | none ↦ ok r
    | some stage_ctx ↦ elim (get_trace_context ctx) [
      | none ↦ ok r
      | some trace_ctx ↦ elim (get_result trace_ctx) [
        | none ↦ ok r
        | some result ↦ append_at r.responses stage_ctx.partition result >>= λ responses.
            ok (record r { responses = responses })
      ]
    ]
  ]

  unfoldable pub trace_recorder : TxRecorder V (TraceRecorder V)
  trace_recorder = record { visit_before = trace_before; visit_after = trace_after }

  unfoldable pub get_req : TraceRecorder V → ℕ → Run (List V)
  get_req r partition = or_panic (get_elem? r.requests partition)

  unfoldable pub get_resp : TraceRecorder V → ℕ → Run (List V)
  get_resp r partition = or_panic (get_elem? r.responses partition)
