-- ===== src/Cc/Instrumenter/Traces.antt =====
-- pkg/cc/instrumenter.go: what the trace recorder keeps of a request.
use cs.Prelude.{ℕ, ◌≡◌, refl, sym, ap, ite, ℕ_discrete, arith, some, List, [], ◌∷◌, ◌++◌}
use cs.Prelude.Lists.{get_elem?, set, get_elem?-set_self, get_elem?-set_ne}
use cs.Prelude.Run.{ok, or_panic}
use cs.Cc.Context.{TxStageContext, TxExecutorContext}
use cs.Format.{Context, TraceContext, get_trace_context}
use cs.Database.LifeCycle.{get_result}
use cs.Cc.Instrumenter.{
  TraceRecorder, new_tx_instrumenter, recorder, trace_recorder, visit_all, visit_before,
  visit_after, append_at, trace_before, trace_after, get_req, get_resp,
}

module _ {V : Type 0} where
  append_at_lem :
      (rows : List (List V)) (p : ℕ) (v : V) (row : List V)
      → get_elem? rows p ≡ some row
      → (rows' : List (List V)) × (append_at rows p v ≡ ok rows')
        × ((q : ℕ)
            → get_elem? rows' q ≡ ite (ℕ_discrete q p) (some (row ++ v ∷ [])) (get_elem? rows q))
  unfolding append_at
  append_at_lem rows p v row there = (
    set rows p (row ++ v ∷ []),
    rw (there, append_at) refl,
    λ q. elim (ℕ_discrete q p) [
      | yes same ↦ ground (
        arith,
        get_elem?-set_self rows p (row ++ v ∷ []) row there,
        ap (get_elem? (set rows p (row ++ v ∷ []))) same,
      )
      | no differ ↦ ground (arith, get_elem?-set_ne rows p q (row ++ v ∷ []) (λ e. differ (sym e)))
    ],
  )

  -- An instrumenter with the trace recorder: visiting before a request with an executor context adds
  -- its input to the requests of its partition, and visiting after it, when there is a stage
  -- context and a result, adds the result to the responses of that one's partition. No other
  -- request or response changes.
  pub trace_recorder_lem :
      (r : TraceRecorder V) (ctx ctx' : Context V) (exec : TxExecutorContext V)
      (st : TxStageContext) (tc : TraceContext V) (result : V) (reqs resps : List V)
      → ctx.exec_ctx ≡ some exec
      → ctx'.stage_ctx ≡ some st
      → ctx'.trace_ctx ≡ some tc
      → get_result tc ≡ some result
      → get_req r exec.ctrl_ctx.partition ≡ ok reqs
      → get_resp r st.partition ≡ ok resps
      → (mid last : TraceRecorder V) × (visit_before
            (recorder new_tx_instrumenter trace_recorder)
            ctx
            r
          ≡ ok mid)
        × (visit_after (recorder new_tx_instrumenter trace_recorder) ctx' mid ≡ ok last)
        × ((q : ℕ)
            → get_req last q
              ≡ ite
                  (ℕ_discrete q exec.ctrl_ctx.partition)
                  (ok (reqs ++ exec.input ∷ []))
                  (get_req r q))
        × ((q : ℕ)
            → get_resp last q
              ≡ ite (ℕ_discrete q st.partition) (ok (resps ++ result ∷ [])) (get_resp r q))
  unfolding visit_before visit_after visit_all recorder new_tx_instrumenter trace_recorder
      trace_before trace_after get_req get_resp get_trace_context
  trace_recorder_lem r ctx ctx' exec st tc result reqs resps has_exec has_stage has_trace has_result
        in_reqs in_resps =
      let (rows, ran, reads) =
        append_at_lem r.requests exec.ctrl_ctx.partition exec.input reqs
          (found r.requests _ reqs in_reqs) in
      let (rows', ran', reads') =
        append_at_lem r.responses st.partition result resps (found r.responses _ resps in_resps) in
      (
        record r { requests = rows },
        record { requests = rows; responses = rows' },
        ground (arith, has_exec, ran),
        ground (arith, has_stage, has_trace, has_result, ran'),
        λ q. ground (arith, reads q),
        λ q. ground (arith, reads' q),
      )
    where
      found :
          (rows : List (List V)) (p : ℕ) (row : List V)
          → or_panic (get_elem? rows p) ≡ ok row
          → get_elem? rows p ≡ some row
      found rows p row h = ground (arith, h)
