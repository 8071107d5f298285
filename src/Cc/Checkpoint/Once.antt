-- ===== src/Cc/Checkpoint/Once.antt =====
-- pkg/cc/checkpoint.go with pkg/database/tx.go: a request that is repeated is not executed again.
use cs.Prelude.{String, Option, some, ◌≡◌, refl, sym, ap, ◌∙◌, inl, inr, [], ◌∷◌, ◌++◌, arith}
use cs.Prelude.Tests.{Key, nat_key, Option-cases, Sum-cases}
use cs.Prelude.Map.{lookup-insert}
use cs.Cc.Context.{TxStageContext}
use cs.Format.{Context, TraceContext, get_trace_context, set_trace_context}
use cs.Format
use cs.Database.LifeCycle.{
  err_tx_already_executed, err_before_hooks, Err, HookFunc, get_result, set_result,
  unmarshal_result, TxHookMap, Pool, CycleFunc, hooks_of, run_hooks, run_after_hooks, keep_result,
  then_after, in_tx, with_tx, then_end, start, finish_tx,
}
use cs.Database.LifeCycle.Ends.{Err-cases, start-in_tx}
use cs.Cc.Checkpoint.{
  no_rows, row, TxResults, Json, previous_result, after_scan, tx_dedup_before_hook, insert_result,
  tx_dedup_after_hook,
}

pub get_result-set_result :
    {V : Type 0} (tc : TraceContext V) (v : V) → get_result (set_result tc v) ≡ some v
unfolding get_result set_result Format.get Format.set
get_result-set_result tc v = ground (arith, lookup-insert 0 0 v tc.values)

run_hooks-single : {S E : Type 0} (hook : HookFunc S E) (s : S) → run_hooks (hook ∷ []) s ≡ hook s
unfolding run_hooks
run_hooks-single hook s = elim (Err-cases (hook s).1) [
  | inl e ↦ rw (e, run_hooks) refl
  | inr (x, xs, e) ↦ rw (e, run_hooks) refl
]

module _ {V D E : Type 0} (json : Json V E) (results : TxResults D E) where
  -- The before hook lets a request through only if there is no result for it, unchanged.
  before_passes :
      (ctx ctx' : Context V) (d d' : D) (st : TxStageContext)
      → ctx.stage_ctx ≡ some st
      → tx_dedup_before_hook json results (ctx, d) ≡ ((ctx', d'), [])
      → (results.select d st.partition st.service st.timestamp ≡ no_rows) × (ctx' ≡ ctx) × (d' ≡ d)
  unfolding tx_dedup_before_hook after_scan previous_result
  before_passes ctx ctx' d d' st e h = ground (arith, e, h)

  -- The after hook leaves the result of the transaction behind in the table.
  after_records :
      (ctx : Context V) (d : D) (tc : TraceContext V) (v : V) (st : TxStageContext)
      (s' : Context V × D)
      → ctx.stage_ctx ≡ some st
      → tx_dedup_after_hook json results (set_trace_context ctx (set_result tc v), d) ≡ (s', [])
      → (b : String) × (json.marshal v ≡ inr b)
        × (results.select s'.1 st.partition st.service st.timestamp ≡ row (results.jsonb b))
  unfolding tx_dedup_after_hook insert_result set_trace_context get_trace_context
  after_records ctx d tc v st s' e h = elim (Sum-cases (json.marshal v)) [
    | inl (bad, m) ↦ ground (arith, e, get_result-set_result tc v, m, h)
    | inr (b, m) ↦
        let ran = results.insert d st.partition st.service st.timestamp b in
        let inserted : insert_result json results (set_trace_context ctx (set_result tc v)) d st v
            ≡ (s', []) =
          ground (arith, e, get_result-set_result tc v, m, h) in
        let kept : ran ≡ (s'.1, []) = ground (arith, inserted, m) in
        (b, m, results.select_insert d s'.1 st.partition st.service st.timestamp b kept)
  ]

  module _ {A R : Type 0} ⦃k : Key A⦄ (pool : Pool D E) (new_result : R → V) (zero : R)
      (table : TxHookMap A V D E) (api : A) where
    -- The API has the two hooks, and no others.
    pub record Deduped : Type 0 where
      pub no_start : hooks_of api table.start_hooks ≡ []
      pub no_end : hooks_of api table.end_hooks ≡ []
      pub before : hooks_of api table.before_hooks ≡ tx_dedup_before_hook json results ∷ []
      pub after : hooks_of api table.after_hooks ≡ tx_dedup_after_hook json results ∷ []

    -- The table has the result of a request.
    abbrev pub Recorded : TxStageContext → D → R → Type 0
    Recorded st d r =
        (b : String) × (json.marshal (new_result r) ≡ inr b)
        × (results.select d st.partition st.service st.timestamp ≡ row (results.jsonb b))

    after_hook_records :
        (ctx worked : Context V) (w d : D) (tc : TraceContext V) (r r' : R) (err : Err E)
        (st : TxStageContext)
        → Deduped
        → ctx.stage_ctx ≡ some st
        → then_after pool new_result zero table api
            ((set_trace_context ctx (set_result tc (new_result r')), w), r', err)
          ≡ ((worked, d), r, [])
        → Recorded st d r
    unfolding then_after run_after_hooks
    after_hook_records ctx worked w d tc r r' (e ∷ es) st dedup same h = ground (arith, h)
    after_hook_records ctx worked w d tc r r' [] st dedup same h =
        let hooked =
          tx_dedup_after_hook json results
            (set_trace_context ctx (set_result tc (new_result r')), w) in
        elim (Err-cases hooked.1) [
          | inl fine ↦
              let state : hooked.0 ≡ (worked, d) = ground (arith, h, dedup.after, fine) in
              let result : r' ≡ r = ground (arith, h, dedup.after, fine) in
              let (b, m, found) =
                after_records ctx w tc (new_result r') st hooked.0 same
                  (ap (λ e. (hooked.0, e)) fine) in
              (
                b,
                ap (λ x. json.marshal (new_result x)) (sym result) ∙ m,
                ap (λ s. results.select s.1 st.partition st.service st.timestamp) (sym state)
                    ∙ found,
              )
          | inr (e, es, bad) ↦ ground (arith, h, dedup.after, bad)
        ]

    -- A transaction that returns no error has put its result into the table.
    in_tx_records :
        (cycle_func : CycleFunc pool new_result zero table api) (ctx worked : Context V) (d d' : D)
        (r : R) (st : TxStageContext)
        → Deduped
        → ctx.stage_ctx ≡ some st
        → ((s : Context V × D) → (cycle_func s).0.0.stage_ctx ≡ s.0.stage_ctx)
        → in_tx pool new_result zero table api cycle_func (ctx, d) ≡ ((worked, d'), r, [])
        → Recorded st d' r
    unfolding in_tx keep_result then_after
    in_tx_records cycle_func ctx worked d d' r st dedup same keeps h =
        let hooked = tx_dedup_before_hook json results (ctx, d) in
        let hooks : run_hooks (hooks_of api table.before_hooks) (ctx, d) ≡ hooked =
          ap (λ hs. run_hooks hs (ctx, d)) dedup.before
          ∙ run_hooks-single (tx_dedup_before_hook json results) (ctx, d) in
        let ran = cycle_func hooked.0 in
        elim (Err-cases hooked.1) [
          | inr (e, es, bad) ↦ absurd (ground (arith, h, hooks, bad))
          | inl fine ↦
              let (_, kept, _) =
                before_passes ctx hooked.0.0 d hooked.0.1 st same (ap (λ e. (hooked.0, e)) fine) in
              let stage = keeps hooked.0 ∙ ap (λ c. c.stage_ctx) kept ∙ same in
              elim (Option-cases (get_trace_context ran.0.0)) [
                | inl missing ↦ absurd (ground (arith, h, hooks, fine, missing))
                | inr (tc, there) ↦
                    after_hook_records ran.0.0 worked ran.0.1 d' tc r ran.1 ran.2 st dedup stage
                      (ground (arith, h, hooks, fine, there))
              ]
        ]

    -- A request whose result is in the table gets it, and is not executed.
    replay :
        (other_func : CycleFunc pool new_result zero table api) (ctx : Context V) (d : D)
        (st : TxStageContext) (tc : TraceContext V) (b : String) (v : V)
        → Deduped
        → ctx.stage_ctx ≡ some st
        → ctx.trace_ctx ≡ some tc
        → pool.begin d ≡ []
        → results.select d st.partition st.service st.timestamp ≡ row b
        → json.unmarshal (some b) ≡ inr v
        → start pool new_result zero table api other_func ctx d ≡ (
          set_trace_context ctx (set_result tc v),
          d,
          zero,
          pool.roll_back d ++ err_before_hooks ∷ err_tx_already_executed ∷ [],
        )
    unfolding start then_end with_tx in_tx finish_tx run_hooks tx_dedup_before_hook after_scan
        previous_result get_trace_context
    replay other_func ctx d st tc b v dedup stage trace begun found decoded =
        ground
          (arith, stage, trace, begun, found, decoded, dedup.no_start, dedup.no_end, dedup.before)

    -- Let an API have the two hooks and no others, and let the JSON of a result, as the table
    -- gives it back, be decoded to that result. Let `Start` return no error for a request, with a function that keeps the stage
    -- context. Then for every later call with the same stage context, when the table still has
    -- the row of its key, `Start` does not run the function and leaves the database as it was, its
    -- error is that the transaction has been executed, and the trace context has a result that
    -- decodes to the one that the first call returned.
    pub executed_once :
        (decode : V → Option R) (first_func other_func : CycleFunc pool new_result zero table api)
        (ctx later : Context V) (d d_later : D) (st : TxStageContext) (tc : TraceContext V)
        → Deduped
        → ((r : R) (b : String)
            → json.marshal (new_result r) ≡ inr b
            → (v : V) × (json.unmarshal (some (results.jsonb b)) ≡ inr v) × (decode v ≡ some r))
        → ctx.stage_ctx ≡ some st
        → ((s : Context V × D) → (first_func s).0.0.stage_ctx ≡ s.0.stage_ctx)
        → (start pool new_result zero table api first_func ctx d).3 ≡ []
        → later.stage_ctx ≡ some st
        → later.trace_ctx ≡ some tc
        → pool.begin d_later ≡ []
        → results.select d_later st.partition st.service st.timestamp
          ≡ results.select
              (start pool new_result zero table api first_func ctx d).1
              st.partition
              st.service
              st.timestamp
        → (tc' : TraceContext V) × (start pool new_result zero table api other_func later d_later
            ≡ (
              set_trace_context later tc',
              d_later,
              zero,
              pool.roll_back d_later ++ err_before_hooks ∷ err_tx_already_executed ∷ [],
            ))
          × (unmarshal_result decode tc'
              ≡ some (start pool new_result zero table api first_func ctx d).2)
    unfolding unmarshal_result run_hooks
    executed_once decode first_func other_func ctx later d d_later st tc dedup round stage keeps
          fine later_stage later_trace begun still =
        elim (start-in_tx pool new_result zero table api first_func ctx d) [
          | inl (_, bad) ↦ absurd (bad fine)
          | inr (started, worked, hooks, _, ran, _, _) ↦
              let same : started ≡ ctx =
                sym (ap (λ s. s.0) (sym (ap (λ hs. run_hooks hs ctx) dedup.no_start) ∙ hooks)) in
              let (b, m, found) =
                in_tx_records first_func started worked d _ _ st dedup
                  (ap (λ c. c.stage_ctx) same ∙ stage) keeps ran in
              let (v, decoded, back) = round _ b m in
              (
                set_result tc v,
                replay other_func later d_later st tc (results.jsonb b) v dedup later_stage
                    later_trace begun (still ∙ found) decoded,
                ground (arith, get_result-set_result tc v, back),
              )
        ]
