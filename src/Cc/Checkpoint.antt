-- ===== src/Cc/Checkpoint.antt =====
-- pkg/cc/checkpoint.go: the hooks that keep the result of a request under its timestamp, so that a
-- repeated request gets the result and has no effect.
pub mod Once
pub mod Executors
use cs.Prelude.{ℕ, String, Bool, true, false, Option, none, some, ◌≡◌, ◌⊎◌, inl, inr, List, [], ◌∷◌}
use cs.Prelude.Tests.{if◌then◌else◌}
use cs.Cc.Context.{TxStageContext}
use cs.Format.{Context, TraceContext, get_trace_context, set_trace_context}
use cs.Database.LifeCycle.{
  TxError, err_tx_dry_run, err_no_trace_ctx, err_tx_already_executed, err_no_tx_result, external,
  Err, HookFunc, get_result, set_result,
}

-- What `row.Scan(&b)` gives: `pgx.ErrNoRows`, another error (and `b` stays nil), or the bytes.
pub data Scan (E : Type 0) : Type 0 where
  no_rows : Scan E
  failed : E → Scan E
  row : String → Scan E

-- The table TxResult as the transaction sees it, whose state is `D`. A row that has been inserted
-- is selected by its key. The column of the contents is JSONB: it keeps the JSON value of the bytes
-- that are written, and gives back bytes of its own for it, `jsonb`.
pub record TxResults (D E : Type 0) : Type 0 where
  pub select : D → ℕ → String → ℕ → Scan E
  pub insert : D → ℕ → String → ℕ → String → D × Err E
  pub jsonb : String → String
  pub select_insert :
      (d d' : D) (partition : ℕ) (service : String) (timestamp : ℕ) (b : String)
      → insert d partition service timestamp b ≡ (d', [])
      → select d' partition service timestamp ≡ row (jsonb b)

-- encoding/json on values of the type `any`. Nil bytes are `none`.
pub record Json (V E : Type 0) : Type 0 where
  pub marshal : V → E ⊎ String
  pub unmarshal : Option String → E ⊎ V

module _ {V D E : Type 0} (json : Json V E) (results : TxResults D E) where
  unfoldable pub previous_result : Context V → D → Option String → (Context V × D) × Err E
  previous_result ctx d b = elim (json.unmarshal b) [
    | inl e ↦ ((ctx, d), external e ∷ [])
    | inr tx_result ↦ elim (get_trace_context ctx) [
      | none ↦ ((ctx, d), err_no_trace_ctx ∷ [])
      | some trace_ctx ↦ (
        (set_trace_context ctx (set_result trace_ctx tx_result), d),
        err_tx_already_executed ∷ [],
      )
    ]
  ]

  unfoldable pub after_scan : Context V → D → TxStageContext → Scan E → (Context V × D) × Err E
  after_scan ctx d stage_ctx no_rows =
      ((ctx, d), if stage_ctx.dry_run then err_tx_dry_run ∷ [] else [])
  after_scan ctx d stage_ctx (failed e) = previous_result ctx d none
  after_scan ctx d stage_ctx (row b) = previous_result ctx d (some b)

  unfoldable pub tx_dedup_before_hook : HookFunc (Context V × D) E
  tx_dedup_before_hook (ctx, d) = elim ctx.stage_ctx [
    | none ↦ ((ctx, d), [])
    | some stage_ctx ↦
        after_scan ctx d stage_ctx
          (results.select d stage_ctx.partition stage_ctx.service stage_ctx.timestamp)
  ]

  unfoldable pub insert_result : Context V → D → TxStageContext → V → (Context V × D) × Err E
  insert_result ctx d stage_ctx tx_result = elim (json.marshal tx_result) [
    | inl e ↦ ((ctx, d), external e ∷ [])
    | inr b ↦
        let (d', err) =
          results.insert d stage_ctx.partition stage_ctx.service stage_ctx.timestamp b in
        ((ctx, d'), err)
  ]

  unfoldable pub tx_dedup_after_hook : HookFunc (Context V × D) E
  tx_dedup_after_hook (ctx, d) = elim ctx.stage_ctx [
    | none ↦ ((ctx, d), [])
    | some stage_ctx ↦ elim (get_trace_context ctx) [
      | none ↦ ((ctx, d), err_no_trace_ctx ∷ [])
      | some trace_ctx ↦ elim (get_result trace_ctx) [
        | none ↦ ((ctx, d), err_no_tx_result ∷ [])
        | some tx_result ↦ insert_result ctx d stage_ctx tx_result
      ]
    ]
  ]
