-- ===== src/Tests/Checkpoint.antt =====
-- pkg/database/tx.go and pkg/cc/checkpoint.go, with one API and a table that is a list of rows.
use mathlib.Core.Path.{subst}
use cs.Prelude.{
  ap, sym, ℕ, String, false, Option, none, some, ◌≡◌, refl, ◌≢◌, ◌⊎◌, inl, inr, List, [], ◌∷◌,
  arith, ite, ℕ_discrete,
}
use cs.Prelude.Tests.{nat_key, string_discrete}
use cs.Prelude.Map.{lookup, insert}
use cs.Cc.Context.{TxStageContext}
use cs.Format.{Context, TraceContext, get_trace_context, set_trace_context}
use cs.Format
use cs.Database.LifeCycle.{
  external, err_before_hooks, err_tx_already_executed, HookFunc, TxHookMap, Pool, CycleFunc,
  hooks_of, run_hooks, run_after_hooks, keep_result, then_after, in_tx, with_tx, then_end, start,
  finish_tx, get_result, set_result, unmarshal_result,
}
use cs.Database.LifeCycle.Atomic.{Committed, start_atomic}
use cs.Cc.Checkpoint.{
  Scan, no_rows, row, TxResults, Json, tx_dedup_before_hook, tx_dedup_after_hook, after_scan,
  insert_result,
}
use cs.Cc.Checkpoint.Once.{Deduped, executed_once}

abbrev Rows : Type 0
Rows = List (ℕ × String × ℕ × String)

abbrev select_row : Rows → ℕ → String → ℕ → Scan String
select_row [] p s ts = no_rows
select_row ((q, t, u, b) ∷ rows) p s ts =
    let rest = select_row rows p s ts in
    ite (ℕ_discrete p q) (ite (string_discrete s t) (ite (ℕ_discrete ts u) (row b) rest) rest) rest

selects_first :
    (d : Rows) (p : ℕ) (s : String) (ts : ℕ) (b : String)
    → select_row ((p, s, ts, b) ∷ d) p s ts ≡ row b
selects_first d p s ts b = ground arith

abbrev rows : TxResults Rows String
rows = record {
  select = select_row;
  insert = λ d p s ts b. ((p, s, ts, b) ∷ d, []);
  jsonb = λ b. b;
  select_insert = λ d d' p s ts b ran.
      subst (λ rows. select_row rows p s ts ≡ row b) (ap (λ r. r.0) ran) (selects_first d p s ts b);
}

abbrev nil_or : Option String → String ⊎ String
nil_or none = inl "unexpected end of JSON input"
nil_or (some b) = inr b

abbrev json : Json String String
json = record { marshal = λ v. inr v; unmarshal = nil_or }

abbrev pool : Pool Rows String
pool = record { begin = λ d. []; commit = λ d work. []; roll_back = λ d. [] }

abbrev table : TxHookMap ℕ String Rows String
table = record {
  start_hooks = [];
  end_hooks = [];
  before_hooks = (4, tx_dedup_before_hook json rows ∷ []) ∷ [];
  after_hooks = (4, tx_dedup_after_hook json rows ∷ []) ∷ [];
}

table-Deduped : Deduped json rows pool (λ r. r) "" table 4
unfolding hooks_of lookup ℕ_discrete
table-Deduped = record { no_start = refl; no_end = refl; before = refl; after = refl }

abbrev stage : TxStageContext
stage = record { partition = 0; service = "users"; timestamp = 1; attrs = []; dry_run = false }

abbrev ctx : Context String
ctx = record {
  trace_ctx = some (record { values = [] });
  stage_ctx = some stage;
  ctrl_ctx = none;
  exec_ctx = none;
}

abbrev adds : CycleFunc pool (λ r. r) "" table 4
adds s = (s, "added", [])

abbrev fails : CycleFunc pool (λ r. r) "" table 4
fails s = (s, "", external "failed" ∷ [])

adds_returns : (start pool (λ r. r) "" table 4 adds ctx []).3 ≡ []
unfolding start then_end with_tx in_tx finish_tx run_hooks run_after_hooks then_after keep_result
    tx_dedup_before_hook tx_dedup_after_hook after_scan insert_result get_result set_result
    get_trace_context set_trace_context Format.get Format.set lookup insert hooks_of ℕ_discrete
adds_returns = refl

adds_inserts : (start pool (λ r. r) "" table 4 adds ctx []).1 ≡ (0, "users", 1, "added") ∷ []
unfolding start then_end with_tx in_tx finish_tx run_hooks run_after_hooks then_after keep_result
    tx_dedup_before_hook tx_dedup_after_hook after_scan insert_result get_result set_result
    get_trace_context set_trace_context Format.get Format.set lookup insert hooks_of ℕ_discrete
adds_inserts = refl

executed_once_example :
    (tc' : TraceContext String) × (start pool
        (λ r. r)
        ""
        table
        4
        fails
        ctx
        ((0, "users", 1, "added") ∷ [])
      ≡ (
        set_trace_context ctx tc',
        (0, "users", 1, "added") ∷ [],
        "",
        err_before_hooks ∷ err_tx_already_executed ∷ [],
      ))
    × (unmarshal_result some tc' ≡ some (start pool (λ r. r) "" table 4 adds ctx []).2)
executed_once_example =
    executed_once json rows pool (λ r. r) "" table 4 some adds fails ctx ctx []
      ((0, "users", 1, "added") ∷ []) stage (record { values = [] }) table-Deduped
      (λ r b m. (b, refl, cc)) refl (λ s. refl) adds_returns refl refl refl
      (ap (λ d. select_row d 0 "users" 1) (sym adds_inserts))

start_atomic_example :
    ((start pool (λ r. r) "" table 4 fails ctx []).1 ≡ [])
      × ((start pool (λ r. r) "" table 4 fails ctx []).3 ≢ [])
    ⊎ Committed pool
        (λ r. r)
        ""
        table
        4
        fails
        ctx
        []
        (start pool (λ r. r) "" table 4 fails ctx []).1
        (start pool (λ r. r) "" table 4 fails ctx []).2
        (start pool (λ r. r) "" table 4 fails ctx []).3
start_atomic_example = start_atomic pool (λ r. r) "" table 4 fails ctx []

abbrev nothing : HookFunc (Context String) String
nothing c = (c, [])

abbrev tx_nothing : HookFunc (Context String × Rows) String
tx_nothing s = (s, [])
