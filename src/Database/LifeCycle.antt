-- ===== src/Database/LifeCycle.antt =====
-- pkg/database/tx.go: the hooks of a transaction, and the order in which `Start` runs them around
-- the transaction's own function.
pub mod Hooks
pub mod Ends
pub mod Atomic
use cs.Prelude.{ℕ, Option, none, some, List, [], ◌∷◌, ◌++◌}
use cs.Prelude.Tests.{Key, nat_key}
use cs.Prelude.Map.{Map, lookup, insert}
use cs.Prelude.Run.{Run, ok, panic}
use cs.Format.{Context, TraceContext, get_trace_context, set_trace_context}
use cs.Format

-- The errors of this file and of pkg/cc/checkpoint.go, and those of the database.
pub data TxError (E : Type 0) : Type 0 where
  err_no_tx_result err_tx_already_executed err_tx_dry_run err_no_trace_ctx : TxError E
  err_start_hooks err_before_hooks err_after_hooks err_end_hooks : TxError E
  external : E → TxError E

-- An error as the list of the errors that `errors.Join` put together; nil is the empty list.
abbrev pub Err : Type 0 → Type 0
Err E = List (TxError E)

abbrev pub key_tx_result : ℕ
key_tx_result = 0

module _ {V : Type 0} where
  unfoldable pub get_result : TraceContext V → Option V
  get_result trace_ctx = Format.get trace_ctx key_tx_result

  unfoldable pub set_result : TraceContext V → V → TraceContext V
  set_result trace_ctx value = Format.set trace_ctx key_tx_result value

-- `mapstructure.Decode` into a `Result[R]` is `decode`.
unfoldable pub unmarshal_result : {V R : Type 0} → (V → Option R) → TraceContext V → Option R
unmarshal_result decode trace_ctx = elim (get_result trace_ctx) [ none ↦ none | some v ↦ decode v ]

-- An error makes it panic, and the code below the panic is not reached.
unfoldable pub unwrap_result : {R E : Type 0} → R × Err E → Run (R × Err E)
unwrap_result (r, []) = ok (r, [])
unwrap_result (r, e ∷ es) = panic

-- `HookFunc` for `S` a context, and `TxHookFunc` for `S` a context and the state that the
-- transaction sees.
abbrev pub HookFunc : Type 0 → Type 0 → Type 0
HookFunc S E = S → S × Err E

pub record TxHookMap (A V D E : Type 0) : Type 0 where
  pub start_hooks : Map A (List (HookFunc (Context V) E))
  pub end_hooks : Map A (List (HookFunc (Context V) E))
  pub before_hooks : Map A (List (HookFunc (Context V × D) E))
  pub after_hooks : Map A (List (HookFunc (Context V × D) E))

-- A map of slices reads as an empty slice where a key is missing.
unfoldable pub hooks_of : {A H : Type 0} ⦃k : Key A⦄ → A → Map A (List H) → List H
hooks_of api m = elim (lookup api m) [ none ↦ [] | some hooks ↦ hooks ]

unfoldable pub append_hook : {A H : Type 0} ⦃k : Key A⦄ → A → H → Map A (List H) → Map A (List H)
append_hook api hook m = insert api (hooks_of api m ++ hook ∷ []) m

module _ {A V D E : Type 0} ⦃k : Key A⦄ where
  unfoldable pub new_tx_hook_map : TxHookMap A V D E
  new_tx_hook_map = record { start_hooks = []; end_hooks = []; before_hooks = []; after_hooks = [] }

  unfoldable pub start_hook : TxHookMap A V D E → A → HookFunc (Context V) E → TxHookMap A V D E
  start_hook thm api hook = record thm { start_hooks = append_hook api hook thm.start_hooks }

  unfoldable pub end_hook : TxHookMap A V D E → A → HookFunc (Context V) E → TxHookMap A V D E
  end_hook thm api hook = record thm { end_hooks = append_hook api hook thm.end_hooks }

  unfoldable pub before_hook :
      TxHookMap A V D E → A → HookFunc (Context V × D) E → TxHookMap A V D E
  before_hook thm api hook = record thm { before_hooks = append_hook api hook thm.before_hooks }

  unfoldable pub after_hook : TxHookMap A V D E → A → HookFunc (Context V × D) E → TxHookMap A V D E
  after_hook thm api hook = record thm { after_hooks = append_hook api hook thm.after_hooks }

-- `pgxpool.Pool` and `pgx.Tx`: the errors of Begin, Commit and Rollback, from the state of the
-- database and, for Commit, the state that the transaction sees. A transaction whose Commit
-- succeeds makes its state the database's; one that does not leaves the database as it was.
pub record Pool (D E : Type 0) : Type 0 where
  pub begin : D → Err E
  pub commit : D → D → Err E
  pub roll_back : D → Err E

module _ {S E : Type 0} where
  -- `for _, hook := range … { if err = hook(…); err != nil { return … } }`
  unfoldable pub run_hooks : List (HookFunc S E) → S → S × Err E
  run_hooks [] s = (s, [])
  run_hooks (hook ∷ hooks) s =
      let (s', err) = hook s in elim err [ [] ↦ run_hooks hooks s' | e ∷ es ↦ (s', e ∷ es) ]

  -- The after hooks all run. `errors.Join(ErrLifeCycleAfterHooks, err)` keeps no cause.
  unfoldable pub run_after_hooks : List (HookFunc S E) → S → Err E → S × Err E
  run_after_hooks [] s err = (s, err)
  run_after_hooks (hook ∷ hooks) s err =
      let (s', hook_err) = hook s in
      run_after_hooks hooks s' (elim hook_err [ [] ↦ err | _ ∷ _ ↦ err_after_hooks ∷ err ])

-- The function that `BeginTx` returns: the database's state, and the error.
unfoldable pub finish_tx : {D E : Type 0} → Pool D E → D → D → Err E → D × Err E
finish_tx pool d work (e ∷ es) = (d, pool.roll_back d ++ e ∷ es)
finish_tx pool d work [] = elim (pool.commit d work) [ [] ↦ (work, []) | e ∷ es ↦ (d, e ∷ es) ]

module _ {A V D E R : Type 0} ⦃k : Key A⦄ (pool : Pool D E) (new_result : R → V) (zero : R)
    (table : TxHookMap A V D E) (api : A) where
  abbrev pub CycleFunc : Type 0
  CycleFunc = Context V × D → (Context V × D) × R × Err E

  -- After `cycleFunc`: the result is put into the trace context.
  unfoldable pub keep_result : (Context V × D) × R × Err E → (Context V × D) × R × Err E
  keep_result ((ctx, work), r, err) = elim (get_trace_context ctx) [
    | none ↦ ((ctx, work), r, err_no_trace_ctx ∷ [])
    | some trace_ctx ↦ ((set_trace_context ctx (set_result trace_ctx (new_result r)), work), r, err)
  ]

  -- The deferred function that runs the after hooks.
  unfoldable pub then_after : (Context V × D) × R × Err E → (Context V × D) × R × Err E
  then_after (s, r, e ∷ es) = (s, r, e ∷ es)
  then_after (s, r, []) =
      let (s', err) = run_after_hooks (hooks_of api table.after_hooks) s [] in (s', r, err)

  -- Between Begin and Commit.
  unfoldable pub in_tx : CycleFunc → Context V × D → (Context V × D) × R × Err E
  in_tx cycle_func s =
      let (s', err) = run_hooks (hooks_of api table.before_hooks) s in
      elim err [
        | e ∷ es ↦ (s', zero, err_before_hooks ∷ e ∷ es)
        | [] ↦ then_after (keep_result (cycle_func s'))
      ]

  unfoldable pub with_tx : CycleFunc → Context V → D → Context V × D × R × Err E
  with_tx cycle_func ctx d = elim (pool.begin d) [
    | e ∷ es ↦ (ctx, d, zero, e ∷ es)
    | [] ↦
        let ((ctx', work), r, err) = in_tx cycle_func (ctx, d) in
        let (d', err') = finish_tx pool d work err in (ctx', d', r, err')
  ]

  -- The deferred function that runs the end hooks.
  unfoldable pub then_end : Context V × D × R × Err E → Context V × D × R × Err E
  then_end (ctx, d, r, err) =
      let (ctx', hook_err) = run_hooks (hooks_of api table.end_hooks) ctx in
      elim hook_err [
        | [] ↦ (ctx', d, r, err)
        | e ∷ es ↦ (ctx', d, r, (err_end_hooks ∷ e ∷ es) ++ err)
      ]

  unfoldable pub start : CycleFunc → Context V → D → Context V × D × R × Err E
  start cycle_func ctx d =
      let (ctx', err) = run_hooks (hooks_of api table.start_hooks) ctx in
      elim err [
        | e ∷ es ↦ (ctx', d, zero, err_start_hooks ∷ e ∷ es)
        | [] ↦ then_end (with_tx cycle_func ctx' d)
      ]
