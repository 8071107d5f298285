-- ===== src/Database/LifeCycle/Atomic.antt =====
-- pkg/database/tx.go, Start: the transaction is committed as a whole or not at all.
use cs.Prelude.{some, ◌≡◌, ap, sym, ◌∙◌, ◌≢◌, ◌⊎◌, inl, inr, List, [], ◌∷◌, arith}
use cs.Prelude.Tests.{Key, Option-cases}
use cs.Format.{Context, TraceContext, get_trace_context, set_trace_context}
use cs.Database.LifeCycle.{
  TxError, Err, err_after_hooks, err_end_hooks, set_result, HookFunc, TxHookMap, hooks_of, Pool,
  run_hooks, run_after_hooks, keep_result, then_after, CycleFunc, in_tx, start,
}
use cs.Database.LifeCycle.Ends.{Err-cases, start-in_tx}

-- Each of the hooks ran, in order, and none returned an error.
unfoldable pub AllRan : {S E : Type 0} → List (HookFunc S E) → S → S → Type 0
AllRan [] s s' = s ≡ s'
AllRan {S} (hook ∷ hooks) s s' = (mid : S) × (hook s ≡ (mid, [])) × AllRan hooks mid s'

module _ {S E : Type 0} where
  run_hooks-AllRan :
      (hooks : List (HookFunc S E)) (s s' : S) → run_hooks hooks s ≡ (s', []) → AllRan hooks s s'
  unfolding run_hooks AllRan
  run_hooks-AllRan [] s s' ran = ap (λ r. r.0) ran
  run_hooks-AllRan (hook ∷ hooks) s s' ran = elim (Err-cases (hook s).1) [
    | inl fine ↦ (
      (hook s).0,
      ap (λ e. ((hook s).0, e)) fine,
      run_hooks-AllRan hooks (hook s).0 s' (ground (arith, ran, fine)),
    )
    | inr (e, es, bad) ↦ absurd (ground (arith, ran, bad))
  ]

  run_after_hooks-AllRan :
      (hooks : List (HookFunc S E)) (s s' : S) (err : Err E)
      → run_after_hooks hooks s err ≡ (s', [])
      → (err ≡ []) × AllRan hooks s s'
  unfolding run_after_hooks AllRan
  run_after_hooks-AllRan [] s s' err ran = (ap (λ r. r.1) ran, ap (λ r. r.0) ran)
  run_after_hooks-AllRan (hook ∷ hooks) s s' err ran = elim (Err-cases (hook s).1) [
    | inl fine ↦
        let (none_before, rest) =
          run_after_hooks-AllRan hooks (hook s).0 s' err (ground (arith, ran, fine)) in
        (none_before, ((hook s).0, ap (λ e. ((hook s).0, e)) fine, rest))
    | inr (e, es, bad) ↦
        let kept : run_after_hooks hooks (hook s).0 (err_after_hooks ∷ err) ≡ (s', []) =
          ground (arith, ran, bad) in
        let joined = (run_after_hooks-AllRan hooks (hook s).0 s' (err_after_hooks ∷ err) kept).0 in
        absurd (ground (arith, joined))
  ]

module _ {A V D E R : Type 0} ⦃k : Key A⦄ (pool : Pool D E) (new_result : R → V) (zero : R)
    (table : TxHookMap A V D E) (api : A) where
  -- Between Begin and Commit: the before hooks, the function and the after hooks ran, none with an
  -- error, the result of the function being in the trace context when the after hooks started.
  abbrev pub Whole :
      CycleFunc pool new_result zero table api → Context V × D → Context V × D → R → Type 0
  Whole cycle_func s s' r =
      (begun did : Context V × D) × (trace_ctx : TraceContext V) × AllRan
        (hooks_of api table.before_hooks) s begun
      × (cycle_func begun ≡ (did, r, []))
      × (get_trace_context did.0 ≡ some trace_ctx)
      × AllRan (hooks_of api table.after_hooks)
          (set_trace_context did.0 (set_result trace_ctx (new_result r)), did.1) s'

  -- All of it ran without an error, from the start hooks to Commit, and the state of the transaction
  -- is now the database's; then the end hooks ran, and the error is that of one of them.
  abbrev pub Committed :
      CycleFunc pool new_result zero table api → Context V → D → D → R → Err E → Type 0
  Committed cycle_func ctx d d' r err =
      (started worked : Context V) × AllRan (hooks_of api table.start_hooks) ctx started
      × (pool.begin d ≡ [])
      × Whole cycle_func (started, d) (worked, d') r
      × (pool.commit d d' ≡ [])
      × ((err ≡ []) × ((ended : Context V) × AllRan (hooks_of api table.end_hooks) worked ended)
          ⊎ ((e : TxError E) × (es : Err E) × ((run_hooks (hooks_of api table.end_hooks) worked).1
                ≡ e ∷ es)
              × (err ≡ err_end_hooks ∷ e ∷ es)))

  in_tx-Whole :
      (cycle_func : CycleFunc pool new_result zero table api) (s s' : Context V × D) (r : R)
      → in_tx pool new_result zero table api cycle_func s ≡ (s', r, [])
      → Whole cycle_func s s' r
  unfolding in_tx keep_result then_after
  in_tx-Whole cycle_func s s' r ran =
      let hooked = run_hooks (hooks_of api table.before_hooks) s in
      let did = cycle_func hooked.0 in
      elim (Err-cases hooked.1) [
        | inr (e, es, bad) ↦ absurd (ground (arith, ran, bad))
        | inl fine ↦ elim (Option-cases (get_trace_context did.0.0)) [
          | inl missing ↦ absurd (ground (arith, ran, fine, missing))
          | inr (tc, there) ↦ elim (Err-cases did.2) [
            | inr (e, es, bad) ↦ absurd (ground (arith, ran, fine, there, bad))
            | inl good ↦
                let kept : R → Context V × D =
                  λ x. (set_trace_context did.0.0 (set_result tc (new_result x)), did.0.1) in
                let same : did.1 ≡ r = ground (arith, ran, fine, there, good) in
                let ended : run_after_hooks (hooks_of api table.after_hooks) (kept did.1) []
                    ≡ (s', []) =
                  ground (arith, ran, fine, there, good) in
                (
                  hooked.0,
                  did.0,
                  tc,
                  run_hooks-AllRan (hooks_of api table.before_hooks) s hooked.0
                      (ap (λ e. (hooked.0, e)) fine),
                  ground (arith, good, same),
                  there,
                  (run_after_hooks-AllRan (hooks_of api table.after_hooks) (kept r) s' [] (
                      ap (λ x. run_after_hooks (hooks_of api table.after_hooks) (kept x) [])
                        (sym same)
                      ∙ ended)).1,
                )
          ]
        ]
      ]

  -- However the hooks, the function and the database fail, one of two things has happened. Either
  -- the database is as before, and there is an error. Or every start hook, Begin, every before
  -- hook, the function, every after hook and Commit ran in this order, each from what the one before
  -- it left, and none returned an error; the after hooks had the result of the function in the trace
  -- context; the database has the state that the last after hook left; and there is no error, with
  -- every end hook having run without one, or the error is that of an end hook, which is reported
  -- although the transaction is committed.
  pub start_atomic :
      (cycle_func : CycleFunc pool new_result zero table api) (ctx : Context V) (d : D)
      → let result = start pool new_result zero table api cycle_func ctx d in
        ((result.1 ≡ d) × (result.3 ≢ [])) ⊎ Committed cycle_func ctx d result.1 result.2 result.3
  start_atomic cycle_func ctx d =
      elim (start-in_tx pool new_result zero table api cycle_func ctx d) [
        | inl unchanged ↦ inl unchanged
        | inr (started, worked, hooks, begun, ran, committed, ended) ↦ inr (
          started,
          worked,
          run_hooks-AllRan (hooks_of api table.start_hooks) ctx started hooks,
          begun,
          in_tx-Whole cycle_func (started, d) _ _ ran,
          committed,
          elim ended [
            | inl (good, quiet) ↦
                let last = run_hooks (hooks_of api table.end_hooks) worked in
                inl (
                  good,
                  (
                    last.0,
                    run_hooks-AllRan (hooks_of api table.end_hooks) worked last.0
                        (ap (λ e. (last.0, e)) quiet),
                  ),
                )
            | inr failed ↦ inr failed
          ],
        )
      ]
