-- ===== src/Database/Sql/Committed.antt =====
-- pkg/database/tx.go, Start, on a function that only sends statements on one table: what the table
-- has afterwards, from what the function does to it.
use cs.Prelude.{◌≡◌, refl, sym, ap, ◌∙◌, ◌≢◌, ◌⊎◌, inl, inr, List, [], ◌∷◌, ℤ, arith}
use cs.Prelude.Lists.{All}
use cs.Prelude.Map.{Map}
use cs.Prelude.Tests.{Key, Option-cases}
use cs.Format.{Context, get_trace_context, set_trace_context}
use cs.Database.LifeCycle.{
  Err, HookFunc, TxHookMap, hooks_of, Pool, run_hooks, run_after_hooks, keep_result, then_after,
  in_tx, set_result, start,
}
use cs.Database.LifeCycle.Ends.{start-in_tx, Err-cases}
use cs.Database.Sql.{Table, on_table}

module _ {V D T E : Type 0} (table : Table D T) where
  -- A hook that leaves the rows alone, as the dedup hooks do.
  abbrev pub LeavesRows : HookFunc (Context V × D) E → Type 0
  LeavesRows hook = (s : Context V × D) → table.rows (hook s).0.1 ≡ table.rows s.1

  run_hooks-rows :
      (hooks : List (HookFunc (Context V × D) E)) (s : Context V × D)
      → All LeavesRows hooks
      → table.rows (run_hooks hooks s).0.1 ≡ table.rows s.1
  unfolding run_hooks
  run_hooks-rows [] s h = refl
  run_hooks-rows (hook ∷ hooks) s (h, hs) = elim (Err-cases (hook s).1) [
    | inl fine ↦ rw (fine, run_hooks) (run_hooks-rows hooks (hook s).0 hs ∙ h s)
    | inr (e, es, bad) ↦ rw (bad, run_hooks) (h s)
  ]

  run_after_hooks-rows :
      (hooks : List (HookFunc (Context V × D) E)) (s : Context V × D) (err : Err E)
      → All LeavesRows hooks
      → table.rows (run_after_hooks hooks s err).0.1 ≡ table.rows s.1
  unfolding run_after_hooks
  run_after_hooks-rows [] s err h = refl
  run_after_hooks-rows (hook ∷ hooks) s err (h, hs) =
      run_after_hooks-rows hooks (hook s).0 _ hs ∙ h s

module _ {A V D T E : Type 0} ⦃k : Key A⦄ (hooks : TxHookMap A V D E) (api : A)
    (table : Table D T) where
  -- No before or after hook of the API changes the rows.
  pub record HooksLeaveRows : Type 0 where
    pub before : All (LeavesRows table) (hooks_of api hooks.before_hooks)
    pub after : All (LeavesRows table) (hooks_of api hooks.after_hooks)

-- The rows and the result are those that the function made of the rows before, without an error.
abbrev pub Done :
    {T R E : Type 0} → (Map ℤ T → Map ℤ T × R × Err E) → Map ℤ T → Map ℤ T → R → Type 0
Done body m m' r = ((body m).0 ≡ m') × ((body m).1 ≡ r) × ((body m).2 ≡ [])

module _ {A V D T E R : Type 0} ⦃k : Key A⦄ (pool : Pool D E) (new_result : R → V) (zero : R)
    (hooks : TxHookMap A V D E) (api : A) (table : Table D T) where
  -- What the life cycle leaves of the function: `m'`, `r` and no error only if it gave them.
  keep_result-on_table :
      (body : Map ℤ T → Map ℤ T × R × Err E) (s : Context V × D) (s' : Context V × D) (r : R)
      → All (LeavesRows table) (hooks_of api hooks.after_hooks)
      → then_after pool new_result zero hooks api
          (keep_result pool new_result zero hooks api (on_table table body s))
        ≡ (s', r, [])
      → ((body (table.rows s.1)).0 ≡ table.rows s'.1)
        × ((body (table.rows s.1)).1 ≡ r)
        × ((body (table.rows s.1)).2 ≡ [])
  unfolding then_after keep_result on_table get_trace_context
  keep_result-on_table body s s' r leaves h =
      let ran = body (table.rows s.1) in
      elim (Option-cases s.0.trace_ctx) [
        | inl none_there ↦ absurd (ground (arith, h, none_there))
        | inr (trace_ctx, there) ↦ elim (Err-cases ran.2) [
          | inr (e, es, bad) ↦ absurd (ground (arith, h, there, bad))
          | inl fine ↦
              let ctx = set_trace_context s.0 (set_result trace_ctx (new_result ran.1)) in
              let after =
                run_after_hooks (hooks_of api hooks.after_hooks) (ctx, table.with_rows s.1 ran.0)
                  [] in
              ground (
                arith,
                h,
                there,
                fine,
                run_after_hooks-rows table (hooks_of api hooks.after_hooks)
                    (ctx, table.with_rows s.1 ran.0) [] leaves,
                table.rows-with_rows s.1 ran.0,
              )
        ]
      ]

  in_tx-Done :
      (body : Map ℤ T → Map ℤ T × R × Err E) (s s' : Context V × D) (r : R)
      → HooksLeaveRows hooks api table
      → in_tx pool new_result zero hooks api (on_table table body) s ≡ (s', r, [])
      → Done body (table.rows s.1) (table.rows s'.1) r
  unfolding in_tx
  in_tx-Done body s s' r leaves h =
      let first = run_hooks (hooks_of api hooks.before_hooks) s in
      elim (Err-cases first.1) [
        | inr (e, es, bad) ↦ absurd (ground (arith, h, bad))
        | inl fine ↦
            let same = run_hooks-rows table (hooks_of api hooks.before_hooks) s leaves.before in
            let kept : then_after pool new_result zero hooks api
                  (keep_result pool new_result zero hooks api (on_table table body first.0))
                ≡ (s', r, []) =
              ground (arith, h, fine) in
            let (rows, result, good) = keep_result-on_table body first.0 s' r leaves.after kept in
            (
              ap (λ m. (body m).0) (sym same) ∙ rows,
              ap (λ m. (body m).1) (sym same) ∙ result,
              ap (λ m. (body m).2) (sym same) ∙ good,
            )
      ]

  -- Let no hook of the API change the rows of the table. Then `Start`, on a function that only sends
  -- statements on the table, either leaves the database as it was and returns an error, or the
  -- function succeeds on the rows that the table had, and the table and the result are what it made.
  pub start-on_table :
      (body : Map ℤ T → Map ℤ T × R × Err E) (ctx : Context V) (d : D)
      → HooksLeaveRows hooks api table
      → let result = start pool new_result zero hooks api (on_table table body) ctx d in
        ((result.1 ≡ d) × (result.3 ≢ [])) ⊎ Done body (table.rows d) (table.rows result.1) result.2
  start-on_table body ctx d leaves =
      elim (start-in_tx pool new_result zero hooks api (on_table table body) ctx d) [
        | inl unchanged ↦ inl unchanged
        | inr (started, worked, _, _, ran, _, _) ↦
            inr (in_tx-Done body (started, d) (worked, _) _ leaves ran)
      ]

  -- Without an error the statements have been done.
  pub start-Done :
      (body : Map ℤ T → Map ℤ T × R × Err E) (ctx : Context V) (d : D)
      → HooksLeaveRows hooks api table
      → (start pool new_result zero hooks api (on_table table body) ctx d).3 ≡ []
      → Done body
          (table.rows d)
          (table.rows (start pool new_result zero hooks api (on_table table body) ctx d).1)
          (start pool new_result zero hooks api (on_table table body) ctx d).2
  start-Done body ctx d leaves fine = elim (start-on_table body ctx d leaves) [
    | inl (_, bad) ↦ absurd (bad fine)
    | inr done ↦ done
  ]

  -- A property of the rows that the function keeps, and the life cycle with it.
  pub start-keeps :
      (P : Map ℤ T → Type 0) (body : Map ℤ T → Map ℤ T × R × Err E)
      → ((m : Map ℤ T) → P m → P (body m).0)
      → (ctx : Context V) (d : D) → HooksLeaveRows hooks api table
      → P (table.rows d)
      → P (table.rows (start pool new_result zero hooks api (on_table table body) ctx d).1)
  start-keeps P body keeps ctx d leaves h = elim (start-on_table body ctx d leaves) [
    | inl (same, _) ↦ rw same h
    | inr (rows, _, _) ↦ rw (← rows) (keeps (table.rows d) h)
  ]
