-- ===== src/Database/LifeCycle/Ends.antt =====
-- pkg/database/tx.go, Start: how it ends, by what the part between Begin and Commit returns.
use cs.Prelude.{◌≡◌, refl, ap, ◌∙◌, ◌≢◌, ◌⊎◌, inl, inr, [], ◌∷◌, ◌++◌}
use mathlib.Core.List.{append-nil}
use cs.Prelude.Tests.{Key}
use cs.Format.{Context}
use cs.Database.LifeCycle.{
  TxError, Err, err_end_hooks, TxHookMap, hooks_of, Pool, run_hooks, finish_tx, CycleFunc, in_tx,
  with_tx, then_end, start,
}

pub Err-cases :
    {E : Type 0} (err : Err E) → (err ≡ []) ⊎ ((e : TxError E) × (es : Err E) × (err ≡ e ∷ es))
Err-cases [] = inl refl
Err-cases (e ∷ es) = inr (e, es, refl)

pub append_not_nil :
    {E : Type 0} (before : Err E) (e : TxError E) (es : Err E) → before ++ e ∷ es ≢ []
append_not_nil [] e es h = cc
append_not_nil (x ∷ xs) e es h = cc

module _ {A V D E R : Type 0} ⦃k : Key A⦄ (pool : Pool D E) (new_result : R → V) (zero : R)
    (table : TxHookMap A V D E) (api : A) where
  -- The start hooks returned no error, nor did Begin, the part between Begin and Commit, and Commit;
  -- the state of the transaction is now the database's. The error is nil, or that of an end hook.
  abbrev pub CommittedTx :
      CycleFunc pool new_result zero table api → Context V → D → D → R → Err E → Type 0
  CommittedTx cycle_func ctx d d' r err =
      (started worked : Context V) × (run_hooks (hooks_of api table.start_hooks) ctx
        ≡ (started, []))
      × (pool.begin d ≡ [])
      × (in_tx pool new_result zero table api cycle_func (started, d) ≡ ((worked, d'), r, []))
      × (pool.commit d d' ≡ [])
      × ((err ≡ []) × ((run_hooks (hooks_of api table.end_hooks) worked).1 ≡ [])
          ⊎ ((e : TxError E) × (es : Err E) × ((run_hooks (hooks_of api table.end_hooks) worked).1
                ≡ e ∷ es)
              × (err ≡ err_end_hooks ∷ e ∷ es)))

  finish_tx_lem :
      (d work : D) (err : Err E)
      → (((finish_tx pool d work err).0 ≡ d) × ((finish_tx pool d work err).1 ≢ []))
        ⊎ ((err ≡ []) × (pool.commit d work ≡ []) × (finish_tx pool d work err ≡ (work, [])))
  unfolding finish_tx
  finish_tx_lem d work (e ∷ es) = inl (refl, append_not_nil (pool.roll_back d) e es)
  finish_tx_lem d work [] = elim (Err-cases (pool.commit d work)) [
    | inl fine ↦ inr (refl, fine, rw (fine, finish_tx) refl)
    | inr (e, es, bad) ↦ inl (rw (bad, finish_tx) (refl, λ h. cc h))
  ]

  -- What `with_tx` does, from its result.
  abbrev TxOut :
      CycleFunc pool new_result zero table api → Context V → D → Context V × D × R × Err E → Type 0
  TxOut cycle_func ctx d (worked, d', r, err) =
      ((d' ≡ d) × (err ≢ []))
      ⊎ ((pool.begin d ≡ [])
          × (in_tx pool new_result zero table api cycle_func (ctx, d) ≡ ((worked, d'), r, []))
          × (pool.commit d d' ≡ [])
          × (err ≡ []))

  with_tx_lem :
      (cycle_func : CycleFunc pool new_result zero table api) (ctx : Context V) (d : D)
      → TxOut cycle_func ctx d (with_tx pool new_result zero table api cycle_func ctx d)
  unfolding with_tx
  with_tx_lem cycle_func ctx d = elim (Err-cases (pool.begin d)) [
    | inr (e, es, bad) ↦ rw (bad, with_tx) (inl (refl, λ h. cc h))
    | inl fine ↦
        let ran = in_tx pool new_result zero table api cycle_func (ctx, d) in
        elim (finish_tx_lem d ran.0.1 ran.2) [
          | inl (same, bad) ↦ rw (fine, with_tx) (inl (same, bad))
          | inr (good, committed, ended) ↦
              rw (fine, with_tx)
                (rw ended
                  (inr (refl, ap (λ err. ((ran.0.0, ran.0.1), ran.1, err)) good, committed, refl)))
        ]
  ]

  pub start-in_tx :
      (cycle_func : CycleFunc pool new_result zero table api) (ctx : Context V) (d : D)
      → let result = start pool new_result zero table api cycle_func ctx d in
        ((result.1 ≡ d) × (result.3 ≢ [])) ⊎ CommittedTx cycle_func ctx d result.1 result.2 result.3
  unfolding start then_end
  start-in_tx cycle_func ctx d =
      let started = run_hooks (hooks_of api table.start_hooks) ctx in
      elim (Err-cases started.1) [
        | inr (e, es, bad) ↦ rw (bad, start) (inl (refl, λ h. cc h))
        | inl fine ↦
            let ran = with_tx pool new_result zero table api cycle_func started.0 d in
            let ended = run_hooks (hooks_of api table.end_hooks) ran.0 in
            elim (Err-cases ended.1) [
              | inl quiet ↦ elim (with_tx_lem cycle_func started.0 d) [
                | inl (same, bad) ↦ rw (fine, start) (rw (quiet, then_end) (inl (same, bad)))
                | inr (begun, worked, committed, good) ↦
                    rw (fine, start)
                      (rw (quiet, then_end)
                        (inr (started.0, ran.0, refl, begun, worked, committed, inl (good, quiet))))
              ]
              | inr (e, es, bad) ↦ elim (with_tx_lem cycle_func started.0 d) [
                | inl (same, _) ↦ rw (fine, start) (rw (bad, then_end) (inl (same, λ h. cc h)))
                | inr (begun, worked, committed, good) ↦
                    let all : (err_end_hooks ∷ e ∷ es) ++ ran.3 ≡ err_end_hooks ∷ e ∷ es =
                      ap (λ err. (err_end_hooks ∷ e ∷ es) ++ err) good
                      ∙ append-nil (err_end_hooks ∷ e ∷ es) in
                    rw (fine, start)
                      (rw (bad, then_end)
                        (inr (
                          started.0,
                          ran.0,
                          refl,
                          begun,
                          worked,
                          committed,
                          inr (e, es, bad, all),
                        )))
              ]
            ]
      ]
