-- ===== src/Database/Sql/Pairs.antt =====
-- pkg/database/user.go, event.go: an operation that puts one pair of ids into, or takes it out of,
-- the relation that a column of ids stands for, as a whole transaction.
use cs.Prelude.{Bool, ◌≡◌, ◌≢◌, sym, ap, ◌∙◌, ◌⊎◌, inl, inr, List, [], ℤ}
use cs.Prelude.Map.{Map}
use cs.Prelude.Tests.{Key}
use cs.Format.{Context}
use cs.Database.LifeCycle.{Err, TxHookMap, Pool, start}
use cs.Database.Sql.{Table, on_table}
use cs.Database.Sql.Column.{holds, with_pair}
use cs.Database.Sql.Committed.{HooksLeaveRows, start-on_table}

module _ {D T E : Type 0} (table : Table D T) (column : T → List ℤ) where
  -- The database as it was and an error, or in the relation of keys to ids only the pair of the key
  -- and the id put to `value`.
  abbrev pub PutsPair : ℤ → ℤ → Bool → D → D → Err E → Type 0
  PutsPair key id value d d' err =
      ((d' ≡ d) × (err ≢ []))
      ⊎ ((k x : ℤ)
          → holds column (table.rows d') k x
            ≡ with_pair (holds column (table.rows d)) key id value k x)

module _ {A V D T E R : Type 0} ⦃k : Key A⦄ (pool : Pool D E) (new_result : R → V) (zero : R)
    (hooks : TxHookMap A V D E) (api : A) (table : Table D T) (column : T → List ℤ) where
  pub start-PutsPair :
      (body : Map ℤ T → Map ℤ T × R × Err E) (key id : ℤ) (value : Bool)
      → ((m : Map ℤ T) (k x : ℤ)
          → (body m).2 ≡ []
          → holds column (body m).0 k x ≡ with_pair (holds column m) key id value k x)
      → (ctx : Context V) (d : D) → HooksLeaveRows hooks api table
      → let result = start pool new_result zero hooks api (on_table table body) ctx d in
        PutsPair table column key id value d result.1 result.3
  start-PutsPair body key id value puts ctx d leaves =
      elim (start-on_table pool new_result zero hooks api table body ctx d leaves) [
        | inl unchanged ↦ inl unchanged
        | inr (rows, _, fine) ↦
            inr (λ k x. ap (λ m. holds column m k x) (sym rows) ∙ puts (table.rows d) k x fine)
      ]
