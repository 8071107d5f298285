-- ===== src/Database/Sql.antt =====
-- pkg/database/user.go, event.go, event_log.go: the statements on a table that the stores send to
-- PostgreSQL, and slices of ids. A table is a map from the primary key to the row; a statement whose
-- WHERE clause names the key reads, changes or deletes at most one row.
pub mod Ids
pub mod Lookups
pub mod Committed
pub mod Keeps
pub mod Column
pub mod Pairs
use cs.Prelude.{Bool, Option, none, some, ◌⊎◌, inl, inr, ite, [], ◌∷◌, ℤ, int_key, minus_one, ◌≡◌}
use cs.Prelude.Map.{Map, lookup, insert}
use cs.Format.{Context}
use cs.Database.LifeCycle.{TxError, external, Err}

-- The value that an operation with a result of type `any` returns.
pub data Nil : Type 0 where
  nil : Nil

pub data Statement : Type 0 where
  select insert_row update delete : Statement

-- PostgreSQL and pgx, for one table: `pgx.ErrNoRows`; the error of a statement, from the table
-- before it and the one that it would leave (a constraint, or the connection); the id that the
-- database generates for a new row, which no row of the table has.
pub record Sql (T E : Type 0) : Type 0 where
  pub no_rows : E
  pub fault : Statement → Map ℤ T → Map ℤ T → Option E
  pub generate : Map ℤ T → ℤ

-- The part of the database that a store works on, and the rest.
pub record Table (D T : Type 0) : Type 0 where
  pub rows : D → Map ℤ T
  pub with_rows : D → Map ℤ T → D
  pub rows-with_rows : (d : D) (t : Map ℤ T) → rows (with_rows d t) ≡ t

module _ {T : Type 0} where
  unfoldable pub update_row : ℤ → (T → T) → Map ℤ T → Map ℤ T
  update_row key f [] = []
  update_row key f ((k, row) ∷ m) =
      ite (int_key.dec key k) ((k, f row) ∷ m) ((k, row) ∷ update_row key f m)

  unfoldable pub delete_row : ℤ → Map ℤ T → Map ℤ T
  delete_row key [] = []
  delete_row key ((k, row) ∷ m) =
      let rest = delete_row key m in ite (int_key.dec key k) rest ((k, row) ∷ rest)

module _ {T E : Type 0} (sql : Sql T E) where
  -- `QueryRow(ctx, "SELECT … WHERE key = $1", key).Scan(…)`, where `read` takes the columns.
  unfoldable pub query_row : {B : Type 0} → ℤ → (T → B) → Map ℤ T → E ⊎ B
  query_row key read m = elim (sql.fault select m m) [
    | some e ↦ inl e
    | none ↦ elim (lookup key m) [ none ↦ inl sql.no_rows | some row ↦ inr (read row) ]
  ]

  -- `tx.Exec(ctx, …)` of a statement that takes the table `m` to `m'`.
  unfoldable pub exec : Statement → Map ℤ T → Map ℤ T → Map ℤ T × Nil × Err E
  exec statement m m' = elim (sql.fault statement m m') [
    | some e ↦ (m, nil, external e ∷ [])
    | none ↦ (m', nil, [])
  ]

  -- `INSERT … RETURNING id`, and -1 where it fails.
  unfoldable pub insert_returning : T → Map ℤ T → Map ℤ T × ℤ × Err E
  insert_returning row m =
      let id = sql.generate m in
      let m' = insert id row m in
      elim (sql.fault insert_row m m') [
        | some e ↦ (m, minus_one, external e ∷ [])
        | none ↦ (m', id, [])
      ]

-- A function of `tx` that only sends statements on one table.
unfoldable pub on_table :
    {V D T R E : Type 0}
    → Table D T
    → (Map ℤ T → Map ℤ T × R × Err E)
    → Context V × D
    → (Context V × D) × R × Err E
on_table table body (ctx, d) =
    let (m, r, err) = body (table.rows d) in ((ctx, table.with_rows d m), r, err)
