-- ===== src/Database/Sql/Lookups.antt =====
-- pkg/database/user.go, event.go: what a statement does to the row under each key.
use cs.Prelude.{none, some, ite, ◌≡◌, [], ◌∷◌, ℤ, int_key, arith, inl, inr}
use cs.Prelude.Map.{Map, lookup, Unique}
use cs.Prelude.Tests.{Option-cases}
use cs.Database.Sql.{Statement, select, Sql, query_row, exec, update_row, delete_row}
use mathlib.Core.Option

module _ {T : Type 0} where
  pub lookup-update_row :
      (key other : ℤ) (f : T → T) (m : Map ℤ T)
      → lookup other (update_row key f m)
        ≡ ite (int_key.dec other key) (Option.map f (lookup other m)) (lookup other m)
  unfolding lookup update_row
  lookup-update_row key other f [] = ground arith
  lookup-update_row key other f ((k, row) ∷ m) = ground (arith, lookup-update_row key other f m)

  pub lookup-delete_row :
      (key other : ℤ) (m : Map ℤ T)
      → lookup other (delete_row key m) ≡ ite (int_key.dec other key) none (lookup other m)
  unfolding lookup delete_row
  lookup-delete_row key other [] = ground arith
  lookup-delete_row key other ((k, row) ∷ m) = ground (arith, lookup-delete_row key other m)

  pub update_row-Unique :
      (key : ℤ) (f : T → T) (m : Map ℤ T) → Unique m → Unique (update_row key f m)
  unfolding update_row lookup
  update_row-Unique key f [] u = tt
  update_row-Unique key f ((k, row) ∷ m) (fresh, u) =
      ground (arith, fresh, u, update_row-Unique key f m u, lookup-update_row key k f m)

  pub delete_row-Unique : (key : ℤ) (m : Map ℤ T) → Unique m → Unique (delete_row key m)
  unfolding delete_row lookup
  delete_row-Unique key [] u = tt
  delete_row-Unique key ((k, row) ∷ m) (fresh, u) =
      ground (arith, fresh, u, delete_row-Unique key m u, lookup-delete_row key k m)

  -- What a query reads is read from the row of the key.
  pub query_row-found :
      {B E : Type 0} (sql : Sql T E) (key : ℤ) (read : T → B) (m : Map ℤ T) (b : B)
      → query_row sql key read m ≡ inr b
      → (row : T) × (lookup key m ≡ some row) × (read row ≡ b)
  unfolding query_row
  query_row-found sql key read m b h = elim (Option-cases (lookup key m)) [
    | inl missing ↦ absurd (ground (arith, h, missing))
    | inr (row, there) ↦ (row, there, ground (arith, h, there))
  ]

module _ {T E : Type 0} (sql : Sql T E) where
  pub query_row-there :
      {B : Type 0} (key : ℤ) (read : T → B) (m : Map ℤ T) (row : T)
      → sql.fault select m m ≡ none
      → lookup key m ≡ some row
      → query_row sql key read m ≡ inr (read row)
  unfolding query_row
  query_row-there key read m row works there = ground (arith, works, there)

  pub query_row-same :
      {B : Type 0} (key : ℤ) (read : T → B) (m m' : Map ℤ T)
      → ((m : Map ℤ T) → sql.fault select m m ≡ none)
      → lookup key m' ≡ lookup key m
      → query_row sql key read m' ≡ query_row sql key read m
  unfolding query_row
  query_row-same key read m m' works same = ground (arith, works m, works m', same)

  -- A statement without an error has been done.
  pub exec-done :
      (statement : Statement) (m m' : Map ℤ T)
      → (exec sql statement m m').2 ≡ []
      → (exec sql statement m m').0 ≡ m'
  unfolding exec
  exec-done statement m m' fine = ground (arith, fine)
