-- ===== src/Database/Sql/Column.antt =====
-- pkg/database/user.go, event.go: a column of ids as a relation between the keys and the ids, and
-- the valid rows, under the update of the column of one row.
use cs.Prelude.{Bool, true, false, ite, none, some, ◌≡◌, ap, sym, inr, [], List, ℤ, int_key, arith}
use mathlib.Core.Path.{subst}
use cs.Prelude.Map.{Map, lookup}
use cs.Database.Sql.{Sql, update, query_row, exec, update_row}
use cs.Database.Sql.Ids.{contains, add_id, delete_id, contains-add_id, contains-delete_id, Distinct}
use cs.Database.Sql.Lookups.{lookup-update_row, query_row-found}
use cs.Database.Sql.Keeps.{IsValid, update_row-IsValid, exec-IsValid}

-- The relation `rel` with the pair of two ids put to `value`.
abbrev pub with_pair : (ℤ → ℤ → Bool) → ℤ → ℤ → Bool → ℤ → ℤ → Bool
with_pair rel a b value x y =
    ite (int_key.dec x a) (ite (int_key.dec y b) value (rel x y)) (rel x y)

module _ {T : Type 0} (column : T → List ℤ) where
  -- The row of the key has the id in the column.
  unfoldable pub holds : Map ℤ T → ℤ → ℤ → Bool
  holds m key id = elim (lookup key m) [ none ↦ false | some row ↦ contains (column row) id ]

  module _ (with_column : List ℤ → T → T)
      (column-with_column : (ids : List ℤ) (row : T) → column (with_column ids row) ≡ ids) where
    holds-add_id :
        (key id : ℤ) (row : T) (m : Map ℤ T) (u e : ℤ)
        → lookup key m ≡ some row
        → holds (update_row key (with_column (add_id (column row) id)) m) u e
          ≡ with_pair (holds m) key id true u e
    unfolding holds
    holds-add_id key id row m u e there =
        let ids = add_id (column row) id in
        ground (
          arith,
          there,
          lookup-update_row key u (with_column ids) m,
          column-with_column ids row,
          contains-add_id (column row) id e,
          ap (λ x. lookup x m),
        )

    holds-delete_id :
        (key id : ℤ) (row : T) (m : Map ℤ T) (u e : ℤ)
        → lookup key m ≡ some row
        → holds (update_row key (with_column (delete_id (column row) id)) m) u e
          ≡ with_pair (holds m) key id false u e
    unfolding holds
    holds-delete_id key id row m u e there =
        let ids = delete_id (column row) id in
        ground (
          arith,
          there,
          lookup-update_row key u (with_column ids) m,
          column-with_column ids row,
          contains-delete_id (column row) id e,
          ap (λ x. lookup x m),
        )

    module _ {E : Type 0} (sql : Sql T E) where
      -- The column of a valid table is read, and written with distinct ids.
      pub written-IsValid :
          (key : ℤ) (ids ids' : List ℤ) (m : Map ℤ T)
          → query_row sql key column m ≡ inr ids
          → (Distinct ids → Distinct ids')
          → IsValid column m
          → IsValid column (exec sql update m (update_row key (with_column ids') m)).0
      written-IsValid key ids ids' m found keeps v =
          let (row, there, same) = query_row-found sql key column m ids found in
          let d : Distinct ids = subst Distinct same (v.distinct key row there) in
          exec-IsValid column sql update m _ v (
            update_row-IsValid column key (with_column ids') m
              (λ r _. subst Distinct (sym (column-with_column ids' r)) (keeps d)) v)

      -- Without an error, the id has been added to the column of the row.
      pub written-add_id :
          (key id : ℤ) (ids : List ℤ) (m : Map ℤ T) (u e : ℤ)
          → query_row sql key column m ≡ inr ids
          → (exec sql update m (update_row key (with_column (add_id ids id)) m)).2 ≡ []
          → holds (exec sql update m (update_row key (with_column (add_id ids id)) m)).0 u e
            ≡ with_pair (holds m) key id true u e
      unfolding exec
      written-add_id key id ids m u e found fine =
          let (row, there, same) = query_row-found sql key column m ids found in
          let after = λ (xs : List ℤ). holds (update_row key (with_column (add_id xs id)) m) u e in
          let held = holds-add_id key id row m u e there in
          ground (arith, fine, held, ap after same)

      pub written-delete_id :
          (key id : ℤ) (ids : List ℤ) (m : Map ℤ T) (u e : ℤ)
          → query_row sql key column m ≡ inr ids
          → (exec sql update m (update_row key (with_column (delete_id ids id)) m)).2 ≡ []
          → holds (exec sql update m (update_row key (with_column (delete_id ids id)) m)).0 u e
            ≡ with_pair (holds m) key id false u e
      unfolding exec
      written-delete_id key id ids m u e found fine =
          let (row, there, same) = query_row-found sql key column m ids found in
          let after =
            λ (xs : List ℤ). holds (update_row key (with_column (delete_id xs id)) m) u e in
          let held = holds-delete_id key id row m u e there in
          ground (arith, fine, held, ap after same)
