-- ===== src/Database/Sql/Keeps.antt =====
-- pkg/database/user.go, event.go: what the statements keep of a table whose columns of ids hold no
-- id twice.
use cs.Prelude.{some, ◌≡◌, ap, inl, inr, List, ℤ, int_key, arith}
use mathlib.Core.Path.{subst}
use cs.Prelude.Tests.{Option-cases}
use cs.Prelude.Map.{Map, lookup, insert, lookup-insert, Unique, insert-Unique}
use cs.Database.Sql.{Statement, Sql, exec, insert_returning, update_row, delete_row}
use cs.Database.Sql.Ids.{Distinct}
use cs.Database.Sql.Lookups.{
  lookup-update_row, lookup-delete_row, update_row-Unique, delete_row-Unique,
}

module _ {T : Type 0} (column : T → List ℤ) where
  -- No key stands twice, and no id stands twice in the column of a row.
  pub record IsValid (m : Map ℤ T) : Type 0 where
    pub unique : Unique m
    pub distinct : (key : ℤ) (row : T) → lookup key m ≡ some row → Distinct (column row)

  pub update_row-IsValid :
      (key : ℤ) (f : T → T) (m : Map ℤ T)
      → ((row : T) → lookup key m ≡ some row → Distinct (column (f row)))
      → IsValid m
      → IsValid (update_row key f m)
  update_row-IsValid key f m keeps v = record {
    unique = update_row-Unique key f m v.unique;
    distinct = λ other row h.
        let looked = lookup-update_row key other f m in
        elim (int_key.dec other key) [
          | no differ ↦ v.distinct other row (ground (arith, h, looked, differ))
          | yes same ↦ elim (Option-cases (lookup key m)) [
            | inl missing ↦
                absurd (ground (arith, h, looked, same, missing, ap (λ k. lookup k m) same))
            | inr (old, there) ↦
                let is : f old ≡ row =
                  ground (arith, h, looked, same, there, ap (λ k. lookup k m) same) in
                subst (λ r. Distinct (column r)) is (keeps old there)
          ]
        ];
  }

  pub delete_row-IsValid : (key : ℤ) (m : Map ℤ T) → IsValid m → IsValid (delete_row key m)
  delete_row-IsValid key m v = record {
    unique = delete_row-Unique key m v.unique;
    distinct =
        λ other row h. v.distinct other row (ground (arith, h, lookup-delete_row key other m));
  }

  pub insert-IsValid :
      (key : ℤ) (row : T) (m : Map ℤ T)
      → Distinct (column row)
      → IsValid m
      → IsValid (insert key row m)
  insert-IsValid key row m d v = record {
    unique = insert-Unique key row m v.unique;
    distinct = λ other found h.
        let looked = lookup-insert key other row m in
        elim (int_key.dec other key) [
          | no differ ↦ v.distinct other found (ground (arith, h, looked, differ))
          | yes same ↦
              let is : row ≡ found = ground (arith, h, looked, same) in
              subst (λ r. Distinct (column r)) is d
        ];
  }

  module _ {E : Type 0} (sql : Sql T E) where
    pub exec-IsValid :
        (statement : Statement) (m m' : Map ℤ T)
        → IsValid m
        → IsValid m'
        → IsValid (exec sql statement m m').0
    unfolding exec
    exec-IsValid statement m m' v v' = elim (Option-cases (sql.fault statement m m')) [
      | inl fine ↦ rw (fine, exec) v'
      | inr (e, bad) ↦ rw (bad, exec) v
    ]

    pub insert_returning-IsValid :
        (row : T) (m : Map ℤ T)
        → Distinct (column row)
        → IsValid m
        → IsValid (insert_returning sql row m).0
    unfolding insert_returning
    insert_returning-IsValid row m d v =
        ground (arith, v, insert-IsValid (sql.generate m) row m d v)
