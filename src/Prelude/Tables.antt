-- ===== src/Prelude/Tables.antt =====
-- Tables with a row for each partition and a cell for each service. A table is a slice of maps
-- (`[]map[string]V`) or a map of maps (`map[uint64]map[string]V`).
use Prim.Native.Nat.{ℕ, ◌<◌}
use Prim.Native.String.{String}
use mathlib.Core.Path.{◌≡◌, sym}
use mathlib.Core.Logic.{inl, inr, ite}
use mathlib.Core.List.{List}
use mathlib.Core.Option.{Option, none, some}
use native.Mathlib.Decide.{ℕ_discrete}
use native.Mathlib.Omega.{arith}
use cs.Prelude.Tests.{nat_key, string_key, string_discrete, Option-cases}
use cs.Prelude.Lists.{
  get_elem?, set, length, length-set, get_elem?-set_self, get_elem?-set_ne, get_elem?-lt,
}
use cs.Prelude.Map.{Map, lookup, insert, lookup-insert}
use cs.Prelude.Run.{Run, ok, panic}

module _ {V : Type 0} where
  -- `rows[p][s]`; an index out of range panics.
  unfoldable pub slice_get : List (Map String V) → ℕ → String → Run (Option V)
  slice_get rows p s = elim (get_elem? rows p) [ none ↦ panic | some row ↦ ok (lookup s row) ]

  -- `rows[p][s] = v`
  unfoldable pub slice_put : List (Map String V) → ℕ → String → V → Run (List (Map String V))
  slice_put rows p s v = elim (get_elem? rows p) [
    | none ↦ panic
    | some row ↦ ok (set rows p (insert s v row))
  ]

  -- `rows[p][s]`; a missing row is a nil map, which reads as empty.
  unfoldable pub map_get : Map ℕ (Map String V) → ℕ → String → Option V
  map_get rows p s = elim (lookup p rows) [ none ↦ none | some row ↦ lookup s row ]

  -- `rows[p][s] = v`; a write to a nil map panics.
  unfoldable pub map_put : Map ℕ (Map String V) → ℕ → String → V → Run (Map ℕ (Map String V))
  map_put rows p s v = elim (lookup p rows) [
    | none ↦ panic
    | some row ↦ ok (insert p (insert s v row) rows)
  ]

  pub map_get-map_put :
      (rows rows' : Map ℕ (Map String V)) (p q : ℕ) (s t : String) (v : V)
      → map_put rows p s v ≡ ok rows'
      → map_get rows' q t
        ≡ ite
            (ℕ_discrete q p)
            (ite (string_discrete t s) (some v) (map_get rows q t))
            (map_get rows q t)
  unfolding map_get map_put
  map_get-map_put rows rows' p q s t v h = elim (Option-cases (lookup p rows)) [
    | inl e ↦ ground (arith, e)
    | inr (row, e) ↦
        ground (arith, e, lookup-insert p q (insert s v row) rows, lookup-insert s t v row)
  ]

  pub slice_get-slice_put :
      (rows rows' : List (Map String V)) (p q : ℕ) (s t : String) (v : V)
      → slice_put rows p s v ≡ ok rows'
      → slice_get rows' q t
        ≡ ite
            (ℕ_discrete q p)
            (ite (string_discrete t s) (ok (some v)) (slice_get rows q t))
            (slice_get rows q t)
  unfolding slice_get slice_put
  slice_get-slice_put rows rows' p q s t v h = elim (Option-cases (get_elem? rows p)) [
    | inl e ↦ ground (arith, e)
    | inr (row, e) ↦ elim (ℕ_discrete q p) [
      | yes here ↦
          ground
            (arith, e, get_elem?-set_self rows p (insert s v row) row e, lookup-insert s t v row)
      | no there ↦
          ground (arith, e, get_elem?-set_ne rows p q (insert s v row) (λ d. there (sym d)))
    ]
  ]

  -- A write in range succeeds, and keeps the number of rows.
  pub slice_put_lem :
      (rows : List (Map String V)) (p : ℕ) (s : String) (v : V)
      → p < length rows
      → (rows' : List (Map String V)) × (slice_put rows p s v ≡ ok rows')
        × (length rows' ≡ length rows)
  unfolding slice_put
  slice_put_lem rows p s v h =
      let (row, e) = get_elem?-lt rows p h in
      (set rows p (insert s v row), rw (e, slice_put), length-set rows p (insert s v row))
