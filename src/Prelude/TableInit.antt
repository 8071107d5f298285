-- ===== src/Prelude/TableInit.antt =====
-- The loops that make the rows of a table of maps, and that start a service in each row.
use cs.Prelude.Tests.{nat_key, string_key}
use cs.Prelude.Map.{Map, lookup, insert, lookup-insert}
use cs.Prelude.Run.{Run, ok, for_range_from, for_range_inv}
use cs.Prelude.Tables.{map_get, map_put, map_get-map_put}
use Prim.Native.Nat.{ℕ, suc, ◌<◌}
use Prim.Native.String.{String}
use mathlib.Core.Path.{◌≡◌, refl}
use mathlib.Core.Logic.{◌≢◌, ◌⊎◌, inl}
use mathlib.Core.List.{[]}
use mathlib.Core.Option.{some}
use native.Mathlib.Decide.{ℕ_discrete}
use native.Mathlib.Omega.{arith}

module _ {V : Type 0} where
  -- `rows[partition] = make(…)`
  abbrev pub make_row : ℕ → Map ℕ (Map String V) → Run (Map ℕ (Map String V))
  make_row partition rows = ok (insert partition [] rows)

  -- The first `n` partitions have a map of services.
  abbrev pub HasRows : Map ℕ (Map String V) → ℕ → Type 0
  HasRows rows n = (p : ℕ) → p < n → (row : Map String V) × (lookup p rows ≡ some row)

  row_added :
      (rows : Map ℕ (Map String V)) (i : ℕ) (added : Map String V) (n : ℕ)
      → HasRows rows n
      → (p : ℕ) → (p < n) ⊎ (p ≡ i)
      → (row : Map String V) × (lookup p (insert i added rows) ≡ some row)
  row_added rows i added n c p lt = elim (ℕ_discrete p i) [
    | yes here ↦ (added, ground (arith, lookup-insert i p added rows))
    | no there ↦
        let (row, e) = c p (ground arith) in (row, ground (arith, lookup-insert i p added rows, e))
  ]

  pub make_rows :
      (n : ℕ)
      → (rows : Map ℕ (Map String V)) × (for_range_from (make_row) n 0 [] ≡ ok rows)
        × HasRows rows n
  make_rows n =
      for_range_inv (make_row) (λ i rows. HasRows rows i) n
        (λ i rows lt c. (insert i [] rows, refl, λ p le. row_added rows i [] i c p (ground arith)))
        [] (λ p lt. elim lt [ ])

module _ {V : Type 0} (new : V) where
  -- `rows[partition][service] = new`
  abbrev pub put_new : String → ℕ → Map ℕ (Map String V) → Run (Map ℕ (Map String V))
  put_new service partition rows = map_put rows partition service new

  -- What holds before round `i` of the loop of `Init`.
  pub record Started (n : ℕ) (rows : Map ℕ (Map String V)) (s : String) (i : ℕ)
      (now : Map ℕ (Map String V)) : Type 0 where
    pub has_rows : HasRows now n
    pub started : (q : ℕ) → q < i → map_get now q s ≡ some new
    pub others : (q : ℕ) (t : String) → t ≢ s → map_get now q t ≡ map_get rows q t

  start_one :
      (n : ℕ) (rows : Map ℕ (Map String V)) (s : String) (i : ℕ) (now : Map ℕ (Map String V))
      → i < n
      → Started n rows s i now
      → (next : Map ℕ (Map String V)) × (put_new s i now ≡ ok next) × Started n rows s (suc i) next
  unfolding map_put
  start_one n rows s i now lt c =
      let (row, e) = c.has_rows i lt in
      let next : Map ℕ (Map String V) = insert i (insert s new row) now in
      let ran : put_new s i now ≡ ok next = rw (e, map_put) in
      (
        next,
        ran,
        record {
          has_rows = λ p le. row_added now i (insert s new row) n c.has_rows p (inl le);
          started = λ q le. ground (arith, map_get-map_put now next i q s s new ran, c.started q);
          others =
              λ q t d. ground (arith, map_get-map_put now next i q s t new ran, c.others q t d);
        },
      )

  pub start_all :
      (n : ℕ) (rows : Map ℕ (Map String V)) (s : String)
      → HasRows rows n
      → (now : Map ℕ (Map String V)) × (for_range_from (put_new s) n 0 rows ≡ ok now)
        × Started n rows s n now
  start_all n rows s c =
      for_range_inv (put_new s) (Started n rows s) n (start_one n rows s) rows
        (record { has_rows = c; started = λ q lt. elim lt [ ]; others = λ q t d. refl })
