-- ===== src/Cc/Clock/Cells.antt =====
-- pkg/cc/clock.go: what a write to one clock does to each of them.
use cs.Prelude.{ℕ, ◌+◌, ◌%◌, ◌^◌, ◌<◌, String, ◌≡◌, refl, ite, ℕ_discrete, arith, inl, inr}
use cs.Prelude.Tests.{string_discrete, string_key, Option-cases}
use cs.Prelude.Map.{lookup}
use cs.Prelude.Lists.{length, get_elem?, get_elem?-lt, lt-get_elem?}
use cs.Prelude.Run.{ok}
use cs.Prelude.Tables.{slice_get, slice_get-slice_put, slice_put_lem}
use cs.Cc.Clock.{TxClockManager, get, set, inc, or_zero}

-- A partition for which there is a row of clocks.
abbrev pub HasRow : TxClockManager → ℕ → Type 0
HasRow mgr p = p < length mgr.clocks

pub get_lem :
    (mgr : TxClockManager) (p : ℕ) (s : String) → HasRow mgr p → (n : ℕ) × (get mgr p s ≡ ok n)
unfolding get slice_get
get_lem mgr p s h =
    let (row, e) = get_elem?-lt mgr.clocks p h in (or_zero (lookup s row), rw (e, slice_get) refl)

-- A clock can be read only where there is a row.
pub get-HasRow :
    (mgr : TxClockManager) (p : ℕ) (s : String) (n : ℕ) → get mgr p s ≡ ok n → HasRow mgr p
unfolding get slice_get
get-HasRow mgr p s n h = elim (Option-cases (get_elem? mgr.clocks p)) [
  | inl e ↦ ground (arith, e)
  | inr (row, e) ↦ lt-get_elem? mgr.clocks p row e
]

inc-set :
    (mgr : TxClockManager) (p : ℕ) (s : String) (n : ℕ)
    → get mgr p s ≡ ok n
    → inc mgr p s ≡ set mgr p s ((n + 1) % 2 ^ 64)
unfolding get set inc
inc-set mgr p s n h = ground arith

-- Setting a clock of a partition that is in range succeeds; that clock then reads as the timestamp,
-- and every other one, of another service or another partition, reads as before.
pub get-set :
    (mgr : TxClockManager) (p : ℕ) (s : String) (ts : ℕ)
    → HasRow mgr p
    → (mgr' : TxClockManager) × (set mgr p s ts ≡ ok mgr')
      × (length mgr'.clocks ≡ length mgr.clocks)
      × ((q : ℕ) (t : String)
          → get mgr' q t
            ≡ ite (ℕ_discrete q p) (ite (string_discrete t s) (ok ts) (get mgr q t)) (get mgr q t))
unfolding get set
get-set mgr p s ts h =
    let (rows, ran, len) = slice_put_lem mgr.clocks p s ts h in
    (
      record mgr { clocks = rows },
      rw ran refl,
      len,
      λ q t. ground (arith, slice_get-slice_put mgr.clocks rows p q s t ts ran),
    )

-- Incrementing a clock of a partition that is in range succeeds; that clock then reads one more,
-- modulo 2^64, and every other one, of another service or another partition, reads as before.
pub get-inc :
    (mgr : TxClockManager) (p : ℕ) (s : String) (n : ℕ)
    → get mgr p s ≡ ok n
    → (mgr' : TxClockManager) × (inc mgr p s ≡ ok mgr')
      × (length mgr'.clocks ≡ length mgr.clocks)
      × ((q : ℕ) (t : String)
          → get mgr' q t
            ≡ ite
                (ℕ_discrete q p)
                (ite (string_discrete t s) (ok ((n + 1) % 2 ^ 64)) (get mgr q t))
                (get mgr q t))
get-inc mgr p s n h =
    rw (inc-set mgr p s n h) (get-set mgr p s ((n + 1) % 2 ^ 64) (get-HasRow mgr p s n h))
