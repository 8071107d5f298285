-- ===== src/Cc/Clock/Init.antt =====
-- pkg/cc/clock.go: a new manager, and a service's clocks set to 0 in each partition.
use cs.Prelude.{ℕ, suc, ◌<◌, String, ◌≡◌, refl, sym, arith, some, ◌≢◌, List, [], ◌∙◌}
use cs.Prelude.Map.{Map, lookup}
use cs.Prelude.Tests.{string_key}
use cs.Prelude.Lists.{length, length-replicate, get_elem?-replicate}
use cs.Prelude.Run.{ok, for_range_inv}
use cs.Prelude.Tables.{slice_get, slice_put, slice_get-slice_put, slice_put_lem}
use cs.Cc.Partition.{gen_partitions}
use cs.Cc.Partition.Bounds.{gen_partitions_again}
use cs.Cc.Clock.{TxClockManager, new_clock_manager, get, init_service}

-- There is a row of clocks for each partition.
abbrev pub IsValid : TxClockManager → Type 0
IsValid mgr = length mgr.clocks ≡ mgr.partitions

pub new_clock_manager_lem :
    (n : ℕ)
    → let mgr = new_clock_manager n in
      IsValid mgr
      × (mgr.partitions ≡ gen_partitions n)
      × ((p : ℕ) (s : String) → p < mgr.partitions → get mgr p s ≡ ok 0)
unfolding new_clock_manager get slice_get lookup
new_clock_manager_lem n = (
  length-replicate _ [] ∙ sym (gen_partitions_again n),
  gen_partitions_again n,
  λ p s h. ground (
    arith,
    gen_partitions_again n,
    get_elem?-replicate {A = Map String ℕ} (gen_partitions n) [] p,
  ),
)

-- What holds before round `i` of the loop.
record Cleared (rows : List (Map String ℕ)) (s : String) (i : ℕ) (now : List (Map String ℕ))
    : Type 0 where
  rows_kept : length now ≡ length rows
  cleared : (q : ℕ) → q < i → slice_get now q s ≡ ok (some 0)
  others : (q : ℕ) (t : String) → t ≢ s → slice_get now q t ≡ slice_get rows q t

clear-Cleared :
    (rows : List (Map String ℕ)) (s : String) (i : ℕ) (now : List (Map String ℕ))
    → i < length rows
    → Cleared rows s i now
    → (next : List (Map String ℕ)) × (slice_put now i s 0 ≡ ok next) × Cleared rows s (suc i) next
clear-Cleared rows s i now lt c =
    let (next, ran, len) = slice_put_lem now i s 0 (omega (arith, c.rows_kept)) in
    (
      next,
      ran,
      record {
        rows_kept = len ∙ c.rows_kept;
        cleared = λ q h. ground (arith, slice_get-slice_put now next i q s s 0 ran, c.cleared q);
        others =
            λ q t d. ground (arith, slice_get-slice_put now next i q s t 0 ran, c.others q t d);
      },
    )

-- Initialising a service in a valid manager succeeds: its clock then reads 0 in each partition,
-- and the clocks of the other services read as before.
pub init_service_lem :
    (mgr : TxClockManager) (s : String)
    → IsValid mgr
    → (mgr' : TxClockManager) × (init_service mgr s ≡ ok mgr')
      × IsValid mgr'
      × ((p : ℕ) → p < mgr.partitions → get mgr' p s ≡ ok 0)
      × ((p : ℕ) (t : String) → t ≢ s → get mgr' p t ≡ get mgr p t)
unfolding init_service get
init_service_lem mgr s valid =
    let (rows, ran, c) =
      for_range_inv (λ i now. slice_put now i s 0) (Cleared mgr.clocks s) mgr.partitions
        (λ i now lt c. clear-Cleared mgr.clocks s i now (omega arith) c) mgr.clocks
        (record { rows_kept = refl; cleared = λ q h. elim h [ ]; others = λ q t d. refl }) in
    (
      record mgr { clocks = rows },
      rw ran refl,
      c.rows_kept ∙ valid,
      λ p h. ground (arith, c.cleared p h),
      λ p t d. ground (arith, c.others p t d),
    )
