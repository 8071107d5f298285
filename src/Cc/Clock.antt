-- ===== src/Cc/Clock.antt =====
-- pkg/cc/clock.go: a logical clock for each partition and service.
pub mod Cells
pub mod Init
use cs.Prelude.{ℕ, ◌+◌, ◌%◌, ◌^◌, String, Option, none, some, List, []}
use cs.Prelude.Lists.{replicate}
use cs.Prelude.Map.{Map}
use cs.Prelude.Run.{Run, ok, panic, blocked, ◌>>=◌, for_range_from}
use cs.Prelude.Tables.{slice_get, slice_put}
use cs.Cc.Partition.{gen_partitions}

pub record TxClockManager : Type 0 where
  pub partitions : ℕ
  pub clocks : List (Map String ℕ)

-- The loop that puts an empty map in each row of the new slice leaves `partitions` of them.
unfoldable pub new_clock_manager : ℕ → TxClockManager
new_clock_manager partitions =
    let partitions' = gen_partitions partitions in
    record { partitions = gen_partitions partitions'; clocks = replicate partitions' [] }

-- A key that a map of numbers lacks reads as 0.
abbrev pub or_zero : Option ℕ → ℕ
or_zero none = 0
or_zero (some n) = n

abbrev pub with_clocks : TxClockManager → List (Map String ℕ) → Run TxClockManager
with_clocks mgr clocks = ok (record mgr { clocks = clocks })

unfoldable pub get : TxClockManager → ℕ → String → Run ℕ
get mgr partition service = slice_get mgr.clocks partition service >>= λ cell. ok (or_zero cell)

unfoldable pub set : TxClockManager → ℕ → String → ℕ → Run TxClockManager
set mgr partition service timestamp =
    slice_put mgr.clocks partition service timestamp >>= with_clocks mgr

-- uint64 `++` wraps.
unfoldable pub inc : TxClockManager → ℕ → String → Run TxClockManager
inc mgr partition service =
    slice_get mgr.clocks partition service
    >>= (λ cell. slice_put mgr.clocks partition service ((or_zero cell + 1) % 2 ^ 64))
    >>= with_clocks mgr

unfoldable pub init_service : TxClockManager → String → Run TxClockManager
init_service mgr service =
    for_range_from (λ partition clocks. slice_put clocks partition service 0) mgr.partitions 0
      mgr.clocks
    >>= with_clocks mgr
