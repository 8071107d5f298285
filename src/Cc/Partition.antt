-- ===== src/Cc/Partition.antt =====
-- pkg/cc/partition.go: the number of partitions, the partition of a list of keys, and a mutex for
-- each partition.
pub mod Bounds
use Prim.Native.String
use cs.Prelude.{ℕ, ◌%◌, ◌^◌, String, Bool, true, false, Option, none, some, List, [], ◌∷◌}
use cs.Prelude.Tests.{ltb, ◌==◌, if◌then◌else◌}
use cs.Prelude.Lists.{get_elem?, set, replicate}
use cs.Prelude.Run.{Run, ok, panic, blocked, ◌>>=◌}

abbrev pub max_partitions : ℕ
max_partitions = 10000

abbrev pub default_partitions : ℕ
default_partitions = 100

unfoldable pub gen_partitions : ℕ → ℕ
gen_partitions partitions =
    let partitions' = if partitions == 0 then default_partitions else partitions in
    if ltb max_partitions partitions' then max_partitions else partitions'

pub record TxPartitionManager : Type 0 where
  pub partitions : ℕ
  pub locks : List Bool  -- `sync.Mutex`: held or free

unfoldable pub new_partition_manager : ℕ → TxPartitionManager
new_partition_manager partitions =
    let partitions' = gen_partitions partitions in
    record { partitions = partitions'; locks = replicate partitions' false }

-- `hash/maphash` (the sum of a text under a seed, which a zero `Hash` draws at random) and the
-- `%v` format of `fmt`, for the keys of one type.
pub record Hashing (K : Type 0) : Type 1 where
  pub Seed : Type 0
  pub sum64 : Seed → String → ℕ
  pub show : K → String

module _ {K : Type 0} (h : Hashing K) where
  -- The loop over the keys, from what the builder holds.
  unfoldable pub write_keys : String → List K → String
  write_keys sb [] = sb
  write_keys sb (key ∷ keys) = write_keys (String.◌++◌ sb (h.show key)) keys

  -- `seed` is the one that this call's `Hash` drew.
  unfoldable pub partition : h.Seed → TxPartitionManager → List K → ℕ
  partition seed mgr keys = h.sum64 seed (write_keys "" keys) % mgr.partitions

abbrev try_lock : TxPartitionManager → ℕ → Option Bool → Run TxPartitionManager
try_lock mgr p none = panic
try_lock mgr p (some true) = blocked
try_lock mgr p (some false) = ok (record mgr { locks = set mgr.locks p true })

unfoldable pub lock : TxPartitionManager → ℕ → Run TxPartitionManager
lock mgr p = try_lock mgr p (get_elem? mgr.locks p)

-- To unlock a free mutex is a fatal error.
abbrev try_unlock : TxPartitionManager → ℕ → Option Bool → Run TxPartitionManager
try_unlock mgr p none = panic
try_unlock mgr p (some false) = panic
try_unlock mgr p (some true) = ok (record mgr { locks = set mgr.locks p false })

unfoldable pub unlock : TxPartitionManager → ℕ → Run TxPartitionManager
unlock mgr p = try_unlock mgr p (get_elem? mgr.locks p)
