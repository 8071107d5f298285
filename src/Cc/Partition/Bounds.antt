-- ===== src/Cc/Partition/Bounds.antt =====
-- pkg/cc/partition.go: every partition that is computed has a mutex, and a locked section gives
-- the mutex back.
use cs.Prelude.{
  sym, ap, ◌∙◌, ℕ, zero, suc, ◌%◌, ◌≤◌, ◌<◌, ◌≡◌, refl, Bool, true, false, List, [], ◌∷◌, some,
  arith,
}
use Prim.Native.Nat.{min}
use cs.Prelude.Tests.{◌==◌, if◌then◌else◌}
use cs.Prelude.Lists.{
  length, get_elem?, set, get_elem?-set_self, length-replicate, get_elem?-replicate,
}
use cs.Prelude.Run.{ok, ◌>>=◌}
use cs.Cc.Partition.{
  gen_partitions, max_partitions, TxPartitionManager, new_partition_manager, Hashing, partition,
  lock, unlock, write_keys,
}

pub gen_partitions_bounds : (n : ℕ) → (0 < gen_partitions n) × (gen_partitions n ≤ max_partitions)
unfolding gen_partitions
gen_partitions_bounds n = ground arith

pub gen_partitions_again : (n : ℕ) → gen_partitions (gen_partitions n) ≡ gen_partitions n
unfolding gen_partitions
gen_partitions_again n = ground arith

-- The number of partitions is the one that is asked for, or 100 for 0, and at most 10000; it is
-- at least 1, and a second call changes nothing.
pub gen_partitions_lem :
    (n : ℕ)
    → (gen_partitions n ≡ min (if n == 0 then 100 else n) 10000)
      × (0 < gen_partitions n)
      × (gen_partitions (gen_partitions n) ≡ gen_partitions n)
unfolding gen_partitions
gen_partitions_lem n = (ground arith, ground arith, gen_partitions_again n)

set-get_elem? :
    (xs : List Bool) (i : ℕ) (b c : Bool) → get_elem? xs i ≡ some b → set (set xs i c) i b ≡ xs
set-get_elem? [] i b c h = refl
set-get_elem? (x ∷ xs) zero b c h = ground arith
set-get_elem? (x ∷ xs) (suc i) b c h = ground (arith, set-get_elem? xs i b c)

-- A free mutex can be locked, and unlocking it then gives the manager back as it was.
pub lock-unlock :
    (mgr : TxPartitionManager) (p : ℕ)
    → get_elem? mgr.locks p ≡ some false
    → (lock mgr p >>= λ m. unlock m p) ≡ ok mgr
unfolding lock unlock
lock-unlock mgr p free = ground (
  arith,
  get_elem?-set_self mgr.locks p true false free,
  set-get_elem? mgr.locks p false true free,
)

pub lock_held :
    (mgr : TxPartitionManager) (p : ℕ)
    → get_elem? mgr.locks p ≡ some false
    → (held : TxPartitionManager) × (lock mgr p ≡ ok held) × (unlock held p ≡ ok mgr)
unfolding lock unlock
lock_held mgr p free = (
  record mgr { locks = set mgr.locks p true },
  ground arith,
  ground (
    arith,
    get_elem?-set_self mgr.locks p true false free,
    set-get_elem? mgr.locks p false true free,
  ),
)

-- The mutex that has been locked is held.
pub lock-held :
    (mgr held : TxPartitionManager) (p : ℕ)
    → get_elem? mgr.locks p ≡ some false
    → lock mgr p ≡ ok held
    → get_elem? held.locks p ≡ some true
unfolding lock
lock-held mgr held p free ran =
    let same : record mgr { locks = set mgr.locks p true } ≡ held = ground (arith, ran, free) in
    ap (λ m. get_elem? m.locks p) (sym same) ∙ get_elem?-set_self mgr.locks p true false free

-- Whatever the hash, its seed and the keys are, a new manager has a free mutex for the partition
-- of the keys: locking it neither panics nor waits, and unlocking it afterwards gives the manager
-- back as it was.
pub partition-lock :
    {K : Type 0} (h : Hashing K) (seed : h.Seed) (n : ℕ) (keys : List K)
    → let mgr = new_partition_manager n in
      let p = partition h seed mgr keys in
      (p < length mgr.locks) × ((lock mgr p >>= λ m. unlock m p) ≡ ok mgr)
unfolding partition new_partition_manager
partition-lock h seed n keys = (
  omega (arith, length-replicate (gen_partitions n) false, below),
  lock-unlock (record { partitions = gen_partitions n; locks = _ }) p
      (get_elem?-replicate (gen_partitions n) false p below),
)
  where
    p : ℕ
    p = h.sum64 seed (write_keys h "" keys) % gen_partitions n

    below : p < gen_partitions n
    below = omega (arith, gen_partitions_bounds n)
