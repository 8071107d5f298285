-- ===== src/Cc/Manager.antt =====
-- pkg/cc/manager.go: the managers of a service, initialised for the services that it exchanges
-- messages with.
pub mod Services
use cs.Prelude.{ℕ, String, List, [], ◌∷◌}
use cs.Prelude.Run.{Run, ok, ◌>>=◌}
use cs.Cc.Partition.{TxPartitionManager, new_partition_manager}
use cs.Cc.Clock.{TxClockManager, new_clock_manager}
use cs.Cc.Filter.Sets.{HashSet}
use cs.Cc.Filter.{TxFilterManager, new_filter_manager}
use cs.Cc.Filter
use cs.Cc.Origin.Queues.{PriorityQueue}
use cs.Cc.Origin.{TxOriginManager, new_origin_manager}
use cs.Cc.Origin

module _ (pq : PriorityQueue) (h : HashSet) where
  -- The receiver's clocks and mutexes are those of the origin manager: there is one of each.
  pub record TxManager : Type 0 where
    pub sender_clock_mgr : TxClockManager
    pub sender_prt_mgr : TxPartitionManager
    pub filter_mgr : TxFilterManager h
    pub origin_mgr : TxOriginManager pq

  -- `for _, service := range services { … }`
  unfoldable pub init_services : List String → TxManager → Run TxManager
  init_services [] mgr = ok mgr
  init_services (service ∷ services) mgr = Filter.init h mgr.filter_mgr service >>= λ filters.
      Origin.init pq mgr.origin_mgr service >>= λ origins.
      init_services services (record mgr { filter_mgr = filters; origin_mgr = origins })

  unfoldable pub new_tx_manager : ℕ → List String → Run TxManager
  new_tx_manager partitions services = new_filter_manager h partitions >>= λ filters.
      new_origin_manager pq partitions (new_clock_manager partitions)
        (new_partition_manager partitions)
      >>= λ origins. init_services services (record {
        sender_clock_mgr = new_clock_manager partitions;
        sender_prt_mgr = new_partition_manager partitions;
        filter_mgr = filters;
        origin_mgr = origins;
      })
