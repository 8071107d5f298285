-- ===== src/Cc/Filter/Init.antt =====
-- pkg/cc/filter.go: a new manager, and the empty filters of a service.
use cs.Prelude.{ℕ, ◌<◌, String, ◌≡◌, refl, ◌≢◌, some}
use cs.Prelude.Tests.{nat_key, string_key}
use cs.Prelude.Run.{ok}
use cs.Prelude.TableInit.{HasRows, make_rows, start_all}
use cs.Prelude.Tables.{map_get}
use cs.Cc.Partition.{gen_partitions}
use cs.Cc.Filter.Sets.{HashSet}
use cs.Cc.Filter.{TxFilterManager, new_filter_manager, init}

module _ (h : HashSet) where
  pub record IsValid (mgr : TxFilterManager h) : Type 0 where
    pub req_rows : HasRows mgr.req_filter mgr.partitions
    pub resp_rows : HasRows mgr.resp_filter mgr.partitions

  -- The constructor returns a manager with a map of services for each partition.
  pub new_filter_manager_lem :
      (n : ℕ)
      → (mgr : TxFilterManager h) × (new_filter_manager h n ≡ ok mgr)
        × (mgr.partitions ≡ gen_partitions n)
        × IsValid mgr
  unfolding new_filter_manager
  new_filter_manager_lem n =
      let (rows, ran, c) = make_rows (gen_partitions n) in
      (
        record { req_filter = rows; resp_filter = rows; partitions = gen_partitions n },
        rw ran refl,
        refl,
        record { req_rows = c; resp_rows = c },
      )

  -- Initialising a service in a valid manager succeeds: both its sets are new in each partition,
  -- the sets of the other services are the same, and the manager stays valid.
  pub init_lem :
      (mgr : TxFilterManager h) (s : String)
      → IsValid mgr
      → (mgr' : TxFilterManager h) × (init h mgr s ≡ ok mgr')
        × IsValid mgr'
        × (mgr'.partitions ≡ mgr.partitions)
        × ((p : ℕ)
            → p < mgr.partitions
            → (map_get mgr'.req_filter p s ≡ some h.new)
              × (map_get mgr'.resp_filter p s ≡ some h.new))
        × ((p : ℕ) (t : String)
            → t ≢ s
            → (map_get mgr'.req_filter p t ≡ map_get mgr.req_filter p t)
              × (map_get mgr'.resp_filter p t ≡ map_get mgr.resp_filter p t))
  unfolding init
  init_lem mgr s valid =
      let (req, ran, c) = start_all h.new mgr.partitions mgr.req_filter s valid.req_rows in
      let (resp, ran', c') = start_all h.new mgr.partitions mgr.resp_filter s valid.resp_rows in
      (
        record { req_filter = req; resp_filter = resp; partitions = mgr.partitions },
        rw ran (rw ran' refl),
        record { req_rows = c.has_rows; resp_rows = c'.has_rows },
        refl,
        λ p lt. (c.started p lt, c'.started p lt),
        λ p t d. (c.others p t d, c'.others p t d),
      )
