-- ===== src/Cc/Manager/Services.antt =====
-- pkg/cc/manager.go: a new manager is ready for each of the services.
use mathlib.Core.Path.{subst}
use cs.Prelude.{ℕ, ◌<◌, String, ◌≡◌, refl, sym, ◌∙◌, some, List, [], ◌∷◌, false, arith}
use cs.Prelude.Tests.{string_discrete}
use cs.Prelude.Lists.{All, All-weaken, get_elem?, get_elem?-replicate}
use cs.Prelude.Run.{ok}
use cs.Prelude.Tables.{map_get}
use cs.Prelude.TableInit.{HasRows, make_rows, start_all}
use cs.Cc.Partition.{gen_partitions, new_partition_manager}
use cs.Cc.Clock.{TxClockManager, new_clock_manager}
use cs.Cc.Clock
use cs.Cc.Clock.Init.{new_clock_manager_lem}
use cs.Cc.Filter.Sets.{HashSet}
use cs.Cc.Filter.{TxFilterManager, new_filter_manager}
use cs.Cc.Filter
use cs.Cc.Filter.Init.{IsValid, new_filter_manager_lem, init_lem}
use cs.Cc.Origin.Queues.{PriorityQueue}
use cs.Cc.Origin.{TxOriginManager, new_origin_manager}
use cs.Cc.Origin
use cs.Cc.Origin.Cells.{At}
use cs.Cc.Manager.{TxManager, init_services, new_tx_manager}

module _ (pq : PriorityQueue) (h : HashSet) where
  -- The tables have their rows, the clocks are 0 and the mutexes free.
  record Empty (n : ℕ) (mgr : TxManager pq h) : Type 0 where
    filters : IsValid h mgr.filter_mgr
    filter_rows : mgr.filter_mgr.partitions ≡ n
    queues : HasRows mgr.origin_mgr.queues n
    queue_rows : mgr.origin_mgr.partitions ≡ n
    clocks : (p : ℕ) (s : String) → p < n → Clock.get mgr.origin_mgr.clock_mgr p s ≡ ok 0
    mutexes : (p : ℕ) → p < n → get_elem? mgr.origin_mgr.prt_mgr.locks p ≡ some false

  -- A service's filters and queue are new in each partition.
  abbrev pub Fresh : ℕ → TxManager pq h → String → Type 0
  Fresh n mgr s =
      (p : ℕ)
      → p < n
      → (map_get mgr.filter_mgr.req_filter p s ≡ some h.new)
        × (map_get mgr.filter_mgr.resp_filter p s ≡ some h.new)
        × (map_get mgr.origin_mgr.queues p s ≡ some pq.new)

  service_ready :
      (n : ℕ) (s : String) (mgr : TxManager pq h)
      → Empty n mgr
      → (filters : TxFilterManager h) × (origins : TxOriginManager pq) × (Filter.init h
            mgr.filter_mgr s
          ≡ ok filters)
        × (Origin.init pq mgr.origin_mgr s ≡ ok origins)
        × Empty n (record mgr { filter_mgr = filters; origin_mgr = origins })
        × Fresh n (record mgr { filter_mgr = filters; origin_mgr = origins }) s
        × ((t : String)
            → Fresh n mgr t
            → Fresh n (record mgr { filter_mgr = filters; origin_mgr = origins }) t)
  unfolding Origin.init
  service_ready n s mgr e =
      let (filters, ran, valid, rows, new_f, old_f) = init_lem h mgr.filter_mgr s e.filters in
      let (queues, ran', c) =
        start_all pq.new mgr.origin_mgr.partitions mgr.origin_mgr.queues s
          (λ p lt. e.queues p (omega (arith, e.queue_rows, lt))) in
      let next : TxManager pq h = record mgr {
        filter_mgr = filters;
        origin_mgr = record mgr.origin_mgr { queues = queues };
      } in
      let new : Fresh n next s = λ p lt.
        let (req, resp) = new_f p (omega (arith, e.filter_rows, lt)) in
        (req, resp, c.started p (omega (arith, e.queue_rows, lt))) in
      (
        filters,
        record mgr.origin_mgr { queues = queues },
        ran,
        rw ran' refl,
        record {
          filters = valid;
          filter_rows = rows ∙ e.filter_rows;
          queues = λ p lt. c.has_rows p (omega (arith, e.queue_rows, lt));
          queue_rows = e.queue_rows;
          clocks = e.clocks;
          mutexes = e.mutexes;
        },
        new,
        λ t old. elim (string_discrete t s) [
          | yes same ↦ subst (Fresh n next) (sym same) new
          | no differ ↦ λ p lt.
              let (req, resp) = old_f p t differ in
              let (req', resp', queue) = old p lt in
              (req ∙ req', resp ∙ resp', c.others p t differ ∙ queue)
        ],
      )

  init_services_lem :
      (n : ℕ) (services : List String) (mgr : TxManager pq h)
      → Empty n mgr
      → (mgr' : TxManager pq h) × (init_services pq h services mgr ≡ ok mgr')
        × Empty n mgr'
        × All (Fresh n mgr') services
        × ((t : String) → Fresh n mgr t → Fresh n mgr' t)
  unfolding init_services
  init_services_lem n [] mgr e = (mgr, refl, e, tt, λ t f. f)
  init_services_lem n (s ∷ services) mgr e =
      let (filters, origins, ran, ran', e', new, keeps) = service_ready n s mgr e in
      let (mgr', rest, e'', all, keeps') =
        init_services_lem n services (record mgr { filter_mgr = filters; origin_mgr = origins })
          e' in
      (mgr', rw ran (rw ran' rest), e'', (keeps' s new, all), λ t old. keeps' t (keeps t old))

  -- A service's slots are at clock 0 with a new queue, and its filters are new, in each partition.
  abbrev pub ReadyFor : ℕ → TxManager pq h → String → Type 0
  ReadyFor n mgr s =
      (p : ℕ)
      → p < n
      → At pq mgr.origin_mgr p s (record { clock = 0; queue = pq.new })
        × (map_get mgr.filter_mgr.req_filter p s ≡ some h.new)
        × (map_get mgr.filter_mgr.resp_filter p s ≡ some h.new)

  -- The manager of a service, made for any number of partitions and any list of services (which may
  -- name one twice), is made without a panic, and is ready for each of the services: in each
  -- partition the receiver's clock is 0, nobody waits, the mutex is free, and both filters are new.
  pub new_tx_manager_lem :
      (partitions : ℕ) (services : List String)
      → (mgr : TxManager pq h) × (new_tx_manager pq h partitions services ≡ ok mgr)
        × All (ReadyFor (gen_partitions partitions) mgr) services
  unfolding new_tx_manager new_origin_manager new_partition_manager
  new_tx_manager_lem partitions services =
      let n = gen_partitions partitions in
      let (filters, ran, rows, valid) = new_filter_manager_lem h partitions in
      let (queues, ran', has) = make_rows {V = pq.Queue} n in
      let (_, count, zero_at) = new_clock_manager_lem partitions in
      let origins : TxOriginManager pq = record {
        partitions = n;
        queues = queues;
        clock_mgr = new_clock_manager partitions;
        prt_mgr = new_partition_manager partitions;
      } in
      let first : TxManager pq h = record {
        sender_clock_mgr = new_clock_manager partitions;
        sender_prt_mgr = new_partition_manager partitions;
        filter_mgr = filters;
        origin_mgr = origins;
      } in
      let empty : Empty n first = record {
        filters = valid;
        filter_rows = rows;
        queues = has;
        queue_rows = refl;
        clocks = λ p s lt. zero_at p s (omega (arith, count, lt));
        mutexes = λ p lt. get_elem?-replicate n false p lt;
      } in
      let (mgr, rest, e, all, _) = init_services_lem n services first empty in
      (
        mgr,
        rw ran (rw ran' rest),
        All-weaken (Fresh n mgr) (ReadyFor n mgr)
            (λ s fresh p lt.
              let (req, resp, queue) = fresh p lt in
              (
                record { clock_at = e.clocks p s lt; queue_at = queue; free = e.mutexes p lt },
                req,
                resp,
              ))
            services all,
      )
