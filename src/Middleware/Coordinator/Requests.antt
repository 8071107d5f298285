-- ===== src/Middleware/Coordinator/Requests.antt =====
-- pkg/middleware/tx.go, TxCoordinator: new requests and recovered ones.
use cs.Prelude.{
  ℕ, ◌+◌, ◌^◌, ◌<◌, String, true, false, Option, none, some, ◌≡◌, refl, ap, ◌∙◌, ◌≢◌, ◌⊎◌, inl, inr,
  List, [], arith,
}
use cs.Prelude.Tests.{Sum-cases, Option-cases, Bool-cases}
use cs.Prelude.Lists.{length, get_elem?}
use cs.Prelude.Run.{Run, ok, panic, blocked}
use cs.Cc.Partition.{TxPartitionManager, Hashing, partition, lock, unlock}
use cs.Cc.Partition.Bounds.{lock_held, lock-held}
use cs.Cc.Clock.{TxClockManager}
use cs.Cc.Clock
use cs.Cc.Context.{TxExecutorContext, TxControlContext}
use cs.Middleware.Sender.{SenderDb, Sender, create_tx_executor}
use cs.Middleware.Sender.Stamps.{expected}
use cs.Middleware.Sender.Create.{create_lem}
use cs.Middleware.Sender.Recorded.{Moved, Clocks, Recorded, stamped_ctx}
use cs.Middleware.Coordinator.{
  CoordinatorRequest, Coordination, Reply, handled, err_exec_ctx_decode, err_middleware_tx_executor,
  Coordinator, handle_recovered, handle_new, new_exec_ctx, own_ctrl_ctx, visited, after_create,
  tx_coordinator, empty_ctrl_ctx,
}

module _ {W K V E : Type 0} (db : SenderDb W V E) (c : Coordination W V E) (h : Hashing K) (nil : V)
    (service : String) (receivers : List String) where
  -- What a request that brings an executor context ends in, by whether the context can be decoded and
  -- by the mutex of its partition: it is handled while the mutex is held; it waits as long as the
  -- mutex is held by another; there is no such mutex; or the context cannot be decoded.
  abbrev pub RecoveredEnds :
      CoordinatorRequest K V → Coordinator W → Run (Coordinator W × Reply) → Type 0
  RecoveredEnds req s run =
      ((exec_ctx : TxExecutorContext V) × (held : TxPartitionManager) × (c.decode_exec
            req.encoded_exec_ctx
          ≡ inr exec_ctx)
        × (get_elem? s.prt_mgr.locks exec_ctx.ctrl_ctx.partition ≡ some false)
        × (get_elem? held.locks exec_ctx.ctrl_ctx.partition ≡ some true)
        × (unlock held exec_ctx.ctrl_ctx.partition ≡ ok s.prt_mgr)
        × (run
            ≡ ok (
              record s { world = c.serve held (record exec_ctx { recovered = true }) s.world },
              handled,
            )))
      ⊎ ((exec_ctx : TxExecutorContext V) × (c.decode_exec req.encoded_exec_ctx ≡ inr exec_ctx)
          × (get_elem? s.prt_mgr.locks exec_ctx.ctrl_ctx.partition ≡ some true)
          × (run ≡ blocked))
      ⊎ ((exec_ctx : TxExecutorContext V) × (c.decode_exec req.encoded_exec_ctx ≡ inr exec_ctx)
          × (get_elem? s.prt_mgr.locks exec_ctx.ctrl_ctx.partition ≡ none)
          × (run ≡ panic))
      ⊎ ((e : E) × (c.decode_exec req.encoded_exec_ctx ≡ inl e)
          × (run ≡ ok (s, err_exec_ctx_decode)))

  -- However a request that brings an executor context ends: if the context can be decoded and the
  -- mutex of its partition is free, the handler runs once, with the context marked as recovered and
  -- while the mutex is held, which is free again afterwards as all mutexes were before; no executor
  -- is created and no clock moves. While another holds the mutex the request waits and the handler
  -- does not run. A partition without a mutex makes it panic, and a context that cannot be decoded
  -- is answered with an error and changes nothing.
  pub tx_coordinator-recovered :
      (seed : h.Seed) (req : CoordinatorRequest K V) (s : Coordinator W)
      → req.encoded_exec_ctx ≢ ""
      → RecoveredEnds req s (tx_coordinator db c h nil service receivers seed req s)
  unfolding tx_coordinator handle_recovered lock
  tx_coordinator-recovered seed req s full = elim (Sum-cases (c.decode_exec req.encoded_exec_ctx)) [
    | inl (e, bad) ↦ inr (inr (inr (e, bad, ground (arith, full, bad))))
    | inr (exec_ctx, decoded) ↦
        let p = exec_ctx.ctrl_ctx.partition in
        elim (Option-cases (get_elem? s.prt_mgr.locks p)) [
          | inl missing ↦
              inr (inr (inl (exec_ctx, decoded, missing, ground (arith, full, decoded, missing))))
          | inr (b, there) ↦ elim (Bool-cases b) [
            | inl taken ↦
                let busy = there ∙ ap some taken in
                inr (inl (exec_ctx, decoded, busy, ground (arith, full, decoded, busy)))
            | inr is_free ↦
                let free = there ∙ ap some is_free in
                let (held, locks, unlocks) = lock_held s.prt_mgr p free in
                inl (
                  exec_ctx,
                  held,
                  decoded,
                  free,
                  lock-held s.prt_mgr held p free locks,
                  unlocks,
                  ground (arith, full, decoded, locks, unlocks),
                )
          ]
        ]
  ]

  -- What createTxExecutor is given for a new request.
  abbrev pub new_sender :
      h.Seed → CoordinatorRequest K V → TxControlContext → Coordinator W → Sender W V
  new_sender seed req ctrl_ctx s = record {
    clock_mgr = s.clock_mgr;
    exec_ctx =
        new_exec_ctx db c h nil service receivers
          (own_ctrl_ctx db c h nil service receivers seed req ctrl_ctx s.prt_mgr) req.body;
    world = s.world;
  }

  -- The control context that the request brings, or an empty one if it brings none.
  abbrev pub Brings : CoordinatorRequest K V → TxControlContext → Type 0
  Brings req ctrl_ctx =
      ((req.encoded_ctrl_ctx ≡ "") × (ctrl_ctx ≡ empty_ctrl_ctx))
      ⊎ ((req.encoded_ctrl_ctx ≢ "") × (c.decode_ctrl req.encoded_ctrl_ctx ≡ inr ctrl_ctx))

  -- How a new request ends, from what `sender` was made to. With an error the clocks are as before
  -- and nothing else has happened to the world; without one the executor and the clocks have been
  -- recorded, the clocks have moved, and then the handler has run once, between the recorders.
  abbrev pub NewEnds : ℕ → (String → ℕ) → Sender W V → Sender W V → Coordinator W → Reply → Type 0
  NewEnds p clock sender made s' reply =
      ((reply ≡ err_middleware_tx_executor)
        × (s'.clock_mgr ≡ sender.clock_mgr)
        × (s'.world ≡ made.world))
      ⊎ ((reply ≡ handled)
          × Recorded db p clock receivers (stamped_ctx db sender made) sender.world made.world
              made.exec_ctx.exec_id
          × (s'.world ≡ visited db c h nil service receivers s'.prt_mgr made.exec_ctx made.world)
          × Moved sender.clock_mgr p clock receivers s'.clock_mgr)

  new_ends :
      (p : ℕ) (clock : String → ℕ) (prt_mgr : TxPartitionManager) (sender made : Sender W V)
      (err : Option (List E))
      → Clocks db p clock receivers sender made err
      → let result = after_create db c h nil service receivers (prt_mgr, made, err) in
        (result.0.prt_mgr ≡ prt_mgr) × NewEnds p clock sender made result.0 result.1
  unfolding after_create
  new_ends p clock prt_mgr sender made none (moved, recorded) =
      (refl, inr (refl, recorded, refl, moved))
  new_ends p clock prt_mgr sender made (some errs) clocks = (refl, inl (refl, clocks, refl))

  -- If the mutex of the partition of its keys is free, the clocks there can be read, and no timestamp
  -- would pass 2^64, a new request, with a control context that can be decoded or with none, returns
  -- and the mutex is given back. If its executor could not be recorded the answer is an error, the
  -- clocks are as before and the handler has not run. Otherwise its context could be marshalled, and
  -- Begin, the insertion of the executor, a statement for the clock of each receiver and Commit
  -- ran in this order and none failed; after that the handler has run once, between the recorders, on
  -- an executor context with the receivers and their next timestamps, and the clocks have moved by
  -- what was given.
  pub tx_coordinator-new :
      (seed : h.Seed) (req : CoordinatorRequest K V) (s : Coordinator W) (clock : String → ℕ)
      (ctrl_ctx : TxControlContext)
      → req.encoded_exec_ctx ≡ ""
      → Brings req ctrl_ctx
      → get_elem? s.prt_mgr.locks (partition h seed s.prt_mgr req.keys) ≡ some false
      → ((r : String)
          → Clock.get s.clock_mgr (partition h seed s.prt_mgr req.keys) r ≡ ok (clock r))
      → ((r : String) → clock r + length receivers < 2 ^ 64)
      → (made : Sender W V) × (err : Option (List E)) × (s' : Coordinator W) × (reply : Reply)
        × (create_tx_executor db s.prt_mgr receivers (new_sender seed req ctrl_ctx s)
            ≡ ok (s.prt_mgr, made, err))
        × (tx_coordinator db c h nil service receivers seed req s ≡ ok (s', reply))
        × (made.exec_ctx.receivers ≡ receivers)
        × (made.exec_ctx.timestamps ≡ expected clock [] receivers)
        × (s'.prt_mgr ≡ s.prt_mgr)
        × NewEnds
            (partition h seed s.prt_mgr req.keys)
            clock
            (new_sender seed req ctrl_ctx s)
            made
            s'
            reply
  unfolding tx_coordinator handle_new
  tx_coordinator-new seed req s clock ctrl_ctx no_exec brings free reads fits =
      let sender = new_sender seed req ctrl_ctx s in
      let (made, err, ran, recs, ts, clocks) =
        create_lem db s.prt_mgr receivers sender clock free reads fits in
      let result = after_create db c h nil service receivers (s.prt_mgr, made, err) in
      let (same, ends) =
        new_ends (partition h seed s.prt_mgr req.keys) clock s.prt_mgr sender made err clocks in
      (
        made,
        err,
        result.0,
        result.1,
        ran,
        elim brings [
          | inl (no_ctrl, empty) ↦ ground (arith, no_exec, no_ctrl, ran, empty)
          | inr (full, decoded) ↦ ground (arith, no_exec, full, decoded, ran)
        ],
        recs,
        ts,
        same,
        ends,
      )
