-- ===== src/Middleware/Coordinator.antt =====
-- pkg/middleware/tx.go, TxCoordinator: a new request gets an executor with timestamps before it is
-- handled; a request that recovery sends again brings its executor with it.
pub mod Requests
use cs.Prelude.{ℕ, String, Bool, true, false, Option, none, some, ◌⊎◌, inl, inr, List, [], ite}
use cs.Prelude.Tests.{string_discrete}
use cs.Prelude.Run.{Run, ok, panic, blocked, ◌>>=◌}
use cs.Cc.Partition.{TxPartitionManager, Hashing, partition, lock, unlock}
use cs.Cc.Clock.{TxClockManager}
use cs.Cc.Context.{TxControlContext, TxExecutorContext, pending}
use cs.Middleware.Sender.{SenderDb, Sender, create_tx_executor}

-- What the middleware reads of a request: three headers, the body and its keys.
pub record CoordinatorRequest (K V : Type 0) : Type 0 where
  pub encoded_exec_ctx : String
  pub encoded_ctrl_ctx : String
  pub logger_id : String
  pub body : V
  pub keys : List K

-- The decoders of the two contexts, and the recorders and the handler, which get the executor
-- context and act on the world. Each of these may read the mutexes, as they stand while it runs.
pub record Coordination (W V E : Type 0) : Type 0 where
  pub decode_exec : String → E ⊎ TxExecutorContext V
  pub decode_ctrl : String → E ⊎ TxControlContext
  pub visit_before : TxPartitionManager → TxExecutorContext V → W → W
  pub serve : TxPartitionManager → TxExecutorContext V → W → W
  pub visit_after : TxPartitionManager → TxExecutorContext V → W → W

-- Handled, or an error with status 400, 400 or 500.
pub data Reply : Type 0 where
  handled err_exec_ctx_decode err_ctrl_ctx_decode err_middleware_tx_executor : Reply

pub record Coordinator (W : Type 0) : Type 0 where
  pub prt_mgr : TxPartitionManager
  pub clock_mgr : TxClockManager
  pub world : W

abbrev pub default_logger_id : String → String
default_logger_id id = ite (string_discrete id "") "default" id

abbrev pub empty_ctrl_ctx : TxControlContext
empty_ctrl_ctx = record { partition = 0; service = ""; attrs = []; dry_run = false; logger_id = "" }

module _ {W K V E : Type 0} (db : SenderDb W V E) (c : Coordination W V E) (h : Hashing K) (nil : V)
    (service : String) (receivers : List String) where
  -- Unlock is deferred until the handler has run.
  unfoldable pub handle_recovered :
      TxExecutorContext V → Coordinator W → Run (Coordinator W × Reply)
  handle_recovered exec_ctx s = lock s.prt_mgr exec_ctx.ctrl_ctx.partition >>= λ held.
      let w = c.serve held exec_ctx s.world in
      unlock held exec_ctx.ctrl_ctx.partition >>= λ free.
      ok (record s { prt_mgr = free; world = w }, handled)

  abbrev pub new_exec_ctx : TxControlContext → V → TxExecutorContext V
  new_exec_ctx ctrl_ctx input = record {
    exec_id = 0;
    ctrl_ctx = ctrl_ctx;
    receivers = [];
    timestamps = [];
    input = input;
    result = nil;
    status = pending;
    curr = 0;
    method = "";
    endpoint = "";
    recovered = false;
  }

  abbrev pub visited : TxPartitionManager → TxExecutorContext V → W → W
  visited mgr exec_ctx w =
      c.visit_after mgr exec_ctx (c.serve mgr exec_ctx (c.visit_before mgr exec_ctx w))

  -- After createTxExecutor.
  unfoldable pub after_create :
      TxPartitionManager × Sender W V × Option (List E) → Coordinator W × Reply
  after_create (prt_mgr, s, some errs) = (
    record { prt_mgr = prt_mgr; clock_mgr = s.clock_mgr; world = s.world },
    err_middleware_tx_executor,
  )
  after_create (prt_mgr, s, none) = (
    record {
      prt_mgr = prt_mgr;
      clock_mgr = s.clock_mgr;
      world = visited prt_mgr s.exec_ctx s.world;
    },
    handled,
  )

  -- `ctrl_ctx` is the decoded one, or an empty one.
  abbrev pub own_ctrl_ctx :
      h.Seed → CoordinatorRequest K V → TxControlContext → TxPartitionManager → TxControlContext
  own_ctrl_ctx seed req ctrl_ctx prt_mgr = record ctrl_ctx {
    logger_id = default_logger_id req.logger_id;
    service = service;
    partition = partition h seed prt_mgr req.keys;
  }

  unfoldable pub handle_new :
      h.Seed
      → CoordinatorRequest K V
      → TxControlContext
      → Coordinator W
      → Run (Coordinator W × Reply)
  handle_new seed req ctrl_ctx s =
      create_tx_executor db s.prt_mgr receivers (record {
        clock_mgr = s.clock_mgr;
        exec_ctx = new_exec_ctx (own_ctrl_ctx seed req ctrl_ctx s.prt_mgr) req.body;
        world = s.world;
      })
      >>= λ made. ok (after_create made)

  -- `seed` is the one that this call's hash draws.
  unfoldable pub tx_coordinator :
      h.Seed → CoordinatorRequest K V → Coordinator W → Run (Coordinator W × Reply)
  tx_coordinator seed req s =
      ite (string_discrete req.encoded_exec_ctx "")
        (ite (string_discrete req.encoded_ctrl_ctx "") (handle_new seed req empty_ctrl_ctx s)
          (elim (c.decode_ctrl req.encoded_ctrl_ctx) [
            | inl e ↦ ok (s, err_ctrl_ctx_decode)
            | inr ctrl_ctx ↦ handle_new seed req ctrl_ctx s
          ]))
        (elim (c.decode_exec req.encoded_exec_ctx) [
          | inl e ↦ ok (s, err_exec_ctx_decode)
          | inr exec_ctx ↦ handle_recovered (record exec_ctx { recovered = true }) s
        ])
