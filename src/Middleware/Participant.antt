-- ===== src/Middleware/Participant.antt =====
-- pkg/middleware/tx.go, TxParticipant: a receiver drops a request, or serves it in its turn. One call
-- from start to end, when no other comes between: a call that would have to wait for another is
-- `blocked`.
pub mod Turns
pub mod Filtered
use cs.Prelude.{ℕ, String, Bool, true, false, Option, none, some, ◌⊎◌, inl, inr, ite}
use cs.Prelude.Tests.{◌==◌, if◌then◌else◌, string_discrete}
use cs.Prelude.Run.{Run, ok, panic, blocked, ◌>>=◌}
use cs.Cc.Context.{TxStageContext}
use cs.Cc.Filter.Sets.{HashSet}
use cs.Cc.Filter.{TxFilterManager, drop_req, drop_resp}
use cs.Cc.Origin.Queues.{WaitMsg, PriorityQueue}
use cs.Cc.Origin.{TxOriginManager, acquire_turn, release}

pub data Reply : Type 0 where
  served err_tx_stage_context_decode err_tx_request_dropped err_tx_response_dropped : Reply

-- The next handler and the recorders, on the world outside; `decode` is DecodeTxStageContext. Each
-- of them may read the origin manager, as it stands while it runs.
pub record Next (pq : PriorityQueue) (W E : Type 0) : Type 0 where
  pub decode : String → E ⊎ TxStageContext
  pub visit_before : TxOriginManager pq → Option TxStageContext → W → W
  pub serve : TxOriginManager pq → Option TxStageContext → W → W
  pub visit_after : TxOriginManager pq → Option TxStageContext → W → W

module _ (pq : PriorityQueue) (h : HashSet) {W E : Type 0} (handler : Next pq W E) where
  pub record Receiver : Type 0 where
    pub filter_mgr : TxFilterManager h
    pub origin_mgr : TxOriginManager pq
    pub world : W

  abbrev pub stage_msg : TxStageContext → ℕ → WaitMsg
  stage_msg stage_ctx reply = record {
    partition = stage_ctx.partition;
    service = stage_ctx.service;
    timestamp = stage_ctx.timestamp;
    reply = reply;
  }

  abbrev pub serve_stage : TxOriginManager pq → TxStageContext → W → W
  serve_stage mgr stage_ctx w =
      let ctx = some stage_ctx in
      handler.visit_after mgr ctx (handler.serve mgr ctx (handler.visit_before mgr ctx w))

  -- After the filters: the result of Acquire is not used, and Release is deferred until the handler
  -- and the recorders have run.
  unfoldable pub take_turn : TxStageContext → ℕ → Bool → Receiver → Run (Receiver × Reply)
  take_turn stage_ctx reply drop r =
      acquire_turn pq r.origin_mgr (stage_msg stage_ctx reply) >>= λ (mgr, _).
      let w = serve_stage mgr stage_ctx r.world in
      release pq mgr stage_ctx.partition stage_ctx.service >>= λ (mgr', _).
      ok (
        record r { origin_mgr = mgr'; world = w },
        if drop then err_tx_response_dropped else served,
      )

  unfoldable pub filter_stage : TxStageContext → ℕ → Receiver → Run (Receiver × Reply)
  filter_stage stage_ctx reply r =
      drop_req h r.filter_mgr stage_ctx.partition stage_ctx.service stage_ctx.attrs >>= λ req.
      drop_resp h r.filter_mgr stage_ctx.partition stage_ctx.service stage_ctx.attrs >>= λ resp.
      if req then ok (r, err_tx_request_dropped) else take_turn stage_ctx reply resp r

  -- `encoded` is the header; `reply` is the channel that `NewWaitMsg` makes.
  unfoldable pub tx_participant : String → ℕ → Receiver → Run (Receiver × Reply)
  tx_participant encoded reply r =
      ite (string_discrete encoded "")
        (ok (record r { world = handler.serve r.origin_mgr none r.world }, served))
        (elim (handler.decode encoded) [
          | inl e ↦ ok (r, err_tx_stage_context_decode)
          | inr stage_ctx ↦ filter_stage stage_ctx reply r
        ])
