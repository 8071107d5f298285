-- ===== src/Middleware/Participant/Turns.antt =====
-- pkg/middleware/tx.go, TxParticipant: what a request does to the receiver, by the filters and by how
-- its timestamp stands to the clock.
use cs.Prelude.{
  ℕ, ◌+◌, ◌%◌, ◌^◌, ◌≤◌, ◌<◌, String, Bool, false, some, ◌≡◌, refl, ◌∙◌, ◌≢◌, inr, arith,
}
use cs.Prelude.Tests.{if◌then◌else◌}
use cs.Prelude.Run.{ok}
use cs.Cc.Context.{TxStageContext}
use cs.Cc.Filter.Sets.{HashSet}
use cs.Cc.Filter.{drop_req, drop_resp}
use cs.Cc.Origin.Queues.{PriorityQueue}
use cs.Cc.Origin.{TxOriginManager, acquire_turn, receive}
use cs.Cc.Origin.Cells.{Slot, At, slot_advance, slot_next}
use cs.Cc.Origin.Turns.{acquire-late, acquire-due, release-At, slot_next-clock}
use cs.Middleware.Participant.{
  Next, served, err_tx_response_dropped, Receiver, stage_msg, serve_stage, take_turn, filter_stage,
  tx_participant,
}

module _ (pq : PriorityQueue) (h : HashSet) {W E : Type 0} (handler : Next pq W E) where
  -- A request that no filter drops and whose timestamp the clock has reached, so that Acquire refuses
  -- it, is served all the same, once, while the clock stands as before, and then the clock of its
  -- partition and service moves on by one.
  pub tx_participant-late :
      (encoded : String) (reply : ℕ) (r : Receiver pq h handler) (st : TxStageContext)
      (slot : Slot pq)
      → encoded ≢ ""
      → handler.decode encoded ≡ inr st
      → drop_req h r.filter_mgr st.partition st.service st.attrs ≡ ok false
      → drop_resp h r.filter_mgr st.partition st.service st.attrs ≡ ok false
      → At pq r.origin_mgr st.partition st.service slot
      → st.timestamp ≤ slot.clock
      → (r' : Receiver pq h handler) × (slot' : Slot pq) × (tx_participant pq h handler encoded
            reply r
          ≡ ok (r', served))
        × ((mgr : TxOriginManager pq) × At pq mgr st.partition st.service slot
            × (r'.world ≡ serve_stage pq h handler mgr st r.world))
        × At pq r'.origin_mgr st.partition st.service slot'
        × (slot'.clock ≡ (slot.clock + 1) % 2 ^ 64)
  unfolding tx_participant filter_stage take_turn acquire_turn slot_next slot_advance
  tx_participant-late encoded reply r st slot full decoded req drop at late =
      let (mgr, acquired, at') =
        acquire-late pq r.origin_mgr (stage_msg pq h handler st reply) slot at late in
      let (mgr', woken, released, at'') = release-At pq mgr st.partition st.service slot at' in
      (
        record r { origin_mgr = mgr'; world = serve_stage pq h handler mgr st r.world },
        (slot_next pq (slot_advance pq slot)).0,
        ground (arith, full, decoded, req, drop, acquired, released),
        (mgr, at', refl),
        at'',
        slot_next-clock pq (slot_advance pq slot),
      )

  -- A request that no filter drops, whose timestamp is the next in order, and whose message is the
  -- first of the queue once it is in it, is served in its turn without waiting. The recorders and
  -- the handler run once, while the clock of its partition and service still stands one below its
  -- timestamp and its message is out of the queue, so that the turn has been taken and not given
  -- back; the clock is its timestamp afterwards. If the response filter drops its response, all
  -- this happens too, and the caller gets 503.
  pub tx_participant-due :
      (encoded : String) (reply : ℕ) (r : Receiver pq h handler) (st : TxStageContext)
      (slot : Slot pq) (resp : Bool)
      → encoded ≢ ""
      → handler.decode encoded ≡ inr st
      → drop_req h r.filter_mgr st.partition st.service st.attrs ≡ ok false
      → drop_resp h r.filter_mgr st.partition st.service st.attrs ≡ ok resp
      → At pq r.origin_mgr st.partition st.service slot
      → st.timestamp ≡ slot.clock + 1
      → slot.clock + 1 < 2 ^ 64
      → pq.peek (pq.enqueue slot.queue (stage_msg pq h handler st reply))
        ≡ some (stage_msg pq h handler st reply)
      → (r' : Receiver pq h handler) × (slot' : Slot pq) × (tx_participant pq h handler encoded
            reply r
          ≡ ok (r', if resp then err_tx_response_dropped else served))
        × ((mgr : TxOriginManager pq) × At pq mgr st.partition st.service (record slot {
          queue = pq.dequeue (pq.enqueue slot.queue (stage_msg pq h handler st reply));
        })
            × (r'.world ≡ serve_stage pq h handler mgr st r.world))
        × (r'.filter_mgr ≡ r.filter_mgr)
        × At pq r'.origin_mgr st.partition st.service slot'
        × (slot'.clock ≡ st.timestamp)
  unfolding tx_participant filter_stage take_turn acquire_turn receive slot_advance
  tx_participant-due encoded reply r st slot resp full decoded req drop at due fits top =
      let msg = stage_msg pq h handler st reply in
      let (mgr, acquired, at') = acquire-due pq r.origin_mgr msg slot at due fits top in
      let free : Slot pq = record slot { queue = pq.dequeue (pq.enqueue slot.queue msg) } in
      let (mgr', woken, released, at'') = release-At pq mgr st.partition st.service free at' in
      (
        record r { origin_mgr = mgr'; world = serve_stage pq h handler mgr st r.world },
        (slot_next pq (slot_advance pq free)).0,
        ground (arith, full, decoded, req, drop, acquired, released),
        (mgr, at', refl),
        refl,
        at'',
        slot_next-clock pq (slot_advance pq free) ∙ ground (arith, due, fits),
      )
