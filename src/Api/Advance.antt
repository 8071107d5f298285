-- ===== src/Api/Advance.antt =====
-- pkg/api/v1/cc.go, HandleTxAdvanceTimestamp: a call that takes the turn of a timestamp and gives it
-- back without serving anything.
use cs.Prelude.{ℕ, ◌+◌, ◌^◌, ◌≤◌, ◌<◌, String, some, ◌≡◌, refl, ◌∙◌, ◌⊎◌, inl, inr, arith}
use cs.Prelude.Tests.{if◌then◌else◌}
use cs.Prelude.Run.{Run, ok, ◌>>=◌}
use cs.Cc.Origin.Queues.{WaitMsg, PriorityQueue}
use cs.Cc.Origin.{TxOriginManager, acquire_turn, receive, release}
use cs.Cc.Origin.Cells.{Slot, At, slot_advance, slot_next}
use cs.Cc.Origin.Turns.{
  acquire-late, acquire-due, release-At, slot_next-clock, slot_next-queue, FirstAfter,
}

pub record RequestTxAdvanceTimestamp : Type 0 where
  pub partition : ℕ
  pub service : String
  pub timestamp : ℕ

module _ (pq : PriorityQueue) where
  abbrev pub advance_msg : RequestTxAdvanceTimestamp → ℕ → WaitMsg
  advance_msg req reply = record {
    partition = req.partition;
    service = req.service;
    timestamp = req.timestamp;
    reply = reply;
  }

  -- The answer is 204 whatever happens.
  unfoldable pub handle_tx_advance_timestamp :
      TxOriginManager pq → RequestTxAdvanceTimestamp → ℕ → Run (TxOriginManager pq)
  handle_tx_advance_timestamp mgr req reply =
      acquire_turn pq mgr (advance_msg req reply) >>= λ (mgr', accepted).
      if accepted
      then (release pq mgr' req.partition req.service >>= λ (free, _). ok free)
      else ok mgr'

  -- The queue without the message, which has been put in and taken out.
  abbrev pub served_queue : Slot pq → RequestTxAdvanceTimestamp → ℕ → pq.Queue
  served_queue slot req reply = pq.dequeue (pq.enqueue slot.queue (advance_msg req reply))

  -- When no other call comes between: a timestamp that the clock has reached leaves the clock and the
  -- queue as they were; one that is the next in order, and whose message is the first of the queue
  -- once it is in it, moves the clock on by one to itself, takes its message out of the queue, and
  -- then also the message that is first in the queue if, and only if, it has the timestamp after it.
  pub advance_timestamp_lem :
      (mgr : TxOriginManager pq) (req : RequestTxAdvanceTimestamp) (reply : ℕ) (slot : Slot pq)
      → At pq mgr req.partition req.service slot
      → (req.timestamp ≤ slot.clock)
        ⊎ ((req.timestamp ≡ slot.clock + 1)
            × (slot.clock + 1 < 2 ^ 64)
            × (pq.peek (pq.enqueue slot.queue (advance_msg req reply))
                ≡ some (advance_msg req reply)))
      → (mgr' : TxOriginManager pq) × (slot' : Slot pq) × (handle_tx_advance_timestamp mgr req reply
          ≡ ok mgr')
        × At pq mgr' req.partition req.service slot'
        × ((req.timestamp ≤ slot.clock) × (slot' ≡ slot)
            ⊎ ((req.timestamp ≡ slot.clock + 1)
                × (slot'.clock ≡ req.timestamp)
                × ((¬ (
                        (msg : WaitMsg) × FirstAfter pq
                          (served_queue slot req reply)
                          req.timestamp
                          msg))
                      × (slot'.queue ≡ served_queue slot req reply)
                    ⊎ ((msg : WaitMsg) × FirstAfter pq
                          (served_queue slot req reply)
                          req.timestamp
                          msg
                        × (slot'.queue ≡ pq.dequeue (served_queue slot req reply))))))
  unfolding handle_tx_advance_timestamp acquire_turn receive slot_advance
  advance_timestamp_lem mgr req reply slot at (inl late) =
      let (mgr', acquired, at') = acquire-late pq mgr (advance_msg req reply) slot at late in
      (mgr', slot, ground (arith, acquired), at', inl (late, refl))
  advance_timestamp_lem mgr req reply slot at (inr (due, fits, top)) =
      let msg = advance_msg req reply in
      let (mid, acquired, at') = acquire-due pq mgr msg slot at due fits top in
      let free : Slot pq = record slot { queue = pq.dequeue (pq.enqueue slot.queue msg) } in
      let (mgr', woken, released, at'') = release-At pq mid req.partition req.service free at' in
      let clock : (slot_advance pq free).clock ≡ req.timestamp = ground (arith, due, fits) in
      let reached : (slot_next pq (slot_advance pq free)).0.clock ≡ req.timestamp =
        slot_next-clock pq (slot_advance pq free) ∙ clock in
      (
        mgr',
        (slot_next pq (slot_advance pq free)).0,
        ground (arith, acquired, released),
        at'',
        inr (due, reached, slot_next-queue pq (slot_advance pq free) req.timestamp clock),
      )
