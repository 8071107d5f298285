-- ===== src/Cc/Origin/Cells.antt =====
-- pkg/cc/origin.go: what the sections do to the clock and the queue of one partition and service.
use cs.Prelude.{ℕ, ◌+◌, ◌%◌, ◌^◌, String, Bool, true, false, ◌≡◌, ◌≢◌, ◌⊎◌, Option, none, some}
use cs.Prelude.Tests.{leb, ◌==◌, if◌then◌else◌}
use cs.Prelude.Lists.{get_elem?}
use cs.Prelude.Run.{ok}
use cs.Prelude.Tables.{map_get}
use cs.Cc.Clock
use cs.Cc.Origin.Queues.{WaitMsg, PriorityQueue}
use cs.Cc.Origin.{TxOriginManager}

module _ (pq : PriorityQueue) where
  -- The abstract state: the last timestamp that was processed, and the messages that wait.
  pub record Slot : Type 0 where
    pub clock : ℕ
    pub queue : pq.Queue

  -- A message that is no later than the clock is refused.
  unfoldable pub slot_enqueue : Slot → WaitMsg → Slot × Bool
  slot_enqueue slot msg =
      if leb msg.timestamp slot.clock
      then (slot, false)
      else (record slot { queue = pq.enqueue slot.queue msg }, true)

  unfoldable pub slot_advance : Slot → Slot
  slot_advance slot = record slot { clock = (slot.clock + 1) % 2 ^ 64 }

  abbrev pub slot_take : Slot → Option WaitMsg → Slot × Option WaitMsg
  slot_take slot none = (slot, none)
  slot_take slot (some top) =
      if top.timestamp == (slot.clock + 1) % 2 ^ 64
      then (record slot { queue = pq.dequeue slot.queue }, some top)
      else (slot, none)

  -- The earliest message is taken if it is the next one in order.
  unfoldable pub slot_next : Slot → Slot × Option WaitMsg
  slot_next slot = slot_take slot (pq.peek slot.queue)

  -- The manager has this slot for a partition and a service, and no section is being run.
  pub record At (mgr : TxOriginManager pq) (p : ℕ) (s : String) (slot : Slot) : Type 0 where
    pub clock_at : Clock.get mgr.clock_mgr p s ≡ ok slot.clock
    pub queue_at : map_get mgr.queues p s ≡ some slot.queue
    pub free : get_elem? mgr.prt_mgr.locks p ≡ some false

  -- The slots of the other partitions and services are the same.
  abbrev pub Elsewhere : ℕ → String → TxOriginManager pq → TxOriginManager pq → Type 0
  Elsewhere p s mgr mgr' =
      (q : ℕ) (t : String) (slot : Slot) → (q ≢ p) ⊎ (t ≢ s) → At mgr q t slot → At mgr' q t slot
