-- ===== src/Cc/Origin/Turns.antt =====
-- pkg/cc/origin.go: a call of Acquire or Release from start to end, when no other comes between.
use cs.Prelude.{
  ℕ_discrete, ◌⊎◌, ◌%◌, ℕ, ◌+◌, ◌^◌, ◌≤◌, ◌<◌, String, true, false, Option, none, some, ◌≡◌, inl,
  inr, arith,
}
use mathlib.Core.Path.{subst}
use cs.Prelude.Tests.{Option-cases}
use cs.Prelude.Run.{ok}
use cs.Cc.Origin.Queues.{WaitMsg, PriorityQueue}
use cs.Cc.Origin.{TxOriginManager, acquire, release}
use cs.Cc.Origin.Cells.{Slot, At, slot_enqueue, slot_advance, slot_next}
use cs.Cc.Origin.Sections.{enqueue-slot_enqueue, advance-slot_advance, next-slot_next}

module _ (pq : PriorityQueue) where
  -- The clock moves on by one when a turn is given back.
  pub release-At :
      (mgr : TxOriginManager pq) (p : ℕ) (s : String) (slot : Slot pq)
      → At pq mgr p s slot
      → (mgr' : TxOriginManager pq) × (woken : Option WaitMsg) × (release pq mgr p s
          ≡ ok (mgr', woken))
        × At pq mgr' p s (slot_next pq (slot_advance pq slot)).0
  unfolding release
  release-At mgr p s slot at =
      let (mid, ran, at', _) = advance-slot_advance pq mgr p s slot at in
      let (mgr', ran', at'', _) = next-slot_next pq mid p s (slot_advance pq slot) at' in
      (mgr', (slot_next pq (slot_advance pq slot)).1, rw ran ran', at'')

  -- A message that the clock has passed is refused, and nothing changes.
  pub acquire-late :
      (mgr : TxOriginManager pq) (msg : WaitMsg) (slot : Slot pq)
      → At pq mgr msg.partition msg.service slot
      → msg.timestamp ≤ slot.clock
      → (mgr' : TxOriginManager pq) × (acquire pq mgr msg ≡ ok (mgr', false, none))
        × At pq mgr' msg.partition msg.service slot
  unfolding acquire slot_enqueue
  acquire-late mgr msg slot at late =
      let (mgr', ran, at', _) = enqueue-slot_enqueue pq mgr msg slot at in
      let same : slot_enqueue pq slot msg ≡ (slot, false) = ground arith in
      (mgr', ground (arith, ran), subst (λ r. At pq mgr' msg.partition msg.service r.0) same at')

  pub slot_next-clock : (slot : Slot pq) → (slot_next pq slot).0.clock ≡ slot.clock
  unfolding slot_next
  slot_next-clock slot = elim (Option-cases (pq.peek slot.queue)) [
    | inl e ↦ ground (arith, e)
    | inr (m, e) ↦ ground (arith, e)
  ]

  -- A message is the first of the queue, and has the timestamp after `t`.
  abbrev pub FirstAfter : pq.Queue → ℕ → WaitMsg → Type 0
  FirstAfter queue t msg = (pq.peek queue ≡ some msg) × (msg.timestamp ≡ (t + 1) % 2 ^ 64)

  -- `next` takes the first message if that is the next in order, and else none.
  pub slot_next-queue :
      (slot : Slot pq) (t : ℕ)
      → slot.clock ≡ t
      → ((¬ ((msg : WaitMsg) × FirstAfter slot.queue t msg))
          × ((slot_next pq slot).0.queue ≡ slot.queue))
        ⊎ ((msg : WaitMsg) × FirstAfter slot.queue t msg
            × ((slot_next pq slot).0.queue ≡ pq.dequeue slot.queue))
  unfolding slot_next
  slot_next-queue slot t clock = elim (Option-cases (pq.peek slot.queue)) [
    | inl e ↦ inl (λ (m, (there, due)). ground (arith, e, there), ground (arith, e))
    | inr (m, e) ↦ elim (ℕ_discrete m.timestamp ((slot.clock + 1) % 2 ^ 64)) [
      | yes due ↦ inr (m, (e, ground (arith, due, clock)), ground (arith, e, due))
      | no other ↦ inl (
        λ (m', (there, due)). ground (arith, e, there, due, other, clock),
        ground (arith, e, other),
      )
    ]
  ]

  -- A message that is the first of the queue once it is in it, and the next in order, is accepted
  -- and wakes its caller.
  pub acquire-due :
      (mgr : TxOriginManager pq) (msg : WaitMsg) (slot : Slot pq)
      → At pq mgr msg.partition msg.service slot
      → msg.timestamp ≡ slot.clock + 1
      → slot.clock + 1 < 2 ^ 64
      → pq.peek (pq.enqueue slot.queue msg) ≡ some msg
      → (mgr' : TxOriginManager pq) × (acquire pq mgr msg ≡ ok (mgr', true, some msg))
        × At pq mgr' msg.partition msg.service
            (record slot { queue = pq.dequeue (pq.enqueue slot.queue msg) })
  unfolding acquire slot_enqueue slot_next
  acquire-due mgr msg slot at due fits top =
      let (mid, ran, at', _) = enqueue-slot_enqueue pq mgr msg slot at in
      let full : Slot pq = record slot { queue = pq.enqueue slot.queue msg } in
      let put : slot_enqueue pq slot msg ≡ (full, true) = ground (arith, due) in
      let at_full = subst (λ r. At pq mid msg.partition msg.service r.0) put at' in
      let (mgr', ran', at'', _) = next-slot_next pq mid msg.partition msg.service full at_full in
      let took : slot_next pq full
          ≡ (record slot { queue = pq.dequeue (pq.enqueue slot.queue msg) }, some msg) =
        ground (arith, due, top, fits) in
      (
        mgr',
        ground (arith, ran, put, ran', took),
        subst (λ r. At pq mgr' msg.partition msg.service r.0) took at'',
      )
