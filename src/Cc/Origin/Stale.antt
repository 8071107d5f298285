-- ===== src/Cc/Origin/Stale.antt =====
-- pkg/cc/origin.go: what becomes of a partition and service if a timestamp is accepted twice.
use mathlib.Core.Path.{subst}
use cs.Prelude.{ℕ, suc, ◌+◌, ◌^◌, ◌≤◌, ◌<◌, String, ◌≡◌, ap, ◌∙◌, inl, inr, none, some, arith}
use cs.Prelude.Tests.{Option-cases}
use cs.Prelude.Run.{ok}
use cs.Cc.Origin.Queues.{
  WaitMsg, PriorityQueue, waiting, waiting_enqueue, waiting_dequeue, waiting_least, waiting-none,
}
use cs.Cc.Origin.{TxOriginManager, enqueue, advance, next}
use cs.Cc.Origin.Cells.{Slot, At, slot_enqueue, slot_advance, slot_take, slot_next}
use cs.Cc.Origin.Sections.{enqueue-slot_enqueue, advance-slot_advance, next-slot_next}
use cs.Cc.Origin.System.{Section, enqueues, advances, nexts, message}
use cs.Cc.Origin.Order.{did}

module _ (pq : PriorityQueue) (p : ℕ) (s : String) where
  -- `n` sections of the partition and service, whatever their timestamps are.
  pub data Sections (mgr : TxOriginManager pq) : ℕ → TxOriginManager pq → Type 0 where
    none_yet : Sections mgr 0 mgr
    one_more :
        {n : ℕ} {a b : TxOriginManager pq}
        → Sections mgr n a
        → Section pq p s a b
        → Sections mgr (suc n) b

  -- A message waits whose timestamp the clock has passed; the clock is not near its end.
  abbrev IsStale : ℕ → ℕ → Slot pq → Type 0
  IsStale t n slot = (0 < waiting pq slot.queue t) × (t ≤ slot.clock) × (slot.clock + n < 2 ^ 64)

  slot_next_stale : (t : ℕ) (slot : Slot pq) → IsStale t 1 slot → slot_next pq slot ≡ (slot, none)
  unfolding slot_next
  slot_next_stale t slot (w, le, small) = elim (Option-cases (pq.peek slot.queue)) [
    | inl e ↦ rw (e, slot_take)
    | inr (m, e) ↦ ground (arith, e, waiting_least pq slot.queue m t e)
  ]

  Section-IsStale :
      (t n : ℕ) (a b : TxOriginManager pq) (slot : Slot pq)
      → Section pq p s a b
      → At pq a p s slot
      → IsStale t (suc n) slot
      → (slot' : Slot pq) × At pq b p s slot' × IsStale t n slot'
  unfolding slot_enqueue slot_advance
  Section-IsStale t n a b slot (enqueues ts reply ok? ran) at (w, le, small) =
      let msg = message pq p s ts reply in
      let (at', _, _) =
        did pq a p s (enqueue pq a msg) (slot_enqueue pq slot msg).0 (slot_enqueue pq slot msg).1
          ok? b (enqueue-slot_enqueue pq a msg slot at) ran in
      (
        (slot_enqueue pq slot msg).0,
        at',
        (ground (arith, waiting_enqueue pq slot.queue msg t), ground arith, ground arith),
      )
  Section-IsStale t n a b slot (advances ran) at (w, le, small) =
      let (at', _, _) =
        did pq a p s (advance pq a p s) (slot_advance pq slot) tt tt b
          (advance-slot_advance pq a p s slot at) ran in
      (slot_advance pq slot, at', (w, omega arith, omega arith))
  Section-IsStale t n a b slot (nexts woken ran) at (w, le, small) =
      let (at', _, _) =
        did pq a p s (next pq a p s) (slot_next pq slot).0 (slot_next pq slot).1 woken b
          (next-slot_next pq a p s slot at) ran in
      (
        slot,
        subst (λ r. At pq b p s r.0) (slot_next_stale t slot (w, le, omega arith)) at',
        (w, le, omega arith),
      )

  Sections-IsStale :
      (t : ℕ) (a : TxOriginManager pq) (slot : Slot pq) (n k : ℕ) (b : TxOriginManager pq)
      → Sections a n b
      → At pq a p s slot
      → IsStale t (n + k) slot
      → (slot' : Slot pq) × At pq b p s slot' × IsStale t k slot'
  Sections-IsStale t a slot n k b none_yet at stale =
      (slot, at, (stale.0, stale.1, omega (arith, stale.2)))
  Sections-IsStale t a slot m k c (one_more {n = n} {a = b} run section) at stale =
      let (slot', at', stale') =
        Sections-IsStale t a slot n (suc k) b run at (stale.0, stale.1, omega (arith, stale.2)) in
      Section-IsStale t k b c slot' section at' stale'

  -- Once a message waits whose timestamp the clock has reached, the partition and service is dead:
  -- after any number of further sections (fewer than the clock can count), `next` wakes nobody.
  pub stale_blocks :
      (mgr mgr' : TxOriginManager pq) (slot : Slot pq) (t n : ℕ)
      → At pq mgr p s slot
      → 0 < waiting pq slot.queue t
      → t ≤ slot.clock
      → slot.clock + n + 1 < 2 ^ 64
      → Sections mgr n mgr'
      → (after : TxOriginManager pq) × (next pq mgr' p s ≡ ok (after, none))
  stale_blocks mgr mgr' slot t n at w le small run =
      let (slot', at', stale) = Sections-IsStale t mgr slot n 1 mgr' run at (w, le, omega arith) in
      let (after, ran, _, _) = next-slot_next pq mgr' p s slot' at' in
      (after, ran ∙ ap (λ r. ok (after, r.1)) (slot_next_stale t slot' stale))

  -- If no earlier message waits, `next` takes one with the next timestamp in order.
  slot_next_first :
      (slot : Slot pq)
      → ((t : ℕ) → 0 < waiting pq slot.queue t → slot.clock < t)
      → 0 < waiting pq slot.queue (slot.clock + 1)
      → slot.clock + 1 < 2 ^ 64
      → (msg : WaitMsg) × (pq.peek slot.queue ≡ some msg)
        × (msg.timestamp ≡ slot.clock + 1)
        × (slot_next pq slot ≡ (record slot { queue = pq.dequeue slot.queue }, some msg))
  unfolding slot_next
  slot_next_first slot later w small = elim (Option-cases (pq.peek slot.queue)) [
    | inl e ↦ absurd (omega (arith, waiting-none pq slot.queue (slot.clock + 1) e))
    | inr (msg, e) ↦
        let ready : msg.timestamp ≡ slot.clock + 1 = ground (
          arith,
          waiting_least pq slot.queue msg (slot.clock + 1) e,
          waiting_dequeue pq slot.queue msg msg.timestamp e,
          later msg.timestamp,
        ) in
        (msg, e, ready, ground (arith, e))
  ]

  -- If two messages wait with the timestamp that follows the clock, and none with an earlier one,
  -- then two calls of `next` wake two callers, with no release in between: the first call takes the
  -- first message of the queue and the second call the first of those left, each is taken out of the
  -- queue, so that two fewer wait with the timestamp, and the clock is as before. Both hold.
  pub two_holders :
      (mgr : TxOriginManager pq) (slot : Slot pq)
      → At pq mgr p s slot
      → ((t : ℕ) → 0 < waiting pq slot.queue t → slot.clock < t)
      → 2 ≤ waiting pq slot.queue (slot.clock + 1)
      → slot.clock + 1 < 2 ^ 64
      → (once twice : TxOriginManager pq) × (first second : WaitMsg) × (next pq mgr p s
          ≡ ok (once, some first))
        × (next pq once p s ≡ ok (twice, some second))
        × (first.timestamp ≡ slot.clock + 1)
        × (second.timestamp ≡ slot.clock + 1)
        × (pq.peek slot.queue ≡ some first)
        × (pq.peek (pq.dequeue slot.queue) ≡ some second)
        × At pq twice p s (record slot { queue = pq.dequeue (pq.dequeue slot.queue) })
        × (waiting pq (pq.dequeue (pq.dequeue slot.queue)) (slot.clock + 1) + 2
            ≡ waiting pq slot.queue (slot.clock + 1))
  two_holders mgr slot at later two small =
      let (first, top, ready, took) = slot_next_first slot later (omega arith) small in
      let left = λ (t : ℕ). waiting_dequeue pq slot.queue first t top in
      let rest : Slot pq = record slot { queue = pq.dequeue slot.queue } in
      let (second, top', ready', took') =
        slot_next_first rest (λ t w. later t (omega (arith, left t)))
          (ground (arith, left (slot.clock + 1))) small in
      let (once, ran, at', _) = next-slot_next pq mgr p s slot at in
      let (twice, ran', at'', _) =
        next-slot_next pq once p s rest (subst (λ r. At pq once p s r.0) took at') in
      (
        once,
        twice,
        first,
        second,
        ran ∙ ap (λ r. ok (once, r.1)) took,
        ran' ∙ ap (λ r. ok (twice, r.1)) took',
        ready,
        ready',
        top,
        top',
        subst (λ r. At pq twice p s r.0) took' at'',
        ground (
          arith,
          left (slot.clock + 1),
          waiting_dequeue pq (pq.dequeue slot.queue) second (slot.clock + 1) top',
          ready,
          ready',
          two,
        ),
      )
