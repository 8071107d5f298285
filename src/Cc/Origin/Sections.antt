-- ===== src/Cc/Origin/Sections.antt =====
-- pkg/cc/origin.go: each section of the manager does to the slot of its partition and service what
-- the abstract operation does, and nothing to the other slots.
use cs.Prelude.{
  ℕ, ◌+◌, ◌%◌, ◌^◌, String, true, false, ◌≡◌, refl, inl, inr, Option, none, some, arith,
}
use cs.Prelude.Tests.{leb, ◌==◌, Bool-cases, Option-cases, nat_key, string_key}
use cs.Prelude.Lists.{get_elem?}
use cs.Prelude.Map.{lookup, insert}
use cs.Prelude.Run.{Run, ok}
use cs.Prelude.Tables.{map_get, map_put, map_get-map_put}
use cs.Cc.Partition.{TxPartitionManager}
use cs.Cc.Partition.Bounds.{lock_held}
use cs.Cc.Clock.Cells.{get-inc}
use cs.Cc.Origin.Queues.{WaitMsg, PriorityQueue}
use cs.Cc.Origin.{
  Queues, TxOriginManager, locked, enqueue_section, enqueue, advance_section, advance, next_section,
  take_next, next, put_queue, queue_at,
}
use cs.Cc.Origin.Cells.{Slot, slot_enqueue, slot_advance, slot_take, slot_next, At, Elsewhere}

module _ (pq : PriorityQueue) where
  -- A section that leaves the mutexes alone runs under a free one, and frees it again.
  locked_lem {ℓ} :
      {A : Type ℓ} (mgr done : TxOriginManager pq) (p : ℕ) (a : A)
      (section : TxOriginManager pq → Run (TxOriginManager pq × A))
      → get_elem? mgr.prt_mgr.locks p ≡ some false
      → ((held : TxPartitionManager)
          → section (record mgr { prt_mgr = held }) ≡ ok (record done { prt_mgr = held }, a))
      → locked pq mgr p section ≡ ok (record done { prt_mgr = mgr.prt_mgr }, a)
  unfolding locked
  locked_lem mgr done p a section free run =
      let (held, locks, unlocks) = lock_held mgr.prt_mgr p free in
      rw locks (rw (run held) (rw unlocks refl))

  put_lem :
      (queues : Queues pq) (p : ℕ) (s : String) (q q' : pq.Queue)
      → map_get queues p s ≡ some q
      → (queues' : Queues pq) × (map_put queues p s q' ≡ ok queues')
  unfolding map_get map_put
  put_lem queues p s q q' e = elim (Option-cases (lookup p queues)) [
    | inl missing ↦ ground (arith, missing)
    | inr (row, here) ↦ (insert p (insert s q' row) queues, rw (here, map_put) refl)
  ]

  queue_at_lem :
      (mgr : TxOriginManager pq) (p : ℕ) (s : String) (q : pq.Queue)
      → map_get mgr.queues p s ≡ some q
      → queue_at pq mgr p s ≡ ok q
  unfolding queue_at
  queue_at_lem mgr p s q e = rw (e, queue_at)

  put_queue_lem :
      (mgr : TxOriginManager pq) (p : ℕ) (s : String) (q : pq.Queue) (queues : Queues pq)
      → map_put mgr.queues p s q ≡ ok queues
      → put_queue pq mgr p s q ≡ ok (record mgr { queues = queues })
  unfolding put_queue
  put_queue_lem mgr p s q queues ran = rw ran refl

  -- Writing a queue back changes one slot.
  put_At :
      (mgr : TxOriginManager pq) (p : ℕ) (s : String) (slot : Slot pq) (q' : pq.Queue)
      (queues' : Queues pq)
      → At pq mgr p s slot
      → map_put mgr.queues p s q' ≡ ok queues'
      → At pq (record mgr { queues = queues' }) p s (record slot { queue = q' })
        × Elsewhere pq p s mgr (record mgr { queues = queues' })
  put_At mgr p s slot q' queues' at ran = (
    record {
      clock_at = at.clock_at;
      queue_at = ground (arith, map_get-map_put mgr.queues queues' p p s s q' ran);
      free = at.free;
    },
    λ q t other differs at'. record {
      clock_at = at'.clock_at;
      queue_at =
          ground (arith, map_get-map_put mgr.queues queues' p q s t q' ran, at'.queue_at, differs);
      free = at'.free;
    },
  )

  -- What each refinement says: the call runs, its result and the new slot are the abstract ones,
  -- and the other slots are the same.
  abbrev pub Refines {ℓ} :
      {A : Type ℓ}
      → TxOriginManager pq
      → ℕ
      → String
      → Run (TxOriginManager pq × A)
      → Slot pq
      → A
      → Type ℓ
  Refines mgr p s call slot a =
      (mgr' : TxOriginManager pq) × (call ≡ ok (mgr', a))
      × At pq mgr' p s slot
      × Elsewhere pq p s mgr mgr'

  -- `enqueue` implements the abstract operation: a message no later than the clock is refused and
  -- nothing changes; a later one is put into the queue of its partition and service.
  pub enqueue-slot_enqueue :
      (mgr : TxOriginManager pq) (msg : WaitMsg) (slot : Slot pq)
      → At pq mgr msg.partition msg.service slot
      → Refines mgr msg.partition msg.service
          (enqueue pq mgr msg)
          (slot_enqueue pq slot msg).0
          (slot_enqueue pq slot msg).1
  unfolding enqueue enqueue_section slot_enqueue
  enqueue-slot_enqueue mgr msg slot at = elim (Bool-cases (leb msg.timestamp slot.clock)) [
    | inl late ↦ rw late (
      mgr,
      locked_lem mgr mgr msg.partition false (enqueue_section pq msg) at.free
          (λ held. rw at.clock_at (rw late refl)),
      at,
      λ q t other differs at'. at',
    )
    | inr early ↦
        let (queues, ran) =
          put_lem mgr.queues msg.partition msg.service slot.queue (pq.enqueue slot.queue msg)
            at.queue_at in
        let (here, there) =
          put_At mgr msg.partition msg.service slot (pq.enqueue slot.queue msg) queues at ran in
        rw early (
          record mgr { queues = queues },
          locked_lem mgr (record mgr { queues = queues }) msg.partition true
              (enqueue_section pq msg) at.free
              (λ held. rw at.clock_at (
                rw early (
                  rw (queue_at_lem (record mgr { prt_mgr = held }) _ _ _ at.queue_at)
                    (rw (put_queue_lem (record mgr { prt_mgr = held }) _ _ _ _ ran) refl)))),
          here,
          there,
        )
  ]

  -- `advance` implements the abstract operation: it adds one to the clock.
  pub advance-slot_advance :
      (mgr : TxOriginManager pq) (p : ℕ) (s : String) (slot : Slot pq)
      → At pq mgr p s slot
      → Refines mgr p s (advance pq mgr p s) (slot_advance pq slot) tt
  unfolding advance advance_section slot_advance
  advance-slot_advance mgr p s slot at =
      let (clocks, ran, _, reads) = get-inc mgr.clock_mgr p s slot.clock at.clock_at in
      (
        record mgr { clock_mgr = clocks },
        locked_lem mgr (record mgr { clock_mgr = clocks }) p tt (advance_section pq p s) at.free
            (λ held. rw ran refl),
        record { clock_at = ground (arith, reads p s); queue_at = at.queue_at; free = at.free },
        λ q t other differs at'. record {
          clock_at = ground (arith, reads q t, at'.clock_at, differs);
          queue_at = at'.queue_at;
          free = at'.free;
        },
      )

  next-At :
      (mgr : TxOriginManager pq) (p : ℕ) (s : String) (slot : Slot pq) (top : Option WaitMsg)
      → At pq mgr p s slot
      → pq.peek slot.queue ≡ top
      → Refines mgr p s (next pq mgr p s) (slot_take pq slot top).0 (slot_take pq slot top).1
  unfolding next next_section take_next
  next-At mgr p s slot none at e = (
    mgr,
    locked_lem mgr mgr p none (next_section pq p s) at.free
        (λ held. rw (queue_at_lem (record mgr { prt_mgr = held }) _ _ _ at.queue_at) (rw e refl)),
    at,
    λ q t other differs at'. at',
  )
  next-At mgr p s slot (some top) at e =
      elim (Bool-cases (top.timestamp == (slot.clock + 1) % 2 ^ 64)) [
        | inl ready ↦
            let (queues, ran) =
              put_lem mgr.queues p s slot.queue (pq.dequeue slot.queue) at.queue_at in
            let (here, there) = put_At mgr p s slot (pq.dequeue slot.queue) queues at ran in
            rw ready (
              record mgr { queues = queues },
              locked_lem mgr (record mgr { queues = queues }) p (some top) (next_section pq p s)
                  at.free
                  (λ held. rw (queue_at_lem (record mgr { prt_mgr = held }) _ _ _ at.queue_at) (
                    rw e (
                      rw at.clock_at (
                        rw ready
                          (rw (put_queue_lem (record mgr { prt_mgr = held }) _ _ _ _ ran) refl))))),
              here,
              there,
            )
        | inr early ↦ rw early (
          mgr,
          locked_lem mgr mgr p none (next_section pq p s) at.free (λ held.
              rw (queue_at_lem (record mgr { prt_mgr = held }) _ _ _ at.queue_at)
                (rw e (rw at.clock_at (rw early refl)))),
          at,
          λ q t other differs at'. at',
        )
      ]

  -- `next` implements the abstract operation: it takes the earliest message if that is the next one
  -- in order, and otherwise changes nothing.
  pub next-slot_next :
      (mgr : TxOriginManager pq) (p : ℕ) (s : String) (slot : Slot pq)
      → At pq mgr p s slot
      → Refines mgr p s (next pq mgr p s) (slot_next pq slot).0 (slot_next pq slot).1
  unfolding slot_next
  next-slot_next mgr p s slot at = next-At mgr p s slot (pq.peek slot.queue) at refl
