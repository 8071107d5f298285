-- ===== src/Cc/Origin/Invariant.antt =====
-- pkg/cc/origin.go: what holds between two sections, for one partition and service.
use cs.Prelude.{
  ◌%◌, ℕ, suc, ◌+◌, ◌^◌, ◌≤◌, ◌<◌, true, false, ◌≡◌, refl, ap, ◌∙◌, ◌≢◌, ◌⊎◌, inl, inr, Option,
  none, some, List, [], ◌∷◌, ◌++◌, arith,
}
use cs.Prelude.Tests.{◌==◌, leb, Bool-cases}
use cs.Prelude.Lists.{All, All-weaken, length, length-append}
use cs.Cc.Origin.Queues.{WaitMsg, PriorityQueue, waiting, waiting_dequeue, one_if}
use cs.Cc.Origin.Cells.{Slot, slot_enqueue, slot_next, slot_take}
use cs.Cc.Origin.System.{woken_by, granted_by}
use cs.Cc.Origin.Kept.{seq, seq_grows, Inv, never, enqueue-Inv}

module _ (pq : PriorityQueue) (base : ℕ) where
  pub take-Inv :
      (slot : Slot pq) (holders : List WaitMsg) (pending : ℕ) (submitted granted : List ℕ)
      (msg : WaitMsg)
      → Inv pq base slot holders (suc pending) submitted granted
      → pq.peek slot.queue ≡ some msg
      → msg.timestamp ≡ (slot.clock + 1) % 2 ^ 64
      → Inv pq base
          (record slot { queue = pq.dequeue slot.queue })
          (msg ∷ holders)
          pending
          submitted
          (granted ++ msg.timestamp ∷ [])
  take-Inv slot (h ∷ holders) pending submitted granted msg v top ready = absurd (
      ground (
        arith,
        waiting_dequeue pq slot.queue msg msg.timestamp top,
        v.later msg.timestamp,
        v.fits msg.timestamp,
        v.held.0,
        v.held_once.0,
      ))
  take-Inv slot [] pending submitted granted msg v top ready = record {
    in_order = order;
    balance = omega (arith, v.balance, length-append granted (msg.timestamp ∷ []));
    single = omega arith;
    held = (is_next, tt);
    held_once = (gone, tt);
    held_known = λ t e. (ground (arith, v.known t e, there), tt);
    later = λ t w. v.later t (omega (arith, left t));
    once = λ t. omega (arith, left t, v.once t);
    fits = λ t w. v.fits t (omega (arith, left t));
    fits_held = (v.fits msg.timestamp there, tt);
    known = λ t e. omega (arith, left t, v.known t e);
    accounted = All-weaken _ _ (λ t a. taken t a) submitted v.accounted;
    no_lost_wakeup = λ e w. cc;
  }
    where
      left :
          (t : ℕ)
          → waiting pq slot.queue t
            ≡ one_if (msg.timestamp == t) + waiting pq (pq.dequeue slot.queue) t
      left t = waiting_dequeue pq slot.queue msg t top

      there : 0 < waiting pq slot.queue msg.timestamp
      there = ground (arith, left msg.timestamp)

      gone : waiting pq (pq.dequeue slot.queue) msg.timestamp ≡ 0
      gone = ground (arith, left msg.timestamp, v.once msg.timestamp)

      is_next : msg.timestamp ≡ slot.clock + 1
      is_next = omega (arith, ready, v.later msg.timestamp there, v.fits msg.timestamp there)

      taken :
          (t : ℕ)
          → (t ≤ slot.clock) ⊎ ((0 < waiting pq slot.queue t) ⊎ ((0 < 0) × (t ≡ slot.clock + 1)))
          → (t ≤ slot.clock)
            ⊎ ((0 < waiting pq (pq.dequeue slot.queue) t) ⊎ ((0 < 1) × (t ≡ slot.clock + 1)))
      taken t (inl le) = inl le
      taken t (inr (inl w)) = ground (arith, left t, is_next, w)
      taken t (inr (inr (h, _))) = absurd (omega arith)

      order : granted ++ msg.timestamp ∷ [] ≡ seq base (length (granted ++ msg.timestamp ∷ []))
      order = seq_grows base msg.timestamp granted v.in_order (omega (arith, is_next, v.balance))

  -- No message is the next one in order.
  pub idle-Inv :
      (slot : Slot pq) (holders : List WaitMsg) (pending : ℕ) (submitted granted : List ℕ)
      → Inv pq base slot holders (suc pending) submitted granted
      → (slot_next pq slot).1 ≡ none
      → Inv pq base slot holders pending submitted granted
  idle-Inv slot holders pending submitted granted v idle = record {
    in_order = v.in_order;
    balance = v.balance;
    single = v.single;
    held = v.held;
    held_once = v.held_once;
    held_known = v.held_known;
    later = v.later;
    once = v.once;
    fits = v.fits;
    fits_held = v.fits_held;
    known = v.known;
    accounted = v.accounted;
    no_lost_wakeup = λ e w. absurd (never pq base slot v.later v.fits idle w);
  }

  -- What `enqueue` does to the invariant, by its result.
  pub slot_enqueue-Inv :
      (slot : Slot pq) (holders : List WaitMsg) (pending : ℕ) (submitted granted : List ℕ)
      (msg : WaitMsg)
      → Inv pq base slot holders pending submitted granted
      → ((slot_enqueue pq slot msg).1 ≡ false
          → Inv pq base (slot_enqueue pq slot msg).0 holders pending submitted granted)
        × (All (λ t. t ≢ msg.timestamp) submitted
            → msg.timestamp < 2 ^ 64
            → (slot_enqueue pq slot msg).1 ≡ true
            → Inv pq base
                (slot_enqueue pq slot msg).0
                holders
                (suc pending)
                (msg.timestamp ∷ submitted)
                granted)
  unfolding slot_enqueue
  slot_enqueue-Inv slot holders pending submitted granted msg v =
      elim (Bool-cases (leb msg.timestamp slot.clock)) [
        | inl late ↦ rw late (λ _. v, λ new small took. cc)
        | inr early ↦ rw early (
          λ took. cc,
          λ new small _.
              enqueue-Inv pq base slot holders pending submitted granted msg v new small
                (ground arith),
        )
      ]

  -- What `next` does to the invariant.
  pub slot_next-Inv :
      (slot : Slot pq) (holders : List WaitMsg) (pending : ℕ) (submitted granted : List ℕ)
      → Inv pq base slot holders (suc pending) submitted granted
      → Inv pq base
          (slot_next pq slot).0
          (woken_by pq (slot_next pq slot).1 holders)
          pending
          submitted
          (granted_by pq (slot_next pq slot).1 granted)
  unfolding slot_next
  slot_next-Inv slot holders pending submitted granted v = go (pq.peek slot.queue) refl
    where
      quiet :
          (top : Option WaitMsg)
          → pq.peek slot.queue ≡ top
          → (slot_take pq slot top).1 ≡ none
          → Inv pq base slot holders pending submitted granted
      quiet top e idle =
          idle-Inv slot holders pending submitted granted v
            (ap (λ o. (slot_take pq slot o).1) e ∙ idle)

      go :
          (top : Option WaitMsg)
          → pq.peek slot.queue ≡ top
          → Inv pq base
              (slot_take pq slot top).0
              (woken_by pq (slot_take pq slot top).1 holders)
              pending
              submitted
              (granted_by pq (slot_take pq slot top).1 granted)
      go none e = quiet none e refl
      go (some msg) e = elim (Bool-cases (msg.timestamp == (slot.clock + 1) % 2 ^ 64)) [
        | inl ready ↦
            rw ready (take-Inv slot holders pending submitted granted msg v e (ground arith))
        | inr early ↦ rw early (quiet (some msg) e (rw early refl))
      ]
