-- ===== src/Cc/Origin/Kept.antt =====
-- pkg/cc/origin.go: what holds between two sections, for one partition and service, at the start and
-- after enqueue and advance.
use mathlib.Core.Path.{ap₂}
use cs.Prelude.{
  ◌%◌, ℕ, zero, suc, ◌+◌, ◌^◌, ◌≤◌, ◌<◌, ◌≡◌, refl, ◌≢◌, ◌⊎◌, inl, inr, none, List, [], ◌∷◌, ◌++◌,
  arith,
}
use cs.Prelude.Tests.{◌==◌, Option-cases}
use cs.Prelude.Lists.{All, All-weaken, length, length-append}
use cs.Cc.Origin.Queues.{
  WaitMsg, PriorityQueue, waiting, waiting_enqueue, waiting_dequeue, waiting_least, waiting-none,
  one_if,
}
use cs.Cc.Origin.Cells.{Slot, slot_advance, slot_next}

-- The `n` timestamps that follow a clock.
pub seq : ℕ → ℕ → List ℕ
seq base zero = []
seq base (suc n) = seq base n ++ (base + suc n) ∷ []

pub seq_grows :
    (base x : ℕ) (granted : List ℕ)
    → granted ≡ seq base (length granted)
    → x ≡ base + suc (length granted)
    → granted ++ x ∷ [] ≡ seq base (length (granted ++ x ∷ []))
unfolding seq
seq_grows base x granted h e =
    let longer : length (granted ++ x ∷ []) ≡ suc (length granted) =
      omega (arith, length-append granted (x ∷ [])) in
    rw longer (ap₂ (λ g y. g ++ y ∷ []) h e)

module _ (pq : PriorityQueue) (base : ℕ) where
  -- `slot` is the slot of the partition and service; `base` is the clock at the start.
  pub record Inv (slot : Slot pq) (holders : List WaitMsg) (pending : ℕ)
      (submitted granted : List ℕ) : Type 0 where
    pub in_order : granted ≡ seq base (length granted)
    pub balance : slot.clock + length holders ≡ base + length granted
    pub single : length holders ≤ 1
    pub held : All (λ h. h.timestamp ≡ slot.clock + 1) holders
    pub held_once : All (λ h. waiting pq slot.queue h.timestamp ≡ 0) holders
    pub held_known : (t : ℕ) → All (λ u. u ≢ t) submitted → All (λ h. h.timestamp ≢ t) holders
    pub later : (t : ℕ) → 0 < waiting pq slot.queue t → slot.clock < t
    pub once : (t : ℕ) → waiting pq slot.queue t ≤ 1
    pub fits : (t : ℕ) → 0 < waiting pq slot.queue t → t < 2 ^ 64
    pub fits_held : All (λ h. h.timestamp < 2 ^ 64) holders
    pub known : (t : ℕ) → All (λ u. u ≢ t) submitted → waiting pq slot.queue t ≡ 0
    pub accounted :
        All
          (λ t.
            (t ≤ slot.clock)
            ⊎ ((0 < waiting pq slot.queue t) ⊎ ((0 < length holders) × (t ≡ slot.clock + 1))))
          submitted
    pub no_lost_wakeup : holders ≡ [] → 0 < waiting pq slot.queue (slot.clock + 1) → 0 < pending

  pub start-Inv :
      (slot : Slot pq)
      → slot.clock ≡ base
      → ((t : ℕ) → waiting pq slot.queue t ≡ 0)
      → Inv slot [] 0 [] []
  unfolding seq
  start-Inv slot e idle = record {
    in_order = refl;
    balance = omega arith;
    single = omega arith;
    held = tt;
    held_once = tt;
    held_known = λ t h. tt;
    later = λ t w. absurd (omega (arith, idle t));
    once = λ t. omega (arith, idle t);
    fits = λ t w. absurd (omega (arith, idle t));
    fits_held = tt;
    known = λ t h. idle t;
    accounted = tt;
    no_lost_wakeup = λ h w. absurd (omega (arith, idle (slot.clock + 1)));
  }

  -- If `next` takes nothing, the next message in order does not wait.
  pub never :
      (slot : Slot pq)
      → ((t : ℕ) → 0 < waiting pq slot.queue t → slot.clock < t)
      → ((t : ℕ) → 0 < waiting pq slot.queue t → t < 2 ^ 64)
      → (slot_next pq slot).1 ≡ none
      → 0 < waiting pq slot.queue (slot.clock + 1)
      → ⊥
  unfolding slot_next
  never slot later fits idle w = elim (Option-cases (pq.peek slot.queue)) [
    | inl e ↦ omega (arith, waiting-none pq slot.queue (slot.clock + 1) e)
    | inr (m, e) ↦ ground (
      arith,
      e,
      waiting_least pq slot.queue m (slot.clock + 1) e,
      waiting_dequeue pq slot.queue m m.timestamp e,
      later m.timestamp,
      fits (slot.clock + 1),
    )
  ]

  -- A message with a new timestamp joins the queue.
  pub enqueue-Inv :
      (slot : Slot pq) (holders : List WaitMsg) (pending : ℕ) (submitted granted : List ℕ)
      (msg : WaitMsg)
      → Inv slot holders pending submitted granted
      → All (λ t. t ≢ msg.timestamp) submitted
      → msg.timestamp < 2 ^ 64
      → slot.clock < msg.timestamp
      → Inv
          (record slot { queue = pq.enqueue slot.queue msg })
          holders
          (suc pending)
          (msg.timestamp ∷ submitted)
          granted
  enqueue-Inv slot holders pending submitted granted msg v new small early = record {
    in_order = v.in_order;
    balance = v.balance;
    single = v.single;
    held = v.held;
    held_once = still holders v.held_once (v.held_known msg.timestamp new);
    held_known = λ t h. v.held_known t h.1;
    later = λ t h. ground (arith, joined t, v.later t);
    once = λ t. ground (arith, joined t, v.once t, v.known msg.timestamp new);
    fits = λ t h. ground (arith, joined t, v.fits t);
    fits_held = v.fits_held;
    known = λ t h. ground (arith, joined t, v.known t h.1, h.0);
    accounted = (
      inr (inl (ground (arith, joined msg.timestamp))),
      All-weaken _ _ (λ t h. ground (arith, joined t)) submitted v.accounted,
    );
    no_lost_wakeup = λ e h. omega arith;
  }
    where
      joined :
          (t : ℕ)
          → waiting pq (pq.enqueue slot.queue msg) t
            ≡ one_if (msg.timestamp == t) + waiting pq slot.queue t
      joined t = waiting_enqueue pq slot.queue msg t

      still :
          (hs : List WaitMsg)
          → All (λ h. waiting pq slot.queue h.timestamp ≡ 0) hs
          → All (λ h. h.timestamp ≢ msg.timestamp) hs
          → All (λ h. waiting pq (pq.enqueue slot.queue msg) h.timestamp ≡ 0) hs
      still [] a b = tt
      still (h ∷ hs) (a, more) (b, bs) = (ground (arith, joined h.timestamp), still hs more bs)

  -- The only holder leaves, and the clock moves on.
  pub advance-Inv :
      (slot : Slot pq) (before after : List WaitMsg) (h : WaitMsg) (pending : ℕ)
      (submitted granted : List ℕ)
      → Inv slot (before ++ h ∷ after) pending submitted granted
      → Inv (slot_advance pq slot) (before ++ after) (suc pending) submitted granted
  unfolding slot_advance
  advance-Inv slot (x ∷ before) after h pending submitted granted v =
      absurd (omega (arith, v.single, length-append before (h ∷ after)))
  advance-Inv slot [] (x ∷ after) h pending submitted granted v = absurd (omega (arith, v.single))
  advance-Inv slot [] [] h pending submitted granted v = record {
    in_order = v.in_order;
    balance = omega (arith, v.balance, v.held.0, v.fits_held.0);
    single = omega arith;
    held = tt;
    held_once = tt;
    held_known = λ t e. tt;
    later = λ t w. later t w;
    once = v.once;
    fits = v.fits;
    fits_held = tt;
    known = v.known;
    accounted = All-weaken _ _ (λ t a. moved t a) submitted v.accounted;
    no_lost_wakeup = λ e w. omega arith;
  }
    where
      moved :
          (t : ℕ)
          → (t ≤ slot.clock) ⊎ ((0 < waiting pq slot.queue t) ⊎ ((0 < 1) × (t ≡ slot.clock + 1)))
          → (t ≤ (slot.clock + 1) % 2 ^ 64)
            ⊎ ((0 < waiting pq slot.queue t) ⊎ ((0 < 0) × (t ≡ (slot.clock + 1) % 2 ^ 64 + 1)))
      moved t (inl le) = inl (omega (arith, v.held.0, v.fits_held.0))
      moved t (inr (inl w)) = inr (inl w)
      moved t (inr (inr (_, e))) = inl (omega (arith, v.held.0, v.fits_held.0))

      later : (t : ℕ) → 0 < waiting pq slot.queue t → (slot.clock + 1) % 2 ^ 64 < t
      later t w = ground (arith, v.later t w, v.fits t w, v.held.0, v.held_once.0, v.fits_held.0)
      -- The earliest message is the next one in order, and its caller wakes: nobody held.
