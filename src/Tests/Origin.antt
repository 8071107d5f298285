-- ===== src/Tests/Origin.antt =====
-- pkg/cc/origin.go at a manager with one partition and one service.
use cs.Prelude.{
  ℕ, ◌+◌, ◌≤◌, ◌<◌, ◌≡◌, refl, false, true, none, some, List, [], ◌∷◌, arith, ℕ_discrete, inl,
}
use cs.Prelude.Tests.{string_discrete, nat_key, string_key}
use cs.Prelude.Map.{lookup, insert}
use cs.Prelude.Tables.{slice_get, slice_put, map_get, map_put}
use cs.Prelude.Run.{ok}
use cs.Prelude.Lists.{All}
use cs.Cc.Partition.{lock, unlock}
use cs.Cc.Clock.{TxClockManager, new_clock_manager}
use cs.Cc.Clock
use cs.Cc.Origin.Queues.{WaitMsg, list_queue, waiting, waiting_new, extract, place}
use cs.Cc.Origin.{
  TxOriginManager, enqueue, enqueue_section, advance, advance_section, next, next_section, queue_at,
  put_queue, locked, take_next,
}
use cs.Cc.Origin.Cells.{Slot, At, slot_enqueue, slot_advance, slot_next}
use cs.Cc.Origin.System.{
  System, Reach, here, later, accept, call_next, release_one, advances, start,
}
use cs.Cc.Origin.Order.{granted_in_order}
use cs.Cc.Origin.Kept.{seq}
use cs.Cc.Origin.Progress.{Submitted, all_granted}
use cs.Cc.Origin.Sections.{Refines, enqueue-slot_enqueue, advance-slot_advance, next-slot_next}
use cs.Cc.Origin.Stale.{none_yet, one_more, stale_blocks, two_holders}

abbrev with_state : ℕ → List WaitMsg → TxOriginManager list_queue
with_state clock queue = record {
  partitions = 1;
  queues = (0, ("users", queue) ∷ []) ∷ [];
  clock_mgr = record { partitions = 1; clocks = (("users", clock) ∷ []) ∷ [] };
  prt_mgr = record { partitions = 1; locks = false ∷ [] };
}

abbrev first : WaitMsg
first = record { partition = 0; service = "users"; timestamp = 1; reply = 7 }

abbrev second : WaitMsg
second = record first { reply = 8 }

idle_At :
    (clock : ℕ)
    → At list_queue (with_state clock []) 0 "users" (record { clock = clock; queue = [] })
unfolding Clock.get slice_get map_get lookup string_discrete ℕ_discrete
idle_At clock = record { clock_at = refl; queue_at = refl; free = refl }

twice_At :
    At list_queue
      (with_state 0 (second ∷ first ∷ []))
      0
      "users"
      (record { clock = 0; queue = second ∷ first ∷ [] })
unfolding Clock.get slice_get map_get lookup string_discrete ℕ_discrete
twice_At = record { clock_at = refl; queue_at = refl; free = refl }

late_At :
    At list_queue (with_state 1 (second ∷ [])) 0 "users" (record { clock = 1; queue = second ∷ [] })
unfolding Clock.get slice_get map_get lookup string_discrete ℕ_discrete
late_At = record { clock_at = refl; queue_at = refl; free = refl }

idle_waiting : (t : ℕ) → waiting list_queue [] t ≡ 0
idle_waiting t = waiting_new list_queue t

enqueue_first : enqueue list_queue (with_state 0 []) first ≡ ok (with_state 0 (first ∷ []), true)
unfolding enqueue enqueue_section locked lock Clock.get slice_get lookup string_discrete queue_at
    map_get ℕ_discrete put_queue map_put unlock insert
enqueue_first = refl

next-first :
    next list_queue (with_state 0 (first ∷ [])) 0 "users" ≡ ok (with_state 0 [], some first)
unfolding next next_section take_next extract place locked lock Clock.get slice_get lookup
    string_discrete queue_at map_get ℕ_discrete put_queue map_put unlock insert
next-first = refl

advance_first : advance list_queue (with_state 0 []) 0 "users" ≡ ok (with_state 1 [], tt)
unfolding advance advance_section Clock.inc slice_put locked lock Clock.get slice_get lookup
    string_discrete queue_at map_get ℕ_discrete put_queue map_put unlock insert
advance_first = refl

next-none : next list_queue (with_state 1 []) 0 "users" ≡ ok (with_state 1 [], none)
unfolding next next_section take_next extract place locked lock Clock.get slice_get lookup
    string_discrete queue_at map_get ℕ_discrete put_queue map_put unlock insert
next-none = refl

abbrev system : TxOriginManager list_queue → List WaitMsg → ℕ → List ℕ → System list_queue
system mgr holders pending granted = record {
  mgr = mgr;
  holders = holders;
  pending = pending;
  submitted = 1 ∷ [];
  granted = granted;
}

holding :
    Reach list_queue 0 "users"
      (start list_queue (with_state 0 []))
      (system (with_state 0 []) (first ∷ []) 0 (1 ∷ []))
holding =
    later (later here (accept 1 7 (with_state 0 (first ∷ [])) tt (omega arith) enqueue_first refl))
      (call_next 0 (some first) (with_state 0 []) refl next-first refl)

released :
    Reach list_queue 0 "users"
      (start list_queue (with_state 0 []))
      (system (with_state 1 []) [] 0 (1 ∷ []))
released =
    later (later holding (release_one [] [] first (with_state 1 []) refl advance_first refl))
      (call_next 0 none (with_state 1 []) refl next-none refl)

granted_in_order_example :
    (now : Slot list_queue) × At list_queue (with_state 0 []) 0 "users" now
    × (1 ∷ [] ≡ seq 0 1)
    × (1 ≤ 1)
    × All (λ h. h.timestamp ≡ now.clock + 1) (first ∷ [])
    × (now.clock + 1 ≡ 0 + 1)
granted_in_order_example =
    granted_in_order list_queue 0 "users" (with_state 0 []) (record { clock = 0; queue = [] })
      (system (with_state 0 []) (first ∷ []) 0 (1 ∷ [])) (idle_At 0) idle_waiting holding

only_first : (t : ℕ) → 0 < t → t ≤ 0 + 1 → Submitted t (1 ∷ [])
only_first t low high = inl (omega arith)

all_granted_example : (1 ∷ [] ≡ seq 0 1) × (1 ≤ 1)
all_granted_example =
    all_granted list_queue 0 "users" (with_state 0 []) (record { clock = 0; queue = [] })
      (system (with_state 1 []) [] 0 (1 ∷ [])) 1 (idle_At 0) idle_waiting released only_first refl
      refl

enqueue-slot_enqueue_example :
    Refines list_queue
      (with_state 0 [])
      0
      "users"
      (enqueue list_queue (with_state 0 []) first)
      (slot_enqueue list_queue (record { clock = 0; queue = [] }) first).0
      (slot_enqueue list_queue (record { clock = 0; queue = [] }) first).1
enqueue-slot_enqueue_example =
    enqueue-slot_enqueue list_queue (with_state 0 []) first (record { clock = 0; queue = [] })
      (idle_At 0)

advance_late :
    advance list_queue (with_state 1 (second ∷ [])) 0 "users" ≡ ok (with_state 2 (second ∷ []), tt)
unfolding advance advance_section Clock.inc slice_put locked lock Clock.get slice_get lookup
    string_discrete queue_at map_get ℕ_discrete put_queue map_put unlock insert
advance_late = refl

advance-slot_advance_example :
    Refines list_queue
      (with_state 0 [])
      0
      "users"
      (advance list_queue (with_state 0 []) 0 "users")
      (slot_advance list_queue (record { clock = 0; queue = [] }))
      tt
advance-slot_advance_example =
    advance-slot_advance list_queue (with_state 0 []) 0 "users" (record { clock = 0; queue = [] })
      (idle_At 0)

next-slot_next_example :
    Refines list_queue
      (with_state 0 (second ∷ first ∷ []))
      0
      "users"
      (next list_queue (with_state 0 (second ∷ first ∷ [])) 0 "users")
      (slot_next list_queue (record { clock = 0; queue = second ∷ first ∷ [] })).0
      (slot_next list_queue (record { clock = 0; queue = second ∷ first ∷ [] })).1
next-slot_next_example =
    next-slot_next list_queue (with_state 0 (second ∷ first ∷ [])) 0 "users"
      (record { clock = 0; queue = second ∷ first ∷ [] }) twice_At

late_waits : 0 < waiting list_queue (second ∷ []) 1
unfolding waiting
late_waits = omega arith

two_wait : 2 ≤ waiting list_queue (second ∷ first ∷ []) (0 + 1)
unfolding waiting
two_wait = omega arith

none_earlier : (t : ℕ) → 0 < waiting list_queue (second ∷ first ∷ []) t → 0 < t
unfolding waiting
none_earlier t h = ground (arith, h)

stale_blocks_example :
    (after : TxOriginManager list_queue) × (next list_queue (with_state 2 (second ∷ [])) 0 "users"
      ≡ ok (after, none))
stale_blocks_example =
    stale_blocks list_queue 0 "users" (with_state 1 (second ∷ [])) (with_state 2 (second ∷ []))
      (record { clock = 1; queue = second ∷ [] }) 1 1 late_At late_waits (omega arith) (omega arith)
      (one_more none_yet (advances advance_late))

two_holders_example :
    (once twice : TxOriginManager list_queue) × (one two : WaitMsg) × (next list_queue
        (with_state 0 (second ∷ first ∷ []))
        0
        "users"
      ≡ ok (once, some one))
    × (next list_queue once 0 "users" ≡ ok (twice, some two))
    × (one.timestamp ≡ 0 + 1)
    × (two.timestamp ≡ 0 + 1)
    × (list_queue.peek (second ∷ first ∷ []) ≡ some one)
    × (list_queue.peek (list_queue.dequeue (second ∷ first ∷ [])) ≡ some two)
    × At list_queue twice 0 "users" (record {
      clock = 0;
      queue = list_queue.dequeue (list_queue.dequeue (second ∷ first ∷ []));
    })
    × (waiting list_queue (list_queue.dequeue (list_queue.dequeue (second ∷ first ∷ []))) (0 + 1)
          + 2
        ≡ waiting list_queue (second ∷ first ∷ []) (0 + 1))
two_holders_example =
    two_holders list_queue 0 "users" (with_state 0 (second ∷ first ∷ []))
      (record { clock = 0; queue = second ∷ first ∷ [] }) twice_At none_earlier two_wait
      (omega arith)
