-- ===== src/Cc/Origin.antt =====
-- pkg/cc/origin.go: requests wait in a priority queue until the receiver's clock is one below their
-- timestamp. A section under the partition's mutex is one step: `enqueue`, `advance` and `next`.
pub mod Queues
pub mod Cells
pub mod Sections
pub mod System
pub mod Invariant
pub mod Kept
pub mod Order
pub mod Progress
pub mod Stale
pub mod Turns
use cs.Prelude.{ℕ, ◌+◌, ◌%◌, ◌^◌, String, Bool, true, false, Option, none, some, List, [], ◌∷◌}
use cs.Prelude.Tests.{leb, ◌==◌, if◌then◌else◌, nat_key}
use cs.Prelude.Map.{Map, insert}
use cs.Prelude.Run.{Run, ok, panic, blocked, ◌>>=◌, for_range_from}
use cs.Prelude.TableInit.{make_row, put_new}
use cs.Prelude.Tables.{map_get, map_put}
use cs.Cc.Partition.{gen_partitions, TxPartitionManager, lock, unlock}
use cs.Cc.Clock.{TxClockManager}
use cs.Cc.Clock
use Queues.{WaitMsg, PriorityQueue}

module _ (pq : PriorityQueue) where
  -- `map[uint64]map[string]*pq.Queue[WaitMsg]`; a cell that is missing holds nil.
  abbrev pub Queues : Type 0
  Queues = Map ℕ (Map String pq.Queue)

  -- The managers of the receiver's clocks and partitions are shared: their state is part of this.
  pub record TxOriginManager : Type 0 where
    pub partitions : ℕ
    pub queues : Queues
    pub clock_mgr : TxClockManager
    pub prt_mgr : TxPartitionManager

  unfoldable pub new_origin_manager : ℕ → TxClockManager → TxPartitionManager → Run TxOriginManager
  new_origin_manager n clock_mgr prt_mgr =
      for_range_from make_row (gen_partitions n) 0 [] >>= λ queues. ok (record {
        partitions = gen_partitions n;
        queues = queues;
        clock_mgr = clock_mgr;
        prt_mgr = prt_mgr;
      })

  unfoldable pub init : TxOriginManager → String → Run TxOriginManager
  init mgr service =
      for_range_from (put_new pq.new service) mgr.partitions 0 mgr.queues >>= λ queues.
      ok (record mgr { queues = queues })

  -- `Lock(partition); defer Unlock(partition)` around a section.
  unfoldable pub locked {ℓ} :
      {A : Type ℓ}
      → TxOriginManager
      → ℕ
      → (TxOriginManager → Run (TxOriginManager × A))
      → Run (TxOriginManager × A)
  locked mgr partition section = lock mgr.prt_mgr partition >>= λ held.
      section (record mgr { prt_mgr = held }) >>= λ (done, a).
      unlock done.prt_mgr partition >>= λ free. ok (record done { prt_mgr = free }, a)

  -- The pointer of a cell, which a call reads through.
  unfoldable pub queue_at : TxOriginManager → ℕ → String → Run pq.Queue
  queue_at mgr partition service = elim (map_get mgr.queues partition service) [
    | none ↦ panic
    | some q ↦ ok q
  ]

  -- A call that changes the queue of a cell.
  unfoldable pub put_queue : TxOriginManager → ℕ → String → pq.Queue → Run TxOriginManager
  put_queue mgr partition service q =
      map_put mgr.queues partition service q >>= λ queues. ok (record mgr { queues = queues })

  unfoldable pub enqueue_section : WaitMsg → TxOriginManager → Run (TxOriginManager × Bool)
  enqueue_section msg mgr = Clock.get mgr.clock_mgr msg.partition msg.service >>= λ curr_ts.
      if leb msg.timestamp curr_ts
      then ok (mgr, false)
      else (queue_at mgr msg.partition msg.service >>= λ q.
          put_queue mgr msg.partition msg.service (pq.enqueue q msg) >>= λ done. ok (done, true))

  unfoldable pub enqueue : TxOriginManager → WaitMsg → Run (TxOriginManager × Bool)
  enqueue mgr msg = locked mgr msg.partition (enqueue_section msg)

  unfoldable pub advance_section : ℕ → String → TxOriginManager → Run (TxOriginManager × Unit {0})
  advance_section partition service mgr = Clock.inc mgr.clock_mgr partition service >>= λ clock_mgr.
      ok (record mgr { clock_mgr = clock_mgr }, tt)

  unfoldable pub advance : TxOriginManager → ℕ → String → Run (TxOriginManager × Unit {0})
  advance mgr partition service = locked mgr partition (advance_section partition service)

  -- The message that is taken is sent on its channel by a new goroutine: it is the result.
  unfoldable pub take_next :
      ℕ
      → String
      → TxOriginManager
      → pq.Queue
      → Option WaitMsg
      → Run (TxOriginManager × Option WaitMsg)
  take_next partition service mgr q none = ok (mgr, none)
  take_next partition service mgr q (some top_msg) =
      Clock.get mgr.clock_mgr partition service >>= λ curr_ts.
      if top_msg.timestamp == (curr_ts + 1) % 2 ^ 64
      then (put_queue mgr partition service (pq.dequeue q) >>= λ done. ok (done, some top_msg))
      else ok (mgr, none)

  unfoldable pub next_section :
      ℕ → String → TxOriginManager → Run (TxOriginManager × Option WaitMsg)
  next_section partition service mgr =
      queue_at mgr partition service >>= λ q. take_next partition service mgr q (pq.peek q)

  unfoldable pub next : TxOriginManager → ℕ → String → Run (TxOriginManager × Option WaitMsg)
  next mgr partition service = locked mgr partition (next_section partition service)

  -- `Release`, when no other call comes between its two sections.
  unfoldable pub release : TxOriginManager → ℕ → String → Run (TxOriginManager × Option WaitMsg)
  release mgr partition service =
      advance mgr partition service >>= λ (done, _). next done partition service

  -- `Acquire` up to the receive on the message's channel, when no other call comes between its two
  -- sections. The caller of a message that was accepted waits until the message is a result of
  -- some `next`.
  unfoldable pub acquire : TxOriginManager → WaitMsg → Run (TxOriginManager × Bool × Option WaitMsg)
  acquire mgr msg = enqueue mgr msg >>= λ (done, accepted).
      if accepted
      then (next done msg.partition msg.service >>= λ (last, woken). ok (last, true, woken))
      else ok (done, false, none)

  -- `<-msg.reply`: the channel of a message that `next` took.
  unfoldable pub receive : WaitMsg → Option WaitMsg → Run (Unit {0})
  receive msg none = blocked
  receive msg (some woken) = if woken.reply == msg.reply then ok tt else blocked

  -- `Acquire` with its wait, when no other call comes in between: if the message is not taken by its
  -- own `next`, nobody wakes the caller. Its result is whether the message was accepted.
  unfoldable pub acquire_turn : TxOriginManager → WaitMsg → Run (TxOriginManager × Bool)
  acquire_turn mgr msg = acquire mgr msg >>= λ (mgr', accepted, woken).
      if accepted then (receive msg woken >>= λ _. ok (mgr', true)) else ok (mgr', false)
