-- ===== src/Cc/Origin/System.antt =====
-- pkg/cc/origin.go: the callers of `Acquire` and `Release` for one partition and service, as
-- interleavings of the sections that they run.
use cs.Prelude.{
  ℕ, suc, ◌^◌, ◌<◌, String, Bool, true, false, ◌≡◌, ◌≢◌, ◌⊎◌, Option, none, some, List, [], ◌∷◌,
  ◌++◌,
}
use cs.Prelude.Lists.{All}
use cs.Prelude.Run.{ok}
use cs.Cc.Origin.Queues.{WaitMsg, PriorityQueue}
use cs.Cc.Origin.{TxOriginManager, enqueue, advance, next}
use cs.Cc.Origin.Cells.{Slot, At}

module _ (pq : PriorityQueue) where
  -- `holders` have received on their channel, and have not released. `pending` callers have run
  -- `enqueue` or `advance`, and not yet the `next` that follows. The two lists are histories: the
  -- timestamps that were accepted, and those that were granted, in order.
  pub record System : Type 0 where
    pub mgr : TxOriginManager pq
    pub holders : List WaitMsg
    pub pending : ℕ
    pub submitted : List ℕ
    pub granted : List ℕ

  -- A section that is run for some partition and service.
  pub data Section (q : ℕ) (t : String) (mgr mgr' : TxOriginManager pq) : Type 0 where
    enqueues :
        (ts reply : ℕ) (b : Bool)
        → enqueue pq mgr (record { partition = q; service = t; timestamp = ts; reply = reply })
          ≡ ok (mgr', b)
        → Section q t mgr mgr'
    advances : advance pq mgr q t ≡ ok (mgr', tt) → Section q t mgr mgr'
    nexts : (woken : Option WaitMsg) → next pq mgr q t ≡ ok (mgr', woken) → Section q t mgr mgr'

  -- A message that `next` takes wakes its caller.
  abbrev pub woken_by : Option WaitMsg → List WaitMsg → List WaitMsg
  woken_by none holders = holders
  woken_by (some msg) holders = msg ∷ holders

  abbrev pub granted_by : Option WaitMsg → List ℕ → List ℕ
  granted_by none granted = granted
  granted_by (some msg) granted = granted ++ msg.timestamp ∷ []

  module _ (p : ℕ) (s : String) where
    abbrev pub message : ℕ → ℕ → WaitMsg
    message ts reply = record { partition = p; service = s; timestamp = ts; reply = reply }

    -- Every timestamp is accepted at most once, and fits a uint64.
    pub data Step (a b : System) : Type 0 where
      accept :
          (ts reply : ℕ) (mgr' : TxOriginManager pq)
          → All (λ t. t ≢ ts) a.submitted
          → ts < 2 ^ 64
          → enqueue pq a.mgr (message ts reply) ≡ ok (mgr', true)
          → b ≡ record a { mgr = mgr'; pending = suc a.pending; submitted = ts ∷ a.submitted }
          → Step a b
      refuse :
          (ts reply : ℕ) (mgr' : TxOriginManager pq)
          → enqueue pq a.mgr (message ts reply) ≡ ok (mgr', false)
          → b ≡ record a { mgr = mgr' }
          → Step a b
      call_next :
          (k : ℕ) (woken : Option WaitMsg) (mgr' : TxOriginManager pq)
          → a.pending ≡ suc k
          → next pq a.mgr p s ≡ ok (mgr', woken)
          → b ≡ record a {
            mgr = mgr';
            holders = woken_by woken a.holders;
            pending = k;
            granted = granted_by woken a.granted;
          }
          → Step a b
      release_one :
          (before after : List WaitMsg) (h : WaitMsg) (mgr' : TxOriginManager pq)
          → a.holders ≡ before ++ h ∷ after
          → advance pq a.mgr p s ≡ ok (mgr', tt)
          → b ≡ record a { mgr = mgr'; holders = before ++ after; pending = suc a.pending }
          → Step a b
      elsewhere :
          (q : ℕ) (t : String) (slot : Slot pq) (mgr' : TxOriginManager pq)
          → (p ≢ q) ⊎ (s ≢ t)
          → At pq a.mgr q t slot
          → Section q t a.mgr mgr'
          → b ≡ record a { mgr = mgr' }
          → Step a b

    pub data Reach (a : System) : System → Type 0 where
      here : Reach a a
      later : {b c : System} → Reach a b → Step b c → Reach a c

  -- Nobody waits, holds or has been granted anything yet.
  abbrev pub start : TxOriginManager pq → System
  start mgr = record { mgr = mgr; holders = []; pending = 0; submitted = []; granted = [] }
