-- ===== src/Cc/Origin/Order.antt =====
-- pkg/cc/origin.go: at most one caller holds a partition and service, and the grants are in the
-- order of the timestamps, with none left out.
use mathlib.Core.Path.{subst}
use cs.Prelude.{
  ℕ, suc, ◌+◌, ◌^◌, ◌≤◌, ◌<◌, String, true, false, ◌≡◌, refl, sym, ◌≢◌, ◌⊎◌, Option, List, ◌∷◌,
  ◌++◌,
}
use cs.Prelude.Lists.{All, length}
use cs.Prelude.Run.{Run, ok}
use cs.Cc.Origin.Queues.{WaitMsg, PriorityQueue, waiting}
use cs.Cc.Origin.{TxOriginManager, enqueue, advance, next}
use cs.Cc.Origin.Cells.{Slot, At, Elsewhere, slot_enqueue, slot_advance, slot_next}
use cs.Cc.Origin.Sections.{enqueue-slot_enqueue, advance-slot_advance, next-slot_next, Refines}
use cs.Cc.Origin.System.{
  System, Section, enqueues, advances, nexts, Step, accept, refuse, call_next, release_one,
  elsewhere, Reach, here, later, start, message, woken_by, granted_by,
}
use cs.Cc.Origin.Invariant.{slot_enqueue-Inv, slot_next-Inv}
use cs.Cc.Origin.Kept.{Inv, seq, start-Inv, advance-Inv}

module _ (pq : PriorityQueue) where
  -- What a section did, from its result.
  pub did {ℓ} :
      {A : Type ℓ} (mgr : TxOriginManager pq) (p : ℕ) (s : String)
      (call : Run (TxOriginManager pq × A)) (slot : Slot pq) (a a' : A) (mgr' : TxOriginManager pq)
      → Refines pq mgr p s call slot a
      → call ≡ ok (mgr', a')
      → At pq mgr' p s slot × (a ≡ a') × Elsewhere pq p s mgr mgr'
  did mgr p s call slot a a' mgr' (done, ran, at, there) e =
      let same : done ≡ mgr' = cc in
      (subst (λ m. At pq m p s slot) same at, cc, subst (Elsewhere pq p s mgr) same there)

  module _ (p : ℕ) (s : String) (base : ℕ) where
    -- The manager has a slot for the partition and the service, and the invariant holds of it.
    abbrev pub Good : System pq → Type 0
    Good sys =
        (slot : Slot pq) × At pq sys.mgr p s slot
        × Inv pq base slot sys.holders sys.pending sys.submitted sys.granted

    accept-Good :
        (sys : System pq) (ts reply : ℕ) (mgr' : TxOriginManager pq)
        → All (λ t. t ≢ ts) sys.submitted
        → ts < 2 ^ 64
        → enqueue pq sys.mgr (message pq p s ts reply) ≡ ok (mgr', true)
        → Good sys
        → Good
            (record sys { mgr = mgr'; pending = suc sys.pending; submitted = ts ∷ sys.submitted })
    accept-Good sys ts reply mgr' new small ran (slot, at, v) =
        let msg = message pq p s ts reply in
        let (at', took, _) =
          did sys.mgr p s (enqueue pq sys.mgr msg) (slot_enqueue pq slot msg).0
            (slot_enqueue pq slot msg).1 true mgr' (enqueue-slot_enqueue pq sys.mgr msg slot at)
            ran in
        (
          (slot_enqueue pq slot msg).0,
          at',
          (slot_enqueue-Inv pq base slot sys.holders sys.pending sys.submitted sys.granted msg v).1
              new small took,
        )

    refuse-Good :
        (sys : System pq) (ts reply : ℕ) (mgr' : TxOriginManager pq)
        → enqueue pq sys.mgr (message pq p s ts reply) ≡ ok (mgr', false)
        → Good sys
        → Good (record sys { mgr = mgr' })
    refuse-Good sys ts reply mgr' ran (slot, at, v) =
        let msg = message pq p s ts reply in
        let (at', took, _) =
          did sys.mgr p s (enqueue pq sys.mgr msg) (slot_enqueue pq slot msg).0
            (slot_enqueue pq slot msg).1 false mgr' (enqueue-slot_enqueue pq sys.mgr msg slot at)
            ran in
        (
          (slot_enqueue pq slot msg).0,
          at',
          (slot_enqueue-Inv pq base slot sys.holders sys.pending sys.submitted sys.granted msg v).0
              took,
        )

    next-Good :
        (sys : System pq) (k : ℕ) (woken : Option WaitMsg) (mgr' : TxOriginManager pq)
        → sys.pending ≡ suc k
        → next pq sys.mgr p s ≡ ok (mgr', woken)
        → Good sys
        → Good (record sys {
          mgr = mgr';
          holders = woken_by pq woken sys.holders;
          pending = k;
          granted = granted_by pq woken sys.granted;
        })
    next-Good sys k woken mgr' e ran (slot, at, v) =
        let (at', took, _) =
          did sys.mgr p s (next pq sys.mgr p s) (slot_next pq slot).0 (slot_next pq slot).1 woken
            mgr' (next-slot_next pq sys.mgr p s slot at) ran in
        (
          (slot_next pq slot).0,
          at',
          subst
              (λ o.
                Inv pq base (slot_next pq slot).0 (woken_by pq o sys.holders) k sys.submitted
                  (granted_by pq o sys.granted))
              took
              (slot_next-Inv pq base slot sys.holders k sys.submitted sys.granted
                (subst (λ n. Inv pq base slot sys.holders n sys.submitted sys.granted) e v)),
        )

    release-Good :
        (sys : System pq) (before after : List WaitMsg) (h : WaitMsg) (mgr' : TxOriginManager pq)
        → sys.holders ≡ before ++ h ∷ after
        → advance pq sys.mgr p s ≡ ok (mgr', tt)
        → Good sys
        → Good (record sys { mgr = mgr'; holders = before ++ after; pending = suc sys.pending })
    release-Good sys before after h mgr' e ran (slot, at, v) =
        let (at', _, _) =
          did sys.mgr p s (advance pq sys.mgr p s) (slot_advance pq slot) tt tt mgr'
            (advance-slot_advance pq sys.mgr p s slot at) ran in
        (
          slot_advance pq slot,
          at',
          advance-Inv pq base slot before after h sys.pending sys.submitted sys.granted
              (subst (λ hs. Inv pq base slot hs sys.pending sys.submitted sys.granted) e v),
        )

    -- A section of another partition or service.
    Section-elsewhere :
        (q : ℕ) (t : String) (other slot : Slot pq) (mgr mgr' : TxOriginManager pq)
        → (p ≢ q) ⊎ (s ≢ t)
        → At pq mgr q t other
        → Section pq q t mgr mgr'
        → At pq mgr p s slot
        → At pq mgr' p s slot
    Section-elsewhere q t other slot mgr mgr' differs there (enqueues ts reply b ran) at =
        let msg = message pq q t ts reply in
        (did mgr q t (enqueue pq mgr msg) (slot_enqueue pq other msg).0
            (slot_enqueue pq other msg).1 b mgr' (enqueue-slot_enqueue pq mgr msg other there)
            ran).2
          p s slot differs at
    Section-elsewhere q t other slot mgr mgr' differs there (advances ran) at =
        (did mgr q t (advance pq mgr q t) (slot_advance pq other) tt tt mgr'
            (advance-slot_advance pq mgr q t other there) ran).2
          p s slot differs at
    Section-elsewhere q t other slot mgr mgr' differs there (nexts woken ran) at =
        (did mgr q t (next pq mgr q t) (slot_next pq other).0 (slot_next pq other).1 woken mgr'
            (next-slot_next pq mgr q t other there) ran).2
          p s slot differs at

    pub Step-Good : (a b : System pq) → Step pq p s a b → Good a → Good b
    Step-Good a b (accept ts reply mgr' new small ran e) g =
        subst Good (sym e) (accept-Good a ts reply mgr' new small ran g)
    Step-Good a b (refuse ts reply mgr' ran e) g =
        subst Good (sym e) (refuse-Good a ts reply mgr' ran g)
    Step-Good a b (call_next k woken mgr' due ran e) g =
        subst Good (sym e) (next-Good a k woken mgr' due ran g)
    Step-Good a b (release_one before after h mgr' held ran e) g =
        subst Good (sym e) (release-Good a before after h mgr' held ran g)
    Step-Good a b (elsewhere q t other mgr' differs there section e) (slot, at, v) =
        subst Good (sym e)
          (slot, Section-elsewhere q t other slot a.mgr mgr' differs there section at, v)

    pub Reach-Good : (a b : System pq) → Reach pq p s a b → Good a → Good b
    Reach-Good a b here g = g
    Reach-Good a c (later {b = b} r st) g = Step-Good b c st (Reach-Good a b r g)

    pub start-Good :
        (mgr : TxOriginManager pq) (slot : Slot pq)
        → At pq mgr p s slot
        → slot.clock ≡ base
        → ((t : ℕ) → waiting pq slot.queue t ≡ 0)
        → Good (start pq mgr)
    start-Good mgr slot at e idle = (slot, at, start-Inv pq base slot e idle)

  -- Start with a partition and service in which nobody waits, and let any callers run their
  -- sections in any order, with timestamps that are each accepted once, beside any sections of
  -- other partitions and services. Then what has been granted are the timestamps that follow the
  -- clock at the start, in order and with none left out; at most one caller holds; a holder's
  -- timestamp is the one that follows the present clock; and the clock has moved by the number of
  -- grants less the number of holders.
  pub granted_in_order :
      (p : ℕ) (s : String) (mgr : TxOriginManager pq) (slot : Slot pq) (sys : System pq)
      → At pq mgr p s slot
      → ((t : ℕ) → waiting pq slot.queue t ≡ 0)
      → Reach pq p s (start pq mgr) sys
      → (now : Slot pq) × At pq sys.mgr p s now
        × (sys.granted ≡ seq slot.clock (length sys.granted))
        × (length sys.holders ≤ 1)
        × All (λ h. h.timestamp ≡ now.clock + 1) sys.holders
        × (now.clock + length sys.holders ≡ slot.clock + length sys.granted)
  granted_in_order p s mgr slot sys at idle r =
      let (now, at', v) =
        Reach-Good p s slot.clock (start pq mgr) sys r
          (start-Good p s slot.clock mgr slot at refl idle) in
      (now, at', v.in_order, v.single, v.held, v.balance)
