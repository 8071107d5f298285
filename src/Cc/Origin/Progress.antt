-- ===== src/Cc/Origin/Progress.antt =====
-- pkg/cc/origin.go: a caller whose turn has come is woken.
use mathlib.Core.Path.{subst}
use cs.Prelude.{
  ℕ, zero, suc, ◌+◌, ◌≤◌, ◌<◌, String, ◌≡◌, refl, sym, ◌⊎◌, inl, inr, List, [], ◌∷◌, arith,
}
use cs.Prelude.Lists.{All, length}
use native.Mathlib.Decide.{dec_le}
use cs.Cc.Origin.Queues.{PriorityQueue, waiting}
use cs.Cc.Origin.{TxOriginManager}
use cs.Cc.Origin.Cells.{Slot, At}
use cs.Cc.Origin.System.{System, Reach, start}
use cs.Cc.Origin.Kept.{Inv, seq}
use cs.Cc.Origin.Order.{Reach-Good, start-Good}

abbrev pub Submitted : ℕ → List ℕ → Type 0
Submitted t [] = ⊥
Submitted t (x ∷ xs) = (t ≡ x) ⊎ Submitted t xs

pick {κ} : (P : ℕ → Type κ) (t : ℕ) (xs : List ℕ) → All P xs → Submitted t xs → P t
pick P t [] all h = elim h [ ]
pick P t (x ∷ xs) (p, all) (inl e) = subst P (sym e) p
pick P t (x ∷ xs) (p, all) (inr h) = pick P t xs all h

module _ (pq : PriorityQueue) where
  not_stuck :
      (base : ℕ) (slot : Slot pq) (submitted granted : List ℕ) (t : ℕ)
      → Inv pq base slot [] 0 submitted granted
      → t ≡ slot.clock + 1
      → (t ≤ slot.clock) ⊎ ((0 < waiting pq slot.queue t) ⊎ ((0 < 0) × (t ≡ slot.clock + 1)))
      → t ≤ slot.clock
  not_stuck base slot submitted granted t v e (inl le) = le
  not_stuck base slot submitted granted t v e (inr (inl w)) =
      absurd (omega (arith, v.no_lost_wakeup refl (subst (λ u. 0 < waiting pq slot.queue u) e w)))
  not_stuck base slot submitted granted t v e (inr (inr (h, _))) = absurd (omega arith)

  reached :
      (base : ℕ) (slot : Slot pq) (submitted granted : List ℕ) (n : ℕ)
      → Inv pq base slot [] 0 submitted granted
      → ((t : ℕ) → base < t → t ≤ base + n → Submitted t submitted)
      → base + n ≤ slot.clock
  reached base slot submitted granted zero v all = omega (arith, v.balance)
  reached base slot submitted granted (suc n) v all =
      let before = reached base slot submitted granted n v (λ t h k. all t h (omega arith)) in
      elim (dec_le (base + suc n) slot.clock) [
        | yes le ↦ le
        | no gt ↦
            not_stuck base slot submitted granted (base + suc n) v (omega (arith, before, gt)) (
              pick _ (base + suc n) submitted v.accounted
                (all (base + suc n) (omega arith) (omega arith)))
      ]

  -- Start with a partition and service in which nobody waits. In any interleaving in which each of
  -- the `n` timestamps that follow the clock has been accepted, once nobody holds and no section is
  -- left to be run, at least those `n` have been granted, in order: no wakeup is lost.
  pub all_granted :
      (p : ℕ) (s : String) (mgr : TxOriginManager pq) (slot : Slot pq) (sys : System pq) (n : ℕ)
      → At pq mgr p s slot
      → ((t : ℕ) → waiting pq slot.queue t ≡ 0)
      → Reach pq p s (start pq mgr) sys
      → ((t : ℕ) → slot.clock < t → t ≤ slot.clock + n → Submitted t sys.submitted)
      → sys.holders ≡ []
      → sys.pending ≡ 0
      → (sys.granted ≡ seq slot.clock (length sys.granted)) × (n ≤ length sys.granted)
  all_granted p s mgr slot sys n at idle r all free quiet =
      let (now, _, v) =
        Reach-Good pq p s slot.clock (start pq mgr) sys r
          (start-Good pq p s slot.clock mgr slot at refl idle) in
      let v' =
        subst (λ k. Inv pq slot.clock now [] k sys.submitted sys.granted) quiet
          (subst (λ hs. Inv pq slot.clock now hs sys.pending sys.submitted sys.granted) free v) in
      (
        v.in_order,
        omega (arith, reached slot.clock now sys.submitted sys.granted n v' all, v'.balance),
      )
