-- ===== src/Middleware/Sender/Clocks.antt =====
-- pkg/middleware/tx.go: moving the sender's clocks on to the timestamps that it has given.
use cs.Prelude.{ℕ, String, ◌≡◌, refl, ◌∙◌, ap, ite, ℕ_discrete, arith, Option, none, some, [], ◌∷◌}
use cs.Prelude.Tests.{string_discrete, string_key}
use cs.Prelude.Map.{Map, lookup, Unique}
use cs.Prelude.Run.{Run, ok}
use cs.Cc.Clock.{TxClockManager}
use cs.Cc.Clock
use cs.Cc.Clock.Cells.{HasRow, get-set}
use cs.Middleware.Sender.{set_clocks}

-- What a service's clock reads after the map's entries have been written.
abbrev pub written : Option ℕ → Run ℕ → Run ℕ
written none now = now
written (some ts) now = ok ts

pub set_clocks_lem :
    (mgr : TxClockManager) (p : ℕ) (m : Map String ℕ)
    → HasRow mgr p
    → Unique m
    → (mgr' : TxClockManager) × (set_clocks mgr p m ≡ ok mgr')
      × ((q : ℕ) (s : String)
          → Clock.get mgr' q s
            ≡ ite (ℕ_discrete q p) (written (lookup s m) (Clock.get mgr q s)) (Clock.get mgr q s))
unfolding set_clocks lookup
set_clocks_lem mgr p [] row u = (mgr, refl, λ q s. ground arith)
set_clocks_lem mgr p ((r, ts) ∷ m) row (fresh, u) =
    let (mid, one, len, reads) = get-set mgr p r ts row in
    let (mgr', rest, reads') = set_clocks_lem mid p m (rw len row) u in
    (
      mgr',
      rw one rest,
      λ q s. elim (string_discrete s r) [
        | yes same ↦ ground (arith, reads q s, reads' q s, ap (λ k. lookup k m) same ∙ fresh)
        | no differ ↦ ground (arith, reads q s, reads' q s)
      ],
    )
