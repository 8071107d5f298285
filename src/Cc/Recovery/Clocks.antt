-- ===== src/Cc/Recovery/Clocks.antt =====
-- pkg/cc/recovery.go: the clocks after their rows have been read.
use cs.Prelude.{ℕ, String, ◌≡◌, refl, ap, ◌∙◌, none, inr, List, [], ◌∷◌, map, ite, ℕ_discrete}
use cs.Prelude.Tests.{string_discrete}
use cs.Prelude.Lists.{All, All-weaken}
use cs.Prelude.Run.{Run, ok}
use cs.Cc.Clock.{TxClockManager}
use cs.Cc.Clock
use cs.Cc.Clock.Cells.{HasRow, get-set}
use cs.Cc.Recovery.{ClockRow, set_rows, recover_clocks}

-- What a clock reads after the rows, from what it read before: the timestamp of the last row of its
-- partition and service.
unfoldable pub recovered : List ClockRow → ℕ → String → Run ℕ → Run ℕ
recovered [] p s now = now
recovered (r ∷ rows) p s now =
    recovered rows p s (ite (ℕ_discrete p r.prt) (ite (string_discrete s r.svc) (ok r.ts) now) now)

module _ {E : Type 0} where
  -- If the partitions of the rows are in range, recovering the clocks from them succeeds; each clock
  -- then reads the timestamp of the last row of its partition and service, and as before if it has
  -- none.
  pub recover_clocks_lem :
      (mgr : TxClockManager) (rows : List ClockRow)
      → All (λ r. HasRow mgr r.prt) rows
      → (mgr' : TxClockManager) × (recover_clocks {E = E} (inr (map inr rows)) mgr
          ≡ ok (mgr', none))
        × ((p : ℕ) (s : String) → Clock.get mgr' p s ≡ recovered rows p s (Clock.get mgr p s))
  unfolding recover_clocks set_rows recovered
  recover_clocks_lem mgr [] all = (mgr, refl, λ p s. refl)
  recover_clocks_lem mgr (r ∷ rows) (here, all) =
      let (mid, ran, len, reads) = get-set mgr r.prt r.svc r.ts here in
      let (mgr', rest, reads') =
        recover_clocks_lem mid rows
          (All-weaken (λ x. HasRow mgr x.prt) (λ x. HasRow mid x.prt) (λ x h. rw len h) rows all) in
      (mgr', rw ran rest, λ p s. reads' p s ∙ ap (recovered rows p s) (reads p s))
