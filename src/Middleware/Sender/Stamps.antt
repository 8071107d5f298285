-- ===== src/Middleware/Sender/Stamps.antt =====
-- pkg/middleware/tx.go: the timestamps that createTxExecutor gives to the receivers.
use cs.Prelude.{
  ℕ, zero, suc, ◌+◌, ◌%◌, ◌^◌, ◌≤◌, ◌<◌, String, ◌≡◌, refl, ap, ◌∙◌, ite, Option, none, some, List,
  [], ◌∷◌, ◌++◌, arith,
}
use mathlib.Core.List.{append_assoc, append-nil}
use cs.Prelude.Tests.{string_key, string_discrete}
use cs.Prelude.Lists.{length}
use cs.Prelude.Map.{Map, lookup, insert, lookup-insert, Unique, insert-Unique}
use cs.Prelude.Run.{ok}
use cs.Cc.Clock.{TxClockManager}
use cs.Cc.Clock
use cs.Middleware.Sender.{stamp}

abbrev pub count : String → List String → ℕ
count r [] = 0
count r (x ∷ xs) = ite (string_discrete r x) 1 0 + count r xs

-- Each receiver gets the timestamp after its clock, and one more for each time that it stands
-- earlier among the receivers; `before` holds those.
unfoldable pub expected : (String → ℕ) → List String → List String → List ℕ
expected clock before [] = []
expected clock before (r ∷ rs) = (clock r + count r before + 1) ∷ expected clock (r ∷ before) rs

-- The map's entry for a receiver that stands `n` times among those before.
abbrev pub entry : ℕ → ℕ → Option ℕ
entry zero c = none
entry (suc n) c = some (c + suc n)

pub count-le : (r : String) (xs : List String) → count r xs ≤ length xs
count-le r [] = omega arith
count-le r (x ∷ xs) = ground (arith, count-le r xs)

module _ (mgr : TxClockManager) (p : ℕ) (clock : String → ℕ)
    (reads : (r : String) → Clock.get mgr p r ≡ ok (clock r)) where
  abbrev pub Seen : (String → ℕ) → Map String ℕ → Type 0
  Seen n m = (r : String) → lookup r m ≡ entry (n r) (clock r)

  one_receiver :
      (r : String) (before : List String) (m : Map String ℕ) (t : ℕ)
      → t ≡ clock r + count r before + 1
      → Seen (λ s. count s before) m
      → Seen (λ s. count s (r ∷ before)) (insert r t m)
  one_receiver r before m t e seen s = elim (string_discrete s r) [
    | yes same ↦ rw (lookup-insert r s t m, e, same) (ground (arith, same))
    | no differ ↦ ground (arith, lookup-insert r s t m, seen s)
  ]

  -- A round for a receiver that stands `n` times among those before.
  next_stamp :
      (r : String) (n : ℕ) (m : Map String ℕ) (rs : List String) (ts : List ℕ)
      → clock r + n + 1 < 2 ^ 64
      → lookup r m ≡ entry n (clock r)
      → stamp mgr p (r ∷ rs) m ts
        ≡ stamp mgr p rs (insert r (clock r + n + 1) m) (ts ++ (clock r + n + 1) ∷ [])
  unfolding stamp
  next_stamp r zero m rs ts fits seen =
      let e : (clock r + 1) % 2 ^ 64 ≡ clock r + 0 + 1 = omega arith in
      rw (seen, stamp, reads r, e) refl
  next_stamp r (suc n) m rs ts fits seen =
      let e : (clock r + suc n + 1) % 2 ^ 64 ≡ clock r + suc n + 1 = omega arith in
      rw (seen, stamp, e) refl

  -- What the loop builds for the receivers `rs`, after those before.
  abbrev Stamped : (before rs : List String) → Map String ℕ → List ℕ → Type 0
  Stamped before rs m ts =
      (m' : Map String ℕ) × (stamp mgr p rs m ts ≡ ok (m', ts ++ expected clock before rs))
      × Seen (λ s. count s before + count s rs) m'
      × Unique m'

  pub stamp_lem :
      (rs before : List String) (m : Map String ℕ) (ts : List ℕ)
      → ((r : String) → clock r + length before + length rs < 2 ^ 64)
      → Seen (λ s. count s before) m
      → Unique m
      → Stamped before rs m ts
  unfolding stamp expected
  stamp_lem [] before m ts fits seen u =
      (m, rw (append-nil ts) refl, λ s. seen s ∙ ap (λ n. entry n (clock s)) (omega arith), u)
  stamp_lem (r ∷ rs) before m ts fits seen u =
      let t = clock r + count r before + 1 in
      let (m', ran, seen', u') =
        stamp_lem rs (r ∷ before) (insert r t m) (ts ++ t ∷ []) (λ s. omega (arith, fits s))
          (one_receiver r before m t refl seen) (insert-Unique r t m u) in
      (
        m',
        next_stamp r (count r before) m rs ts (omega (arith, fits r, count-le r before)) (seen r)
            ∙ ran
            ∙ ap (λ l. ok (m', l)) (append_assoc ts (t ∷ []) (expected clock (r ∷ before) rs)),
        λ s. seen' s ∙ ap (λ n. entry n (clock s)) (omega arith),
        u',
      )
