-- ===== src/Cc/Origin/Queues.antt =====
-- pkg/cc/origin.go: the messages that wait, and the priority queue of github.com/emirpasic/gods that
-- holds them: its methods, and what the library documents of them.
use mathlib.Core.List.{Perm, Permᴰ}
use mathlib.Core.List.Perm
use mathlib.Core.Logic.{∥∥₁_elim}
use mathlib.Core.Option.{some-injective}
use native.Mathlib.Nat.{ℕ_set}
use mathlib.Core.Path.{subst}
use Prim.Native.Nat.{Ordering}
use cs.Prelude.{
  ℕ, ◌+◌, ◌≤◌, ◌<◌, String, Bool, true, false, ◌≡◌, refl, inl, inr, ◌∙◌, ap, Option, none, some,
  List, [], ◌∷◌, arith,
}
use cs.Prelude.Tests.{Bool-cases, ltb, leb, ◌==◌, if◌then◌else◌}
use cs.Prelude.Lists.{All}

pub record WaitMsg : Type 0 where
  pub partition : ℕ
  pub service : String
  pub timestamp : ℕ
  pub reply : ℕ  -- the identity of the channel

-- sort ascending
abbrev pub timestamp_comparator : WaitMsg → WaitMsg → Ordering
timestamp_comparator a b =
    if ltb b.timestamp a.timestamp
    then Ordering.gt
    else (if ltb a.timestamp b.timestamp then Ordering.lt else Ordering.eq)

abbrev pub not_gt : Ordering → Bool
not_gt Ordering.gt = false
not_gt _ = true

-- `pq.NewWith(timestampComparator)` and its methods. `values` lists the queue in no set order.
pub record PriorityQueue : Type 1 where
  pub Queue : Type 0
  pub new : Queue
  pub enqueue : Queue → WaitMsg → Queue
  pub peek : Queue → Option WaitMsg
  pub dequeue : Queue → Queue
  pub values : Queue → List WaitMsg
  pub values_new : values new ≡ []
  pub values_enqueue : (q : Queue) (m : WaitMsg) → Perm (values (enqueue q m)) (m ∷ values q)
  pub peek_none : (q : Queue) → peek q ≡ none → values q ≡ []
  pub values_dequeue :
      (q : Queue) (m : WaitMsg) → peek q ≡ some m → Perm (values q) (m ∷ values (dequeue q))
  pub peek_least :
      (q : Queue) (m : WaitMsg)
      → peek q ≡ some m
      → All (λ x. not_gt (timestamp_comparator m x) ≡ true) (values q)

-- How many messages of a list carry a timestamp.
abbrev pub one_if : Bool → ℕ
one_if true = 1
one_if false = 0

abbrev pub occurrences : ℕ → List WaitMsg → ℕ
occurrences t [] = 0
occurrences t (m ∷ ms) = one_if (m.timestamp == t) + occurrences t ms

occurrences-Permᴰ :
    (t : ℕ) {xs ys : List WaitMsg} → Permᴰ xs ys → occurrences t xs ≡ occurrences t ys
occurrences-Permᴰ t Permᴰ.nil = refl
occurrences-Permᴰ t (Permᴰ.cons e p) =
    omega (arith, ap (λ m. one_if (m.timestamp == t)) e, occurrences-Permᴰ t p)
occurrences-Permᴰ t (Permᴰ.swap e d) =
    omega (arith, ap (λ m. one_if (m.timestamp == t)) e, ap (λ m. one_if (m.timestamp == t)) d)
occurrences-Permᴰ t (Permᴰ.trans p q) = occurrences-Permᴰ t p ∙ occurrences-Permᴰ t q

occurrences-Perm : (t : ℕ) (xs ys : List WaitMsg) → Perm xs ys → occurrences t xs ≡ occurrences t ys
occurrences-Perm t xs ys p = ∥∥₁_elim p (ℕ_set _ _) (occurrences-Permᴰ t)

least_occurrence :
    (m : WaitMsg) (t : ℕ) (xs : List WaitMsg)
    → All (λ x. not_gt (timestamp_comparator m x) ≡ true) xs
    → 0 < occurrences t xs
    → m.timestamp ≤ t
least_occurrence m t [] all h = absurd (omega arith)
least_occurrence m t (x ∷ xs) (le, all) h = elim (Bool-cases (x.timestamp == t)) [
  | inl e ↦ ground arith
  | inr e ↦ least_occurrence m t xs all (ground arith)
]

module _ (pq : PriorityQueue) where
  -- How many messages of a queue carry a timestamp.
  unfoldable pub waiting : pq.Queue → ℕ → ℕ
  waiting q t = occurrences t (pq.values q)

  pub waiting_new : (t : ℕ) → waiting pq.new t ≡ 0
  unfolding waiting
  waiting_new t = rw pq.values_new refl

  pub waiting_enqueue :
      (q : pq.Queue) (m : WaitMsg) (t : ℕ)
      → waiting (pq.enqueue q m) t ≡ one_if (m.timestamp == t) + waiting q t
  unfolding waiting
  waiting_enqueue q m t = occurrences-Perm t _ (m ∷ pq.values q) (pq.values_enqueue q m)

  pub waiting_dequeue :
      (q : pq.Queue) (m : WaitMsg) (t : ℕ)
      → pq.peek q ≡ some m
      → waiting q t ≡ one_if (m.timestamp == t) + waiting (pq.dequeue q) t
  unfolding waiting
  waiting_dequeue q m t e =
      occurrences-Perm t (pq.values q) (m ∷ pq.values (pq.dequeue q)) (pq.values_dequeue q m e)

  pub waiting_least :
      (q : pq.Queue) (m : WaitMsg) (t : ℕ) → pq.peek q ≡ some m → 0 < waiting q t → m.timestamp ≤ t
  unfolding waiting
  waiting_least q m t e h = least_occurrence m t (pq.values q) (pq.peek_least q m e) h

  pub waiting-none : (q : pq.Queue) (t : ℕ) → pq.peek q ≡ none → waiting q t ≡ 0
  unfolding waiting
  waiting-none q t e = rw (pq.peek_none q e) refl

-- A list with a scan for its least message meets the interface.
unfoldable pub place :
    WaitMsg → List WaitMsg → Option (WaitMsg × List WaitMsg) → Option (WaitMsg × List WaitMsg)
place x xs none = some (x, [])
place x xs (some (m, rest)) =
    if leb x.timestamp m.timestamp then some (x, xs) else some (m, x ∷ rest)

unfoldable pub extract : List WaitMsg → Option (WaitMsg × List WaitMsg)
unfolding place
extract [] = none
extract (x ∷ xs) = place x xs (extract xs)

abbrev pub first : Option (WaitMsg × List WaitMsg) → Option WaitMsg
first none = none
first (some (m, rest)) = some m

abbrev pub others : Option (WaitMsg × List WaitMsg) → List WaitMsg
others none = []
others (some (m, rest)) = rest

abbrev pub IsLeast : WaitMsg → List WaitMsg → Type 0
IsLeast m = All (λ x. not_gt (timestamp_comparator m x) ≡ true)

abbrev pub Extracted : List WaitMsg → Option (WaitMsg × List WaitMsg) → Type 0
Extracted xs none = xs ≡ []
Extracted xs (some (m, rest)) = Perm xs (m ∷ rest) × IsLeast m xs

IsLeast-le :
    (x m : WaitMsg) (xs : List WaitMsg) → x.timestamp ≤ m.timestamp → IsLeast m xs → IsLeast x xs
IsLeast-le x m [] le all = tt
IsLeast-le x m (y ∷ ys) le (h, all) = (ground arith, IsLeast-le x m ys le all)

place-Extracted :
    (x : WaitMsg) (xs : List WaitMsg) (r : Option (WaitMsg × List WaitMsg))
    → Extracted xs r
    → Extracted (x ∷ xs) (place x xs r)
unfolding place
place-Extracted x xs none e = rw e (Perm.refl (x ∷ []), (ground arith, tt))
place-Extracted x xs (some (m, rest)) (p, least) = elim (Bool-cases (leb x.timestamp m.timestamp)) [
  | inl le ↦ rw le (Perm.refl (x ∷ xs), (ground arith, IsLeast-le x m xs (ground arith) least))
  | inr gt ↦ rw gt (Perm.trans (Perm.cons x p) (Perm.swap m x rest), (ground arith, least))
]

pub extract-Extracted : (xs : List WaitMsg) → Extracted xs (extract xs)
unfolding extract
extract-Extracted [] = refl
extract-Extracted (x ∷ xs) = place-Extracted x xs (extract xs) (extract-Extracted xs)

pub list_peek_none :
    (xs : List WaitMsg) (r : Option (WaitMsg × List WaitMsg))
    → Extracted xs r
    → first r ≡ none
    → xs ≡ []
list_peek_none xs none e h = e
list_peek_none xs (some (m, rest)) e h = cc

pub list_peek_some :
    (xs : List WaitMsg) (r : Option (WaitMsg × List WaitMsg)) (m : WaitMsg)
    → Extracted xs r
    → first r ≡ some m
    → Perm xs (m ∷ others r) × IsLeast m xs
list_peek_some xs none m e h = cc
list_peek_some xs (some (m', rest)) m e h =
    subst (λ x. Perm xs (x ∷ rest) × IsLeast x xs) (some-injective m' m h) e

abbrev pub list_queue : PriorityQueue
list_queue = record {
  Queue = List WaitMsg;
  new = [];
  enqueue = λ q m. m ∷ q;
  peek = λ q. first (extract q);
  dequeue = λ q. others (extract q);
  values = λ q. q;
  values_new = refl;
  values_enqueue = λ q m. Perm.refl (m ∷ q);
  peek_none = λ q. list_peek_none q (extract q) (extract-Extracted q);
  values_dequeue = λ q m h. (list_peek_some q (extract q) m (extract-Extracted q) h).0;
  peek_least = λ q m h. (list_peek_some q (extract q) m (extract-Extracted q) h).1;
}
