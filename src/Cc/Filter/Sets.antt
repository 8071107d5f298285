-- ===== src/Cc/Filter/Sets.antt =====
-- The hash sets of github.com/emirpasic/gods that pkg/cc/filter.go uses: their methods, and what
-- the library documents of them.
use cs.Prelude.{
  String, Bool, true, false, ◌&&◌, ◌||◌, not, ◌≡◌, refl, ap, ite, List, [], ◌∷◌, arith,
}
use cs.Prelude.Tests.{string_discrete}

abbrev pub member : String → List String → Bool
member a [] = false
member a (x ∷ xs) = ite (string_discrete a x) true (member a xs)

abbrev pub all : (String → Bool) → List String → Bool
all p [] = true
all p (x ∷ xs) = p x && all p xs

pub record HashSet : Type 1 where
  pub Set : Type 0
  pub new : Set
  pub add : Set → List String → Set
  pub remove : Set → List String → Set
  pub clear : Set → Set
  pub contains : Set → List String → Bool
  -- All items have to be in the set.
  pub contains_all :
      (s : Set) (xs : List String) → contains s xs ≡ all (λ a. contains s (a ∷ [])) xs
  pub contains_new : (a : String) → contains new (a ∷ []) ≡ false
  pub contains_add :
      (s : Set) (xs : List String) (a : String)
      → contains (add s xs) (a ∷ []) ≡ (member a xs || contains s (a ∷ []))
  pub contains_remove :
      (s : Set) (xs : List String) (a : String)
      → contains (remove s xs) (a ∷ []) ≡ (not (member a xs) && contains s (a ∷ []))
  pub contains_clear : (s : Set) (a : String) → contains (clear s) (a ∷ []) ≡ false

pub and_true : (b : Bool) → (b && true) ≡ b
and_true true = refl
and_true false = refl

pub and_true_both : (b c : Bool) → ((b || c) && true) ≡ (b || (c && true))
and_true_both b c = ground arith

pub true_and_both : (b c : Bool) → ((b && c) && true) ≡ (b && (c && true))
true_and_both b c = ground arith

pub all_single : (f : String → Bool) (xs : List String) → all f xs ≡ all (λ a. f a && true) xs
all_single f [] = refl
all_single f (x ∷ xs) = rw (and_true (f x)) (ap (◌&&◌ (f x)) (all_single f xs))

-- A set that is its membership test meets the interface.
abbrev pub test_set : HashSet
test_set = record {
  Set = String → Bool;
  new = λ a. false;
  add = λ s xs a. member a xs || s a;
  remove = λ s xs a. not (member a xs) && s a;
  clear = λ s a. false;
  contains = λ s xs. all s xs;
  contains_all = all_single;
  contains_new = λ a. refl;
  contains_add = λ s xs a. and_true_both (member a xs) (s a);
  contains_remove = λ s xs a. true_and_both (not (member a xs)) (s a);
  contains_clear = λ s a. refl;
}
