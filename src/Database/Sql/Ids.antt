-- ===== src/Database/Sql/Ids.antt =====
-- pkg/database/user.go, event.go: `slices.Contains`, `append` and `slices.DeleteFunc` on the ids of
-- a column, and the set of ids that such a slice stands for.
use cs.Prelude.{Bool, true, false, ite, ◌≡◌, refl, List, [], ◌∷◌, ◌++◌, ℤ, int_key, arith}
use cs.Prelude.Tests.{if◌then◌else◌}

unfoldable pub contains : List ℤ → ℤ → Bool
contains [] id = false
contains (x ∷ xs) id = ite (int_key.dec id x) true (contains xs id)

-- `slices.DeleteFunc(ids, func(x) bool { return x == id })`
unfoldable pub delete_id : List ℤ → ℤ → List ℤ
delete_id [] id = []
delete_id (x ∷ xs) id = let rest = delete_id xs id in ite (int_key.dec x id) rest (x ∷ rest)

-- `if !slices.Contains(ids, id) { ids = append(ids, id) }`
unfoldable pub add_id : List ℤ → ℤ → List ℤ
add_id xs id = if contains xs id then xs else xs ++ id ∷ []

-- No id stands twice.
abbrev pub Distinct : List ℤ → Type 0
Distinct [] = Unit
Distinct (x ∷ xs) = (contains xs x ≡ false) × Distinct xs

pub contains-append :
    (xs ys : List ℤ) (id : ℤ)
    → contains (xs ++ ys) id ≡ (if contains xs id then true else contains ys id)
unfolding contains
contains-append [] ys id = refl
contains-append (x ∷ xs) ys id = ground (arith, contains-append xs ys id)

pub contains-add_id :
    (xs : List ℤ) (id other : ℤ)
    → contains (add_id xs id) other ≡ ite (int_key.dec other id) true (contains xs other)
unfolding add_id contains
contains-add_id xs id other = ground (arith, contains-append xs (id ∷ []) other)

pub contains-delete_id :
    (xs : List ℤ) (id other : ℤ)
    → contains (delete_id xs id) other ≡ ite (int_key.dec other id) false (contains xs other)
unfolding delete_id contains
contains-delete_id [] id other = ground arith
contains-delete_id (x ∷ xs) id other = ground (arith, contains-delete_id xs id other)

append-Distinct :
    (xs : List ℤ) (id : ℤ) → contains xs id ≡ false → Distinct xs → Distinct (xs ++ id ∷ [])
unfolding contains
append-Distinct [] id fresh d = (refl, tt)
append-Distinct (x ∷ xs) id fresh (h, d) =
    ground (arith, contains-append xs (id ∷ []) x, append-Distinct xs id, fresh, h, d)

pub add_id-Distinct : (xs : List ℤ) (id : ℤ) → Distinct xs → Distinct (add_id xs id)
unfolding add_id
add_id-Distinct xs id d = ground (arith, append-Distinct xs id, d)

pub delete_id-Distinct : (xs : List ℤ) (id : ℤ) → Distinct xs → Distinct (delete_id xs id)
unfolding delete_id
delete_id-Distinct [] id d = tt
delete_id-Distinct (x ∷ xs) id (h, d) =
    ground (arith, contains-delete_id xs id x, delete_id-Distinct xs id d, h)

delete_id-append :
    (xs : List ℤ) (id : ℤ) → contains xs id ≡ false → delete_id (xs ++ id ∷ []) id ≡ xs
unfolding delete_id contains
delete_id-append [] id h = ground arith
delete_id-append (x ∷ xs) id h = ground (arith, delete_id-append xs id, h)

-- An id that was not there is added and deleted again.
pub delete_id-add_id :
    (xs : List ℤ) (id : ℤ) → contains xs id ≡ false → delete_id (add_id xs id) id ≡ xs
unfolding add_id
delete_id-add_id xs id h = ground (arith, delete_id-append xs id h, h)
