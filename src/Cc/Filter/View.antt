-- ===== src/Cc/Filter/View.antt =====
-- pkg/cc/filter.go: the filters as sets of attributes, one for each partition and service.
use cs.Prelude.{
  ℕ, ◌%◌, String, Bool, true, false, ◌≡◌, refl, sym, ap, ◌∙◌, ite, ℕ_discrete, Option, none, some,
  List, [], ◌∷◌, arith, inl, inr,
}
use mathlib.Core.Path.{fun_ext}
use cs.Prelude.Tests.{string_discrete, string_key, nat_key, Option-cases}
use cs.Prelude.Map.{lookup, insert}
use cs.Prelude.Run.{ok}
use cs.Prelude.Tables.{map_get, map_put, map_get-map_put}
use cs.Cc.Filter.Sets.{HashSet, all}
use cs.Cc.Filter.{Filters, TxFilterManager, change, drop_req, drop_resp, holds_all}

module _ (h : HashSet) where
  abbrev cell_holds : Option h.Set → String → Bool
  cell_holds none a = false
  cell_holds (some set) a = h.contains set (a ∷ [])

  -- Whether the set of a cell holds an attribute; a cell that is missing holds none.
  pub holds : Filters h → ℕ → String → String → Bool
  holds rows p s a = cell_holds (map_get rows p s) a

  -- The cell has a set: the service was initialised.
  abbrev pub IsInit : Filters h → ℕ → String → Type 0
  IsInit rows p s = (set : h.Set) × (map_get rows p s ≡ some set)

  -- The sets after the set of one cell has changed as `g` says.
  abbrev pub Changed : (Bool → String → Bool) → Filters h → ℕ → String → Filters h → Type 0
  Changed g rows p s rows' =
      (q : ℕ) (t a : String)
      → holds rows' q t a
        ≡ ite (ℕ_discrete q p)
            (ite (string_discrete t s) (g (holds rows q t a) a) (holds rows q t a))
            (holds rows q t a)

  map_put_ok :
      (rows : Filters h) (p : ℕ) (s : String) (set new : h.Set)
      → map_get rows p s ≡ some set
      → (rows' : Filters h) × (map_put rows p s new ≡ ok rows')
  unfolding map_get map_put
  map_put_ok rows p s set new e = elim (Option-cases (lookup p rows)) [
    | inl missing ↦ ground (arith, missing)
    | inr (row, here) ↦ (insert p (insert s new row) rows, rw (here, map_put) refl)
  ]

  pub change_lem :
      (f : h.Set → h.Set) (g : Bool → String → Bool)
      → ((set : h.Set) (a : String) → h.contains (f set) (a ∷ []) ≡ g (h.contains set (a ∷ [])) a)
      → (rows : Filters h) (p : ℕ) (s : String) → IsInit rows p s
      → (rows' : Filters h) × (change h f rows p s ≡ ok rows') × Changed g rows p s rows'
  unfolding change holds
  change_lem f g fits rows p s (set, e) =
      let (rows', ran) = map_put_ok rows p s set (f set) e in
      (
        rows',
        rw (e, change) ran,
        λ q t a. ground (arith, map_get-map_put rows rows' p q s t (f set) ran, fits set a, e),
      )

  -- A cell that holds something is there.
  pub holds-IsInit :
      (rows : Filters h) (p : ℕ) (s a : String) → holds rows p s a ≡ true → IsInit rows p s
  unfolding holds
  holds-IsInit rows p s a held = elim (Option-cases (map_get rows p s)) [
    | inl missing ↦ absurd (ground (arith, held, missing))
    | inr (set, there) ↦ (set, there)
  ]

  holds_all_lem :
      (rows : Filters h) (p : ℕ) (s : String) (attrs : List String)
      → IsInit rows p s
      → holds_all h rows p s attrs ≡ ok (all (holds rows p s) attrs)
  unfolding holds_all holds
  holds_all_lem rows p s attrs (set, e) =
      rw (e, holds_all)
        (ap ok (
          h.contains_all set attrs
          ∙ ap (λ p. all p attrs) (fun_ext λ a. sym (ap (λ c. cell_holds c a) e))))

  -- What a request or a response with these attributes meets: dropped if there are attributes and
  -- the filter holds them all.
  abbrev pub dropped : Filters h → ℕ → String → List String → Bool
  dropped rows p s [] = false
  dropped rows p s (a ∷ attrs) = all (holds rows p s) (a ∷ attrs)

  -- Where the service is initialised in the partition, taken modulo the number of partitions, a
  -- request is dropped exactly if it has attributes and the request filter holds all of them, and
  -- a response exactly if it has attributes and the response filter holds all of them.
  pub drop_lem :
      (mgr : TxFilterManager h) (p : ℕ) (s : String) (attrs : List String)
      → IsInit mgr.req_filter (p % mgr.partitions) s
      → IsInit mgr.resp_filter (p % mgr.partitions) s
      → (drop_req h mgr p s attrs ≡ ok (dropped mgr.req_filter (p % mgr.partitions) s attrs))
        × (drop_resp h mgr p s attrs ≡ ok (dropped mgr.resp_filter (p % mgr.partitions) s attrs))
  unfolding drop_req drop_resp
  drop_lem mgr p s [] req resp = (refl, refl)
  drop_lem mgr p s (a ∷ attrs) req resp = (
    holds_all_lem mgr.req_filter _ s (a ∷ attrs) req,
    holds_all_lem mgr.resp_filter _ s (a ∷ attrs) resp,
  )
