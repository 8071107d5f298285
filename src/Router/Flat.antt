-- ===== src/Router/Flat.antt =====
-- pkg/router/router.go, Routes: the recursion over the groups lists what a walk from the root lists
-- that takes the prefixes and the middlewares along.
use cs.Prelude.{String, List, [], ◌∷◌, ◌++◌, map, ◌≡◌, refl, ap, ◌∙◌, sym}
use mathlib.Core.Path.{fun_ext}
use mathlib.Core.List.{map-append, map-map}
use cs.Prelude.Map.{Map}
use cs.Router.{
  Middleware, Paths, chain, chain_from, Route, Router, router, Groups, empty, group, own_route,
  own_routes, group_route, routes, routes_of_groups,
}
use cs.Router.Middlewares.{chain-append}

module _ {H : Type 0} where
  -- A route where the walk has come by `at`, which gives the full path, and the middlewares `outer`.
  abbrev pub placed : (String → String) → List (Middleware H) → Route H → Route H
  placed at outer route = record route { path = at route.path; handler = chain route.handler outer }

abbrev pub below : Paths → (String → String) → String → String → String
below paths at prefix path = at (paths.clean (paths.join prefix path))

module _ {H : Type 0} (paths : Paths) where
  abbrev pub leaf : (String → String) → List (Middleware H) → String → String × Route H → Route H
  leaf at middlewares method (path, route) = record {
    method = method;
    path = at (paths.clean path);
    handler = chain route.handler middlewares;
  }

  unfoldable pub leaves :
      (String → String) → List (Middleware H) → Map String (Map String (Route H)) → List (Route H)
  leaves at middlewares [] = []
  leaves at middlewares ((method, by_path) ∷ rest) =
      map (leaf at middlewares method) by_path ++ leaves at middlewares rest

-- The walk: a route gets the path below all prefixes on its way, and around its handler the
-- middlewares of all routers on its way, those of the root outermost.
unfoldable mutual
  pub flat :
      {H : Type 0} → Paths → (String → String) → List (Middleware H) → Router H → List (Route H)
  flat paths at outer (router by_method groups middlewares) =
      leaves paths at (outer ++ middlewares) by_method
      ++ flat_groups paths at (outer ++ middlewares) groups

  pub flat_groups :
      {H : Type 0} → Paths → (String → String) → List (Middleware H) → Groups H → List (Route H)
  flat_groups paths at outer empty = []
  flat_groups paths at outer (group prefix r rest) =
      flat paths (below paths at prefix) outer r ++ flat_groups paths at outer rest

map_pointwise :
    {A B C : Type 0} (g : B → C) (f : A → B) (h : A → C)
    → ((a : A) → g (f a) ≡ h a)
    → (l : List A) → map g (map f l) ≡ map h l
map_pointwise g f h same l = map-map g f l ∙ ap (λ k. map k l) (fun_ext same)

module _ {H : Type 0} (paths : Paths) where
  placed-own_route :
      (at : String → String) (outer middlewares : List (Middleware H)) (method : String)
      (entry : String × Route H)
      → placed at outer (own_route paths middlewares method entry)
        ≡ leaf paths at (outer ++ middlewares) method entry
  unfolding own_route
  placed-own_route at outer middlewares method (path, route) =
      ap (λ handler. record { method = method; path = at (paths.clean path); handler = handler })
        (chain-append outer middlewares route.handler)

  placed-group_route :
      (at : String → String) (outer middlewares : List (Middleware H)) (prefix : String)
      (route : Route H)
      → placed at outer (group_route paths middlewares prefix route)
        ≡ placed (below paths at prefix) (outer ++ middlewares) route
  unfolding group_route
  placed-group_route at outer middlewares prefix route =
      ap
        (λ handler. record {
          method = route.method;
          path = below paths at prefix route.path;
          handler = handler;
        })
        (chain-append outer middlewares route.handler)

  map-own_routes :
      (at : String → String) (outer middlewares : List (Middleware H))
      (by_method : Map String (Map String (Route H)))
      → map (placed at outer) (own_routes paths middlewares by_method)
        ≡ leaves paths at (outer ++ middlewares) by_method
  unfolding own_routes leaves
  map-own_routes at outer middlewares [] = refl
  map-own_routes at outer middlewares ((method, by_path) ∷ rest) =
      map-append (placed at outer) (map (own_route paths middlewares method) by_path)
        (own_routes paths middlewares rest)
      ∙ ap (λ l. l ++ map (placed at outer) (own_routes paths middlewares rest))
          (map_pointwise (placed at outer) (own_route paths middlewares method) _
            (placed-own_route at outer middlewares method) by_path)
      ∙ ap (λ l. map (leaf paths at (outer ++ middlewares) method) by_path ++ l)
          (map-own_routes at outer middlewares rest)

mutual
  unfolding routes flat

  map-routes :
      {H : Type 0} (paths : Paths) (at : String → String) (outer : List (Middleware H))
      (r : Router H)
      → map (placed at outer) (routes paths r) ≡ flat paths at outer r
  map-routes paths at outer (router by_method groups middlewares) =
      map-append (placed at outer) (own_routes paths middlewares by_method)
        (routes_of_groups paths middlewares groups)
      ∙ ap (λ l. l ++ map (placed at outer) (routes_of_groups paths middlewares groups))
          (map-own_routes paths at outer middlewares by_method)
      ∙ ap (λ l. leaves paths at (outer ++ middlewares) by_method ++ l)
          (map-routes_of_groups paths at outer middlewares groups)

  map-routes_of_groups :
      {H : Type 0} (paths : Paths) (at : String → String) (outer middlewares : List (Middleware H))
      (groups : Groups H)
      → map (placed at outer) (routes_of_groups paths middlewares groups)
        ≡ flat_groups paths at (outer ++ middlewares) groups
  map-routes_of_groups paths at outer middlewares empty = refl
  map-routes_of_groups paths at outer middlewares (group prefix r rest) =
      map-append (placed at outer) (map (group_route paths middlewares prefix) (routes paths r))
        (routes_of_groups paths middlewares rest)
      ∙ ap (λ l. l ++ map (placed at outer) (routes_of_groups paths middlewares rest))
          (map_pointwise (placed at outer) (group_route paths middlewares prefix) _
              (placed-group_route paths at outer middlewares prefix) (routes paths r)
            ∙ map-routes paths (below paths at prefix) (outer ++ middlewares) r)
      ∙ ap (λ l. flat paths (below paths at prefix) (outer ++ middlewares) r ++ l)
          (map-routes_of_groups paths at outer middlewares rest)

map-placed_root : {H : Type 0} (l : List (Route H)) → map (placed (λ path. path) []) l ≡ l
unfolding chain chain_from
map-placed_root [] = refl
map-placed_root (route ∷ l) = ap (λ rest. route ∷ rest) (map-placed_root l)

-- Routes lists the same routes, in the same order of the maps, as the walk from the root: the path
-- of each is below the prefixes of its groups, and around its handler are the middlewares of all
-- routers above it, those of the root outermost.
pub routes-flat :
    {H : Type 0} (paths : Paths) (r : Router H) → routes paths r ≡ flat paths (λ path. path) [] r
routes-flat paths r = sym (map-placed_root (routes paths r)) ∙ map-routes paths (λ path. path) [] r
