-- ===== src/Router.antt =====
-- pkg/router/router.go, pkg/middleware/types.go: routes, groups of routes under a prefix, and the
-- middlewares around their handlers.
pub mod Middlewares
pub mod Flat
pub mod Methods
pub mod GoPaths
use cs.Prelude.{ℕ, zero, suc, String, Option, none, some, List, [], ◌∷◌, ◌++◌, map, ite}
use cs.Prelude.Lists.{length, get_elem?}
use cs.Prelude.Tests.{Key, string_key}
use cs.Prelude.Map.{Map, lookup, insert}
use cs.Prelude.Run.{Run, ok, panic, ◌>>=◌}

abbrev pub Middleware : Type 0 → Type 0
Middleware H = H → H

-- `path.Join` of two paths and `filepath.Clean`.
pub record Paths : Type 0 where
  pub join : String → String → String
  pub clean : String → String

module _ {H : Type 0} where
  unfoldable pub apply_at : List (Middleware H) → ℕ → H → H
  apply_at middlewares i handler = elim (get_elem? middlewares i) [
    | none ↦ handler
    | some middleware ↦ middleware handler
  ]

  -- `for i := n - 1; i >= 0; i-- { handler = middlewares[i](handler) }`
  unfoldable pub chain_from : ℕ → List (Middleware H) → H → H
  chain_from zero middlewares handler = handler
  chain_from (suc i) middlewares handler = chain_from i middlewares (apply_at middlewares i handler)

  unfoldable pub chain : H → List (Middleware H) → H
  chain handler middlewares = chain_from (length middlewares) middlewares handler

pub record Route (H : Type 0) : Type 0 where
  pub method : String
  pub path : String
  pub handler : H

-- `groups` is a map from a prefix to a router, in some order.
mutual
  pub data Router (H : Type 0) : Type 0 where
    router : Map String (Map String (Route H)) → Groups H → List (Middleware H) → Router H

  pub data Groups (H : Type 0) : Type 0 where
    empty : Groups H
    group : String → Router H → Groups H → Groups H

abbrev pub methods : List String
methods = "GET" ∷ "POST" ∷ "PUT" ∷ "PATCH" ∷ "DELETE" ∷ "HEAD" ∷ "OPTIONS" ∷ []

module _ {H : Type 0} where
  unfoldable pub new_route : String → String → H → Route H
  new_route method path handler = record { method = method; path = path; handler = handler }

  unfoldable pub apply_route : List (Middleware H) → Route H → Route H
  apply_route middlewares route = record route { handler = chain route.handler middlewares }

  unfoldable pub empty_paths : List String → Map String (Map String (Route H))
  empty_paths [] = []
  empty_paths (method ∷ rest) = insert method [] (empty_paths rest)

  unfoldable pub new_router : Router H
  new_router = router (empty_paths methods) empty []

  unfoldable pub apply : List (Middleware H) → Router H → Router H
  apply added (router routes groups middlewares) = router routes groups (middlewares ++ added)

  -- `r.routes[method][path] = route`: a write to a nil map panics.
  unfoldable pub handle : String → String → H → Router H → Run (Router H)
  handle method path handler (router routes groups middlewares) = elim (lookup method routes) [
    | none ↦ panic
    | some paths ↦ ok (
        router (insert method (insert path (new_route method path handler) paths) routes) groups
          middlewares)
  ]

  -- The methods return the pointer of the new route, on which the caller applies middlewares.
  unfoldable pub apply_at_route : String → String → List (Middleware H) → Router H → Run (Router H)
  apply_at_route method path added (router routes groups middlewares) =
      elim (lookup method routes) [
        | none ↦ panic
        | some paths ↦ elim (lookup path paths) [
          | none ↦ panic
          | some route ↦ ok (
              router (insert method (insert path (apply_route added route) paths) routes) groups
                middlewares)
        ]
      ]

  unfoldable pub get : String → H → Router H → Run (Router H)
  get path handler r = handle "GET" path handler r

  unfoldable pub post : String → H → Router H → Run (Router H)
  post path handler r = handle "POST" path handler r

  unfoldable pub put : String → H → Router H → Run (Router H)
  put path handler r = handle "PUT" path handler r

  unfoldable pub patch : String → H → Router H → Run (Router H)
  patch path handler r = handle "PATCH" path handler r

  unfoldable pub delete : String → H → Router H → Run (Router H)
  delete path handler r = handle "DELETE" path handler r

  unfoldable pub head : String → H → Router H → Run (Router H)
  head path handler r = handle "HEAD" path handler r

  unfoldable pub options : String → H → Router H → Run (Router H)
  options path handler r = handle "OPTIONS" path handler r

  -- The group of a prefix, a new router if there is none, is changed in place by `change`: Prefix
  -- returns a pointer into the map.
  unfoldable pub prefix_groups : String → (Router H → Run (Router H)) → Groups H → Run (Groups H)
  prefix_groups prefix change empty = change new_router >>= λ r. ok (group prefix r empty)
  prefix_groups prefix change (group p r rest) =
      let later = prefix_groups prefix change rest in
      elim (string_key.dec prefix p) [
        | yes _ ↦ change r >>= λ r'. ok (group p r' rest)
        | no _ ↦ later >>= λ rest'. ok (group p r rest')
      ]

  unfoldable pub prefix : String → (Router H → Run (Router H)) → Router H → Run (Router H)
  prefix p change (router routes groups middlewares) =
      prefix_groups p change groups >>= λ groups'. ok (router routes groups' middlewares)

module _ {H : Type 0} (paths : Paths) where
  -- The route of a router as Routes lists it, and a route of one of its groups.
  unfoldable pub own_route : List (Middleware H) → String → String × Route H → Route H
  own_route middlewares method (path, route) = record {
    method = method;
    path = paths.clean path;
    handler = chain route.handler middlewares;
  }

  unfoldable pub group_route : List (Middleware H) → String → Route H → Route H
  group_route middlewares prefix route = record {
    method = route.method;
    path = paths.clean (paths.join prefix route.path);
    handler = chain route.handler middlewares;
  }

  unfoldable pub own_routes :
      List (Middleware H) → Map String (Map String (Route H)) → List (Route H)
  own_routes middlewares [] = []
  own_routes middlewares ((method, by_path) ∷ rest) =
      map (own_route middlewares method) by_path ++ own_routes middlewares rest

unfoldable mutual
  -- The order of the loops over the maps is some order, here that of the entries.
  pub routes : {H : Type 0} → Paths → Router H → List (Route H)
  routes paths (router by_method groups middlewares) =
      own_routes paths middlewares by_method ++ routes_of_groups paths middlewares groups

  pub routes_of_groups : {H : Type 0} → Paths → List (Middleware H) → Groups H → List (Route H)
  routes_of_groups paths middlewares empty = []
  routes_of_groups paths middlewares (group prefix r rest) =
      map (group_route paths middlewares prefix) (routes paths r)
      ++ routes_of_groups paths middlewares rest

-- The engine of a service; its configuration and its mux are left out.
pub record Engine (H : Type 0) : Type 0 where
  pub router : Router H
  pub custom_routes : List (Route H)

module _ {H : Type 0} where
  unfoldable pub new_engine : Engine H
  new_engine = record { router = new_router; custom_routes = [] }

  unfoldable pub engine_prefix : String → (Router H → Run (Router H)) → Engine H → Run (Engine H)
  engine_prefix p change engine =
      prefix p change engine.router >>= λ r. ok (record engine { router = r })

  unfoldable pub engine_apply : List (Middleware H) → Engine H → Engine H
  engine_apply added engine = record engine { router = apply added engine.router }

  unfoldable pub engine_routes : Paths → Engine H → List (Route H)
  engine_routes paths engine = routes paths engine.router

  unfoldable pub add_route : Route H → Engine H → Engine H
  add_route route engine = record engine { custom_routes = engine.custom_routes ++ route ∷ [] }
