-- ===== src/Tests/Routers.antt =====
-- pkg/router/router.go, with handlers that are texts, and middlewares that write around them.
use cs.Prelude.{String, [], ◌∷◌, ◌≡◌, refl}
use Prim.Native.String.{◌++◌ as str_append}
use cs.Prelude.Tests.{string_key}
use cs.Prelude.Run.{ok}
use cs.Router.{
  Middleware, Paths, Router, router, empty, group, new_router, apply, get, post, put, patch, delete,
  head, options, prefix, routes, own_route, own_routes, group_route, chain, chain_from, apply_at,
}
use cs.Router.Flat.{flat, routes-flat}
use cs.Router.Methods.{Ready, Adds, new_router-Ready, operations-Ready}

abbrev paths : Paths
paths = record { join = λ p q. str_append p q; clean = λ p. p }

abbrev around : String → Middleware String
around name handler = str_append name (str_append "(" (str_append handler ")"))

-- A router with one group.
abbrev tree : Router String
tree =
    router []
      (group "/api"
        (router
          (("GET", ("/user", record { method = "GET"; path = "/user"; handler = "read" }) ∷ [])
            ∷ [])
          empty (around "inner" ∷ []))
        empty)
      (around "first" ∷ around "second" ∷ [])

routes-flat_example : routes paths tree ≡ flat paths (λ path. path) [] tree
routes-flat_example = routes-flat paths tree

tree_listed :
    routes paths tree
    ≡ record { method = "GET"; path = "/api/user"; handler = "first(second(inner(read)))" } ∷ []
unfolding routes own_routes own_route group_route chain chain_from apply_at
tree_listed = refl

abbrev read : String
read = "read"

operations-Ready_example :
    Adds "GET" "/" read new_router (get "/" read new_router)
    × Adds "POST" "/" read new_router (post "/" read new_router)
    × Adds "PUT" "/" read new_router (put "/" read new_router)
    × Adds "PATCH" "/" read new_router (patch "/" read new_router)
    × Adds "DELETE" "/" read new_router (delete "/" read new_router)
    × Adds "HEAD" "/" read new_router (head "/" read new_router)
    × Adds "OPTIONS" "/" read new_router (options "/" read new_router)
    × Ready (apply (around "first" ∷ []) (new_router {H = String}))
    × ((r' : Router String) × (prefix "/" (λ sub. ok sub) new_router ≡ ok r') × Ready r')
operations-Ready_example =
    operations-Ready new_router "/" "read" (around "first" ∷ []) (λ sub. ok sub)
      (new_router-Ready String) (λ sub ready. (sub, refl, ready))
