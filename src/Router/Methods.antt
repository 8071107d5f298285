-- ===== src/Router/Methods.antt =====
-- pkg/router/router.go: the operations that add a route never write to a nil map.
use cs.Prelude.{String, Option, none, some, ite, List, [], ◌∷◌, ◌≡◌, refl, ap, arith}
use cs.Prelude.Lists.{All, All-weaken}
use cs.Prelude.Tests.{string_key}
use cs.Prelude.Map.{Map, lookup, insert, lookup-insert}
use cs.Prelude.Run.{Run, ok}
use cs.Router.{
  Middleware, Route, Router, router, Groups, empty, group, methods, new_route, empty_paths,
  new_router, apply, handle, get, post, put, patch, delete, head, options, prefix, prefix_groups,
}

-- There is a map for the method.
abbrev pub HasMethod : {H : Type 0} → Map String (Map String (Route H)) → String → Type 0
HasMethod {H} by_method method =
    (paths : Map String (Route H)) × (lookup method by_method ≡ some paths)

-- Each router of the tree has a map for each of the seven methods.
unfoldable mutual
  pub Ready : {H : Type 0} → Router H → Type 0
  Ready (router by_method groups middlewares) =
      All (HasMethod by_method) methods × GroupsReady groups

  pub GroupsReady : {H : Type 0} → Groups H → Type 0
  GroupsReady empty = Unit
  GroupsReady (group prefix r rest) = Ready r × GroupsReady rest

module _ {H : Type 0} where
  -- The route of a router itself under a method and a path.
  unfoldable pub route_at : Router H → String → String → Option (Route H)
  route_at (router by_method groups middlewares) method path = elim (lookup method by_method) [
    | none ↦ none
    | some paths ↦ lookup path paths
  ]

  -- The operation returns a router that is ready and has one route more or changed.
  abbrev pub Adds : String → String → H → Router H → Run (Router H) → Type 0
  Adds method path handler r run =
      (r' : Router H) × (run ≡ ok r')
      × Ready r'
      × ((m p : String)
          → route_at r' m p
            ≡ ite (string_key.dec m method)
                (ite (string_key.dec p path) (some (new_route method path handler))
                  (route_at r m p))
                (route_at r m p))

  insert-HasMethod :
      (method : String) (paths : Map String (Route H))
      (by_method : Map String (Map String (Route H)))
      → (m : String) → HasMethod by_method m
      → HasMethod (insert method paths by_method) m
  insert-HasMethod method paths by_method m (old, there) = elim (string_key.dec m method) [
    | yes same ↦ (paths, ground (arith, lookup-insert method m paths by_method, same))
    | no differ ↦ (old, ground (arith, lookup-insert method m paths by_method, differ, there))
  ]

  handle-Adds :
      (method path : String) (handler : H) (by_method : Map String (Map String (Route H)))
      (groups : Groups H) (middlewares : List (Middleware H))
      → Ready (router by_method groups middlewares)
      → HasMethod by_method method
      → Adds method path handler
          (router by_method groups middlewares)
          (handle method path handler (router by_method groups middlewares))
  unfolding handle Ready route_at
  handle-Adds method path handler by_method groups middlewares (has, rest) (paths, there) =
      let paths' = insert path (new_route method path handler) paths in
      (
        router (insert method paths' by_method) groups middlewares,
        ground (arith, there),
        (
          All-weaken (HasMethod by_method) (HasMethod (insert method paths' by_method))
              (insert-HasMethod method paths' by_method) methods has,
          rest,
        ),
        λ m p. ground (
          arith,
          there,
          lookup-insert method m paths' by_method,
          lookup-insert path p (new_route method path handler) paths,
          ap (λ x. lookup x by_method),
        ),
      )

empty_paths-HasMethod :
    (H : Type 0) (ms : List String) → All (HasMethod (empty_paths {H = H} ms)) ms
unfolding empty_paths
empty_paths-HasMethod H [] = tt
empty_paths-HasMethod H (m ∷ ms) = (
  ([], ground (arith, lookup-insert m m [] (empty_paths {H = H} ms))),
  All-weaken (HasMethod (empty_paths {H = H} ms)) (HasMethod (insert m [] (empty_paths {H = H} ms)))
      (insert-HasMethod m [] (empty_paths ms)) ms (empty_paths-HasMethod H ms),
)

pub new_router-Ready : (H : Type 0) → Ready (new_router {H = H})
unfolding Ready new_router
new_router-Ready H = (empty_paths-HasMethod H methods, tt)

module _ {H : Type 0} where
  prefix_groups-Ready :
      (p : String) (change : Router H → Run (Router H)) (groups : Groups H)
      → ((r : Router H) → Ready r → (r' : Router H) × (change r ≡ ok r') × Ready r')
      → GroupsReady groups
      → (groups' : Groups H) × (prefix_groups p change groups ≡ ok groups') × GroupsReady groups'
  unfolding prefix_groups Ready
  prefix_groups-Ready p change empty keeps h =
      let (r, ran, ready) = keeps new_router (new_router-Ready H) in
      (group p r empty, rw ran refl, (ready, tt))
  prefix_groups-Ready p change (group q r rest) keeps (h, hs) =
      let (r', ran, ready) = keeps r h in
      let (rest', later, readies) = prefix_groups-Ready p change rest keeps hs in
      elim (string_key.dec p q) [
        | yes same ↦ (group q r' rest, ground (arith, ran, same), (ready, hs))
        | no differ ↦ (group q r rest', ground (arith, later, differ), (h, readies))
      ]

  -- On a tree of routers that each have a map for each of the seven methods, an operation that adds
  -- a route does not panic, adds the route under its method and path or puts it in place of the one
  -- there, changes no other route of the router, and leaves such a tree. Apply leaves such a tree,
  -- and so does Prefix, with a new router too, if what is then done to the group does.
  pub operations-Ready :
      (r : Router H) (path : String) (handler : H) (added : List (Middleware H))
      (change : Router H → Run (Router H))
      → Ready r
      → ((sub : Router H) → Ready sub → (sub' : Router H) × (change sub ≡ ok sub') × Ready sub')
      → Adds "GET" path handler r (get path handler r)
        × Adds "POST" path handler r (post path handler r)
        × Adds "PUT" path handler r (put path handler r)
        × Adds "PATCH" path handler r (patch path handler r)
        × Adds "DELETE" path handler r (delete path handler r)
        × Adds "HEAD" path handler r (head path handler r)
        × Adds "OPTIONS" path handler r (options path handler r)
        × Ready (apply added r)
        × ((r' : Router H) × (prefix path change r ≡ ok r') × Ready r')
  unfolding get post put patch delete head options apply prefix Ready
  operations-Ready (router by_method groups middlewares) path handler added change h keeps =
      let add = λ (m : String) (has : HasMethod by_method m).
        handle-Adds m path handler by_method groups middlewares h has in
      let (g, (o, (u, (a, (e, (d, (n, _))))))) = h.0 in
      let (groups', ran, ready) = prefix_groups-Ready path change groups keeps h.1 in
      (
        add _ g,
        add _ o,
        add _ u,
        add _ a,
        add _ e,
        add _ d,
        add _ n,
        h,
        (router by_method groups' middlewares, rw ran refl, (h.0, ready)),
      )
