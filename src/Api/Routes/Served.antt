-- ===== src/Api/Routes/Served.antt =====
-- pkg/api/v1/routes.go, path.go, request.go: the routes are those that the requests go to.
use cs.Prelude.{String, List, [], ◌∷◌, map, ◌≡◌, refl}
use text.Mathlib.Text.{◌==◌ as same_text}
use cs.Prelude.Tests.{if◌then◌else◌, string_discrete}
use cs.Prelude.Lists.{All}
use cs.Prelude.Run.{ok}
use cs.Router.{
  engine_prefix, engine_routes, new_engine, new_router, empty_paths, prefix, prefix_groups, apply,
  apply_at_route, apply_route, new_route, get, post, put, delete, handle, routes, own_routes,
  own_route, group_route, chain, chain_from, apply_at,
}
use cs.Router.GoPaths.{
  go_paths, clean_path, join_paths, relative, join_elements, resolve, parent, is_rooted,
  elements_of, prepend,
}
use cs.Prelude.Map.{insert, lookup}
use cs.Api.Routes.{
  Handlers, Wrappers, RequestType, request_get_user, request_create_user, request_delete_user,
  request_get_user_id, request_get_user_name, request_update_user_name,
  request_get_user_host_events, request_add_user_host_event, request_remove_user_host_event,
  request_get_event, request_create_event, request_update_event, request_delete_event,
  request_add_event_participant, request_remove_event_participant, request_get_event_logs,
  request_create_event_log, request_tx_create_event, request_tx_update_event,
  request_tx_delete_event, request_tx_join_event, request_tx_leave_event, new_user_routes,
  new_event_routes, new_event_log_routes, new_test_tx_routes, get_query, post_body, put_body,
  delete_body, user_api_v1, user_group, user_name_group, user_host_events_group,
  user_tx_event_group, event_api_v1, event_group, event_participants_group, event_tx_event_group,
  event_log_api_v1,
}
use cs.Api.Routes.Endpoints.{service_of, method_of, path_of, served, matching, Serves}

abbrev user_requests : List RequestType
user_requests =
    request_delete_user ∷ request_create_user ∷ request_get_user ∷ request_get_user_id
    ∷ request_update_user_name ∷ request_get_user_name ∷ request_add_user_host_event
    ∷ request_remove_user_host_event ∷ request_get_user_host_events ∷ request_tx_delete_event
    ∷ request_tx_update_event ∷ request_tx_create_event ∷ []

abbrev event_requests : List RequestType
event_requests =
    request_delete_event ∷ request_update_event ∷ request_create_event ∷ request_get_event
    ∷ request_add_event_participant ∷ request_remove_event_participant ∷ request_tx_join_event
    ∷ request_tx_leave_event ∷ []

abbrev event_log_requests : List RequestType
event_log_requests = request_create_event_log ∷ request_get_event_logs ∷ []

module _ {H : Type 0} (wrap : Wrappers H) (h : Handlers H) where
  map-served :
      (ts : List RequestType)
      → All (λ route. (T : RequestType) × (route ≡ served wrap h T)) (map (served wrap h) ts)
  map-served [] = tt
  map-served (T ∷ ts) = ((T, refl), map-served ts)

  -- The part of a list of routes for a request.
  abbrev Part : String → List RequestType → RequestType → Type 0
  Part service ts T =
      matching (method_of T) (path_of T) (map (served wrap h) ts)
      ≡ (if same_text (service_of T) service then served wrap h T ∷ [] else [])

  parts :
      (T : RequestType)
      → Part "user" user_requests T
        × Part "event" event_requests T
        × Part "event_log" event_log_requests T
  unfolding matching
  parts request_get_user = (refl, refl, refl)
  parts request_create_user = (refl, refl, refl)
  parts request_delete_user = (refl, refl, refl)
  parts request_get_user_id = (refl, refl, refl)
  parts request_get_user_name = (refl, refl, refl)
  parts request_update_user_name = (refl, refl, refl)
  parts request_get_user_host_events = (refl, refl, refl)
  parts request_add_user_host_event = (refl, refl, refl)
  parts request_remove_user_host_event = (refl, refl, refl)
  parts request_get_event = (refl, refl, refl)
  parts request_create_event = (refl, refl, refl)
  parts request_update_event = (refl, refl, refl)
  parts request_delete_event = (refl, refl, refl)
  parts request_add_event_participant = (refl, refl, refl)
  parts request_remove_event_participant = (refl, refl, refl)
  parts request_get_event_logs = (refl, refl, refl)
  parts request_create_event_log = (refl, refl, refl)
  parts request_tx_create_event = (refl, refl, refl)
  parts request_tx_update_event = (refl, refl, refl)
  parts request_tx_delete_event = (refl, refl, refl)
  parts request_tx_join_event = (refl, refl, refl)
  parts request_tx_leave_event = (refl, refl, refl)

  listed :
      (new_user_routes go_paths wrap h ≡ ok (map (served wrap h) user_requests))
      × (new_event_routes go_paths wrap h ≡ ok (map (served wrap h) event_requests))
      × (new_event_log_routes go_paths wrap h ≡ ok (map (served wrap h) event_log_requests))
  unfolding new_user_routes user_api_v1 user_group user_name_group user_host_events_group
      user_tx_event_group get_query post_body put_body delete_body new_engine engine_prefix
      engine_routes new_router empty_paths prefix prefix_groups apply apply_at_route apply_route
      new_route get post put delete handle routes own_routes own_route group_route chain chain_from
      apply_at insert clean_path join_paths relative join_elements resolve parent is_rooted
      elements_of prepend lookup string_discrete new_event_routes event_api_v1 event_group
      event_participants_group event_tx_event_group new_event_log_routes event_log_api_v1
  listed = (refl, refl, refl)

  pub routes-Serves :
      Serves wrap h "user" (new_user_routes go_paths wrap h)
      × Serves wrap h "event" (new_event_routes go_paths wrap h)
      × Serves wrap h "event_log" (new_event_log_routes go_paths wrap h)
      × (new_test_tx_routes {H = H} go_paths ≡ [])
  unfolding new_test_tx_routes engine_routes new_engine new_router empty_paths insert
      string_discrete routes own_routes
  routes-Serves = (
    (map (served wrap h) user_requests, listed.0, map-served user_requests, λ T. (parts T).0),
    (map (served wrap h) event_requests, listed.1, map-served event_requests, λ T. (parts T).1),
    (
      map (served wrap h) event_log_requests,
      listed.2,
      map-served event_log_requests,
      λ T. (parts T).2,
    ),
    refl,
  )
