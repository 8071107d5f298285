-- ===== src/Api/Routes/Requested.antt =====
-- pkg/api/v1/request.go, path.go, routes.go: a request goes to the route that the service has for it.
use cs.Prelude.{ℕ, String, [], ◌≡◌, refl}
use cs.Router.GoPaths.{go_paths}
use cs.Api.Call.{Call}
use cs.Api.Request.{
  RequestError, Client, Codec, request, get_request, put_request, post_request, delete_request,
}
use cs.Api.Request.Clients.{
  get_request_get_user, get_request_get_user_id, get_request_get_user_name,
  get_request_get_user_host_events, post_request_create_user, delete_request_delete_user,
  put_request_update_user_name, put_request_add_user_host_event, put_request_remove_user_host_event,
  get_request_get_event, post_request_create_event, put_request_update_event,
  delete_request_delete_event, put_request_add_event_participant,
  put_request_remove_event_participant, get_request_get_event_logs, post_request_create_event_log,
  post_request_tx_create_event, put_request_tx_update_event, delete_request_tx_delete_event,
  put_request_tx_join_event, put_request_tx_leave_event,
}
use cs.Api.Routes.{
  Handlers, Wrappers, RequestType, new_user_routes, new_event_routes, new_event_log_routes,
  new_test_tx_routes, request_get_user, request_get_user_id, request_get_user_name,
  request_get_user_host_events, request_create_user, request_delete_user, request_update_user_name,
  request_add_user_host_event, request_remove_user_host_event, request_get_event,
  request_create_event, request_update_event, request_delete_event, request_add_event_participant,
  request_remove_event_participant, request_get_event_logs, request_create_event_log,
  request_tx_create_event, request_tx_update_event, request_tx_delete_event, request_tx_join_event,
  request_tx_leave_event,
}
use cs.Api.Routes.Endpoints.{Serves, method_of, path_of}
use cs.Api.Routes.Served.{routes-Serves}

module _ {W F : Type 0} (client : Client W F) where
  -- The function sends the request of type `T` with its method to its path, below the address.
  abbrev pub GoesTo :
      {In Out : Type 0}
      → RequestType
      → (Codec In Out → String → In → Call W (RequestError F) Out)
      → Type 0
  GoesTo {In} {Out} T send =
      (code : ℕ) × ((codec : Codec In Out) (addr : String) (params : In) (w : W)
        → send codec addr params w
          ≡ request client codec (method_of T) addr (path_of T) code params w)

  -- Every function of request.go for a type of requests does so.
  abbrev pub AllGoTo : Type 0
  AllGoTo =
      GoesTo request_get_user (get_request_get_user client)
      × GoesTo request_get_user_id (get_request_get_user_id client)
      × GoesTo request_get_user_name (get_request_get_user_name client)
      × GoesTo request_get_user_host_events (get_request_get_user_host_events client)
      × GoesTo request_create_user (post_request_create_user client)
      × GoesTo request_delete_user (delete_request_delete_user client)
      × GoesTo request_update_user_name (put_request_update_user_name client)
      × GoesTo request_add_user_host_event (put_request_add_user_host_event client)
      × GoesTo request_remove_user_host_event (put_request_remove_user_host_event client)
      × GoesTo request_get_event (get_request_get_event client)
      × GoesTo request_create_event (post_request_create_event client)
      × GoesTo request_update_event (put_request_update_event client)
      × GoesTo request_delete_event (delete_request_delete_event client)
      × GoesTo request_add_event_participant (put_request_add_event_participant client)
      × GoesTo request_remove_event_participant (put_request_remove_event_participant client)
      × GoesTo request_get_event_logs (get_request_get_event_logs client)
      × GoesTo request_create_event_log (post_request_create_event_log client)
      × GoesTo request_tx_create_event (post_request_tx_create_event client)
      × GoesTo request_tx_update_event (put_request_tx_update_event client)
      × GoesTo request_tx_delete_event (delete_request_tx_delete_event client)
      × GoesTo request_tx_join_event (put_request_tx_join_event client)
      × GoesTo request_tx_leave_event (put_request_tx_leave_event client)

  requests-GoTo : AllGoTo
  unfolding get_request post_request put_request delete_request get_request_get_user
      get_request_get_user_id get_request_get_user_name get_request_get_user_host_events
      post_request_create_user delete_request_delete_user put_request_update_user_name
      put_request_add_user_host_event put_request_remove_user_host_event get_request_get_event
      post_request_create_event put_request_update_event delete_request_delete_event
      put_request_add_event_participant put_request_remove_event_participant
      get_request_get_event_logs post_request_create_event_log post_request_tx_create_event
      put_request_tx_update_event delete_request_tx_delete_event put_request_tx_join_event
      put_request_tx_leave_event
  requests-GoTo = (
    (200, λ codec addr params w. refl),
    (200, λ codec addr params w. refl),
    (200, λ codec addr params w. refl),
    (200, λ codec addr params w. refl),
    (201, λ codec addr params w. refl),
    (204, λ codec addr params w. refl),
    (204, λ codec addr params w. refl),
    (204, λ codec addr params w. refl),
    (204, λ codec addr params w. refl),
    (200, λ codec addr params w. refl),
    (201, λ codec addr params w. refl),
    (204, λ codec addr params w. refl),
    (204, λ codec addr params w. refl),
    (204, λ codec addr params w. refl),
    (204, λ codec addr params w. refl),
    (200, λ codec addr params w. refl),
    (201, λ codec addr params w. refl),
    (201, λ codec addr params w. refl),
    (204, λ codec addr params w. refl),
    (204, λ codec addr params w. refl),
    (204, λ codec addr params w. refl),
    (204, λ codec addr params w. refl),
  )

-- NewUserRoutes, NewEventRoutes and NewEventLogRoutes do not panic. Each lists only routes of
-- requests, and for each type of requests exactly one route with its method and path if it is one
-- of the service's, and else none; the handler of the route is TxParticipant for the service, around
-- the decoding of this type of requests, around the handler of this type. The function of request.go
-- for a type of requests sends them with that method to that path, below the address it is given.
pub requests-Served :
    {H W F : Type 0} (wrap : Wrappers H) (h : Handlers H) (client : Client W F)
    → Serves wrap h "user" (new_user_routes go_paths wrap h)
      × Serves wrap h "event" (new_event_routes go_paths wrap h)
      × Serves wrap h "event_log" (new_event_log_routes go_paths wrap h)
      × (new_test_tx_routes {H = H} go_paths ≡ [])
      × AllGoTo client
requests-Served wrap h client =
    let (user, event, event_log, none_listed) = routes-Serves wrap h in
    (user, event, event_log, none_listed, requests-GoTo client)
