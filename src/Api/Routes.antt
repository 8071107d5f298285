-- ===== src/Api/Routes.antt =====
-- pkg/api/v1/routes.go: the routes of the services. A handler is what `http.Handler` holds, and
-- `T` stands for the type of requests that a middleware decodes.
pub mod Endpoints
pub mod Served
pub mod Requested
use cs.Prelude.{String, List, [], ◌∷◌}
use cs.Prelude.Run.{Run, ok, ◌>>=◌}
use cs.Router.{
  Middleware, Paths, Route, Router, apply, get, post, put, delete, apply_at_route, prefix, Engine,
  new_engine, engine_prefix, engine_routes,
}

-- The handlers that `cfg` makes, by the functions of package v1 that make them.
pub record Handlers (H : Type 0) : Type 0 where
  pub handle_get_user : H
  pub handle_create_user : H
  pub handle_delete_user : H
  pub handle_get_user_id : H
  pub handle_get_user_name : H
  pub handle_update_user_name : H
  pub handle_get_user_host_events : H
  pub handle_add_user_host_event : H
  pub handle_remove_user_host_event : H
  pub handle_get_event : H
  pub handle_create_event : H
  pub handle_update_event : H
  pub handle_delete_event : H
  pub handle_add_event_participant : H
  pub handle_remove_event_participant : H
  pub handle_get_event_logs : H
  pub handle_create_event_log : H
  pub handle_tx_create_event : H
  pub handle_tx_update_event : H
  pub handle_tx_delete_event : H
  pub handle_tx_join_event : H
  pub handle_tx_leave_event : H

-- The types of the requests.
pub data RequestType : Type 0 where
  request_get_user request_create_user request_delete_user request_get_user_id : RequestType
  request_get_user_name request_update_user_name request_get_user_host_events : RequestType
  request_add_user_host_event request_remove_user_host_event : RequestType
  request_get_event request_create_event request_update_event request_delete_event : RequestType
  request_add_event_participant request_remove_event_participant : RequestType
  request_get_event_logs request_create_event_log : RequestType
  request_tx_create_event request_tx_update_event request_tx_delete_event : RequestType
  request_tx_join_event request_tx_leave_event : RequestType

-- `ValidateQuery[T]`, `ValidateBody[T]`, and TxParticipant for a service.
pub record Wrappers (H : Type 0) : Type 0 where
  pub validate_query : RequestType → Middleware H
  pub validate_body : RequestType → Middleware H
  pub tx_participant : String → Middleware H

module _ {H : Type 0} (wrap : Wrappers H) where
  -- `r.Get(path, handler).Apply(middleware.ValidateQuery[T])`, and the like.
  unfoldable pub get_query : String → H → RequestType → Router H → Run (Router H)
  get_query path handler T r =
      get path handler r >>= apply_at_route "GET" path (wrap.validate_query T ∷ [])

  unfoldable pub post_body : String → H → RequestType → Router H → Run (Router H)
  post_body path handler T r =
      post path handler r >>= apply_at_route "POST" path (wrap.validate_body T ∷ [])

  unfoldable pub put_body : String → H → RequestType → Router H → Run (Router H)
  put_body path handler T r =
      put path handler r >>= apply_at_route "PUT" path (wrap.validate_body T ∷ [])

  unfoldable pub delete_body : String → H → RequestType → Router H → Run (Router H)
  delete_body path handler T r =
      delete path handler r >>= apply_at_route "DELETE" path (wrap.validate_body T ∷ [])

module _ {H : Type 0} (paths : Paths) (wrap : Wrappers H) (h : Handlers H) where
  -- What the nested blocks of NewUserRoutes do to each group.
  unfoldable pub user_name_group : Router H → Run (Router H)
  user_name_group name =
      get_query wrap "/" h.handle_get_user_name request_get_user_name name >>= λ name.
      put_body wrap "/" h.handle_update_user_name request_update_user_name name

  unfoldable pub user_host_events_group : Router H → Run (Router H)
  user_host_events_group host_events =
      get_query wrap "/" h.handle_get_user_host_events request_get_user_host_events host_events
      >>= λ host_events.
          put_body wrap "/add" h.handle_add_user_host_event request_add_user_host_event host_events
          >>= λ host_events.
              put_body wrap "/remove" h.handle_remove_user_host_event request_remove_user_host_event
                host_events

  unfoldable pub user_group : Router H → Run (Router H)
  user_group user = get_query wrap "/" h.handle_get_user request_get_user user >>= λ user.
      post_body wrap "/" h.handle_create_user request_create_user user >>= λ user.
      delete_body wrap "/" h.handle_delete_user request_delete_user user >>= λ user.
      get_query wrap "/id" h.handle_get_user_id request_get_user_id user >>= λ user.
      prefix "/name" user_name_group user >>= λ user.
      prefix "/host_events" user_host_events_group user

  unfoldable pub user_tx_event_group : Router H → Run (Router H)
  user_tx_event_group event =
      post_body wrap "/" h.handle_tx_create_event request_tx_create_event event >>= λ event.
      put_body wrap "/" h.handle_tx_update_event request_tx_update_event event >>= λ event.
      delete_body wrap "/" h.handle_tx_delete_event request_tx_delete_event event

  unfoldable pub user_api_v1 : Router H → Run (Router H)
  user_api_v1 api_v1 =
      prefix "/user" user_group (apply (wrap.tx_participant "user" ∷ []) api_v1) >>= λ api_v1.
      prefix "/tx" (prefix "/event" user_tx_event_group) api_v1

  unfoldable pub new_user_routes : Run (List (Route H))
  new_user_routes =
      engine_prefix "/api/v1" user_api_v1 new_engine >>= λ r. ok (engine_routes paths r)

  unfoldable pub event_participants_group : Router H → Run (Router H)
  event_participants_group participants =
      put_body wrap "/add" h.handle_add_event_participant request_add_event_participant participants
      >>= λ participants.
          put_body wrap "/remove" h.handle_remove_event_participant request_remove_event_participant
            participants

  unfoldable pub event_group : Router H → Run (Router H)
  event_group event = get_query wrap "/" h.handle_get_event request_get_event event >>= λ event.
      post_body wrap "/" h.handle_create_event request_create_event event >>= λ event.
      put_body wrap "/" h.handle_update_event request_update_event event >>= λ event.
      delete_body wrap "/" h.handle_delete_event request_delete_event event >>= λ event.
      prefix "participants" event_participants_group event

  unfoldable pub event_tx_event_group : Router H → Run (Router H)
  event_tx_event_group event =
      put_body wrap "/join" h.handle_tx_join_event request_tx_join_event event >>= λ event.
      put_body wrap "/leave" h.handle_tx_leave_event request_tx_leave_event event

  unfoldable pub event_api_v1 : Router H → Run (Router H)
  event_api_v1 api_v1 =
      prefix "/event" event_group (apply (wrap.tx_participant "event" ∷ []) api_v1) >>= λ api_v1.
      prefix "/tx" (prefix "/event" event_tx_event_group) api_v1

  unfoldable pub new_event_routes : Run (List (Route H))
  new_event_routes =
      engine_prefix "/api/v1" event_api_v1 new_engine >>= λ r. ok (engine_routes paths r)

  unfoldable pub event_log_api_v1 : Router H → Run (Router H)
  event_log_api_v1 api_v1 =
      get_query wrap "/event_logs" h.handle_get_event_logs request_get_event_logs
        (apply (wrap.tx_participant "event_log" ∷ []) api_v1)
      >>= λ api_v1.
          post_body wrap "/event_log" h.handle_create_event_log request_create_event_log api_v1

  unfoldable pub new_event_log_routes : Run (List (Route H))
  new_event_log_routes =
      engine_prefix "/api/v1" event_log_api_v1 new_engine >>= λ r. ok (engine_routes paths r)

unfoldable pub new_test_tx_routes : {H : Type 0} → Paths → List (Route H)
new_test_tx_routes {H} paths = engine_routes paths (new_engine {H = H})
