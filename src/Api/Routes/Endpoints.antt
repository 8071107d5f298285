-- ===== src/Api/Routes/Endpoints.antt =====
-- pkg/api/v1/routes.go, path.go, request.go: the route that each type of requests has, and what it
-- is for a list of routes to be those of a service.
use cs.Prelude.{String, List, [], ◌∷◌, ◌&&◌, ◌≡◌}
use text.Mathlib.Text.{◌==◌ as same_text}
use cs.Prelude.Tests.{if◌then◌else◌}
use cs.Prelude.Lists.{All}
use cs.Prelude.Run.{Run, ok}
use cs.Router.{Route}
use cs.Api.Request.Clients.{
  path_get_user, path_create_user, path_delete_user, path_get_user_id, path_get_user_name,
  path_update_user_name, path_get_user_host_events, path_add_user_host_event,
  path_remove_user_host_event, path_get_event, path_create_event, path_update_event,
  path_delete_event, path_add_event_participant, path_remove_event_participant, path_get_event_logs,
  path_create_event_log, path_tx_create_event, path_tx_update_event, path_tx_delete_event,
  path_tx_join_event, path_tx_leave_event,
}
use cs.Api.Routes.{
  Handlers, Wrappers, RequestType, request_get_user, request_create_user, request_delete_user,
  request_get_user_id, request_get_user_name, request_update_user_name,
  request_get_user_host_events, request_add_user_host_event, request_remove_user_host_event,
  request_get_event, request_create_event, request_update_event, request_delete_event,
  request_add_event_participant, request_remove_event_participant, request_get_event_logs,
  request_create_event_log, request_tx_create_event, request_tx_update_event,
  request_tx_delete_event, request_tx_join_event, request_tx_leave_event,
}

-- The service, the method and the path of a request, by path.go and request.go.
abbrev pub service_of : RequestType → String
service_of request_get_user = "user"
service_of request_create_user = "user"
service_of request_delete_user = "user"
service_of request_get_user_id = "user"
service_of request_get_user_name = "user"
service_of request_update_user_name = "user"
service_of request_get_user_host_events = "user"
service_of request_add_user_host_event = "user"
service_of request_remove_user_host_event = "user"
service_of request_get_event = "event"
service_of request_create_event = "event"
service_of request_update_event = "event"
service_of request_delete_event = "event"
service_of request_add_event_participant = "event"
service_of request_remove_event_participant = "event"
service_of request_get_event_logs = "event_log"
service_of request_create_event_log = "event_log"
service_of request_tx_create_event = "user"
service_of request_tx_update_event = "user"
service_of request_tx_delete_event = "user"
service_of request_tx_join_event = "event"
service_of request_tx_leave_event = "event"

abbrev pub method_of : RequestType → String
method_of request_get_user = "GET"
method_of request_create_user = "POST"
method_of request_delete_user = "DELETE"
method_of request_get_user_id = "GET"
method_of request_get_user_name = "GET"
method_of request_update_user_name = "PUT"
method_of request_get_user_host_events = "GET"
method_of request_add_user_host_event = "PUT"
method_of request_remove_user_host_event = "PUT"
method_of request_get_event = "GET"
method_of request_create_event = "POST"
method_of request_update_event = "PUT"
method_of request_delete_event = "DELETE"
method_of request_add_event_participant = "PUT"
method_of request_remove_event_participant = "PUT"
method_of request_get_event_logs = "GET"
method_of request_create_event_log = "POST"
method_of request_tx_create_event = "POST"
method_of request_tx_update_event = "PUT"
method_of request_tx_delete_event = "DELETE"
method_of request_tx_join_event = "PUT"
method_of request_tx_leave_event = "PUT"

abbrev pub path_of : RequestType → String
path_of request_get_user = path_get_user
path_of request_create_user = path_create_user
path_of request_delete_user = path_delete_user
path_of request_get_user_id = path_get_user_id
path_of request_get_user_name = path_get_user_name
path_of request_update_user_name = path_update_user_name
path_of request_get_user_host_events = path_get_user_host_events
path_of request_add_user_host_event = path_add_user_host_event
path_of request_remove_user_host_event = path_remove_user_host_event
path_of request_get_event = path_get_event
path_of request_create_event = path_create_event
path_of request_update_event = path_update_event
path_of request_delete_event = path_delete_event
path_of request_add_event_participant = path_add_event_participant
path_of request_remove_event_participant = path_remove_event_participant
path_of request_get_event_logs = path_get_event_logs
path_of request_create_event_log = path_create_event_log
path_of request_tx_create_event = path_tx_create_event
path_of request_tx_update_event = path_tx_update_event
path_of request_tx_delete_event = path_tx_delete_event
path_of request_tx_join_event = path_tx_join_event
path_of request_tx_leave_event = path_tx_leave_event

module _ {H : Type 0} (wrap : Wrappers H) (h : Handlers H) where
  abbrev pub handler_of : RequestType → H
  handler_of request_get_user = h.handle_get_user
  handler_of request_create_user = h.handle_create_user
  handler_of request_delete_user = h.handle_delete_user
  handler_of request_get_user_id = h.handle_get_user_id
  handler_of request_get_user_name = h.handle_get_user_name
  handler_of request_update_user_name = h.handle_update_user_name
  handler_of request_get_user_host_events = h.handle_get_user_host_events
  handler_of request_add_user_host_event = h.handle_add_user_host_event
  handler_of request_remove_user_host_event = h.handle_remove_user_host_event
  handler_of request_get_event = h.handle_get_event
  handler_of request_create_event = h.handle_create_event
  handler_of request_update_event = h.handle_update_event
  handler_of request_delete_event = h.handle_delete_event
  handler_of request_add_event_participant = h.handle_add_event_participant
  handler_of request_remove_event_participant = h.handle_remove_event_participant
  handler_of request_get_event_logs = h.handle_get_event_logs
  handler_of request_create_event_log = h.handle_create_event_log
  handler_of request_tx_create_event = h.handle_tx_create_event
  handler_of request_tx_update_event = h.handle_tx_update_event
  handler_of request_tx_delete_event = h.handle_tx_delete_event
  handler_of request_tx_join_event = h.handle_tx_join_event
  handler_of request_tx_leave_event = h.handle_tx_leave_event

  -- The middleware that decodes the request before the handler runs.
  abbrev pub validate : RequestType → H → H
  validate request_get_user = wrap.validate_query request_get_user
  validate request_create_user = wrap.validate_body request_create_user
  validate request_delete_user = wrap.validate_body request_delete_user
  validate request_get_user_id = wrap.validate_query request_get_user_id
  validate request_get_user_name = wrap.validate_query request_get_user_name
  validate request_update_user_name = wrap.validate_body request_update_user_name
  validate request_get_user_host_events = wrap.validate_query request_get_user_host_events
  validate request_add_user_host_event = wrap.validate_body request_add_user_host_event
  validate request_remove_user_host_event = wrap.validate_body request_remove_user_host_event
  validate request_get_event = wrap.validate_query request_get_event
  validate request_create_event = wrap.validate_body request_create_event
  validate request_update_event = wrap.validate_body request_update_event
  validate request_delete_event = wrap.validate_body request_delete_event
  validate request_add_event_participant = wrap.validate_body request_add_event_participant
  validate request_remove_event_participant = wrap.validate_body request_remove_event_participant
  validate request_get_event_logs = wrap.validate_query request_get_event_logs
  validate request_create_event_log = wrap.validate_body request_create_event_log
  validate request_tx_create_event = wrap.validate_body request_tx_create_event
  validate request_tx_update_event = wrap.validate_body request_tx_update_event
  validate request_tx_delete_event = wrap.validate_body request_tx_delete_event
  validate request_tx_join_event = wrap.validate_body request_tx_join_event
  validate request_tx_leave_event = wrap.validate_body request_tx_leave_event

  -- The route of a request: TxParticipant of its service, then the decoding of the request, then the
  -- handler.
  abbrev pub served : RequestType → Route H
  served T = record {
    method = method_of T;
    path = path_of T;
    handler = wrap.tx_participant (service_of T) (validate T (handler_of T));
  }

-- The routes of a list with a method and a path.
unfoldable pub matching : {H : Type 0} → String → String → List (Route H) → List (Route H)
matching method path [] = []
matching method path (route ∷ rest) =
    let later = matching method path rest in
    if same_text route.method method && same_text route.path path then route ∷ later else later

module _ {H : Type 0} (wrap : Wrappers H) (h : Handlers H) where
  -- The listed routes are routes of requests, and a request has one route if it is one of the
  -- service, and else none.
  abbrev pub Serves : String → Run (List (Route H)) → Type 0
  Serves service run =
      (l : List (Route H)) × (run ≡ ok l)
      × All (λ route. (T : RequestType) × (route ≡ served wrap h T)) l
      × ((T : RequestType)
          → matching (method_of T) (path_of T) l
            ≡ (if same_text (service_of T) service then served wrap h T ∷ [] else []))
