-- ===== src/Tests/Routes.antt =====
-- pkg/api/v1/routes.go, with handlers that are texts, and middlewares that write around them.
use cs.Prelude.{String, [], ◌≡◌}
use Prim.Native.String.{◌++◌ as str_append}
use cs.Router.GoPaths.{go_paths}
use cs.Api.Routes.{
  Handlers, Wrappers, new_user_routes, new_event_routes, new_event_log_routes, new_test_tx_routes,
}
use cs.Api.Routes.Endpoints.{Serves}
use cs.Api.Routes.Requested.{AllGoTo, requests-Served}
use cs.Tests.Requests.{client}

abbrev around : String → String → String
around name handler = str_append name (str_append "(" (str_append handler ")"))

abbrev wrappers : Wrappers String
wrappers = record {
  validate_query = λ T. around "query";
  validate_body = λ T. around "body";
  tx_participant = around;
}

abbrev handlers : Handlers String
handlers = record {
  handle_get_user = "get_user";
  handle_create_user = "create_user";
  handle_delete_user = "delete_user";
  handle_get_user_id = "get_user_id";
  handle_get_user_name = "get_user_name";
  handle_update_user_name = "update_user_name";
  handle_get_user_host_events = "get_user_host_events";
  handle_add_user_host_event = "add_user_host_event";
  handle_remove_user_host_event = "remove_user_host_event";
  handle_get_event = "get_event";
  handle_create_event = "create_event";
  handle_update_event = "update_event";
  handle_delete_event = "delete_event";
  handle_add_event_participant = "add_event_participant";
  handle_remove_event_participant = "remove_event_participant";
  handle_get_event_logs = "get_event_logs";
  handle_create_event_log = "create_event_log";
  handle_tx_create_event = "tx_create_event";
  handle_tx_update_event = "tx_update_event";
  handle_tx_delete_event = "tx_delete_event";
  handle_tx_join_event = "tx_join_event";
  handle_tx_leave_event = "tx_leave_event";
}

requests-Served_example :
    Serves wrappers handlers "user" (new_user_routes go_paths wrappers handlers)
    × Serves wrappers handlers "event" (new_event_routes go_paths wrappers handlers)
    × Serves wrappers handlers "event_log" (new_event_log_routes go_paths wrappers handlers)
    × (new_test_tx_routes {H = String} go_paths ≡ [])
    × AllGoTo client
requests-Served_example = requests-Served wrappers handlers client
