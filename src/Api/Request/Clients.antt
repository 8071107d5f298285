-- ===== src/Api/Request/Clients.antt =====
-- pkg/api/v1/path.go, request.go: the paths of the services, and a function for each request.
use cs.Prelude.{String}
use cs.Api.User.{
  RequestGetUser, ResponseGetUser, RequestGetUserId, ResponseGetUserId, RequestGetUserName,
  ResponseGetUserName, RequestGetUserHostEvents, ResponseGetUserHostEvents, RequestCreateUser,
  ResponseCreateUser, RequestDeleteUser, RequestUpdateUserName, RequestAddUserHostEvent,
  RequestRemoveUserHostEvent, Empty,
}
use cs.Api.Event.{
  RequestGetEvent, ResponseGetEvent, RequestCreateEvent, ResponseCreateEvent, RequestUpdateEvent,
  RequestDeleteEvent, RequestAddEventParticipant, RequestRemoveEventParticipant,
}
use cs.Api.EventLog.{
  RequestCreateEventLog, ResponseCreateEventLog, RequestGetEventLogs, ResponseGetEventLogs,
}
use cs.Api.Tx.{
  RequestTxCreateEvent, ResponseTxCreateEvent, RequestTxUpdateEvent, RequestTxDeleteEvent,
  RequestTxJoinEvent, RequestTxLeaveEvent,
}
use cs.Api.Call.{Call}
use cs.Api.Request.{
  RequestError, Client, Codec, get_request, put_request, post_request, delete_request,
}

abbrev pub path_get_user : String
path_get_user = "/api/v1/user"

abbrev pub path_get_user_id : String
path_get_user_id = "/api/v1/user/id"

abbrev pub path_get_user_name : String
path_get_user_name = "/api/v1/user/name"

abbrev pub path_update_user_name : String
path_update_user_name = "/api/v1/user/name"

abbrev pub path_create_user : String
path_create_user = "/api/v1/user"

abbrev pub path_delete_user : String
path_delete_user = "/api/v1/user"

abbrev pub path_get_user_host_events : String
path_get_user_host_events = "/api/v1/user/host_events"

abbrev pub path_add_user_host_event : String
path_add_user_host_event = "/api/v1/user/host_events/add"

abbrev pub path_remove_user_host_event : String
path_remove_user_host_event = "/api/v1/user/host_events/remove"

abbrev pub path_get_event : String
path_get_event = "/api/v1/event"

abbrev pub path_create_event : String
path_create_event = "/api/v1/event"

abbrev pub path_update_event : String
path_update_event = "/api/v1/event"

abbrev pub path_delete_event : String
path_delete_event = "/api/v1/event"

abbrev pub path_add_event_participant : String
path_add_event_participant = "/api/v1/event/participants/add"

abbrev pub path_remove_event_participant : String
path_remove_event_participant = "/api/v1/event/participants/remove"

abbrev pub path_create_event_log : String
path_create_event_log = "/api/v1/event_log"

abbrev pub path_get_event_logs : String
path_get_event_logs = "/api/v1/event_logs"

abbrev pub path_tx_create_event : String
path_tx_create_event = "/api/v1/tx/event"

abbrev pub path_tx_update_event : String
path_tx_update_event = "/api/v1/tx/event"

abbrev pub path_tx_delete_event : String
path_tx_delete_event = "/api/v1/tx/event"

abbrev pub path_tx_join_event : String
path_tx_join_event = "/api/v1/tx/event/join"

abbrev pub path_tx_leave_event : String
path_tx_leave_event = "/api/v1/tx/event/leave"

module _ {W F : Type 0} (client : Client W F) where
  unfoldable pub get_request_get_user :
      Codec RequestGetUser ResponseGetUser
      → String
      → RequestGetUser
      → Call W (RequestError F) ResponseGetUser
  get_request_get_user codec addr = get_request client codec addr path_get_user 200

  unfoldable pub get_request_get_user_id :
      Codec RequestGetUserId ResponseGetUserId
      → String
      → RequestGetUserId
      → Call W (RequestError F) ResponseGetUserId
  get_request_get_user_id codec addr = get_request client codec addr path_get_user_id 200

  unfoldable pub get_request_get_user_name :
      Codec RequestGetUserName ResponseGetUserName
      → String
      → RequestGetUserName
      → Call W (RequestError F) ResponseGetUserName
  get_request_get_user_name codec addr = get_request client codec addr path_get_user_name 200

  unfoldable pub get_request_get_user_host_events :
      Codec RequestGetUserHostEvents ResponseGetUserHostEvents
      → String
      → RequestGetUserHostEvents
      → Call W (RequestError F) ResponseGetUserHostEvents
  get_request_get_user_host_events codec addr =
      get_request client codec addr path_get_user_host_events 200

  unfoldable pub post_request_create_user :
      Codec RequestCreateUser ResponseCreateUser
      → String
      → RequestCreateUser
      → Call W (RequestError F) ResponseCreateUser
  post_request_create_user codec addr = post_request client codec addr path_create_user 201

  unfoldable pub delete_request_delete_user :
      Codec RequestDeleteUser Empty → String → RequestDeleteUser → Call W (RequestError F) Empty
  delete_request_delete_user codec addr = delete_request client codec addr path_delete_user 204

  unfoldable pub put_request_update_user_name :
      Codec RequestUpdateUserName Empty
      → String
      → RequestUpdateUserName
      → Call W (RequestError F) Empty
  put_request_update_user_name codec addr = put_request client codec addr path_update_user_name 204

  unfoldable pub put_request_add_user_host_event :
      Codec RequestAddUserHostEvent Empty
      → String
      → RequestAddUserHostEvent
      → Call W (RequestError F) Empty
  put_request_add_user_host_event codec addr =
      put_request client codec addr path_add_user_host_event 204

  unfoldable pub put_request_remove_user_host_event :
      Codec RequestRemoveUserHostEvent Empty
      → String
      → RequestRemoveUserHostEvent
      → Call W (RequestError F) Empty
  put_request_remove_user_host_event codec addr =
      put_request client codec addr path_remove_user_host_event 204

  unfoldable pub get_request_get_event :
      Codec RequestGetEvent ResponseGetEvent
      → String
      → RequestGetEvent
      → Call W (RequestError F) ResponseGetEvent
  get_request_get_event codec addr = get_request client codec addr path_get_event 200

  unfoldable pub post_request_create_event :
      Codec RequestCreateEvent ResponseCreateEvent
      → String
      → RequestCreateEvent
      → Call W (RequestError F) ResponseCreateEvent
  post_request_create_event codec addr = post_request client codec addr path_create_event 201

  unfoldable pub put_request_update_event :
      Codec RequestUpdateEvent Empty → String → RequestUpdateEvent → Call W (RequestError F) Empty
  put_request_update_event codec addr = put_request client codec addr path_update_event 204

  unfoldable pub delete_request_delete_event :
      Codec RequestDeleteEvent Empty → String → RequestDeleteEvent → Call W (RequestError F) Empty
  delete_request_delete_event codec addr = delete_request client codec addr path_delete_event 204

  unfoldable pub put_request_add_event_participant :
      Codec RequestAddEventParticipant Empty
      → String
      → RequestAddEventParticipant
      → Call W (RequestError F) Empty
  put_request_add_event_participant codec addr =
      put_request client codec addr path_add_event_participant 204

  unfoldable pub put_request_remove_event_participant :
      Codec RequestRemoveEventParticipant Empty
      → String
      → RequestRemoveEventParticipant
      → Call W (RequestError F) Empty
  put_request_remove_event_participant codec addr =
      put_request client codec addr path_remove_event_participant 204

  unfoldable pub get_request_get_event_logs :
      Codec RequestGetEventLogs ResponseGetEventLogs
      → String
      → RequestGetEventLogs
      → Call W (RequestError F) ResponseGetEventLogs
  get_request_get_event_logs codec addr = get_request client codec addr path_get_event_logs 200

  unfoldable pub post_request_create_event_log :
      Codec RequestCreateEventLog ResponseCreateEventLog
      → String
      → RequestCreateEventLog
      → Call W (RequestError F) ResponseCreateEventLog
  post_request_create_event_log codec addr =
      post_request client codec addr path_create_event_log 201

  unfoldable pub post_request_tx_create_event :
      Codec RequestTxCreateEvent ResponseTxCreateEvent
      → String
      → RequestTxCreateEvent
      → Call W (RequestError F) ResponseTxCreateEvent
  post_request_tx_create_event codec addr = post_request client codec addr path_tx_create_event 201

  unfoldable pub put_request_tx_update_event :
      Codec RequestTxUpdateEvent Empty
      → String
      → RequestTxUpdateEvent
      → Call W (RequestError F) Empty
  put_request_tx_update_event codec addr = put_request client codec addr path_tx_update_event 204

  unfoldable pub delete_request_tx_delete_event :
      Codec RequestTxDeleteEvent Empty
      → String
      → RequestTxDeleteEvent
      → Call W (RequestError F) Empty
  delete_request_tx_delete_event codec addr =
      delete_request client codec addr path_tx_delete_event 204

  unfoldable pub put_request_tx_join_event :
      Codec RequestTxJoinEvent Empty → String → RequestTxJoinEvent → Call W (RequestError F) Empty
  put_request_tx_join_event codec addr = put_request client codec addr path_tx_join_event 204

  unfoldable pub put_request_tx_leave_event :
      Codec RequestTxLeaveEvent Empty → String → RequestTxLeaveEvent → Call W (RequestError F) Empty
  put_request_tx_leave_event codec addr = put_request client codec addr path_tx_leave_event 204
