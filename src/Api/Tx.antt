-- ===== src/Api/Tx.antt =====
-- pkg/api/v1/tx.go: the handlers of the transactions on events, each a row of calls of the services.
pub mod Plans
pub mod Services
pub mod World
pub mod Effects
pub mod Did
pub mod Handlers
pub mod Consistent
pub mod Lookups
use cs.Prelude.{ℕ, zero, String, ◌⊎◌, inl, inr, List, [], ℤ, pos}
use cs.Database.Event.{Time}
use cs.Database.EventLog.{event_create, event_update, event_delete, event_join, event_leave}
use cs.Api.User.{RequestAddUserHostEvent, RequestRemoveUserHostEvent, Empty, no_fields}
use cs.Api.Event.{
  ApiEvent, RequestGetEvent, ResponseGetEvent, RequestCreateEvent, ResponseCreateEvent,
  RequestUpdateEvent, RequestDeleteEvent, RequestAddEventParticipant, RequestRemoveEventParticipant,
}
use cs.Api.EventLog.{RequestCreateEventLog, ResponseCreateEventLog}
use cs.Api.Reply.{
  Reply, reply, failed, ApiError, err_tx_create_event, err_tx_update_event, err_tx_delete_event,
  err_tx_join_event, err_tx_leave_event,
}
use cs.Api.Call.{Call, pure, ◌>>=◌}

-- The functions of request.go on the services' addresses. `W` is the state of the services and of
-- the network, `F` are the errors of `Request`.
pub record Peers (W F : Type 0) : Type 0 where
  pub post_create_event : RequestCreateEvent → Call W F ResponseCreateEvent
  pub get_get_event : RequestGetEvent → Call W F ResponseGetEvent
  pub put_update_event : RequestUpdateEvent → Call W F Empty
  pub delete_delete_event : RequestDeleteEvent → Call W F Empty
  pub put_add_event_participant : RequestAddEventParticipant → Call W F Empty
  pub put_remove_event_participant : RequestRemoveEventParticipant → Call W F Empty
  pub post_create_event_log : RequestCreateEventLog → Call W F ResponseCreateEventLog
  pub put_add_user_host_event : RequestAddUserHostEvent → Call W F Empty
  pub put_remove_user_host_event : RequestRemoveUserHostEvent → Call W F Empty

pub record RequestTxCreateEvent : Type 0 where
  pub user_id : ℤ
  pub event_name : String
  pub event_info : String
  pub start_at : Time
  pub end_at : Time
  pub location : String
  pub participants : List ℤ

pub record ResponseTxCreateEvent : Type 0 where
  pub event_id : ℤ

pub record RequestTxUpdateEvent : Type 0 where
  pub user_id : ℤ
  pub event_id : ℤ
  pub event_name : String
  pub event_info : String
  pub start_at : Time
  pub end_at : Time
  pub location : String

pub record RequestTxDeleteEvent : Type 0 where
  pub user_id : ℤ
  pub event_id : ℤ

pub record RequestTxJoinEvent : Type 0 where
  pub event_id : ℤ
  pub host_id : ℤ
  pub participant_id : ℤ

pub record RequestTxLeaveEvent : Type 0 where
  pub event_id : ℤ
  pub host_id : ℤ
  pub participant_id : ℤ

-- The event of a request to create one, before it has an id.
unfoldable pub event_to_create : RequestTxCreateEvent → ApiEvent
event_to_create req = record {
  event_id = pos 0;
  event_name = req.event_name;
  event_info = req.event_info;
  host_id = req.user_id;
  start_at = req.start_at;
  end_at = req.end_at;
  location = req.location;
  participants = req.participants;
}

unfoldable pub event_to_update : RequestTxUpdateEvent → ApiEvent
event_to_update req = record {
  event_id = req.event_id;
  event_name = req.event_name;
  event_info = req.event_info;
  host_id = req.user_id;
  start_at = req.start_at;
  end_at = req.end_at;
  location = req.location;
  participants = [];
}

-- `&APIEvent{}`
abbrev pub no_event : ApiEvent
no_event = record {
  event_id = pos 0;
  event_name = "";
  event_info = "";
  host_id = pos 0;
  start_at = 0;
  end_at = 0;
  location = "";
  participants = [];
}

abbrev pub log_request : ℤ → ℤ → String → ApiEvent → RequestCreateEventLog
log_request user_id event_id event_type event = record {
  user_id = user_id;
  event_id = event_id;
  event_type = event_type;
  event = event;
}

module _ {W F : Type 0} where
  -- The response, or 500 with the error of the handler around that of the call that failed.
  unfoldable pub answer : {A : Type 0} → ℕ → ApiError → W × (F ⊎ A) → W × Reply A F
  answer code api_error (w, inl f) = (w, failed 500 api_error f)
  answer code api_error (w, inr a) = (w, reply code a)

module _ {W F : Type 0} (peers : Peers W F) where
  unfoldable pub create_event_calls : RequestTxCreateEvent → Call W F ResponseTxCreateEvent
  create_event_calls req = do
    created ← peers.post_create_event (record { event = event_to_create req })
    let event = record (event_to_create req) { event_id = created.event_id }
    _ ← peers.post_create_event_log (log_request event.host_id event.event_id event_create event)
    _ ←
        peers.put_add_user_host_event
          (record { user_id = event.host_id; event_id = event.event_id })
    pure (record { event_id = event.event_id })

  unfoldable pub handle_tx_create_event :
      RequestTxCreateEvent → W → W × Reply ResponseTxCreateEvent F
  handle_tx_create_event req w = answer 201 err_tx_create_event (create_event_calls req w)

  unfoldable pub update_event_calls : RequestTxUpdateEvent → Call W F Empty
  update_event_calls req = do
    _ ← peers.put_update_event (record { event = event_to_update req })
    _ ←
        peers.post_create_event_log
          (log_request req.user_id req.event_id event_update (event_to_update req))
    pure no_fields

  unfoldable pub handle_tx_update_event : RequestTxUpdateEvent → W → W × Reply Empty F
  handle_tx_update_event req w = answer 204 err_tx_update_event (update_event_calls req w)

  unfoldable pub delete_event_calls : RequestTxDeleteEvent → Call W F Empty
  delete_event_calls req = do
    _ ← peers.put_remove_user_host_event (record { user_id = req.user_id; event_id = req.event_id })
    got ← peers.get_get_event (record { event_id = req.event_id })
    _ ← peers.delete_delete_event (record { event_id = req.event_id })
    _ ← peers.post_create_event_log (log_request req.user_id req.event_id event_delete got.event)
    pure no_fields

  unfoldable pub handle_tx_delete_event : RequestTxDeleteEvent → W → W × Reply Empty F
  handle_tx_delete_event req w = answer 204 err_tx_delete_event (delete_event_calls req w)

  unfoldable pub join_event_calls : RequestTxJoinEvent → Call W F Empty
  join_event_calls req = do
    _ ←
        peers.put_add_event_participant
          (record { event_id = req.event_id; participant_id = req.participant_id })
    _ ←
        peers.post_create_event_log
          (log_request req.participant_id req.event_id event_join no_event)
    pure no_fields

  unfoldable pub handle_tx_join_event : RequestTxJoinEvent → W → W × Reply Empty F
  handle_tx_join_event req w = answer 204 err_tx_join_event (join_event_calls req w)

  unfoldable pub leave_event_calls : RequestTxLeaveEvent → Call W F Empty
  leave_event_calls req = do
    _ ←
        peers.put_remove_event_participant
          (record { event_id = req.event_id; participant_id = req.participant_id })
    _ ←
        peers.post_create_event_log
          (log_request req.participant_id req.event_id event_leave no_event)
    pure no_fields

  unfoldable pub handle_tx_leave_event : RequestTxLeaveEvent → W → W × Reply Empty F
  handle_tx_leave_event req w = answer 204 err_tx_leave_event (leave_event_calls req w)
