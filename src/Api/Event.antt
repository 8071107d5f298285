-- ===== src/Api/Event.antt =====
-- pkg/api/v1/event.go: the handlers of the events. A request holds an event, not null.
use cs.Prelude.{String, List, ℤ}
use cs.Prelude.Run.{Run}
use cs.Format.{Context}
use cs.Database.LifeCycle.{Err}
use cs.Database.Event.{Event, Time}
use cs.Database.Stores.{EventStore}
use cs.Api.User.{Empty, no_fields}
use cs.Api.Reply.{
  Reply, write_read, unwrapped, err_get_event, err_create_event, err_update_event, err_delete_event,
  err_add_event_participant, err_remove_event_participant,
}

pub record ApiEvent : Type 0 where
  pub event_id : ℤ
  pub event_name : String
  pub event_info : String
  pub host_id : ℤ
  pub start_at : Time
  pub end_at : Time
  pub location : String
  pub participants : List ℤ

unfoldable pub database_event_to_api_event : Event → ApiEvent
database_event_to_api_event event = record {
  event_id = event.id;
  event_name = event.name;
  event_info = event.info;
  host_id = event.host_id;
  start_at = event.start_at;
  end_at = event.end_at;
  location = event.location;
  participants = event.participants;
}

unfoldable pub api_event_to_database_event : ApiEvent → Event
api_event_to_database_event event = record {
  id = event.event_id;
  name = event.event_name;
  info = event.event_info;
  host_id = event.host_id;
  start_at = event.start_at;
  end_at = event.end_at;
  location = event.location;
  participants = event.participants;
}

pub record RequestGetEvent : Type 0 where
  pub event_id : ℤ

pub record ResponseGetEvent : Type 0 where
  pub event : ApiEvent

pub record RequestCreateEvent : Type 0 where
  pub event : ApiEvent

pub record ResponseCreateEvent : Type 0 where
  pub event_id : ℤ

pub record RequestUpdateEvent : Type 0 where
  pub event : ApiEvent

pub record RequestDeleteEvent : Type 0 where
  pub event_id : ℤ

pub record RequestAddEventParticipant : Type 0 where
  pub event_id : ℤ
  pub participant_id : ℤ

pub record RequestRemoveEventParticipant : Type 0 where
  pub event_id : ℤ
  pub participant_id : ℤ

module _ {V D E : Type 0} (store : EventStore V D E) where
  abbrev pub Served : Type 0 → Type 0
  Served A = Context V → D → Context V × D × Run (Reply A (Err E))

  unfoldable pub handle_get_event : RequestGetEvent → D → Reply ResponseGetEvent (Err E)
  handle_get_event req d =
      write_read err_get_event (λ event. record { event = database_event_to_api_event event })
        (store.get_event d req.event_id)

  unfoldable pub handle_create_event : RequestCreateEvent → Served ResponseCreateEvent
  handle_create_event req ctx d =
      unwrapped 201 err_create_event (λ id. record { event_id = id })
        (store.create_event (api_event_to_database_event req.event) ctx d)

  unfoldable pub handle_update_event : RequestUpdateEvent → Served Empty
  handle_update_event req ctx d =
      unwrapped 204 err_update_event (λ _. no_fields)
        (store.update_event (api_event_to_database_event req.event) ctx d)

  unfoldable pub handle_delete_event : RequestDeleteEvent → Served Empty
  handle_delete_event req ctx d =
      unwrapped 204 err_delete_event (λ _. no_fields) (store.delete_event req.event_id ctx d)

  unfoldable pub handle_add_event_participant : RequestAddEventParticipant → Served Empty
  handle_add_event_participant req ctx d =
      unwrapped 204 err_add_event_participant (λ _. no_fields)
        (store.add_participant req.event_id req.participant_id ctx d)

  unfoldable pub handle_remove_event_participant : RequestRemoveEventParticipant → Served Empty
  handle_remove_event_participant req ctx d =
      unwrapped 204 err_remove_event_participant (λ _. no_fields)
        (store.remove_participant req.event_id req.participant_id ctx d)
