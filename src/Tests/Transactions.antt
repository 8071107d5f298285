-- ===== src/Tests/Transactions.antt =====
-- pkg/api/v1/tx.go, with services whose databases are one table each.
use cs.Prelude.{
  String, true, false, none, some, ◌≡◌, refl, List, [], ◌∷◌, ℤ, pos, int_key, ℕ_discrete,
}
use cs.Prelude.Map.{Map, lookup}
use cs.Database.User.{UserRow, user_api_key}
use cs.Database.Event.{EventRow, event_api_key}
use cs.Database.EventLog.{LogRow, Fmt, log_api_key}
use cs.Api.Reply.{reply, failed}
use cs.Api.User.{no_fields}
use cs.Api.Tx.Services.{Fault}
use cs.Api.Tx.World.{World, view}
use cs.Format.{get_trace_context, set_trace_context}
use cs.Format
use cs.Prelude.Map.{insert}
use cs.Prelude.Ints.{ℤ_discrete}
use cs.Prelude.Tests.{string_discrete, Bool-cases}
use cs.Database.LifeCycle.{
  hooks_of, run_hooks, run_after_hooks, keep_result, then_after, in_tx, with_tx, then_end, start,
  finish_tx, set_result, unwrap_result,
}
use cs.Database.Sql.{query_row, exec, insert_returning, update_row, delete_row, on_table}
use cs.Database.Sql.Ids.{add_id, delete_id}
use cs.Database.User
use cs.Database.User.{user_api_discrete}
use cs.Database.Event
use cs.Database.Event.{event_api_discrete}
use cs.Database.EventLog
use cs.Database.EventLog.{
  log_api_discrete, content_of, event_create, event_delete, event_join, event_leave,
}
use cs.Database.User.Hosting.{hosts}
use cs.Database.Event.Participation.{joined}
use cs.Api.Reply.{
  unwrapped, write, write_read, err_tx_create_event, err_tx_update_event, err_tx_delete_event,
  err_tx_join_event, err_tx_leave_event,
}
use cs.Api.User.{handle_add_user_host_event, handle_remove_user_host_event}
use cs.Api.Event.{
  api_event_to_database_event, handle_create_event, handle_get_event, handle_delete_event,
  handle_add_event_participant, handle_remove_event_participant,
}
use cs.Api.EventLog.{handle_create_event_log}
use cs.Api.Tx.{
  answer, create_event_calls, delete_event_calls, join_event_calls, leave_event_calls,
  event_to_create, handle_tx_create_event, handle_tx_update_event, handle_tx_delete_event,
  handle_tx_join_event, handle_tx_leave_event,
}
use cs.Api.Tx.Handlers.{
  Answers, create_plan, update_plan, delete_plan, join_plan, leave_plan, handlers-Answers,
}
use cs.Api.Tx.Consistent.{create-Logged, others-Logged}
use cs.Api.Tx.Lookups.{Logged}
use cs.Api.Tx.Services.{serve, deliver, accept}
use cs.Tests.Stores.{ctx}
use cs.Tests.Events.{same_time, events}
use cs.Tests.Services.{
  network, user_service, event_service, log_service, before, create, change, delete, join, leave,
  services, lossy,
}

create_answered :
    (handle_tx_create_event services create before).1 ≡ reply 201 (record { event_id = pos 0 })
unfolding handle_tx_create_event create_event_calls event_to_create handle_create_event
    handle_add_user_host_event Event.create_event Event.create_event_tx Event.row_of_event
    User.add_host_event User.add_host_event_tx User.set_host_events update_row add_id answer serve
    deliver accept unwrapped write unwrap_result handle_create_event_log EventLog.create_event_log
    EventLog.create_event_log_tx content_of insert_returning query_row exec start run_hooks hooks_of
    lookup then_end with_tx finish_tx in_tx then_after keep_result get_trace_context
    set_trace_context on_table run_after_hooks set_result Format.set insert ℤ_discrete ℕ_discrete
    string_discrete Bool-cases user_api_discrete event_api_discrete log_api_discrete
create_answered = refl

create-Logged_example :
    (lookup
        (pos 0)
        (view user_service event_service log_service
          (handle_tx_create_event services create before).0).events
      ≡ some (Event.row_of_event same_time (api_event_to_database_event (event_to_create create))))
    × (hosts
          (view user_service event_service log_service
            (handle_tx_create_event services create before).0).users
          (pos 0)
          (pos 0)
        ≡ true)
    × Logged
        (view user_service event_service log_service
          (handle_tx_create_event services create before).0).logs
        (pos 0)
        (pos 0)
        event_create
create-Logged_example =
    create-Logged network user_service event_service log_service ctx create before
      (record { event_id = pos 0 }) create_answered

handlers-Answers_example :
    Answers
      (view user_service event_service log_service)
      201
      err_tx_create_event
      (handle_tx_create_event services create)
      (create_plan network user_service event_service log_service ctx create)
      lossy
    × Answers
        (view user_service event_service log_service)
        204
        err_tx_update_event
        (handle_tx_update_event services change)
        (update_plan network user_service event_service log_service ctx change)
        lossy
    × Answers
        (view user_service event_service log_service)
        204
        err_tx_delete_event
        (handle_tx_delete_event services delete)
        (delete_plan network user_service event_service log_service ctx delete)
        lossy
    × Answers
        (view user_service event_service log_service)
        204
        err_tx_join_event
        (handle_tx_join_event services join)
        (join_plan network user_service event_service log_service ctx join)
        lossy
    × Answers
        (view user_service event_service log_service)
        204
        err_tx_leave_event
        (handle_tx_leave_event services leave)
        (leave_plan network user_service event_service log_service ctx leave)
        lossy
handlers-Answers_example =
    handlers-Answers network user_service event_service log_service ctx create change delete join
      leave lossy

-- The response to the second call of the creation is lost: the event stays, and the log too, but the
-- user does not host the event.
create_stopped :
    (handle_tx_create_event services create lossy).1 ≡ failed 500 err_tx_create_event "timeout"
unfolding handle_tx_create_event create_event_calls event_to_create handle_create_event
    handle_add_user_host_event Event.create_event Event.create_event_tx Event.row_of_event
    User.add_host_event User.add_host_event_tx User.set_host_events update_row add_id answer serve
    deliver accept unwrapped write unwrap_result handle_create_event_log EventLog.create_event_log
    EventLog.create_event_log_tx content_of insert_returning query_row exec start run_hooks hooks_of
    lookup then_end with_tx finish_tx in_tx then_after keep_result get_trace_context
    set_trace_context on_table run_after_hooks set_result Format.set insert ℤ_discrete ℕ_discrete
    string_discrete Bool-cases user_api_discrete event_api_discrete log_api_discrete
create_stopped = refl

nobody_hosts : (handle_tx_create_event services create lossy).0.users ≡ before.users
unfolding handle_tx_create_event create_event_calls event_to_create handle_create_event
    handle_add_user_host_event Event.create_event Event.create_event_tx Event.row_of_event
    User.add_host_event User.add_host_event_tx User.set_host_events update_row add_id answer serve
    deliver accept unwrapped write unwrap_result handle_create_event_log EventLog.create_event_log
    EventLog.create_event_log_tx content_of insert_returning query_row exec start run_hooks hooks_of
    lookup then_end with_tx finish_tx in_tx then_after keep_result get_trace_context
    set_trace_context on_table run_after_hooks set_result Format.set insert ℤ_discrete ℕ_discrete
    string_discrete Bool-cases user_api_discrete event_api_discrete log_api_discrete
nobody_hosts = refl

-- A party of the user.
abbrev planned : World (List (Fault String)) (Map ℤ UserRow) (Map ℤ EventRow) (Map ℤ LogRow)
planned = record before {
  users = (pos 0, record { user_name = "ann"; host_events = pos 0 ∷ [] }) ∷ [];
  events = events;
}

delete_answered : (handle_tx_delete_event services delete planned).1 ≡ reply 204 no_fields
unfolding handle_tx_delete_event delete_event_calls handle_get_event write_read Event.get_event
    Event.event_of_row handle_delete_event handle_remove_user_host_event Event.delete_event
    Event.delete_event_tx delete_row User.remove_host_event User.remove_host_event_tx
    User.set_host_events update_row delete_id answer serve deliver accept unwrapped write
    unwrap_result handle_create_event_log EventLog.create_event_log EventLog.create_event_log_tx
    content_of insert_returning query_row exec start run_hooks hooks_of lookup then_end with_tx
    finish_tx in_tx then_after keep_result get_trace_context set_trace_context on_table
    run_after_hooks set_result Format.set insert ℤ_discrete ℕ_discrete string_discrete Bool-cases
    user_api_discrete event_api_discrete log_api_discrete
delete_answered = refl

join_answered : (handle_tx_join_event services join planned).1 ≡ reply 204 no_fields
unfolding handle_tx_join_event join_event_calls handle_add_event_participant Event.add_participant
    Event.add_participant_tx Event.set_participants update_row add_id answer serve deliver accept
    unwrapped write unwrap_result handle_create_event_log EventLog.create_event_log
    EventLog.create_event_log_tx content_of insert_returning query_row exec start run_hooks hooks_of
    lookup then_end with_tx finish_tx in_tx then_after keep_result get_trace_context
    set_trace_context on_table run_after_hooks set_result Format.set insert ℤ_discrete ℕ_discrete
    string_discrete Bool-cases user_api_discrete event_api_discrete log_api_discrete
join_answered = refl

leave_answered : (handle_tx_leave_event services leave planned).1 ≡ reply 204 no_fields
unfolding handle_tx_leave_event leave_event_calls handle_remove_event_participant
    Event.remove_participant Event.remove_participant_tx Event.set_participants update_row delete_id
    answer serve deliver accept unwrapped write unwrap_result handle_create_event_log
    EventLog.create_event_log EventLog.create_event_log_tx content_of insert_returning query_row
    exec start run_hooks hooks_of lookup then_end with_tx finish_tx in_tx then_after keep_result
    get_trace_context set_trace_context on_table run_after_hooks set_result Format.set insert
    ℤ_discrete ℕ_discrete string_discrete Bool-cases user_api_discrete event_api_discrete
    log_api_discrete
leave_answered = refl

others-Logged_example :
    ((lookup
          (pos 0)
          (view user_service event_service log_service
            (handle_tx_delete_event services delete planned).0).events
        ≡ none)
      × (hosts
            (view user_service event_service log_service
              (handle_tx_delete_event services delete planned).0).users
            (pos 0)
            (pos 0)
          ≡ false)
      × Logged
          (view user_service event_service log_service
            (handle_tx_delete_event services delete planned).0).logs
          (pos 0)
          (pos 0)
          event_delete)
    × ((joined
            (view user_service event_service log_service
              (handle_tx_join_event services join planned).0).events
            (pos 0)
            (pos 8)
          ≡ true)
        × Logged
            (view user_service event_service log_service
              (handle_tx_join_event services join planned).0).logs
            (pos 0)
            (pos 8)
            event_join)
    × ((joined
            (view user_service event_service log_service
              (handle_tx_leave_event services leave planned).0).events
            (pos 0)
            (pos 3)
          ≡ false)
        × Logged
            (view user_service event_service log_service
              (handle_tx_leave_event services leave planned).0).logs
            (pos 0)
            (pos 3)
            event_leave)
others-Logged_example =
    others-Logged network user_service event_service log_service ctx delete join leave planned
      no_fields delete_answered join_answered leave_answered
