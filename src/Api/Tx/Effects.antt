-- ===== src/Api/Tx/Effects.antt =====
-- pkg/api/v1/tx.go: the effect on the services' tables of each call that the handlers make.
use cs.Prelude.{ℕ, refl, ap, inl, inr, ℤ, pos}
use cs.Prelude.Map.{Map}
use cs.Format.{Context}
use cs.Database.LifeCycle.{Err, start}
use cs.Database.Sql.{nil, on_table}
use cs.Database.User
use cs.Database.User.{UserRow, user_api_key}
use cs.Database.Event
use cs.Database.Event.{EventRow, Time, event_api_key}
use cs.Database.EventLog
use cs.Database.EventLog.{LogRow, log_api_key}
use cs.Api.Reply.{
  ApiError, unwrapped, err_add_user_host_event, err_create_event, err_remove_user_host_event,
  err_get_event, err_update_event, err_delete_event, err_add_event_participant,
  err_remove_event_participant, err_create_event_log,
}
use cs.Api.Event.{
  ApiEvent, ResponseGetEvent, handle_get_event, handle_create_event, handle_update_event,
  handle_delete_event, handle_add_event_participant, handle_remove_event_participant,
  api_event_to_database_event, database_event_to_api_event,
}
use cs.Api.EventLog.{RequestCreateEventLog, handle_create_event_log}
use cs.Api.User.{no_fields, handle_add_user_host_event, handle_remove_user_host_event}
use cs.Api.Tx.{Peers}
use cs.Api.Tx.Plans.{HasEffect}
use cs.Api.Tx.Services.{Network, serve, deliver-read, Statements, serve-Statements}
use cs.Api.Tx.World.{
  UserService, EventService, EventLogService, World, Tables, at_users, at_events, at_logs, view,
  peers,
}
use cs.Api.Tx.Did.{
  OnUsers, OnEvents, OnLogs, at_users-HasEffect, at_events-HasEffect, at_logs-HasEffect, DidCreate,
  DidGet, DidUpdate, DidDelete, DidJoin, DidLeave, DidLog, DidHost, DidUnhost,
}

module _ {V N Du De Dl F E : Type 0} (network : Network N F) (us : UserService V Du E)
    (es : EventService V De E) (ls : EventLogService V Dl E) (ctx : Context V) where
  abbrev tables : World N Du De Dl → Tables
  tables = view us es ls

  abbrev calls : Peers (World N Du De Dl) F
  calls = peers network us es ls ctx

  user_call-HasEffect :
      {R B X : Type 0} (new_result : R → V) (zero : R) (api : User.UserStoreApi) (pick : Du → X)
      (body : X → Map ℤ UserRow → Map ℤ UserRow × R × Err E) (code : ℕ) (api_error : ApiError)
      (response : R → B)
      → HasEffect tables
          (at_users (
            serve network code (λ d. unwrapped code api_error response (
              start us.pool new_result zero us.hooks api
                (on_table us.table (body (pick d)))
                ctx
                d))))
          (OnUsers (Statements response body))
  user_call-HasEffect new_result zero api pick body code api_error response =
      at_users-HasEffect us es ls
        (serve network code (λ d.
          unwrapped code api_error response
            (start us.pool new_result zero us.hooks api (on_table us.table (body (pick d))) ctx d)))
        (Statements response body)
        (serve-Statements network us.pool new_result zero us.hooks api us.table pick body code
          api_error response ctx (us.leaves api))

  event_call-HasEffect :
      {R B X : Type 0} (new_result : R → V) (zero : R) (api : Event.EventStoreApi) (pick : De → X)
      (body : X → Map ℤ EventRow → Map ℤ EventRow × R × Err E) (code : ℕ) (api_error : ApiError)
      (response : R → B)
      → HasEffect tables
          (at_events (
            serve network code (λ d. unwrapped code api_error response (
              start es.pool new_result zero es.hooks api
                (on_table es.table (body (pick d)))
                ctx
                d))))
          (OnEvents (Statements response body))
  event_call-HasEffect new_result zero api pick body code api_error response =
      at_events-HasEffect us es ls
        (serve network code (λ d.
          unwrapped code api_error response
            (start es.pool new_result zero es.hooks api (on_table es.table (body (pick d))) ctx d)))
        (Statements response body)
        (serve-Statements network es.pool new_result zero es.hooks api es.table pick body code
          api_error response ctx (es.leaves api))

  log_call-HasEffect :
      {R B X : Type 0} (new_result : R → V) (zero : R) (api : EventLog.EventLogStoreApi)
      (pick : Dl → X) (body : X → Map ℤ LogRow → Map ℤ LogRow × R × Err E) (code : ℕ)
      (api_error : ApiError) (response : R → B)
      → HasEffect tables
          (at_logs (
            serve network code (λ d. unwrapped code api_error response (
              start ls.pool new_result zero ls.hooks api
                (on_table ls.table (body (pick d)))
                ctx
                d))))
          (OnLogs (Statements response body))
  log_call-HasEffect new_result zero api pick body code api_error response =
      at_logs-HasEffect us es ls
        (serve network code (λ d.
          unwrapped code api_error response
            (start ls.pool new_result zero ls.hooks api (on_table ls.table (body (pick d))) ctx d)))
        (Statements response body)
        (serve-Statements network ls.pool new_result zero ls.hooks api ls.table pick body code
          api_error response ctx (ls.leaves api))

  pub DidCreate-HasEffect :
      (event : ApiEvent)
      → HasEffect tables
          (calls.post_create_event (record { event = event }))
          (DidCreate network us es ls ctx event)
  unfolding handle_create_event Event.create_event
  DidCreate-HasEffect event =
      event_call-HasEffect es.id_result (pos 0) Event.api_create_event (λ _. nil)
        (λ _. Event.create_event_tx es.sql es.stored (api_event_to_database_event event)) 201
        err_create_event (λ id. record { event_id = id })

  pub DidUpdate-HasEffect :
      (event : ApiEvent)
      → HasEffect tables
          (calls.put_update_event (record { event = event }))
          (DidUpdate network us es ls ctx event)
  unfolding handle_update_event Event.update_event
  DidUpdate-HasEffect event =
      event_call-HasEffect es.nil_result nil Event.api_update_event (λ _. nil)
        (λ _. Event.update_event_tx es.sql es.stored (api_event_to_database_event event)) 204
        err_update_event (λ _. no_fields)

  pub DidDelete-HasEffect :
      (event_id : ℤ)
      → HasEffect tables
          (calls.delete_delete_event (record { event_id = event_id }))
          (DidDelete network us es ls ctx event_id)
  unfolding handle_delete_event Event.delete_event
  DidDelete-HasEffect event_id =
      event_call-HasEffect es.nil_result nil Event.api_delete_event (λ _. nil)
        (λ _. Event.delete_event_tx es.sql event_id) 204 err_delete_event (λ _. no_fields)

  pub DidJoin-HasEffect :
      (event_id participant_id : ℤ)
      → HasEffect tables
          (calls.put_add_event_participant
            (record { event_id = event_id; participant_id = participant_id }))
          (DidJoin network us es ls ctx event_id participant_id)
  unfolding handle_add_event_participant Event.add_participant
  DidJoin-HasEffect event_id participant_id =
      event_call-HasEffect es.nil_result nil Event.api_add_participant (λ _. nil)
        (λ _. Event.add_participant_tx es.sql event_id participant_id) 204 err_add_event_participant
        (λ _. no_fields)

  pub DidLeave-HasEffect :
      (event_id participant_id : ℤ)
      → HasEffect tables
          (calls.put_remove_event_participant
            (record { event_id = event_id; participant_id = participant_id }))
          (DidLeave network us es ls ctx event_id participant_id)
  unfolding handle_remove_event_participant Event.remove_participant
  DidLeave-HasEffect event_id participant_id =
      event_call-HasEffect es.nil_result nil Event.api_remove_participant (λ _. nil)
        (λ _. Event.remove_participant_tx es.sql event_id participant_id) 204
        err_remove_event_participant (λ _. no_fields)

  pub DidLog-HasEffect :
      (req : RequestCreateEventLog)
      → HasEffect tables (calls.post_create_event_log req) (DidLog network us es ls ctx req)
  unfolding handle_create_event_log EventLog.create_event_log
  DidLog-HasEffect req =
      log_call-HasEffect ls.id_result (pos 0) EventLog.api_get_event_logs ls.now
        (λ now.
          EventLog.create_event_log_tx ls.fmt ls.sql ls.unknown now req.event_id req.user_id
            req.event_type (api_event_to_database_event req.event))
        201 err_create_event_log (λ id. record { log_id = id })

  pub DidHost-HasEffect :
      (user_id event_id : ℤ)
      → HasEffect tables
          (calls.put_add_user_host_event (record { user_id = user_id; event_id = event_id }))
          (DidHost network us es ls ctx user_id event_id)
  unfolding handle_add_user_host_event User.add_host_event
  DidHost-HasEffect user_id event_id =
      user_call-HasEffect us.nil_result nil User.api_add_host_event (λ _. nil)
        (λ _. User.add_host_event_tx us.sql user_id event_id) 204 err_add_user_host_event
        (λ _. no_fields)

  pub DidUnhost-HasEffect :
      (user_id event_id : ℤ)
      → HasEffect tables
          (calls.put_remove_user_host_event (record { user_id = user_id; event_id = event_id }))
          (DidUnhost network us es ls ctx user_id event_id)
  unfolding handle_remove_user_host_event User.remove_host_event
  DidUnhost-HasEffect user_id event_id =
      user_call-HasEffect us.nil_result nil User.api_remove_host_event (λ _. nil)
        (λ _. User.remove_host_event_tx us.sql user_id event_id) 204 err_remove_user_host_event
        (λ _. no_fields)

  pub DidGet-HasEffect :
      (event_id : ℤ)
      → HasEffect tables
          (calls.get_get_event (record { event_id = event_id }))
          (DidGet network us es ls ctx event_id)
  unfolding handle_get_event serve
  DidGet-HasEffect event_id w =
      let response : Event.Event → ResponseGetEvent =
        λ event. record { event = database_event_to_api_event event } in
      elim (deliver-read network err_get_event response (network.next_fault w.net).1 w.events
        (Event.get_event es.sql (es.table.rows w.events) event_id)) [
          | inl (b, good, (event, found, is), same) ↦
              inl (b, good, ((event, found, is, ap es.table.rows same), refl, refl))
          | inr (f, bad, same) ↦
              inr (f, bad, inl (ap (λ d. record (tables w) { events = es.table.rows d }) same))
        ]
