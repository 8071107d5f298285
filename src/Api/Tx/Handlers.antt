-- ===== src/Api/Tx/Handlers.antt =====
-- pkg/api/v1/tx.go: each handler does its calls in order; when one fails, it answers with the error
-- and makes no other, and what the calls before it did stays done.
use cs.Prelude.{ℕ, ◌≡◌, refl, ◌⊎◌, inl, inr}
use cs.Format.{Context}
use cs.Database.EventLog.{event_create, event_update, event_delete, event_join, event_leave}
use cs.Api.Reply.{
  Reply, reply, failed, ApiError, err_tx_create_event, err_tx_update_event, err_tx_delete_event,
  err_tx_join_event, err_tx_leave_event,
}
use cs.Api.User.{Empty, no_fields}
use cs.Api.Call.{Call}
use cs.Api.Tx.{
  RequestTxCreateEvent, ResponseTxCreateEvent, RequestTxUpdateEvent, RequestTxDeleteEvent,
  RequestTxJoinEvent, RequestTxLeaveEvent, event_to_create, event_to_update, no_event, log_request,
  answer, create_event_calls, update_event_calls, delete_event_calls, join_event_calls,
  leave_event_calls, handle_tx_create_event, handle_tx_update_event, handle_tx_delete_event,
  handle_tx_join_event, handle_tx_leave_event,
}
use cs.Api.Tx.Plans.{Plan, done, step, Runs, Stops, Follows, pure-Follows, bind-Follows}
use cs.Api.Tx.Services.{Network}
use cs.Api.Tx.World.{UserService, EventService, EventLogService, World, Tables, view, peers}
use cs.Api.Tx.Effects.{
  DidCreate-HasEffect, DidGet-HasEffect, DidUpdate-HasEffect, DidDelete-HasEffect,
  DidJoin-HasEffect, DidLeave-HasEffect, DidLog-HasEffect, DidHost-HasEffect, DidUnhost-HasEffect,
}
use cs.Api.Tx.Did.{
  DidCreate, DidGet, DidUpdate, DidDelete, DidJoin, DidLeave, DidLog, DidHost, DidUnhost,
}

-- A handler answers with `code` and has run the whole plan, or with 500 and its error around that of
-- the call at which the plan stopped.
abbrev pub Answers :
    {W V A F : Type 0} → (W → V) → ℕ → ApiError → (W → W × Reply A F) → Plan V A → W → Type 0
Answers {W} {V} {A} {F} view code api_error handler plan w =
    ((a : A) × ((handler w).1 ≡ reply code a) × Runs plan a (view w) (view (handler w).0))
    ⊎ ((f : F) × ((handler w).1 ≡ failed 500 api_error f)
        × Stops plan (view w) (view (handler w).0))

answer-Answers :
    {W V A F : Type 0} (view : W → V) (code : ℕ) (api_error : ApiError) (call : Call W F A)
    (plan : Plan V A)
    → Follows view call plan
    → (w : W) → Answers view code api_error (λ w. answer code api_error (call w)) plan w
unfolding answer
answer-Answers view code api_error call plan follows w = elim (follows w) [
  | inl (a, good, runs) ↦ rw (good, answer) (inl (a, refl, runs))
  | inr (f, bad, stops) ↦ rw (bad, answer) (inr (f, refl, stops))
]

module _ {V N Du De Dl F E : Type 0} (network : Network N F) (us : UserService V Du E)
    (es : EventService V De E) (ls : EventLogService V Dl E) (ctx : Context V) where
  abbrev pub create_plan : RequestTxCreateEvent → Plan Tables ResponseTxCreateEvent
  create_plan req = step (DidCreate network us es ls ctx (event_to_create req)) λ response.
      let event = record (event_to_create req) { event_id = response.event_id } in
      step
        (DidLog network us es ls ctx (log_request req.user_id response.event_id event_create event))
        λ _.
          step (DidHost network us es ls ctx req.user_id response.event_id)
            λ _. done (record { event_id = response.event_id })

  abbrev pub update_plan : RequestTxUpdateEvent → Plan Tables Empty
  update_plan req = step (DidUpdate network us es ls ctx (event_to_update req)) λ _.
      step
        (DidLog network us es ls ctx
          (log_request req.user_id req.event_id event_update (event_to_update req)))
        λ _. done no_fields

  abbrev pub delete_plan : RequestTxDeleteEvent → Plan Tables Empty
  delete_plan req = step (DidUnhost network us es ls ctx req.user_id req.event_id) λ _.
      step (DidGet network us es ls ctx req.event_id) λ response.
        step (DidDelete network us es ls ctx req.event_id) λ _.
          step
            (DidLog network us es ls ctx
              (log_request req.user_id req.event_id event_delete response.event))
            λ _. done no_fields

  abbrev pub join_plan : RequestTxJoinEvent → Plan Tables Empty
  join_plan req = step (DidJoin network us es ls ctx req.event_id req.participant_id) λ _.
      step
        (DidLog network us es ls ctx
          (log_request req.participant_id req.event_id event_join no_event))
        λ _. done no_fields

  abbrev pub leave_plan : RequestTxLeaveEvent → Plan Tables Empty
  leave_plan req = step (DidLeave network us es ls ctx req.event_id req.participant_id) λ _.
      step
        (DidLog network us es ls ctx
          (log_request req.participant_id req.event_id event_leave no_event))
        λ _. done no_fields

  abbrev tables : World N Du De Dl → Tables
  tables = view us es ls

  create_event_calls-Follows :
      (req : RequestTxCreateEvent)
      → Follows tables (create_event_calls (peers network us es ls ctx) req) (create_plan req)
  unfolding create_event_calls event_to_create
  create_event_calls-Follows req =
      bind-Follows tables _ _ _ _ (DidCreate-HasEffect network us es ls ctx (event_to_create req))
        λ response. bind-Follows tables _ _ _ _ (DidLog-HasEffect network us es ls ctx _) λ _.
          bind-Follows tables _ _ _ _
            (DidHost-HasEffect network us es ls ctx req.user_id response.event_id)
            λ _. pure-Follows tables _

  update_event_calls-Follows :
      (req : RequestTxUpdateEvent)
      → Follows tables (update_event_calls (peers network us es ls ctx) req) (update_plan req)
  unfolding update_event_calls
  update_event_calls-Follows req =
      bind-Follows tables _ _ _ _ (DidUpdate-HasEffect network us es ls ctx _) λ _.
        bind-Follows tables _ _ _ _ (DidLog-HasEffect network us es ls ctx _)
          λ _. pure-Follows tables _

  delete_event_calls-Follows :
      (req : RequestTxDeleteEvent)
      → Follows tables (delete_event_calls (peers network us es ls ctx) req) (delete_plan req)
  unfolding delete_event_calls
  delete_event_calls-Follows req =
      bind-Follows tables _ _ _ _ (DidUnhost-HasEffect network us es ls ctx _ _) λ _.
        bind-Follows tables _ _ _ _ (DidGet-HasEffect network us es ls ctx _) λ _.
          bind-Follows tables _ _ _ _ (DidDelete-HasEffect network us es ls ctx _) λ _.
            bind-Follows tables _ _ _ _ (DidLog-HasEffect network us es ls ctx _)
              λ _. pure-Follows tables _

  join_event_calls-Follows :
      (req : RequestTxJoinEvent)
      → Follows tables (join_event_calls (peers network us es ls ctx) req) (join_plan req)
  unfolding join_event_calls
  join_event_calls-Follows req =
      bind-Follows tables _ _ _ _ (DidJoin-HasEffect network us es ls ctx _ _) λ _.
        bind-Follows tables _ _ _ _ (DidLog-HasEffect network us es ls ctx _)
          λ _. pure-Follows tables _

  leave_event_calls-Follows :
      (req : RequestTxLeaveEvent)
      → Follows tables (leave_event_calls (peers network us es ls ctx) req) (leave_plan req)
  unfolding leave_event_calls
  leave_event_calls-Follows req =
      bind-Follows tables _ _ _ _ (DidLeave-HasEffect network us es ls ctx _ _) λ _.
        bind-Follows tables _ _ _ _ (DidLog-HasEffect network us es ls ctx _)
          λ _. pure-Follows tables _

  pub create-Answers :
      (req : RequestTxCreateEvent) (w : World N Du De Dl)
      → Answers tables 201 err_tx_create_event
          (handle_tx_create_event (peers network us es ls ctx) req)
          (create_plan req)
          w
  unfolding handle_tx_create_event
  create-Answers req w =
      answer-Answers tables 201 err_tx_create_event
        (create_event_calls (peers network us es ls ctx) req) _ (create_event_calls-Follows req) w

  pub update-Answers :
      (req : RequestTxUpdateEvent) (w : World N Du De Dl)
      → Answers tables 204 err_tx_update_event
          (handle_tx_update_event (peers network us es ls ctx) req)
          (update_plan req)
          w
  unfolding handle_tx_update_event
  update-Answers req w =
      answer-Answers tables 204 err_tx_update_event
        (update_event_calls (peers network us es ls ctx) req) _ (update_event_calls-Follows req) w

  pub delete-Answers :
      (req : RequestTxDeleteEvent) (w : World N Du De Dl)
      → Answers tables 204 err_tx_delete_event
          (handle_tx_delete_event (peers network us es ls ctx) req)
          (delete_plan req)
          w
  unfolding handle_tx_delete_event
  delete-Answers req w =
      answer-Answers tables 204 err_tx_delete_event
        (delete_event_calls (peers network us es ls ctx) req) _ (delete_event_calls-Follows req) w

  pub join-Answers :
      (req : RequestTxJoinEvent) (w : World N Du De Dl)
      → Answers tables 204 err_tx_join_event
          (handle_tx_join_event (peers network us es ls ctx) req)
          (join_plan req)
          w
  unfolding handle_tx_join_event
  join-Answers req w =
      answer-Answers tables 204 err_tx_join_event
        (join_event_calls (peers network us es ls ctx) req) _ (join_event_calls-Follows req) w

  pub leave-Answers :
      (req : RequestTxLeaveEvent) (w : World N Du De Dl)
      → Answers tables 204 err_tx_leave_event
          (handle_tx_leave_event (peers network us es ls ctx) req)
          (leave_plan req)
          w
  unfolding handle_tx_leave_event
  leave-Answers req w =
      answer-Answers tables 204 err_tx_leave_event
        (leave_event_calls (peers network us es ls ctx) req) _ (leave_event_calls-Follows req) w

  -- Over the stores of the three services and a network that may lose each request and response, and
  -- with hooks that leave the rows of the stores alone, each of the five handlers has one of two
  -- outcomes. It answers with its code, and the statements of each of its calls have been done
  -- on the services' tables, in order, and nothing else. Or a call failed: then it answers with 500
  -- and its error, the statements of the calls before that one have been done, those of that call
  -- have been done or not, and those of the later calls have not. Nothing is undone.
  pub handlers-Answers :
      (create : RequestTxCreateEvent) (change : RequestTxUpdateEvent)
      (delete : RequestTxDeleteEvent) (join : RequestTxJoinEvent) (leave : RequestTxLeaveEvent)
      (w : World N Du De Dl)
      → Answers tables 201 err_tx_create_event
          (handle_tx_create_event (peers network us es ls ctx) create)
          (create_plan create)
          w
        × Answers tables 204 err_tx_update_event
            (handle_tx_update_event (peers network us es ls ctx) change)
            (update_plan change)
            w
        × Answers tables 204 err_tx_delete_event
            (handle_tx_delete_event (peers network us es ls ctx) delete)
            (delete_plan delete)
            w
        × Answers tables 204 err_tx_join_event
            (handle_tx_join_event (peers network us es ls ctx) join)
            (join_plan join)
            w
        × Answers tables 204 err_tx_leave_event
            (handle_tx_leave_event (peers network us es ls ctx) leave)
            (leave_plan leave)
            w
  handlers-Answers create change delete join leave w = (
    create-Answers create w,
    update-Answers change w,
    delete-Answers delete w,
    join-Answers join w,
    leave-Answers leave w,
  )
