-- ===== src/Api/Tx/Consistent.antt =====
-- pkg/api/v1/tx.go: when a handler answers that it succeeded, the three services agree.
use cs.Prelude.{true, false, none, some, ◌≡◌, ap, sym, ◌∙◌, inl, inr, int_key, arith}
use mathlib.Core.Path.{subst}
use cs.Prelude.Map.{lookup}
use cs.Format.{Context}
use cs.Database.User.Hosting.{hosts}
use cs.Database.Event
use cs.Database.Event.{EventRow, Time}
use cs.Database.Event.Participation.{joined}
use cs.Database.EventLog.{event_create, event_delete, event_join, event_leave}
use cs.Api.Event.{api_event_to_database_event}
use cs.Api.Reply.{reply}
use cs.Api.User.{Empty}
use cs.Api.Tx.{
  RequestTxCreateEvent, ResponseTxCreateEvent, RequestTxDeleteEvent, RequestTxJoinEvent,
  RequestTxLeaveEvent, event_to_create, handle_tx_create_event, handle_tx_delete_event,
  handle_tx_join_event, handle_tx_leave_event,
}
use cs.Api.Tx.Plans.{Runs}
use cs.Api.Tx.Services.{Network}
use cs.Api.Tx.World.{UserService, EventService, EventLogService, World, Tables, view, peers}
use cs.Api.Tx.Handlers.{create-Answers, delete-Answers, join-Answers, leave-Answers}
use cs.Api.Tx.Lookups.{
  Logged, Done-Logged, Done-created, Done-hosts, Done-not_hosts, Done-joined, Done-left,
  Done-deleted,
}

module _ {V N Du De Dl F E : Type 0} (network : Network N F) (us : UserService V Du E)
    (es : EventService V De E) (ls : EventLogService V Dl E) (ctx : Context V) where
  abbrev tables : World N Du De Dl → Tables
  tables = view us es ls

  -- Over the stores of the three services, with hooks that leave their rows alone, and over a network
  -- that may lose requests and responses: if the handler that creates an event answers 201 with an
  -- id, then the event service has the event of the request under that id, the user of the request
  -- hosts it, and it has a log of its creation by that user.
  pub create-Logged :
      (req : RequestTxCreateEvent) (w : World N Du De Dl) (resp : ResponseTxCreateEvent)
      → let result = handle_tx_create_event (peers network us es ls ctx) req w in
        result.1 ≡ reply 201 resp
        → (lookup resp.event_id (tables result.0).events
            ≡ some
                (Event.row_of_event es.stored (api_event_to_database_event (event_to_create req))))
          × (hosts (tables result.0).users req.user_id resp.event_id ≡ true)
          × Logged (tables result.0).logs resp.event_id req.user_id event_create
  unfolding Runs event_to_create
  create-Logged req w resp answered = elim (create-Answers network us es ls ctx req w) [
    | inr (f, bad, _) ↦ absurd (ground (arith, answered, bad))
    | inl (a, good, runs) ↦
        let (b, u1, ((_, id, made, did1), users1, logs1), rest) = runs in
        let (_, u2, ((now, _, _, did2), users2, events2), rest2) = rest in
        let (_, u3, ((_, _, _, did3), events3, logs3), (is, last)) = rest2 in
        let same : b.event_id ≡ resp.event_id = ground (arith, is, good, answered) in
        let found : lookup b.event_id u1.events
            ≡ some
                (Event.row_of_event es.stored (api_event_to_database_event (event_to_create req))) =
          ap (λ r. lookup r.event_id u1.events) made
          ∙ Done-created es.sql es.stored _ _ u1.events id did1 in
        let events = ap (λ t. t.events) last ∙ events3 ∙ events2 in
        let logs = ap (λ t. t.logs) last ∙ logs3 in
        let end = tables (handle_tx_create_event (peers network us es ls ctx) req w).0 in
        (
          ap (λ i. lookup i end.events) (sym same) ∙ ap (lookup b.event_id) events ∙ found,
          ap (λ i. hosts end.users req.user_id i) (sym same)
              ∙ ap (λ t. hosts t.users req.user_id b.event_id) last
              ∙ Done-hosts us.sql req.user_id b.event_id u2.users u3.users _ did3,
          subst (λ i. Logged end.logs i req.user_id event_create) same
              (subst (λ m. Logged m b.event_id req.user_id event_create) (sym logs)
                (Done-Logged ls.sql ls.fmt ls.unknown now b.event_id req.user_id event_create _ _
                  u2.logs _ did2)),
        )
  ]

  delete-Logged :
      (req : RequestTxDeleteEvent) (w : World N Du De Dl) (resp : Empty)
      → let result = handle_tx_delete_event (peers network us es ls ctx) req w in
        result.1 ≡ reply 204 resp
        → (lookup req.event_id (tables result.0).events ≡ none)
          × (hosts (tables result.0).users req.user_id req.event_id ≡ false)
          × Logged (tables result.0).logs req.event_id req.user_id event_delete
  unfolding Runs
  delete-Logged req w resp answered = elim (delete-Answers network us es ls ctx req w) [
    | inr (f, bad, _) ↦ absurd (ground (arith, answered, bad))
    | inl (a, good, runs) ↦
        let (_, u1, ((_, _, _, did1), events1, logs1), rest) = runs in
        let (_, u2, ((_, _, _, same2), users2, logs2), rest2) = rest in
        let (_, u3, ((_, _, _, did3), users3, logs3), rest3) = rest2 in
        let (_, u4, ((now, _, _, did4), users4, events4), (is, last)) = rest3 in
        let users = ap (λ t. t.users) last ∙ users4 ∙ users3 ∙ users2 in
        let logs = ap (λ t. t.logs) last in
        (
          ap (λ t. lookup req.event_id t.events) last
              ∙ ap (lookup req.event_id) events4
              ∙ Done-deleted es.sql req.event_id u2.events u3.events _ did3,
          ap (λ m. hosts m req.user_id req.event_id) users
              ∙ Done-not_hosts us.sql req.user_id req.event_id _ u1.users _ did1,
          subst (λ m. Logged m req.event_id req.user_id event_delete) (sym logs)
              (Done-Logged ls.sql ls.fmt ls.unknown now req.event_id req.user_id event_delete _ _
                u4.logs _ did4),
        )
  ]

  join-Logged :
      (req : RequestTxJoinEvent) (w : World N Du De Dl) (resp : Empty)
      → let result = handle_tx_join_event (peers network us es ls ctx) req w in
        result.1 ≡ reply 204 resp
        → (joined (tables result.0).events req.event_id req.participant_id ≡ true)
          × Logged (tables result.0).logs req.event_id req.participant_id event_join
  unfolding Runs
  join-Logged req w resp answered = elim (join-Answers network us es ls ctx req w) [
    | inr (f, bad, _) ↦ absurd (ground (arith, answered, bad))
    | inl (a, good, runs) ↦
        let (_, u1, ((_, _, _, did1), users1, logs1), rest) = runs in
        let (_, u2, ((now, _, _, did2), users2, events2), (is, last)) = rest in
        let events = ap (λ t. t.events) last ∙ events2 in
        let logs = ap (λ t. t.logs) last in
        (
          ap (λ m. joined m req.event_id req.participant_id) events
              ∙ Done-joined es.sql req.event_id req.participant_id _ u1.events _ did1,
          subst (λ m. Logged m req.event_id req.participant_id event_join) (sym logs)
              (Done-Logged ls.sql ls.fmt ls.unknown now req.event_id req.participant_id event_join _
                _ u2.logs _ did2),
        )
  ]

  leave-Logged :
      (req : RequestTxLeaveEvent) (w : World N Du De Dl) (resp : Empty)
      → let result = handle_tx_leave_event (peers network us es ls ctx) req w in
        result.1 ≡ reply 204 resp
        → (joined (tables result.0).events req.event_id req.participant_id ≡ false)
          × Logged (tables result.0).logs req.event_id req.participant_id event_leave
  unfolding Runs
  leave-Logged req w resp answered = elim (leave-Answers network us es ls ctx req w) [
    | inr (f, bad, _) ↦ absurd (ground (arith, answered, bad))
    | inl (a, good, runs) ↦
        let (_, u1, ((_, _, _, did1), users1, logs1), rest) = runs in
        let (_, u2, ((now, _, _, did2), users2, events2), (is, last)) = rest in
        let events = ap (λ t. t.events) last ∙ events2 in
        let logs = ap (λ t. t.logs) last in
        (
          ap (λ m. joined m req.event_id req.participant_id) events
              ∙ Done-left es.sql req.event_id req.participant_id _ u1.events _ did1,
          subst (λ m. Logged m req.event_id req.participant_id event_leave) (sym logs)
              (Done-Logged ls.sql ls.fmt ls.unknown now req.event_id req.participant_id event_leave
                _ _ u2.logs _ did2),
        )
  ]

  -- Under the same conditions, if the handlers answer 204: after a deletion the event service has no
  -- event under the id, the user of the request does not host it, and there is a log of its deletion
  -- by that user; after a join the participant is among those of the event, and after a leave it is
  -- not, and there is a log of that by the participant.
  pub others-Logged :
      (delete : RequestTxDeleteEvent) (join : RequestTxJoinEvent) (leave : RequestTxLeaveEvent)
      (w : World N Du De Dl) (resp : Empty)
      → let deleted = handle_tx_delete_event (peers network us es ls ctx) delete w in
        let joins = handle_tx_join_event (peers network us es ls ctx) join w in
        let leaves = handle_tx_leave_event (peers network us es ls ctx) leave w in
        deleted.1 ≡ reply 204 resp
        → joins.1 ≡ reply 204 resp
        → leaves.1 ≡ reply 204 resp
        → ((lookup delete.event_id (tables deleted.0).events ≡ none)
            × (hosts (tables deleted.0).users delete.user_id delete.event_id ≡ false)
            × Logged (tables deleted.0).logs delete.event_id delete.user_id event_delete)
          × ((joined (tables joins.0).events join.event_id join.participant_id ≡ true)
              × Logged (tables joins.0).logs join.event_id join.participant_id event_join)
          × ((joined (tables leaves.0).events leave.event_id leave.participant_id ≡ false)
              × Logged (tables leaves.0).logs leave.event_id leave.participant_id event_leave)
  others-Logged delete join leave w resp deleted joins leaves = (
    delete-Logged delete w resp deleted,
    join-Logged join w resp joins,
    leave-Logged leave w resp leaves,
  )
