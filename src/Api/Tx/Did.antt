-- ===== src/Api/Tx/Did.antt =====
-- pkg/api/v1/tx.go: the effect that each call of the handlers has, as a relation of the tables.
use cs.Prelude.{◌≡◌, refl, ap, ◌⊎◌, inl, inr, ℤ}
use cs.Prelude.Map.{Map}
use cs.Format.{Context}
use cs.Database.Sql.{Nil}
use cs.Database.User
use cs.Database.User.{UserRow, user_api_key}
use cs.Database.Event
use cs.Database.Event.{EventRow, Time, event_api_key}
use cs.Database.EventLog
use cs.Database.EventLog.{LogRow, log_api_key}
use cs.Api.Event.{
  ApiEvent, ResponseGetEvent, ResponseCreateEvent, api_event_to_database_event,
  database_event_to_api_event,
}
use cs.Api.EventLog.{ResponseCreateEventLog, RequestCreateEventLog}
use cs.Api.User.{Empty, no_fields}
use cs.Api.Tx.Plans.{HasEffect}
use cs.Api.Tx.Services.{Network, HasRowsEffect, Statements}
use cs.Api.Tx.World.{
  UserService, EventService, EventLogService, Tables, at_users, at_events, at_logs, view,
}

-- An effect on one of the tables, which leaves the other two.
abbrev pub OnUsers :
    {B : Type 0} → (B → Map ℤ UserRow → Map ℤ UserRow → Type 0) → B → Tables → Tables → Type 0
OnUsers effect b v v' = effect b v.users v'.users × (v'.events ≡ v.events) × (v'.logs ≡ v.logs)

abbrev pub OnEvents :
    {B : Type 0} → (B → Map ℤ EventRow → Map ℤ EventRow → Type 0) → B → Tables → Tables → Type 0
OnEvents effect b v v' = effect b v.events v'.events × (v'.users ≡ v.users) × (v'.logs ≡ v.logs)

abbrev pub OnLogs :
    {B : Type 0} → (B → Map ℤ LogRow → Map ℤ LogRow → Type 0) → B → Tables → Tables → Type 0
OnLogs effect b v v' = effect b v.logs v'.logs × (v'.users ≡ v.users) × (v'.events ≡ v.events)

module _ {V N Du De Dl F E B : Type 0} (us : UserService V Du E) (es : EventService V De E)
    (ls : EventLogService V Dl E) where
  pub at_users-HasEffect :
      (call : N × Du → (N × Du) × (F ⊎ B)) (effect : B → Map ℤ UserRow → Map ℤ UserRow → Type 0)
      → HasRowsEffect us.table call effect
      → HasEffect (view us es ls) (at_users call) (OnUsers effect)
  at_users-HasEffect call effect has w = elim (has (w.net, w.users)) [
    | inl (b, good, did) ↦ inl (b, good, (did, refl, refl))
    | inr (f, bad, inl same) ↦
        inr (f, bad, inl (ap (λ d. record (view us es ls w) { users = us.table.rows d }) same))
    | inr (f, bad, inr (b, did)) ↦ inr (f, bad, inr (b, (did, refl, refl)))
  ]

  pub at_events-HasEffect :
      (call : N × De → (N × De) × (F ⊎ B)) (effect : B → Map ℤ EventRow → Map ℤ EventRow → Type 0)
      → HasRowsEffect es.table call effect
      → HasEffect (view us es ls) (at_events call) (OnEvents effect)
  at_events-HasEffect call effect has w = elim (has (w.net, w.events)) [
    | inl (b, good, did) ↦ inl (b, good, (did, refl, refl))
    | inr (f, bad, inl same) ↦
        inr (f, bad, inl (ap (λ d. record (view us es ls w) { events = es.table.rows d }) same))
    | inr (f, bad, inr (b, did)) ↦ inr (f, bad, inr (b, (did, refl, refl)))
  ]

  pub at_logs-HasEffect :
      (call : N × Dl → (N × Dl) × (F ⊎ B)) (effect : B → Map ℤ LogRow → Map ℤ LogRow → Type 0)
      → HasRowsEffect ls.table call effect
      → HasEffect (view us es ls) (at_logs call) (OnLogs effect)
  at_logs-HasEffect call effect has w = elim (has (w.net, w.logs)) [
    | inl (b, good, did) ↦ inl (b, good, (did, refl, refl))
    | inr (f, bad, inl same) ↦
        inr (f, bad, inl (ap (λ d. record (view us es ls w) { logs = ls.table.rows d }) same))
    | inr (f, bad, inr (b, did)) ↦ inr (f, bad, inr (b, (did, refl, refl)))
  ]

module _ {V N Du De Dl F E : Type 0} (network : Network N F) (us : UserService V Du E)
    (es : EventService V De E) (ls : EventLogService V Dl E) (ctx : Context V) where
  abbrev pub DidCreate : ApiEvent → ResponseCreateEvent → Tables → Tables → Type 0
  DidCreate event = OnEvents (
      Statements (λ id. record { event_id = id })
        (λ (_ : Nil). Event.create_event_tx es.sql es.stored (api_event_to_database_event event)))

  abbrev pub DidGet : ℤ → ResponseGetEvent → Tables → Tables → Type 0
  DidGet event_id = OnEvents (λ b m m'.
      (event : Event.Event) × (Event.get_event es.sql m event_id ≡ inr event)
      × (b ≡ record { event = database_event_to_api_event event })
      × (m' ≡ m))

  abbrev pub DidUpdate : ApiEvent → Empty → Tables → Tables → Type 0
  DidUpdate event = OnEvents (
      Statements (λ _. no_fields)
        (λ (_ : Nil). Event.update_event_tx es.sql es.stored (api_event_to_database_event event)))

  abbrev pub DidDelete : ℤ → Empty → Tables → Tables → Type 0
  DidDelete event_id =
      OnEvents (Statements (λ _. no_fields) (λ (_ : Nil). Event.delete_event_tx es.sql event_id))

  abbrev pub DidJoin : ℤ → ℤ → Empty → Tables → Tables → Type 0
  DidJoin event_id participant_id = OnEvents (
      Statements (λ _. no_fields)
        (λ (_ : Nil). Event.add_participant_tx es.sql event_id participant_id))

  abbrev pub DidLeave : ℤ → ℤ → Empty → Tables → Tables → Type 0
  DidLeave event_id participant_id = OnEvents (
      Statements (λ _. no_fields)
        (λ (_ : Nil). Event.remove_participant_tx es.sql event_id participant_id))

  abbrev pub DidLog : RequestCreateEventLog → ResponseCreateEventLog → Tables → Tables → Type 0
  DidLog req = OnLogs (
      Statements (λ id. record { log_id = id })
        (λ (now : Time).
          EventLog.create_event_log_tx ls.fmt ls.sql ls.unknown now req.event_id req.user_id
            req.event_type (api_event_to_database_event req.event)))

  abbrev pub DidHost : ℤ → ℤ → Empty → Tables → Tables → Type 0
  DidHost user_id event_id =
      OnUsers
        (Statements (λ _. no_fields) (λ (_ : Nil). User.add_host_event_tx us.sql user_id event_id))

  abbrev pub DidUnhost : ℤ → ℤ → Empty → Tables → Tables → Type 0
  DidUnhost user_id event_id =
      OnUsers (
        Statements (λ _. no_fields)
          (λ (_ : Nil). User.remove_host_event_tx us.sql user_id event_id))
