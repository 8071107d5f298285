-- ===== src/Api/Tx/Lookups.antt =====
-- pkg/api/v1/tx.go: what the tables of the services have after a transaction that was committed.
use cs.Prelude.{String, true, false, none, some, ◌≡◌, ap, sym, ◌∙◌, ℤ, int_key, arith}
use cs.Prelude.Map.{Map, lookup, lookup-insert}
use cs.Database.Sql.{Nil, Sql, exec, insert_returning}
use cs.Database.Sql.Committed.{Done}
use cs.Database.Sql.Lookups.{lookup-delete_row}
use cs.Database.User.{UserRow}
use cs.Database.User
use cs.Database.User.Hosting.{hosts, add_host_event_tx-hosts, remove_host_event_tx-hosts}
use cs.Database.Event
use cs.Database.Event.{EventRow, Time}
use cs.Database.Event.Participation.{
  joined, add_participant_tx-joined, remove_participant_tx-joined,
}
use cs.Database.EventLog
use cs.Database.EventLog.{
  LogRow, Fmt, event_create, event_delete, event_join, event_leave, EventType,
}
use cs.Database.EventLog.Laws.{row_of, create_event_log_tx-rows}

-- There is a log of the event with the type, of the user.
abbrev pub Logged : Map ℤ LogRow → ℤ → ℤ → EventType → Type 0
Logged logs event_id user_id event_type =
    (id : ℤ) × (content : String) × (now : Time) × (lookup id logs
      ≡ some (row_of event_id user_id event_type content now))

module _ {E : Type 0} where
  pub Done-Logged :
      (sql : Sql LogRow E) (fmt : Fmt) (unknown : EventType → E) (now : Time) (event_id user_id : ℤ)
      (event_type : EventType) (event : Event.Event) (m m' : Map ℤ LogRow) (id : ℤ)
      → Done
          (EventLog.create_event_log_tx fmt sql unknown now event_id user_id event_type event)
          m
          m'
          id
      → Logged m' event_id user_id event_type
  Done-Logged sql fmt unknown now event_id user_id event_type event m m' id (rows, _, fine) =
      let (content, _, _, rows') =
        create_event_log_tx-rows sql fmt unknown now event_id user_id event_type event m fine in
      let new = sql.generate m in
      let row = row_of event_id user_id event_type content now in
      (
        new,
        content,
        now,
        ap (lookup new) (sym rows ∙ rows') ∙ ground (arith, lookup-insert new new row m),
      )

  pub Done-created :
      (sql : Sql EventRow E) (stored : Time → Time) (event : Event.Event) (m m' : Map ℤ EventRow)
      (id : ℤ)
      → Done (Event.create_event_tx sql stored event) m m' id
      → lookup id m' ≡ some (Event.row_of_event stored event)
  unfolding Event.create_event_tx insert_returning
  Done-created sql stored event m m' id (rows, is, fine) =
      ground (arith, rows, is, fine, lookup-insert id id (Event.row_of_event stored event) m)

  pub Done-hosts :
      (sql : Sql UserRow E) (user_id event_id : ℤ) (m m' : Map ℤ UserRow) (r : Nil)
      → Done (User.add_host_event_tx sql user_id event_id) m m' r
      → hosts m' user_id event_id ≡ true
  Done-hosts sql user_id event_id m m' r (rows, _, fine) =
      ap (λ m. hosts m user_id event_id) (sym rows)
      ∙ ground (arith, add_host_event_tx-hosts sql user_id event_id user_id event_id m fine)

  pub Done-not_hosts :
      (sql : Sql UserRow E) (user_id event_id : ℤ) (m m' : Map ℤ UserRow) (r : Nil)
      → Done (User.remove_host_event_tx sql user_id event_id) m m' r
      → hosts m' user_id event_id ≡ false
  Done-not_hosts sql user_id event_id m m' r (rows, _, fine) =
      ap (λ m. hosts m user_id event_id) (sym rows)
      ∙ ground (arith, remove_host_event_tx-hosts sql user_id event_id user_id event_id m fine)

  pub Done-joined :
      (sql : Sql EventRow E) (event_id participant_id : ℤ) (m m' : Map ℤ EventRow) (r : Nil)
      → Done (Event.add_participant_tx sql event_id participant_id) m m' r
      → joined m' event_id participant_id ≡ true
  Done-joined sql event_id participant_id m m' r (rows, _, fine) =
      ap (λ m. joined m event_id participant_id) (sym rows)
      ∙ ground (
        arith,
        add_participant_tx-joined sql event_id participant_id event_id participant_id m fine,
      )

  pub Done-left :
      (sql : Sql EventRow E) (event_id participant_id : ℤ) (m m' : Map ℤ EventRow) (r : Nil)
      → Done (Event.remove_participant_tx sql event_id participant_id) m m' r
      → joined m' event_id participant_id ≡ false
  Done-left sql event_id participant_id m m' r (rows, _, fine) =
      ap (λ m. joined m event_id participant_id) (sym rows)
      ∙ ground (
        arith,
        remove_participant_tx-joined sql event_id participant_id event_id participant_id m fine,
      )

  pub Done-deleted :
      (sql : Sql EventRow E) (event_id : ℤ) (m m' : Map ℤ EventRow) (r : Nil)
      → Done (Event.delete_event_tx sql event_id) m m' r
      → lookup event_id m' ≡ none
  unfolding Event.delete_event_tx exec
  Done-deleted sql event_id m m' r (rows, _, fine) =
      ground (arith, rows, fine, lookup-delete_row event_id event_id m)
