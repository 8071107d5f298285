-- ===== src/Database/Event/Merge.antt =====
-- pkg/database/event.go: UpdateEvent, as a function of the event that GetEvent returns.
use cs.Prelude.{none, some, ite, ◌≡◌, ◌≢◌, refl, ap, sym, ◌∙◌, inr, [], ℤ, int_key, arith}
use mathlib.Core.Path.{subst}
use cs.Prelude.Tests.{string_key, if◌then◌else◌}
use cs.Prelude.Map.{lookup}
use cs.Format.{Context}
use cs.Database.LifeCycle.{TxHookMap, Pool}
use cs.Database.Sql.{Nil, nil, Sql, Table, exec, update_row, update, select}
use cs.Database.Sql.Lookups.{
  lookup-update_row, query_row-found, query_row-there, query_row-same, exec-done,
}
use cs.Database.Sql.Committed.{HooksLeaveRows, start-Done}
use cs.Database.Event
use cs.Database.Event.{event_api_key, Event, EventRow, Events, Time, is_zero}

-- The event after an update: the fields that the update sets, and else those of the event.
pub updated : (Time → Time) → Event → Event → Event
updated stored event changes = record event {
  name = ite (string_key.dec changes.name "") event.name changes.name;
  info = ite (string_key.dec changes.info "") event.info changes.info;
  start_at = if is_zero changes.start_at then event.start_at else stored changes.start_at;
  end_at = if is_zero changes.end_at then event.end_at else stored changes.end_at;
  location = ite (string_key.dec changes.location "") event.location changes.location;
}

module _ {E : Type 0} (sql : Sql EventRow E) (stored : Time → Time) where
  event_of_row-set_event :
      (changes : Event) (row : EventRow)
      → stored row.start_at ≡ row.start_at
      → stored row.end_at ≡ row.end_at
      → Event.event_of_row changes.id
          (Event.set_event sql stored (Event.merge (Event.read_old changes.id row) changes) row)
        ≡ updated stored (Event.event_of_row changes.id row) changes
  unfolding Event.event_of_row Event.set_event Event.merge Event.read_old updated
  event_of_row-set_event changes row start_same end_same = ground (arith, start_same, end_same)

  -- What `updated` says of the row: its other columns stay.
  update_event_tx-get_event :
      (changes event : Event) (events : Events) (other : ℤ)
      → ((m : Events) → sql.fault select m m ≡ none)
      → Event.get_event sql events changes.id ≡ inr event
      → stored event.start_at ≡ event.start_at
      → stored event.end_at ≡ event.end_at
      → (Event.update_event_tx sql stored changes events).2 ≡ []
      → (Event.get_event sql (Event.update_event_tx sql stored changes events).0 changes.id
          ≡ inr (updated stored event changes))
        × (other ≢ changes.id
            → Event.get_event sql (Event.update_event_tx sql stored changes events).0 other
              ≡ Event.get_event sql events other)
  unfolding Event.update_event_tx Event.get_event Event.event_of_row Event.merge Event.read_old
  update_event_tx-get_event changes event events other works before start_same end_same fine =
      let (row, there, is) =
        query_row-found sql changes.id (Event.event_of_row changes.id) events event before in
      let new = Event.merge (Event.read_old changes.id row) changes in
      let after = update_row changes.id (Event.set_event sql stored new) events in
      let read =
        query_row-there sql changes.id (Event.read_old changes.id) events row (works events)
          there in
      let ran : Event.update_event_tx sql stored changes events ≡ exec sql update events after =
        rw (read, Event.update_event_tx) refl in
      let rows : (Event.update_event_tx sql stored changes events).0 ≡ after =
        ap (λ r. r.0) ran ∙ exec-done sql update events after (ap (λ r. r.2) (sym ran) ∙ fine) in
      let written : lookup changes.id after ≡ some (Event.set_event sql stored new row) = ground (
        arith,
        there,
        lookup-update_row changes.id changes.id (Event.set_event sql stored new) events,
      ) in
      (
        ap (λ m. Event.get_event sql m changes.id) rows
            ∙ query_row-there sql changes.id (Event.event_of_row changes.id) after _ (works after)
                written
            ∙ ap inr (
                event_of_row-set_event changes row
                  (subst (λ e. stored e.start_at ≡ e.start_at) (sym is) start_same)
                  (subst (λ e. stored e.end_at ≡ e.end_at) (sym is) end_same))
            ∙ ap (λ e. inr (updated stored e changes)) is,
        λ differ.
            ap (λ m. Event.get_event sql m other) rows
            ∙ query_row-same sql other (Event.event_of_row other) events after works (
                ground (
                  arith,
                  differ,
                  lookup-update_row changes.id other (Event.set_event sql stored new) events,
                )),
      )

module _ {V D E : Type 0} (pool : Pool D E) (nil_result : Nil → V)
    (hooks : TxHookMap Event.EventStoreApi V D E) (table : Table D EventRow) (sql : Sql EventRow E)
    (stored : Time → Time) where
  -- Let no hook of UpdateEvent change the rows of the table of events, let the queries work, and let
  -- the times of the event be times that its columns keep. If UpdateEvent returns no error, then
  -- GetEvent returns the event that it returned before with the name, the info, the times and the
  -- location of the update where these are set; the host and the participants stay, and so does
  -- every other event.
  pub update_event-get_event :
      (changes event : Event) (ctx : Context V) (d : D) (other : ℤ)
      → HooksLeaveRows hooks Event.api_update_event table
      → ((m : Events) → sql.fault select m m ≡ none)
      → Event.get_event sql (table.rows d) changes.id ≡ inr event
      → stored event.start_at ≡ event.start_at
      → stored event.end_at ≡ event.end_at
      → let result = Event.update_event pool nil_result hooks table sql stored changes ctx d in
        result.3 ≡ []
        → other ≢ changes.id
        → (Event.get_event sql (table.rows result.1) changes.id
            ≡ inr (updated stored event changes))
          × (Event.get_event sql (table.rows result.1) other
              ≡ Event.get_event sql (table.rows d) other)
  unfolding Event.update_event
  update_event-get_event changes event ctx d other leaves works before start_same end_same fine
        differ =
      let (rows, _, good) =
        start-Done pool nil_result nil hooks Event.api_update_event table
          (Event.update_event_tx sql stored changes) ctx d leaves fine in
      let (set, others) =
        update_event_tx-get_event sql stored changes event (table.rows d) other works before
          start_same end_same good in
      rw (← rows) (set, others differ)
