-- ===== src/Database/Event/Valid.antt =====
-- pkg/database/event.go: the table of events stays well formed.
use cs.Prelude.{refl, inl, inr, ℤ, int_key, pos}
use cs.Prelude.Tests.{Sum-cases}
use cs.Format.{Context}
use cs.Database.LifeCycle.{TxHookMap, Pool}
use cs.Database.Sql.{Nil, nil, Sql, Table, query_row, delete, update}
use cs.Database.Sql.Ids.{Distinct, add_id, delete_id, add_id-Distinct, delete_id-Distinct}
use cs.Database.Sql.Column.{written-IsValid}
use cs.Database.Sql.Committed.{HooksLeaveRows, start-keeps}
use cs.Database.Sql.Keeps.{
  IsValid, update_row-IsValid, delete_row-IsValid, exec-IsValid, insert_returning-IsValid,
}
use cs.Database.Event
use cs.Database.Event.{event_api_key}

abbrev pub ValidEvents : Event.Events → Type 0
ValidEvents = IsValid (λ row. row.participants)

module _ {E : Type 0} (sql : Sql Event.EventRow E) where
  add_participant_tx-ValidEvents :
      (event_id participant_id : ℤ) (events : Event.Events)
      → ValidEvents events
      → ValidEvents (Event.add_participant_tx sql event_id participant_id events).0
  unfolding Event.add_participant_tx Event.set_participants
  add_participant_tx-ValidEvents event_id participant_id events v =
      elim (Sum-cases (query_row sql event_id (λ row. row.participants) events)) [
        | inl (e, bad) ↦ rw (bad, Event.add_participant_tx) v
        | inr (ids, found) ↦
            rw (found, Event.add_participant_tx)
              (written-IsValid (λ row. row.participants)
                (λ ids row. record row { participants = ids }) (λ ids row. refl) sql event_id ids
                (add_id ids participant_id) events found (add_id-Distinct ids participant_id) v)
      ]

  remove_participant_tx-ValidEvents :
      (event_id participant_id : ℤ) (events : Event.Events)
      → ValidEvents events
      → ValidEvents (Event.remove_participant_tx sql event_id participant_id events).0
  unfolding Event.remove_participant_tx Event.set_participants
  remove_participant_tx-ValidEvents event_id participant_id events v =
      elim (Sum-cases (query_row sql event_id (λ row. row.participants) events)) [
        | inl (e, bad) ↦ rw (bad, Event.remove_participant_tx) v
        | inr (ids, found) ↦
            rw (found, Event.remove_participant_tx)
              (written-IsValid (λ row. row.participants)
                (λ ids row. record row { participants = ids }) (λ ids row. refl) sql event_id ids
                (delete_id ids participant_id) events found (delete_id-Distinct ids participant_id)
                v)
      ]

  update_event_tx-ValidEvents :
      (stored : Event.Time → Event.Time) (event : Event.Event) (events : Event.Events)
      → ValidEvents events
      → ValidEvents (Event.update_event_tx sql stored event events).0
  unfolding Event.update_event_tx Event.set_event Event.merge
  update_event_tx-ValidEvents stored event events v =
      elim (Sum-cases (query_row sql event.id (Event.read_old event.id) events)) [
        | inl (e, bad) ↦ rw (bad, Event.update_event_tx) v
        | inr (old, found) ↦
            let new = Event.merge old event in
            rw (found, Event.update_event_tx)
              (exec-IsValid (λ row. row.participants) sql update events _ v
                (update_row-IsValid (λ row. row.participants) new.id
                  (Event.set_event sql stored new) events (v.distinct new.id) v))
      ]

module _ {V D E : Type 0} (pool : Pool D E) (id_result : ℤ → V) (nil_result : Nil → V)
    (hooks : TxHookMap Event.EventStoreApi V D E) (table : Table D Event.EventRow)
    (sql : Sql Event.EventRow E) (stored : Event.Time → Event.Time) where
  -- Let no hook change the rows of the table of events, and let the rows have distinct ids, and
  -- participants without a repetition. Then so it is after each of the five operations that write,
  -- whether it succeeds or not; of CreateEvent if the event's participants are without a repetition.
  pub writes-ValidEvents :
      ((api : Event.EventStoreApi) → HooksLeaveRows hooks api table)
      → (d : D) (ctx : Context V) (event_id participant_id : ℤ) (event : Event.Event)
      → Distinct event.participants
      → ValidEvents (table.rows d)
      → ValidEvents
          (table.rows (Event.create_event pool id_result hooks table sql stored event ctx d).1)
        × ValidEvents
            (table.rows (Event.update_event pool nil_result hooks table sql stored event ctx d).1)
        × ValidEvents
            (table.rows (Event.delete_event pool nil_result hooks table sql event_id ctx d).1)
        × ValidEvents (
            table.rows
              (Event.add_participant pool nil_result hooks table sql event_id participant_id ctx
                d).1)
        × ValidEvents (
            table.rows
              (Event.remove_participant pool nil_result hooks table sql event_id participant_id ctx
                d).1)
  unfolding Event.create_event Event.delete_event Event.update_event Event.add_participant
      Event.remove_participant Event.create_event_tx Event.row_of_event Event.delete_event_tx
  writes-ValidEvents leaves d ctx event_id participant_id event distinct v = (
    start-keeps pool id_result (pos 0) hooks Event.api_create_event table ValidEvents _
        (λ m. insert_returning-IsValid (λ row. row.participants) sql _ m distinct) ctx d
        (leaves Event.api_create_event) v,
    start-keeps pool nil_result nil hooks Event.api_update_event table ValidEvents _
        (update_event_tx-ValidEvents sql stored event) ctx d (leaves Event.api_update_event) v,
    start-keeps pool nil_result nil hooks Event.api_delete_event table ValidEvents _
        (λ m w.
          exec-IsValid (λ row. row.participants) sql delete m _ w
            (delete_row-IsValid (λ row. row.participants) event_id m w))
        ctx d (leaves Event.api_delete_event) v,
    start-keeps pool nil_result nil hooks Event.api_add_participant table ValidEvents _
        (add_participant_tx-ValidEvents sql event_id participant_id) ctx d
        (leaves Event.api_add_participant) v,
    start-keeps pool nil_result nil hooks Event.api_remove_participant table ValidEvents _
        (remove_participant_tx-ValidEvents sql event_id participant_id) ctx d
        (leaves Event.api_remove_participant) v,
  )
