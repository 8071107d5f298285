-- ===== src/Database/Event.antt =====
-- pkg/database/event.go: the store of events. An operation that writes is a function of the table,
-- `…_tx`, that the life cycle runs between Begin and Commit.
pub mod Participation
pub mod Valid
pub mod Merge
use cs.Prelude.{
  ℕ, String, Bool, Option, none, some, ◌⊎◌, inl, inr, List, [], ◌∷◌, ℤ, pos, minus_one, ite,
}
use cs.Prelude.Tests.{Key, string_key, ◌==◌, if◌then◌else◌}
use cs.Prelude.Map.{Map}
use cs.Format.{Context}
use cs.Database.LifeCycle.{external, Err, TxHookMap, Pool, start}
use cs.Database.Sql.{
  Nil, nil, update, delete, Sql, Table, query_row, exec, insert_returning, update_row, delete_row,
  on_table,
}
use cs.Database.Sql.Ids.{add_id, delete_id}

-- `time.Time`, as nanoseconds since the time that `IsZero` holds of.
abbrev pub Time : Type 0
Time = ℕ

unfoldable pub is_zero : Time → Bool
is_zero t = t == 0

pub data EventStoreApi : Type 0 where
  api_get_event api_create_event api_update_event : EventStoreApi
  api_delete_event api_add_participant api_remove_participant : EventStoreApi

-- A row of the table Events, by its `event_id`.
pub record EventRow : Type 0 where
  pub event_name : String
  pub event_info : String
  pub host_id : ℤ
  pub start_at : Time
  pub end_at : Time
  pub location : String
  pub participants : List ℤ

pub record Event : Type 0 where
  pub id : ℤ
  pub name : String
  pub info : String
  pub host_id : ℤ
  pub start_at : Time
  pub end_at : Time
  pub location : String
  pub participants : List ℤ

abbrev pub Events : Type 0
Events = Map ℤ EventRow

-- The zero value, with an id: `var oldEvent Event; oldEvent.ID = …`
abbrev pub event_of_id : ℤ → Event
event_of_id id = record {
  id = id;
  name = "";
  info = "";
  host_id = pos 0;
  start_at = 0;
  end_at = 0;
  location = "";
  participants = [];
}

-- The columns of the query of GetEvent.
unfoldable pub event_of_row : ℤ → EventRow → Event
event_of_row id row = record {
  id = id;
  name = row.event_name;
  info = row.event_info;
  host_id = row.host_id;
  start_at = row.start_at;
  end_at = row.end_at;
  location = row.location;
  participants = row.participants;
}

-- The columns of the readQuery of UpdateEvent.
unfoldable pub read_old : ℤ → EventRow → Event
read_old id row = record (event_of_id id) {
  name = row.event_name;
  info = row.event_info;
  start_at = row.start_at;
  end_at = row.end_at;
  location = row.location;
}

-- The new event of UpdateEvent: a field of the update that is set, and else that of the old event.
unfoldable pub merge : Event → Event → Event
merge old_event update_event = record (event_of_id old_event.id) {
  name = ite (string_key.dec update_event.name "") old_event.name update_event.name;
  info = ite (string_key.dec update_event.info "") old_event.info update_event.info;
  start_at = if is_zero update_event.start_at then old_event.start_at else update_event.start_at;
  end_at = if is_zero update_event.end_at then old_event.end_at else update_event.end_at;
  location = ite (string_key.dec update_event.location "") old_event.location update_event.location;
}

-- The values of the INSERT of CreateEvent. `stored` is the time that a column of type TIMESTAMPTZ
-- keeps of a time.
unfoldable pub row_of_event : (Time → Time) → Event → EventRow
row_of_event stored event = record {
  event_name = event.name;
  event_info = event.info;
  host_id = event.host_id;
  start_at = stored event.start_at;
  end_at = stored event.end_at;
  location = event.location;
  participants = event.participants;
}

module _ {E : Type 0} (sql : Sql EventRow E) (stored : Time → Time) where
  unfoldable pub create_event_tx : Event → Events → Events × ℤ × Err E
  create_event_tx event events = insert_returning sql (row_of_event stored event) events

  -- The updateQuery of UpdateEvent.
  unfoldable pub set_event : Event → EventRow → EventRow
  set_event new_event row = record row {
    event_name = new_event.name;
    event_info = new_event.info;
    start_at = stored new_event.start_at;
    end_at = stored new_event.end_at;
    location = new_event.location;
  }

  unfoldable pub update_event_tx : Event → Events → Events × Nil × Err E
  update_event_tx update_event events =
      elim (query_row sql update_event.id (read_old update_event.id) events) [
        | inl e ↦ (events, nil, external e ∷ [])
        | inr old_event ↦
            let new_event = merge old_event update_event in
            exec sql update events (update_row new_event.id (set_event new_event) events)
      ]

module _ {E : Type 0} (sql : Sql EventRow E) where
  unfoldable pub get_event : Events → ℤ → E ⊎ Event
  get_event events event_id = query_row sql event_id (event_of_row event_id) events

  unfoldable pub delete_event_tx : ℤ → Events → Events × Nil × Err E
  delete_event_tx event_id events = exec sql delete events (delete_row event_id events)

  -- `UPDATE Events SET participants = $2 WHERE event_id = $1`
  unfoldable pub set_participants : ℤ → List ℤ → Events → Events × Nil × Err E
  set_participants event_id participants events =
      exec sql update events
        (update_row event_id (λ row. record row { participants = participants }) events)

  unfoldable pub add_participant_tx : ℤ → ℤ → Events → Events × Nil × Err E
  add_participant_tx event_id participant_id events =
      elim (query_row sql event_id (λ row. row.participants) events) [
        | inl e ↦ (events, nil, external e ∷ [])
        | inr participants ↦ set_participants event_id (add_id participants participant_id) events
      ]

  unfoldable pub remove_participant_tx : ℤ → ℤ → Events → Events × Nil × Err E
  remove_participant_tx event_id participant_id events =
      elim (query_row sql event_id (λ row. row.participants) events) [
        | inl e ↦ (events, nil, external e ∷ [])
        | inr participants ↦
            set_participants event_id (delete_id participants participant_id) events
      ]

unfoldable pub event_api_discrete : Discrete EventStoreApi
event_api_discrete = hlevel

instance abbrev pub event_api_key : Key EventStoreApi
event_api_key = record { dec = event_api_discrete }

module _ {V D E : Type 0} (pool : Pool D E) (id_result : ℤ → V)
    (hooks : TxHookMap EventStoreApi V D E) (table : Table D EventRow) (sql : Sql EventRow E)
    (stored : Time → Time) where
  unfoldable pub create_event : Event → Context V → D → Context V × D × ℤ × Err E
  create_event event =
      start pool id_result (pos 0) hooks api_create_event
        (on_table table (create_event_tx sql stored event))

module _ {V D E : Type 0} (pool : Pool D E) (nil_result : Nil → V)
    (hooks : TxHookMap EventStoreApi V D E) (table : Table D EventRow) (sql : Sql EventRow E) where
  unfoldable pub update_event : (Time → Time) → Event → Context V → D → Context V × D × Nil × Err E
  update_event stored changes =
      start pool nil_result nil hooks api_update_event
        (on_table table (update_event_tx sql stored changes))

  unfoldable pub delete_event : ℤ → Context V → D → Context V × D × Nil × Err E
  delete_event event_id =
      start pool nil_result nil hooks api_delete_event
        (on_table table (delete_event_tx sql event_id))

  unfoldable pub add_participant : ℤ → ℤ → Context V → D → Context V × D × Nil × Err E
  add_participant event_id participant_id =
      start pool nil_result nil hooks api_add_participant
        (on_table table (add_participant_tx sql event_id participant_id))

  unfoldable pub remove_participant : ℤ → ℤ → Context V → D → Context V × D × Nil × Err E
  remove_participant event_id participant_id =
      start pool nil_result nil hooks api_remove_participant
        (on_table table (remove_participant_tx sql event_id participant_id))
