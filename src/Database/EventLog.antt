-- ===== src/Database/EventLog.antt =====
-- pkg/database/event_log.go: the store of the logs of events.
pub mod Laws
use cs.Prelude.{
  ℕ, String, Bool, Option, none, some, ◌⊎◌, inl, inr, ite, List, [], ◌∷◌, ◌++◌, ℤ, pos, minus_one,
  int_key,
}
use Prim.Native.String.{◌++◌ as str_append}
use cs.Prelude.Tests.{Key, string_key}
use cs.Prelude.Map.{Map}
use cs.Format.{Context}
use cs.Database.LifeCycle.{external, Err, TxHookMap, Pool, start}
use cs.Database.Sql.{Sql, select, Table, insert_returning, on_table}
use cs.Database.Event.{Time, Event}

abbrev pub EventType : Type 0
EventType = String

abbrev pub event_create : EventType
event_create = "create"

abbrev pub event_update : EventType
event_update = "update"

abbrev pub event_delete : EventType
event_delete = "delete"

abbrev pub event_join : EventType
event_join = "join"

abbrev pub event_leave : EventType
event_leave = "leave"

-- A row of the table EventLogs, by its `log_id`.
pub record LogRow : Type 0 where
  pub event_id : ℤ
  pub user_id : ℤ
  pub event_type : EventType
  pub content : String
  pub updated_at : Time

pub record EventLog : Type 0 where
  pub log_id : ℤ
  pub event_id : ℤ
  pub user_id : ℤ
  pub event_type : EventType
  pub content : String
  pub updated_at : Time

pub data EventLogStoreApi : Type 0 where
  api_get_event_logs api_create_event_log : EventLogStoreApi

unfoldable pub log_api_discrete : Discrete EventLogStoreApi
log_api_discrete = hlevel

instance abbrev pub log_api_key : Key EventLogStoreApi
log_api_key = record { dec = log_api_discrete }

-- What `fmt.Sprintf` writes for `%d` of an int64, and for `%v` of a time and of a slice of int64.
pub record Fmt : Type 0 where
  pub decimal : ℤ → String
  pub time : Time → String
  pub ids : List ℤ → String

-- The parts of a formatted text, one after the other.
unfoldable pub concat : List String → String
concat [] = ""
concat (s ∷ ss) = str_append s (concat ss)

module _ (fmt : Fmt) where
  -- What the texts of a new and of an updated event have in common.
  unfoldable pub event_text : String → Event → List String
  event_text verb event =
      "event ("
      ∷ event.name
      ∷ ") ("
      ∷ fmt.decimal event.id
      ∷ ") is "
      ∷ verb
      ∷ " by user ("
      ∷ fmt.decimal event.host_id
      ∷ "). Info: "
      ∷ event.info
      ∷ ". Time: ["
      ∷ fmt.time event.start_at
      ∷ ", "
      ∷ fmt.time event.end_at
      ∷ "]. Location: "
      ∷ event.location
      ∷ "."
      ∷ []

  unfoldable pub gen_log_create_event : Event → String
  gen_log_create_event event =
      concat
        (event_text "created" event ++ " Participants: " ∷ fmt.ids event.participants ∷ "." ∷ [])

  unfoldable pub gen_log_update_event : Event → String
  gen_log_update_event event = concat (event_text "updated" event)

  unfoldable pub gen_log_delete_event : ℤ → String
  gen_log_delete_event event_id = concat ("event (" ∷ fmt.decimal event_id ∷ ") is deleted" ∷ [])

  unfoldable pub gen_log_join_event : ℤ → ℤ → String
  gen_log_join_event event_id user_id =
      concat ("user (" ∷ fmt.decimal user_id ∷ ") joins event (" ∷ fmt.decimal event_id ∷ ")" ∷ [])

  unfoldable pub gen_log_leave_event : ℤ → ℤ → String
  gen_log_leave_event event_id user_id =
      concat ("user (" ∷ fmt.decimal user_id ∷ ") leaves event (" ∷ fmt.decimal event_id ∷ ")" ∷ [])

  -- The switch of CreateEventLog, and `none` where it has no case.
  unfoldable pub content_of : EventType → ℤ → ℤ → Event → Option String
  content_of event_type event_id user_id event =
      ite (string_key.dec event_type event_create) (some (gen_log_create_event event)) (
        ite (string_key.dec event_type event_update) (some (gen_log_update_event event)) (
          ite (string_key.dec event_type event_delete) (some (gen_log_delete_event event_id)) (
            ite (string_key.dec event_type event_join) (some (gen_log_join_event event_id user_id))
              (ite (string_key.dec event_type event_leave)
                (some (gen_log_leave_event event_id user_id)) none))))

  -- `unknown` is the error that wraps ErrUnknownEventType, and `now` what NOW() is in the
  -- transaction.
  unfoldable pub create_event_log_tx :
      {E : Type 0}
      → Sql LogRow E
      → (EventType → E)
      → Time
      → ℤ
      → ℤ
      → EventType
      → Event
      → Map ℤ LogRow
      → Map ℤ LogRow × ℤ × Err E
  create_event_log_tx sql unknown now event_id user_id event_type event logs =
      elim (content_of event_type event_id user_id event) [
        | none ↦ (logs, minus_one, external (unknown event_type) ∷ [])
        | some content ↦
            insert_returning sql
              (record {
                event_id = event_id;
                user_id = user_id;
                event_type = event_type;
                content = content;
                updated_at = now;
              })
              logs
      ]

-- It starts the life cycle of the other operation: the hooks of `api_create_event_log` do not run.
unfoldable pub create_event_log :
    {V D E : Type 0}
    → Pool D E
    → (ℤ → V)
    → TxHookMap EventLogStoreApi V D E
    → Table D LogRow
    → Sql LogRow E
    → Fmt
    → (EventType → E)
    → Time
    → ℤ
    → ℤ
    → EventType
    → Event
    → Context V
    → D
    → Context V × D × ℤ × Err E
create_event_log pool id_result hooks table sql fmt unknown now event_id user_id event_type event =
    start pool id_result (pos 0) hooks api_get_event_logs
      (on_table table (create_event_log_tx fmt sql unknown now event_id user_id event_type event))

-- The rows whose column `event_id` is that of the query, in some order, here that of the table.
unfoldable pub rows_of : ℤ → Map ℤ LogRow → List EventLog
rows_of event_id [] = []
rows_of event_id ((id, row) ∷ logs) =
    let rest = rows_of event_id logs in
    ite (int_key.dec row.event_id event_id)
      (record {
        log_id = id;
        event_id = event_id;
        user_id = row.user_id;
        event_type = row.event_type;
        content = row.content;
        updated_at = row.updated_at;
      }
        ∷ rest)
      rest

module _ {E : Type 0} (scan : EventLog → Option E) (rows_err : Option E) where
  -- The loop and the deferred function. `scan` is the error of `rows.Scan` on a row, `rows_err`
  -- what `rows.Err` returns in the end.
  unfoldable pub scan_rows : List EventLog → List EventLog → List EventLog × Option E
  scan_rows [] event_logs = (event_logs, rows_err)
  scan_rows (row ∷ rows) event_logs = elim (scan row) [
    | some e ↦ ([], some e)
    | none ↦ scan_rows rows (event_logs ++ row ∷ [])
  ]

  unfoldable pub get_event_logs : Sql LogRow E → Map ℤ LogRow → ℤ → List EventLog × Option E
  get_event_logs sql logs event_id = elim (sql.fault select logs logs) [
    | some e ↦ ([], some e)
    | none ↦ scan_rows (rows_of event_id logs) []
  ]
