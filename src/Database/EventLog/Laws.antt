-- ===== src/Database/EventLog/Laws.antt =====
-- pkg/database/event_log.go: which logs an operation writes, and which are read.
use cs.Prelude.{
  ◌⊎◌, String, Option, none, some, ◌≡◌, ◌≢◌, refl, ap, sym, ◌∙◌, inl, inr, [], ◌∷◌, ◌++◌, List, ℤ,
  pos, int_key, arith,
}
use mathlib.Core.List.{append_assoc, append-nil}
use cs.Prelude.Tests.{string_key, Option-cases}
use cs.Prelude.Map.{Map, lookup, insert}
use cs.Format.{Context}
use cs.Database.LifeCycle.{TxHookMap, Pool}
use cs.Database.Sql.{Sql, Table, select, insert_returning}
use cs.Database.Sql.Committed.{HooksLeaveRows, start-on_table, start-Done}
use cs.Database.Event.{Time, Event}
use cs.Database.EventLog
use cs.Database.EventLog.{LogRow, EventType, Fmt, log_api_key, content_of}

-- The row of a call of CreateEventLog with the text `content`.
abbrev pub row_of : ℤ → ℤ → EventType → String → Time → LogRow
row_of event_id user_id event_type content now = record {
  event_id = event_id;
  user_id = user_id;
  event_type = event_type;
  content = content;
  updated_at = now;
}

-- The text of a log: for one of the five types of event, what the type is logged with.
abbrev pub TextOf : Fmt → EventType → ℤ → ℤ → Event → String → Type 0
TextOf fmt event_type event_id user_id event content =
    ((event_type ≡ "create") × (content ≡ EventLog.gen_log_create_event fmt event))
    ⊎ ((event_type ≡ "update") × (content ≡ EventLog.gen_log_update_event fmt event))
    ⊎ ((event_type ≡ "delete") × (content ≡ EventLog.gen_log_delete_event fmt event_id))
    ⊎ ((event_type ≡ "join") × (content ≡ EventLog.gen_log_join_event fmt event_id user_id))
    ⊎ ((event_type ≡ "leave") × (content ≡ EventLog.gen_log_leave_event fmt event_id user_id))

content_of-TextOf :
    (fmt : Fmt) (event_type : EventType) (event_id user_id : ℤ) (event : Event) (content : String)
    → content_of fmt event_type event_id user_id event ≡ some content
    → TextOf fmt event_type event_id user_id event content
unfolding content_of
content_of-TextOf fmt event_type event_id user_id event content there =
    elim (string_key.dec event_type "create") [
      | yes a ↦ inl (a, ground (arith, there, a))
      | no a ↦ elim (string_key.dec event_type "update") [
        | yes b ↦ inr (inl (b, ground (arith, there, a, b)))
        | no b ↦ elim (string_key.dec event_type "delete") [
          | yes c ↦ inr (inr (inl (c, ground (arith, there, a, b, c))))
          | no c ↦ elim (string_key.dec event_type "join") [
            | yes d ↦ inr (inr (inr (inl (d, ground (arith, there, a, b, c, d)))))
            | no d ↦ elim (string_key.dec event_type "leave") [
              | yes e ↦ inr (inr (inr (inr (e, ground (arith, there, a, b, c, d, e)))))
              | no e ↦ absurd (ground (arith, there, a, b, c, d, e))
            ]
          ]
        ]
      ]
    ]

module _ {E : Type 0} (sql : Sql LogRow E) (fmt : Fmt) (unknown : EventType → E) (now : Time)
    (event_id user_id : ℤ) (event_type : EventType) (event : Event) (logs : Map ℤ LogRow) where
  pub create_event_log_tx-rows :
      (EventLog.create_event_log_tx fmt sql unknown now event_id user_id event_type event logs).2
        ≡ []
      → (content : String) × (content_of fmt event_type event_id user_id event ≡ some content)
        × ((EventLog.create_event_log_tx fmt sql unknown now event_id user_id event_type event
              logs).1
            ≡ sql.generate logs)
        × ((EventLog.create_event_log_tx fmt sql unknown now event_id user_id event_type event
              logs).0
            ≡ insert (sql.generate logs) (row_of event_id user_id event_type content now) logs)
  unfolding EventLog.create_event_log_tx insert_returning
  create_event_log_tx-rows fine =
      elim (Option-cases (content_of fmt event_type event_id user_id event)) [
        | inl missing ↦ absurd (ground (arith, fine, missing))
        | inr (content, there) ↦
            (content, there, ground (arith, fine, there), ground (arith, fine, there))
      ]

module _ {E : Type 0} (scan : EventLog.EventLog → Option E) (rows_err : Option E)
    (scans : (l : EventLog.EventLog) → scan l ≡ none) where
  scan_rows-all :
      (rows event_logs : List EventLog.EventLog)
      → EventLog.scan_rows scan rows_err rows event_logs ≡ (event_logs ++ rows, rows_err)
  unfolding EventLog.scan_rows
  scan_rows-all [] event_logs = ap (λ l. (l, rows_err)) (sym (append-nil event_logs))
  scan_rows-all (row ∷ rows) event_logs =
      rw (scans row, EventLog.scan_rows)
        (scan_rows-all rows (event_logs ++ row ∷ [])
          ∙ ap (λ l. (l, rows_err)) (append_assoc event_logs (row ∷ []) rows))

  get_event_logs-all :
      (sql : Sql LogRow E) (logs : Map ℤ LogRow) (event_id : ℤ)
      → ((logs : Map ℤ LogRow) → sql.fault select logs logs ≡ none)
      → EventLog.get_event_logs scan rows_err sql logs event_id
        ≡ (EventLog.rows_of event_id logs, rows_err)
  unfolding EventLog.get_event_logs
  get_event_logs-all sql logs event_id works =
      rw (works logs, EventLog.get_event_logs) (scan_rows-all (EventLog.rows_of event_id logs) [])

rows_of-insert :
    (id event_id : ℤ) (row : LogRow) (logs : Map ℤ LogRow)
    → lookup id logs ≡ none
    → EventLog.rows_of event_id (insert id row logs)
      ≡ EventLog.rows_of event_id logs ++ EventLog.rows_of event_id ((id, row) ∷ [])
unfolding EventLog.rows_of insert lookup
rows_of-insert id event_id row [] fresh = refl
rows_of-insert id event_id row ((k, r) ∷ logs) fresh =
    ground (arith, fresh, rows_of-insert id event_id row logs)

module _ {V D E : Type 0} (pool : Pool D E) (id_result : ℤ → V)
    (hooks : TxHookMap EventLog.EventLogStoreApi V D E) (table : Table D LogRow)
    (sql : Sql LogRow E) (fmt : Fmt) (unknown : EventType → E) (now : Time) (event_id user_id : ℤ)
    (event_type : EventType) (event : Event) where
  -- Let no hook of the API that CreateEventLog starts under change the rows of the table. With a
  -- type of event other than create, update, delete, join and leave, CreateEventLog leaves the
  -- database as it was and returns an error.
  pub create_event_log-unknown :
      (ctx : Context V) (d : D)
      → HooksLeaveRows hooks EventLog.api_get_event_logs table
      → event_type ≢ EventLog.event_create
      → event_type ≢ EventLog.event_update
      → event_type ≢ EventLog.event_delete
      → event_type ≢ EventLog.event_join
      → event_type ≢ EventLog.event_leave
      → let result =
          EventLog.create_event_log pool id_result hooks table sql fmt unknown now event_id user_id
            event_type event ctx d in
        (result.1 ≡ d) × (result.3 ≢ [])
  unfolding EventLog.create_event_log content_of
  create_event_log-unknown ctx d leaves c u e j l =
      elim (start-on_table pool id_result (pos 0) hooks EventLog.api_get_event_logs table
        (EventLog.create_event_log_tx fmt sql unknown now event_id user_id event_type event) ctx d
        leaves) [
          | inl unchanged ↦ unchanged
          | inr (_, _, fine) ↦
              let (content, there, _, _) =
                create_event_log_tx-rows sql fmt unknown now event_id user_id event_type event
                  (table.rows d) fine in
              absurd (ground (arith, there, c, u, e, j, l))
        ]

  -- Let no hook of the API that CreateEventLog starts under change the rows of the table, let the
  -- generated id be new, and let the query and the scans of its rows work. If CreateEventLog returns
  -- no error, then the type of event is create, update, delete, join or leave, and GetEventLogs
  -- returns for the event one log more, with the id that was returned and the text that is made for
  -- this type, and for any other event what it returned before.
  pub create_event_log-get_event_logs :
      (scan : EventLog.EventLog → Option E) (rows_err : Option E) (ctx : Context V) (d : D)
      (other : ℤ)
      → HooksLeaveRows hooks EventLog.api_get_event_logs table
      → lookup (sql.generate (table.rows d)) (table.rows d) ≡ none
      → ((logs : Map ℤ LogRow) → sql.fault select logs logs ≡ none)
      → ((l : EventLog.EventLog) → scan l ≡ none)
      → let result =
          EventLog.create_event_log pool id_result hooks table sql fmt unknown now event_id user_id
            event_type event ctx d in
        let get = EventLog.get_event_logs scan rows_err sql in
        result.3 ≡ []
        → event_id ≢ other
        → (content : String) × TextOf fmt event_type event_id user_id event content
          × ((get (table.rows result.1) event_id).0
              ≡ (get (table.rows d) event_id).0
                ++ record {
                  log_id = result.2;
                  event_id = event_id;
                  user_id = user_id;
                  event_type = event_type;
                  content = content;
                  updated_at = now;
                }
                  ∷ [])
          × (get (table.rows result.1) other ≡ get (table.rows d) other)
  unfolding EventLog.create_event_log EventLog.rows_of
  create_event_log-get_event_logs scan rows_err ctx d other leaves fresh works scans fine differ =
      let (rows, id, good) =
        start-Done pool id_result (pos 0) hooks EventLog.api_get_event_logs table
          (EventLog.create_event_log_tx fmt sql unknown now event_id user_id event_type event) ctx d
          leaves fine in
      let (content, there, id', rows') =
        create_event_log_tx-rows sql fmt unknown now event_id user_id event_type event
          (table.rows d) good in
      let new = sql.generate (table.rows d) in
      let row = row_of event_id user_id event_type content now in
      let all =
        λ (logs : Map ℤ LogRow) (e : ℤ). get_event_logs-all scan rows_err scans sql logs e works in
      let read : (e : ℤ)
          → EventLog.get_event_logs scan rows_err sql (table.rows _) e ≡ (
            EventLog.rows_of e (table.rows d) ++ EventLog.rows_of e ((new, row) ∷ []),
            rows_err,
          ) =
        λ e.
          ap (λ m. EventLog.get_event_logs scan rows_err sql m e) (sym rows ∙ rows')
          ∙ all (insert new row (table.rows d)) e
          ∙ ap (λ l. (l, rows_err)) (rows_of-insert new e row (table.rows d) fresh) in
      (
        content,
        content_of-TextOf fmt event_type event_id user_id event content there,
        ground (arith, read event_id, all (table.rows d) event_id, id, id'),
        ground (
          arith,
          read other,
          all (table.rows d) other,
          differ,
          append-nil (EventLog.rows_of other (table.rows d)),
        ),
      )
