-- ===== src/Tests/EventLogs.antt =====
-- pkg/database/event_log.go, with a database that is one table and no hooks.
use cs.Prelude.{
  String, Option, none, some, ◌≡◌, refl, List, [], ◌∷◌, ◌++◌, ℤ, pos, int_key, ℕ_discrete,
}
use cs.Prelude.Ints.{ℤ_discrete}
use cs.Prelude.Tests.{nat_key, string_key, string_discrete, Bool-cases}
use cs.Prelude.Map.{Map, lookup, insert}
use cs.Format.{Context, get_trace_context, set_trace_context}
use cs.Format
use cs.Database.LifeCycle.{
  Err, hooks_of, run_hooks, run_after_hooks, keep_result, then_after, in_tx, with_tx, then_end,
  start, finish_tx, set_result,
}
use cs.Database.Sql.{insert_returning, on_table}
use cs.Database.User.{user_api_key}
use cs.Database.Event.{event_api_key}
use cs.Database.EventLog
use cs.Database.EventLog.{
  EventLogStoreApi, LogRow, EventType, Fmt, log_api_key, log_api_discrete, content_of,
}
use cs.Database.EventLog.Laws.{TextOf, create_event_log-get_event_logs}
use cs.Tests.Stores.{whole, works, pool, no_hooks, ctx, no_hooks-leave}
use cs.Tests.Events.{party}

abbrev fmt : Fmt
fmt = record { decimal = λ n. "7"; time = λ t. "noon"; ids = λ l. "[]" }

abbrev unknown : EventType → String
unknown event_type = "unknown event type"

-- `create_event_log` on an empty table.
abbrev logged : EventType → Context (Option ℤ) × Map ℤ LogRow × ℤ × Err String
logged event_type =
    EventLog.create_event_log pool some no_hooks whole works fmt unknown 8 (pos 0) (pos 3)
      event_type party ctx []

join_logged : (logged "join").3 ≡ []
unfolding EventLog.create_event_log start run_hooks hooks_of lookup then_end with_tx finish_tx in_tx
    then_after keep_result get_trace_context set_trace_context on_table run_after_hooks set_result
    Format.set insert EventLog.create_event_log_tx content_of insert_returning string_discrete
    Bool-cases ℤ_discrete ℕ_discrete log_api_discrete
join_logged = refl

abbrev get_logs : Map ℤ LogRow → ℤ → List EventLog.EventLog × Option String
get_logs = EventLog.get_event_logs (λ l. none) none works

create_event_log-get_event_logs_example :
    (content : String) × TextOf fmt "join" (pos 0) (pos 3) party content
    × ((get_logs (logged "join").1 (pos 0)).0
        ≡ (get_logs [] (pos 0)).0
          ++ record {
            log_id = (logged "join").2;
            event_id = pos 0;
            user_id = pos 3;
            event_type = "join";
            content = content;
            updated_at = 8;
          }
            ∷ [])
    × (get_logs (logged "join").1 (pos 1) ≡ get_logs [] (pos 1))
unfolding lookup
create_event_log-get_event_logs_example =
    create_event_log-get_event_logs pool some no_hooks whole works fmt unknown 8 (pos 0) (pos 3)
      "join" party (λ l. none) none ctx [] (pos 1) (no_hooks-leave whole _) refl (λ m. refl)
      (λ l. refl) join_logged (λ h. cc)
