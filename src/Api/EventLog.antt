-- ===== src/Api/EventLog.antt =====
-- pkg/api/v1/event_log.go: the handlers of the logs of events.
use cs.Prelude.{String, List, map, ℤ}
use cs.Prelude.Run.{Run}
use cs.Format.{Context}
use cs.Database.LifeCycle.{Err}
use cs.Database.Event.{Time}
use cs.Database.EventLog.{EventLog}
use cs.Database.Stores.{EventLogStore}
use cs.Api.Event.{ApiEvent, api_event_to_database_event}
use cs.Api.Reply.{Reply, write_option, unwrapped, err_create_event_log, err_get_event_logs}

pub record ApiEventLog : Type 0 where
  pub log_id : ℤ
  pub event_id : ℤ
  pub user_id : ℤ
  pub event_type : String
  pub content : String
  pub updated_at : Time

unfoldable pub database_event_log_to_api_event_log : EventLog → ApiEventLog
database_event_log_to_api_event_log l = record {
  log_id = l.log_id;
  event_id = l.event_id;
  user_id = l.user_id;
  event_type = l.event_type;
  content = l.content;
  updated_at = l.updated_at;
}

pub record RequestCreateEventLog : Type 0 where
  pub user_id : ℤ
  pub event_id : ℤ
  pub event_type : String
  pub event : ApiEvent

pub record ResponseCreateEventLog : Type 0 where
  pub log_id : ℤ

pub record RequestGetEventLogs : Type 0 where
  pub event_id : ℤ

pub record ResponseGetEventLogs : Type 0 where
  pub event_logs : List ApiEventLog

module _ {V D E : Type 0} (store : EventLogStore V D E) where
  unfoldable pub handle_create_event_log :
      RequestCreateEventLog
      → Context V
      → D
      → Context V × D × Run (Reply ResponseCreateEventLog (Err E))
  handle_create_event_log req ctx d =
      unwrapped 201 err_create_event_log (λ id. record { log_id = id })
        (store.create_event_log req.event_id req.user_id req.event_type
          (api_event_to_database_event req.event) ctx d)

  unfoldable pub handle_get_event_logs :
      RequestGetEventLogs → D → Reply ResponseGetEventLogs (Err E)
  handle_get_event_logs req d =
      let (logs, err) = store.get_event_logs d req.event_id in
      write_option err_get_event_logs
        (record { event_logs = map database_event_log_to_api_event_log logs }) err
