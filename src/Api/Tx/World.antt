-- ===== src/Api/Tx/World.antt =====
-- pkg/api/v1/tx.go: the three services behind the handlers of transactions, each with a database of
-- its own, and the effect of each call on their tables.
use cs.Prelude.{Option, ◌⊎◌, ℤ}
use cs.Prelude.Map.{Map}
use cs.Prelude.Run.{ok}
use cs.Format.{Context}
use cs.Database.LifeCycle.{Pool, TxHookMap}
use cs.Database.Sql.{Nil, Sql, Table}
use cs.Database.Sql.Committed.{HooksLeaveRows}
use cs.Database.User.{UserRow, UserStoreApi, user_api_key}
use cs.Database.Event.{EventRow, EventStoreApi, Time, event_api_key}
use cs.Database.EventLog
use cs.Database.EventLog.{LogRow, EventLogStoreApi, EventType, Fmt, log_api_key}
use cs.Database.Stores.{
  UserStore, EventStore, EventLogStore, table_user, table_event, table_event_log,
}
use cs.Api.User.{handle_add_user_host_event, handle_remove_user_host_event}
use cs.Api.Event.{
  handle_get_event, handle_create_event, handle_update_event, handle_delete_event,
  handle_add_event_participant, handle_remove_event_participant,
}
use cs.Api.EventLog.{handle_create_event_log}
use cs.Api.Call.{Call}
use cs.Api.Tx.{Peers}
use cs.Api.Tx.Services.{Network, serve}

-- A service's database and the stores over it. No hook changes the rows of the store's table.
pub record UserService (V D E : Type 0) : Type 0 where
  pub pool : Pool D E
  pub id_result : ℤ → V
  pub nil_result : Nil → V
  pub hooks : TxHookMap UserStoreApi V D E
  pub table : Table D UserRow
  pub sql : Sql UserRow E
  pub leaves : (api : UserStoreApi) → HooksLeaveRows hooks api table

pub record EventService (V D E : Type 0) : Type 0 where
  pub pool : Pool D E
  pub id_result : ℤ → V
  pub nil_result : Nil → V
  pub hooks : TxHookMap EventStoreApi V D E
  pub table : Table D EventRow
  pub sql : Sql EventRow E
  pub stored : Time → Time
  pub leaves : (api : EventStoreApi) → HooksLeaveRows hooks api table

pub record EventLogService (V D E : Type 0) : Type 0 where
  pub pool : Pool D E
  pub id_result : ℤ → V
  pub hooks : TxHookMap EventLogStoreApi V D E
  pub table : Table D LogRow
  pub sql : Sql LogRow E
  pub fmt : Fmt
  pub unknown : EventType → E
  pub now : D → Time
  pub scan : EventLog.EventLog → Option E
  pub rows_err : Option E
  pub leaves : (api : EventLogStoreApi) → HooksLeaveRows hooks api table

-- The network and the three databases.
pub record World (N Du De Dl : Type 0) : Type 0 where
  pub net : N
  pub users : Du
  pub events : De
  pub logs : Dl

-- The rows of the three tables.
pub record Tables : Type 0 where
  pub users : Map ℤ UserRow
  pub events : Map ℤ EventRow
  pub logs : Map ℤ LogRow

module _ {N Du De Dl F : Type 0} where
  abbrev pub at_users : {A : Type 0} → (N × Du → (N × Du) × (F ⊎ A)) → Call (World N Du De Dl) F A
  at_users call w =
      let ((net, d), result) = call (w.net, w.users) in (record w { net = net; users = d }, result)

  abbrev pub at_events : {A : Type 0} → (N × De → (N × De) × (F ⊎ A)) → Call (World N Du De Dl) F A
  at_events call w =
      let ((net, d), result) = call (w.net, w.events) in
      (record w { net = net; events = d }, result)

  abbrev pub at_logs : {A : Type 0} → (N × Dl → (N × Dl) × (F ⊎ A)) → Call (World N Du De Dl) F A
  at_logs call w =
      let ((net, d), result) = call (w.net, w.logs) in (record w { net = net; logs = d }, result)

module _ {V N Du De Dl E : Type 0} (us : UserService V Du E) (es : EventService V De E)
    (ls : EventLogService V Dl E) where
  abbrev pub view : World N Du De Dl → Tables
  view w = record {
    users = us.table.rows w.users;
    events = es.table.rows w.events;
    logs = ls.table.rows w.logs;
  }

module _ {V N Du De Dl F E : Type 0} (network : Network N F) (us : UserService V Du E)
    (es : EventService V De E) (ls : EventLogService V Dl E) (ctx : Context V) where
  abbrev pub user_store : UserStore V Du E
  user_store = table_user us.pool us.id_result us.nil_result us.hooks us.table us.sql

  abbrev pub event_store : EventStore V De E
  event_store = table_event es.pool es.id_result es.nil_result es.hooks es.table es.sql es.stored

  abbrev pub event_log_store : EventLogStore V Dl E
  event_log_store =
      table_event_log ls.pool ls.id_result ls.hooks ls.table ls.sql ls.fmt ls.unknown ls.now ls.scan
        ls.rows_err

  -- `ctx` is the context in which a service's middleware calls a handler.
  abbrev pub peers : Peers (World N Du De Dl) F
  peers = record {
    post_create_event =
        λ req. at_events (serve network 201 (λ d. handle_create_event event_store req ctx d));
    get_get_event = λ req.
        at_events (serve network 200 (λ d. (ctx, d, ok (handle_get_event event_store req d))));
    put_update_event =
        λ req. at_events (serve network 204 (λ d. handle_update_event event_store req ctx d));
    delete_delete_event =
        λ req. at_events (serve network 204 (λ d. handle_delete_event event_store req ctx d));
    put_add_event_participant = λ req.
        at_events (serve network 204 (λ d. handle_add_event_participant event_store req ctx d));
    put_remove_event_participant = λ req.
        at_events (serve network 204 (λ d. handle_remove_event_participant event_store req ctx d));
    post_create_event_log =
        λ req. at_logs (serve network 201 (λ d. handle_create_event_log event_log_store req ctx d));
    put_add_user_host_event =
        λ req. at_users (serve network 204 (λ d. handle_add_user_host_event user_store req ctx d));
    put_remove_user_host_event = λ req.
        at_users (serve network 204 (λ d. handle_remove_user_host_event user_store req ctx d));
  }
