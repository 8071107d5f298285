-- ===== src/Database/Stores.antt =====
-- pkg/database/db.go, and the interfaces of the stores in user.go, event.go, event_log.go, which the
-- tables implement.
use cs.Prelude.{String, Option, ◌⊎◌, List, ℤ}
use cs.Format.{Context}
use cs.Database.LifeCycle.{Err, TxHookMap, Pool}
use cs.Database.Sql.{Nil, Sql, Table}
use cs.Database.User.{User, UserRow, UserStoreApi}
use cs.Database.User
use cs.Database.Event.{Event, EventRow, EventStoreApi, Time}
use cs.Database.Event
use cs.Database.EventLog.{EventLog, LogRow, EventLogStoreApi, EventType, Fmt}
use cs.Database.EventLog

-- An operation with a result of type `R`, on the request's context and the database.
abbrev pub StoreCall : Type 0 → Type 0 → Type 0 → Type 0 → Type 0
StoreCall V D E R = Context V → D → Context V × D × R × Err E

pub record UserStore (V D E : Type 0) : Type 0 where
  pub get_user : D → ℤ → E ⊎ User
  pub get_id : D → String → ℤ × Option E
  pub get_name : D → ℤ → String × Option E
  pub get_host_events : D → ℤ → E ⊎ List ℤ
  pub create_user : String → List ℤ → StoreCall V D E ℤ
  pub delete_user : ℤ → StoreCall V D E Nil
  pub update_name : ℤ → String → StoreCall V D E Nil
  pub add_host_event : ℤ → ℤ → StoreCall V D E Nil
  pub remove_host_event : ℤ → ℤ → StoreCall V D E Nil

pub record EventStore (V D E : Type 0) : Type 0 where
  pub get_event : D → ℤ → E ⊎ Event
  pub create_event : Event → StoreCall V D E ℤ
  pub update_event : Event → StoreCall V D E Nil
  pub delete_event : ℤ → StoreCall V D E Nil
  pub add_participant : ℤ → ℤ → StoreCall V D E Nil
  pub remove_participant : ℤ → ℤ → StoreCall V D E Nil

pub record EventLogStore (V D E : Type 0) : Type 0 where
  pub get_event_logs : D → ℤ → List EventLog × Option E
  pub create_event_log : ℤ → ℤ → EventType → Event → StoreCall V D E ℤ

module _ {V D E : Type 0} (pool : Pool D E) (id_result : ℤ → V) (nil_result : Nil → V) where
  abbrev pub table_user :
      TxHookMap UserStoreApi V D E → Table D UserRow → Sql UserRow E → UserStore V D E
  table_user hooks table sql = record {
    get_user = λ d. User.get_user sql (table.rows d);
    get_id = λ d. User.get_id sql (table.rows d);
    get_name = λ d. User.get_name sql (table.rows d);
    get_host_events = λ d. User.get_host_events sql (table.rows d);
    create_user = User.create_user pool id_result hooks table sql;
    delete_user = User.delete_user pool nil_result hooks table sql;
    update_name = User.update_name pool nil_result hooks table sql;
    add_host_event = User.add_host_event pool nil_result hooks table sql;
    remove_host_event = User.remove_host_event pool nil_result hooks table sql;
  }

  abbrev pub table_event :
      TxHookMap EventStoreApi V D E
      → Table D EventRow
      → Sql EventRow E
      → (Time → Time)
      → EventStore V D E
  table_event hooks table sql stored = record {
    get_event = λ d. Event.get_event sql (table.rows d);
    create_event = Event.create_event pool id_result hooks table sql stored;
    update_event = Event.update_event pool nil_result hooks table sql stored;
    delete_event = Event.delete_event pool nil_result hooks table sql;
    add_participant = Event.add_participant pool nil_result hooks table sql;
    remove_participant = Event.remove_participant pool nil_result hooks table sql;
  }

-- `now` is NOW() in the transaction, from the database.
abbrev pub table_event_log :
    {V D E : Type 0}
    → Pool D E
    → (ℤ → V)
    → TxHookMap EventLogStoreApi V D E
    → Table D LogRow
    → Sql LogRow E
    → Fmt
    → (EventType → E)
    → (D → Time)
    → (EventLog → Option E)
    → Option E
    → EventLogStore V D E
table_event_log pool id_result hooks table sql fmt unknown now scan rows_err = record {
  get_event_logs = λ d. EventLog.get_event_logs scan rows_err sql (table.rows d);
  create_event_log = λ event_id user_id event_type event ctx d.
      EventLog.create_event_log pool id_result hooks table sql fmt unknown (now d) event_id user_id
        event_type event ctx d;
}
