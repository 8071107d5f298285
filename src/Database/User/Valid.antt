-- ===== src/Database/User/Valid.antt =====
-- pkg/database/user.go: the table of users stays well formed.
use cs.Prelude.{String, refl, inl, inr, List, ℤ, int_key, pos}
use cs.Prelude.Tests.{Sum-cases}
use cs.Format.{Context}
use cs.Database.LifeCycle.{TxHookMap, Pool}
use cs.Database.Sql.{Nil, nil, Sql, Table, query_row, delete, update}
use cs.Database.Sql.Ids.{Distinct, add_id, delete_id, add_id-Distinct, delete_id-Distinct}
use cs.Database.Sql.Column.{written-IsValid}
use cs.Database.Sql.Committed.{HooksLeaveRows, start-keeps}
use cs.Database.Sql.Keeps.{
  IsValid, update_row-IsValid, delete_row-IsValid, exec-IsValid, insert_returning-IsValid,
}
use cs.Database.User
use cs.Database.User.{user_api_key}

abbrev pub ValidUsers : User.Users → Type 0
ValidUsers = IsValid (λ row. row.host_events)

module _ {E : Type 0} (sql : Sql User.UserRow E) where
  add_host_event_tx-ValidUsers :
      (user_id event_id : ℤ) (users : User.Users)
      → ValidUsers users
      → ValidUsers (User.add_host_event_tx sql user_id event_id users).0
  unfolding User.add_host_event_tx User.set_host_events
  add_host_event_tx-ValidUsers user_id event_id users v =
      elim (Sum-cases (query_row sql user_id (λ row. row.host_events) users)) [
        | inl (e, bad) ↦ rw (bad, User.add_host_event_tx) v
        | inr (ids, found) ↦
            rw (found, User.add_host_event_tx)
              (written-IsValid (λ row. row.host_events)
                (λ ids row. record row { host_events = ids }) (λ ids row. refl) sql user_id ids
                (add_id ids event_id) users found (add_id-Distinct ids event_id) v)
      ]

  remove_host_event_tx-ValidUsers :
      (user_id event_id : ℤ) (users : User.Users)
      → ValidUsers users
      → ValidUsers (User.remove_host_event_tx sql user_id event_id users).0
  unfolding User.remove_host_event_tx User.set_host_events
  remove_host_event_tx-ValidUsers user_id event_id users v =
      elim (Sum-cases (query_row sql user_id (λ row. row.host_events) users)) [
        | inl (e, bad) ↦ rw (bad, User.remove_host_event_tx) v
        | inr (ids, found) ↦
            rw (found, User.remove_host_event_tx)
              (written-IsValid (λ row. row.host_events)
                (λ ids row. record row { host_events = ids }) (λ ids row. refl) sql user_id ids
                (delete_id ids event_id) users found (delete_id-Distinct ids event_id) v)
      ]

module _ {V D E : Type 0} (pool : Pool D E) (id_result : ℤ → V) (nil_result : Nil → V)
    (hooks : TxHookMap User.UserStoreApi V D E) (table : Table D User.UserRow)
    (sql : Sql User.UserRow E) where
  -- Let no hook change the rows of the table of users, and let the rows have distinct ids, and host
  -- events without a repetition. Then so it is after each of the five operations that write, whether it succeeds
  -- or not; of CreateUser if the host events that it is given are without a repetition.
  pub writes-ValidUsers :
      ((api : User.UserStoreApi) → HooksLeaveRows hooks api table)
      → (d : D) (ctx : Context V) (user_id event_id : ℤ) (name : String) (ids : List ℤ)
      → Distinct ids
      → ValidUsers (table.rows d)
      → ValidUsers (table.rows (User.create_user pool id_result hooks table sql name ids ctx d).1)
        × ValidUsers (table.rows (User.delete_user pool nil_result hooks table sql user_id ctx d).1)
        × ValidUsers
            (table.rows (User.update_name pool nil_result hooks table sql user_id name ctx d).1)
        × ValidUsers (
            table.rows
              (User.add_host_event pool nil_result hooks table sql user_id event_id ctx d).1)
        × ValidUsers (
            table.rows
              (User.remove_host_event pool nil_result hooks table sql user_id event_id ctx d).1)
  unfolding User.create_user User.delete_user User.update_name User.add_host_event
      User.remove_host_event User.create_user_tx User.delete_user_tx User.update_name_tx
  writes-ValidUsers leaves d ctx user_id event_id name ids distinct v = (
    start-keeps pool id_result (pos 0) hooks User.api_create_user table ValidUsers _
        (λ m. insert_returning-IsValid (λ row. row.host_events) sql _ m distinct) ctx d
        (leaves User.api_create_user) v,
    start-keeps pool nil_result nil hooks User.api_delete_user table ValidUsers _
        (λ m w.
          exec-IsValid (λ row. row.host_events) sql delete m _ w
            (delete_row-IsValid (λ row. row.host_events) user_id m w))
        ctx d (leaves User.api_delete_user) v,
    start-keeps pool nil_result nil hooks User.api_update_name table ValidUsers _
        (λ m w.
          exec-IsValid (λ row. row.host_events) sql update m _ w
            (update_row-IsValid (λ row. row.host_events) user_id _ m (w.distinct user_id) w))
        ctx d (leaves User.api_update_name) v,
    start-keeps pool nil_result nil hooks User.api_add_host_event table ValidUsers _
        (add_host_event_tx-ValidUsers sql user_id event_id) ctx d (leaves User.api_add_host_event)
        v,
    start-keeps pool nil_result nil hooks User.api_remove_host_event table ValidUsers _
        (remove_host_event_tx-ValidUsers sql user_id event_id) ctx d
        (leaves User.api_remove_host_event) v,
  )
