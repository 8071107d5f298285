-- ===== src/Database/User.antt =====
-- pkg/database/user.go: the store of users. An operation that writes is a function of the table,
-- `…_tx`, that the life cycle runs between Begin and Commit.
pub mod Hosting
pub mod Valid
pub mod Reads
use cs.Prelude.{String, Option, none, some, ◌⊎◌, inl, inr, List, [], ◌∷◌, ℤ, pos, minus_one, ite}
use cs.Prelude.Tests.{Key, string_key, if◌then◌else◌}
use cs.Prelude.Map.{Map}
use cs.Format.{Context}
use cs.Database.LifeCycle.{external, Err, TxHookMap, Pool, start}
use cs.Database.Sql.{
  Nil, nil, update, delete, Sql, Table, query_row, exec, insert_returning, update_row, delete_row,
  on_table, select,
}
use cs.Database.Sql.Ids.{add_id, delete_id}

pub data UserStoreApi : Type 0 where
  api_get_user api_get_id api_get_name api_get_host_events api_create_user : UserStoreApi
  api_delete_user api_update_name api_add_host_event api_remove_host_event : UserStoreApi

-- A row of the table Users, by its `user_id`.
pub record UserRow : Type 0 where
  pub user_name : String
  pub host_events : List ℤ

pub record User : Type 0 where
  pub id : ℤ
  pub name : String
  pub events : List ℤ

abbrev pub Users : Type 0
Users = Map ℤ UserRow

-- The first row of the name, of which there is at most one (`Unique (user_name)`).
unfoldable pub find_name : String → Users → Option ℤ
find_name user_name [] = none
find_name user_name ((id, row) ∷ users) =
    ite (string_key.dec user_name row.user_name) (some id) (find_name user_name users)

module _ {E : Type 0} (sql : Sql UserRow E) where
  unfoldable pub get_user : Users → ℤ → E ⊎ User
  get_user users user_id =
      query_row sql user_id
        (λ row. record { id = user_id; name = row.user_name; events = row.host_events }) users

  unfoldable pub get_id : Users → String → ℤ × Option E
  get_id users user_name = elim (sql.fault select users users) [
    | some e ↦ (minus_one, some e)
    | none ↦ elim (find_name user_name users) [
      | none ↦ (minus_one, some sql.no_rows)
      | some id ↦ (id, none)
    ]
  ]

  unfoldable pub get_name : Users → ℤ → String × Option E
  get_name users user_id = elim (query_row sql user_id (λ row. row.user_name) users) [
    | inl e ↦ ("", some e)
    | inr name ↦ (name, none)
  ]

  unfoldable pub get_host_events : Users → ℤ → E ⊎ List ℤ
  get_host_events users user_id = query_row sql user_id (λ row. row.host_events) users

  unfoldable pub create_user_tx : String → List ℤ → Users → Users × ℤ × Err E
  create_user_tx user_name host_events users =
      insert_returning sql (record { user_name = user_name; host_events = host_events }) users

  unfoldable pub delete_user_tx : ℤ → Users → Users × Nil × Err E
  delete_user_tx user_id users = exec sql delete users (delete_row user_id users)

  unfoldable pub update_name_tx : ℤ → String → Users → Users × Nil × Err E
  update_name_tx user_id new_name users =
      exec sql update users (update_row user_id (λ row. record row { user_name = new_name }) users)

  -- `UPDATE Users SET host_events = $2 WHERE user_id = $1`
  unfoldable pub set_host_events : ℤ → List ℤ → Users → Users × Nil × Err E
  set_host_events user_id host_events users =
      exec sql update users
        (update_row user_id (λ row. record row { host_events = host_events }) users)

  unfoldable pub add_host_event_tx : ℤ → ℤ → Users → Users × Nil × Err E
  add_host_event_tx user_id event_id users =
      elim (query_row sql user_id (λ row. row.host_events) users) [
        | inl e ↦ (users, nil, external e ∷ [])
        | inr host_events ↦ set_host_events user_id (add_id host_events event_id) users
      ]

  unfoldable pub remove_host_event_tx : ℤ → ℤ → Users → Users × Nil × Err E
  remove_host_event_tx user_id event_id users =
      elim (query_row sql user_id (λ row. row.host_events) users) [
        | inl e ↦ (users, nil, external e ∷ [])
        | inr host_events ↦ set_host_events user_id (delete_id host_events event_id) users
      ]

unfoldable pub user_api_discrete : Discrete UserStoreApi
user_api_discrete = hlevel

instance abbrev pub user_api_key : Key UserStoreApi
user_api_key = record { dec = user_api_discrete }

module _ {V D E : Type 0} (pool : Pool D E) (id_result : ℤ → V)
    (hooks : TxHookMap UserStoreApi V D E) (table : Table D UserRow) (sql : Sql UserRow E) where
  unfoldable pub create_user : String → List ℤ → Context V → D → Context V × D × ℤ × Err E
  create_user user_name host_events =
      start pool id_result (pos 0) hooks api_create_user
        (on_table table (create_user_tx sql user_name host_events))

module _ {V D E : Type 0} (pool : Pool D E) (nil_result : Nil → V)
    (hooks : TxHookMap UserStoreApi V D E) (table : Table D UserRow) (sql : Sql UserRow E) where
  unfoldable pub delete_user : ℤ → Context V → D → Context V × D × Nil × Err E
  delete_user user_id =
      start pool nil_result nil hooks api_delete_user (on_table table (delete_user_tx sql user_id))

  unfoldable pub update_name : ℤ → String → Context V → D → Context V × D × Nil × Err E
  update_name user_id new_name =
      start pool nil_result nil hooks api_update_name
        (on_table table (update_name_tx sql user_id new_name))

  unfoldable pub add_host_event : ℤ → ℤ → Context V → D → Context V × D × Nil × Err E
  add_host_event user_id event_id =
      start pool nil_result nil hooks api_add_host_event
        (on_table table (add_host_event_tx sql user_id event_id))

  unfoldable pub remove_host_event : ℤ → ℤ → Context V → D → Context V × D × Nil × Err E
  remove_host_event user_id event_id =
      start pool nil_result nil hooks api_remove_host_event
        (on_table table (remove_host_event_tx sql user_id event_id))
