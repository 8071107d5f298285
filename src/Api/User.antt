-- ===== src/Api/User.antt =====
-- pkg/api/v1/user.go: the handlers of the users.
use cs.Prelude.{String, List, ℤ}
use cs.Prelude.Run.{Run}
use cs.Format.{Context}
use cs.Database.LifeCycle.{Err}
use cs.Database.Stores.{UserStore}
use cs.Api.Reply.{
  Reply, write_read, write_option, unwrapped, err_get_user, err_get_user_id, err_get_user_name,
  err_get_user_host_events, err_create_user, err_delete_event, err_update_user_name,
  err_add_user_host_event, err_remove_user_host_event,
}

pub record RequestGetUser : Type 0 where
  pub user_id : ℤ

pub record ResponseGetUser : Type 0 where
  pub user_id : ℤ
  pub user_name : String
  pub host_events : List ℤ

pub record RequestGetUserId : Type 0 where
  pub user_name : String

pub record ResponseGetUserId : Type 0 where
  pub user_id : ℤ

pub record RequestGetUserName : Type 0 where
  pub user_id : ℤ

pub record ResponseGetUserName : Type 0 where
  pub user_name : String

pub record RequestGetUserHostEvents : Type 0 where
  pub user_id : ℤ

pub record ResponseGetUserHostEvents : Type 0 where
  pub host_events : List ℤ

pub record RequestCreateUser : Type 0 where
  pub user_name : String
  pub host_events : List ℤ

pub record ResponseCreateUser : Type 0 where
  pub user_id : ℤ

pub record RequestDeleteUser : Type 0 where
  pub user_id : ℤ

pub record RequestUpdateUserName : Type 0 where
  pub user_id : ℤ
  pub user_name : String

pub record RequestAddUserHostEvent : Type 0 where
  pub user_id : ℤ
  pub event_id : ℤ

pub record RequestRemoveUserHostEvent : Type 0 where
  pub user_id : ℤ
  pub event_id : ℤ

-- A response without fields.
pub data Empty : Type 0 where
  no_fields : Empty

module _ {V D E : Type 0} (store : UserStore V D E) where
  abbrev pub Served : Type 0 → Type 0
  Served A = Context V → D → Context V × D × Run (Reply A (Err E))

  unfoldable pub handle_get_user : RequestGetUser → D → Reply ResponseGetUser (Err E)
  handle_get_user req d =
      write_read err_get_user
        (λ user. record { user_id = user.id; user_name = user.name; host_events = user.events })
        (store.get_user d req.user_id)

  unfoldable pub handle_get_user_id : RequestGetUserId → D → Reply ResponseGetUserId (Err E)
  handle_get_user_id req d =
      let (id, err) = store.get_id d req.user_name in
      write_option err_get_user_id (record { user_id = id }) err

  unfoldable pub handle_get_user_name : RequestGetUserName → D → Reply ResponseGetUserName (Err E)
  handle_get_user_name req d =
      let (name, err) = store.get_name d req.user_id in
      write_option err_get_user_name (record { user_name = name }) err

  unfoldable pub handle_get_user_host_events :
      RequestGetUserHostEvents → D → Reply ResponseGetUserHostEvents (Err E)
  handle_get_user_host_events req d =
      write_read err_get_user_host_events (λ ids. record { host_events = ids })
        (store.get_host_events d req.user_id)

  unfoldable pub handle_create_user : RequestCreateUser → Served ResponseCreateUser
  handle_create_user req ctx d =
      unwrapped 201 err_create_user (λ id. record { user_id = id })
        (store.create_user req.user_name req.host_events ctx d)

  -- The error is that of an event.
  unfoldable pub handle_delete_user : RequestDeleteUser → Served Empty
  handle_delete_user req ctx d =
      unwrapped 204 err_delete_event (λ _. no_fields) (store.delete_user req.user_id ctx d)

  unfoldable pub handle_update_user_name : RequestUpdateUserName → Served Empty
  handle_update_user_name req ctx d =
      unwrapped 204 err_update_user_name (λ _. no_fields)
        (store.update_name req.user_id req.user_name ctx d)

  unfoldable pub handle_add_user_host_event : RequestAddUserHostEvent → Served Empty
  handle_add_user_host_event req ctx d =
      unwrapped 204 err_add_user_host_event (λ _. no_fields)
        (store.add_host_event req.user_id req.event_id ctx d)

  unfoldable pub handle_remove_user_host_event : RequestRemoveUserHostEvent → Served Empty
  handle_remove_user_host_event req ctx d =
      unwrapped 204 err_remove_user_host_event (λ _. no_fields)
        (store.remove_host_event req.user_id req.event_id ctx d)
