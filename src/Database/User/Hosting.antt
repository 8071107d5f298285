-- ===== src/Database/User/Hosting.antt =====
-- pkg/database/user.go: the users that host events, as a relation of ids, under AddHostEvent and
-- RemoveHostEvent.
use cs.Prelude.{Bool, true, false, ◌≡◌, refl, inl, inr, [], ℤ, int_key, arith}
use cs.Format.{Context}
use cs.Database.LifeCycle.{TxHookMap, Pool}
use cs.Database.Sql.{Nil, nil, Sql, Table, query_row}
use cs.Database.Sql.Column.{holds, with_pair, written-add_id, written-delete_id}
use cs.Prelude.Tests.{Sum-cases}
use cs.Database.Sql.Committed.{HooksLeaveRows}
use cs.Database.Sql.Pairs.{PutsPair, start-PutsPair}
use cs.Database.User.{
  UserStoreApi, api_add_host_event, api_remove_host_event, UserRow, Users, add_host_event_tx,
  remove_host_event_tx, set_host_events, add_host_event, remove_host_event, user_api_key,
}

-- A user hosts an event if it is among the user's host events.
abbrev pub hosts : Users → ℤ → ℤ → Bool
hosts = holds (λ row. row.host_events)

module _ {E : Type 0} (sql : Sql UserRow E) where
  pub add_host_event_tx-hosts :
      (user_id event_id u e : ℤ) (users : Users)
      → (add_host_event_tx sql user_id event_id users).2 ≡ []
      → hosts (add_host_event_tx sql user_id event_id users).0 u e
        ≡ with_pair (hosts users) user_id event_id true u e
  unfolding add_host_event_tx set_host_events
  add_host_event_tx-hosts user_id event_id u e users fine =
      elim (Sum-cases (query_row sql user_id (λ row. row.host_events) users)) [
        | inl (err, bad) ↦ absurd (ground (arith, fine, bad))
        | inr (ids, found) ↦
            let written =
              written-add_id (λ row. row.host_events) (λ ids row. record row { host_events = ids })
                (λ ids row. refl) sql user_id event_id ids users u e found in
            ground (arith, fine, found, written)
      ]

  pub remove_host_event_tx-hosts :
      (user_id event_id u e : ℤ) (users : Users)
      → (remove_host_event_tx sql user_id event_id users).2 ≡ []
      → hosts (remove_host_event_tx sql user_id event_id users).0 u e
        ≡ with_pair (hosts users) user_id event_id false u e
  unfolding remove_host_event_tx set_host_events
  remove_host_event_tx-hosts user_id event_id u e users fine =
      elim (Sum-cases (query_row sql user_id (λ row. row.host_events) users)) [
        | inl (err, bad) ↦ absurd (ground (arith, fine, bad))
        | inr (ids, found) ↦
            let written =
              written-delete_id (λ row. row.host_events)
                (λ ids row. record row { host_events = ids }) (λ ids row. refl) sql user_id event_id
                ids users u e found in
            ground (arith, fine, found, written)
      ]

module _ {V D E : Type 0} (pool : Pool D E) (nil_result : Nil → V)
    (hooks : TxHookMap UserStoreApi V D E) (table : Table D UserRow) (sql : Sql UserRow E) where
  -- Let no hook of the two operations change the rows of the table of users. Then in the relation of
  -- users to the events that they host, AddHostEvent puts the pair of the user and the event in, and
  -- RemoveHostEvent takes it out; both change no other pair. Where an operation does not do so, it
  -- leaves the database as it was and returns an error.
  pub host_events-PutsPair :
      (user_id event_id : ℤ) (ctx : Context V) (d : D)
      → HooksLeaveRows hooks api_add_host_event table
      → HooksLeaveRows hooks api_remove_host_event table
      → let added = add_host_event pool nil_result hooks table sql user_id event_id ctx d in
        let removed = remove_host_event pool nil_result hooks table sql user_id event_id ctx d in
        PutsPair table (λ row. row.host_events) user_id event_id true d added.1 added.3
        × PutsPair table (λ row. row.host_events) user_id event_id false d removed.1 removed.3
  unfolding add_host_event remove_host_event
  host_events-PutsPair user_id event_id ctx d leaves leaves' = (
    start-PutsPair pool nil_result nil hooks api_add_host_event table (λ row. row.host_events)
        (add_host_event_tx sql user_id event_id) user_id event_id true
        (λ m u e. add_host_event_tx-hosts sql user_id event_id u e m) ctx d leaves,
    start-PutsPair pool nil_result nil hooks api_remove_host_event table (λ row. row.host_events)
        (remove_host_event_tx sql user_id event_id) user_id event_id false
        (λ m u e. remove_host_event_tx-hosts sql user_id event_id u e m) ctx d leaves',
  )
