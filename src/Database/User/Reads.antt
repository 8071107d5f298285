-- ===== src/Database/User/Reads.antt =====
-- pkg/database/user.go: what the reads of the store return after its writes.
use cs.Prelude.{String, none, ◌≡◌, ◌≢◌, inr, [], List, ℤ, pos, int_key, arith}
use cs.Prelude.Tests.{string_key}
use cs.Prelude.Map.{insert, lookup-insert}
use cs.Format.{Context}
use cs.Database.LifeCycle.{TxHookMap, Pool}
use cs.Database.Sql.{Sql, Table, query_row, insert_returning, select}
use cs.Database.Sql.Committed.{HooksLeaveRows, start-Done}
use cs.Database.User
use cs.Database.User.{user_api_key}

module _ {E : Type 0} (sql : Sql User.UserRow E) where
  create_user_tx-get_user :
      (name : String) (ids : List ℤ) (users : User.Users) (other : ℤ)
      → ((m : User.Users) → sql.fault select m m ≡ none)
      → (User.create_user_tx sql name ids users).2 ≡ []
      → (User.get_user sql
            (User.create_user_tx sql name ids users).0
            (User.create_user_tx sql name ids users).1
          ≡ inr (record {
            id = (User.create_user_tx sql name ids users).1;
            name = name;
            events = ids;
          }))
        × (other ≢ (User.create_user_tx sql name ids users).1
            → User.get_user sql (User.create_user_tx sql name ids users).0 other
              ≡ User.get_user sql users other)
  unfolding User.create_user_tx User.get_user insert_returning query_row
  create_user_tx-get_user name ids users other works fine =
      let id = sql.generate users in
      let row : User.UserRow = record { user_name = name; host_events = ids } in
      let after = insert id row users in
      (
        ground (arith, fine, works after, lookup-insert id id row users),
        λ differ.
            ground
              (arith, fine, works after, works users, differ, lookup-insert id other row users),
      )

module _ {V D E : Type 0} (pool : Pool D E) (id_result : ℤ → V)
    (hooks : TxHookMap User.UserStoreApi V D E) (table : Table D User.UserRow)
    (sql : Sql User.UserRow E) where
  -- Let no hook of CreateUser change the rows of the table of users, and let the queries work. If
  -- CreateUser returns no error, then GetUser on the id that it returned gives a user with that id,
  -- the name and the host events of the call, and on any other id what it gave before.
  pub create_user-get_user :
      (name : String) (ids : List ℤ) (ctx : Context V) (d : D) (other : ℤ)
      → HooksLeaveRows hooks User.api_create_user table
      → ((m : User.Users) → sql.fault select m m ≡ none)
      → let created = User.create_user pool id_result hooks table sql name ids ctx d in
        created.3 ≡ []
        → other ≢ created.2
        → (User.get_user sql (table.rows created.1) created.2
            ≡ inr (record { id = created.2; name = name; events = ids }))
          × (User.get_user sql (table.rows created.1) other
              ≡ User.get_user sql (table.rows d) other)
  unfolding User.create_user
  create_user-get_user name ids ctx d other leaves works fine differ =
      let (rows, id, good) =
        start-Done pool id_result (pos 0) hooks User.api_create_user table
          (User.create_user_tx sql name ids) ctx d leaves fine in
      ground (
        arith,
        rows,
        id,
        good,
        differ,
        create_user_tx-get_user sql name ids (table.rows d) other works good,
      )
