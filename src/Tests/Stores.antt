-- ===== src/Tests/Stores.antt =====
-- pkg/database/user.go, with a database that is one table and no hooks.
use cs.Prelude.{
  String, true, false, Option, none, some, ◌≡◌, ◌≢◌, refl, inr, [], ◌∷◌, ℤ, pos, int_key,
  ℕ_discrete,
}
use cs.Prelude.Ints.{ℤ_discrete}
use cs.Prelude.Lists.{length}
use cs.Prelude.Tests.{nat_key, string_key, Key}
use cs.Prelude.Map.{Map, lookup, insert}
use cs.Format.{Context, get_trace_context, set_trace_context}
use cs.Format
use cs.Database.LifeCycle.{
  TxHookMap, Pool, hooks_of, run_hooks, run_after_hooks, keep_result, then_after, in_tx, with_tx,
  then_end, start, finish_tx, set_result,
}
use cs.Database.Sql.{Nil, Sql, Table, query_row, exec, insert_returning, update_row, on_table}
use cs.Database.Sql.Ids.{contains, add_id}
use cs.Database.Sql.Committed.{HooksLeaveRows}
use cs.Database.Sql.Keeps.{insert-IsValid}
use cs.Database.Sql.Pairs.{PutsPair}
use cs.Database.User
use cs.Database.User.{UserRow, UserStoreApi, api_add_host_event, user_api_key, user_api_discrete}
use cs.Database.User.Hosting.{host_events-PutsPair}
use cs.Database.User.Valid.{ValidUsers, writes-ValidUsers}
use cs.Database.User.Reads.{create_user-get_user}
use cs.Database.Event.{event_api_key}
use cs.Database.EventLog.{log_api_key}

module _ {T : Type 0} where
  abbrev pub whole : Table (Map ℤ T) T
  whole = record { rows = λ d. d; with_rows = λ d t. t; rows-with_rows = λ d t. refl }

  abbrev pub works : Sql T String
  works = record {
    no_rows = "no rows in result set";
    fault = λ statement m m'. none;
    generate = λ m. pos (length m);
  }

abbrev pub pool : {D : Type 0} → Pool D String
pool = record { begin = λ d. []; commit = λ d work. []; roll_back = λ d. [] }

abbrev pub no_hooks : {A D : Type 0} → TxHookMap A (Option ℤ) D String
no_hooks = record { start_hooks = []; end_hooks = []; before_hooks = []; after_hooks = [] }

abbrev pub nothing : Nil → Option ℤ
nothing _ = none

abbrev pub ctx : Context (Option ℤ)
ctx = record {
  trace_ctx = some (record { values = [] });
  stage_ctx = none;
  ctrl_ctx = none;
  exec_ctx = none;
}

pub no_hooks-leave :
    {A D T : Type 0} ⦃k : Key A⦄ (table : Table D T) (api : A)
    → HooksLeaveRows (no_hooks {A = A} {D = D}) api table
unfolding hooks_of lookup
no_hooks-leave table api = record { before = tt; after = tt }

abbrev users : User.Users
users = (pos 0, record { user_name = "ann"; host_events = pos 4 ∷ [] }) ∷ []

host_events-PutsPair_example :
    PutsPair whole
      (λ (row : UserRow). row.host_events)
      (pos 0)
      (pos 7)
      true
      users
      (User.add_host_event pool nothing no_hooks whole works (pos 0) (pos 7) ctx users).1
      (User.add_host_event pool nothing no_hooks whole works (pos 0) (pos 7) ctx users).3
    × PutsPair whole
        (λ (row : UserRow). row.host_events)
        (pos 0)
        (pos 7)
        false
        users
        (User.remove_host_event pool nothing no_hooks whole works (pos 0) (pos 7) ctx users).1
        (User.remove_host_event pool nothing no_hooks whole works (pos 0) (pos 7) ctx users).3
host_events-PutsPair_example =
    host_events-PutsPair pool nothing no_hooks whole works (pos 0) (pos 7) ctx users
      (no_hooks-leave whole _) (no_hooks-leave whole _)

users_added :
    (User.add_host_event pool nothing no_hooks whole works (pos 0) (pos 7) ctx users).1
    ≡ (pos 0, record { user_name = "ann"; host_events = pos 4 ∷ pos 7 ∷ [] }) ∷ []
unfolding User.add_host_event start run_hooks hooks_of lookup then_end with_tx finish_tx in_tx
    then_after keep_result get_trace_context set_trace_context on_table run_after_hooks set_result
    Format.set insert User.add_host_event_tx query_row User.set_host_events exec update_row add_id
    contains ℤ_discrete ℕ_discrete user_api_discrete
users_added = refl

no_users-ValidUsers : ValidUsers []
unfolding lookup
no_users-ValidUsers = record { unique = tt; distinct = λ key row h. cc }

users-ValidUsers : ValidUsers users
unfolding insert contains
users-ValidUsers =
    insert-IsValid (λ (row : UserRow). row.host_events) (pos 0)
      (record { user_name = "ann"; host_events = pos 4 ∷ [] }) [] (refl, tt) no_users-ValidUsers

writes-ValidUsers_example :
    ValidUsers (User.create_user pool some no_hooks whole works "bob" [] ctx users).1
    × ValidUsers (User.delete_user pool nothing no_hooks whole works (pos 0) ctx users).1
    × ValidUsers (User.update_name pool nothing no_hooks whole works (pos 0) "bob" ctx users).1
    × ValidUsers (User.add_host_event pool nothing no_hooks whole works (pos 0) (pos 7) ctx users).1
    × ValidUsers
        (User.remove_host_event pool nothing no_hooks whole works (pos 0) (pos 7) ctx users).1
writes-ValidUsers_example =
    writes-ValidUsers pool some nothing no_hooks whole works (λ api. no_hooks-leave whole api) users
      ctx (pos 0) (pos 7) "bob" [] tt users-ValidUsers

bob_created : (User.create_user pool some no_hooks whole works "bob" [] ctx users).3 ≡ []
unfolding User.create_user start run_hooks hooks_of lookup then_end with_tx finish_tx in_tx
    then_after keep_result get_trace_context set_trace_context on_table run_after_hooks set_result
    Format.set insert User.create_user_tx insert_returning ℤ_discrete ℕ_discrete user_api_discrete
bob_created = refl

zero_not_one : pos 0 ≢ (User.create_user pool some no_hooks whole works "bob" [] ctx users).2
unfolding User.create_user start run_hooks hooks_of lookup then_end with_tx finish_tx in_tx
    then_after keep_result get_trace_context set_trace_context on_table run_after_hooks set_result
    Format.set insert User.create_user_tx insert_returning ℤ_discrete ℕ_discrete user_api_discrete
zero_not_one h = cc

create_user-get_user_example :
    (User.get_user works
        (User.create_user pool some no_hooks whole works "bob" [] ctx users).1
        (User.create_user pool some no_hooks whole works "bob" [] ctx users).2
      ≡ inr (record {
        id = (User.create_user pool some no_hooks whole works "bob" [] ctx users).2;
        name = "bob";
        events = [];
      }))
    × (User.get_user works
          (User.create_user pool some no_hooks whole works "bob" [] ctx users).1
          (pos 0)
        ≡ User.get_user works users (pos 0))
create_user-get_user_example =
    create_user-get_user pool some no_hooks whole works "bob" [] ctx users (pos 0)
      (no_hooks-leave whole _) (λ m. refl) bob_created zero_not_one
