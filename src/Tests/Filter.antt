-- ===== src/Tests/Filter.antt =====
-- pkg/cc/filter.go and the filter handler of pkg/api/v1/cc.go, at two partitions and one service.
use cs.Prelude.{ℕ, String, Bool, false, ◌≡◌, refl, ◌≢◌, List, [], ◌∷◌, arith, ℕ_discrete}
use cs.Prelude.Tests.{str_differ, string_discrete, nat_key, string_key}
use cs.Prelude.Map.{lookup}
use cs.Prelude.Tables.{map_get}
use cs.Prelude.TableInit.{HasRows}
use cs.Prelude.Run.{ok}
use cs.Cc.Filter.Sets.{test_set}
use cs.Cc.Filter.{
  TxFilterManager, drop_req, drop_resp, filter_type_request, filter_type_response, filter_op_add,
  filter_op_remove, filter_op_clear,
}
use cs.Cc.Filter.View.{IsInit, Changed, dropped, drop_lem}
use cs.Api.Cc.{RequestTestTxUpdateFilter, handle_test_tx_update_filter, no_content}
use cs.Api.Cc.Updates.{
  Side, request, response, Op, add, remove, clear, after, type_name, op_name, update_filter,
}

abbrev rows : List (ℕ × List (String × (String → Bool)))
rows = (0, ("users", λ a. false) ∷ []) ∷ (1, ("users", λ a. false) ∷ []) ∷ []

abbrev mgr : TxFilterManager test_set
mgr = record { req_filter = rows; resp_filter = rows; partitions = 2 }

abbrev asks : String → String → RequestTestTxUpdateFilter
asks filter_type filter_op = record {
  filter_type = filter_type;
  filter_op = filter_op;
  partition = 3;
  service = "users";
  attrs = "a" ∷ [];
}

rows-IsInit : IsInit test_set rows 1 "users"
unfolding map_get lookup string_discrete ℕ_discrete
rows-IsInit = (λ a. false, refl)

update_filter_example :
    (mgr' : TxFilterManager test_set) × (handle_test_tx_update_filter test_set mgr
        (asks "filter-response" "filter-add")
      ≡ ok (mgr', no_content))
    × Changed test_set (after add ("a" ∷ [])) rows 1 "users" mgr'.resp_filter
    × (mgr'.req_filter ≡ rows)
    × (mgr'.partitions ≡ 2)
update_filter_example =
    update_filter test_set mgr (asks "filter-response" "filter-add") response add refl refl
      rows-IsInit

no_type : (side : Side) → "filter" ≢ type_name side
no_type request = str_differ "filter" filter_type_request refl
no_type response = str_differ "filter" filter_type_response refl

no_op : (op : Op) → "filter" ≢ op_name op
no_op add = str_differ "filter" filter_op_add refl
no_op remove = str_differ "filter" filter_op_remove refl
no_op clear = str_differ "filter" filter_op_clear refl

drop_lem_example :
    (drop_req test_set mgr 3 "users" ("a" ∷ []) ≡ ok (dropped test_set rows 1 "users" ("a" ∷ [])))
    × (drop_resp test_set mgr 3 "users" ("a" ∷ [])
        ≡ ok (dropped test_set rows 1 "users" ("a" ∷ [])))
drop_lem_example = drop_lem test_set mgr 3 "users" ("a" ∷ []) rows-IsInit rows-IsInit

rows-HasRows : HasRows rows 2
unfolding lookup ℕ_discrete
rows-HasRows p lt = (("users", λ a. false) ∷ [], ground (arith, lt))
