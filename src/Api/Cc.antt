-- ===== src/Api/Cc.antt =====
-- pkg/api/v1/cc.go: the handlers that steer the concurrency control of a service in tests.
pub mod Updates
use cs.Prelude.{
  ℕ, ◌%◌, ◌<◌, String, Bool, true, false, ◌&&◌, ◌||◌, not, ◌≡◌, refl, ite, Option, none, some, List,
  [], ◌∷◌, arith, inl, inr,
}
use cs.Prelude.Tests.{string_discrete}
use cs.Prelude.Run.{Run, ok, panic, blocked, ◌>>=◌}
use cs.Cc.Filter.Sets.{HashSet, member}
use cs.Cc.Filter.{
  Filters, TxFilterManager, add_req_filter, add_resp_filter, remove_req_filter, remove_resp_filter,
  clear_req_filter, clear_resp_filter, filter_type_request, filter_type_response, filter_op_add,
  filter_op_remove, filter_op_clear, change,
}
use cs.Cc.Filter.View.{IsInit, Changed, change_lem, holds}

pub record RequestTestTxUpdateFilter : Type 0 where
  pub filter_type : String
  pub filter_op : String
  pub partition : ℕ
  pub service : String
  pub attrs : List String

-- What the handler writes: 204, or 500 with one of two errors.
pub data Reply : Type 0 where
  no_content err_test_tx_filter_op err_test_tx_filter_type : Reply

module _ (h : HashSet) where
  abbrev reply : Run (TxFilterManager h) → Run (TxFilterManager h × Reply)
  reply run = run >>= λ mgr. ok (mgr, no_content)

  unfoldable pub update_req_filter :
      TxFilterManager h → RequestTestTxUpdateFilter → Run (TxFilterManager h × Reply)
  update_req_filter mgr req =
      ite (string_discrete req.filter_op filter_op_add)
        (reply (add_req_filter h mgr req.partition req.service req.attrs))
        (ite (string_discrete req.filter_op filter_op_remove)
          (reply (remove_req_filter h mgr req.partition req.service req.attrs))
          (ite (string_discrete req.filter_op filter_op_clear)
            (reply (clear_req_filter h mgr req.partition req.service))
            (ok (mgr, err_test_tx_filter_op))))

  unfoldable pub update_resp_filter :
      TxFilterManager h → RequestTestTxUpdateFilter → Run (TxFilterManager h × Reply)
  update_resp_filter mgr req =
      ite (string_discrete req.filter_op filter_op_add)
        (reply (add_resp_filter h mgr req.partition req.service req.attrs))
        (ite (string_discrete req.filter_op filter_op_remove)
          (reply (remove_resp_filter h mgr req.partition req.service req.attrs))
          (ite (string_discrete req.filter_op filter_op_clear)
            (reply (clear_resp_filter h mgr req.partition req.service))
            (ok (mgr, err_test_tx_filter_op))))

  unfoldable pub handle_test_tx_update_filter :
      TxFilterManager h → RequestTestTxUpdateFilter → Run (TxFilterManager h × Reply)
  unfolding update_req_filter update_resp_filter
  handle_test_tx_update_filter mgr req =
      ite (string_discrete req.filter_type filter_type_request) (update_req_filter mgr req) (
        ite (string_discrete req.filter_type filter_type_response) (update_resp_filter mgr req)
          (ok (mgr, err_test_tx_filter_type)))
