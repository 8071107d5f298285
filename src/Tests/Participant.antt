-- ===== src/Tests/Participant.antt =====
-- pkg/middleware/tx.go, TxParticipant, at a receiver with one partition and one service.
use cs.Prelude.{
  Bool, true, ℕ, ◌+◌, ◌%◌, ◌^◌, String, false, ◌≡◌, refl, inr, [], ◌∷◌, arith, ℕ_discrete,
}
use cs.Prelude.Tests.{str_differ, string_discrete, nat_key, string_key, if◌then◌else◌}
use text.Mathlib.Text.{◌==◌ as str_eq}
use cs.Prelude.Map.{lookup}
use cs.Prelude.Tables.{slice_get, map_get}
use cs.Prelude.Run.{ok}
use cs.Cc.Clock
use cs.Cc.Context.{TxStageContext}
use cs.Cc.Filter.Sets.{test_set, member}
use cs.Cc.Filter.View.{IsInit}
use cs.Api.Cc.{RequestTestTxUpdateFilter, handle_test_tx_update_filter, no_content}
use cs.Cc.Filter.{TxFilterManager, drop_req, drop_resp, holds_all}
use cs.Cc.Origin.{TxOriginManager}
use cs.Cc.Origin.Queues.{list_queue, extract, place}
use cs.Cc.Origin.Cells.{Slot, At}
use cs.Middleware.Participant.{
  Next, Receiver, stage_msg, serve_stage, served, err_tx_response_dropped, err_tx_request_dropped,
  tx_participant,
}
use cs.Middleware.Participant.Filtered.{added-dropped}
use cs.Middleware.Participant.Turns.{tx_participant-late, tx_participant-due}

abbrev stage : String → TxStageContext
stage attr = record {
  partition = 0;
  service = "users";
  timestamp = 5;
  attrs = attr ∷ [];
  dry_run = false;
}

-- The header is the attribute of the request; the world counts the calls of the handler.
abbrev handler : Next list_queue ℕ String
handler = record {
  decode = λ encoded. inr (stage encoded);
  visit_before = λ mgr ctx w. w;
  serve = λ mgr ctx w. w + 1;
  visit_after = λ mgr ctx w. w;
}

abbrev receiver : ℕ → Receiver list_queue test_set handler
receiver clock = record {
  filter_mgr = record {
    req_filter = (0, ("users", λ a. str_eq a "lost") ∷ []) ∷ [];
    resp_filter = (0, ("users", λ a. false) ∷ []) ∷ [];
    partitions = 1;
  };
  origin_mgr = record {
    partitions = 1;
    queues = (0, ("users", []) ∷ []) ∷ [];
    clock_mgr = record { partitions = 1; clocks = (("users", clock) ∷ []) ∷ [] };
    prt_mgr = record { partitions = 1; locks = false ∷ [] };
  };
  world = 0;
}

kept_passes : drop_req test_set (receiver 4).filter_mgr 0 "users" ("kept" ∷ []) ≡ ok false
unfolding drop_req holds_all map_get lookup string_discrete ℕ_discrete
kept_passes = refl

answers_pass :
    (a : String) → drop_resp test_set (receiver 4).filter_mgr 0 "users" (a ∷ []) ≡ ok false
unfolding drop_resp holds_all map_get lookup string_discrete ℕ_discrete
answers_pass a = refl

receiver-At :
    (clock : ℕ)
    → At list_queue (receiver clock).origin_mgr 0 "users" (record { clock = clock; queue = [] })
unfolding Clock.get slice_get map_get lookup string_discrete ℕ_discrete
receiver-At clock = record { clock_at = refl; queue_at = refl; free = refl }

tx_participant-late_example :
    (r' : Receiver list_queue test_set handler) × (slot' : Slot list_queue) × (tx_participant
        list_queue test_set handler "kept" 7
        (receiver 8)
      ≡ ok (r', served))
    × ((mgr : TxOriginManager list_queue) × At list_queue mgr 0 "users"
          (record { clock = 8; queue = [] })
        × (r'.world ≡ serve_stage list_queue test_set handler mgr (stage "kept") 0))
    × At list_queue r'.origin_mgr 0 "users" slot'
    × (slot'.clock ≡ (8 + 1) % 2 ^ 64)
tx_participant-late_example =
    tx_participant-late list_queue test_set handler "kept" 7 (receiver 8) (stage "kept")
      (record { clock = 8; queue = [] }) (str_differ "kept" "" refl) refl kept_passes
      (answers_pass "kept") (receiver-At 8) (omega arith)

tx_participant-due_example :
    (r' : Receiver list_queue test_set handler) × (slot' : Slot list_queue) × (tx_participant
        list_queue test_set handler "kept" 7
        (receiver 4)
      ≡ ok (r', if false then err_tx_response_dropped else served))
    × ((mgr : TxOriginManager list_queue) × At list_queue mgr 0 "users" (record {
      clock = 4;
      queue =
          list_queue.dequeue
            (list_queue.enqueue [] (stage_msg list_queue test_set handler (stage "kept") 7));
    })
        × (r'.world ≡ serve_stage list_queue test_set handler mgr (stage "kept") 0))
    × (r'.filter_mgr ≡ (receiver 4).filter_mgr)
    × At list_queue r'.origin_mgr 0 "users" slot'
    × (slot'.clock ≡ 5)
unfolding extract place
tx_participant-due_example =
    tx_participant-due list_queue test_set handler "kept" 7 (receiver 4) (stage "kept")
      (record { clock = 4; queue = [] }) false (str_differ "kept" "" refl) refl kept_passes
      (answers_pass "kept") (receiver-At 4) refl (omega arith) refl

abbrev drops_kept : RequestTestTxUpdateFilter
drops_kept = record {
  filter_type = "filter-request";
  filter_op = "filter-add";
  partition = 3;
  service = "users";
  attrs = "kept" ∷ [];
}

cell-IsInit : (f : String → Bool) → IsInit test_set ((0, ("users", f) ∷ []) ∷ []) 0 "users"
unfolding map_get lookup string_discrete ℕ_discrete
cell-IsInit f = (f, refl)

kept-member : member "kept" ("kept" ∷ []) ≡ true
unfolding string_discrete
kept-member = refl

added-dropped_example :
    (mgr : TxFilterManager test_set) × (handle_test_tx_update_filter test_set
        (receiver 4).filter_mgr
        drops_kept
      ≡ ok (mgr, no_content))
    × (tx_participant list_queue test_set handler "kept" 7
          (record (receiver 4) { filter_mgr = mgr })
        ≡ ok (record (receiver 4) { filter_mgr = mgr }, err_tx_request_dropped))
added-dropped_example =
    added-dropped list_queue test_set handler "kept" 7 (receiver 4) (stage "kept") drops_kept refl
      refl refl refl (cell-IsInit _) (cell-IsInit _) (λ e. absurd (ground (arith, e)))
      (kept-member, tt) (str_differ "kept" "" refl) refl
