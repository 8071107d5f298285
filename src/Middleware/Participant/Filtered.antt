-- ===== src/Middleware/Participant/Filtered.antt =====
-- pkg/api/v1/cc.go, HandleTestTxUpdateFilter, with pkg/middleware/tx.go, TxParticipant: what a filter
-- that was set by a request does to the requests of a transaction.
use cs.Prelude.{Bool, ℕ, ◌%◌, String, true, ◌≡◌, refl, sym, ◌≢◌, inr, List, [], ◌∷◌, arith}
use cs.Prelude.Lists.{All}
use cs.Prelude.Run.{ok}
use cs.Cc.Context.{TxStageContext}
use cs.Cc.Filter.Sets.{HashSet, all, member}
use cs.Cc.Filter.{Filters, TxFilterManager, filter_type_request, filter_op_add}
use cs.Cc.Filter.View.{IsInit, Changed, holds, holds-IsInit, drop_lem, dropped}
use cs.Cc.Origin.Queues.{PriorityQueue}
use cs.Api.Cc.{RequestTestTxUpdateFilter, no_content, handle_test_tx_update_filter}
use cs.Api.Cc.Updates.{request, add, after, update_filter}
use cs.Middleware.Participant.{Next, Receiver, err_tx_request_dropped, filter_stage, tx_participant}

all-true :
    (test : String → Bool) (attrs : List String)
    → All (λ b. test b ≡ true) attrs
    → all test attrs ≡ true
all-true test [] held = refl
all-true test (a ∷ attrs) (h, held) = ground (arith, h, all-true test attrs held)

module _ (h : HashSet) (rows : Filters h) (p : ℕ) (s : String) where
  held-IsInit :
      (attrs : List String)
      → attrs ≢ []
      → All (λ b. holds h rows p s b ≡ true) attrs
      → IsInit h rows p s
  held-IsInit [] some_attrs held = absurd (some_attrs refl)
  held-IsInit (a ∷ attrs) some_attrs (here, held) = holds-IsInit h rows p s a here

  held-dropped :
      (attrs : List String)
      → attrs ≢ []
      → All (λ b. holds h rows p s b ≡ true) attrs
      → dropped h rows p s attrs ≡ true
  held-dropped [] some_attrs held = absurd (some_attrs refl)
  held-dropped (a ∷ attrs) some_attrs held = all-true (holds h rows p s) (a ∷ attrs) held

  added-held :
      (old : Filters h) (attrs new : List String)
      → Changed h (after add new) old p s rows
      → All (λ b. member b new ≡ true) attrs
      → All (λ b. holds h rows p s b ≡ true) attrs
  added-held old [] new changed among = tt
  added-held old (a ∷ attrs) new changed (here, among) =
      (ground (arith, changed p s a, here), added-held old attrs new changed among)

module _ (pq : PriorityQueue) (h : HashSet) {W E : Type 0} (handler : Next pq W E) where
  held-unserved :
      (encoded : String) (reply : ℕ) (r : Receiver pq h handler) (st : TxStageContext)
      → let p = st.partition % r.filter_mgr.partitions in
        IsInit h r.filter_mgr.resp_filter p st.service
        → st.attrs ≢ []
        → All (λ b. holds h r.filter_mgr.req_filter p st.service b ≡ true) st.attrs
        → encoded ≢ ""
        → handler.decode encoded ≡ inr st
        → tx_participant pq h handler encoded reply r ≡ ok (r, err_tx_request_dropped)
  unfolding tx_participant filter_stage
  held-unserved encoded reply r st resp some_attrs held full decoded =
      let p = st.partition % r.filter_mgr.partitions in
      let init = held-IsInit h r.filter_mgr.req_filter p st.service st.attrs some_attrs held in
      let (req_runs, resp_runs) =
        drop_lem h r.filter_mgr st.partition st.service st.attrs init resp in
      let drops = held-dropped h r.filter_mgr.req_filter p st.service st.attrs some_attrs held in
      ground (arith, full, decoded, req_runs, resp_runs, drops)

  -- Once HandleTestTxUpdateFilter has added attributes to the request filter of a partition and
  -- service whose filters have been initialised, TxParticipant answers 503 to every request of a
  -- stage there that has attributes and all of them among these: the clock, the queues and the
  -- filters stay as they are, and neither the recorders nor the handler run.
  pub added-dropped :
      (encoded : String) (reply : ℕ) (r : Receiver pq h handler) (st : TxStageContext)
      (update : RequestTestTxUpdateFilter)
      → update.filter_type ≡ filter_type_request
      → update.filter_op ≡ filter_op_add
      → update.partition % r.filter_mgr.partitions ≡ st.partition % r.filter_mgr.partitions
      → update.service ≡ st.service
      → IsInit h r.filter_mgr.req_filter (update.partition % r.filter_mgr.partitions) update.service
      → IsInit h r.filter_mgr.resp_filter (st.partition % r.filter_mgr.partitions) st.service
      → st.attrs ≢ []
      → All (λ b. member b update.attrs ≡ true) st.attrs
      → encoded ≢ ""
      → handler.decode encoded ≡ inr st
      → (mgr : TxFilterManager h) × (handle_test_tx_update_filter h r.filter_mgr update
          ≡ ok (mgr, no_content))
        × (tx_participant pq h handler encoded reply (record r { filter_mgr = mgr })
            ≡ ok (record r { filter_mgr = mgr }, err_tx_request_dropped))
  added-dropped encoded reply r st update t o same svc req resp some_attrs among full decoded =
      let (mgr, ran, changed, others, parts) =
        update_filter h r.filter_mgr update request add t o req in
      let held =
        added-held h mgr.req_filter (update.partition % r.filter_mgr.partitions) update.service
          r.filter_mgr.req_filter st.attrs update.attrs changed among in
      let moved : All
          (λ b. holds h mgr.req_filter (st.partition % mgr.partitions) st.service b ≡ true)
          st.attrs =
        rw (parts, sym same, sym svc) held in
      let kept : IsInit h mgr.resp_filter (st.partition % mgr.partitions) st.service =
        rw (parts, others) resp in
      (
        mgr,
        ran,
        held-unserved encoded reply (record r { filter_mgr = mgr }) st kept some_attrs moved full
            decoded,
      )
