-- ===== src/Api/Cc/Updates.antt =====
-- pkg/api/v1/cc.go: what each request to the filter handler does to the filters.
use cs.Prelude.{ℕ, ◌%◌, String, Bool, false, ◌&&◌, ◌||◌, not, ◌≡◌, refl, ◌≢◌, List, arith}
use cs.Prelude.Tests.{string_discrete}
use cs.Prelude.Run.{ok}
use cs.Cc.Filter.Sets.{HashSet, member}
use cs.Cc.Filter.{
  Filters, TxFilterManager, add_req_filter, add_resp_filter, remove_req_filter, remove_resp_filter,
  clear_req_filter, clear_resp_filter, filter_type_request, filter_type_response, filter_op_add,
  filter_op_remove, filter_op_clear, change,
}
use cs.Cc.Filter.View.{IsInit, Changed, change_lem}
use cs.Api.Cc.{
  RequestTestTxUpdateFilter, no_content, err_test_tx_filter_op, err_test_tx_filter_type,
  handle_test_tx_update_filter,
}

pub data Side : Type 0 where
  request response : Side

pub data Op : Type 0 where
  add remove clear : Op

abbrev pub type_name : Side → String
type_name request = filter_type_request
type_name response = filter_type_response

abbrev pub op_name : Op → String
op_name add = filter_op_add
op_name remove = filter_op_remove
op_name clear = filter_op_clear

-- Whether an attribute is in the set afterwards, from whether it was.
abbrev pub after : Op → List String → Bool → String → Bool
after add attrs was a = member a attrs || was
after remove attrs was a = not (member a attrs) && was
after clear attrs was a = false

module _ (h : HashSet) where
  abbrev pub filter_of : Side → TxFilterManager h → Filters h
  filter_of request mgr = mgr.req_filter
  filter_of response mgr = mgr.resp_filter

  abbrev pub other : Side → Side
  other request = response
  other response = request

  change_op : Op → List String → h.Set → h.Set
  change_op add attrs set = h.add set attrs
  change_op remove attrs set = h.remove set attrs
  change_op clear attrs set = h.clear set

  change_op_lem :
      (op : Op) (attrs : List String) (rows : Filters h) (p : ℕ) (s : String)
      → IsInit h rows p s
      → (rows' : Filters h) × (change h (change_op op attrs) rows p s ≡ ok rows')
        × Changed h (after op attrs) rows p s rows'
  unfolding change_op
  change_op_lem add attrs =
      change_lem h (λ set. h.add set attrs) (after add attrs) (λ set a. h.contains_add set attrs a)
  change_op_lem remove attrs =
      change_lem h (λ set. h.remove set attrs) (after remove attrs)
        (λ set a. h.contains_remove set attrs a)
  change_op_lem clear attrs =
      change_lem h h.clear (after clear attrs) (λ set a. h.contains_clear set a)

  with_filter : Side → TxFilterManager h → Filters h → TxFilterManager h
  with_filter request mgr rows = record mgr { req_filter = rows }
  with_filter response mgr rows = record mgr { resp_filter = rows }

  handled :
      (mgr : TxFilterManager h) (req : RequestTestTxUpdateFilter) (side : Side) (op : Op)
      (rows : Filters h)
      → req.filter_type ≡ type_name side
      → req.filter_op ≡ op_name op
      → change h
          (change_op op req.attrs)
          (filter_of side mgr)
          (req.partition % mgr.partitions)
          req.service
        ≡ ok rows
      → handle_test_tx_update_filter h mgr req ≡ ok (with_filter side mgr rows, no_content)
  unfolding handle_test_tx_update_filter add_req_filter add_resp_filter remove_req_filter
      remove_resp_filter clear_req_filter clear_resp_filter change_op with_filter string_discrete
  handled mgr req request add rows t o ran = rw (t, o) (rw ran refl)
  handled mgr req request remove rows t o ran = rw (t, o) (rw ran refl)
  handled mgr req request clear rows t o ran = rw (t, o) (rw ran refl)
  handled mgr req response add rows t o ran = rw (t, o) (rw ran refl)
  handled mgr req response remove rows t o ran = rw (t, o) (rw ran refl)
  handled mgr req response clear rows t o ran = rw (t, o) (rw ran refl)

  -- A request that names a type of filter and an operation, for a service that has been initialised
  -- in the partition taken modulo the number of partitions, gets 204. In that cell of the filters
  -- of the named type an attribute is then held if it was, or is among the request's (add); if it
  -- was, and is not among them (remove); or not at all (clear). Every other cell, and the filters
  -- of the other type, are as before.
  pub update_filter :
      (mgr : TxFilterManager h) (req : RequestTestTxUpdateFilter) (side : Side) (op : Op)
      → req.filter_type ≡ type_name side
      → req.filter_op ≡ op_name op
      → IsInit h (filter_of side mgr) (req.partition % mgr.partitions) req.service
      → (mgr' : TxFilterManager h) × (handle_test_tx_update_filter h mgr req
          ≡ ok (mgr', no_content))
        × Changed h
            (after op req.attrs)
            (filter_of side mgr)
            (req.partition % mgr.partitions)
            req.service
            (filter_of side mgr')
        × (filter_of (other side) mgr' ≡ filter_of (other side) mgr)
        × (mgr'.partitions ≡ mgr.partitions)
  unfolding with_filter
  update_filter mgr req side op t o init =
      let (rows, ran, changed) =
        change_op_lem op req.attrs (filter_of side mgr) (req.partition % mgr.partitions) req.service
          init in
      (
        with_filter side mgr rows,
        handled mgr req side op rows t o ran,
        kept side rows changed,
        others side rows,
        same side rows,
      )
    where
      kept :
          (side : Side) (rows : Filters h)
          → Changed h
              (after op req.attrs)
              (filter_of side mgr)
              (req.partition % mgr.partitions)
              req.service
              rows
          → Changed h
              (after op req.attrs)
              (filter_of side mgr)
              (req.partition % mgr.partitions)
              req.service
              (filter_of side (with_filter side mgr rows))
      kept request rows c = c
      kept response rows c = c

      others :
          (side : Side) (rows : Filters h)
          → filter_of (other side) (with_filter side mgr rows) ≡ filter_of (other side) mgr
      others request rows = refl
      others response rows = refl

      same :
          (side : Side) (rows : Filters h) → (with_filter side mgr rows).partitions ≡ mgr.partitions
      same request rows = refl
      same response rows = refl

  -- A request with another type of filter gets the error that says so, and changes no filter.
  pub update_filter-bad_type :
      (mgr : TxFilterManager h) (req : RequestTestTxUpdateFilter)
      → ((side : Side) → req.filter_type ≢ type_name side)
      → handle_test_tx_update_filter h mgr req ≡ ok (mgr, err_test_tx_filter_type)
  unfolding handle_test_tx_update_filter string_discrete
  update_filter-bad_type mgr req bad = ground (arith, bad request, bad response)

  wrong_op :
      (mgr : TxFilterManager h) (req : RequestTestTxUpdateFilter) (side : Side)
      → req.filter_type ≡ type_name side
      → req.filter_op ≢ filter_op_add
      → req.filter_op ≢ filter_op_remove
      → req.filter_op ≢ filter_op_clear
      → handle_test_tx_update_filter h mgr req ≡ ok (mgr, err_test_tx_filter_op)
  unfolding handle_test_tx_update_filter string_discrete
  wrong_op mgr req request t a r c = rw t (ground arith)
  wrong_op mgr req response t a r c = rw t (ground arith)

  -- A request with one of the two types of filter and another operation gets the error that says
  -- so, and changes no filter.
  pub update_filter-bad_op :
      (mgr : TxFilterManager h) (req : RequestTestTxUpdateFilter) (side : Side)
      → req.filter_type ≡ type_name side
      → ((op : Op) → req.filter_op ≢ op_name op)
      → handle_test_tx_update_filter h mgr req ≡ ok (mgr, err_test_tx_filter_op)
  update_filter-bad_op mgr req side t bad =
      wrong_op mgr req side t (bad add) (bad remove) (bad clear)
