-- ===== src/Cc/Filter.antt =====
-- pkg/cc/filter.go: for each partition and service, the attributes whose requests or responses a
-- participant drops. A test fixture: the filters inject lost messages.
pub mod Sets
pub mod View
pub mod Init
use cs.Prelude.{ℕ, ◌%◌, String, Bool, true, false, Option, none, some, List, [], ◌∷◌}
use cs.Prelude.Tests.{nat_key}
use cs.Prelude.Map.{Map, insert}
use cs.Prelude.Run.{Run, ok, panic, blocked, ◌>>=◌, for_range_from}
use cs.Prelude.TableInit.{make_row, put_new}
use cs.Prelude.Tables.{map_get, map_put}
use cs.Cc.Partition.{gen_partitions}
use Sets.{HashSet}

-- The values of `TxFilterType` and of `TxFilterOp`.
abbrev pub filter_type_request : String
filter_type_request = "filter-request"

abbrev pub filter_type_response : String
filter_type_response = "filter-response"

abbrev pub filter_op_add : String
filter_op_add = "filter-add"

abbrev pub filter_op_remove : String
filter_op_remove = "filter-remove"

abbrev pub filter_op_clear : String
filter_op_clear = "filter-clear"

module _ (h : HashSet) where
  -- `map[uint64]map[string]*hashset.Set[string]`; a cell that is missing holds nil.
  abbrev pub Filters : Type 0
  Filters = Map ℕ (Map String h.Set)

  pub record TxFilterManager : Type 0 where
    pub req_filter : Filters
    pub resp_filter : Filters
    pub partitions : ℕ

  abbrev both : ℕ → Filters → Filters → Run TxFilterManager
  both partitions req resp =
      ok (record { req_filter = req; resp_filter = resp; partitions = partitions })

  unfoldable pub new_filter_manager : ℕ → Run TxFilterManager
  new_filter_manager n = for_range_from make_row (gen_partitions n) 0 [] >>= λ req.
      for_range_from make_row (gen_partitions n) 0 [] >>= both (gen_partitions n) req

  unfoldable pub init : TxFilterManager → String → Run TxFilterManager
  init mgr service =
      for_range_from (put_new h.new service) mgr.partitions 0 mgr.req_filter >>= λ req.
      for_range_from (put_new h.new service) mgr.partitions 0 mgr.resp_filter
      >>= both mgr.partitions req

  -- A method of the set that a cell points to, which changes the set. A call on nil panics.
  unfoldable pub change : (h.Set → h.Set) → Filters → ℕ → String → Run Filters
  change f rows partition service = elim (map_get rows partition service) [
    | none ↦ panic
    | some set ↦ map_put rows partition service (f set)
  ]

  abbrev with_req : TxFilterManager → Filters → Run TxFilterManager
  with_req mgr rows = ok (record mgr { req_filter = rows })

  abbrev with_resp : TxFilterManager → Filters → Run TxFilterManager
  with_resp mgr rows = ok (record mgr { resp_filter = rows })

  unfoldable pub add_req_filter : TxFilterManager → ℕ → String → List String → Run TxFilterManager
  add_req_filter mgr partition service attrs =
      change (λ set. h.add set attrs) mgr.req_filter (partition % mgr.partitions) service
      >>= with_req mgr

  unfoldable pub add_resp_filter : TxFilterManager → ℕ → String → List String → Run TxFilterManager
  add_resp_filter mgr partition service attrs =
      change (λ set. h.add set attrs) mgr.resp_filter (partition % mgr.partitions) service
      >>= with_resp mgr

  unfoldable pub remove_req_filter :
      TxFilterManager → ℕ → String → List String → Run TxFilterManager
  remove_req_filter mgr partition service attrs =
      change (λ set. h.remove set attrs) mgr.req_filter (partition % mgr.partitions) service
      >>= with_req mgr

  unfoldable pub remove_resp_filter :
      TxFilterManager → ℕ → String → List String → Run TxFilterManager
  remove_resp_filter mgr partition service attrs =
      change (λ set. h.remove set attrs) mgr.resp_filter (partition % mgr.partitions) service
      >>= with_resp mgr

  unfoldable pub clear_req_filter : TxFilterManager → ℕ → String → Run TxFilterManager
  clear_req_filter mgr partition service =
      change h.clear mgr.req_filter (partition % mgr.partitions) service >>= with_req mgr

  unfoldable pub clear_resp_filter : TxFilterManager → ℕ → String → Run TxFilterManager
  clear_resp_filter mgr partition service =
      change h.clear mgr.resp_filter (partition % mgr.partitions) service >>= with_resp mgr

  -- `set.Contains(attrs...)` on the set of a cell.
  unfoldable pub holds_all : Filters → ℕ → String → List String → Run Bool
  holds_all rows partition service attrs = elim (map_get rows partition service) [
    | none ↦ panic
    | some set ↦ ok (h.contains set attrs)
  ]

  unfoldable pub drop_req : TxFilterManager → ℕ → String → List String → Run Bool
  drop_req mgr partition service [] = ok false
  drop_req mgr partition service (a ∷ attrs) =
      holds_all mgr.req_filter (partition % mgr.partitions) service (a ∷ attrs)

  unfoldable pub drop_resp : TxFilterManager → ℕ → String → List String → Run Bool
  drop_resp mgr partition service [] = ok false
  drop_resp mgr partition service (a ∷ attrs) =
      holds_all mgr.resp_filter (partition % mgr.partitions) service (a ∷ attrs)
