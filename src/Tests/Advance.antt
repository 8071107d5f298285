-- ===== src/Tests/Advance.antt =====
-- pkg/api/v1/cc.go, HandleTxAdvanceTimestamp, at a clock that is one below the timestamp.
use cs.Prelude.{◌+◌, ◌≤◌, false, ◌≡◌, refl, ◌⊎◌, inr, [], ◌∷◌, arith, ℕ_discrete}
use cs.Prelude.Tests.{string_discrete, nat_key, string_key}
use cs.Prelude.Map.{lookup}
use cs.Prelude.Tables.{slice_get, map_get}
use cs.Prelude.Run.{ok}
use cs.Cc.Clock
use cs.Cc.Origin.Queues.{WaitMsg, list_queue, extract, place}
use cs.Cc.Origin.{TxOriginManager}
use cs.Cc.Origin.Turns.{FirstAfter}
use cs.Cc.Origin.Cells.{Slot, At}
use cs.Api.Advance.{
  RequestTxAdvanceTimestamp, handle_tx_advance_timestamp, served_queue, advance_timestamp_lem,
}

abbrev mgr : TxOriginManager list_queue
mgr = record {
  partitions = 1;
  queues = (0, ("users", []) ∷ []) ∷ [];
  clock_mgr = record { partitions = 1; clocks = (("users", 4) ∷ []) ∷ [] };
  prt_mgr = record { partitions = 1; locks = false ∷ [] };
}

abbrev slot : Slot list_queue
slot = record { clock = 4; queue = [] }

mgr-At : At list_queue mgr 0 "users" slot
unfolding Clock.get slice_get map_get lookup string_discrete ℕ_discrete
mgr-At = record { clock_at = refl; queue_at = refl; free = refl }

abbrev to_5 : RequestTxAdvanceTimestamp
to_5 = record { partition = 0; service = "users"; timestamp = 5 }

advance_timestamp_lem_example :
    (mgr' : TxOriginManager list_queue) × (slot' : Slot list_queue) × (handle_tx_advance_timestamp
        list_queue mgr to_5 7
      ≡ ok mgr')
    × At list_queue mgr' 0 "users" slot'
    × ((5 ≤ 4) × (slot' ≡ slot)
        ⊎ ((5 ≡ 4 + 1)
            × (slot'.clock ≡ 5)
            × ((¬ (
                    (msg : WaitMsg) × FirstAfter list_queue
                      (served_queue list_queue slot to_5 7)
                      5
                      msg))
                  × (slot'.queue ≡ served_queue list_queue slot to_5 7)
                ⊎ ((msg : WaitMsg) × FirstAfter list_queue
                      (served_queue list_queue slot to_5 7)
                      5
                      msg
                    × (slot'.queue ≡ list_queue.dequeue (served_queue list_queue slot to_5 7))))))
unfolding extract place
advance_timestamp_lem_example =
    advance_timestamp_lem list_queue mgr to_5 7 slot mgr-At (inr (refl, omega arith, refl))
