-- ===== src/Tests/Coordinator.antt =====
-- pkg/middleware/tx.go, TxCoordinator, with one partition and one receiver.
use cs.Prelude.{ℕ, ◌+◌, String, false, Option, none, some, ◌≡◌, refl, inr, List, [], ◌∷◌, arith}
use cs.Prelude.Tests.{str_differ, string_key}
use cs.Prelude.Map.{lookup}
use cs.Prelude.Tables.{slice_get}
use cs.Prelude.Run.{ok}
use cs.Prelude.Lists.{get_elem?}
use cs.Cc.Partition.{Hashing, partition}
use cs.Cc.Clock
use cs.Cc.Context.{TxExecutorContext, TxControlContext, pending}
use cs.Middleware.Sender.{SenderDb, Sender, create_tx_executor}
use cs.Middleware.Sender.Stamps.{expected}
use cs.Middleware.Coordinator.{CoordinatorRequest, Coordination, Reply, Coordinator, tx_coordinator}
use cs.Middleware.Coordinator.Requests.{
  RecoveredEnds, new_sender, NewEnds, tx_coordinator-recovered, tx_coordinator-new,
}

abbrev db : SenderDb ℕ ℕ String
db = record {
  marshal = λ ctx. none;
  begin = λ w. (w, none);
  insert_executor = λ ctx w. (w, none, 12);
  upsert_clock = λ p service ts w. (w, none);
  commit = λ w. (w, none);
  roll_back = λ w. (w, none);
}

abbrev ctrl_ctx : TxControlContext
ctrl_ctx = record { partition = 0; service = "users"; attrs = []; dry_run = false; logger_id = "" }

abbrev exec_ctx : TxExecutorContext ℕ
exec_ctx = record {
  exec_id = 4;
  ctrl_ctx = ctrl_ctx;
  receivers = "events" ∷ [];
  timestamps = 1 ∷ [];
  input = 5;
  result = 0;
  status = pending;
  curr = 0;
  method = "POST";
  endpoint = "/add";
  recovered = false;
}

-- The world counts the calls of the handler.
abbrev calls : Coordination ℕ ℕ String
calls = record {
  decode_exec = λ encoded. inr exec_ctx;
  decode_ctrl = λ encoded. inr ctrl_ctx;
  visit_before = λ mgr ctx w. w;
  serve = λ mgr ctx w. w + 1;
  visit_after = λ mgr ctx w. w;
}

abbrev constant_hash : Hashing String
constant_hash = record { Seed = ℕ; sum64 = λ seed text. seed; show = λ key. key }

abbrev coordinator : Coordinator ℕ
coordinator = record {
  prt_mgr = record { partitions = 1; locks = false ∷ [] };
  clock_mgr = record { partitions = 1; clocks = [] ∷ [] };
  world = 0;
}

abbrev asks : String → String → CoordinatorRequest String ℕ
asks encoded ctrl = record {
  encoded_exec_ctx = encoded;
  encoded_ctrl_ctx = ctrl;
  logger_id = "";
  body = 5;
  keys = "a" ∷ [];
}

tx_coordinator-recovered_example :
    RecoveredEnds db calls constant_hash 0 "users" ("events" ∷ []) (asks "ctx" "") coordinator (
      tx_coordinator db calls constant_hash 0 "users" ("events" ∷ []) 7 (asks "ctx" "") coordinator)
tx_coordinator-recovered_example =
    tx_coordinator-recovered db calls constant_hash 0 "users" ("events" ∷ []) 7 (asks "ctx" "")
      coordinator (str_differ "ctx" "" refl)

new_clocks :
    (r : String)
    → Clock.get coordinator.clock_mgr (partition constant_hash 7 coordinator.prt_mgr ("a" ∷ [])) r
      ≡ ok 0
unfolding Clock.get slice_get lookup partition
new_clocks r = refl

free_mutex :
    get_elem? coordinator.prt_mgr.locks (partition constant_hash 7 coordinator.prt_mgr ("a" ∷ []))
    ≡ some false
unfolding partition
free_mutex = refl

tx_coordinator-new_example :
    (made : Sender ℕ ℕ) × (err : Option (List String)) × (s' : Coordinator ℕ) × (reply : Reply)
    × (create_tx_executor db coordinator.prt_mgr ("events" ∷ []) (
          new_sender db calls constant_hash 0 "users"
            ("events" ∷ [])
            7
            (asks "" "ctrl")
            ctrl_ctx
            coordinator)
        ≡ ok (coordinator.prt_mgr, made, err))
    × (tx_coordinator db calls constant_hash 0 "users"
          ("events" ∷ [])
          7
          (asks "" "ctrl")
          coordinator
        ≡ ok (s', reply))
    × (made.exec_ctx.receivers ≡ "events" ∷ [])
    × (made.exec_ctx.timestamps ≡ expected (λ r. 0) [] ("events" ∷ []))
    × (s'.prt_mgr ≡ coordinator.prt_mgr)
    × NewEnds db calls constant_hash 0 "users"
        ("events" ∷ [])
        (partition constant_hash 7 coordinator.prt_mgr ("a" ∷ []))
        (λ r. 0)
        (new_sender db calls constant_hash 0 "users"
          ("events" ∷ [])
          7
          (asks "" "ctrl")
          ctrl_ctx
          coordinator)
        made
        s'
        reply
tx_coordinator-new_example =
    tx_coordinator-new db calls constant_hash 0 "users" ("events" ∷ []) 7 (asks "" "ctrl")
      coordinator (λ r. 0) ctrl_ctx refl (inr (str_differ "ctrl" "" refl, refl)) free_mutex
      new_clocks (λ r. omega arith)
