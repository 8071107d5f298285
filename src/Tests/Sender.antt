-- ===== src/Tests/Sender.antt =====
-- pkg/middleware/tx.go, createTxExecutor, with one partition and a receiver that stands twice.
use cs.Prelude.{ℕ, ◌+◌, String, false, ◌≡◌, refl, Option, none, List, [], ◌∷◌, arith}
use cs.Prelude.Tests.{string_key}
use cs.Prelude.Map.{lookup}
use cs.Prelude.Tables.{slice_get}
use cs.Prelude.Run.{ok}
use cs.Cc.Partition.{TxPartitionManager}
use cs.Cc.Clock.{TxClockManager}
use cs.Cc.Clock
use cs.Cc.Context.{pending}
use cs.Middleware.Sender.{SenderDb, Sender, create_tx_executor}
use cs.Middleware.Sender.Stamps.{expected}
use cs.Middleware.Sender.Create.{create_lem}
use cs.Middleware.Sender.Recorded.{Clocks}

-- The database counts the statements, and none fails.
abbrev db : SenderDb ℕ ℕ String
db = record {
  marshal = λ ctx. none;
  begin = λ w. (w + 1, none);
  insert_executor = λ ctx w. (w + 1, none, 12);
  upsert_clock = λ partition service ts w. (w + 1, none);
  commit = λ w. (w + 1, none);
  roll_back = λ w. (w + 1, none);
}

abbrev prt_mgr : TxPartitionManager
prt_mgr = record { partitions = 1; locks = false ∷ [] }

abbrev sender : Sender ℕ ℕ
sender = record {
  clock_mgr = record { partitions = 1; clocks = [] ∷ [] };
  exec_ctx = record {
    exec_id = 0;
    ctrl_ctx = record {
      partition = 0;
      service = "users";
      attrs = [];
      dry_run = false;
      logger_id = "";
    };
    receivers = [];
    timestamps = [];
    input = 0;
    result = 0;
    status = pending;
    curr = 0;
    method = "POST";
    endpoint = "/add";
    recovered = false;
  };
  world = 0;
}

new_clocks : (r : String) → Clock.get sender.clock_mgr 0 r ≡ ok 0
unfolding Clock.get slice_get lookup
new_clocks r = refl

create_lem_example :
    (s' : Sender ℕ ℕ) × (err : Option (List String)) × (create_tx_executor db prt_mgr
        ("events" ∷ "events" ∷ [])
        sender
      ≡ ok (prt_mgr, s', err))
    × (s'.exec_ctx.receivers ≡ "events" ∷ "events" ∷ [])
    × (s'.exec_ctx.timestamps ≡ expected (λ r. 0) [] ("events" ∷ "events" ∷ []))
    × Clocks db 0 (λ r. 0) ("events" ∷ "events" ∷ []) sender s' err
create_lem_example =
    create_lem db prt_mgr ("events" ∷ "events" ∷ []) sender (λ r. 0) refl new_clocks
      (λ r. omega arith)
