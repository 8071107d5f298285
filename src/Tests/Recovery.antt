-- ===== src/Tests/Recovery.antt =====
-- pkg/cc/recovery.go, with a table of two executors, one of them completed, and two clocks.
use cs.Prelude.{
  ℕ, zero, suc, false, ◌<◌, String, ◌≡◌, refl, none, ◌⊎◌, inl, inr, List, [], ◌∷◌, map, arith,
}
use cs.Prelude.Lists.{All}
use cs.Prelude.Run.{ok}
use cs.Cc.Clock.{TxClockManager}
use cs.Cc.Clock
use cs.Cc.Context.{TxExecutorContext, pending, completed}
use cs.Cc.Recovery.{
  ClockRow, ExecRow, Request, Encodings, recover_clocks, recover_executors, recovered_rows,
  recovery_request,
}
use cs.Cc.Recovery.Clocks.{recovered, recover_clocks_lem}
use cs.Cc.Recovery.Requests.{SoundRow, Resent, recover_executors_lem, outcome, recovery_request_lem}

abbrev mgr : TxClockManager
mgr = record { partitions = 2; clocks = [] ∷ (("users", 6) ∷ []) ∷ [] }

abbrev clock_rows : List ClockRow
clock_rows =
    record { prt = 1; svc = "users"; ts = 8 } ∷ record { prt = 0; svc = "events"; ts = 3 } ∷ []

recover_clocks_lem_example :
    (mgr' : TxClockManager) × (recover_clocks {E = String} (inr (map inr clock_rows)) mgr
      ≡ ok (mgr', none))
    × ((p : ℕ) (s : String) → Clock.get mgr' p s ≡ recovered clock_rows p s (Clock.get mgr p s))
recover_clocks_lem_example = recover_clocks_lem mgr clock_rows (omega arith, (omega arith, tt))

abbrev exec_ctx : TxExecutorContext ℕ
exec_ctx = record {
  exec_id = 0;
  ctrl_ctx = record {
    partition = 0;
    service = "users";
    attrs = [];
    dry_run = false;
    logger_id = "";
  };
  receivers = [];
  timestamps = [];
  input = 5;
  result = 0;
  status = pending;
  curr = 0;
  method = "POST";
  endpoint = "/add";
  recovered = false;
}

abbrev enc : Encodings ℕ String
enc = record {
  unmarshal = λ b. inr exec_ctx;
  marshal_input = λ v. inr "5";
  new_request = λ method endpoint. none;
}

abbrev table : List ExecRow
table =
    record { exec_id = 1; status = completed; checkpoint = "{}" }
    ∷ record { exec_id = 2; status = pending; checkpoint = "{}" }
    ∷ []

table_Sound : All (SoundRow enc) table
table_Sound = (
  λ on. cc,
  (
    (λ on. record { ctx = exec_ctx; body = "5"; decodes = refl; encodes = refl; requested = refl }),
    tt,
  ),
)

recover_executors_lem_example :
    (reqs : List (Request ℕ)) × (recover_executors enc (inr (map inr (recovered_rows table)))
      ≡ ok (inr reqs))
    × Resent enc table reqs
recover_executors_lem_example = recover_executors_lem enc table table_Sound

-- The first two attempts fail, and the third gets an error status.
abbrev answers : ℕ → String ⊎ ℕ
answers zero = inl "connection refused"
answers (suc zero) = inl "connection reset"
answers _ = inr 500

first_fail : (j : ℕ) → j < 2 → (e : String) × (answers j ≡ inl e)
first_fail zero low = ("connection refused", refl)
first_fail (suc zero) low = ("connection reset", refl)
first_fail (suc (suc j)) low = absurd (omega arith)

recovery_request_lem_example : recovery_request answers ≡ outcome answers (answers 2)
recovery_request_lem_example =
    recovery_request_lem answers 2 first_fail (omega arith) (inr (500, refl))
