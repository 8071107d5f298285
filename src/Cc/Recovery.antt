-- ===== src/Cc/Recovery.antt =====
-- pkg/cc/recovery.go: after a restart the clocks are read from their tables, and the requests of the
-- executors that were not finished are sent again.
pub mod Clocks
pub mod Requests
use cs.Prelude.{
  ℕ, zero, suc, ◌+◌, String, Bool, true, false, Option, none, some, ◌⊎◌, inl, inr, List, [], ◌∷◌,
  ◌++◌,
}
use cs.Prelude.Tests.{leb, if◌then◌else◌}
use cs.Prelude.Run.{Run, ok, panic, blocked, ◌>>=◌}
use cs.Cc.Clock.{TxClockManager}
use cs.Cc.Clock
use cs.Cc.Context.{
  TxExecutorContext, ExecStatus, pending, committed, aborted, rollback, force_complete, completed,
}

-- A row of TxSenderClocks or TxReceiverClocks: partition, service and timestamp.
pub record ClockRow : Type 0 where
  pub prt : ℕ
  pub svc : String
  pub ts : ℕ

-- The result of a query: an error of the query, or rows, each of which `Scan` reads or fails on.
abbrev pub Rows : Type 0 → Type 0 → Type 0
Rows E R = E ⊎ List (E ⊎ R)

module _ {E : Type 0} where
  unfoldable pub set_rows : List (E ⊎ ClockRow) → TxClockManager → Run (TxClockManager × Option E)
  set_rows [] mgr = ok (mgr, none)
  set_rows (inl e ∷ rows) mgr = ok (mgr, some e)
  set_rows (inr r ∷ rows) mgr = Clock.set mgr r.prt r.svc r.ts >>= set_rows rows

  -- `recoverSendClocks` and `recoverRecvClocks`, which differ in the table and the manager only.
  unfoldable pub recover_clocks : Rows E ClockRow → TxClockManager → Run (TxClockManager × Option E)
  recover_clocks (inl e) mgr = ok (mgr, some e)
  recover_clocks (inr rows) mgr = set_rows rows mgr

-- A row of TxExecutor.
pub record ExecRow : Type 0 where
  pub exec_id : ℕ
  pub status : ExecStatus
  pub checkpoint : String

-- `WHERE status NOT IN (2, 3, 5)`
abbrev pub is_recovered : ExecStatus → Bool
is_recovered aborted = false
is_recovered rollback = false
is_recovered completed = false
is_recovered _ = true

unfoldable pub recovered_rows : List ExecRow → List ExecRow
recovered_rows [] = []
recovered_rows (r ∷ rows) =
    let rest = recovered_rows rows in if is_recovered r.status then r ∷ rest else rest

pub record Request (V : Type 0) : Type 0 where
  pub method : String
  pub endpoint : String
  pub body : String
  pub exec_ctx : TxExecutorContext V  -- encoded in a header

-- encoding/json on contexts and inputs, and whether http.NewRequest takes a method and endpoint.
pub record Encodings (V E : Type 0) : Type 0 where
  pub unmarshal : String → E ⊎ TxExecutorContext V
  pub marshal_input : V → E ⊎ String
  pub new_request : String → String → Option E

module _ {V E : Type 0} (enc : Encodings V E) where
  abbrev pub with_id : TxExecutorContext V → ℕ → TxExecutorContext V
  with_id ctx id = record ctx { exec_id = id }

  -- A request that NewRequest refuses is nil, and its header is used before the error is read.
  unfoldable pub request_of : ExecRow → Run (E ⊎ Request V)
  request_of r = elim (enc.unmarshal r.checkpoint) [
    | inl e ↦ ok (inl e)
    | inr ctx ↦ elim (enc.marshal_input ctx.input) [
      | inl e ↦ ok (inl e)
      | inr body ↦ elim (enc.new_request ctx.method ctx.endpoint) [
        | some e ↦ panic
        | none ↦ ok (
            inr (record {
              method = ctx.method;
              endpoint = ctx.endpoint;
              body = body;
              exec_ctx = with_id ctx r.exec_id;
            }))
      ]
    ]
  ]

  -- The loop over the rows, from the requests that it has made.
  unfoldable pub requests : List (E ⊎ ExecRow) → List (Request V) → Run (E ⊎ List (Request V))
  requests [] reqs = ok (inr reqs)
  requests (inl e ∷ rows) reqs = ok (inl e)
  requests (inr r ∷ rows) reqs = request_of r >>= λ made. elim made [
    | inl e ↦ ok (inl e)
    | inr req ↦ requests rows (reqs ++ req ∷ [])
  ]

  -- The requests that are sent, each by a goroutine of its own; with an error none is sent.
  unfoldable pub recover_executors : Rows E ExecRow → Run (E ⊎ List (Request V))
  recover_executors (inl e) = ok (inl e)
  recover_executors (inr rows) = requests rows []

-- The manager's pointers to the clocks of the sender and the receiver are this state.
pub record TxRecoveryManager : Type 0 where
  pub send_clock_mgr : TxClockManager
  pub recv_clock_mgr : TxClockManager

-- The rows of the three queries.
pub record Stored (E : Type 0) : Type 0 where
  pub sender_clocks : Rows E ClockRow
  pub receiver_clocks : Rows E ClockRow
  pub executors : Rows E ExecRow

module _ {V E : Type 0} (enc : Encodings V E) (stored : Stored E) where
  unfoldable pub recover_send_clocks : TxRecoveryManager → Run (TxRecoveryManager × Option E)
  recover_send_clocks mgr =
      recover_clocks stored.sender_clocks mgr.send_clock_mgr >>= λ (clocks, err).
      ok (record mgr { send_clock_mgr = clocks }, err)

  unfoldable pub recover_recv_clocks : TxRecoveryManager → Run (TxRecoveryManager × Option E)
  recover_recv_clocks mgr =
      recover_clocks stored.receiver_clocks mgr.recv_clock_mgr >>= λ (clocks, err).
      ok (record mgr { recv_clock_mgr = clocks }, err)

  -- The requests that are sent, or the error.
  unfoldable pub recover : TxRecoveryManager → Run (TxRecoveryManager × (E ⊎ List (Request V)))
  recover mgr = recover_send_clocks mgr >>= λ (sent, err). elim err [
    | some e ↦ ok (sent, inl e)
    | none ↦ recover_recv_clocks sent >>= λ (received, err'). elim err' [
      | some e ↦ ok (received, inl e)
      | none ↦ recover_executors enc stored.executors >>= λ requests. ok (received, requests)
    ]
  ]

-- `MaxRecoveryRetry`
abbrev pub max_recovery_retry : ℕ
max_recovery_retry = 10

-- What a request ends in: nil, `ErrRecoveryRequest`, or the error of the last attempt.
pub data Recovered (E : Type 0) : Type 0 where
  delivered err_recovery_request : Recovered E
  failed : E → Recovered E

module _ {E : Type 0} (attempt : ℕ → E ⊎ ℕ) where
  -- After the loop: the status code of the response.
  abbrev pub check_status : ℕ → Recovered E
  check_status code = if leb 300 code then err_recovery_request else delivered

  -- `for i := range MaxRecoveryRetry`, with `left` rounds after this one. `attempt i` is what the
  -- client returns in round `i`: an error, or a response with a status code.
  unfoldable pub retry_request : (left i : ℕ) → Recovered E
  retry_request zero i = elim (attempt i) [ inl e ↦ failed e | inr code ↦ check_status code ]
  retry_request (suc left) i =
      let rest = retry_request left (i + 1) in
      elim (attempt i) [ inl e ↦ rest | inr code ↦ check_status code ]

  unfoldable pub recovery_request : Recovered E
  recovery_request = retry_request 9 0
