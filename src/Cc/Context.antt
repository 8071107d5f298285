-- ===== src/Cc/Context.antt =====
-- pkg/cc/context.go: the records that a transaction carries from service to service.
pub mod Base64
pub mod Encoding
use cs.Prelude.{ℕ, String, Bool, List}

pub record TxStageContext : Type 0 where
  pub partition : ℕ
  pub service : String
  pub timestamp : ℕ
  pub attrs : List String
  pub dry_run : Bool

pub record TxControlContext : Type 0 where
  pub partition : ℕ
  pub service : String
  pub attrs : List String
  pub dry_run : Bool
  pub logger_id : String

pub data ExecStatus : Type 0 where
  pending committed aborted rollback force_complete completed : ExecStatus

-- `V` is the type `any` of the inputs, outputs and results of the stages.
pub record TxExecutorContext (V : Type 0) : Type 0 where
  pub exec_id : ℕ
  pub ctrl_ctx : TxControlContext
  pub receivers : List String
  pub timestamps : List ℕ
  pub input : V
  pub result : V
  pub status : ExecStatus
  pub curr : ℕ
  pub method : String
  pub endpoint : String
  pub recovered : Bool

-- An executor context as encoding/json reads it back: a value of type `any` comes back as the value
-- that JSON has for it (a map for a struct, a float64 for a number), which `as_json` gives.
abbrev pub as_read : {V : Type 0} → (V → V) → TxExecutorContext V → TxExecutorContext V
as_read as_json ctx = record ctx { input = as_json ctx.input; result = as_json ctx.result }
