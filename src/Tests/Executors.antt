-- ===== src/Tests/Executors.antt =====
-- pkg/cc/checkpoint.go, with a table that is a function of the id, and contexts as their own bytes.
use cs.Prelude.{
  ap, ℕ, suc, String, false, none, some, ◌≡◌, refl, ◌⊎◌, inl, inr, [], ite, ℕ_discrete, arith,
}
use cs.Cc.Context.{TxExecutorContext, ExecStatus, pending, committed, as_read}
use cs.Cc.Checkpoint.Executors.{
  TxExecutors, ContextJson, get_tx_executor_checkpoint, insert_checkpoint_executor_context,
  update_checkpoint_executor_context, default_checkpointer, checkpoint_round_trip,
}

abbrev Bytes : Type 0
Bytes = TxExecutorContext ℕ

abbrev Table : Type 0
Table = ℕ → String ⊎ (ExecStatus × Bytes)

abbrev put : Table → ℕ → ExecStatus → Bytes → Table
put d id status b i = ite (ℕ_discrete i id) (inr (status, b)) (d i)

put_here :
    (d : Table) (id other : ℕ) (status : ExecStatus) (b : Bytes)
    → other ≡ id
    → put d other status b id ≡ inr (status, b)
put_here d id other status b same = ground (arith, same)

id_of : {id : ℕ} → ◌≡◌ {A = String ⊎ ℕ} (inr 3) (inr id) → 3 ≡ id
id_of h = cc

abbrev table : TxExecutors Bytes Table String
table = record {
  select = λ d id. d id;
  select_status = λ d status. inr [];
  insert = λ d status b. (put d 3 status b, inr 3);
  update = λ d id status b. (put d id status b, none);
  truncate = λ d. (d, none);
  jsonb = λ b. b;
  select-insert = λ d status b id h. put_here d id 3 status b (id_of h);
  select-update = λ d id status b old there h. put_here d id id status b refl;
}

abbrev json : ContextJson ℕ Bytes String
json = record { marshal = λ c. inr c; unmarshal = λ b. inr (as_read suc b) }

abbrev exec_ctx : TxExecutorContext ℕ
exec_ctx = record {
  exec_id = 0;
  ctrl_ctx = record {
    partition = 0;
    service = "users";
    attrs = [];
    dry_run = false;
    logger_id = "";
  };
  receivers = [];
  timestamps = [];
  input = 5;
  result = 0;
  status = pending;
  curr = 0;
  method = "POST";
  endpoint = "/add";
  recovered = false;
}

abbrev saved : TxExecutorContext ℕ
saved = record exec_ctx { exec_id = 3; status = committed; result = 9 }

abbrev empty : Table
empty id = inl "no rows in result set"

reads_own :
    {c b : TxExecutorContext ℕ}
    → ◌≡◌ {A = String ⊎ TxExecutorContext ℕ} (inr c) (inr b)
    → ◌≡◌ {A = String ⊎ TxExecutorContext ℕ} (inr (as_read suc b)) (inr (as_read suc c))
reads_own {c} {b} made = let own : b ≡ c = ground (arith, made) in ap (λ x. inr (as_read suc x)) own

checkpoint_round_trip_example :
    (get_tx_executor_checkpoint json table
        (insert_checkpoint_executor_context json table empty exec_ctx).0
        3
      ≡ (pending, some (as_read suc exec_ctx), none))
    × (get_tx_executor_checkpoint json table
          (default_checkpointer json table saved
            (insert_checkpoint_executor_context json table empty exec_ctx).0).0
          3
        ≡ (committed, some (as_read suc saved), none))
unfolding insert_checkpoint_executor_context update_checkpoint_executor_context
checkpoint_round_trip_example =
    checkpoint_round_trip json table suc empty exec_ctx saved (λ c b made. reads_own made) refl refl
      refl
