-- ===== src/Cc/Checkpoint/Executors.antt =====
-- pkg/cc/checkpoint.go: the checkpoints of the executors, in the table TxExecutor.
use cs.Prelude.{ℕ, Option, none, some, ◌≡◌, ap, ◌∙◌, ◌⊎◌, inl, inr, List, [], ◌∷◌, ◌++◌, arith}
use cs.Prelude.Tests.{Sum-cases}
use cs.Cc.Context.{TxExecutorContext, ExecStatus, pending, as_read}

-- The statements on the table, whose state is `D` and whose checkpoints are of a type `B` of bytes,
-- and what they are documented to do: a row that has been inserted, or updated where it was there, is
-- selected by its id. The column of the checkpoints is JSONB: it keeps the JSON value of the bytes
-- that are written, and gives back bytes of its own for it, `jsonb`.
pub record TxExecutors (B D E : Type 0) : Type 0 where
  pub select : D → ℕ → E ⊎ (ExecStatus × B)
  pub select_status : D → ExecStatus → E ⊎ List (E ⊎ B)
  pub insert : D → ExecStatus → B → D × (E ⊎ ℕ)
  pub update : D → ℕ → ExecStatus → B → D × Option E
  pub truncate : D → D × Option E
  pub jsonb : B → B
  pub select-insert :
      (d : D) (status : ExecStatus) (b : B) (id : ℕ)
      → (insert d status b).1 ≡ inr id
      → select (insert d status b).0 id ≡ inr (status, jsonb b)
  pub select-update :
      (d : D) (id : ℕ) (status : ExecStatus) (b : B) (old : ExecStatus × B)
      → select d id ≡ inr old
      → (update d id status b).1 ≡ none
      → select (update d id status b).0 id ≡ inr (status, jsonb b)

-- encoding/json on executor contexts.
pub record ContextJson (V B E : Type 0) : Type 0 where
  pub marshal : TxExecutorContext V → E ⊎ B
  pub unmarshal : B → E ⊎ TxExecutorContext V

module _ {V B D E : Type 0} (json : ContextJson V B E) (table : TxExecutors B D E) where
  -- A status of a row that was not read is the zero value, pending.
  unfoldable pub get_tx_executor_checkpoint :
      D → ℕ → ExecStatus × Option (TxExecutorContext V) × Option E
  get_tx_executor_checkpoint d exec_id = elim (table.select d exec_id) [
    | inl e ↦ (pending, none, some e)
    | inr (status, b) ↦ elim (json.unmarshal b) [
      | inl e ↦ (status, none, some e)
      | inr exec_ctx ↦ (status, some exec_ctx, none)
    ]
  ]

  unfoldable pub decode_rows :
      List (E ⊎ B) → List (TxExecutorContext V) → E ⊎ List (TxExecutorContext V)
  decode_rows [] result = inr result
  decode_rows (inl e ∷ rows) result = inl e
  decode_rows (inr b ∷ rows) result = elim (json.unmarshal b) [
    | inl e ↦ inl e
    | inr exec_ctx ↦ decode_rows rows (result ++ exec_ctx ∷ [])
  ]

  unfoldable pub get_all_tx_executor_checkpoint : D → ExecStatus → E ⊎ List (TxExecutorContext V)
  get_all_tx_executor_checkpoint d status = elim (table.select_status d status) [
    | inl e ↦ inl e
    | inr rows ↦ decode_rows rows []
  ]

  -- The bytes are made before the new id is known.
  unfoldable pub insert_checkpoint_executor_context :
      D → TxExecutorContext V → D × TxExecutorContext V × Option E
  insert_checkpoint_executor_context d exec_ctx = elim (json.marshal exec_ctx) [
    | inl e ↦ (d, exec_ctx, some e)
    | inr b ↦
        let (d', inserted) = table.insert d exec_ctx.status b in
        elim inserted [
          | inl e ↦ (d', exec_ctx, some e)
          | inr id ↦ (d', record exec_ctx { exec_id = id }, none)
        ]
  ]

  unfoldable pub update_checkpoint_executor_context : D → TxExecutorContext V → D × Option E
  update_checkpoint_executor_context d exec_ctx = elim (json.marshal exec_ctx) [
    | inl e ↦ (d, some e)
    | inr b ↦ table.update d exec_ctx.exec_id exec_ctx.status b
  ]

  unfoldable pub delete_all_executor_checkpoints : D → D × Option E
  delete_all_executor_checkpoints d = table.truncate d

  -- `DefaultCheckpointer`: the function that an executor calls.
  abbrev pub default_checkpointer : TxExecutorContext V → D → D × Option E
  default_checkpointer exec_ctx d = update_checkpoint_executor_context d exec_ctx

  -- Let JSON, through the column, give back a context that it was given, but for the input and the
  -- result, for which it gives the values that it has for them. If a context has been inserted
  -- without an error, then it has got an id under which it is read back, as it was before it had the
  -- id. If a context with that id, in any state, has then been saved by the checkpointer, this one
  -- is read back, with its status and its id.
  pub checkpoint_round_trip :
      (as_json : V → V) (d : D) (exec_ctx saved : TxExecutorContext V)
      → ((c : TxExecutorContext V) (b : B)
          → json.marshal c ≡ inr b
          → json.unmarshal (table.jsonb b) ≡ inr (as_read as_json c))
      → (insert_checkpoint_executor_context d exec_ctx).2 ≡ none
      → saved.exec_id ≡ (insert_checkpoint_executor_context d exec_ctx).1.exec_id
      → (default_checkpointer saved (insert_checkpoint_executor_context d exec_ctx).0).1 ≡ none
      → (get_tx_executor_checkpoint (insert_checkpoint_executor_context d exec_ctx).0 saved.exec_id
          ≡ (exec_ctx.status, some (as_read as_json exec_ctx), none))
        × (get_tx_executor_checkpoint
              (default_checkpointer saved (insert_checkpoint_executor_context d exec_ctx).0).0
              saved.exec_id
            ≡ (saved.status, some (as_read as_json saved), none))
  unfolding get_tx_executor_checkpoint insert_checkpoint_executor_context
      update_checkpoint_executor_context
  checkpoint_round_trip as_json d exec_ctx saved round fine same kept =
      elim (Sum-cases (json.marshal exec_ctx)) [
        | inl (e, bad) ↦ absurd (ground (arith, fine, bad))
        | inr (b, made) ↦ elim (Sum-cases (table.insert d exec_ctx.status b).1) [
          | inl (e, bad) ↦ absurd (ground (arith, fine, made, bad))
          | inr (id, put) ↦ elim (Sum-cases (json.marshal saved)) [
            | inl (e, bad) ↦ absurd (ground (arith, kept, bad))
            | inr (b', made') ↦
                let inserted = (table.insert d exec_ctx.status b).0 in
                let stored : (insert_checkpoint_executor_context d exec_ctx).0 ≡ inserted =
                  ground (arith, made, put) in
                let own : saved.exec_id ≡ id = ground (arith, same, made, put) in
                let read =
                  ap (table.select inserted) own ∙ table.select-insert d exec_ctx.status b id put in
                let updated : (table.update inserted saved.exec_id saved.status b').1 ≡ none =
                  ground (arith, kept, made', stored) in
                let read_again =
                  table.select-update inserted saved.exec_id saved.status b'
                    (exec_ctx.status, table.jsonb b) read updated in
                (
                  ground (arith, stored, read, round exec_ctx b made),
                  ground (arith, stored, made', read_again, round saved b' made'),
                )
          ]
        ]
      ]
