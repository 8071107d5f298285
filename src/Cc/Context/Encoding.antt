-- ===== src/Cc/Context/Encoding.antt =====
-- pkg/cc/context.go: how the contexts of a transaction are written into the headers of a request.
-- The texts of `Encode` and of the decoding are the same for the three contexts; encoding/json on
-- one of them is `ContextCodec`.
use cs.Prelude.{
  ℕ, ◌<◌, none, some, ◌⊎◌, inl, inr, List, [], ◌∷◌, ◌≡◌, ◌≢◌, refl, sym, ap, ◌∙◌, arith,
}
use cs.Prelude.Lists.{All}
use cs.Prelude.Tests.{Sum-cases}
use cs.Cc.Context.{TxStageContext, TxControlContext, TxExecutorContext, as_read}
use cs.Cc.Context.Base64.{encode_string, decode_string, decode_string-encode_string}

pub record ContextCodec (A E : Type 0) : Type 0 where
  pub marshal : A → E ⊎ List ℕ
  pub unmarshal : List ℕ → E ⊎ A

pub data DecodeError (E : Type 0) : Type 0 where
  corrupt_input : DecodeError E
  json_error : E → DecodeError E

module _ {A E : Type 0} (json : ContextCodec A E) where
  -- `b, _ := json.Marshal(ctx)`: after an error the bytes are nil.
  unfoldable pub marshalled : A → List ℕ
  marshalled ctx = elim (json.marshal ctx) [ inl e ↦ [] | inr b ↦ b ]

  unfoldable pub encode_context : A → List ℕ
  encode_context ctx = encode_string (marshalled ctx)

  unfoldable pub unmarshalled : List ℕ → DecodeError E ⊎ A
  unmarshalled b = elim (json.unmarshal b) [ inl e ↦ inl (json_error e) | inr ctx ↦ inr ctx ]

  unfoldable pub decode_context : List ℕ → DecodeError E ⊎ A
  decode_context encoded = elim (decode_string encoded) [
    | none ↦ inl corrupt_input
    | some b ↦ unmarshalled b
  ]

module _ {E : Type 0} (json : ContextCodec TxStageContext E) where
  unfoldable pub encode_tx_stage_context : TxStageContext → List ℕ
  encode_tx_stage_context = encode_context json

  unfoldable pub decode_tx_stage_context : List ℕ → DecodeError E ⊎ TxStageContext
  decode_tx_stage_context = decode_context json

module _ {E : Type 0} (json : ContextCodec TxControlContext E) where
  unfoldable pub encode_tx_control_context : TxControlContext → List ℕ
  encode_tx_control_context = encode_context json

  unfoldable pub decode_tx_control_context : List ℕ → DecodeError E ⊎ TxControlContext
  decode_tx_control_context = decode_context json

module _ {V E : Type 0} (json : ContextCodec (TxExecutorContext V) E) where
  unfoldable pub encode_tx_executor_context : TxExecutorContext V → List ℕ
  encode_tx_executor_context = encode_context json

  unfoldable pub decode_tx_executor_context : List ℕ → DecodeError E ⊎ TxExecutorContext V
  decode_tx_executor_context = decode_context json

encode_string-empty : encode_string [] ≡ []
unfolding encode_string
encode_string-empty = refl

encode_string-filled : (l : List ℕ) → l ≢ [] → encode_string l ≢ []
unfolding encode_string
encode_string-filled [] h e = h refl
encode_string-filled (a ∷ []) h e = ground (arith, e)
encode_string-filled (a ∷ (b ∷ [])) h e = ground (arith, e)
encode_string-filled (a ∷ (b ∷ (c ∷ rest))) h e = ground (arith, e)

module _ {A E : Type 0} (json : ContextCodec A E) where
  -- encoding/json writes some bytes, and reads a context from them that is `back` of the one written.
  abbrev pub ReadsBack : (A → A) → Type 0
  ReadsBack back =
      (ctx : A) (b : List ℕ)
      → json.marshal ctx ≡ inr b
      → (json.unmarshal b ≡ inr (back ctx)) × All (λ byte. byte < 256) b × (b ≢ [])

  -- The context comes back from its header, as `back` says, and the header is not empty; or its bytes
  -- cannot be made, and the header is empty, as if there were no context.
  abbrev pub ComesBack : (A → A) → (A → List ℕ) → (List ℕ → DecodeError E ⊎ A) → A → Type 0
  ComesBack back encode decode ctx =
      ((decode (encode ctx) ≡ inr (back ctx)) × (encode ctx ≢ []))
      ⊎ ((e : E) × (json.marshal ctx ≡ inl e) × (encode ctx ≡ []))

  encode_context-made :
      (ctx : A) (b : List ℕ) → json.marshal ctx ≡ inr b → encode_context json ctx ≡ encode_string b
  unfolding encode_context marshalled
  encode_context-made ctx b made = ground (arith, made)

  encode_context-fails : (ctx : A) (e : E) → json.marshal ctx ≡ inl e → encode_context json ctx ≡ []
  unfolding encode_context marshalled
  encode_context-fails ctx e fails = ground (arith, fails, encode_string-empty)

  decode_context-back :
      (ctx : A) (b : List ℕ)
      → json.unmarshal b ≡ inr ctx
      → All (λ byte. byte < 256) b
      → decode_context json (encode_string b) ≡ inr ctx
  unfolding decode_context unmarshalled
  decode_context-back ctx b back bytes = ground (arith, back, decode_string-encode_string b bytes)

  context-ComesBack :
      (back : A → A)
      → ReadsBack back
      → (ctx : A) → ComesBack back (encode_context json) (decode_context json) ctx
  context-ComesBack back reads ctx = elim (Sum-cases (json.marshal ctx)) [
    | inl (e, fails) ↦ inr (e, fails, encode_context-fails ctx e fails)
    | inr (b, made) ↦
        let (read, bytes, filled) = reads ctx b made in
        let encoded = encode_context-made ctx b made in
        inl (
          ap (decode_context json) encoded ∙ decode_context-back (back ctx) b read bytes,
          λ e. encode_string-filled b filled (sym encoded ∙ e),
        )
  ]

-- Each of the three contexts of a transaction: decoding what Encode makes of a context gives the
-- context, for an executor context with the input and the result that JSON has for its own, and the
-- header is not empty, so that the receiver does not take the request for one without a context;
-- only a context whose JSON cannot be made has an empty header. Suppose that encoding/json reads
-- back what it has written, but for values of type `any`, which it reads as JSON's, and that it
-- writes at least one byte.
pub contexts-ComesBack :
    {V E : Type 0} (stage_json : ContextCodec TxStageContext E)
    (ctrl_json : ContextCodec TxControlContext E) (exec_json : ContextCodec (TxExecutorContext V) E)
    (as_json : V → V)
    → ReadsBack stage_json (λ ctx. ctx)
    → ReadsBack ctrl_json (λ ctx. ctx)
    → ReadsBack exec_json (as_read as_json)
    → (stage_ctx : TxStageContext) (ctrl_ctx : TxControlContext) (exec_ctx : TxExecutorContext V)
    → ComesBack stage_json
        (λ ctx. ctx)
        (encode_tx_stage_context stage_json)
        (decode_tx_stage_context stage_json)
        stage_ctx
      × ComesBack ctrl_json
          (λ ctx. ctx)
          (encode_tx_control_context ctrl_json)
          (decode_tx_control_context ctrl_json)
          ctrl_ctx
      × ComesBack exec_json
          (as_read as_json)
          (encode_tx_executor_context exec_json)
          (decode_tx_executor_context exec_json)
          exec_ctx
unfolding encode_tx_stage_context decode_tx_stage_context encode_tx_control_context
    decode_tx_control_context encode_tx_executor_context decode_tx_executor_context
contexts-ComesBack stage_json ctrl_json exec_json as_json stage ctrl exec stage_ctx ctrl_ctx
      exec_ctx =
    (
      context-ComesBack stage_json (λ ctx. ctx) stage stage_ctx,
      context-ComesBack ctrl_json (λ ctx. ctx) ctrl ctrl_ctx,
      context-ComesBack exec_json (as_read as_json) exec exec_ctx,
    )
