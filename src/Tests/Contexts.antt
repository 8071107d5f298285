-- ===== src/Tests/Contexts.antt =====
-- pkg/cc/context.go, with a JSON that knows one value of each type, written as "{}", and
-- reads numbers as the number that is one greater.
use cs.Prelude.{
  suc, ℕ, String, List, [], ◌∷◌, ◌⊎◌, inl, inr, false, ◌≡◌, ◌≢◌, ◌<◌, refl, sym, ap, arith,
  ℕ_discrete,
}
use mathlib.Core.Path.{subst}
use cs.Prelude.Tests.{string_discrete}
use cs.Prelude.Lists.{All}
use cs.Cc.Context.{TxStageContext, TxControlContext, TxExecutorContext, as_read, pending}
use cs.Cc.Context.Encoding.{
  ContextCodec, ReadsBack, ComesBack, encode_tx_stage_context, decode_tx_stage_context,
  encode_tx_control_context, decode_tx_control_context, encode_tx_executor_context,
  decode_tx_executor_context, contexts-ComesBack,
}
use cs.Cc.Context.Base64.{encode_string, digit}

abbrev text : List ℕ
text = 123 ∷ 125 ∷ []

abbrev written : {A : Type 0} {x a : A} → Dec (x ≡ a) → String ⊎ List ℕ
written (yes _) = inr text
written (no _) = inl "no such value"

abbrev one_value : {A : Type 0} → Discrete A → (A → A) → A → ContextCodec A String
one_value dec back a = record { marshal = λ x. written (dec x a); unmarshal = λ b. inr (back a) }

text-Bytes : All (λ byte. byte < 256) text
text-Bytes = (omega arith, (omega arith, tt))

text-filled : text ≢ []
text-filled e = ground (arith, e)

-- The bytes of the one value are those of `text`.
written-text :
    {A : Type 0} {x a : A} (d : Dec (x ≡ a)) (b : List ℕ) → written d ≡ inr b → (a ≡ x) × (text ≡ b)
written-text (yes same) b made = (sym same, ground (arith, made))
written-text (no differ) b made = ground (arith, made)

one_value-ReadsBack :
    {A : Type 0} (dec : Discrete A) (back : A → A) (a : A) → ReadsBack (one_value dec back a) back
one_value-ReadsBack dec back a x b made =
    let (own, same) = written-text (dec x a) b made in
    (
      ap (λ c. inr (back c)) own,
      subst (All (λ byte. byte < 256)) same text-Bytes,
      subst (λ l. l ≢ []) same text-filled,
    )

abbrev stage_ctx : TxStageContext
stage_ctx = record { partition = 0; service = "users"; timestamp = 7; attrs = []; dry_run = false }

abbrev ctrl_ctx : TxControlContext
ctrl_ctx = record { partition = 0; service = "users"; attrs = []; dry_run = false; logger_id = "" }

abbrev exec_ctx : TxExecutorContext ℕ
exec_ctx = record {
  exec_id = 0;
  ctrl_ctx = ctrl_ctx;
  receivers = [];
  timestamps = [];
  input = 5;
  result = 0;
  status = pending;
  curr = 0;
  method = "POST";
  endpoint = "/add";
  recovered = false;
}

stage_discrete : Discrete TxStageContext
stage_discrete = hlevel (ℕ_discrete, string_discrete)

ctrl_discrete : Discrete TxControlContext
ctrl_discrete = hlevel (ℕ_discrete, string_discrete)

exec_discrete : Discrete (TxExecutorContext ℕ)
exec_discrete = hlevel (ℕ_discrete, string_discrete)

-- "{}" and back.
text_encoded : encode_string text ≡ 101 ∷ 51 ∷ 48 ∷ 61 ∷ []
unfolding encode_string digit
text_encoded = refl

abbrev stage_json : ContextCodec TxStageContext String
stage_json = one_value stage_discrete (λ c. c) stage_ctx

abbrev ctrl_json : ContextCodec TxControlContext String
ctrl_json = one_value ctrl_discrete (λ c. c) ctrl_ctx

abbrev exec_json : ContextCodec (TxExecutorContext ℕ) String
exec_json = one_value exec_discrete (as_read suc) exec_ctx

contexts-ComesBack_example :
    ComesBack stage_json
      (λ c. c)
      (encode_tx_stage_context stage_json)
      (decode_tx_stage_context stage_json)
      stage_ctx
    × ComesBack ctrl_json
        (λ c. c)
        (encode_tx_control_context ctrl_json)
        (decode_tx_control_context ctrl_json)
        ctrl_ctx
    × ComesBack exec_json
        (as_read suc)
        (encode_tx_executor_context exec_json)
        (decode_tx_executor_context exec_json)
        exec_ctx
contexts-ComesBack_example =
    contexts-ComesBack stage_json ctrl_json exec_json suc
      (one_value-ReadsBack stage_discrete (λ c. c) stage_ctx)
      (one_value-ReadsBack ctrl_discrete (λ c. c) ctrl_ctx)
      (one_value-ReadsBack exec_discrete (as_read suc) exec_ctx) stage_ctx ctrl_ctx exec_ctx
