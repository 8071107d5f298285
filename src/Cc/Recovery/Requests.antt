-- ===== src/Cc/Recovery/Requests.antt =====
-- pkg/cc/recovery.go: which requests are made, and how each is tried.
use cs.Prelude.{
  true, false, ℕ, zero, suc, ◌+◌, ◌≤◌, ◌<◌, String, none, ◌≡◌, refl, sym, ap, ◌∙◌, ◌⊎◌, inl, inr,
  List, [], ◌∷◌, ◌++◌, map, arith,
}
use mathlib.Core.List.{append_assoc, append-nil}
use cs.Prelude.Tests.{Sum-cases}
use cs.Prelude.Lists.{All}
use cs.Prelude.Run.{ok}
use cs.Cc.Context.{
  TxExecutorContext, ExecStatus, pending, committed, aborted, rollback, force_complete, completed,
}
use cs.Cc.Recovery.{
  ExecRow, is_recovered, Request, Encodings, with_id, request_of, requests, recover_executors,
  recovered_rows, Recovered, failed, check_status, retry_request, recovery_request,
}

module _ {V E : Type 0} (enc : Encodings V E) where
  -- The context of a row and its input can be decoded and encoded, and the request made.
  pub record Sound (r : ExecRow) : Type 0 where
    pub ctx : TxExecutorContext V
    pub body : String
    pub decodes : enc.unmarshal r.checkpoint ≡ inr ctx
    pub encodes : enc.marshal_input ctx.input ≡ inr body
    pub requested : enc.new_request ctx.method ctx.endpoint ≡ none

  -- The request for a row: the method, the endpoint and the input of its context, and the context
  -- with the id of the row.
  pub record RequestFor (r : ExecRow) (req : Request V) : Type 0 where
    pub ctx : TxExecutorContext V
    pub decodes : enc.unmarshal r.checkpoint ≡ inr ctx
    pub encodes : enc.marshal_input ctx.input ≡ inr req.body
    pub method : req.method ≡ ctx.method
    pub endpoint : req.endpoint ≡ ctx.endpoint
    pub exec_ctx : req.exec_ctx ≡ record ctx { exec_id = r.exec_id }

  -- The requests for a table: none for a row that is aborted, rolled back or completed, and one for
  -- a row that is pending, committed or to be completed by force, in the order of the rows.
  pub data Resent : List ExecRow → List (Request V) → Type 0 where
    no_more : Resent [] []
    ended :
        {r : ExecRow} {rows : List ExecRow} {reqs : List (Request V)}
        → (r.status ≡ aborted) ⊎ ((r.status ≡ rollback) ⊎ (r.status ≡ completed))
        → Resent rows reqs
        → Resent (r ∷ rows) reqs
    resent :
        {r : ExecRow} {rows : List ExecRow} {req : Request V} {reqs : List (Request V)}
        → (r.status ≡ pending) ⊎ ((r.status ≡ committed) ⊎ (r.status ≡ force_complete))
        → RequestFor r req
        → Resent rows reqs
        → Resent (r ∷ rows) (req ∷ reqs)

  -- A row that is recovered is sound.
  abbrev pub SoundRow : ExecRow → Type 0
  SoundRow r = is_recovered r.status ≡ true → Sound r

  -- The requests of the selected rows, after those that have been made.
  abbrev Makes : List ExecRow → Type 0
  Makes table =
      (made : List (Request V)) × ((reqs : List (Request V))
        → requests enc (map inr (recovered_rows table)) reqs ≡ ok (inr (reqs ++ made)))
      × Resent table made

  made_request : (r : ExecRow) → Sound r → Request V
  made_request r s = record {
    method = s.ctx.method;
    endpoint = s.ctx.endpoint;
    body = s.body;
    exec_ctx = with_id enc s.ctx r.exec_id;
  }

  skip_row :
      (r : ExecRow) (table : List ExecRow)
      → is_recovered r.status ≡ false
      → (r.status ≡ aborted) ⊎ ((r.status ≡ rollback) ⊎ (r.status ≡ completed))
      → Makes table
      → Makes (r ∷ table)
  unfolding recovered_rows
  skip_row r table off over (made, ran, sent) =
      (made, λ reqs. ground (arith, off, ran reqs), ended over sent)

  make_row :
      (r : ExecRow) (table : List ExecRow)
      → is_recovered r.status ≡ true
      → (r.status ≡ pending) ⊎ ((r.status ≡ committed) ⊎ (r.status ≡ force_complete))
      → Sound r
      → Makes table
      → Makes (r ∷ table)
  unfolding recovered_rows requests request_of made_request
  make_row r table on unfinished s (made, ran, sent) =
      let req = made_request r s in
      (
        req ∷ made,
        λ reqs. ground (
          arith,
          on,
          s.decodes,
          s.encodes,
          s.requested,
          ran (reqs ++ req ∷ []),
          append_assoc reqs (req ∷ []) made,
        ),
        resent unfinished
            (record {
              ctx = s.ctx;
              decodes = s.decodes;
              encodes = s.encodes;
              method = refl;
              endpoint = refl;
              exec_ctx = refl;
            })
            sent,
      )

  select_row :
      (r : ExecRow) (table : List ExecRow) (status : ExecStatus)
      → r.status ≡ status
      → SoundRow r
      → Makes table
      → Makes (r ∷ table)
  select_row r table pending e sound m =
      let on : is_recovered r.status ≡ true = ap is_recovered e in
      make_row r table on (inl e) (sound on) m
  select_row r table committed e sound m =
      let on : is_recovered r.status ≡ true = ap is_recovered e in
      make_row r table on (inr (inl e)) (sound on) m
  select_row r table force_complete e sound m =
      let on : is_recovered r.status ≡ true = ap is_recovered e in
      make_row r table on (inr (inr e)) (sound on) m
  select_row r table aborted e sound m = skip_row r table (ap is_recovered e) (inl e) m
  select_row r table rollback e sound m = skip_row r table (ap is_recovered e) (inr (inl e)) m
  select_row r table completed e sound m = skip_row r table (ap is_recovered e) (inr (inr e)) m

  select_rows : (table : List ExecRow) → All SoundRow table → Makes table
  unfolding requests recovered_rows
  select_rows [] all = ([], λ reqs. ap (λ l. ok (inr l)) (sym (append-nil reqs)), no_more)
  select_rows (r ∷ table) (sound, all) =
      select_row r table r.status refl sound (select_rows table all)

  -- Let the checkpoint and the input of each row that the query selects be decoded and encoded, and
  -- its request be made. Then requests are sent, in the order of the rows: for each row of the
  -- table that is pending, committed or to be completed by force, one with the method, the endpoint
  -- and the input of its context, and with the id of the row in the context; for a row that is
  -- aborted, rolled back or completed, none.
  pub recover_executors_lem :
      (table : List ExecRow)
      → All SoundRow table
      → (reqs : List (Request V)) × (recover_executors enc (inr (map inr (recovered_rows table)))
          ≡ ok (inr reqs))
        × Resent table reqs
  unfolding recover_executors
  recover_executors_lem table all =
      let (made, ran, sent) = select_rows table all in (made, ran [], sent)

module _ {E : Type 0} (attempt : ℕ → E ⊎ ℕ) where
  -- What an attempt that is the last one means.
  abbrev pub outcome : E ⊎ ℕ → Recovered E
  outcome (inl e) = failed e
  outcome (inr code) = check_status attempt code

  last_round : (i : ℕ) → retry_request attempt 0 i ≡ outcome (attempt i)
  unfolding retry_request
  last_round i = elim (Sum-cases (attempt i)) [
    | inl (e, bad) ↦ rw (bad, retry_request) refl
    | inr (code, good) ↦ rw (good, retry_request) refl
  ]

  one_less :
      (left k n : ℕ)
      → (suc k ≡ suc left) ⊎ ((code : ℕ) × (attempt n ≡ inr code))
      → (k ≡ left) ⊎ ((code : ℕ) × (attempt n ≡ inr code))
  one_less left k n (inl e) = inl (omega (arith, e))
  one_less left k n (inr good) = inr good

  retry_from :
      (left i n k : ℕ)
      → n ≡ i + k
      → ((j : ℕ) → i ≤ j → j < n → (e : E) × (attempt j ≡ inl e))
      → k ≤ left
      → (k ≡ left) ⊎ ((code : ℕ) × (attempt n ≡ inr code))
      → retry_request attempt left i ≡ outcome (attempt n)
  unfolding retry_request
  retry_from zero i n zero at bad le end =
      last_round i ∙ ap (λ m. outcome (attempt m)) (omega (arith, at))
  retry_from zero i n (suc k) at bad le end = absurd (omega arith)
  retry_from (suc left) i n zero at bad le (inl e) = absurd (omega arith)
  retry_from (suc left) i n zero at bad le (inr (code, good)) =
      let here : i ≡ n = omega (arith, at) in
      let good_here : attempt i ≡ inr code = ap attempt here ∙ good in
      rw (good_here, retry_request) (rw good refl)
  retry_from (suc left) i n (suc k) at bad le end =
      let (e, failed_now) = bad i (omega arith) (omega (arith, at)) in
      rw (failed_now, retry_request)
        (retry_from left (i + 1) n k (omega (arith, at)) (λ j low high. bad j (omega arith) high)
          (omega arith) (one_less left k n end))

  -- The request is tried until an attempt gets a response, and at most ten times: if the attempts
  -- before attempt `k` fail, and that one gets a response or is the tenth, its outcome is that of
  -- the request, which is an error for a status code from 300 on.
  pub recovery_request_lem :
      (k : ℕ)
      → ((j : ℕ) → j < k → (e : E) × (attempt j ≡ inl e))
      → k ≤ 9
      → (k ≡ 9) ⊎ ((code : ℕ) × (attempt k ≡ inr code))
      → recovery_request attempt ≡ outcome (attempt k)
  unfolding recovery_request
  recovery_request_lem k bad le end =
      retry_from 9 0 k k (omega arith) (λ j low high. bad j high) le end
