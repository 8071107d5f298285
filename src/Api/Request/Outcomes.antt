-- ===== src/Api/Request/Outcomes.antt =====
-- pkg/api/v1/request.go, Request: when it returns a response, and what it has done then.
use cs.Prelude.{ℕ, String, none, some, ◌≡◌, refl, ◌⊎◌, inl, inr, arith}
use Prim.Native.String.{◌++◌ as str_append}
use cs.Prelude.Tests.{Option-cases, Sum-cases, Bool-cases, ◌==◌}
use cs.Api.Request.{
  RequestError, err_invalid_request_param, err_bad_request, HttpRequest, Response, Client, Decoded,
  decoded, end_of_input, invalid, err_invalid_response_body, Codec, new_request, read_body,
  read_response, after_do, request,
}

module _ {W F : Type 0} (client : Client W F) {In Out : Type 0} (codec : Codec In Out) where
  -- The body of the response is that of `out`: its encoding, or empty for the zero value.
  abbrev pub IsBody : String → Out → Type 0
  IsBody body out =
      (codec.decode body ≡ decoded out) ⊎ ((codec.decode body ≡ end_of_input) × (out ≡ codec.zero))

  -- What is made of the answer `sent` of the client: the state is that after it, and the result its
  -- error, another error, or a value.
  abbrev pub Answered : ℕ → W × (F ⊎ Response) → W × (RequestError F ⊎ Out) → Type 0
  Answered code sent (w', result) =
      (sent.0 ≡ w')
      × (((f : F) × (sent.1 ≡ inl f) × (result ≡ inl (err_bad_request f)))
          ⊎ ((res : Response) × (sent.1 ≡ inr res)
              × (((e : RequestError F) × (result ≡ inl e))
                  ⊎ ((out : Out) × (result ≡ inr out)
                      × (res.status_code ≡ code)
                      × IsBody res.body out))))

  -- What a run of Request has done to `w`.
  abbrev pub Outcome : String → String → ℕ → In → W → W × (RequestError F ⊎ Out) → Type 0
  Outcome method endpoint code params w ran =
      ((ran.1 ≡ inl err_invalid_request_param)
        × (ran.0 ≡ w)
        × (new_request client codec method endpoint params ≡ none))
      ⊎ ((req : HttpRequest) × (new_request client codec method endpoint params ≡ some req)
          × Answered code (client.do_request w req) ran)

  read_body-IsBody :
      (d : Decoded Out)
      → ((e : RequestError F) × (read_body client codec d ≡ inl e))
        ⊎ ((out : Out) × (read_body client codec d ≡ inr out)
            × ((d ≡ decoded out) ⊎ ((d ≡ end_of_input) × (out ≡ codec.zero))))
  unfolding read_body
  read_body-IsBody (decoded out) = inr (out, refl, inl refl)
  read_body-IsBody end_of_input = inr (codec.zero, refl, inr (refl, refl))
  read_body-IsBody invalid = inl (err_invalid_response_body, refl)

  read_response-IsBody :
      (code : ℕ) (res : Response)
      → ((e : RequestError F) × (read_response client codec code res ≡ inl e))
        ⊎ ((out : Out) × (read_response client codec code res ≡ inr out)
            × (res.status_code ≡ code)
            × IsBody res.body out)
  unfolding read_response
  read_response-IsBody code res = elim (Bool-cases (res.status_code == code)) [
    | inr differ ↦ elim (Sum-cases (read_response client codec code res)) [
      | inl (e, bad) ↦ inl (e, bad)
      | inr (out, good) ↦ absurd (ground (arith, differ, good))
    ]
    | inl same ↦ elim (read_body-IsBody (codec.decode res.body)) [
      | inl (e, bad) ↦ inl (e, ground (arith, same, bad))
      | inr (out, good, body) ↦ inr (out, ground (arith, same, good), ground (arith, same), body)
    ]
  ]

  after_do-Answered :
      (code : ℕ) (sent : W × (F ⊎ Response)) → Answered code sent (after_do client codec code sent)
  unfolding after_do
  after_do-Answered code (w', inl f) = (refl, inl (f, refl, refl))
  after_do-Answered code (w', inr res) = (refl, inr (res, refl, read_response-IsBody code res))

  -- Request fails before it sends anything, and has changed nothing; or it sends one request, and
  -- returns the error of the client, or another error, or a value. It returns a value only if
  -- the status of the response is the one asked for and its body decodes to the value, or is empty
  -- and the value is zero.
  pub request-Outcome :
      (method addr path : String) (code : ℕ) (params : In) (w : W)
      → Outcome method
          (str_append addr path)
          code
          params
          w
          (request client codec method addr path code params w)
  unfolding request
  request-Outcome method addr path code params w =
      elim (Option-cases (new_request client codec method (str_append addr path) params)) [
        | inl missing ↦ rw (missing, request) (inl (refl, refl, refl))
        | inr (req, there) ↦
            rw (there, request) (inr (req, refl, after_do-Answered code (client.do_request w req)))
      ]
