-- ===== src/Api/Request.antt =====
-- pkg/api/v1/request.go: a request to another service, and what is made of the response.
pub mod Outcomes
pub mod Clients
use cs.Prelude.{ℕ, String, Bool, true, false, Option, none, some, ite, ◌⊎◌, inl, inr}
use Prim.Native.String.{◌++◌ as str_append}
use cs.Prelude.Tests.{string_key, ◌==◌, if◌then◌else◌}
use cs.Api.Call.{Call}

-- The errors of error.go that `Request` wraps; `F` are the errors of `client.Do`.
pub data RequestError (F : Type 0) : Type 0 where
  err_invalid_request_param err_invalid_response_body : RequestError F
  err_bad_request : F → RequestError F
  err_bad_response_code err_service_unavailable : ℕ → RequestError F

pub record HttpRequest : Type 0 where
  pub method : String
  pub endpoint : String
  pub raw_query : String
  pub body : String

pub record Response : Type 0 where
  pub status_code : ℕ
  pub body : String

-- `http.NewRequest`, which refuses a bad method or URL, and `client.Do` on the state of the network
-- and the services.
pub record Client (W F : Type 0) : Type 0 where
  pub is_valid : String → String → Bool
  pub do_request : W → HttpRequest → W × (F ⊎ Response)

-- What a JSON decoder gives: a value, the end of the input, or another error.
pub data Decoded (A : Type 0) : Type 0 where
  decoded : A → Decoded A
  end_of_input invalid : Decoded A

-- `format.EncodeParam` with `values.Encode`, `json.Marshal`, `json.NewDecoder(…).Decode`, and the
-- zero value of the response.
pub record Codec (In Out : Type 0) : Type 0 where
  pub encode_param : In → Option String
  pub marshal : In → Option String
  pub decode : String → Decoded Out
  pub zero : Out

module _ {W F : Type 0} (client : Client W F) {In Out : Type 0} (codec : Codec In Out) where
  -- The request: the parameters are in the query of a GET, and else in the body.
  unfoldable pub new_request : String → String → In → Option HttpRequest
  new_request method endpoint params =
      elim (ite (string_key.dec method "GET") (codec.encode_param params) (codec.marshal params)) [
        | none ↦ none
        | some encoded ↦
            if client.is_valid method endpoint
            then some (record {
              method = method;
              endpoint = endpoint;
              raw_query = ite (string_key.dec method "GET") encoded "";
              body = ite (string_key.dec method "GET") "" encoded;
            })
            else none
      ]

  unfoldable pub read_body : Decoded Out → RequestError F ⊎ Out
  read_body (decoded out) = inr out
  read_body end_of_input = inr codec.zero
  read_body invalid = inl err_invalid_response_body

  unfoldable pub read_response : ℕ → Response → RequestError F ⊎ Out
  read_response code res =
      if res.status_code == code
      then read_body (codec.decode res.body)
      else if res.status_code == 404
      then inl (err_bad_response_code res.status_code)
      else if res.status_code == 503
      then inl (err_service_unavailable res.status_code)
      else inl (err_bad_response_code res.status_code)

  unfoldable pub after_do : ℕ → W × (F ⊎ Response) → W × (RequestError F ⊎ Out)
  after_do code (w, inl f) = (w, inl (err_bad_request f))
  after_do code (w, inr res) = (w, read_response code res)

  unfoldable pub request : String → String → String → ℕ → In → Call W (RequestError F) Out
  request method addr path code params w = elim (new_request method (str_append addr path) params) [
    | none ↦ (w, inl err_invalid_request_param)
    | some req ↦ after_do code (client.do_request w req)
  ]

  unfoldable pub get_request : String → String → ℕ → In → Call W (RequestError F) Out
  get_request = request "GET"

  unfoldable pub put_request : String → String → ℕ → In → Call W (RequestError F) Out
  put_request = request "PUT"

  unfoldable pub post_request : String → String → ℕ → In → Call W (RequestError F) Out
  post_request = request "POST"

  unfoldable pub delete_request : String → String → ℕ → In → Call W (RequestError F) Out
  delete_request = request "DELETE"
