-- ===== src/Tests/Requests.antt =====
-- pkg/api/v1/request.go, with a client that answers 200.
use cs.Prelude.{ℕ, ◌+◌, String, some, inr, true}
use Prim.Native.String.{◌++◌ as str_append}
use cs.Api.Request.{Client, Codec, decoded, request}
use cs.Api.Request.Outcomes.{Outcome, request-Outcome}

abbrev pub client : Client ℕ String
client = record {
  is_valid = λ method endpoint. true;
  do_request = λ w req. (w + 1, inr (record { status_code = 200; body = req.raw_query }));
}

abbrev codec : Codec String String
codec = record {
  encode_param = λ s. some s;
  marshal = λ s. some s;
  decode = λ body. decoded body;
  zero = "";
}

request-Outcome_example :
    Outcome client codec "GET"
      (str_append "http://localhost" "/api")
      200
      "id=7"
      3
      (request client codec "GET" "http://localhost" "/api" 200 "id=7" 3)
request-Outcome_example = request-Outcome client codec "GET" "http://localhost" "/api" 200 "id=7" 3
