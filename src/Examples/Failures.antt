-- ===== src/Examples/Failures.antt =====
-- A call that the server refuses.
use tamga_go.Base.{none, some, [], ◌≡◌, refl}
use tamga_go.Text.{codes}
use tamga_go.Errors.{ApiError, ok, err, api}
use tamga_go.Http.{Env, Request, get}
use tamga_go.Client.{new_request, decorate}
use tamga_go.Client.Retry.{do_request, do_with, rounds, judge}
use tamga_go.Client.Decode.{decode_json_api}
use tamga_go.Client.Laws.Failing.{Describes, decode_json_api-Describes}
use tamga_go.Examples.{env_of, a_client, answer}

abbrev refusing : Env
refusing = env_of 404

abbrev a_get : Request
a_get = decorate refusing a_client none (record {
  method = get;
  url = record {
    scheme = codes "https";
    host = codes "api.tamga.sh";
    path = codes "/v1/x";
    raw_query = [];
  };
  headers = [];
  cookies = [];
  body = none;
})

request_is_built : new_request refusing a_client get (codes "/x") none ≡ ok a_get
unfolding new_request
request_is_built = refl

request_is_refused :
    do_request refusing a_client a_get []
    ≡ ((do_request refusing a_client a_get []).0, ok (answer 404))
unfolding do_request do_with rounds judge decorate
request_is_refused = refl

decode_json_api-Describes_example :
    (a : ApiError) × (decode_json_api refusing (λ b. some b.bytes) a_client get (codes "/x") none []
      ≡ ((do_request refusing a_client a_get []).0, err (api a)))
    × Describes refusing (answer 404) a
decode_json_api-Describes_example =
    decode_json_api-Describes refusing (λ b. some b.bytes) a_client get (codes "/x") none a_get
      (answer 404) [] (do_request refusing a_client a_get []).0 request_is_built request_is_refused
      refl
