-- ===== src/Client/Decode.antt =====
-- client.go: mapError and the helpers that send a request and decode what comes back. `T` is
-- decoded by a function of the caller, which stands for encoding/json at that type.
use tamga_go.Base.{◌||◌, Option, none, some, List, [], ◌∷◌, eqb, if◌then◌else◌}
use tamga_go.Text.{Bytes, codes, ◌==◌, trim_space}
use tamga_go.Json.{Json}
use tamga_go.Errors.{
  Result, ok, err, GoError, api, plain, wrap, Error, ApiError, new_api_error_from_response,
  unreadable_error, or_fail,
}
use tamga_go.Errors
use tamga_go.Http.{Env, Body, Request, Response, Values, WireError, is_success}
use tamga_go.Http.Monad.{M, ◌>>=◌, pure, lift}
use tamga_go.Client.{Client, new_request, response_info_from_header}
use tamga_go.Client.Retry.{do_request}

module _ (env : Env) where
  open env use {unmarshal_errors, unmarshal_string, unmarshal_number, encode_query}

  abbrev quoted : Bytes → Result Bytes
  quoted raw = or_fail (unmarshal_string raw) (plain (codes "json"))

  abbrev number : Bytes → Result Bytes
  number raw = or_fail (unmarshal_number raw) (plain (codes "status must be a string or a number"))

  abbrev by_first_byte : Bytes → Result Bytes
  by_first_byte [] = ok []
  by_first_byte (c ∷ s) = if eqb c b'"' then quoted (c ∷ s) else number (c ∷ s)

  -- decodeErrorStatus
  unfoldable pub decode_error_status : Bytes → Result Bytes
  unfolding trim_space
  decode_error_status raw =
      let t = trim_space raw in if t == [] || t == codes "null" then ok [] else by_first_byte t

  abbrev to_error : WireError → Bytes → Error
  to_error w status = record {
    source = w.source;
    meta = w.meta;
    id = w.id;
    status = status;
    code = w.code;
    title = w.title;
    detail = w.detail;
  }

  -- (*Error).UnmarshalJSON, after encoding/json has read the object's fields.
  unfoldable pub unmarshal_error : WireError → Result Error
  unfolding decode_error_status
  unmarshal_error w = Errors.◌>>=◌ (decode_error_status w.status) (λ status. ok (to_error w status))

  unfoldable pub unmarshal_all : List WireError → Result (List Error)
  unfolding unmarshal_error
  unmarshal_all [] = ok []
  unmarshal_all (w ∷ ws) =
      Errors.◌>>=◌ (unmarshal_error w) (λ e. Errors.◌>>=◌ (unmarshal_all ws) (λ es. ok (e ∷ es)))

  abbrev pub decoded_errors : Bytes → List Error
  decoded_errors bytes = elim (unmarshal_errors bytes) [
    | none ↦ []
    | some ws ↦ elim (unmarshal_all ws) [ ok es ↦ es | err e ↦ [] ]
  ]

  abbrev pub api_error_of : Response → List Error → ApiError
  api_error_of resp [] =
      unreadable_error resp.status (response_info_from_header resp.header)
        (codes "server returned a non-JSON:API body")
  api_error_of resp (e ∷ es) =
      new_api_error_from_response resp.status (response_info_from_header resp.header) (e ∷ es)

  -- mapError
  unfoldable pub map_error : Response → ApiError
  unfolding unmarshal_all response_info_from_header
  map_error resp =
      if resp.body.broken
      then unreadable_error resp.status (response_info_from_header resp.header)
          (codes "the body could not be read")
      else api_error_of resp (decoded_errors resp.body.bytes)

  -- The status check that every helper makes of a response.
  unfoldable pub check_status : Response → Result Response
  unfolding map_error
  check_status resp = if is_success resp.status then ok resp else err (api (map_error resp))

  abbrev pub decode_body : {T : Type 0} → (Body → Option T) → Response → Result T
  decode_body decode resp = or_fail (decode resp.body) (wrap (plain (codes "decode response body")))

  -- newRequest, do, and the status check.
  unfoldable pub send : Client → Bytes → Bytes → Option Json → M Response
  unfolding new_request do_request check_status
  send c method path body = do
    req ← lift (new_request env c method path body)
    resp ← do_request env c req
    lift (check_status resp)

  -- decodeJSONAPI, decodeJSONAPIWithMeta and decodeFlat, which differ in what `decode` reads.
  unfoldable pub decode_json_api :
      {T : Type 0} → (Body → Option T) → Client → Bytes → Bytes → Option Json → M T
  unfolding send
  decode_json_api decode c method path body = do
    resp ← send c method path body
    lift (decode_body decode resp)

  unfoldable pub decode_flat : {T : Type 0} → (Body → Option T) → Client → Bytes → Bytes → M T
  unfolding decode_json_api
  decode_flat decode c method path = decode_json_api decode c method path none

  -- doNoContent
  unfoldable pub do_no_content : Client → Bytes → Bytes → M (Unit {0})
  unfolding send
  do_no_content c method path = do resp ← send c method path none; pure tt

  abbrev with_query : Values → Request → Request
  with_query [] req = req
  with_query (v ∷ vs) req = record req {
    url = record req.url { raw_query = encode_query (v ∷ vs) };
  }

  abbrev read_text : Response → Result Bytes
  read_text resp =
      if resp.body.broken
      then err (wrap (plain (codes "read response body")))
      else ok resp.body.bytes

  -- doRawText
  unfoldable pub do_raw_text : Client → Bytes → Bytes → Values → M Bytes
  unfolding new_request do_request check_status
  do_raw_text c method path query = do
    req ← lift (new_request env c method path none)
    resp ← do_request env c (with_query query req)
    checked ← lift (check_status resp)
    lift (read_text checked)
