-- ===== src/Client.antt =====
-- client.go and transport.go: the client's settings, its constructor and the requests it builds.
pub mod Retry
pub mod Decode
pub mod Laws
use tamga_go.Base.{
  ℕ, suc, ℤ, pos, negsuc, ◌+◌, Bool, true, false, ◌&&◌, ◌||◌, Option, none, some, List, [], ◌∷◌,
  ◌++◌, leb, eqb, if◌then◌else◌,
}
use tamga_go.Text.{Bytes, codes, ◌==◌, trim_right}
use tamga_go.Json.{Json}
use tamga_go.Errors.{Result, ok, err, GoError, plain, wrap, ◌>>=◌, or_fail, ResponseInfo}
use tamga_go.Http.{Env, Request, Values, set_value, HttpClient, Response}

-- The implementations of AuthTransport; `custom` is a caller's own.
pub data AuthTransport : Type 0 where
  bearer : Bytes → AuthTransport
  basic : Bytes → AuthTransport
  license_key : Bytes → AuthTransport
  session_cookie : Bytes → AuthTransport
  query_param : Bytes → AuthTransport
  custom : (Request → Request) → AuthTransport

unfoldable pub new_basic_auth_email_password : Bytes → Bytes → AuthTransport
new_basic_auth_email_password email password = basic (email ++ (b':' ∷ password))

unfoldable pub new_basic_auth_token : Bytes → AuthTransport
new_basic_auth_token token = basic (token ++ codes ":")

unfoldable pub new_basic_auth_license_key : Bytes → AuthTransport
new_basic_auth_license_key key = basic (codes "license:" ++ key)

pub record Settings : Type 0 where
  pub account_id : Bytes
  pub base_url : Bytes
  pub http_client : HttpClient
  pub api_version : Bytes
  pub otp : Bytes
  pub max_retries : ℕ

pub record Client : Type 0 where
  pub auth : AuthTransport
  pub settings : Settings
  pub open settings use *

-- The client while New still applies the options: `auth` may be nil.
pub record Draft : Type 0 where
  pub auth : Option AuthTransport
  pub settings : Settings
  pub open settings use *

abbrev pub ClientOption : Type 0
ClientOption = Draft → Draft

unfoldable pub with_base_url : Bytes → ClientOption
with_base_url url d = record d {
  settings = record d.settings { base_url = trim_right (λ c. eqb c b'/') url };
}

unfoldable pub with_http_client : HttpClient → ClientOption
with_http_client hc d = record d { settings = record d.settings { http_client = hc } }

unfoldable pub with_api_version : Bytes → ClientOption
with_api_version version d = record d { settings = record d.settings { api_version = version } }

unfoldable pub with_otp : Bytes → ClientOption
with_otp code d = record d { settings = record d.settings { otp = code } }

unfoldable pub with_license_key : Bytes → ClientOption
with_license_key key d = record d { auth = some (license_key key) }

unfoldable pub with_auth : AuthTransport → ClientOption
with_auth a d = record d { auth = some a }

abbrev pub clamp_retries : ℤ → ℕ
clamp_retries (pos n) = n
clamp_retries (negsuc n) = 0

unfoldable pub with_max_retries : ℤ → ClientOption
with_max_retries n d = record d { settings = record d.settings { max_retries = clamp_retries n } }

abbrev pub default_base_url : Bytes
default_base_url = codes "https://api.tamga.sh"

abbrev pub default_api_version : Bytes
default_api_version = codes "1.8"

abbrev pub default_max_retries : ℕ
default_max_retries = 3

abbrev pub default_client : HttpClient
default_client = record { transport = 0; follows = true }

abbrev pub initial : Bytes → Draft
initial account = record {
  auth = none;
  settings = record {
    account_id = account;
    base_url = default_base_url;
    http_client = default_client;
    api_version = default_api_version;
    otp = [];
    max_retries = default_max_retries;
  };
}

unfoldable pub apply_options : List ClientOption → Draft → Draft
apply_options [] d = d
apply_options (opt ∷ opts) d = apply_options opts (opt d)

abbrev pub finish : Draft → Result Client
finish d = elim d.auth [
  | none ↦ err (plain (codes "an auth transport is required"))
  | some a ↦ ok (record { auth = a; settings = d.settings })
]

-- New
unfoldable pub new : Bytes → List ClientOption → Result Client
unfolding apply_options
new account opts =
    if account == []
    then err (plain (codes "accountID must not be empty"))
    else finish (apply_options opts (initial account))

abbrev is_version_byte : ℕ → Bool
is_version_byte c =
    (leb b'a' c && leb c b'z')
    || (leb b'A' c && leb c b'Z')
    || (leb b'0' c && leb c b'9')
    || eqb c b'.'
    || eqb c b'-'

-- The loop of sanitizeVersion; `n` is len(out).
unfoldable pub sanitize_from : ℕ → Bytes → Bytes
sanitize_from n [] = []
sanitize_from n (c ∷ s) =
    let kept = sanitize_from (suc n) s in
    let skipped = sanitize_from n s in
    if leb 32 n then [] else if is_version_byte c then c ∷ kept else skipped

unfoldable pub sanitize_version : Bytes → Bytes
unfolding sanitize_from
sanitize_version version = sanitize_from 0 version

abbrev pub user_agent : Bytes
user_agent = codes "tamga-go/1.2.7"

abbrev pub content_type_json_api : Bytes
content_type_json_api = codes "application/vnd.api+json"

unfoldable pub set_header : Bytes → Bytes → Request → Request
unfolding set_value
set_header k v req = record req { headers = set_value k v req.headers }

-- ResponseInfoFromHeader
unfoldable pub response_info_from_header : (Bytes → Bytes) → ResponseInfo
response_info_from_header get = record {
  tamga_version = get (codes "Tamga-Version");
  tamga_edition = get (codes "Tamga-Edition");
  tamga_mode = get (codes "Tamga-Mode");
  request_id = get (codes "X-Request-Id");
}

module _ (env : Env) where
  open env use {marshal, parse_url, path_escape, encode_query, parse_query, encode_base64}

  -- AuthTransport.Apply
  unfoldable pub apply : AuthTransport → Request → Request
  unfolding set_header
  apply (bearer token) req = set_header (codes "Authorization") (codes "Bearer " ++ token) req
  apply (basic user_pass) req =
      set_header (codes "Authorization") (codes "Basic " ++ encode_base64 user_pass) req
  apply (license_key key) req = set_header (codes "Authorization") (codes "License " ++ key) req
  apply (session_cookie id) req = record req { cookies = (codes "Tamga-Session", id) ∷ req.cookies }
  apply (query_param token) req =
      let query = set_value (codes "token") token (parse_query req.url.raw_query) in
      record req { url = record req.url { raw_query = encode_query query } }
  apply (custom f) req = f req

  unfoldable pub build_url : Client → Bytes → Bytes
  build_url c path = c.base_url ++ (codes "/v1/accounts/" ++ (path_escape c.account_id ++ path))

  abbrev pub encode : Option Json → Result (Option Bytes)
  encode none = ok none
  encode (some v) = elim (marshal v) [
    | none ↦ err (wrap (plain (codes "encode request body")))
    | some b ↦ ok (some b)
  ]

  abbrev pub set_otp : Bytes → Request → Request
  set_otp [] req = req
  set_otp (c ∷ s) req = set_header (codes "Tamga-OTP") (c ∷ s) req

  abbrev pub set_content_type : Option Json → Request → Request
  set_content_type none req = req
  set_content_type (some v) req = set_header (codes "Content-Type") content_type_json_api req

  -- What newRequest sets on the request that http.NewRequestWithContext made.
  unfoldable pub decorate : Client → Option Json → Request → Request
  unfolding apply sanitize_version set_header
  decorate c body req =
      let r1 = apply c.auth req in
      let r2 = set_header (codes "Tamga-Version") (sanitize_version c.api_version) r1 in
      let r3 = set_otp c.otp r2 in
      let r4 = set_header (codes "User-Agent") user_agent r3 in set_content_type body r4

  -- newRequest
  unfoldable pub new_request : Client → Bytes → Bytes → Option Json → Result Request
  unfolding build_url decorate
  new_request c method path body = do
    encoded ← encode body
    url ← or_fail (parse_url (build_url c path)) (wrap (plain (codes "build request")))
    ok (
        decorate c body
          (record { method = method; url = url; headers = []; cookies = []; body = encoded }))
