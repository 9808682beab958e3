-- ===== src/Client/Laws/Carrying.antt =====
-- client.go and transport.go: what the requests of a call carry.
use tamga_go.Base.{◌≡◌, ◌∙◌, subst, refl, Option, none, some, [], ◌∷◌, ◌++◌, inl, inr}
use tamga_go.Text.{Bytes, codes, ◌==◌}
use tamga_go.Json.{Json}
use tamga_go.Errors.{ok, or_fail, Result-cases}
use tamga_go.Errors.Laws.{bind-eq-ok, or_fail-eq-ok, ok-injective}
use tamga_go.Http.{Env, Body, Url, Request, Values, Event, sent, waited, passed, History, set_value}
use tamga_go.Client.{
  AuthTransport, bearer, basic, license_key, session_cookie, query_param, custom, Client,
  sanitize_version, user_agent, content_type_json_api, set_header, set_otp, set_content_type, apply,
  build_url, encode, decorate, new_request,
}
use tamga_go.Client.Retry.{do_request}
use tamga_go.Client.Decode.{check_status, send, decode_body, decode_json_api}
use tamga_go.Client.Laws.Adding.{Adds, Adds-refl, bind-Adds, do_with-Adds}
use tamga_go.Client.Laws.Versions.{allowed, first, sanitize_version-first}

-- One of the five transports of the SDK.
abbrev pub IsBuiltIn : AuthTransport → Type 0
IsBuiltIn (custom f) = ⊥
IsBuiltIn _ = Unit

abbrev if_given : Bytes → Option Bytes → Values
if_given k none = []
if_given k (some v) = (k, v) ∷ []

abbrev unless_empty : Bytes → Option Bytes
unless_empty [] = none
unless_empty (c ∷ s) = some (c ∷ s)

abbrev content_type : Option Json → Option Bytes
content_type none = none
content_type (some v) = some content_type_json_api

module _ (env : Env) where
  open env use {encode_base64, encode_query, parse_query, parse_url}

  abbrev authorization : AuthTransport → Option Bytes
  authorization (bearer token) = some (codes "Bearer " ++ token)
  authorization (basic user_pass) = some (codes "Basic " ++ encode_base64 user_pass)
  authorization (license_key key) = some (codes "License " ++ key)
  authorization _ = none

  abbrev cookies_of : AuthTransport → Values
  cookies_of (session_cookie id) = (codes "Tamga-Session", id) ∷ []
  cookies_of _ = []

  abbrev addressed : AuthTransport → Url → Url
  addressed (query_param token) u = record u {
    raw_query = encode_query (set_value (codes "token") token (parse_query u.raw_query));
  }
  addressed _ u = u

  -- All headers of a request, in the order in which they are set.
  abbrev headers_of : AuthTransport → Bytes → Bytes → Option Json → Values
  headers_of auth version otp body =
      if_given (codes "Authorization") (authorization auth)
      ++ ((codes "Tamga-Version", version) ∷ if_given (codes "Tamga-OTP") (unless_empty otp)
          ++ ((codes "User-Agent", user_agent)
              ∷ if_given (codes "Content-Type") (content_type body)))

  abbrev Carries : AuthTransport → Bytes → Bytes → Option Json → Bytes → Url → Request → Type 0
  Carries auth version otp body method u r =
      (r.method ≡ method)
      × (r.headers ≡ headers_of auth version otp body)
      × (r.cookies ≡ cookies_of auth)
      × (r.url ≡ addressed auth u)

  abbrev dressed : Bytes → Bytes → Option Json → Request → Request
  dressed version otp body r = set_content_type env body (
      set_header (codes "User-Agent") user_agent
        (set_otp env otp (set_header (codes "Tamga-Version") version r)))

  -- Dressing adds the headers to those that the transport set, and changes nothing else.
  dressed-headers :
      (o : Option Bytes) (version otp : Bytes) (body : Option Json) (r : Request)
      → r.headers ≡ if_given (codes "Authorization") o
      → (dressed version otp body r).headers
        ≡ if_given (codes "Authorization") o
          ++ ((codes "Tamga-Version", version) ∷ if_given (codes "Tamga-OTP") (unless_empty otp)
              ++ ((codes "User-Agent", user_agent)
                  ∷ if_given (codes "Content-Type") (content_type body)))
  unfolding set_header set_value ◌==◌
  dressed-headers none version [] none r q = rw q refl
  dressed-headers none version [] (some v) r q = rw q refl
  dressed-headers none version (c ∷ s) none r q = rw q refl
  dressed-headers none version (c ∷ s) (some v) r q = rw q refl
  dressed-headers (some x) version [] none r q = rw q refl
  dressed-headers (some x) version [] (some v) r q = rw q refl
  dressed-headers (some x) version (c ∷ s) none r q = rw q refl
  dressed-headers (some x) version (c ∷ s) (some v) r q = rw q refl

  abbrev Keeps : Request → Request → Type 0
  Keeps r r' = (r'.method ≡ r.method) × (r'.cookies ≡ r.cookies) × (r'.url ≡ r.url)

  dressed-Keeps :
      (version otp : Bytes) (body : Option Json) (r : Request)
      → Keeps r (dressed version otp body r)
  unfolding set_header
  dressed-Keeps version [] none r = (refl, refl, refl)
  dressed-Keeps version [] (some v) r = (refl, refl, refl)
  dressed-Keeps version (c ∷ s) none r = (refl, refl, refl)
  dressed-Keeps version (c ∷ s) (some v) r = (refl, refl, refl)

  abbrev bare : Bytes → Url → Option Bytes → Request
  bare method u b = record { method = method; url = u; headers = []; cookies = []; body = b }

  apply-bare :
      (auth : AuthTransport) (method : Bytes) (u : Url) (b : Option Bytes)
      → IsBuiltIn auth
      → ((apply env auth (bare method u b)).method ≡ method)
        × ((apply env auth (bare method u b)).headers
            ≡ if_given (codes "Authorization") (authorization auth))
        × ((apply env auth (bare method u b)).cookies ≡ cookies_of auth)
        × ((apply env auth (bare method u b)).url ≡ addressed auth u)
  unfolding apply set_header set_value
  apply-bare (bearer token) method u b i = (refl, refl, refl, refl)
  apply-bare (basic user_pass) method u b i = (refl, refl, refl, refl)
  apply-bare (license_key key) method u b i = (refl, refl, refl, refl)
  apply-bare (session_cookie id) method u b i = (refl, refl, refl, refl)
  apply-bare (query_param token) method u b i = (refl, refl, refl, refl)
  apply-bare (custom f) method u b i = absurd i

  dressed-Carries :
      (auth : AuthTransport) (version otp : Bytes) (body : Option Json) (method : Bytes) (u : Url)
      (b : Option Bytes)
      → IsBuiltIn auth
      → Carries auth version otp body method u
          (dressed version otp body (apply env auth (bare method u b)))
  dressed-Carries auth version otp body method u b i =
      let r = apply env auth (bare method u b) in
      let (m, hs, cs, address) = apply-bare auth method u b i in
      let (m', cs', address') = dressed-Keeps version otp body r in
      (
        m' ∙ m,
        dressed-headers (authorization auth) version otp body r hs,
        cs' ∙ cs,
        address' ∙ address,
      )

  module _ (c : Client) (method path : Bytes) (body : Option Json) where
    -- The request goes through the client's HTTP client, to the parsed URL of the account and the
    -- path, with the method and these headers and cookies, and no others.
    abbrev IsOf : Request → Type 0
    IsOf r =
        (u : Url) × (parse_url (build_url env c path) ≡ some u)
        × Carries c.auth (first 32 (allowed c.api_version)) c.otp body method u r

    abbrev pub IsSent : Event → Type 0
    IsSent (sent hc r) = (hc ≡ c.http_client) × IsOf r
    IsSent (waited d) = Unit
    IsSent (passed d) = Unit

    decorate-Carries :
        (u : Url) (b : Option Bytes)
        → IsBuiltIn c.auth
        → Carries c.auth
            (first 32 (allowed c.api_version))
            c.otp
            body
            method
            u
            (decorate env c body (bare method u b))
    unfolding decorate
    decorate-Carries u b i =
        subst (λ v. Carries c.auth v c.otp body method u (decorate env c body (bare method u b)))
          (sanitize_version-first c.api_version)
          (dressed-Carries c.auth (sanitize_version c.api_version) c.otp body method u b i)

    new_request-IsOf :
        (req : Request) → IsBuiltIn c.auth → new_request env c method path body ≡ ok req → IsOf req
    unfolding new_request
    new_request-IsOf req i q =
        let (b, _, q₁) = bind-eq-ok (encode env body) _ req q in
        let (u, parsed, q₂) = bind-eq-ok (or_fail (parse_url (build_url env c path)) _) _ req q₁ in
        (
          u,
          or_fail-eq-ok (parse_url (build_url env c path)) _ u parsed,
          subst (Carries c.auth (first 32 (allowed c.api_version)) c.otp body method u)
              (ok-injective q₂) (decorate-Carries u b i),
        )

    do_request-Adds :
        (req : Request) (h : History) → IsOf req → Adds IsSent h (do_request env c req h).0
    unfolding do_request
    do_request-Adds req h p =
        do_with-Adds IsSent env c.http_client req (λ b. (refl, p)) (λ d. tt) c h

    send-Adds : (h : History) → IsBuiltIn c.auth → Adds IsSent h (send env c method path body h).0
    unfolding send
    send-Adds h i = elim (Result-cases (new_request env c method path body)) [
      | inl (e, q) ↦ rw (q, send) (Adds-refl IsSent h)
      | inr (req, q) ↦
          rw (q, send)
            (bind-Adds IsSent h (do_request env c req h) (λ resp h'. (h', check_status env resp))
              (do_request-Adds req h (new_request-IsOf req i q)) (λ resp h'. Adds-refl IsSent h'))
    ]

    -- With one of the SDK's own transports, every request that a call sends, retries included, goes
    -- through the client's HTTP client to the URL that the base URL, the escaped account and the path
    -- make, with the method of the call. Its headers are exactly the credential, the version, of
    -- which only the first 32 letters, digits, dots and dashes are kept, the one-time password if
    -- there is one, the name of the SDK, and the content type if there is a body; a session id is
    -- its only cookie, and a token for the query is set there and nowhere else.
    pub decode_json_api-Sends :
        {T : Type 0} (decode : Body → Option T) (h : History)
        → IsBuiltIn c.auth
        → Adds IsSent h (decode_json_api env decode c method path body h).0
    unfolding decode_json_api
    decode_json_api-Sends decode h i =
        bind-Adds IsSent h (send env c method path body h)
          (λ resp h'. (h', decode_body env decode resp)) (send-Adds h i)
          (λ resp h'. Adds-refl IsSent h')
