-- ===== src/Health/Anonymous.antt =====
-- health.go: what the requests of the probe carry.
use tamga_go.Base.{◌≡◌, refl, ◌∷◌, [], ◌++◌}
use tamga_go.Text.{Bytes, codes, ◌==◌}
use tamga_go.Errors.{or_fail}
use tamga_go.Http.{Env, Url, Event, sent, waited, passed, History, set_value}
use tamga_go.Client.{Client, AuthTransport, sanitize_version, user_agent, set_header}
use tamga_go.Client.Retry.{do_with, do_request}
use tamga_go.Client.Decode.{check_status}
use tamga_go.Client.Laws.Adding.{Adds, Adds-refl, bind-Adds, lift-bind-Adds, do_with-Adds}
use tamga_go.Resource.{Wire}
use tamga_go.Health.{health, health_request}

-- The request names the version of the API and the SDK, and carries nothing else.
abbrev pub IsAnonymous : Client → Event → Type 0
IsAnonymous c (sent hc r) =
    (hc ≡ c.http_client)
    × (r.headers
        ≡ (codes "Tamga-Version", sanitize_version c.api_version)
          ∷ (codes "User-Agent", user_agent)
          ∷ [])
    × (r.cookies ≡ [])
IsAnonymous c (waited d) = Unit
IsAnonymous c (passed d) = Unit

headers-health_request :
    (c : Client) (url : Url)
    → (health_request c url).headers
      ≡ (codes "Tamga-Version", sanitize_version c.api_version)
        ∷ (codes "User-Agent", user_agent)
        ∷ []
unfolding health_request set_header set_value ◌==◌
headers-health_request c url = refl

-- Whatever the client authenticates with, and whatever its one-time password: every request of
-- Health, retries included, carries the version and the name of the SDK and nothing else; and the
-- answer is the one of any client with another credential and the same base URL.
pub health-IsAnonymous :
    (env : Env) (wire : Wire) (c : Client) (auth : AuthTransport) (otp : Bytes) (h : History)
    → Adds (IsAnonymous c) h (health env wire c h).0
      × (health env wire (record { auth = auth; settings = record c.settings { otp = otp } }) h
          ≡ health env wire c h)
unfolding health health_request do_request do_with
health-IsAnonymous env wire c auth otp h = (
  lift-bind-Adds (IsAnonymous c) (or_fail (env.parse_url (c.base_url ++ codes "/v1/health")) _) _ h
      (λ url.
        bind-Adds (IsAnonymous c) h (do_request env c (health_request c url) h) _
          (do_with-Adds (IsAnonymous c) env c.http_client (health_request c url)
            (λ b. (refl, headers-health_request c url, refl)) (λ d. tt) c h)
          (λ resp h'.
            lift-bind-Adds (IsAnonymous c) (check_status env resp) _ h'
              (λ checked. Adds-refl (IsAnonymous c) h'))),
  refl,
)
