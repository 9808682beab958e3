-- ===== src/Health.antt =====
-- health.go: the probe that carries no credential.
pub mod Anonymous
use tamga_go.Base.{Option, none, some, [], ◌++◌}
use tamga_go.Text.{Bytes, codes}
use tamga_go.Errors.{plain, wrap, or_fail}
use tamga_go.Http.{Env, Url, Request, get}
use tamga_go.Http.Monad.{M, ◌>>=◌, lift}
use tamga_go.Client.{Client, set_header, sanitize_version, user_agent}
use tamga_go.Client.Retry.{do_request}
use tamga_go.Client.Decode.{check_status, decode_body}
use tamga_go.Resource.{Health, Wire}

-- The request of Health: http.NewRequestWithContext's, and two headers.
unfoldable pub health_request : Client → Url → Request
unfolding set_header sanitize_version
health_request c url = set_header (codes "User-Agent") user_agent (
    set_header (codes "Tamga-Version") (sanitize_version c.api_version)
      (record { method = get; url = url; headers = []; cookies = []; body = none }))

-- Health
unfoldable pub health : Env → Wire → Client → M Health
unfolding health_request do_request check_status
health env wire c = do
  url ← lift (
      or_fail (env.parse_url (c.base_url ++ codes "/v1/health"))
        (wrap (plain (codes "build request"))))
  resp ← do_request env c (health_request c url)
  checked ← lift (check_status env resp)
  lift (decode_body env wire.health checked)
