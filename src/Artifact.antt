-- ===== src/Artifact.antt =====
-- artifact.go: the artifacts of a release, and how their bytes are fetched from the storage host.
pub mod Download
use tamga_go.Base.{
  ◌||◌, ℕ, zero, suc, ℤ, pos, negsuc, ◌*◌, ◌/◌, Bool, ◌&&◌, not, Option, none, some, List, [], ◌∷◌,
  ◌++◌, leb, ltb, if◌then◌else◌,
}
use tamga_go.Text.{Bytes, codes, ◌==◌}
use tamga_go.Text.Decimal.{itoa}
use tamga_go.Errors.{Result, ok, err, api, plain, wrap, or_fail}
use tamga_go.Errors
use tamga_go.Http.{Env, Body, Url, Request, Response, Values, sent, get, set_value, is_success}
use tamga_go.Http.Monad.{M, ◌>>=◌, bind, pure, lift}
use tamga_go.Client.{Client, new_request}
use tamga_go.Client.Retry.{second, do_with, no_redirect_client}
use tamga_go.Client.Decode.{decode_json_api, decode_body, map_error}
use tamga_go.Resource.{Artifact, Wire}
use tamga_go.Machine.Read.{effective_page_limit}
use tamga_go.Machine.Parts.{ListOptions, Page, paged, page_query}

-- ArtifactDownloadTTLMin and ArtifactDownloadTTLMax, in nanoseconds
abbrev pub artifact_download_ttl_min : ℕ
artifact_download_ttl_min = 60 * second

abbrev pub artifact_download_ttl_max : ℕ
artifact_download_ttl_max = 7 * 24 * 3600 * second

-- The duration is in nanoseconds.
pub record DownloadArtifactOptions : Type 0 where
  pub ttl : ℤ

abbrev redirect_false : Values
redirect_false = (codes "redirect", codes "false") ∷ []

abbrev ttl_refused : Result Values
ttl_refused = err (plain (codes "DownloadArtifactOptions.TTL must be between"))

-- The nanoseconds are not 0 and not negative.
abbrev ttl_query : ℕ → Result Values
ttl_query n =
    let secs = n / second in
    if ltb n artifact_download_ttl_min
    then ttl_refused
    else if ltb artifact_download_ttl_max (secs * second)
    then ttl_refused
    else ok (set_value (codes "ttl") (itoa (pos secs)) redirect_false)

-- DownloadArtifactOptions.query
unfoldable pub download_query : DownloadArtifactOptions → Result Values
unfolding itoa set_value
download_query o = elim o.ttl [
  | pos n ↦ elim n [ zero ↦ ok redirect_false | suc m ↦ ttl_query (suc m) ]
  | negsuc n ↦ ttl_refused
]

-- 300 <= status < 400
abbrev is_redirect : ℕ → Bool
is_redirect status = leb 300 status && ltb status 400

-- The request that http.NewRequestWithContext makes, with nothing added.
abbrev pub bare_request : Url → Request
bare_request url = record { method = get; url = url; headers = []; cookies = []; body = none }

module _ (env : Env) (wire : Wire) (c : Client) where
  open env use {encode_query, path_escape, parse_url, exchange}

  -- ListReleaseArtifacts; `ok none` is a panic.
  unfoldable pub list_release_artifacts : Bytes → ListOptions → M (Option (Page Artifact))
  unfolding decode_json_api paged effective_page_limit
  list_release_artifacts release_id opts h =
      bind
        (decode_json_api env wire.artifacts c get
          (codes "/releases/"
            ++ (path_escape release_id ++ (codes "/artifacts?" ++ encode_query (page_query opts))))
          none h)
        (λ items. pure (paged (λ x. x.id) (effective_page_limit opts.limit) items))

  -- GetArtifact
  unfoldable pub get_artifact : Bytes → M Artifact
  unfolding decode_json_api
  get_artifact artifact_id =
      decode_json_api env wire.artifact c get (codes "/artifacts/" ++ path_escape artifact_id) none

  abbrev location_of : Response → Result Bytes
  location_of resp =
      let location = resp.header (codes "Location") in
      if location == []
      then err (plain (codes "download action answered with no Location header"))
      else ok location

  abbrev no_redirect_url : Result Bytes
  no_redirect_url = err (plain (codes "download action returned no redirectUrl"))

  abbrev redirect_url_of : Result Artifact → Result Bytes
  redirect_url_of (err e) = err e
  redirect_url_of (ok artifact) = elim artifact.attributes.redirect_url [
    | none ↦ no_redirect_url
    | some url ↦ if url == [] then no_redirect_url else ok url
  ]

  -- What ArtifactDownloadURL reads from the response.
  unfoldable pub storage_url : Response → Result Bytes
  unfolding map_error
  storage_url resp =
      if is_redirect resp.status
      then location_of resp
      else if is_success resp.status
      then redirect_url_of (decode_body env wire.artifact resp)
      else err (api (map_error env resp))

  abbrev download_path : Bytes → Values → Bytes
  download_path artifact_id q =
      codes "/artifacts/"
      ++ (path_escape artifact_id ++ (codes "/actions/download?" ++ encode_query q))

  -- ArtifactDownloadURL
  unfoldable pub artifact_download_url : Bytes → DownloadArtifactOptions → M Bytes
  unfolding download_query new_request do_with no_redirect_client storage_url
  artifact_download_url artifact_id opts = do
    q ← lift (download_query opts)
    req ← lift (new_request env c get (download_path artifact_id q) none)
    resp ← do_with env c (no_redirect_client c) req
    lift (storage_url resp)

  abbrev is_web : Bytes → Bool
  is_web scheme = scheme == codes "http" || scheme == codes "https"

  abbrev storage_url_of : Bytes → Result Url
  storage_url_of raw =
      Errors.◌>>=◌ (or_fail (parse_url raw) (wrap (plain (codes "parse artifact download URL"))))
        (λ parsed.
          if not (is_web parsed.scheme)
          then err (plain (codes "refusing to fetch artifact from a URL"))
          else ok parsed)

  abbrev storage_body : Response → Result Body
  storage_body resp =
      if is_success resp.status
      then ok resp.body
      else err (plain (codes "artifact storage returned"))

  -- c.httpClient.Do, which does not retry, and the check of what it returns.
  unfoldable pub fetch_bare : Url → M Body
  fetch_bare url h =
      let h' = sent c.http_client (bare_request url) ∷ h in
      elim (exchange h') [
        | none ↦ (h', err (wrap (plain (codes "request failed"))))
        | some resp ↦ (h', storage_body resp)
      ]

  -- DownloadArtifact
  unfoldable pub download_artifact : Bytes → DownloadArtifactOptions → M Body
  unfolding artifact_download_url fetch_bare
  download_artifact artifact_id opts = do
    raw ← artifact_download_url artifact_id opts
    parsed ← lift (storage_url_of raw)
    fetch_bare parsed
