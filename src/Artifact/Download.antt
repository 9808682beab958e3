-- ===== src/Artifact/Download.antt =====
-- The credentials in a download: which requests carry them, and through which client.
use tamga_go.Base.{◌≡◌, refl, ◌⊎◌, inl, inr, false, none, [], ◌∷◌, Option-cases}
use tamga_go.Text.{Bytes}
use tamga_go.Http.{Env, Url, Request, Event, sent, waited, passed, History, get}
use tamga_go.Client.{Client, new_request}
use tamga_go.Client.Retry.{no_redirect_client, do_with}
use tamga_go.Client.Laws.Adding.{Adds, Adds-refl, Adds-one, bind-Adds, lift-bind-Adds, do_with-Adds}
use tamga_go.Resource.{Wire}
use tamga_go.Artifact.{
  DownloadArtifactOptions, download_query, artifact_download_url, fetch_bare, download_artifact,
  bare_request, storage_url_of, download_path,
}

-- The request carries neither a header nor a cookie nor a body.
abbrev pub IsBare : Request → Type 0
IsBare r = (r.headers ≡ []) × (r.cookies ≡ []) × (r.body ≡ none)

-- A request that could be redirected carries nothing.
abbrev pub IsGuarded : Event → Type 0
IsGuarded (sent hc r) = (hc.follows ≡ false) ⊎ IsBare r
IsGuarded (waited d) = Unit
IsGuarded (passed d) = Unit

module _ (env : Env) (wire : Wire) (c : Client) where
  artifact_download_url-Adds :
      (id : Bytes) (opts : DownloadArtifactOptions) (h : History)
      → Adds IsGuarded h (artifact_download_url env wire c id opts h).0
  unfolding artifact_download_url no_redirect_client
  artifact_download_url-Adds id opts h = lift-bind-Adds IsGuarded (download_query opts) _ h λ q.
      lift-bind-Adds IsGuarded (new_request env c get (download_path env wire c id q) none) _ h
        λ req.
          bind-Adds IsGuarded h (do_with env c (no_redirect_client c) req h) _
            (do_with-Adds IsGuarded env (no_redirect_client c) req (λ b. inl refl) (λ d. tt) c h)
            (λ resp h'. Adds-refl IsGuarded h')

  fetch_bare-Adds : (url : Url) (h : History) → Adds IsGuarded h (fetch_bare env wire c url h).0
  unfolding fetch_bare
  fetch_bare-Adds url h =
      let one =
        Adds-one IsGuarded (sent c.http_client (bare_request url)) h (inr (refl, refl, refl)) in
      elim (Option-cases (env.exchange (sent c.http_client (bare_request url) ∷ h))) [
        | inl n ↦ rw (n, fetch_bare) one
        | inr (resp, s) ↦ rw (s, fetch_bare) one
      ]

  -- However a download goes, and whatever the server answers: a request of it that goes through a
  -- client that follows redirects carries no header, no cookie and no body.
  pub download_artifact-Adds :
      (id : Bytes) (opts : DownloadArtifactOptions) (h : History)
      → Adds IsGuarded h (download_artifact env wire c id opts h).0
  unfolding download_artifact
  download_artifact-Adds id opts h =
      bind-Adds IsGuarded h (artifact_download_url env wire c id opts h) _
        (artifact_download_url-Adds id opts h)
        (λ raw h'.
          lift-bind-Adds IsGuarded (storage_url_of env wire c raw) _ h'
            (λ url. fetch_bare-Adds url h'))
