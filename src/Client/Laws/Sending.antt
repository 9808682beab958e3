-- ===== src/Client/Laws/Sending.antt =====
-- client.go: what one call of the SDK adds to the history, and whether it comes to an end.
use tamga_go.Errors.Laws.{bind-eq-ok}
use tamga_go.Client.Laws.Rounds.{Ends, requests, repeated, do_with-Sends}
use tamga_go.Errors.{Result-cases, or_fail, Result, ok, err, plain, wrap}
use tamga_go.Client.{
  build_url, set_otp, set_content_type, encode, Client, apply, decorate, new_request, set_header,
}
use tamga_go.Client.Retry.{do_request, is_retryable}
use tamga_go.Base.{
  ℕ, zero, suc, ◌+◌, ◌≤◌, ◌≡◌, ◌≢◌, ◌∙◌, refl, false, Option, none, some, List, [], ◌∷◌, arith,
  if◌then◌else◌, inl, inr,
}
use tamga_go.Text.{Bytes, codes, ◌==◌}
use tamga_go.Text.Laws.{==_iff}
use tamga_go.Json.{Json}
use tamga_go.Http.{Env, Body, Request, Response, History}
use tamga_go.Http.Monad.{bind}
use tamga_go.Client.Decode.{check_status, send, decode_json_api, do_no_content, decode_body}

-- How many of the requests have a method.
unfoldable pub count_method : Bytes → List Request → ℕ
count_method m [] = 0
count_method m (r ∷ rs) = if r.method == m then suc (count_method m rs) else count_method m rs

count_method-repeated :
    (m : Bytes) (n : ℕ) (req : Request) (rs : List Request)
    → count_method m (repeated n req rs)
      ≡ (if req.method == m then n + count_method m rs else count_method m rs)
unfolding count_method
count_method-repeated m zero req rs = ground arith
count_method-repeated m (suc n) req rs = ground (arith, count_method-repeated m n req rs)

bind-keeps-history :
    {A B : Type 0} (p : History × Result A) (g : A → Result B) → (bind p (λ a h. (h, g a))).0 ≡ p.0
bind-keeps-history (h, ok a) g = refl
bind-keeps-history (h, err e) g = refl

module _ (env : Env) where
  -- Every built-in transport does; a caller's own might not.
  abbrev pub KeepsMethod : Client → Type 0
  KeepsMethod c = (req : Request) → (apply env c.auth req).method ≡ req.method

  set_otp-method : (otp : Bytes) (req : Request) → (set_otp env otp req).method ≡ req.method
  unfolding set_header
  set_otp-method [] req = refl
  set_otp-method (c ∷ s) req = refl

  set_content_type-method :
      (body : Option Json) (req : Request) → (set_content_type env body req).method ≡ req.method
  unfolding set_header
  set_content_type-method none req = refl
  set_content_type-method (some v) req = refl

  decorate-method :
      (c : Client) (body : Option Json) (req : Request)
      → KeepsMethod c
      → (decorate env c body req).method ≡ req.method
  unfolding decorate set_header
  decorate-method c body req k = set_content_type-method body _ ∙ (set_otp-method c.otp _ ∙ k req)

  new_request-method :
      (c : Client) (method path : Bytes) (body : Option Json) {req : Request}
      → KeepsMethod c
      → new_request env c method path body ≡ ok req
      → req.method ≡ method
  unfolding new_request
  new_request-method c method path body {req = req} k e =
      let (encoded, _, e') = bind-eq-ok (encode env body) _ req e in
      let (url, _, e'') =
        bind-eq-ok
          (or_fail (env.parse_url (build_url env c path)) (wrap (plain (codes "build request")))) _
          req e' in
      cc (
        decorate-method c body
          (record { method = method; url = url; headers = []; cookies = []; body = encoded }) k)

  do_request-count :
      (c : Client) (req : Request) (m : Bytes) (h : History)
      → (req.method ≢ m
          → count_method m (requests (do_request env c req h).0) ≡ count_method m (requests h))
        × (((p : Bytes) → is_retryable req.method p ≡ false)
            → count_method m (requests (do_request env c req h).0)
              ≤ suc (count_method m (requests h)))
  unfolding do_request
  do_request-count c req m h =
      let (n, sends, low, high, once, _, _) = do_with-Sends env c c.http_client req h in
      rw (sends, count_method-repeated m n req (requests h))
        ((λ d. ground (arith, ==_iff req.method m)), λ r. ground (arith, once (r req.url.path)))

  module _ (c : Client) (method path : Bytes) (body : Option Json) (k : KeepsMethod c) where
    -- A call sends requests of its own method alone, and only one if that is not to be retried.
    pub send-count :
        (m : Bytes) (h : History)
        → (method ≢ m
            → count_method m (requests (send env c method path body h).0)
              ≡ count_method m (requests h))
          × (((p : Bytes) → is_retryable method p ≡ false)
              → count_method m (requests (send env c method path body h).0)
                ≤ suc (count_method m (requests h)))
    unfolding send
    send-count m h = elim (Result-cases (new_request env c method path body)) [
      | inl (e, q) ↦ rw (q, send) ((λ d. refl), λ r. omega arith)
      | inr (req, q) ↦
          let same : req.method ≡ method = new_request-method c method path body k q in
          rw (q, send)
            (rw (bind-keeps-history (do_request env c req h) (check_status env), ← same)
              (do_request-count c req m h))
    ]

    decode_json_api-history :
        {T : Type 0} (decode : Body → Option T) (h : History)
        → (decode_json_api env decode c method path body h).0 ≡ (send env c method path body h).0
    unfolding decode_json_api
    decode_json_api-history decode h =
        bind-keeps-history (send env c method path body h) (decode_body env decode)

    pub decode_json_api-count :
        {T : Type 0} (decode : Body → Option T) (m : Bytes) (h : History)
        → method ≢ m
        → count_method m (requests (decode_json_api env decode c method path body h).0)
          ≡ count_method m (requests h)
    decode_json_api-count decode m h d =
        rw (decode_json_api-history decode h) ((send-count m h).0 d)

  pub do_no_content-count :
      (c : Client) (method path m : Bytes) (h : History)
      → KeepsMethod c
      → ((p : Bytes) → is_retryable method p ≡ false)
      → count_method m (requests (do_no_content env c method path h).0)
        ≤ suc (count_method m (requests h))
  unfolding do_no_content
  do_no_content-count c method path m h k r =
      rw (bind-keeps-history (send env c method path none h) (λ resp. ok tt))
        ((send-count c method path none k m h).1 r)

  pub bind-Ends :
      {A B : Type 0} (p : History × Result A) (g : A → Result B)
      → Ends p.1
      → ((a : A) → Ends (g a))
      → Ends (bind p (λ a h. (h, g a))).1
  bind-Ends (h, ok a) g f k = k a
  bind-Ends (h, err e) g f k = λ q. f (cc)

  new_request-Ends :
      (c : Client) (method path : Bytes) (body : Option Json)
      → Ends (new_request env c method path body)
  unfolding new_request
  new_request-Ends c method path body q = ground arith

  check_status-Ends : (resp : Response) → Ends (check_status env resp)
  unfolding check_status
  check_status-Ends resp q = ground arith

  send-Ends :
      (c : Client) (method path : Bytes) (body : Option Json) (h : History)
      → Ends (send env c method path body h).1
  unfolding send do_request
  send-Ends c method path body h = elim (Result-cases (new_request env c method path body)) [
    | inl (e, q) ↦ rw (q, send) (λ x. new_request-Ends c method path body (cc))
    | inr (req, q) ↦
        rw (q, send)
          (bind-Ends (do_request env c req h) (check_status env)
            (do_with-Sends env c c.http_client req h).5 check_status-Ends)
  ]

  decode_body-Ends :
      {T : Type 0} (decode : Body → Option T) (resp : Response) → Ends (decode_body env decode resp)
  decode_body-Ends decode resp q = ground arith

  -- A call of the server always comes to an end: its retry loop has fuel enough.
  pub decode_json_api-Ends :
      {T : Type 0} (decode : Body → Option T) (c : Client) (method path : Bytes)
      (body : Option Json) (h : History)
      → Ends (decode_json_api env decode c method path body h).1
  unfolding decode_json_api
  decode_json_api-Ends decode c method path body h =
      bind-Ends (send env c method path body h) (decode_body env decode)
        (send-Ends c method path body h) (decode_body-Ends decode)
