-- ===== src/Client/Laws/Foreign.antt =====
-- client.go: the sentinels that an error of a call may match.
use tamga_go.Client.Laws.Rounds.{judge_cases}
use tamga_go.Errors.{Result-cases, Result, ok, err, GoError, Sentinel}
use tamga_go.Client.{Client, new_request}
use tamga_go.Client.Retry.{rewound, consumed, rounds, do_with, do_request, is_retryable}
use tamga_go.Base.{ℕ, zero, suc, ◌≡◌, Bool, false, Option, ◌∷◌, arith, Option-cases, inl, inr}
use tamga_go.Text.{Bytes}
use tamga_go.Json.{Json}
use tamga_go.Errors.Matching.{is_sentinel}
use tamga_go.Http.{Env, Body, Request, Response, History, HttpClient, sent, waited}
use tamga_go.Http.Monad.{bind}
use tamga_go.Client.Decode.{check_status, send, decode_json_api, decode_body}

-- An error that matches none of the SDK's own sentinels.
abbrev pub Foreign : GoError → Type 0
Foreign e = (s : Sentinel) → is_sentinel s e ≡ false

abbrev pub ForeignIn : {A : Type 0} → Result A → Type 0
ForeignIn r = (e : GoError) → r ≡ err e → Foreign e

bind-ForeignIn :
    {A B : Type 0} (p : History × Result A) (g : A → Result B)
    → ForeignIn p.1
    → ((a : A) → ForeignIn (g a))
    → ForeignIn (bind p (λ a h. (h, g a))).1
bind-ForeignIn (h, ok a) g f k = k a
bind-ForeignIn (h, err e) g f k = λ e' q. f e' (cc)

module _ (env : Env) where
  rounds-Foreign :
      (fuel attempt : ℕ) (hc : HttpClient) (retryable : Bool) (most : ℕ) (req : Request)
      (current : Option Bytes) (h : History)
      → ForeignIn (rounds env fuel attempt hc retryable most req current h).1
  unfolding rounds is_sentinel
  rounds-Foreign zero attempt hc retryable most req current h = λ e q s. ground arith
  rounds-Foreign (suc fuel) attempt hc retryable most req current h =
      let body = rewound attempt req.body current in
      let h' = sent hc (record req { body = body }) ∷ h in
      elim (Option-cases (env.exchange h')) [
        | inl n ↦ rw (n, rounds) (λ e q s. ground arith)
        | inr (resp, a) ↦
            rw (a, rounds)
              (judge_cases env (λ r. ForeignIn r.1) retryable most attempt
                (rounds env fuel (suc attempt) hc retryable most req (consumed body)) resp h'
                (λ t e q s. cc) (λ d e q s. ground arith)
                (λ d t lt.
                  rounds-Foreign fuel (suc attempt) hc retryable most req (consumed body)
                    (waited d ∷ h')))
      ]

  check_status-Foreign : (resp : Response) → ForeignIn (check_status env resp)
  unfolding check_status is_sentinel
  check_status-Foreign resp e q s = ground arith

  new_request-Foreign :
      (c : Client) (method path : Bytes) (body : Option Json)
      → ForeignIn (new_request env c method path body)
  unfolding new_request is_sentinel
  new_request-Foreign c method path body e q s = ground arith

  do_request-Foreign :
      (c : Client) (req : Request) (h : History) → ForeignIn (do_request env c req h).1
  unfolding do_request do_with
  do_request-Foreign c req h =
      rounds-Foreign (suc c.max_retries) 0 c.http_client (is_retryable req.method req.url.path)
        c.max_retries req req.body h

  send-Foreign :
      (c : Client) (method path : Bytes) (body : Option Json) (h : History)
      → ForeignIn (send env c method path body h).1
  unfolding send
  send-Foreign c method path body h = elim (Result-cases (new_request env c method path body)) [
    | inl (e, q) ↦
        rw (q, send) (λ e' q' s. ground (arith, new_request-Foreign c method path body e q s))
    | inr (req, q) ↦
        rw (q, send)
          (bind-ForeignIn (do_request env c req h) (check_status env) (do_request-Foreign c req h)
            check_status-Foreign)
  ]

  decode_body-Foreign :
      {T : Type 0} (decode : Body → Option T) (resp : Response)
      → ForeignIn (decode_body env decode resp)
  unfolding is_sentinel
  decode_body-Foreign decode resp e q s = ground arith

  -- No call of the server returns one of the SDK's own sentinels.
  pub decode_json_api-Foreign :
      {T : Type 0} (decode : Body → Option T) (c : Client) (method path : Bytes)
      (body : Option Json) (h : History)
      → ForeignIn (decode_json_api env decode c method path body h).1
  unfolding decode_json_api
  decode_json_api-Foreign decode c method path body h =
      bind-ForeignIn (send env c method path body h) (decode_body env decode)
        (send-Foreign c method path body h) (decode_body-Foreign decode)
