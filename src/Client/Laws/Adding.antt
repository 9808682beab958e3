-- ===== src/Client/Laws/Adding.antt =====
-- The events that a call adds to the history, as a predicate on events that all of them meet.
use tamga_go.Base.{
  ℕ, zero, suc, ◌≡◌, ◌∙◌, refl, ap, Bool, Option, List, [], ◌∷◌, ◌++◌, All, Option-cases, inl, inr,
}
use tamga_go.Text.{Bytes}
use tamga_go.Json.{Json}
use tamga_go.Errors.{Result, ok, err, Result-cases}
use tamga_go.Http.{Env, Body, Request, HttpClient, Event, sent, waited, History}
use tamga_go.Http.Monad.{M, bind, lift}
use tamga_go.Client.{Client, new_request}
use tamga_go.Client.Retry.{rewound, consumed, is_retryable, rounds, do_with, do_request}
use tamga_go.Client.Decode.{check_status, send, decode_json_api, decode_body}
use tamga_go.Client.Laws.Rounds.{judge_cases}

-- The second history is the first with newer events, each of which meets the predicate.
abbrev pub Adds : (Event → Type 0) → History → History → Type 0
Adds P h h' = (es : List Event) × (h' ≡ es ++ h) × All P es

-- The second history continues the first.
abbrev pub Extends : History → History → Type 0
Extends h h' = Adds (λ e. Unit) h h'

module _ (P : Event → Type 0) where
  pub Adds-refl : (h : History) → Adds P h h
  Adds-refl h = ([], refl, tt)

  append-All : (es fs : List Event) → All P es → All P fs → All P (es ++ fs)
  append-All [] fs a b = b
  append-All (e ∷ es) fs a b = (a.0, append-All es fs a.1 b)

  append-append : (es fs h : List Event) → es ++ (fs ++ h) ≡ (es ++ fs) ++ h
  append-append [] fs h = refl
  append-append (e ∷ es) fs h = ap (λ t. e ∷ t) (append-append es fs h)

  pub Adds-trans : (h h' h'' : History) → Adds P h h' → Adds P h' h'' → Adds P h h''
  Adds-trans h h' h'' (es, q, a) (fs, r, b) =
      (fs ++ es, r ∙ ap (λ t. fs ++ t) q ∙ append-append fs es h, append-All fs es b a)

  pub Adds-one : (e : Event) (h : History) → P e → Adds P h (e ∷ h)
  Adds-one e h p = (e ∷ [], refl, (p, tt))

  pub bind-Adds :
      {A B : Type 0} (h : History) (r : History × Result A) (f : A → M B)
      → Adds P h r.0
      → ((a : A) (h' : History) → Adds P h' (f a h').0)
      → Adds P h (bind r f).0
  bind-Adds h (h', ok a) f x go = Adds-trans h h' (f a h').0 x (go a h')
  bind-Adds h (h', err e) f x go = x

  pub lift-bind-Adds :
      {A B : Type 0} (r : Result A) (f : A → M B) (h : History)
      → ((a : A) → Adds P h (f a h).0)
      → Adds P h (bind (lift r h) f).0
  lift-bind-Adds (ok a) f h go = go a
  lift-bind-Adds (err e) f h go = Adds-refl h

  module _ (env : Env) (hc : HttpClient) (req : Request)
      (sends : (b : Option Bytes) → P (sent hc (record req { body = b })))
      (waits : (d : ℕ) → P (waited d)) where
    rounds-Adds :
        (fuel attempt : ℕ) (retryable : Bool) (most : ℕ) (current : Option Bytes) (h : History)
        → Adds P h (rounds env fuel attempt hc retryable most req current h).0
    unfolding rounds
    rounds-Adds zero attempt retryable most current h = Adds-refl h
    rounds-Adds (suc fuel) attempt retryable most current h =
        let body = rewound attempt req.body current in
        let h' = sent hc (record req { body = body }) ∷ h in
        let one = Adds-one (sent hc (record req { body = body })) h (sends body) in
        elim (Option-cases (env.exchange h')) [
          | inl n ↦ rw (n, rounds) one
          | inr (resp, s) ↦
              rw (s, rounds)
                (judge_cases env (λ r. Adds P h r.0) retryable most attempt
                  (rounds env fuel (suc attempt) hc retryable most req (consumed body)) resp h'
                  (λ t. one)
                  (λ d. Adds-trans h h' (waited d ∷ h') one (Adds-one (waited d) h' (waits d)))
                  (λ d t lt.
                    Adds-trans h (waited d ∷ h')
                      (rounds env fuel (suc attempt) hc retryable most req (consumed body)
                        (waited d ∷ h')).0
                      (Adds-trans h h' (waited d ∷ h') one (Adds-one (waited d) h' (waits d)))
                      (rounds-Adds fuel (suc attempt) retryable most (consumed body)
                        (waited d ∷ h'))))
        ]

    pub do_with-Adds : (c : Client) (h : History) → Adds P h (do_with env c hc req h).0
    unfolding do_with
    do_with-Adds c h =
        rounds-Adds (suc c.max_retries) 0 (is_retryable req.method req.url.path) c.max_retries
          req.body h

module _ (env : Env) (c : Client) where
  abbrev Anything : Event → Type 0
  Anything e = Unit

  pub do_request-Extends : (req : Request) (h : History) → Extends h (do_request env c req h).0
  unfolding do_request
  do_request-Extends req h = do_with-Adds Anything env c.http_client req (λ b. tt) (λ d. tt) c h

  pub send-Extends :
      (method path : Bytes) (body : Option Json) (h : History)
      → Extends h (send env c method path body h).0
  unfolding send
  send-Extends method path body h = elim (Result-cases (new_request env c method path body)) [
    | inl (e, q) ↦ rw (q, send) (Adds-refl Anything h)
    | inr (req, q) ↦
        rw (q, send)
          (bind-Adds Anything h (do_request env c req h) (λ resp h'. (h', check_status env resp))
            (do_request-Extends req h) (λ resp h'. Adds-refl Anything h'))
  ]

  -- A call of the server only adds events to the history.
  pub decode_json_api-Extends :
      {T : Type 0} (decode : Body → Option T) (method path : Bytes) (body : Option Json)
      (h : History)
      → Extends h (decode_json_api env decode c method path body h).0
  unfolding decode_json_api
  decode_json_api-Extends decode method path body h =
      bind-Adds Anything h (send env c method path body h)
        (λ resp h'. (h', decode_body env decode resp)) (send-Extends method path body h)
        (λ resp h'. Adds-refl Anything h')
