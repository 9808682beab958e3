-- ===== src/Client/Retry.antt =====
-- client.go: do, doWith and the retry rules after a 429.
use tamga_go.Base.{
  ℕ, zero, suc, ℤ, pos, negsuc, ◌+◌, ◌-◌, ◌*◌, ◌^◌, Bool, true, false, ◌&&◌, ◌||◌, not, Option,
  none, some, List, [], ◌∷◌, leb, ltb, eqb, if◌then◌else◌, half_range,
}
use tamga_go.Text.{Bytes, codes, ◌==◌, has_suffix, trim_space}
use tamga_go.Errors.{ok, err, plain, wrap, out_of_fuel}
use tamga_go.Http.{Env, Request, Response, HttpClient, sent, waited}
use tamga_go.Http.Monad.{M}
use tamga_go.Client.{Client}

abbrev pub retryable_post_suffixes : List Bytes
retryable_post_suffixes =
    codes "/actions/validate"
    ∷ codes "/actions/validate-key"
    ∷ codes "/actions/check-in"
    ∷ codes "/actions/check-out"
    ∷ codes "/actions/ping"
    ∷ codes "/actions/ping-heartbeat"
    ∷ codes "/actions/reset-heartbeat"
    ∷ []

unfoldable pub has_any_suffix : Bytes → List Bytes → Bool
unfolding has_suffix
has_any_suffix path [] = false
has_any_suffix path (suffix ∷ rest) = has_suffix path suffix || has_any_suffix path rest

unfoldable pub is_retryable : Bytes → Bytes → Bool
unfolding has_any_suffix
is_retryable method path =
    if method == codes "GET"
    then true
    else if method == codes "POST"
    then has_any_suffix path retryable_post_suffixes
    else false

-- The value of decimal digits that follow `n`, with `none` for any other byte.
unfoldable pub digits_from : ℕ → Bytes → Option ℕ
digits_from n [] = some n
digits_from n (c ∷ s) =
    let rest = digits_from (10 * n + (c - b'0')) s in
    if leb b'0' c && leb c b'9' then rest else none

abbrev digits : Bytes → Option ℕ
digits [] = none
digits (c ∷ s) = digits_from 0 (c ∷ s)

abbrev positive : Option ℕ → Option ℤ
positive none = none
positive (some n) = if ltb n half_range then some (pos n) else none

abbrev negative : Option ℕ → Option ℤ
negative none = none
negative (some zero) = some (pos 0)
negative (some (suc n)) = if ltb n half_range then some (negsuc n) else none

-- strconv.Atoi; `none` is an error.
unfoldable pub atoi : Bytes → Option ℤ
unfolding digits_from
atoi [] = none
atoi (c ∷ s) =
    if eqb c b'-'
    then negative (digits s)
    else if eqb c b'+'
    then positive (digits s)
    else positive (digits (c ∷ s))

abbrev non_negative : Option ℤ → Option ℕ
non_negative (some (pos n)) = some n
non_negative _ = none

-- parseRetryAfter; `none` is the second result false.
unfoldable pub parse_retry_after : Response → Option ℕ
unfolding atoi trim_space
parse_retry_after resp =
    let raw = trim_space (resp.header (codes "Retry-After")) in
    if raw == [] then none else non_negative (atoi raw)

abbrev pub second : ℕ
second = 1000000000

-- retryDelay, in nanoseconds; `jitter` is the drawn random number.
unfoldable pub retry_delay : ℕ → Option ℕ → ℕ → ℕ
retry_delay attempt (some secs) jitter = (if ltb 60 secs then 60 else secs) * second
retry_delay attempt none jitter = 2 ^ (if ltb 5 attempt then 5 else attempt) * second + jitter

-- A body that http.Client.Do has sent is read to its end.
abbrev pub consumed : Option Bytes → Option Bytes
consumed none = none
consumed (some b) = some []

-- req.Body at the head of a round: restored from the copy in every round but the first.
abbrev pub rewound : ℕ → Option Bytes → Option Bytes → Option Bytes
rewound (suc attempt) (some copy) current = some copy
rewound _ _ current = current

module _ (env : Env) where
  open env use {exchange, cancelled, jitter}

  -- One answer in hand: return it, or wait and go round. `again` is the next round.
  unfoldable pub judge : Bool → ℕ → ℕ → M Response → Response → M Response
  unfolding parse_retry_after retry_delay
  judge retryable most attempt again resp h =
      if not (eqb resp.status 429) || not retryable || leb most attempt
      then (h, ok resp)
      else let delay = retry_delay attempt (parse_retry_after resp) (jitter h) in
        let h' = waited delay ∷ h in
        if cancelled h' then (h', err (plain (codes "context"))) else again h'

  -- The loop of doWith. `copy` is the body read before it; `current` is what req.Body still holds.
  unfoldable pub rounds : ℕ → ℕ → HttpClient → Bool → ℕ → Request → Option Bytes → M Response
  unfolding judge
  rounds zero attempt hc retryable most req current h = (h, err out_of_fuel)
  rounds (suc fuel) attempt hc retryable most req current h =
      let body = rewound attempt req.body current in
      let h' = sent hc (record req { body = body }) ∷ h in
      elim (exchange h') [
        | none ↦ (h', err (wrap (plain (codes "request failed"))))
        | some resp ↦
            judge retryable most attempt
              (rounds fuel (suc attempt) hc retryable most req (consumed body)) resp h'
      ]

  -- doWith: most + 1 rounds are fuel enough.
  unfoldable pub do_with : Client → HttpClient → Request → M Response
  unfolding rounds is_retryable
  do_with c hc req =
      rounds (suc c.max_retries) 0 hc (is_retryable req.method req.url.path) c.max_retries req
        req.body

  unfoldable pub do_request : Client → Request → M Response
  unfolding do_with
  do_request c req = do_with c c.http_client req

-- noRedirectClient
unfoldable pub no_redirect_client : Client → HttpClient
no_redirect_client c = record c.http_client { follows = false }
