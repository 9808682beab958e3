-- ===== src/Client/Laws/Rounds.antt =====
-- The retry loop of doWith: it ends, how often it sends, what it sends, and how long it waits.
use tamga_go.Client.Retry.{
  is_retryable, do_with, second, parse_retry_after, retry_delay, judge, rounds, rewound, consumed,
}
use tamga_go.Base.{
  ltb, ◌^◌, ◌*◌, leb, ◌||◌, eqb, not, Bool-cases, inr, inl, ◌<◌, Option-cases, sym, subst, arith,
  ◌+◌, ◌∙◌, true, if◌then◌else◌, ℕ, zero, suc, ◌≤◌, ◌≡◌, ◌≢◌, refl, Bool, false, Option, none, some,
  List, [], ◌∷◌, ap,
}
use tamga_go.Text.{codes, Bytes}
use tamga_go.Errors.{plain, ok, Result, err, out_of_fuel}
use tamga_go.Http.{HttpClient, Env, Request, Response, sent, waited, passed, History}
use tamga_go.Client.{Client}
use Prim.Native.Nat.{min}
use tamga_go.Http.Monad.{M}

-- The requests of a history, newest first.
abbrev pub requests : History → List Request
requests [] = []
requests (sent hc req ∷ h) = req ∷ requests h
requests (waited n ∷ h) = requests h
requests (passed n ∷ h) = requests h

-- What is left to read of req.Body before a round is its whole, but for the round's own rewinding.
abbrev Ready : ℕ → Request → Option Bytes → Type 0
Ready attempt req current = rewound attempt req.body current ≡ req.body

Ready-next : (attempt : ℕ) (req : Request) → Ready (suc attempt) req (consumed req.body)
Ready-next attempt req = go req.body
  where
    go : (b : Option Bytes) → rewound (suc attempt) b (consumed b) ≡ b
    go none = refl
    go (some b) = refl

-- `n` copies of one request in front of a history's.
abbrev pub repeated : ℕ → Request → List Request → List Request
repeated zero req rs = rs
repeated (suc n) req rs = req ∷ repeated n req rs

abbrev pub Ends : {A : Type 0} → Result A → Type 0
Ends r = r ≢ err out_of_fuel

repeated_suc :
    (n : ℕ) (req : Request) (rs : List Request)
    → repeated n req (req ∷ rs) ≡ req ∷ repeated n req rs
repeated_suc zero req rs = refl
repeated_suc (suc n) req rs = ap (λ t. req ∷ t) (repeated_suc n req rs)

-- What the loop makes of a history, said of its outcome `r` from `h` with `left` rounds allowed.
abbrev pub Sends : ℕ → Bool → Request → History → History × Result Response → Type 0
Sends left retryable req h r =
    (n : ℕ) × (requests r.0 ≡ repeated n req (requests h))
    × (1 ≤ n)
    × (n ≤ left)
    × (retryable ≡ false → n ≡ 1)
    × Ends r.1
    × ((resp : Response) → r.1 ≡ ok resp → resp.status ≡ 429 → retryable ≡ true → n ≡ left)

module _ (env : Env) where
  open env use {exchange, cancelled, jitter}

  -- The three ways out of one round, for a property of the outcome.
  pub judge_cases :
      (P : History × Result Response → Type 0) (retryable : Bool) (most attempt : ℕ)
      (again : M Response) (resp : Response) (h : History)
      → ((not (eqb resp.status 429) || not retryable || leb most attempt) ≡ true → P (h, ok resp))
      → ((d : ℕ) → P (waited d ∷ h, err (plain (codes "context"))))
      → ((d : ℕ) → retryable ≡ true → attempt < most → P (again (waited d ∷ h)))
      → P (judge env retryable most attempt again resp h)
  unfolding judge
  judge_cases P retryable most attempt again resp h stop ended go =
      elim (Bool-cases (not (eqb resp.status 429) || not retryable || leb most attempt)) [
        | inl e ↦ rw e (stop e)
        | inr e ↦ rw e (
            let d = retry_delay attempt (parse_retry_after resp) (jitter h) in
            elim (Bool-cases (cancelled (waited d ∷ h))) [
              | inl c ↦ rw c (ended d)
              | inr c ↦ rw c (go d (ground arith) (ground arith))
            ])
      ]

  Sends-suc :
      (left : ℕ) (retryable : Bool) (req : Request) (h h' : History) (r : History × Result Response)
      → requests h' ≡ req ∷ requests h
      → retryable ≡ true
      → Sends left retryable req h' r
      → Sends (suc left) retryable req h r
  Sends-suc left retryable req h h' r e t (n, sends, low, high, _, ends, spent) = (
    suc n,
    sends ∙ ap (repeated n req) e ∙ repeated_suc n req (requests h),
    omega arith,
    omega arith,
    λ f. cc,
    ends,
    λ resp q st rt. ap suc (spent resp q st rt),
  )

  rounds-Sends :
      (fuel attempt : ℕ) (hc : HttpClient) (retryable : Bool) (most : ℕ) (req : Request)
      (current : Option Bytes) (h : History)
      → fuel + attempt ≡ suc most
      → attempt ≤ most
      → Ready attempt req current
      → Sends fuel retryable req h (rounds env fuel attempt hc retryable most req current h)
  unfolding rounds
  rounds-Sends zero attempt hc retryable most req current h e le ready = absurd (omega arith)
  rounds-Sends (suc fuel) attempt hc retryable most req current h e le ready =
      let body = rewound attempt req.body current in
      let h' = sent hc (record req { body = body }) ∷ h in
      let one : requests h' ≡ req ∷ requests h =
        ap (λ b. record req { body = b } ∷ requests h) ready in
      let next : Ready (suc attempt) req (consumed body) =
        subst (λ b. Ready (suc attempt) req (consumed b)) (sym ready) (Ready-next attempt req) in
      elim (Option-cases (exchange h')) [
        | inl n ↦ rw (n, rounds) (1, one, omega arith, omega arith, λ f. refl, (λ x. cc), λ a q. cc)
        | inr (resp, s) ↦
            rw (s, rounds)
              (judge_cases (Sends (suc fuel) retryable req h) retryable most attempt
                (rounds env fuel (suc attempt) hc retryable most req (consumed body)) resp h'
                (λ t. (
                  1,
                  one,
                  omega arith,
                  omega arith,
                  λ f. refl,
                  (λ x. cc),
                  λ a q st rt. ground arith,
                ))
                (λ d. (1, one, omega arith, omega arith, λ f. refl, (λ x. cc), λ a q. cc))
                (λ d t lt.
                  Sends-suc fuel retryable req h (waited d ∷ h')
                    (rounds env fuel (suc attempt) hc retryable most req (consumed body)
                      (waited d ∷ h'))
                    one t
                    (rounds-Sends fuel (suc attempt) hc retryable most req (consumed body)
                      (waited d ∷ h') (omega arith) lt next)))
      ]

  -- A call of doWith sends its request unchanged, body included, at least once and at most
  -- max_retries + 1 times, and exactly once if its method and path are not retryable. The loop
  -- always ends. A 429 of a retryable request is returned only when every round has been used.
  pub do_with-Sends :
      (c : Client) (hc : HttpClient) (req : Request) (h : History)
      → Sends
          (suc c.max_retries)
          (is_retryable req.method req.url.path)
          req
          h
          (do_with env c hc req h)
  unfolding do_with
  do_with-Sends c hc req h =
      rounds-Sends (suc c.max_retries) 0 hc (is_retryable req.method req.url.path) c.max_retries req
        req.body h (omega arith) (omega arith) refl

pow-le_32 : (m : ℕ) → m ≤ 5 → 2 ^ m ≤ 32
pow-le_32 zero h = omega arith
pow-le_32 (suc zero) h = omega arith
pow-le_32 (suc (suc zero)) h = omega arith
pow-le_32 (suc (suc (suc zero))) h = omega arith
pow-le_32 (suc (suc (suc (suc zero)))) h = omega arith
pow-le_32 (suc (suc (suc (suc (suc zero))))) h = omega arith
pow-le_32 (suc (suc (suc (suc (suc (suc m)))))) h = absurd (omega arith)

capped-min : (attempt : ℕ) → (if ltb 5 attempt then 5 else attempt) ≡ min attempt 5
capped-min attempt = ground arith

-- With a random number of less than a second: a wait is at most 60 seconds. With no usable
-- Retry-After it is the power of two of the attempt, up to 32 seconds, and less than a second more;
-- with one it is what the header asks for, up to 60 seconds.
pub retry_delay_bounds :
    (attempt : ℕ) (after : Option ℕ) (jitter : ℕ)
    → jitter < second
    → (retry_delay attempt after jitter ≤ 60 * second)
      × (after ≡ none → 2 ^ min attempt 5 * second ≤ retry_delay attempt after jitter)
      × (after ≡ none → retry_delay attempt after jitter < 2 ^ min attempt 5 * second + second)
      × ((secs : ℕ) → after ≡ some secs → retry_delay attempt after jitter ≡ min secs 60 * second)
unfolding retry_delay
retry_delay_bounds attempt (some secs) jitter h =
    (ground arith, (λ e. cc), (λ e. cc), λ s e. ground arith)
retry_delay_bounds attempt none jitter h = rw (capped-min attempt) (
    let small = pow-le_32 (min attempt 5) (omega arith) in
    (omega arith, (λ e. omega arith), (λ e. omega arith), λ s e. cc))
