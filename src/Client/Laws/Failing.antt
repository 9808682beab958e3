-- ===== src/Client/Laws/Failing.antt =====
-- The error of a call whose response is not a success.
use mathlib.Core.Bool.{true≢false}
use tamga_go.Base.{
  Bool, if◌then◌else◌, ◌∙◌, sym, subst, some, Option-cases, ◌≡◌, ◌⊎◌, inl, inr, refl, false,
  Bool-cases, Option, List, [], ◌∷◌,
}
use tamga_go.Errors.{
  Result-cases, ok, err, api, Error, ApiError, new_api_error_from_response, unreadable_error,
}
use tamga_go.Http.{WireError, Env, Body, Request, Response, History, is_success}
use tamga_go.Errors.Laws.{bind-eq-ok, ok-injective}
use tamga_go.Client.Decode.{
  unmarshal_error, unmarshal_all, map_error, check_status, send, decode_json_api, decoded_errors,
  api_error_of,
}
use tamga_go.Text.{Bytes, codes}
use tamga_go.Json.{Json}
use tamga_go.Client.{Client, new_request, response_info_from_header}
use tamga_go.Client.Retry.{do_request}

module _ (env : Env) where
  -- Each of the error objects is read without an error.
  abbrev pub AllRead : List WireError → List Error → Type 0
  AllRead [] [] = Unit
  AllRead (w ∷ ws) (e ∷ es) = (unmarshal_error env w ≡ ok e) × AllRead ws es
  AllRead _ _ = ⊥

  -- The body is read to its end, it is a list of error objects that are all read, and `e` is the
  -- first of them.
  abbrev pub IsFirst : Response → Error → Type 0
  IsFirst resp e =
      (resp.body.broken ≡ false)
      × ((ws : List WireError) × (es : List Error) × (env.unmarshal_errors resp.body.bytes
            ≡ some ws)
          × AllRead ws (e ∷ es))

  -- The error has the status and the metadata of the response; it is the first error object of the
  -- body, and UNKNOWN exactly where there is none that can be read.
  abbrev pub Describes : Response → ApiError → Type 0
  Describes resp a =
      (a.http_status ≡ resp.status)
      × (a.response ≡ response_info_from_header resp.header)
      × (IsFirst resp a.err ⊎ (((e : Error) → ¬ IsFirst resp e) × (a.err.code ≡ codes "UNKNOWN")))

  unmarshal_all-eq-ok :
      (ws : List WireError) (es : List Error) → unmarshal_all env ws ≡ ok es → AllRead ws es
  unfolding unmarshal_all
  unmarshal_all-eq-ok [] [] q = tt
  unmarshal_all-eq-ok [] (e ∷ es) q = absurd (cc)
  unmarshal_all-eq-ok (w ∷ ws) es q =
      let (e, read, q₁) = bind-eq-ok (unmarshal_error env w) _ es q in
      let (rest, more, q₂) = bind-eq-ok (unmarshal_all env ws) _ es q₁ in
      subst (AllRead (w ∷ ws)) (ok-injective q₂) (read, unmarshal_all-eq-ok ws rest more)

  unmarshal_all-of_AllRead :
      (ws : List WireError) (es : List Error) → AllRead ws es → unmarshal_all env ws ≡ ok es
  unfolding unmarshal_all
  unmarshal_all-of_AllRead [] [] a = refl
  unmarshal_all-of_AllRead [] (e ∷ es) a = absurd a
  unmarshal_all-of_AllRead (w ∷ ws) [] a = absurd a
  unmarshal_all-of_AllRead (w ∷ ws) (e ∷ es) (read, more) =
      rw (read, unmarshal_all-of_AllRead ws es more) refl

  decoded_errors-cons :
      (bytes : Bytes) (e : Error) (es : List Error)
      → decoded_errors env bytes ≡ e ∷ es
      → (ws : List WireError) × (env.unmarshal_errors bytes ≡ some ws) × AllRead ws (e ∷ es)
  decoded_errors-cons bytes e es q = elim (Option-cases (env.unmarshal_errors bytes)) [
    | inl n ↦
        let nothing : decoded_errors env bytes ≡ [] = rw (decoded_errors, n) refl in
        absurd (cc (sym q, nothing))
    | inr (ws, s) ↦ elim (Result-cases (unmarshal_all env ws)) [
      | inl (x, r) ↦
          let nothing : decoded_errors env bytes ≡ [] = rw (decoded_errors, s, r) refl in
          absurd (cc (sym q, nothing))
      | inr (l, r) ↦
          let same : decoded_errors env bytes ≡ l = rw (decoded_errors, s, r) refl in
          (ws, s, subst (AllRead ws) (sym same ∙ q) (unmarshal_all-eq-ok ws l r))
    ]
  ]

  decoded_errors-of_AllRead :
      (bytes : Bytes) (ws : List WireError) (es : List Error)
      → env.unmarshal_errors bytes ≡ some ws
      → AllRead ws es
      → decoded_errors env bytes ≡ es
  decoded_errors-of_AllRead bytes ws es s a =
      rw (decoded_errors, s, unmarshal_all-of_AllRead ws es a) refl

  api_error_of-Describes :
      (resp : Response) (l : List Error)
      → resp.body.broken ≡ false
      → decoded_errors env resp.body.bytes ≡ l
      → Describes resp (api_error_of env resp l)
  unfolding unreadable_error new_api_error_from_response
  api_error_of-Describes resp [] n q = (
    refl,
    refl,
    inr (
      (λ e (whole, (ws, es, s, a)).
          let some_error = decoded_errors-of_AllRead resp.body.bytes ws (e ∷ es) s a in
          cc (sym some_error, q)),
      refl,
    ),
  )
  api_error_of-Describes resp (e ∷ es) n q =
      let (ws, s, a) = decoded_errors-cons resp.body.bytes e es q in
      (refl, refl, inl (n, (ws, es, s, a)))

  map_error-Describes : (resp : Response) → Describes resp (map_error env resp)
  unfolding map_error unreadable_error
  map_error-Describes resp = elim (Bool-cases resp.body.broken) [
    | inl t ↦ rw (t, map_error) (refl, refl, inr ((λ e (whole, _). true≢false whole), refl))
    | inr n ↦
        subst
          (λ (b : Bool). Describes resp (
            if b
            then unreadable_error resp.status (response_info_from_header resp.header)
                (codes "the body could not be read")
            else api_error_of env resp (decoded_errors env resp.body.bytes)))
          (sym n) (api_error_of-Describes resp (decoded_errors env resp.body.bytes) n refl)
  ]

  -- A call whose last response is not a success gives an API error, at whatever type it decodes, with
  -- the status and the metadata of the response: it is the first error object of the body where the
  -- body is read to its end and is a list of error objects that are all read, and otherwise, or where
  -- that list is empty, the code is UNKNOWN.
  pub decode_json_api-Describes :
      {T : Type 0} (decode : Body → Option T) (c : Client) (method path : Bytes)
      (body : Option Json) (req : Request) (resp : Response) (h h' : History)
      → new_request env c method path body ≡ ok req
      → do_request env c req h ≡ (h', ok resp)
      → is_success resp.status ≡ false
      → (a : ApiError) × (decode_json_api env decode c method path body h ≡ (h', err (api a)))
        × Describes resp a
  unfolding decode_json_api send check_status
  decode_json_api-Describes decode c method path body req resp h h' q d n =
      (map_error env resp, rw (q, d, n) refl, map_error-Describes resp)
