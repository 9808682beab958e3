-- ===== src/Release/Upgrade.antt =====
-- When the check for an upgrade sends a request, and what its three answers mean.
use tamga_go.Base.{
  sym, subst, ◌∙◌, ap, ◌≡◌, ◌≢◌, refl, ◌⊎◌, inl, inr, true, Option, none, some, List, [], ◌∷◌, eqb,
  arith, All,
}
use tamga_go.Text.{Bytes, codes, ◌==◌}
use tamga_go.Errors.{Result, ok, err, api, or_fail, wrap, plain, GoError}
use tamga_go.Http.{Env, Request, Response, History, is_success, get}
use tamga_go.Http.Monad.{lift}
use tamga_go.Http.Monad.Laws.{bind-eq-ok}
use tamga_go.Errors.Laws.{allowed-eq-ok, ok-injective, branch_of}
use tamga_go.Client.{Client, new_request}
use tamga_go.Client.Retry.{do_request}
use tamga_go.Client.Decode.{check_status, decode_body, map_error}
use tamga_go.Resource.{Release, Wire}
use tamga_go.Release.{
  UpgradeOptions, required, validate, validate_all, check_upgrade, upgrade_of, found,
}

check_status-eq-ok :
    (env : Env) (resp checked : Response)
    → check_status env resp ≡ ok checked
    → (is_success resp.status ≡ true) × (ok resp ≡ ok checked)
unfolding check_status
check_status-eq-ok env resp checked q =
    allowed-eq-ok (is_success resp.status) (ok resp) (api (map_error env resp)) checked q

-- The value of each required field is there.
abbrev pub IsComplete : UpgradeOptions → Type 0
IsComplete o = All (λ f. f.1 ≢ []) (required o)

validate_all-cases :
    (l : List (Bytes × Bytes))
    → ((validate_all l ≡ ok tt) × All (λ f. f.1 ≢ []) l)
      ⊎ ((e : GoError) × (validate_all l ≡ err e) × ¬ All (λ f. f.1 ≢ []) l)
unfolding validate_all ◌==◌
validate_all-cases [] = inl (refl, tt)
validate_all-cases ((name, []) ∷ l) = inr (_, refl, λ a. a.0 refl)
validate_all-cases ((name, x ∷ s) ∷ l) = elim (validate_all-cases l) [
  | inl (v, a) ↦ inl (v, (λ q. absurd (cc), a))
  | inr (e, v, n) ↦ inr (e, v, λ a. n a.1)
]

-- What the answer says: no upgrade is a 204, and an upgrade is what another success carries.
abbrev pub Says : Wire → Response → Option Release → Type 0
Says wire resp none = resp.status ≡ 204
Says wire resp (some r) = (resp.status ≢ 204) × (wire.release resp.body ≡ some r)

module _ (env : Env) (wire : Wire) (c : Client) where
  found-Says :
      (resp : Response) (r : Option Release) (o : Option Release)
      → wire.release resp.body ≡ o
      → resp.status ≢ 204
      → found env wire c (or_fail o (wrap (plain (codes "decode response body")))) ≡ ok r
      → Says wire resp r
  found-Says resp (some r) (some x) e n q = (n, cc)
  found-Says resp none (some x) e n q = absurd (cc)
  found-Says resp r none e n q = absurd (cc)

  no_content-Says :
      (resp : Response) (r : Option Release)
      → eqb resp.status 204 ≡ true
      → ◌≡◌ {A = Result (Option Release)} (ok none) (ok r)
      → Says wire resp r
  no_content-Says resp none t q = ground arith
  no_content-Says resp (some x) t q = absurd (cc)

  upgrade_of-Says :
      (resp : Response) (r : Option Release) → upgrade_of env wire c resp ≡ ok r → Says wire resp r
  upgrade_of-Says resp r q =
      elim (branch_of (eqb resp.status 204) (ok none)
        (found env wire c (decode_body env wire.release resp)) (ok r) q) [
          | inl (t, s) ↦ no_content-Says resp r t s
          | inr (n, s) ↦ found-Says resp r (wire.release resp.body) refl (ground arith) s
        ]

  answered :
      (o : UpgradeOptions) (h h' : History) (r : Option Release)
      → check_upgrade env wire c o h ≡ (h', ok r)
      → (req : Request) × (resp : Response) × (do_request env c req h ≡ (h', ok resp))
        × (is_success resp.status ≡ true)
        × Says wire resp r
  unfolding check_upgrade
  answered o h h' r q =
      let (u, _, q₁) = bind-eq-ok (lift (validate o) h) _ h' r q in
      let (req, _, q₂) = bind-eq-ok (lift (new_request env c get _ none) h) _ h' r q₁ in
      let (resp, d, q₃) = bind-eq-ok (do_request env c req h) _ h' r q₂ in
      let (checked, k, q₄) =
        bind-eq-ok (lift (check_status env resp) (do_request env c req h).0) _ h' r q₃ in
      let (success, same) = check_status-eq-ok env resp checked (ap (λ x. x.1) k) in
      let says = upgrade_of-Says checked r (ap (λ x. x.1) q₄) in
      (
        req,
        resp,
        d ∙ ap (λ x. (x, ok resp)) (ap (λ x. x.0) q₄),
        success,
        subst (λ x. Says wire x r) (sym (ok-injective same)) says,
      )

  -- The check for an upgrade sends nothing unless all four required values are there. Where it
  -- gives a result, they are, and the last response is a success: without a body (204) there is no
  -- upgrade, and otherwise the body is the release.
  pub check_upgrade-Says :
      (o : UpgradeOptions) (h : History)
      → (¬ IsComplete o → (e : GoError) × (check_upgrade env wire c o h ≡ (h, err e)))
        × ((h' : History) (r : Option Release)
            → check_upgrade env wire c o h ≡ (h', ok r)
            → IsComplete o
              × ((req : Request) × (resp : Response) × (do_request env c req h ≡ (h', ok resp))
                  × (is_success resp.status ≡ true)
                  × Says wire resp r))
  unfolding check_upgrade validate
  check_upgrade-Says o h = elim (validate_all-cases (required o)) [
    | inl (v, a) ↦ (λ n. absurd (n a), λ h' r q. (a, answered o h h' r q))
    | inr (e, v, n) ↦ (λ m. (e, rw v refl), λ h' r q. absurd (cc))
  ]
