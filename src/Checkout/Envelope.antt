-- ===== src/Checkout/Envelope.antt =====
-- The PEM envelope, the clock check and the signature gate, as the verification of a file relies on.
use tamga_go.Base.{
  suc, ◌≢◌, zero, subst, ℤ, pos, negsuc, ◌≡◌, ◌-ℤ◌, ◌+ℤ◌, ◌<ℤ◌, ◌↔◌, refl, Bool, true, false,
  Option, none, some, wrap64-InInt64, InInt64, arith, Bool-cases, inl, inr,
}
use tamga_go.Errors.Laws.{then-eq-ok}
use tamga_go.Errors.{ok}
use tamga_go.Resource.{LicenseFileClaims}
use tamga_go.Checkout.{check_claims, check_expiry, is_expired, require_signature}

-- The clock `now` is past the expiry by more than the tolerated skew of a minute.
abbrev pub IsPast : ℤ → ℤ → Type 0
IsPast now exp = exp +ℤ pos 60 <ℤ now

is_expired_iff :
    (now exp : ℤ) → InInt64 (now -ℤ pos 60) → (is_expired now exp ≡ true) ↔ IsPast now exp
unfolding is_expired
is_expired_iff (pos n) (pos x) range = rw (wrap64-InInt64 (pos n -ℤ pos 60) range) ground arith
is_expired_iff (pos n) (negsuc x) range = rw (wrap64-InInt64 (pos n -ℤ pos 60) range) ground arith
is_expired_iff (negsuc n) (pos x) range =
    rw (wrap64-InInt64 (negsuc n -ℤ pos 60) range) ground arith
is_expired_iff (negsuc n) (negsuc x) range =
    rw (wrap64-InInt64 (negsuc n -ℤ pos 60) range) ground arith

check_expiry-eq-ok :
    (now exp : ℤ)
    → InInt64 (now -ℤ pos 60)
    → check_expiry now exp ≡ ok tt
    → exp ≢ pos 0
    → ¬ IsPast now exp
check_expiry-eq-ok now (pos zero) range e nonzero past = nonzero refl
check_expiry-eq-ok now (pos (suc x)) range e nonzero past =
    ground (arith, is_expired_iff now (pos (suc x)) range)
check_expiry-eq-ok now (negsuc x) range e nonzero past =
    ground (arith, is_expired_iff now (negsuc x) range)

-- The claims of a file that passes: they are there, and have no expiry or one that has not passed.
pub check_claims-eq-ok :
    (now : ℤ) (meta : Option LicenseFileClaims) (claims : LicenseFileClaims)
    → InInt64 (now -ℤ pos 60)
    → check_claims now meta ≡ ok claims
    → (meta ≡ some claims) × (claims.expires_at ≢ pos 0 → ¬ IsPast now claims.expires_at)
unfolding check_claims
check_claims-eq-ok now none claims range e = absurd (cc)
check_claims-eq-ok now (some c) claims range e =
    let (checked, same) = then-eq-ok (check_expiry now c.expires_at) (ok c) claims e in
    let here : c ≡ claims = cc in
    (
      cc,
      subst (λ k. k.expires_at ≢ pos 0 → ¬ IsPast now k.expires_at) here
          (check_expiry-eq-ok now c.expires_at range checked),
    )

check_expiry-of_live :
    (now exp : ℤ)
    → InInt64 (now -ℤ pos 60)
    → (exp ≢ pos 0 → ¬ IsPast now exp)
    → check_expiry now exp ≡ ok tt
check_expiry-of_live now (pos zero) range live = refl
check_expiry-of_live now (pos (suc x)) range live =
    elim (Bool-cases (is_expired now (pos (suc x)))) [
      | inl t ↦ absurd (live (λ q. cc) ((is_expired_iff now (pos (suc x)) range).0 t))
      | inr f ↦ ground arith
    ]
check_expiry-of_live now (negsuc x) range live = elim (Bool-cases (is_expired now (negsuc x))) [
  | inl t ↦ absurd (live (λ q. cc) ((is_expired_iff now (negsuc x) range).0 t))
  | inr f ↦ rw f refl
]

-- Claims that are not past their expiry pass.
pub check_claims-of_live :
    (now : ℤ) (claims : LicenseFileClaims)
    → InInt64 (now -ℤ pos 60)
    → (claims.expires_at ≢ pos 0 → ¬ IsPast now claims.expires_at)
    → check_claims now (some claims) ≡ ok claims
unfolding check_claims
check_claims-of_live now claims range live =
    rw (check_expiry-of_live now claims.expires_at range live) refl

pub require_signature-eq-ok : (b : Bool) → require_signature b ≡ ok tt → b ≡ true
require_signature-eq-ok true e = refl
require_signature-eq-ok false e = cc
