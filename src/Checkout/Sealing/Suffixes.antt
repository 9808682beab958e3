-- ===== src/Checkout/Sealing/Suffixes.antt =====
-- The suffixes that schemeAlgSuffix gives to the algorithm of a machine file.
use tamga_go.Errors.{Result, GoError, err, ok}
use tamga_go.Errors.Laws.{ok-injective}
use tamga_go.Base.{◌||◌, subst, true, false, Bool, if◌then◌else◌, ◌≡◌, ◌≢◌, refl, [], All, arith}
use tamga_go.Text.{Bytes, codes, ◌==◌}
use tamga_go.Checkout.Machine.{
  scheme_ed25519_sign, scheme_rsa2048_pkcs1_sign, scheme_rsa2048_pkcs1_pss_sign,
  scheme_ecdsa_p256_sign, scheme_alg_suffix, scheme_rsa2048_jwt_rs256,
}
use tamga_go.Checkout.Sealing.{are_plain-IsPlain, are_plain}
use tamga_go.Text.Spaces.{IsPlain}

branch-IsPlain :
    (b : Bool) (s suffix : Bytes) (rest : Result Bytes)
    → are_plain s ≡ true
    → (rest ≡ ok suffix → All IsPlain suffix)
    → (if b then ok s else rest) ≡ ok suffix
    → All IsPlain suffix
branch-IsPlain true s suffix rest e later q =
    subst (All IsPlain) (ok-injective q) (are_plain-IsPlain s e)
branch-IsPlain false s suffix rest e later q = later q

none_refused : (e : GoError) (suffix : Bytes) → err e ≡ ok suffix → All IsPlain suffix
none_refused e suffix q = absurd (cc)

pub scheme_alg_suffix-IsPlain :
    (scheme suffix : Bytes) → scheme_alg_suffix scheme ≡ ok suffix → All IsPlain suffix
unfolding scheme_alg_suffix
scheme_alg_suffix-IsPlain scheme suffix =
    branch-IsPlain (scheme == scheme_ed25519_sign) (codes "ed25519") suffix _ refl (
      branch-IsPlain (scheme == scheme_rsa2048_pkcs1_sign || scheme == scheme_rsa2048_jwt_rs256)
        (codes "rsa-sha256") suffix _ refl
        (branch-IsPlain (scheme == scheme_rsa2048_pkcs1_pss_sign) (codes "rsa-pss-sha256") suffix _
          refl
          (branch-IsPlain (scheme == scheme_ecdsa_p256_sign) (codes "ecdsa-p256") suffix _ refl
            (none_refused _ suffix))))

pub scheme_alg_suffix-ne-nil :
    (scheme suffix : Bytes) → scheme_alg_suffix scheme ≡ ok suffix → suffix ≢ []
unfolding scheme_alg_suffix
scheme_alg_suffix-ne-nil scheme suffix q = λ e. ground arith
