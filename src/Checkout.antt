-- ===== src/Checkout.antt =====
-- checkout_license.go, checkout_machine.go and proof.go share: the PEM envelope, the clock check,
-- and the cryptographic primitives, which are parameters.
pub mod License
pub mod Machine
pub mod KeySet
pub mod Fetch
pub mod Envelope
pub mod Sealing
use tamga_go.Errors.{
  ◌>>◌, Result, ok, err, GoError, sentinel, expired, plain, wrap, missing_claims, decryption_failed,
  unsupported_algorithm, invalid_signature, ◌>>=◌, or_fail,
}
use tamga_go.Base.{
  true, false, ℕ, ℤ, pos, ◌-ℤ◌, Bool, Option, none, some, List, [], ◌∷◌, wrap64, ltb_ℤ, eqb, not,
  ◌&&◌, if◌then◌else◌, length,
}
use tamga_go.Text.{Bytes, codes, ◌==◌, trim_space, cut_prefix, cut_suffix}
use tamga_go.Resource.{LicenseFileClaims, CertPayload}

-- A crypto.PublicKey by its dynamic type; `other` is any other type, or a nil pointer.
pub data PublicKey : Type 0 where
  ed25519 : Bytes → PublicKey
  rsa : Bytes → PublicKey
  ecdsa : Bytes → Bool → PublicKey
  other : PublicKey

-- The standard library's part: signatures, HKDF, AES-GCM, base64 and JSON at the types needed.
pub record Crypto : Type 0 where
  pub ed25519_verify : Bytes → Bytes → Bytes → Bool
  pub rsa_verify_pkcs1v15 : Bytes → Bytes → Bytes → Bool
  pub rsa_verify_pss : Bytes → Bytes → Bytes → Bool
  pub ecdsa_verify_asn1 : Bytes → Bytes → Bytes → Bool
  pub sha256 : Bytes → Bytes
  pub hkdf : Bytes → Bytes → Bytes → Option Bytes
  -- `none` is a failed authentication
  pub gcm_open : Bytes → Bytes → Bytes → Option Bytes
  -- ciphertext, then tag
  pub gcm_seal : Bytes → Bytes → Bytes → Bytes
  pub decode_base64 : Bytes → Option Bytes
  pub unmarshal_cert : Bytes → Option CertPayload

-- stripPEM
unfoldable pub strip_pem : Bytes → Bytes → Bytes → Result Bytes
unfolding trim_space cut_prefix cut_suffix
strip_pem pem header footer = do
  rest ← or_fail (cut_prefix (trim_space pem) header) (plain (codes "missing header"))
  body ← or_fail (cut_suffix rest footer) (plain (codes "missing footer"))
  ok (trim_space body)

abbrev pub clock_skew_tolerance_seconds : ℤ
clock_skew_tolerance_seconds = pos 60

-- The test of the signed expiry, an int64 as the subtraction is.
unfoldable pub is_expired : ℤ → ℤ → Bool
unfolding wrap64
is_expired now exp = ltb_ℤ exp (wrap64 (now -ℤ clock_skew_tolerance_seconds))

abbrev is_zero : ℤ → Bool
is_zero (pos n) = eqb n 0
is_zero _ = false

abbrev check_expiry : ℤ → ℤ → Result (Unit {0})
check_expiry now exp = if not (is_zero exp) && is_expired now exp then err (expired exp) else ok tt

-- The part of payloadFrom that both kinds of file share: the claims, then the expiry.
unfoldable pub check_claims : ℤ → Option LicenseFileClaims → Result LicenseFileClaims
unfolding is_expired
check_claims now none = err (sentinel missing_claims)
check_claims now (some claims) = do check_expiry now claims.expires_at; ok claims

-- fmt.Errorf("%w: …", ErrUnsupportedAlgorithm, …)
abbrev pub unsupported : GoError
unsupported = wrap (sentinel unsupported_algorithm)

-- `if !verified { return nil, ErrInvalidSignature }`
abbrev pub require_signature : Bool → Result (Unit {0})
require_signature true = ok tt
require_signature false = err (sentinel invalid_signature)

abbrev license_file_key_salt : Bytes
license_file_key_salt = codes "tamga:license-file-key-v1"

abbrev license_file_key_info : Bytes
license_file_key_info = codes "license-file"

abbrev machine_file_key_salt : Bytes
machine_file_key_salt = codes "tamga:machine-file-key-v1"

module _ (crypto : Crypto) where
  open crypto use {
    ed25519_verify, rsa_verify_pkcs1v15, rsa_verify_pss, ecdsa_verify_asn1, sha256, hkdf, gcm_open,
    gcm_seal, decode_base64, unmarshal_cert,
  }

  -- VerifyEd25519
  unfoldable pub verify_ed25519 : Bytes → Bytes → Bytes → Bool
  verify_ed25519 pub_key message sig =
      if not (eqb (length pub_key) 32) then false else ed25519_verify pub_key message sig

  -- VerifyRSAPKCS1v15 and VerifyRSAPSS; true is a nil error.
  unfoldable pub verify_rsa_pkcs1v15 : Bytes → Bytes → Bytes → Bool
  verify_rsa_pkcs1v15 pub_key message sig = rsa_verify_pkcs1v15 pub_key (sha256 message) sig

  unfoldable pub verify_rsa_pss : Bytes → Bytes → Bytes → Bool
  verify_rsa_pss pub_key message sig = rsa_verify_pss pub_key (sha256 message) sig

  -- VerifyECDSA; the flag says that the key's curve is P-256.
  unfoldable pub verify_ecdsa : Bytes → Bool → Bytes → Bytes → Bool
  verify_ecdsa pub_key is_p256 message sig =
      if not is_p256 then false else ecdsa_verify_asn1 pub_key (sha256 message) sig

  -- OpenAESGCM, at a key of 32 bytes.
  unfoldable pub open_aes_gcm : Bytes → Bytes → Bytes → Result Bytes
  open_aes_gcm key nonce sealed =
      if not (eqb (length nonce) 12)
      then err (plain (codes "invalid nonce length"))
      else or_fail (gcm_open key nonce sealed) (wrap (sentinel decryption_failed))

  -- SealAESGCM, at a key of 32 bytes.
  unfoldable pub seal_aes_gcm : Bytes → Bytes → Bytes → Result Bytes
  seal_aes_gcm key nonce text =
      if not (eqb (length nonce) 12)
      then err (plain (codes "invalid nonce length"))
      else ok (gcm_seal key nonce text)

  -- DeriveLicenseFileKey and DeriveMachineFileKey
  unfoldable pub derive_license_file_key : Bytes → Result Bytes
  derive_license_file_key license_key =
      or_fail (hkdf license_key license_file_key_salt license_file_key_info)
        (wrap (plain (codes "hkdf-sha256")))

  unfoldable pub derive_machine_file_key : Bytes → Bytes → Result Bytes
  derive_machine_file_key license_key fingerprint =
      or_fail (hkdf license_key machine_file_key_salt fingerprint)
        (wrap (plain (codes "hkdf-sha256")))

  abbrev pub base64 : Bytes → Result Bytes
  base64 s = or_fail (decode_base64 s) (wrap (plain (codes "invalid base64")))

  -- The certificate inside the PEM envelope, which ParseLicenseFile and ParseMachineFile read alike.
  unfoldable pub parse_cert : Bytes → Bytes → Bytes → Result CertPayload
  unfolding strip_pem
  parse_cert header footer pem = do
    body ← strip_pem pem header footer
    cert_json ← base64 body
    or_fail (unmarshal_cert cert_json) (wrap (plain (codes "invalid JSON")))
