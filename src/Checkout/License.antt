-- ===== src/Checkout/License.antt =====
-- checkout_license.go: license files, from the PEM text to the verified payload.
pub mod Laws
use tamga_go.Base.{
  true, false, ℕ, ℤ, ◌+◌, Bool, ◌||◌, Option, none, some, List, [], ◌∷◌, ltb, if◌then◌else◌, length,
  take, drop,
}
use tamga_go.Text.{Bytes, codes, ◌==◌}
use tamga_go.Errors.{
  Result, ok, err, GoError, sentinel, plain, wrap, unsupported_algorithm, license_key_required,
  invalid_signature, ◌>>=◌, ◌>>◌, or_fail,
}
use tamga_go.Resource.{License, LicenseFileClaims, CertPayload}
use tamga_go.Checkout.{
  Crypto, check_claims, verify_ed25519, open_aes_gcm, derive_license_file_key, base64, parse_cert,
  require_signature, unsupported,
}

abbrev pub alg_base64_ed25519 : Bytes
alg_base64_ed25519 = codes "base64+ed25519+v2"

abbrev pub alg_aes256_gcm_ed25519 : Bytes
alg_aes256_gcm_ed25519 = codes "aes-256-gcm+ed25519+v2"

pub record LicenseFile : Type 0 where
  pub ttl : Option ℤ
  pub expiry : Option Bytes
  pub now : ℤ
  pub enc : Bytes
  pub sig : Bytes
  pub alg : Bytes
  pub pem : Bytes
  pub id : Bytes
  pub issued : Bytes
  pub includes : List Bytes

pub record LicensePayload : Type 0 where
  pub claims : LicenseFileClaims
  pub contents : License

-- dataPayload[License]
pub record DecodedLicense : Type 0 where
  pub contents : License
  pub meta : Option LicenseFileClaims

-- validateLicenseFileAlg
unfoldable pub validate_license_file_alg : Bytes → Result (Unit {0})
validate_license_file_alg alg =
    if alg == alg_base64_ed25519 || alg == alg_aes256_gcm_ed25519 then ok tt else err unsupported

abbrev pub license_file_pem_header : Bytes
license_file_pem_header = codes "-----BEGIN LICENSE FILE-----"

abbrev pub license_file_pem_footer : Bytes
license_file_pem_footer = codes "-----END LICENSE FILE-----"

module _ (crypto : Crypto) (unmarshal : Bytes → Option DecodedLicense) where
  -- ParseLicenseFile. `now` is the clock of the file, f.Now or time.Now.
  unfoldable pub parse_license_file : ℤ → Bytes → Result LicenseFile
  unfolding parse_cert
  parse_license_file now pem = do
    cert ← parse_cert crypto license_file_pem_header license_file_pem_footer pem
    ok (record {
      ttl = none;
      expiry = none;
      now = now;
      enc = cert.enc;
      sig = cert.sig;
      alg = cert.alg;
      pem = pem;
      id = [];
      issued = [];
      includes = [];
    })

  -- The encrypted branch of decodePlaintext: nonce, then ciphertext and tag, in one blob.
  unfoldable pub decrypt_license : Bytes → Bytes → Result Bytes
  unfolding open_aes_gcm derive_license_file_key
  decrypt_license license_key enc =
      if license_key == [] then err (sentinel license_key_required) else do
        key ← derive_license_file_key crypto license_key
        if ltb (length enc) (12 + 16)
            then err (plain (codes "encrypted license file payload too short"))
            else open_aes_gcm crypto key (take 12 enc) (drop 12 enc)

  -- (*LicenseFile).decodePlaintext
  unfoldable pub decode_plaintext : LicenseFile → Bytes → Result Bytes
  unfolding decrypt_license
  decode_plaintext f license_key = do
    enc ← base64 crypto f.enc
    if f.alg == alg_base64_ed25519
        then ok enc
        else if f.alg == alg_aes256_gcm_ed25519
        then decrypt_license license_key enc
        else err unsupported

  -- (*LicenseFile).payloadFrom
  unfoldable pub payload_from : LicenseFile → Bytes → Result LicensePayload
  unfolding check_claims
  payload_from f plaintext = do
    payload ← or_fail (unmarshal plaintext) (wrap (plain (codes "invalid JSON")))
    claims ← check_claims f.now payload.meta
    ok (record { claims = claims; contents = payload.contents })

  -- (*LicenseFile).Verify
  unfoldable pub verify : LicenseFile → Bytes → Bytes → Result LicensePayload
  unfolding validate_license_file_alg verify_ed25519 decode_plaintext payload_from
  verify f pub_key license_key = do
    validate_license_file_alg f.alg
    sig ← base64 crypto f.sig
    require_signature (verify_ed25519 crypto pub_key f.enc sig)
    plaintext ← decode_plaintext f license_key
    payload_from f plaintext
