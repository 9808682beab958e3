-- ===== src/Checkout/Machine.antt =====
-- checkout_machine.go: machine files, from the PEM text to the verified payload.
pub mod Algorithm
pub mod Laws
use tamga_go.Base.{
  ℕ, ℤ, pos, suc, ◌+◌, Bool, true, false, ◌||◌, not, Option, none, some, List, [], ◌∷◌, ltb, leb_ℤ,
  ltb_ℤ, if◌then◌else◌, length, take, drop, ◌≡◌,
}
use tamga_go.Text.{Bytes, codes, ◌==◌, cut, last_index, contains}
use tamga_go.Errors.{
  Result, ok, err, GoError, ApiError, api, sentinel, plain, wrap, license_key_required,
  fingerprint_required, err_scheme_not_supported, err_ttl_invalid, ◌>>=◌, ◌>>◌, or_fail,
}
use tamga_go.Resource.{Machine, LicenseFileClaims, CertPayload}
use tamga_go.Checkout.{
  Crypto, PublicKey, ed25519, rsa, ecdsa, other, check_claims, verify_ed25519, verify_rsa_pkcs1v15,
  verify_rsa_pss, verify_ecdsa, open_aes_gcm, derive_machine_file_key, base64, parse_cert,
  require_signature, unsupported,
}

abbrev pub machine_file_pem_header : Bytes
machine_file_pem_header = codes "-----BEGIN MACHINE FILE-----"

abbrev pub machine_file_pem_footer : Bytes
machine_file_pem_footer = codes "-----END MACHINE FILE-----"

-- The last part of every algorithm of a machine file.
abbrev pub machine_file_alg_v2_marker : Bytes
machine_file_alg_v2_marker = codes "v2"

abbrev pub scheme_ed25519_sign : Bytes
scheme_ed25519_sign = codes "ED25519_SIGN"

abbrev pub scheme_rsa2048_pkcs1_sign : Bytes
scheme_rsa2048_pkcs1_sign = codes "RSA_2048_PKCS1_SIGN"

abbrev pub scheme_rsa2048_pkcs1_pss_sign : Bytes
scheme_rsa2048_pkcs1_pss_sign = codes "RSA_2048_PKCS1_PSS_SIGN"

abbrev pub scheme_ecdsa_p256_sign : Bytes
scheme_ecdsa_p256_sign = codes "ECDSA_P256_SIGN"

abbrev pub scheme_rsa2048_jwt_rs256 : Bytes
scheme_rsa2048_jwt_rs256 = codes "RSA_2048_JWT_RS256"

pub record MachineFile : Type 0 where
  pub enc : Bytes
  pub sig : Bytes
  pub alg : Bytes
  pub pem : Bytes
  pub now : ℤ
  pub id : Bytes
  pub ttl : Option ℤ
  pub expiry : Option Bytes
  pub issued : Bytes
  pub includes : List Bytes

pub record MachinePayload : Type 0 where
  pub contents : Machine
  pub claims : LicenseFileClaims

-- dataPayload[Machine]
pub record DecodedMachine : Type 0 where
  pub contents : Machine
  pub meta : Option LicenseFileClaims

abbrev pub max_checkout_ttl_seconds : ℤ
max_checkout_ttl_seconds = pos 31536000

-- checkTTL
unfoldable pub check_ttl : ℤ → Result (Unit {0})
check_ttl ttl =
    if leb_ℤ ttl (pos 0) || ltb_ℤ max_checkout_ttl_seconds ttl
    then err (wrap (api err_ttl_invalid))
    else ok tt

-- `rest[:sep], rest[sep+1:]` at the last `+` of what follows the first one.
abbrev split_marker : Bytes → Bytes → Result (Bytes × Bytes)
split_marker prefix rest = do
  sep ← or_fail (last_index b'+' rest) unsupported
  if not (drop (suc sep) rest == machine_file_alg_v2_marker)
      then err unsupported
      else if prefix == [] || take sep rest == []
      then err unsupported
      else ok (prefix, take sep rest)

-- parseMachineFileAlg
unfoldable pub parse_machine_file_alg : Bytes → Result (Bytes × Bytes)
unfolding cut last_index
parse_machine_file_alg alg = elim (cut b'+' alg) [
  | none ↦ err unsupported
  | some (prefix, rest) ↦ split_marker prefix rest
]

-- schemeAlgSuffix
unfoldable pub scheme_alg_suffix : Bytes → Result Bytes
scheme_alg_suffix scheme =
    if scheme == scheme_ed25519_sign
    then ok (codes "ed25519")
    else if scheme == scheme_rsa2048_pkcs1_sign || scheme == scheme_rsa2048_jwt_rs256
    then ok (codes "rsa-sha256")
    else if scheme == scheme_rsa2048_pkcs1_pss_sign
    then ok (codes "rsa-pss-sha256")
    else if scheme == scheme_ecdsa_p256_sign
    then ok (codes "ecdsa-p256")
    else err (plain (codes "unrecognized license scheme"))

module _ (crypto : Crypto) where
  wrong_key : Result Bool
  wrong_key = err (plain (codes "scheme requires another key type"))

  verify_as_ed25519 : PublicKey → Bytes → Bytes → Result Bool
  unfolding wrong_key
  verify_as_ed25519 (ed25519 k) message sig = ok (verify_ed25519 crypto k message sig)
  verify_as_ed25519 _ message sig = wrong_key

  verify_as_rsa : (Bytes → Bytes → Bytes → Bool) → PublicKey → Bytes → Bytes → Result Bool
  unfolding wrong_key
  verify_as_rsa check (rsa k) message sig = ok (check k message sig)
  verify_as_rsa check _ message sig = wrong_key

  verify_as_ecdsa : PublicKey → Bytes → Bytes → Result Bool
  unfolding wrong_key
  verify_as_ecdsa (ecdsa k is_p256) message sig = ok (verify_ecdsa crypto k is_p256 message sig)
  verify_as_ecdsa _ message sig = wrong_key

  -- verifyMachineFileSignature
  unfoldable pub verify_machine_file_signature : Bytes → PublicKey → Bytes → Bytes → Result Bool
  unfolding verify_as_ed25519 verify_as_rsa verify_as_ecdsa verify_ed25519
  verify_machine_file_signature scheme key message sig =
      if scheme == scheme_ed25519_sign
      then verify_as_ed25519 key message sig
      else if scheme == scheme_rsa2048_pkcs1_sign
      then verify_as_rsa (verify_rsa_pkcs1v15 crypto) key message sig
      else if scheme == scheme_rsa2048_pkcs1_pss_sign
      then verify_as_rsa (verify_rsa_pss crypto) key message sig
      else if scheme == scheme_ecdsa_p256_sign
      then verify_as_ecdsa key message sig
      else if scheme == scheme_rsa2048_jwt_rs256
      then err (api err_scheme_not_supported)
      else err (plain (codes "unrecognized license scheme"))

  -- splitEncryptedEnc
  unfoldable pub split_encrypted_enc : Bytes → Result (Bytes × Bytes)
  unfolding cut contains
  split_encrypted_enc enc = elim (cut b'.' enc) [
    | none ↦ err (plain (codes "not in <nonce>.<ciphertext> form"))
    | some (nonce_b64, cipher_b64) ↦
        if contains b'.' cipher_b64 then err (plain (codes "more than one separator")) else do
          nonce ← base64 crypto nonce_b64
          sealed ← base64 crypto cipher_b64
          if ltb (length sealed) 16
              then err (plain (codes "ciphertext too short"))
              else ok (nonce, sealed)
  ]

  abbrev open_with : Bytes → Bytes → Bytes × Bytes → Result Bytes
  open_with license_key fingerprint (nonce, sealed) = do
    key ← derive_machine_file_key crypto license_key fingerprint
    open_aes_gcm crypto key nonce sealed

  -- (*MachineFile).decodePlaintext
  unfoldable pub decode_plaintext : MachineFile → Bytes → Bytes → Bytes → Result Bytes
  unfolding split_encrypted_enc derive_machine_file_key open_aes_gcm
  decode_plaintext f prefix license_key fingerprint =
      if prefix == codes "base64"
      then base64 crypto f.enc
      else if prefix == codes "aes-256-gcm"
      then if license_key == []
        then err (sentinel license_key_required)
        else if fingerprint == []
        then err (sentinel fingerprint_required)
        else split_encrypted_enc f.enc >>= open_with license_key fingerprint
      else err unsupported

  module _ (unmarshal : Bytes → Option DecodedMachine) where
    -- ParseMachineFile
    unfoldable pub parse_machine_file : ℤ → Bytes → Result MachineFile
    unfolding parse_cert
    parse_machine_file now pem = do
      cert ← parse_cert crypto machine_file_pem_header machine_file_pem_footer pem
      ok (record {
        enc = cert.enc;
        sig = cert.sig;
        alg = cert.alg;
        pem = pem;
        now = now;
        id = [];
        ttl = none;
        expiry = none;
        issued = [];
        includes = [];
      })

    -- (*MachineFile).payloadFrom
    unfoldable pub payload_from : MachineFile → Bytes → Result MachinePayload
    unfolding check_claims
    payload_from f plaintext = do
      payload ← or_fail (unmarshal plaintext) (wrap (plain (codes "invalid JSON")))
      claims ← check_claims f.now payload.meta
      ok (record { contents = payload.contents; claims = claims })

    abbrev pub require_suffix : Bytes → Bytes → Result (Unit {0})
    require_suffix found expected =
        if not (found == expected) then err (plain (codes "alg suffix")) else ok tt

    -- The checks of a machine file's algorithm against the caller's scheme; the encoding prefix.
    unfoldable pub check_scheme : MachineFile → Bytes → Result Bytes
    unfolding parse_machine_file_alg scheme_alg_suffix
    check_scheme f scheme =
        if scheme == scheme_rsa2048_jwt_rs256 then err (api err_scheme_not_supported) else do
          parts ← parse_machine_file_alg f.alg
          expected ← scheme_alg_suffix scheme
          require_suffix parts.1 expected
          ok parts.0

    -- (*MachineFile).Verify
    unfoldable pub verify : MachineFile → Bytes → PublicKey → Bytes → Bytes → Result MachinePayload
    unfolding check_scheme verify_machine_file_signature decode_plaintext payload_from
    verify f scheme key license_key fingerprint = do
      prefix ← check_scheme f scheme
      sig ← base64 crypto f.sig
      verified ← verify_machine_file_signature scheme key f.enc sig
      require_signature verified
      plaintext ← decode_plaintext f prefix license_key fingerprint
      payload_from f plaintext
