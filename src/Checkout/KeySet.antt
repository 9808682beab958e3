-- ===== src/Checkout/KeySet.antt =====
-- checkout_key_set.go: verifying a checkout file against a set of signing keys.
pub mod Laws
pub mod MachineFiles
pub mod Published
use tamga_go.Base.{
  ℕ, Bool, true, false, ◌||◌, not, Option, none, some, List, [], ◌∷◌, eqb, if◌then◌else◌,
}
use tamga_go.Text.{Bytes, codes, ◌==◌}
use tamga_go.Errors.{
  Result, ok, err, GoError, sentinel, wrap, unknown_key, invalid_signature, no_usable_signing_key,
  license_key_required, fingerprint_required, unsupported_algorithm, ◌>>=◌, ◌>>◌,
}
use tamga_go.Errors.Matching.{is_sentinel}
use tamga_go.Resource.{SigningKey, LicenseFileClaims}
use tamga_go.SigningKey.{SigningKeySet, Entry, entries_of, len, find, key_ids}
use tamga_go.Checkout.{Crypto, ed25519, verify_ed25519, base64}
use tamga_go.Checkout.License
use tamga_go.Checkout.License.{
  LicenseFile, LicensePayload, DecodedLicense, validate_license_file_alg,
}
use tamga_go.Checkout.Machine
use tamga_go.Checkout.Machine.{
  MachineFile, MachinePayload, DecodedMachine, check_scheme, verify_machine_file_signature,
  scheme_ed25519_sign,
}

-- VerifiedLicenseFile and VerifiedMachineFile
pub record Verified (P : Type 0) : Type 0 where
  pub payload : P
  pub key : SigningKey

-- unverifiableFileError
unfoldable pub unverifiable_file_error : GoError → GoError
unfolding is_sentinel
unverifiable_file_error e =
    if is_sentinel license_key_required e
      || is_sentinel fingerprint_required e
      || is_sentinel unsupported_algorithm e
    then e
    else sentinel invalid_signature

-- keySetFailure
unfoldable pub key_set_failure : Option SigningKeySet → Bytes → GoError
unfolding find key_ids
key_set_failure keys kid = if kid == [] then sentinel invalid_signature else elim (find keys kid) [
  | some e ↦ sentinel invalid_signature
  | none ↦ unknown_key kid (key_ids keys)
]

abbrev probed : Option (Option LicenseFileClaims) → Bytes
probed (some (some claims)) = claims.key_id
probed _ = []

abbrev no_usable_key : GoError
no_usable_key = wrap (sentinel no_usable_signing_key)

-- What both methods do with the keys: the first that verifies decides; if none does, the key id
-- that the file claims decides the error. `check` is the signature test at an entry, `plaintext`
-- is decodePlaintext, `payload` is payloadFrom and `probe` is the decoding of claimsProbe.
module _ {P : Type 0} (check : Entry → Result Bool) (plaintext : Result Bytes)
    (payload : Bytes → Result P) (probe : Bytes → Option (Option LicenseFileClaims)) where
  -- unverifiedKeyID
  unfoldable pub unverified_key_id : Bytes → Bytes
  unverified_key_id text = probed (probe text)

  unfoldable pub reject : Option SigningKeySet → Result Bytes → Result (Verified P)
  unfolding unverifiable_file_error key_set_failure unverified_key_id
  reject keys (err e) = err (unverifiable_file_error e)
  reject keys (ok text) = err (key_set_failure keys (unverified_key_id text))

  abbrev accept : Entry → Result (Verified P)
  accept e = do text ← plaintext; p ← payload text; ok (record { payload = p; key = e.key })

  abbrev decide : Result Bool → Result (Verified P) → Result (Verified P) → Result (Verified P)
  decide (err x) here later = err x
  decide (ok true) here later = here
  decide (ok false) here later = later

  unfoldable pub try_keys : Option SigningKeySet → List Entry → Result (Verified P)
  unfolding reject
  try_keys keys [] = reject keys plaintext
  try_keys keys (e ∷ es) = decide (check e) (accept e) (try_keys keys es)

module _ (crypto : Crypto) (probe : Bytes → Option (Option LicenseFileClaims)) where
  -- (*LicenseFile).VerifyWithKeySet
  unfoldable pub verify_license_with_key_set :
      (Bytes → Option DecodedLicense)
      → LicenseFile
      → Option SigningKeySet
      → Bytes
      → Result (Verified LicensePayload)
  unfolding validate_license_file_alg len try_keys License.decode_plaintext License.payload_from
  verify_license_with_key_set unmarshal f keys license_key = do
    validate_license_file_alg f.alg
    sig ← base64 crypto f.sig
    if eqb (len keys) 0
        then err no_usable_key
        else try_keys (λ e. ok (verify_ed25519 crypto e.public_key f.enc sig))
            (License.decode_plaintext crypto unmarshal f license_key)
            (License.payload_from crypto unmarshal f) probe keys (entries_of keys)

  -- (*MachineFile).VerifyWithKeySet
  unfoldable pub verify_machine_with_key_set :
      (Bytes → Option DecodedMachine)
      → MachineFile
      → Bytes
      → Option SigningKeySet
      → Bytes
      → Bytes
      → Result (Verified MachinePayload)
  unfolding check_scheme len try_keys Machine.decode_plaintext Machine.payload_from
  verify_machine_with_key_set unmarshal f scheme keys license_key fingerprint = do
    prefix ← check_scheme crypto unmarshal f scheme
    if not (scheme == scheme_ed25519_sign)
        then err no_usable_key
        else if eqb (len keys) 0
        then err no_usable_key
        else do
          sig ← base64 crypto f.sig
          try_keys
              (λ e. verify_machine_file_signature crypto scheme (ed25519 e.public_key) f.enc sig)
              (Machine.decode_plaintext crypto f prefix license_key fingerprint)
              (Machine.payload_from crypto unmarshal f) probe keys (entries_of keys)
