-- ===== src/Checkout/Sealing/Delivered.antt =====
-- Files from the server that seals and signs them, through the call that fetches them, to the
-- payload that their verification returns.
use tamga_go.Base.{ℤ, pos, ◌≡◌, ◌≢◌, ◌∙◌, ◌-ℤ◌, true, Option, [], ◌++◌, length, InInt64}
use tamga_go.Text.{Bytes}
use tamga_go.Errors.{ok}
use tamga_go.Http.{Env, History}
use tamga_go.Client.{Client}
use tamga_go.Resource.{CertPayload, Wire}
use tamga_go.Checkout.{
  Crypto, PublicKey, seal_aes_gcm, derive_license_file_key, derive_machine_file_key,
}
use tamga_go.Checkout.License
use tamga_go.Checkout.License.{LicenseFile, LicensePayload, DecodedLicense}
use tamga_go.Checkout.License.Laws as LicenseLaws
use tamga_go.Checkout.Machine
use tamga_go.Checkout.Machine.{
  MachineFile, MachinePayload, DecodedMachine, scheme_alg_suffix, verify_machine_file_signature,
  scheme_rsa2048_jwt_rs256,
}
use tamga_go.Checkout.Machine.Laws as MachineLaws
use tamga_go.Checkout.Fetch.{CheckOutOptions, check_out_license, check_out_machine}
use tamga_go.Checkout.Fetch.Ttl.{IsTtl}
use tamga_go.Checkout.Fetch.Delivered.{
  Brings, license_file_path, machine_file_path, check_out_license-of_brought,
  check_out_machine-of_brought,
}
use tamga_go.Checkout.Sealing.{Undoes}
use tamga_go.Checkout.Sealing.Files.{license_pem, verify-license_pem}
use tamga_go.Checkout.Sealing.Machines.{sealed_enc, machine_pem, verify-machine_pem}

module _ (crypto : Crypto) (encode_base64 : Bytes → Bytes) (marshal_cert : CertPayload → Bytes)
    (undoes : Undoes crypto encode_base64 marshal_cert) (env : Env) (wire : Wire) (c : Client)
    (now : ℤ) (id : Bytes) (o : CheckOutOptions) (h h' : History) where
  -- A server seals the document of a license file with SealAESGCM under the key derived from a
  -- license key that is not empty, signs the blob with the key of `pub_key`, and answers a check-out
  -- with the text of the file. Then CheckOutLicense, by GET or by POST, hands out a file on which
  -- Verify, under `pub_key` and the license key, returns the payload in the document, if its claims
  -- are not past their expiry.
  pub check_out_license-license_pem :
      (unmarshal : Bytes → Option DecodedLicense)
      (pub_key license_key key nonce text sealed sig : Bytes) (p : LicensePayload)
      → InInt64 (now -ℤ pos 60)
      → license_key ≢ []
      → derive_license_file_key crypto license_key ≡ ok key
      → seal_aes_gcm crypto key nonce text ≡ ok sealed
      → length pub_key ≡ 32
      → crypto.ed25519_verify pub_key (encode_base64 (nonce ++ sealed)) sig ≡ true
      → LicenseLaws.Decodes crypto unmarshal now text p
      → Brings env wire crypto c now
          (license_file_path env wire crypto c now id)
          o
          h
          h'
          (license_pem encode_base64 marshal_cert nonce sealed sig)
      → (f : LicenseFile) × (check_out_license env wire crypto c now unmarshal id o h ≡ (h', ok f))
        × (License.verify crypto unmarshal f pub_key license_key ≡ ok p)
  check_out_license-license_pem unmarshal pub_key license_key key nonce text sealed sig p range
        named derived q n s decodes brought =
      let (g, parsed, verified) =
        verify-license_pem crypto encode_base64 marshal_cert undoes unmarshal now pub_key
          license_key key nonce text sealed sig p range named derived q n s decodes in
      let (f, out, same) =
        check_out_license-of_brought env wire crypto c now unmarshal id
          (license_pem encode_base64 marshal_cert nonce sealed sig) o h h' g brought parsed in
      (f, out, same pub_key license_key ∙ verified)

  -- A server seals the document of a machine file with SealAESGCM under the key derived from a
  -- license key and a fingerprint that are not empty, signs the text with the key of `pub_key` under
  -- a scheme that is not the JWT scheme, and answers a check-out that asks for no time to live, or
  -- for one that is allowed, with the text of the file. Then CheckOutMachine, by GET or by POST,
  -- hands out a file on which Verify, under that scheme, `pub_key`, the license key and the
  -- fingerprint, returns the payload in the document, if its claims are not past their expiry.
  pub check_out_machine-machine_pem :
      (unmarshal : Bytes → Option DecodedMachine) (scheme suffix : Bytes) (pub_key : PublicKey)
      (license_key fingerprint key nonce text sealed sig : Bytes) (p : MachinePayload)
      → InInt64 (now -ℤ pos 60)
      → scheme ≢ scheme_rsa2048_jwt_rs256
      → scheme_alg_suffix scheme ≡ ok suffix
      → license_key ≢ []
      → fingerprint ≢ []
      → derive_machine_file_key crypto license_key fingerprint ≡ ok key
      → seal_aes_gcm crypto key nonce text ≡ ok sealed
      → verify_machine_file_signature crypto scheme pub_key
          (sealed_enc encode_base64 marshal_cert nonce sealed)
          sig
        ≡ ok true
      → MachineLaws.Decodes crypto unmarshal now text p
      → IsTtl o.ttl
      → Brings env wire crypto c now
          (machine_file_path env wire crypto c now id)
          o
          h
          h'
          (machine_pem encode_base64 marshal_cert suffix nonce sealed sig)
      → (f : MachineFile) × (check_out_machine env wire crypto c now unmarshal id o h ≡ (h', ok f))
        × (Machine.verify crypto unmarshal f scheme pub_key license_key fingerprint ≡ ok p)
  check_out_machine-machine_pem unmarshal scheme suffix pub_key license_key fingerprint key nonce
        text sealed sig p range other known named printed derived q signed decodes ttl brought =
      let (g, parsed, verified) =
        verify-machine_pem crypto encode_base64 marshal_cert undoes unmarshal now scheme suffix
          pub_key license_key fingerprint key nonce text sealed sig p range other known named
          printed derived q signed decodes in
      let (f, out, same) =
        check_out_machine-of_brought env wire crypto c now unmarshal id
          (machine_pem encode_base64 marshal_cert suffix nonce sealed sig) o h h' g ttl brought
          parsed in
      (f, out, same scheme pub_key license_key fingerprint ∙ verified)
