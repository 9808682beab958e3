-- ===== src/Proof/Laws.antt =====
-- Which offline proofs VerifyOfflineProof accepts.
use tamga_go.Base.{◌≡◌, ◌↔◌, ◌∙◌, ap, refl, Bool, true, false, Option, some, ◌++◌}
use tamga_go.Text.{Bytes, codes, cut_prefix}
use tamga_go.Text.Laws.{cut_prefix-append, cut_prefix-eq-some}
use tamga_go.Json.{Json, Object}
use tamga_go.Errors.{ok, plain, wrap, or_fail}
use tamga_go.Errors.Laws.{bind-eq-ok, bind-of_ok, or_fail-eq-ok}
use tamga_go.Checkout.{Crypto, base64, verify_rsa_pkcs1v15}
use tamga_go.Proof.{
  proof_prefix, payload, serde_compat_marshal, build_offline_proof_payload_json, parse_proof,
  require_rsa, require_verified, verify_offline_proof,
}

module _ (encode : Json → Option Bytes) (crypto : Crypto) where
  open crypto use {decode_base64, rsa_verify_pkcs1v15, sha256}

  require_verified-eq-ok : (b : Bool) → require_verified encode crypto b ≡ ok tt → b ≡ true
  require_verified-eq-ok true e = refl
  require_verified-eq-ok false e = cc

  parse_proof-eq-ok :
      (proof sig : Bytes)
      → parse_proof encode crypto proof ≡ ok sig
      → (b64 : Bytes) × (proof ≡ proof_prefix ++ b64) × (decode_base64 b64 ≡ some sig)
  unfolding parse_proof
  parse_proof-eq-ok proof sig e =
      let (b64, cut_off, e₁) = bind-eq-ok (or_fail (cut_prefix proof proof_prefix) _) _ sig e in
      (
        b64,
        cut_prefix-eq-some proof proof_prefix b64
            (or_fail-eq-ok (cut_prefix proof proof_prefix) _ b64 cut_off),
        or_fail-eq-ok (decode_base64 b64) _ sig e₁,
      )

  parse_proof-of_parts :
      (b64 sig : Bytes)
      → decode_base64 b64 ≡ some sig
      → parse_proof encode crypto (proof_prefix ++ b64) ≡ ok sig
  unfolding parse_proof
  parse_proof-of_parts b64 sig d =
      bind-of_ok
        (or_fail (cut_prefix (proof_prefix ++ b64) proof_prefix) (plain (codes "malformed proof")))
        (base64 crypto) b64
        (ap (λ o. or_fail o (plain (codes "malformed proof"))) (cut_prefix-append proof_prefix b64))
      ∙ ap (λ o. or_fail o (wrap (plain (codes "invalid base64")))) d

  -- A key is there, the proof is the prefix and the base64 of a signature, and that is a signature
  -- by the key of the document that names the account, the machine and the dataset.
  abbrev pub Proves : Option Bytes → Bytes → Bytes → Bytes → Option Object → Bytes → Type 0
  Proves key account_id machine_id fingerprint dataset proof =
      (pub_key : Bytes) × (b64 : Bytes) × (sig : Bytes) × (text : Bytes) × (key ≡ some pub_key)
      × (proof ≡ proof_prefix ++ b64)
      × (decode_base64 b64 ≡ some sig)
      × (serde_compat_marshal encode (payload encode account_id machine_id fingerprint dataset)
          ≡ some text)
      × (rsa_verify_pkcs1v15 pub_key (sha256 text) sig ≡ true)

  verify_offline_proof-Proves :
      (key : Option Bytes) (account_id machine_id fingerprint : Bytes) (dataset : Option Object)
      (proof : Bytes)
      → verify_offline_proof encode crypto key account_id machine_id fingerprint dataset proof
        ≡ ok tt
      → Proves key account_id machine_id fingerprint dataset proof
  unfolding verify_offline_proof build_offline_proof_payload_json verify_rsa_pkcs1v15
  verify_offline_proof-Proves key account_id machine_id fingerprint dataset proof e =
      let (pub_key, given, e₁) = bind-eq-ok (require_rsa encode crypto key) _ tt e in
      let (sig, parsed, e₂) = bind-eq-ok (parse_proof encode crypto proof) _ tt e₁ in
      let built =
        build_offline_proof_payload_json encode account_id machine_id fingerprint dataset in
      let (text, encoded, e₃) = bind-eq-ok (or_fail built _) _ tt e₂ in
      let (b64, whole, decoded) = parse_proof-eq-ok proof sig parsed in
      (
        pub_key,
        b64,
        sig,
        text,
        or_fail-eq-ok key _ pub_key given,
        whole,
        decoded,
        or_fail-eq-ok built _ text encoded,
        require_verified-eq-ok _ e₃,
      )

  verify_offline_proof-of_Proves :
      (key : Option Bytes) (account_id machine_id fingerprint : Bytes) (dataset : Option Object)
      (proof : Bytes)
      → Proves key account_id machine_id fingerprint dataset proof
      → verify_offline_proof encode crypto key account_id machine_id fingerprint dataset proof
        ≡ ok tt
  unfolding verify_offline_proof build_offline_proof_payload_json verify_rsa_pkcs1v15
  verify_offline_proof-of_Proves key account_id machine_id fingerprint dataset proof
        (pub_key, b64, sig, text, given, whole, decoded, built, signed) =
      let parsed : parse_proof encode crypto proof ≡ ok sig =
        ap (parse_proof encode crypto) whole ∙ parse_proof-of_parts b64 sig decoded in
      rw (given, parsed, built, signed) refl

  -- VerifyOfflineProof returns no error if and only if a key is given, the proof is the prefix and
  -- the base64 of a signature, and that is an RSA signature by the key of the rewritten JSON of the
  -- account, the machine and the dataset.
  pub verify_offline_proof-Proves_iff :
      (key : Option Bytes) (account_id machine_id fingerprint : Bytes) (dataset : Option Object)
      (proof : Bytes)
      → (verify_offline_proof encode crypto key account_id machine_id fingerprint dataset proof
          ≡ ok tt)
        ↔ Proves key account_id machine_id fingerprint dataset proof
  verify_offline_proof-Proves_iff key account_id machine_id fingerprint dataset proof = (
    verify_offline_proof-Proves key account_id machine_id fingerprint dataset proof,
    verify_offline_proof-of_Proves key account_id machine_id fingerprint dataset proof,
  )
