-- ===== src/Checkout/Sealing/Machines.antt =====
-- Machine files that were sealed and signed, from their text to their payload.
use tamga_go.Checkout.Machine.{
  machine_file_pem_header, machine_file_pem_footer, scheme_ed25519_sign, scheme_rsa2048_pkcs1_sign,
  scheme_rsa2048_pkcs1_pss_sign, scheme_ecdsa_p256_sign, MachineFile, MachinePayload,
  DecodedMachine, parse_machine_file, split_encrypted_enc, scheme_alg_suffix,
  verify_machine_file_signature, scheme_rsa2048_jwt_rs256,
}
use tamga_go.Errors.{ok}
use tamga_go.Errors.Laws.{bind-of_ok}
use tamga_go.Base.{
  true, false, ℤ, pos, ◌≡◌, ◌≢◌, ◌≤◌, ◌-ℤ◌, refl, Option, none, some, [], ◌∷◌, ◌++◌, All, arith,
  length, ltb, InInt64, All-append,
}
use mathlib.Core.List.{reverse}
use tamga_go.Text.{Bytes, codes, ◌==◌, cut, contains}
use tamga_go.Text.Laws.{==_iff, Free, cut-append, contains-eq-false_iff}
use tamga_go.Resource.{CertPayload}
use tamga_go.Checkout.{Crypto, PublicKey, parse_cert, seal_aes_gcm, derive_machine_file_key}
use tamga_go.Checkout.Machine
use tamga_go.Checkout.Machine.Algorithm.{version_marker, parse_machine_file_alg_iff}
use tamga_go.Checkout.Machine.Laws.{Decodes, verify_machine-Accepted_iff}
use tamga_go.Checkout.Sealing.Suffixes.{scheme_alg_suffix-IsPlain, scheme_alg_suffix-ne-nil}
use tamga_go.Checkout.Sealing.{
  IsPlainCert, base64-IsPlain, are_plain-IsPlain, Undoes, is_base64_byte, envelope,
  parse_cert-envelope, open_aes_gcm-of_sealed,
}
use tamga_go.Text.Spaces.{IsPlain}

-- The algorithm of an encrypted file of a scheme.
abbrev pub sealed_alg : Bytes → Bytes
sealed_alg suffix = codes "aes-256-gcm" ++ (b'+' ∷ suffix ++ version_marker)

module _ (encode_base64 : Bytes → Bytes) (marshal_cert : CertPayload → Bytes) where
  -- The two parts of the encrypted text, each encoded by itself.
  abbrev pub sealed_enc : Bytes → Bytes → Bytes
  sealed_enc nonce sealed = encode_base64 nonce ++ (b'.' ∷ encode_base64 sealed)

  -- The text of a machine file, signed by `sig`.
  unfoldable pub machine_pem : Bytes → Bytes → Bytes → Bytes → Bytes
  machine_pem suffix nonce sealed sig = envelope machine_file_pem_header machine_file_pem_footer (
      encode_base64 (
        marshal_cert (record {
          enc = sealed_enc nonce sealed;
          sig = encode_base64 sig;
          alg = sealed_alg suffix;
        })))

base64-Free : (s : Bytes) → All (λ c. is_base64_byte c ≡ true) s → Free b'.' s
base64-Free [] h = tt
base64-Free (c ∷ s) (p, h) = (ground arith, base64-Free s h)

module _ (crypto : Crypto) (encode_base64 : Bytes → Bytes) (marshal_cert : CertPayload → Bytes)
    (undoes : Undoes crypto encode_base64 marshal_cert) where
  split_encrypted_enc-of_cut :
      (enc a b nonce sealed : Bytes)
      → cut b'.' enc ≡ some (a, b)
      → contains b'.' b ≡ false
      → crypto.decode_base64 a ≡ some nonce
      → crypto.decode_base64 b ≡ some sealed
      → 16 ≤ length sealed
      → split_encrypted_enc crypto enc ≡ ok (nonce, sealed)
  unfolding split_encrypted_enc
  split_encrypted_enc-of_cut enc a b nonce sealed found one left right le =
      let long : ltb (length sealed) 16 ≡ false = ground arith in
      rw (found, split_encrypted_enc) (rw (one, left, right, long) refl)

  split_encrypted_enc-sealed_enc :
      (nonce sealed : Bytes)
      → 16 ≤ length sealed
      → split_encrypted_enc crypto (sealed_enc encode_base64 marshal_cert nonce sealed)
        ≡ ok (nonce, sealed)
  split_encrypted_enc-sealed_enc nonce sealed le =
      split_encrypted_enc-of_cut (sealed_enc encode_base64 marshal_cert nonce sealed)
        (encode_base64 nonce) (encode_base64 sealed) nonce sealed
        (cut-append b'.' (encode_base64 nonce) (encode_base64 sealed)
          (base64-Free (encode_base64 nonce) (undoes.base64_bytes nonce)))
        ((contains-eq-false_iff b'.' (encode_base64 sealed)).1
          (base64-Free (encode_base64 sealed) (undoes.base64_bytes sealed)))
        (undoes.decodes nonce) (undoes.decodes sealed) le

  module _ (unmarshal : Bytes → Option DecodedMachine) where
    abbrev machine_file : ℤ → Bytes → Bytes → Bytes → Bytes → MachineFile
    machine_file now suffix nonce sealed sig = record {
      enc = sealed_enc encode_base64 marshal_cert nonce sealed;
      sig = encode_base64 sig;
      alg = sealed_alg suffix;
      pem = machine_pem encode_base64 marshal_cert suffix nonce sealed sig;
      now = now;
      id = [];
      ttl = none;
      expiry = none;
      issued = [];
      includes = [];
    }

    machine_cert-IsPlainCert :
        (suffix nonce sealed sig : Bytes)
        → All IsPlain suffix
        → IsPlainCert (record {
          enc = sealed_enc encode_base64 marshal_cert nonce sealed;
          sig = encode_base64 sig;
          alg = sealed_alg suffix;
        })
    machine_cert-IsPlainCert suffix nonce sealed sig plain = (
      All-append IsPlain (encode_base64 nonce) (b'.' ∷ encode_base64 sealed)
          (base64-IsPlain (encode_base64 nonce) (undoes.base64_bytes nonce))
          (
            (omega arith, omega arith),
            base64-IsPlain (encode_base64 sealed) (undoes.base64_bytes sealed),
          ),
      base64-IsPlain (encode_base64 sig) (undoes.base64_bytes sig),
      All-append IsPlain (codes "aes-256-gcm") (b'+' ∷ suffix ++ version_marker)
          (are_plain-IsPlain (codes "aes-256-gcm") refl)
          (
            (omega arith, omega arith),
            All-append IsPlain suffix version_marker plain (are_plain-IsPlain version_marker refl),
          ),
    )

    parse_machine_file-machine_pem :
        (now : ℤ) (suffix nonce sealed sig : Bytes)
        → All IsPlain suffix
        → parse_machine_file crypto unmarshal now
            (machine_pem encode_base64 marshal_cert suffix nonce sealed sig)
          ≡ ok (machine_file now suffix nonce sealed sig)
    unfolding parse_machine_file machine_pem
    parse_machine_file-machine_pem now suffix nonce sealed sig plain =
        bind-of_ok
          (parse_cert crypto machine_file_pem_header machine_file_pem_footer
            (machine_pem encode_base64 marshal_cert suffix nonce sealed sig))
          _ _
          (parse_cert-envelope crypto encode_base64 marshal_cert undoes b'-'
            (codes "----BEGIN MACHINE FILE-----") machine_file_pem_footer b'-'
            (reverse (codes "-----END MACHINE FILE----")) _ (omega arith, omega arith) refl
            (omega arith, omega arith) (machine_cert-IsPlainCert suffix nonce sealed sig plain))

    decode_plaintext-machine_file :
        (now : ℤ) (license_key fingerprint key suffix nonce text sealed sig : Bytes)
        → license_key ≢ []
        → fingerprint ≢ []
        → derive_machine_file_key crypto license_key fingerprint ≡ ok key
        → seal_aes_gcm crypto key nonce text ≡ ok sealed
        → Machine.decode_plaintext crypto
            (machine_file now suffix nonce sealed sig)
            (codes "aes-256-gcm")
            license_key
            fingerprint
          ≡ ok text
    unfolding Machine.decode_plaintext ◌==◌
    decode_plaintext-machine_file now license_key fingerprint key suffix nonce text sealed sig named
          printed derived q =
        let (n, m, opened) =
          open_aes_gcm-of_sealed crypto encode_base64 marshal_cert undoes key nonce text sealed q in
        let long : 16 ≤ length sealed = omega arith in
        let given : (license_key == []) ≡ false = ground (arith, ==_iff license_key []) in
        let known : (fingerprint == []) ≡ false = ground (arith, ==_iff fingerprint []) in
        rw (given, known, split_encrypted_enc-sealed_enc nonce sealed long, derived) opened

    -- A machine file whose document was sealed with SealAESGCM under the key derived from the
    -- license key and the fingerprint, and whose text was signed under the scheme, parses, and
    -- Verify returns the payload in the document, if its claims are not past their expiry.
    pub verify-machine_pem :
        (now : ℤ) (scheme suffix : Bytes) (pub_key : PublicKey)
        (license_key fingerprint key nonce text sealed sig : Bytes) (p : MachinePayload)
        → InInt64 (now -ℤ pos 60)
        → scheme ≢ scheme_rsa2048_jwt_rs256
        → scheme_alg_suffix scheme ≡ ok suffix
        → license_key ≢ []
        → fingerprint ≢ []
        → derive_machine_file_key crypto license_key fingerprint ≡ ok key
        → seal_aes_gcm crypto key nonce text ≡ ok sealed
        → verify_machine_file_signature crypto scheme pub_key
            (sealed_enc encode_base64 marshal_cert nonce sealed)
            sig
          ≡ ok true
        → Decodes crypto unmarshal now text p
        → (f : MachineFile) × (parse_machine_file crypto unmarshal now
              (machine_pem encode_base64 marshal_cert suffix nonce sealed sig)
            ≡ ok f)
          × (Machine.verify crypto unmarshal f scheme pub_key license_key fingerprint ≡ ok p)
    verify-machine_pem now scheme suffix pub_key license_key fingerprint key nonce text sealed sig p
          range other known named printed derived q signed decodes =
        let f = machine_file now suffix nonce sealed sig in
        let compound =
          (parse_machine_file_alg_iff (sealed_alg suffix) (codes "aes-256-gcm") suffix).1
            (refl, ground arith, (λ e. cc), scheme_alg_suffix-ne-nil scheme suffix known) in
        (
          f,
          parse_machine_file-machine_pem now suffix nonce sealed sig
              (scheme_alg_suffix-IsPlain scheme suffix known),
          (verify_machine-Accepted_iff crypto unmarshal f scheme pub_key license_key fingerprint p
                range).1
              (
                codes "aes-256-gcm",
                sig,
                text,
                (suffix, other, compound, known),
                undoes.decodes sig,
                signed,
                decode_plaintext-machine_file now license_key fingerprint key suffix nonce text
                    sealed sig named printed derived q,
                decodes,
              ),
        )
