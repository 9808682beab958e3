-- ===== src/Checkout/Sealing/Files.antt =====
-- License files and machine files that were sealed and signed, from their text to their payload.
use tamga_go.Checkout.License.{
  license_file_pem_header, license_file_pem_footer, LicenseFile, LicensePayload, DecodedLicense,
  parse_license_file, decrypt_license, alg_aes256_gcm_ed25519,
}
use mathlib.Core.List.{reverse}
use tamga_go.Base.{
  ℕ, ℤ, pos, ◌≡◌, ◌≢◌, ◌-ℤ◌, refl, true, false, Option, none, [], ◌++◌, arith, length, take, drop,
  ltb, length-append, InInt64, inr,
}
use tamga_go.Text.{Bytes, codes, ◌==◌}
use tamga_go.Text.Laws.{take-append_length, drop-append_length, ==_iff}
use tamga_go.Errors.{ok}
use tamga_go.Errors.Laws.{bind-of_ok}
use tamga_go.Resource.{CertPayload}
use tamga_go.Checkout.{Crypto, parse_cert, seal_aes_gcm, derive_license_file_key}
use tamga_go.Checkout.License
use tamga_go.Checkout.License.Laws.{Decodes, verify-Accepted_iff}
use tamga_go.Checkout.Sealing.{
  IsPlainCert, base64-IsPlain, are_plain-IsPlain, Undoes, envelope, base64-encode,
  parse_cert-envelope, open_aes_gcm-of_sealed,
}

module _ (encode_base64 : Bytes → Bytes) (marshal_cert : CertPayload → Bytes) where
  -- The text of a license file: the nonce and what is sealed in one blob, signed by `sig`.
  unfoldable pub license_pem : Bytes → Bytes → Bytes → Bytes
  license_pem nonce sealed sig = envelope license_file_pem_header license_file_pem_footer (
      encode_base64 (
        marshal_cert (record {
          enc = encode_base64 (nonce ++ sealed);
          sig = encode_base64 sig;
          alg = alg_aes256_gcm_ed25519;
        })))

module _ (crypto : Crypto) (encode_base64 : Bytes → Bytes) (marshal_cert : CertPayload → Bytes)
    (undoes : Undoes crypto encode_base64 marshal_cert) where
  take_prefix : (n : ℕ) (s t : Bytes) → length s ≡ n → take n (s ++ t) ≡ s
  take_prefix n s t e = rw (← e) (take-append_length s t)

  drop_prefix : (n : ℕ) (s t : Bytes) → length s ≡ n → drop n (s ++ t) ≡ t
  drop_prefix n s t e = rw (← e) (drop-append_length s t)

  module _ (unmarshal : Bytes → Option DecodedLicense) where
    decrypt_license-of_sealed :
        (license_key key nonce text sealed : Bytes)
        → license_key ≢ []
        → derive_license_file_key crypto license_key ≡ ok key
        → seal_aes_gcm crypto key nonce text ≡ ok sealed
        → decrypt_license crypto unmarshal license_key (nonce ++ sealed) ≡ ok text
    unfolding decrypt_license
    decrypt_license-of_sealed license_key key nonce text sealed named derived q =
        let (n, m, opened) =
          open_aes_gcm-of_sealed crypto encode_base64 marshal_cert undoes key nonce text sealed q in
        let given : (license_key == []) ≡ false = ground (arith, ==_iff license_key []) in
        let long : ltb (length (nonce ++ sealed)) 28 ≡ false =
          ground (arith, length-append nonce sealed) in
        rw (given, derived, long, take_prefix 12 nonce sealed n, drop_prefix 12 nonce sealed n)
          opened

    abbrev license_file : ℤ → Bytes → Bytes → Bytes → LicenseFile
    license_file now nonce sealed sig = record {
      ttl = none;
      expiry = none;
      now = now;
      enc = encode_base64 (nonce ++ sealed);
      sig = encode_base64 sig;
      alg = alg_aes256_gcm_ed25519;
      pem = license_pem encode_base64 marshal_cert nonce sealed sig;
      id = [];
      issued = [];
      includes = [];
    }

    license_cert-IsPlainCert :
        (nonce sealed sig : Bytes)
        → IsPlainCert (record {
          enc = encode_base64 (nonce ++ sealed);
          sig = encode_base64 sig;
          alg = alg_aes256_gcm_ed25519;
        })
    license_cert-IsPlainCert nonce sealed sig = (
      base64-IsPlain (encode_base64 (nonce ++ sealed)) (undoes.base64_bytes (nonce ++ sealed)),
      base64-IsPlain (encode_base64 sig) (undoes.base64_bytes sig),
      are_plain-IsPlain alg_aes256_gcm_ed25519 refl,
    )

    parse_license_file-license_pem :
        (now : ℤ) (nonce sealed sig : Bytes)
        → parse_license_file crypto unmarshal now
            (license_pem encode_base64 marshal_cert nonce sealed sig)
          ≡ ok (license_file now nonce sealed sig)
    unfolding parse_license_file license_pem
    parse_license_file-license_pem now nonce sealed sig =
        bind-of_ok
          (parse_cert crypto license_file_pem_header license_file_pem_footer
            (license_pem encode_base64 marshal_cert nonce sealed sig))
          _ _
          (parse_cert-envelope crypto encode_base64 marshal_cert undoes b'-'
            (codes "----BEGIN LICENSE FILE-----") license_file_pem_footer b'-'
            (reverse (codes "-----END LICENSE FILE----")) _ (omega arith, omega arith) refl
            (omega arith, omega arith) (license_cert-IsPlainCert nonce sealed sig))

    decode_plaintext-license_file :
        (now : ℤ) (license_key key nonce text sealed sig : Bytes)
        → license_key ≢ []
        → derive_license_file_key crypto license_key ≡ ok key
        → seal_aes_gcm crypto key nonce text ≡ ok sealed
        → License.decode_plaintext crypto unmarshal (license_file now nonce sealed sig) license_key
          ≡ ok text
    unfolding License.decode_plaintext ◌==◌
    decode_plaintext-license_file now license_key key nonce text sealed sig named derived q =
        rw (base64-encode crypto encode_base64 marshal_cert undoes (nonce ++ sealed))
          (decrypt_license-of_sealed license_key key nonce text sealed named derived q)

    -- A license file whose document was sealed with SealAESGCM under the key derived from the license
    -- key, and whose blob was signed, parses, and Verify returns the payload in the document, if its
    -- claims are not past their expiry.
    pub verify-license_pem :
        (now : ℤ) (pub_key license_key key nonce text sealed sig : Bytes) (p : LicensePayload)
        → InInt64 (now -ℤ pos 60)
        → license_key ≢ []
        → derive_license_file_key crypto license_key ≡ ok key
        → seal_aes_gcm crypto key nonce text ≡ ok sealed
        → length pub_key ≡ 32
        → crypto.ed25519_verify pub_key (encode_base64 (nonce ++ sealed)) sig ≡ true
        → Decodes crypto unmarshal now text p
        → (f : LicenseFile) × (parse_license_file crypto unmarshal now
              (license_pem encode_base64 marshal_cert nonce sealed sig)
            ≡ ok f)
          × (License.verify crypto unmarshal f pub_key license_key ≡ ok p)
    verify-license_pem now pub_key license_key key nonce text sealed sig p range named derived q n s
          decodes =
        let f = license_file now nonce sealed sig in
        (
          f,
          parse_license_file-license_pem now nonce sealed sig,
          (verify-Accepted_iff crypto unmarshal f pub_key license_key p range).1 (
            inr refl,
            (sig, undoes.decodes sig, n, s),
            (
              text,
              decode_plaintext-license_file now license_key key nonce text sealed sig named derived
                  q,
              decodes,
            ),
          ),
        )
