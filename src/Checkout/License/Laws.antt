-- ===== src/Checkout/License/Laws.antt =====
-- Which license files (*LicenseFile).Verify accepts.
use tamga_go.Base.{
  ◌↔◌, subst, ap, ◌∙◌, ℤ, pos, ◌≡◌, ◌≢◌, ◌-ℤ◌, ◌⊎◌, refl, true, Option, some, InInt64, arith,
  length, Bool-cases, inl, inr,
}
use tamga_go.Checkout.Envelope.{
  check_claims-of_live, IsPast, check_claims-eq-ok, require_signature-eq-ok,
}
use tamga_go.Text.{Bytes, ◌==◌}
use tamga_go.Text.Laws.{==_iff}
use tamga_go.Errors.{Result, ok, or_fail}
use tamga_go.Errors.Laws.{bind-eq-ok, then-eq-ok, or_fail-eq-ok}
use tamga_go.Resource.{LicenseFileClaims}
use tamga_go.Checkout.{Crypto, base64, verify_ed25519, require_signature, check_claims}
use tamga_go.Checkout.License.{
  LicenseFile, LicensePayload, DecodedLicense, alg_base64_ed25519, alg_aes256_gcm_ed25519,
  validate_license_file_alg, decode_plaintext, payload_from, verify,
}

validate_license_file_alg-eq-ok :
    (alg : Bytes)
    → validate_license_file_alg alg ≡ ok tt
    → (alg ≡ alg_base64_ed25519) ⊎ (alg ≡ alg_aes256_gcm_ed25519)
unfolding validate_license_file_alg
validate_license_file_alg-eq-ok alg e = elim (Bool-cases (alg == alg_base64_ed25519)) [
  | inl t ↦ inl ((==_iff alg alg_base64_ed25519).0 t)
  | inr f ↦ elim (Bool-cases (alg == alg_aes256_gcm_ed25519)) [
    | inl t ↦ inr ((==_iff alg alg_aes256_gcm_ed25519).0 t)
    | inr g ↦ absurd (ground arith)
  ]
]

validate_license_file_alg-of_known :
    (alg : Bytes)
    → (alg ≡ alg_base64_ed25519) ⊎ (alg ≡ alg_aes256_gcm_ed25519)
    → validate_license_file_alg alg ≡ ok tt
unfolding validate_license_file_alg
validate_license_file_alg-of_known alg known =
    ground (arith, ==_iff alg alg_base64_ed25519, ==_iff alg alg_aes256_gcm_ed25519)

module _ (crypto : Crypto) (unmarshal : Bytes → Option DecodedLicense) where
  open crypto use {decode_base64, ed25519_verify}

  -- The document in `text` holds the payload, and its claims are not past their expiry.
  abbrev pub Decodes : ℤ → Bytes → LicensePayload → Type 0
  Decodes now text p =
      (unmarshal text ≡ some (record { contents = p.contents; meta = some p.claims }))
      × (p.claims.expires_at ≢ pos 0 → ¬ IsPast now p.claims.expires_at)

  payload-eq :
      (d : DecodedLicense) (claims : LicenseFileClaims) (p : LicensePayload)
      → ◌≡◌ {A = Result LicensePayload}
          (ok (record { claims = claims; contents = d.contents }))
          (ok p)
      → d.meta ≡ some claims
      → ◌≡◌ {A = DecodedLicense} d (record { contents = p.contents; meta = some p.claims })
  payload-eq d claims p e m = cc

  pub payload_from-eq-ok :
      (f : LicenseFile) (text : Bytes) (p : LicensePayload)
      → InInt64 (f.now -ℤ pos 60)
      → payload_from crypto unmarshal f text ≡ ok p
      → Decodes f.now text p
  unfolding payload_from
  payload_from-eq-ok f text p range e =
      let (d, decoded, e₁) = bind-eq-ok (or_fail (unmarshal text) _) _ p e in
      let (claims, checked, e₂) = bind-eq-ok (check_claims f.now d.meta) _ p e₁ in
      let (meta, live) = check_claims-eq-ok f.now d.meta claims range checked in
      let q : claims ≡ p.claims = cc in
      (
        or_fail-eq-ok (unmarshal text) _ d decoded ∙ ap some (payload-eq d claims p e₂ meta),
        subst (λ k. k.expires_at ≢ pos 0 → ¬ IsPast f.now k.expires_at) q live,
      )

  -- The signature in the file is a signature of `enc` by the key.
  abbrev pub Signed : LicenseFile → Bytes → Type 0
  Signed f pub_key =
      (sig : Bytes) × (decode_base64 f.sig ≡ some sig)
      × (length pub_key ≡ 32)
      × (ed25519_verify pub_key f.enc sig ≡ true)

  pub verify_ed25519-eq-true :
      (k m s : Bytes)
      → verify_ed25519 crypto k m s ≡ true
      → (length k ≡ 32) × (ed25519_verify k m s ≡ true)
  unfolding verify_ed25519
  verify_ed25519-eq-true k m s e = ground arith

  abbrev pub Accepted : LicenseFile → Bytes → Bytes → LicensePayload → Type 0
  Accepted f pub_key license_key p =
      ((f.alg ≡ alg_base64_ed25519) ⊎ (f.alg ≡ alg_aes256_gcm_ed25519))
      × Signed f pub_key
      × ((text : Bytes) × (decode_plaintext crypto unmarshal f license_key ≡ ok text)
          × Decodes f.now text p)

  verify-Accepted :
      (f : LicenseFile) (pub_key license_key : Bytes) (p : LicensePayload)
      → InInt64 (f.now -ℤ pos 60)
      → verify crypto unmarshal f pub_key license_key ≡ ok p
      → Accepted f pub_key license_key p
  unfolding verify
  verify-Accepted f pub_key license_key p range e =
      let (alg, e₁) = then-eq-ok (validate_license_file_alg f.alg) _ p e in
      let (sig, decoded, e₂) = bind-eq-ok (base64 crypto f.sig) _ p e₁ in
      let (signed, e₃) = then-eq-ok (require_signature _) _ p e₂ in
      let (text, plaintext, e₄) =
        bind-eq-ok (decode_plaintext crypto unmarshal f license_key) _ p e₃ in
      (
        validate_license_file_alg-eq-ok f.alg alg,
        (
          sig,
          or_fail-eq-ok (decode_base64 f.sig) _ sig decoded,
          (verify_ed25519-eq-true pub_key f.enc sig (require_signature-eq-ok _ signed)).0,
          (verify_ed25519-eq-true pub_key f.enc sig (require_signature-eq-ok _ signed)).1,
        ),
        (text, plaintext, payload_from-eq-ok f text p range e₄),
      )

  Signed-verifies :
      (pub_key enc sig : Bytes)
      → length pub_key ≡ 32
      → ed25519_verify pub_key enc sig ≡ true
      → verify_ed25519 crypto pub_key enc sig ≡ true
  unfolding verify_ed25519
  Signed-verifies pub_key enc sig n s = ground arith

  payload_from-of_Decodes :
      (f : LicenseFile) (text : Bytes) (p : LicensePayload)
      → InInt64 (f.now -ℤ pos 60)
      → Decodes f.now text p
      → payload_from crypto unmarshal f text ≡ ok p
  unfolding payload_from
  payload_from-of_Decodes f text p range (u, live) =
      rw (u, check_claims-of_live f.now p.claims range live) refl

  of_Accepted :
      (f : LicenseFile) (pub_key license_key : Bytes) (p : LicensePayload)
      → InInt64 (f.now -ℤ pos 60)
      → Accepted f pub_key license_key p
      → verify crypto unmarshal f pub_key license_key ≡ ok p
  unfolding verify validate_license_file_alg
  of_Accepted f pub_key license_key p range (alg, (sig, d, n, s), (text, t, decodes)) =
      let known : validate_license_file_alg f.alg ≡ ok tt =
        validate_license_file_alg-of_known f.alg alg in
      rw (known, d, Signed-verifies pub_key f.enc sig n s, t)
        (payload_from-of_Decodes f text p range decodes)

  -- With a clock at which a minute less is an int64: Verify returns a payload if and only if the
  -- file names one of the two algorithms, the key signed its text, that text decodes under the
  -- license key, and the document in it holds the payload, whose claims are not past their expiry.
  pub verify-Accepted_iff :
      (f : LicenseFile) (pub_key license_key : Bytes) (p : LicensePayload)
      → InInt64 (f.now -ℤ pos 60)
      → (verify crypto unmarshal f pub_key license_key ≡ ok p) ↔ Accepted f pub_key license_key p
  verify-Accepted_iff f pub_key license_key p range =
      (verify-Accepted f pub_key license_key p range, of_Accepted f pub_key license_key p range)
