-- ===== src/Checkout/Machine/Laws.antt =====
-- Which machine files (*MachineFile).Verify accepts.
use mathlib.Core.Bool.{true≢false}
use tamga_go.Base.{
  ℤ, pos, ◌≡◌, ◌≢◌, ◌-ℤ◌, ◌↔◌, ◌∙◌, ap, subst, sym, refl, true, Option, some, InInt64, arith,
  Bool-cases, inl, inr,
}
use tamga_go.Text.{Bytes, ◌==◌}
use tamga_go.Text.Laws.{==_iff}
use tamga_go.Errors.{Result, ok, or_fail}
use tamga_go.Errors.Laws.{
  bind-eq-ok, then-eq-ok, or_fail-eq-ok, guard-eq-ok, guard-of_false, bind-of_ok,
}
use tamga_go.Resource.{LicenseFileClaims}
use tamga_go.Checkout.{Crypto, PublicKey, base64, require_signature, check_claims}
use tamga_go.Checkout.Envelope.{
  IsPast, check_claims-eq-ok, check_claims-of_live, require_signature-eq-ok,
}
use tamga_go.Checkout.Machine.{
  MachineFile, MachinePayload, DecodedMachine, parse_machine_file_alg, scheme_alg_suffix,
  scheme_rsa2048_jwt_rs256, verify_machine_file_signature, decode_plaintext, payload_from,
  check_scheme, require_suffix, verify,
}

module _ (crypto : Crypto) (unmarshal : Bytes → Option DecodedMachine) where
  open crypto use {decode_base64}

  abbrev pub Decodes : ℤ → Bytes → MachinePayload → Type 0
  Decodes now text p =
      (unmarshal text ≡ some (record { contents = p.contents; meta = some p.claims }))
      × (p.claims.expires_at ≢ pos 0 → ¬ IsPast now p.claims.expires_at)

  payload-eq :
      (d : DecodedMachine) (claims : LicenseFileClaims) (p : MachinePayload)
      → ◌≡◌ {A = Result MachinePayload}
          (ok (record { contents = d.contents; claims = claims }))
          (ok p)
      → d.meta ≡ some claims
      → ◌≡◌ {A = DecodedMachine} d (record { contents = p.contents; meta = some p.claims })
  payload-eq d claims p e m = cc

  payload_from-eq-ok :
      (f : MachineFile) (text : Bytes) (p : MachinePayload)
      → InInt64 (f.now -ℤ pos 60)
      → payload_from crypto unmarshal f text ≡ ok p
      → Decodes f.now text p
  unfolding payload_from
  payload_from-eq-ok f text p range e =
      let (d, decoded, e₁) = bind-eq-ok (or_fail (unmarshal text) _) _ p e in
      let (claims, checked, e₂) = bind-eq-ok (check_claims f.now d.meta) _ p e₁ in
      let (meta, live) = check_claims-eq-ok f.now d.meta claims range checked in
      let q : claims ≡ p.claims = cc in
      (
        or_fail-eq-ok (unmarshal text) _ d decoded ∙ ap some (payload-eq d claims p e₂ meta),
        subst (λ k. k.expires_at ≢ pos 0 → ¬ IsPast f.now k.expires_at) q live,
      )

  payload_from-of_Decodes :
      (f : MachineFile) (text : Bytes) (p : MachinePayload)
      → InInt64 (f.now -ℤ pos 60)
      → Decodes f.now text p
      → payload_from crypto unmarshal f text ≡ ok p
  unfolding payload_from
  payload_from-of_Decodes f text p range (u, live) =
      rw (u, check_claims-of_live f.now p.claims range live) refl

  -- The file's algorithm names the encoding `prefix` and the suffix that belongs to the scheme.
  abbrev pub Names : MachineFile → Bytes → Bytes → Type 0
  Names f scheme prefix =
      (suffix : Bytes) × (scheme ≢ scheme_rsa2048_jwt_rs256)
      × (parse_machine_file_alg f.alg ≡ ok (prefix, suffix))
      × (scheme_alg_suffix scheme ≡ ok suffix)

  require_suffix_iff :
      (found expected : Bytes)
      → (require_suffix crypto unmarshal found expected ≡ ok tt) ↔ (found ≡ expected)
  require_suffix_iff found expected =
      (λ e. (==_iff found expected).0 (ground arith), λ q. ground (arith, ==_iff found expected))

  check_scheme-Names :
      (f : MachineFile) (scheme prefix : Bytes)
      → check_scheme crypto unmarshal f scheme ≡ ok prefix
      → Names f scheme prefix
  unfolding check_scheme
  check_scheme-Names f scheme prefix e =
      let (other_scheme, e₁) = guard-eq-ok (scheme == scheme_rsa2048_jwt_rs256) _ _ prefix e in
      let ((found, suffix), parsed, e₂) = bind-eq-ok (parse_machine_file_alg f.alg) _ prefix e₁ in
      let (expected, known, e₃) = bind-eq-ok (scheme_alg_suffix scheme) _ prefix e₂ in
      let (required, e₄) =
        then-eq-ok (require_suffix crypto unmarshal suffix expected) _ prefix e₃ in
      let same = (require_suffix_iff suffix expected).0 required in
      let here : found ≡ prefix = cc in
      (
        suffix,
        λ q. true≢false (sym ((==_iff scheme scheme_rsa2048_jwt_rs256).1 q) ∙ other_scheme),
        parsed ∙ ap (λ x. ok (x, suffix)) here,
        known ∙ ap ok (sym same),
      )

  check_scheme-of_Names :
      (f : MachineFile) (scheme prefix : Bytes)
      → Names f scheme prefix
      → check_scheme crypto unmarshal f scheme ≡ ok prefix
  unfolding check_scheme
  check_scheme-of_Names f scheme prefix (suffix, differs, parsed, known) =
      elim (Bool-cases (scheme == scheme_rsa2048_jwt_rs256)) [
        | inl t ↦ absurd (differs ((==_iff scheme scheme_rsa2048_jwt_rs256).0 t))
        | inr n ↦
            guard-of_false (scheme == scheme_rsa2048_jwt_rs256) _ _ n
            ∙ bind-of_ok (parse_machine_file_alg f.alg) _ (prefix, suffix) parsed
            ∙ bind-of_ok (scheme_alg_suffix scheme) _ suffix known
            ∙ bind-of_ok (require_suffix crypto unmarshal suffix suffix) _ tt
                ((require_suffix_iff suffix suffix).1 refl)
      ]

  -- The file is accepted with payload `p`.
  abbrev pub Accepted : MachineFile → Bytes → PublicKey → Bytes → Bytes → MachinePayload → Type 0
  Accepted f scheme key license_key fingerprint p =
      (prefix : Bytes) × (sig : Bytes) × (text : Bytes) × Names f scheme prefix
      × (decode_base64 f.sig ≡ some sig)
      × (verify_machine_file_signature crypto scheme key f.enc sig ≡ ok true)
      × (decode_plaintext crypto f prefix license_key fingerprint ≡ ok text)
      × Decodes f.now text p

  verify-Accepted :
      (f : MachineFile) (scheme : Bytes) (key : PublicKey) (license_key fingerprint : Bytes)
      (p : MachinePayload)
      → InInt64 (f.now -ℤ pos 60)
      → verify crypto unmarshal f scheme key license_key fingerprint ≡ ok p
      → Accepted f scheme key license_key fingerprint p
  unfolding verify
  verify-Accepted f scheme key license_key fingerprint p range e =
      let (prefix, named, e₁) = bind-eq-ok (check_scheme crypto unmarshal f scheme) _ p e in
      let (sig, decoded, e₂) = bind-eq-ok (base64 crypto f.sig) _ p e₁ in
      let (verified, checked, e₃) =
        bind-eq-ok (verify_machine_file_signature crypto scheme key f.enc sig) _ p e₂ in
      let (signed, e₄) = then-eq-ok (require_signature verified) _ p e₃ in
      let (text, t, e₅) =
        bind-eq-ok (decode_plaintext crypto f prefix license_key fingerprint) _ p e₄ in
      (
        prefix,
        sig,
        text,
        check_scheme-Names f scheme prefix named,
        or_fail-eq-ok (decode_base64 f.sig) _ sig decoded,
        checked ∙ ap ok (require_signature-eq-ok verified signed),
        t,
        payload_from-eq-ok f text p range e₅,
      )

  verify-of_Accepted :
      (f : MachineFile) (scheme : Bytes) (key : PublicKey) (license_key fingerprint : Bytes)
      (p : MachinePayload)
      → InInt64 (f.now -ℤ pos 60)
      → Accepted f scheme key license_key fingerprint p
      → verify crypto unmarshal f scheme key license_key fingerprint ≡ ok p
  unfolding verify
  verify-of_Accepted f scheme key license_key fingerprint p range
        (prefix, sig, text, named, d, s, t, decodes) =
      rw (check_scheme-of_Names f scheme prefix named, d, s, t)
        (payload_from-of_Decodes f text p range decodes)

  pub verify_machine-Accepted_iff :
      (f : MachineFile) (scheme : Bytes) (key : PublicKey) (license_key fingerprint : Bytes)
      (p : MachinePayload)
      → InInt64 (f.now -ℤ pos 60)
      → (verify crypto unmarshal f scheme key license_key fingerprint ≡ ok p)
        ↔ Accepted f scheme key license_key fingerprint p
  verify_machine-Accepted_iff f scheme key license_key fingerprint p range = (
    verify-Accepted f scheme key license_key fingerprint p range,
    verify-of_Accepted f scheme key license_key fingerprint p range,
  )
