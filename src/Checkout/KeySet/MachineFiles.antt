-- ===== src/Checkout/KeySet/MachineFiles.antt =====
-- Verifying a machine file with a key set against verifying it with one key.
use mathlib.Core.List.{Memᴰ}
use tamga_go.Base.{◌≡◌, ◌∙◌, ap, refl, sym, Bool, true, false, not, Option, arith, eqb, subst}
use tamga_go.Text.{Bytes, ◌==◌}
use tamga_go.Text.Laws.{==_iff}
use tamga_go.Errors.{Result, ok}
use tamga_go.Errors.Laws.{bind-eq-ok, guard-eq-ok, then-eq-ok, ok-injective}
use tamga_go.Resource.{LicenseFileClaims}
use tamga_go.SigningKey.{SigningKeySet, Entry, entries_of, len}
use tamga_go.Checkout.{Crypto, ed25519, base64, verify_ed25519, require_signature}
use tamga_go.Checkout.Envelope.{require_signature-eq-ok}
use tamga_go.Checkout.Machine
use tamga_go.Checkout.Machine.{
  MachineFile, MachinePayload, DecodedMachine, check_scheme, verify_machine_file_signature,
  scheme_ed25519_sign,
}
use tamga_go.Checkout.KeySet.{Verified, try_keys, verify_machine_with_key_set}
use tamga_go.Checkout.KeySet.Laws.{try_keys-eq-ok, try_keys-of_good, len-of_member}

module _ (crypto : Crypto) (probe : Bytes → Option (Option LicenseFileClaims))
    (unmarshal : Bytes → Option DecodedMachine) (f : MachineFile) (keys : Option SigningKeySet)
    (license_key fingerprint : Bytes) where
  checks_as_ed25519 :
      (k enc sig : Bytes)
      → verify_machine_file_signature crypto scheme_ed25519_sign (ed25519 k) enc sig
        ≡ ok (verify_ed25519 crypto k enc sig)
  unfolding verify_machine_file_signature ◌==◌
  checks_as_ed25519 k enc sig = refl

  checked_as_ed25519 :
      (scheme k enc sig : Bytes)
      → scheme ≡ scheme_ed25519_sign
      → verify_ed25519 crypto k enc sig ≡ true
      → verify_machine_file_signature crypto scheme (ed25519 k) enc sig ≡ ok true
  checked_as_ed25519 scheme k enc sig same g =
      ap (λ s. verify_machine_file_signature crypto s (ed25519 k) enc sig) same
      ∙ checks_as_ed25519 k enc sig
      ∙ ap ok g

  verify-of_steps :
      (scheme prefix sig text k : Bytes) (p : MachinePayload)
      → check_scheme crypto unmarshal f scheme ≡ ok prefix
      → base64 crypto f.sig ≡ ok sig
      → verify_machine_file_signature crypto scheme (ed25519 k) f.enc sig ≡ ok true
      → Machine.decode_plaintext crypto f prefix license_key fingerprint ≡ ok text
      → Machine.payload_from crypto unmarshal f text ≡ ok p
      → Machine.verify crypto unmarshal f scheme (ed25519 k) license_key fingerprint ≡ ok p
  unfolding Machine.verify
  verify-of_steps scheme prefix sig text k p named decoded checked t u =
      rw (named, decoded, checked, t) u

  abbrev tried : (Entry → Result Bool) → Bytes → Result (Verified MachinePayload)
  tried check prefix =
      try_keys check (Machine.decode_plaintext crypto f prefix license_key fingerprint)
        (Machine.payload_from crypto unmarshal f) probe keys (entries_of keys)

  tried-eq-ok :
      (scheme prefix sig : Bytes) (v : Verified MachinePayload)
      → scheme ≡ scheme_ed25519_sign
      → tried
          (λ e. verify_machine_file_signature crypto scheme (ed25519 e.public_key) f.enc sig)
          prefix
        ≡ ok v
      → tried (λ e. ok (verify_ed25519 crypto e.public_key f.enc sig)) prefix ≡ ok v
  unfolding verify_machine_file_signature ◌==◌
  tried-eq-ok scheme prefix sig v same q =
      subst
        (λ s.
          tried (λ e. verify_machine_file_signature crypto s (ed25519 e.public_key) f.enc sig)
            prefix
          ≡ ok v)
        same q

  abbrev pub Accepts : Bytes → Verified MachinePayload → Type 0
  Accepts scheme v =
      (e : Entry) × Memᴰ e (entries_of keys)
      × (v.key ≡ e.key)
      × (Machine.verify crypto unmarshal f scheme (ed25519 e.public_key) license_key fingerprint
          ≡ ok v.payload)

  -- What a key set accepts of machine files is signed under ED25519_SIGN, and one of its keys accepts
  -- it alone with the same payload; the result names that key.
  pub verify_machine_with_key_set_sound :
      (scheme : Bytes) (v : Verified MachinePayload)
      → verify_machine_with_key_set crypto probe unmarshal f scheme keys license_key fingerprint
        ≡ ok v
      → (scheme ≡ scheme_ed25519_sign) × Accepts scheme v
  unfolding verify_machine_with_key_set
  verify_machine_with_key_set_sound scheme v q =
      let (prefix, named, q₁) = bind-eq-ok (check_scheme crypto unmarshal f scheme) _ v q in
      let (other, q₂) = guard-eq-ok (not (scheme == scheme_ed25519_sign)) _ _ v q₁ in
      let (_, q₃) = guard-eq-ok (eqb (len keys) 0) _ _ v q₂ in
      let (sig, decoded, q₄) = bind-eq-ok (base64 crypto f.sig) _ v q₃ in
      let same = (==_iff scheme scheme_ed25519_sign).0 (ground arith) in
      let q₅ = tried-eq-ok scheme prefix sig v same q₄ in
      let (e, m, g, (text, t, u), key) =
        try_keys-eq-ok (λ e. verify_ed25519 crypto e.public_key f.enc sig)
          (Machine.decode_plaintext crypto f prefix license_key fingerprint)
          (Machine.payload_from crypto unmarshal f) probe keys (entries_of keys) v q₅ in
      let checked = checked_as_ed25519 scheme e.public_key f.enc sig same g in
      (
        same,
        (
          e,
          m,
          key,
          verify-of_steps scheme prefix sig text e.public_key v.payload named decoded checked t u,
        ),
      )

  verify_with_set-of_steps :
      (prefix sig : Bytes) (v : Verified MachinePayload)
      → check_scheme crypto unmarshal f scheme_ed25519_sign ≡ ok prefix
      → base64 crypto f.sig ≡ ok sig
      → eqb (len keys) 0 ≡ false
      → tried (λ e. ok (verify_ed25519 crypto e.public_key f.enc sig)) prefix ≡ ok v
      → verify_machine_with_key_set crypto probe unmarshal f scheme_ed25519_sign keys license_key
          fingerprint
        ≡ ok v
  unfolding verify_machine_with_key_set verify_machine_file_signature ◌==◌
  verify_with_set-of_steps prefix sig v named decoded n q = rw (named, n, decoded) q

  -- What any key of the set accepts alone under ED25519_SIGN, the set accepts with the same payload.
  pub verify_machine_with_key_set_complete :
      (e : Entry) (p : MachinePayload)
      → Memᴰ e (entries_of keys)
      → Machine.verify crypto unmarshal f scheme_ed25519_sign
          (ed25519 e.public_key)
          license_key
          fingerprint
        ≡ ok p
      → (v : Verified MachinePayload) × (verify_machine_with_key_set crypto probe unmarshal f
            scheme_ed25519_sign keys license_key fingerprint
          ≡ ok v)
        × (v.payload ≡ p)
  unfolding Machine.verify
  verify_machine_with_key_set_complete e p m q =
      let (prefix, named, q₁) =
        bind-eq-ok (check_scheme crypto unmarshal f scheme_ed25519_sign) _ p q in
      let (sig, decoded, q₂) = bind-eq-ok (base64 crypto f.sig) _ p q₁ in
      let (verified, checked, q₃) =
        bind-eq-ok
          (verify_machine_file_signature crypto scheme_ed25519_sign (ed25519 e.public_key) f.enc
            sig)
          _ p q₂ in
      let (signed, q₄) = then-eq-ok (require_signature verified) _ p q₃ in
      let (text, t, u) =
        bind-eq-ok (Machine.decode_plaintext crypto f prefix license_key fingerprint) _ p q₄ in
      let good : verify_ed25519 crypto e.public_key f.enc sig ≡ true =
        ok-injective (sym (checks_as_ed25519 e.public_key f.enc sig) ∙ checked)
        ∙ require_signature-eq-ok verified signed in
      let (v, found, same) =
        try_keys-of_good (λ x. verify_ed25519 crypto x.public_key f.enc sig)
          (Machine.decode_plaintext crypto f prefix license_key fingerprint)
          (Machine.payload_from crypto unmarshal f) probe keys (entries_of keys) e p m good
          (text, t, u) in
      (v, verify_with_set-of_steps prefix sig v named decoded (len-of_member keys e m) found, same)
