-- ===== src/Checkout/KeySet/Published.antt =====
-- GetSigningKeySet and VerifyWithKeySet together: the server publishes its keys, and a file is
-- verified against them.
use mathlib.Core.List.{Memᴰ}
use tamga_go.Base.{◌≡◌, ◌∙◌, ◌↔◌, ap, sym, subst, Option, some, List}
use tamga_go.Text.{Bytes}
use tamga_go.Errors.{Result, ok}
use tamga_go.Errors.Laws.{ok-injective}
use tamga_go.Http.{Env, History}
use tamga_go.Http.Monad.{pure}
use tamga_go.Http.Monad.Laws.{bind-eq-ok}
use tamga_go.Client.{Client}
use tamga_go.Resource.{Wire, SigningKey, LicenseFileClaims}
use tamga_go.Checkout.{Crypto, ed25519}
use tamga_go.Checkout.License
use tamga_go.Checkout.License.{LicenseFile, LicensePayload, DecodedLicense}
use tamga_go.Checkout.Machine
use tamga_go.Checkout.Machine.{MachineFile, MachinePayload, DecodedMachine, scheme_ed25519_sign}
use tamga_go.Checkout.KeySet.MachineFiles.{
  verify_machine_with_key_set_sound, verify_machine_with_key_set_complete,
}
use tamga_go.Checkout.KeySet.{Verified, verify_license_with_key_set, verify_machine_with_key_set}
use tamga_go.Checkout.KeySet.Laws.{
  verify_license_with_key_set_sound, verify_license_with_key_set_complete,
}
use tamga_go.SigningKey.{
  SigningKeySet, entry_of, new_signing_key_set, list_signing_keys, get_signing_key_set,
}
use tamga_go.SigningKey.Lookup.{IsEntries, new_signing_key_set-IsEntries}
use tamga_go.SigningKey.Published.{
  IsPublished, entries_from-IsPublished, entries_from-of_IsPublished,
}

module _ (crypto : Crypto) (probe : Bytes → Option (Option LicenseFileClaims)) where
  -- A key of Ed25519 in the list, whose text is the base64 of 32 bytes, under which alone `verify`
  -- gives the payload.
  abbrev pub ByOneOf : {P : Type 0} → (Bytes → Result P) → List SigningKey → P → Type 0
  ByOneOf verify ks p =
      (key : SigningKey) × (raw : Bytes) × Memᴰ key ks
      × IsPublished crypto key raw
      × (verify raw ≡ ok p)

  -- The set lets the file through, with the payload.
  abbrev pub Lets : {P : Type 0} → Result (Verified P) → P → Type 0
  Lets {P = P} r p = (v : Verified P) × (r ≡ ok v) × (v.payload ≡ p)

  module _ (unmarshal : Bytes → Option DecodedLicense) (f : LicenseFile) (license_key : Bytes) where
    abbrev by_set : SigningKeySet → Result (Verified LicensePayload)
    by_set set = verify_license_with_key_set crypto probe unmarshal f (some set) license_key

    abbrev by_key : Bytes → Result LicensePayload
    by_key raw = License.verify crypto unmarshal f raw license_key

    new_signing_key_set-license :
        (ks : List SigningKey) (p : LicensePayload)
        → Lets (by_set (new_signing_key_set crypto ks)) p ↔ ByOneOf by_key ks p
    unfolding new_signing_key_set
    new_signing_key_set-license ks p = (
      λ (v, q, same).
          let (e, m, _, alone) =
            verify_license_with_key_set_sound crypto probe unmarshal f
              (some (new_signing_key_set crypto ks)) license_key v q in
          let (listed, published) = entries_from-IsPublished crypto ks e m in
          (e.key, e.public_key, listed, published, alone ∙ ap ok same),
      λ (key, raw, m, published, alone).
          verify_license_with_key_set_complete crypto probe unmarshal f
            (some (new_signing_key_set crypto ks)) license_key (entry_of crypto key raw) p
            (entries_from-of_IsPublished crypto ks key raw m published) alone,
    )

  module _ (unmarshal : Bytes → Option DecodedMachine) (f : MachineFile)
      (license_key fingerprint : Bytes) where
    abbrev machine_by_set : Bytes → SigningKeySet → Result (Verified MachinePayload)
    machine_by_set scheme set =
        verify_machine_with_key_set crypto probe unmarshal f scheme (some set) license_key
          fingerprint

    abbrev machine_by_key : Bytes → Bytes → Result MachinePayload
    machine_by_key scheme raw =
        Machine.verify crypto unmarshal f scheme (ed25519 raw) license_key fingerprint

    new_signing_key_set-machine :
        (ks : List SigningKey) (scheme : Bytes) (p : MachinePayload)
        → Lets (machine_by_set scheme (new_signing_key_set crypto ks)) p
          ↔ ((scheme ≡ scheme_ed25519_sign) × ByOneOf (machine_by_key scheme) ks p)
    unfolding new_signing_key_set
    new_signing_key_set-machine ks scheme p = (
      λ (v, q, same).
          let (named, (e, m, _, alone)) =
            verify_machine_with_key_set_sound crypto probe unmarshal f
              (some (new_signing_key_set crypto ks)) license_key fingerprint scheme v q in
          let (listed, published) = entries_from-IsPublished crypto ks e m in
          (named, (e.key, e.public_key, listed, published, alone ∙ ap ok same)),
      λ (named, (key, raw, m, published, alone)).
          subst (λ s. Lets (machine_by_set s (new_signing_key_set crypto ks)) p) (sym named)
            (verify_machine_with_key_set_complete crypto probe unmarshal f
              (some (new_signing_key_set crypto ks)) license_key fingerprint
              (entry_of crypto key raw) p
              (entries_from-of_IsPublished crypto ks key raw m published)
              (subst (λ s. machine_by_key s raw ≡ ok p) named alone)),
    )

  -- The set that GetSigningKeySet hands out is made of the server's listing, and holds only keys of
  -- Ed25519 of 32 bytes, which are those of their text, with the id of that text: with it a license file
  -- is accepted with a payload if and only if the listing holds a key of Ed25519 whose text is the
  -- base64 of 32 bytes, under which alone the file is accepted with that payload; a machine file if
  -- and only if, besides, the caller's scheme is ED25519_SIGN.
  pub get_signing_key_set-Accepts :
      (license_of : Bytes → Option DecodedLicense) (machine_of : Bytes → Option DecodedMachine)
      (env : Env) (wire : Wire) (c : Client) (h h' : History) (set : SigningKeySet)
      → get_signing_key_set crypto env wire c h ≡ (h', ok set)
      → (ks : List SigningKey) × (list_signing_keys env wire c h ≡ (h', ok ks))
        × IsEntries crypto set.entries
        × ((f : LicenseFile) (license_key : Bytes) (p : LicensePayload)
            → Lets (verify_license_with_key_set crypto probe license_of f (some set) license_key) p
              ↔ ByOneOf (λ raw. License.verify crypto license_of f raw license_key) ks p)
        × ((f : MachineFile) (scheme license_key fingerprint : Bytes) (p : MachinePayload)
            → Lets
                (verify_machine_with_key_set crypto probe machine_of f scheme
                  (some set)
                  license_key
                  fingerprint)
                p
              ↔ ((scheme ≡ scheme_ed25519_sign)
                  × ByOneOf
                      (λ raw.
                        Machine.verify crypto machine_of f scheme
                          (ed25519 raw)
                          license_key
                          fingerprint)
                      ks
                      p))
  unfolding get_signing_key_set
  get_signing_key_set-Accepts license_of machine_of env wire c h h' set q =
      let (ks, listed, s) =
        bind-eq-ok (list_signing_keys env wire c h) (λ ks. pure (new_signing_key_set crypto ks)) h'
          set q in
      let here : (list_signing_keys env wire c h).0 ≡ h' = ap (λ x. x.0) s in
      let made : new_signing_key_set crypto ks ≡ set = ok-injective (ap (λ x. x.1) s) in
      (
        ks,
        listed ∙ ap (λ x. (x, ok ks)) here,
        subst (λ x. IsEntries crypto x.entries) made (new_signing_key_set-IsEntries crypto ks),
        λ f license_key p.
            subst
              (λ x.
                Lets (by_set license_of f license_key x) p
                ↔ ByOneOf (by_key license_of f license_key) ks p)
              made (new_signing_key_set-license license_of f license_key ks p),
        λ f scheme license_key fingerprint p.
            subst
              (λ x. Lets (machine_by_set machine_of f license_key fingerprint scheme x) p ↔ (
                (scheme ≡ scheme_ed25519_sign)
                × ByOneOf (machine_by_key machine_of f license_key fingerprint scheme) ks p))
              made (new_signing_key_set-machine machine_of f license_key fingerprint ks scheme p),
      )
