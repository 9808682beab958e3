-- ===== src/Examples/Trust.antt =====
-- Files that are verified against sets of keys, and the sets of concrete keys.
use tamga_go.SigningKey.Lookup.{Finds, IsEntries, find-Finds}
use tamga_go.SigningKey.Embedded.{Embeds, IsKeyText, new_signing_key_set_from_public_keys-Embeds}
use tamga_go.Base.{All, ◌↔◌, List, ℕ, ◌≡◌, refl, false, Option, none, some, [], ◌∷◌}
use tamga_go.Errors.{Result, ok, err, unknown_key}
use tamga_go.Http.{History}
use tamga_go.Resource.{Wire, LicenseFileClaims, SigningKey}
use tamga_go.SigningKey.{
  get_signing_key_set, list_signing_keys, Entry, SigningKeySet, answers, entries_of, find, key_ids,
  new_signing_key_set, new_signing_key_set_from_public_keys,
}
use tamga_go.Checkout.KeySet.Published.{Lets, ByOneOf, get_signing_key_set-Accepts}
use tamga_go.Examples.{steady, wire_of, a_client, toy}
use tamga_go.Examples.Files.{
  key_bytes, claims, payload, unmarshal, file, machine_payload, unmarshal_machine, machine_file,
}
use mathlib.Core.List.{Memᴰ}
use mathlib.Core.List.Memᴰ.{head, tail}
use tamga_go.Text.{Bytes, codes, ◌==◌}
use tamga_go.Checkout.{ed25519, verify_ed25519}
use tamga_go.Checkout.License
use tamga_go.Checkout.Machine
use tamga_go.Checkout.KeySet.MachineFiles.{Accepts, verify_machine_with_key_set_sound}
use tamga_go.Checkout.KeySet.{verify_machine_with_key_set, Verified, verify_license_with_key_set}
use tamga_go.Checkout.KeySet.Laws.{
  verify_license_with_key_set_sound, verify_license_with_key_set-unknown,
}

abbrev signing_key : Bytes → Bytes → SigningKey
signing_key id b64 = record {
  id = id;
  kind = codes "signing-keys";
  attributes = record {
    retired = none;
    algorithm = codes "ed25519";
    public_key = b64;
    status = [];
    created = [];
  };
}

abbrev entry : Bytes → ℕ → Entry
entry id n = record {
  key = signing_key id (key_bytes n);
  computed_id = codes "c";
  public_key = key_bytes n;
}

-- Two keys, of which the second made the file's signature; and one that did not.
abbrev held : Option SigningKeySet
held = some (record { entries = entry (codes "k1") b'B' ∷ entry (codes "k2") b'A' ∷ [] })

abbrev strangers : Option SigningKeySet
strangers = some (record { entries = entry (codes "k1") b'B' ∷ [] })

abbrev probe : Bytes → Option (Option LicenseFileClaims)
probe s = some (some claims)

abbrev verified : Verified License.LicensePayload
verified = record { payload = payload; key = signing_key (codes "k2") (key_bytes b'A') }

held-verifies : verify_license_with_key_set toy probe unmarshal file held [] ≡ ok verified
unfolding verify_license_with_key_set ◌==◌ verify_ed25519
held-verifies = refl

verify_license_with_key_set_sound_example :
    (e : Entry) × Memᴰ e (entries_of held)
    × (verified.key ≡ e.key)
    × (License.verify toy unmarshal file e.public_key [] ≡ ok payload)
verify_license_with_key_set_sound_example =
    verify_license_with_key_set_sound toy probe unmarshal file held [] verified held-verifies

strangers-unsigned :
    (x : Entry)
    → Memᴰ x (entries_of strangers)
    → verify_ed25519 toy x.public_key file.enc (key_bytes b'A') ≡ false
unfolding verify_ed25519 ◌==◌
strangers-unsigned x (head e) = rw e refl
strangers-unsigned x (tail m) = elim m [ ]

strangers-unnamed : (x : Entry) → Memᴰ x (entries_of strangers) → answers (codes "k9") x ≡ false
unfolding ◌==◌
strangers-unnamed x (head e) = rw e refl
strangers-unnamed x (tail m) = elim m [ ]

known : License.validate_license_file_alg file.alg ≡ ok tt
unfolding License.validate_license_file_alg ◌==◌
known = refl

decoded : License.decode_plaintext toy unmarshal file [] ≡ ok (codes "text")
unfolding License.decode_plaintext ◌==◌
decoded = refl

verify_license_with_key_set-unknown_example :
    verify_license_with_key_set toy probe unmarshal file strangers []
    ≡ err (unknown_key (codes "k9") (key_ids strangers))
verify_license_with_key_set-unknown_example =
    verify_license_with_key_set-unknown toy probe unmarshal file strangers [] (key_bytes b'A')
      (codes "text") (codes "k9") (entry (codes "k1") b'B') known refl (head refl)
      strangers-unsigned decoded refl (λ e. cc) strangers-unnamed

find-Finds_example : Finds (codes "c") (entries_of held) (find held (codes "c"))
find-Finds_example = find-Finds held (codes "c") (λ e. cc)

new_signing_key_set_from_public_keys-Embeds_example :
    (All (IsKeyText toy) (key_bytes 1 ∷ key_bytes 2 ∷ [])
      → (s : SigningKeySet) × (new_signing_key_set_from_public_keys toy
            (key_bytes 1 ∷ key_bytes 2 ∷ [])
          ≡ ok s))
    × ((s : SigningKeySet)
        → (new_signing_key_set_from_public_keys toy (key_bytes 1 ∷ key_bytes 2 ∷ []) ≡ ok s)
          ↔ Embeds toy (key_bytes 1 ∷ key_bytes 2 ∷ []) s.entries)
new_signing_key_set_from_public_keys-Embeds_example =
    new_signing_key_set_from_public_keys-Embeds toy (key_bytes 1 ∷ key_bytes 2 ∷ [])

abbrev verified_machine : Verified Machine.MachinePayload
verified_machine = record {
  payload = machine_payload;
  key = signing_key (codes "k2") (key_bytes b'A');
}

held-verifies_machine :
    verify_machine_with_key_set toy probe unmarshal_machine machine_file
      (codes "ED25519_SIGN")
      held
      []
      []
    ≡ ok verified_machine
unfolding verify_machine_with_key_set ◌==◌ Machine.verify_machine_file_signature
held-verifies_machine = refl

verify_machine_with_key_set_sound_example :
    (codes "ED25519_SIGN" ≡ Machine.scheme_ed25519_sign)
    × Accepts toy probe unmarshal_machine machine_file held [] []
        (codes "ED25519_SIGN")
        verified_machine
verify_machine_with_key_set_sound_example =
    verify_machine_with_key_set_sound toy probe unmarshal_machine machine_file held [] []
      (codes "ED25519_SIGN") verified_machine held-verifies_machine

-- The server publishes a key that made the file's signature, between two that are of no use.
abbrev listing : List SigningKey
listing =
    signing_key (codes "k0") (codes "short")
    ∷ signing_key (codes "k2") (key_bytes b'A')
    ∷ signing_key (codes "k1") (key_bytes b'B')
    ∷ []

abbrev publishing : Wire
publishing = record (wire_of [] 1 []) { signing_keys = λ b. some listing }

abbrev set_of_listing : History × Result SigningKeySet
set_of_listing = get_signing_key_set toy steady publishing a_client []

listing-is_fetched : set_of_listing ≡ (set_of_listing.0, ok (new_signing_key_set toy listing))
unfolding get_signing_key_set
listing-is_fetched = refl

get_signing_key_set-Accepts_example :
    (ks : List SigningKey) × (list_signing_keys steady publishing a_client []
      ≡ (set_of_listing.0, ok ks))
    × IsEntries toy (new_signing_key_set toy listing).entries
    × ((f : License.LicenseFile) (license_key : Bytes) (p : License.LicensePayload)
        → Lets toy probe
            (verify_license_with_key_set toy probe unmarshal f
              (some (new_signing_key_set toy listing))
              license_key)
            p
          ↔ ByOneOf toy probe (λ raw. License.verify toy unmarshal f raw license_key) ks p)
    × ((f : Machine.MachineFile) (scheme license_key fingerprint : Bytes)
          (p : Machine.MachinePayload)
        → Lets toy probe
            (verify_machine_with_key_set toy probe unmarshal_machine f scheme
              (some (new_signing_key_set toy listing))
              license_key
              fingerprint)
            p
          ↔ ((scheme ≡ Machine.scheme_ed25519_sign)
              × ByOneOf toy probe
                  (λ raw.
                    Machine.verify toy unmarshal_machine f scheme
                      (ed25519 raw)
                      license_key
                      fingerprint)
                  ks
                  p))
get_signing_key_set-Accepts_example =
    get_signing_key_set-Accepts toy probe unmarshal unmarshal_machine steady publishing a_client []
      set_of_listing.0 (new_signing_key_set toy listing) listing-is_fetched
