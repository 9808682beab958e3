-- ===== src/Checkout/KeySet/Laws.antt =====
-- Verifying with a key set against verifying with one key.
use tamga_go.Checkout.KeySet.{
  probed, unverified_key_id, Verified, key_set_failure, accept, decide, reject, try_keys,
  verify_license_with_key_set,
}
use tamga_go.Errors.Laws.{guard-eq-ok, bind-eq-ok, then-eq-ok}
use tamga_go.SigningKey.{answers, find_entry, SigningKeySet, Entry, entries_of, len, find, key_ids}
use tamga_go.Base.{
  sym, subst, ◌≡◌, ◌≢◌, ◌∙◌, ap, refl, Bool, true, false, Option, none, some, List, [], ◌∷◌, arith,
  eqb, length, Bool-cases, inl, inr,
}
use mathlib.Core.List.{Memᴰ}
use mathlib.Core.List.Memᴰ.{head, tail}
use tamga_go.Text.{Bytes, ◌==◌}
use tamga_go.Text.Laws.{==_iff}
use tamga_go.Errors.{Result, ok, err, unknown_key}
use tamga_go.Resource.{LicenseFileClaims}
use tamga_go.Checkout.{Crypto, base64, verify_ed25519, require_signature}
use tamga_go.Checkout.Envelope.{require_signature-eq-ok}
use tamga_go.Checkout.License
use tamga_go.Checkout.License.{
  LicenseFile, LicensePayload, DecodedLicense, validate_license_file_alg,
}

module _ {P : Type 0} (good : Entry → Bool) (plaintext : Result Bytes) (payload : Bytes → Result P)
    (probe : Bytes → Option (Option LicenseFileClaims)) where
  abbrev check : Entry → Result Bool
  check e = ok (good e)

  abbrev Opens : P → Type 0
  Opens p = (text : Bytes) × (plaintext ≡ ok text) × (payload text ≡ ok p)

  accept-eq-ok :
      (e : Entry) (v : Verified P)
      → accept check plaintext payload probe e ≡ ok v
      → Opens v.payload × (v.key ≡ e.key)
  accept-eq-ok e v q =
      let (text, t, q₁) = bind-eq-ok plaintext _ v q in
      let (p, u, q₂) = bind-eq-ok (payload text) _ v q₁ in
      let same : p ≡ v.payload = cc in ((text, t, u ∙ ap ok same), cc)

  reject-ne-ok :
      (keys : Option SigningKeySet) (t : Result Bytes) (v : Verified P)
      → reject check plaintext payload probe keys t ≢ ok v
  unfolding reject
  reject-ne-ok keys (ok text) v = λ q. cc
  reject-ne-ok keys (err e) v = λ q. cc

  pub try_keys-eq-ok :
      (keys : Option SigningKeySet) (es : List Entry) (v : Verified P)
      → try_keys check plaintext payload probe keys es ≡ ok v
      → (e : Entry) × Memᴰ e es × (good e ≡ true) × Opens v.payload × (v.key ≡ e.key)
  unfolding try_keys
  try_keys-eq-ok keys [] v q = absurd (reject-ne-ok keys plaintext v q)
  try_keys-eq-ok keys (e ∷ es) v q =
      let later = try_keys check plaintext payload probe keys es in
      let here = accept check plaintext payload probe e in
      elim (Bool-cases (good e)) [
        | inl g ↦
            let (opens, key) =
              accept-eq-ok e v
                (subst (λ b. decide check plaintext payload probe (ok b) here later ≡ ok v) g q) in
            (e, head refl, g, opens, key)
        | inr n ↦
            let (x, m, g, opens, key) =
              try_keys-eq-ok keys es v
                (subst (λ b. decide check plaintext payload probe (ok b) here later ≡ ok v) n q) in
            (x, tail m, g, opens, key)
      ]

  -- Any key that is held and passes lets the file through, with a payload of its own.
  pub try_keys-of_good :
      (keys : Option SigningKeySet) (es : List Entry) (e : Entry) (p : P)
      → Memᴰ e es
      → good e ≡ true
      → Opens p
      → (v : Verified P) × (try_keys check plaintext payload probe keys es ≡ ok v) × (v.payload ≡ p)
  unfolding try_keys
  try_keys-of_good keys [] e p m g _ = elim m [ ]
  try_keys-of_good keys (x ∷ es) e p (head q) g (text, t, u) =
      (record { payload = p; key = x.key }, rw (sym q, g, t, u) refl, refl)
  try_keys-of_good keys (x ∷ es) e p (tail m) g (text, t, u) = elim (Bool-cases (good x)) [
    | inl s ↦ (record { payload = p; key = x.key }, rw (s, t, u) refl, refl)
    | inr n ↦
        let (v, found, same) = try_keys-of_good keys es e p m g (text, t, u) in
        (v, rw n found, same)
  ]

module _ {P : Type 0} (plaintext : Result Bytes) (payload : Bytes → Result P)
    (probe : Bytes → Option (Option LicenseFileClaims)) where
  -- Where no key passes, the file's own claim of a key decides the error.
  try_keys-of_none :
      (good : Entry → Bool) (keys : Option SigningKeySet) (es : List Entry) (text : Bytes)
      → ((e : Entry) → Memᴰ e es → good e ≡ false)
      → plaintext ≡ ok text
      → try_keys (λ e. ok (good e)) plaintext payload probe keys es
        ≡ err (key_set_failure keys (probed (probe text)))
  unfolding try_keys reject unverified_key_id
  try_keys-of_none good keys [] text none_good t = rw t refl
  try_keys-of_none good keys (e ∷ es) text none_good t =
      rw (none_good e (head refl))
        (try_keys-of_none good keys es text (λ x m. none_good x (tail m)) t)

find_entry-of_absent :
    (kid : Bytes) (es : List Entry)
    → ((e : Entry) → Memᴰ e es → answers kid e ≡ false)
    → find_entry kid es ≡ none
unfolding find_entry
find_entry-of_absent kid [] absent = refl
find_entry-of_absent kid (e ∷ es) absent =
    rw (absent e (head refl)) (find_entry-of_absent kid es (λ x m. absent x (tail m)))

key_set_failure-of_absent :
    (keys : Option SigningKeySet) (kid : Bytes)
    → kid ≢ []
    → ((e : Entry) → Memᴰ e (entries_of keys) → answers kid e ≡ false)
    → key_set_failure keys kid ≡ unknown_key kid (key_ids keys)
unfolding key_set_failure find
key_set_failure-of_absent keys kid named absent = elim (Bool-cases (kid == [])) [
  | inl e ↦ absurd (named ((==_iff kid []).0 e))
  | inr n ↦ rw (n, find_entry-of_absent kid (entries_of keys) absent) refl
]

length-of_member : (es : List Entry) (e : Entry) → Memᴰ e es → eqb (length es) 0 ≡ false
length-of_member [] e m = elim m [ ]
length-of_member (x ∷ es) e m = ground arith

pub len-of_member :
    (keys : Option SigningKeySet) (e : Entry) → Memᴰ e (entries_of keys) → eqb (len keys) 0 ≡ false
unfolding len
len-of_member keys e m = length-of_member (entries_of keys) e m

module _ (crypto : Crypto) (probe : Bytes → Option (Option LicenseFileClaims))
    (unmarshal : Bytes → Option DecodedLicense) (f : LicenseFile) (keys : Option SigningKeySet)
    (license_key : Bytes) where
  -- What a key set accepts, one of its keys accepts alone, with the same payload; the result names it.
  pub verify_license_with_key_set_sound :
      (v : Verified LicensePayload)
      → verify_license_with_key_set crypto probe unmarshal f keys license_key ≡ ok v
      → (e : Entry) × Memᴰ e (entries_of keys)
        × (v.key ≡ e.key)
        × (License.verify crypto unmarshal f e.public_key license_key ≡ ok v.payload)
  unfolding verify_license_with_key_set License.verify
  verify_license_with_key_set_sound v q =
      let (alg, q₁) = then-eq-ok (validate_license_file_alg f.alg) _ v q in
      let (sig, decoded, q₂) = bind-eq-ok (base64 crypto f.sig) _ v q₁ in
      let (_, q₃) = guard-eq-ok (eqb (len keys) 0) _ _ v q₂ in
      let (e, m, g, (text, t, u), key) =
        try_keys-eq-ok (λ e. verify_ed25519 crypto e.public_key f.enc sig)
          (License.decode_plaintext crypto unmarshal f license_key)
          (License.payload_from crypto unmarshal f) probe keys (entries_of keys) v q₃ in
      (e, m, key, rw (alg, decoded, g, t) u)

  -- What any key of the set accepts alone, the set accepts, with the same payload.
  pub verify_license_with_key_set_complete :
      (e : Entry) (p : LicensePayload)
      → Memᴰ e (entries_of keys)
      → License.verify crypto unmarshal f e.public_key license_key ≡ ok p
      → (v : Verified LicensePayload) × (verify_license_with_key_set crypto probe unmarshal f keys
            license_key
          ≡ ok v)
        × (v.payload ≡ p)
  unfolding verify_license_with_key_set License.verify
  verify_license_with_key_set_complete e p m q =
      let (alg, q₁) = then-eq-ok (validate_license_file_alg f.alg) _ p q in
      let (sig, decoded, q₂) = bind-eq-ok (base64 crypto f.sig) _ p q₁ in
      let (signed, q₃) = then-eq-ok (require_signature _) _ p q₂ in
      let (text, t, u) =
        bind-eq-ok (License.decode_plaintext crypto unmarshal f license_key) _ p q₃ in
      let (v, found, same) =
        try_keys-of_good (λ x. verify_ed25519 crypto x.public_key f.enc sig)
          (License.decode_plaintext crypto unmarshal f license_key)
          (License.payload_from crypto unmarshal f) probe keys (entries_of keys) e p m
          (require_signature-eq-ok _ signed) (text, t, u) in
      (v, rw (alg, decoded, len-of_member keys e m) found, same)

  -- A readable file of a known algorithm that none of the held keys signed, and whose claims name a
  -- key that the set does not hold, is reported as signed by an unknown key; the error names the key
  -- and those that are held.
  pub verify_license_with_key_set-unknown :
      (sig text kid : Bytes) (e : Entry)
      → validate_license_file_alg f.alg ≡ ok tt
      → crypto.decode_base64 f.sig ≡ some sig
      → Memᴰ e (entries_of keys)
      → ((x : Entry)
          → Memᴰ x (entries_of keys)
          → verify_ed25519 crypto x.public_key f.enc sig ≡ false)
      → License.decode_plaintext crypto unmarshal f license_key ≡ ok text
      → probed (probe text) ≡ kid
      → kid ≢ []
      → ((x : Entry) → Memᴰ x (entries_of keys) → answers kid x ≡ false)
      → verify_license_with_key_set crypto probe unmarshal f keys license_key
        ≡ err (unknown_key kid (key_ids keys))
  unfolding verify_license_with_key_set
  verify_license_with_key_set-unknown sig text kid e alg decoded m unsigned t claimed named absent =
      let failure =
        ap (key_set_failure keys) claimed ∙ key_set_failure-of_absent keys kid named absent in
      rw (alg, decoded, len-of_member keys e m)
        (try_keys-of_none (License.decode_plaintext crypto unmarshal f license_key)
            (License.payload_from crypto unmarshal f) probe
            (λ x. verify_ed25519 crypto x.public_key f.enc sig) keys (entries_of keys) text unsigned
            t
          ∙ ap err failure)
