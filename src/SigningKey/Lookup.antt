-- ===== src/SigningKey/Lookup.antt =====
-- What a set of signing keys holds, and what looking a key up in it finds.
use mathlib.Core.List.{Memᴰ}
use mathlib.Core.List.Memᴰ.{head, tail}
use tamga_go.Base.{
  ◌≡◌, ◌≢◌, ◌⊎◌, ◌↔◌, ◌∙◌, ap, sym, refl, true, false, not, Option, none, some, List, [], ◌∷◌,
  arith, eqb, length, Bool-cases, inl, inr,
}
use tamga_go.Text.{Bytes, ◌==◌}
use tamga_go.Text.Laws.{==_iff}
use tamga_go.Errors.{Result-cases, ok, or_fail}
use tamga_go.Errors.Laws.{bind-eq-ok, or_fail-eq-ok, guard-eq-ok}
use tamga_go.Resource.{SigningKey}
use tamga_go.Checkout.{Crypto}
use tamga_go.SigningKey.{
  Entry, SigningKeySet, answers, entries_of, find_entry, find, ed25519_algorithm, key_id,
  decode_ed25519_public_key, entries_from, new_signing_key_set, usable, entry_of,
}

-- The entry goes by the id: as the server's id of it, or as the one that its bytes give.
abbrev pub Answers : Bytes → Entry → Type 0
Answers kid e = (e.key.id ≡ kid) ⊎ (e.computed_id ≡ kid)

answers_iff : (kid : Bytes) (e : Entry) → (answers kid e ≡ true) ↔ Answers kid e
answers_iff kid e = (
  λ t. elim (Bool-cases (e.key.id == kid)) [
    | inl s ↦ inl ((==_iff e.key.id kid).0 s)
    | inr n ↦ inr ((==_iff e.computed_id kid).0 (ground arith))
  ],
  λ a. ground (arith, ==_iff e.key.id kid, ==_iff e.computed_id kid),
)

abbrev pub Finds : Bytes → List Entry → Option Entry → Type 0
Finds kid es none = (e : Entry) → Memᴰ e es → ¬ Answers kid e
Finds kid es (some e) = Memᴰ e es × Answers kid e

Finds-cons :
    (kid : Bytes) (x : Entry) (es : List Entry) (o : Option Entry)
    → answers kid x ≡ false
    → Finds kid es o
    → Finds kid (x ∷ es) o
Finds-cons kid x es (some e) n (m, a) = (tail m, a)
Finds-cons kid x es none n absent = λ e m a. elim m [
  | head q ↦
      let there : answers kid x ≡ true = ap (answers kid) (sym q) ∙ (answers_iff kid e).1 a in
      absurd (cc)
  | tail m' ↦ absent e m' a
]

find_entry-Finds : (kid : Bytes) (es : List Entry) → Finds kid es (find_entry kid es)
unfolding find_entry
find_entry-Finds kid [] = λ e m a. elim m [ ]
find_entry-Finds kid (x ∷ es) = elim (Bool-cases (answers kid x)) [
  | inl t ↦ rw t (head refl, (answers_iff kid x).0 t)
  | inr n ↦ rw n (Finds-cons kid x es (find_entry kid es) n (find_entry-Finds kid es))
]

-- Looking up an id that is not empty, in a set that may be missing: the entry that is found is held
-- and goes by that id, and where none is found, none of those held does.
pub find-Finds :
    (keys : Option SigningKeySet) (kid : Bytes)
    → kid ≢ []
    → Finds kid (entries_of keys) (find keys kid)
unfolding find
find-Finds keys kid named = elim (Bool-cases (kid == [])) [
  | inl e ↦ absurd (named ((==_iff kid []).0 e))
  | inr n ↦ rw n (find_entry-Finds kid (entries_of keys))
]

module _ (crypto : Crypto) where
  open crypto use {decode_base64}

  -- An entry as it is meant: its bytes are those of its key, 32 of them, and its id is computed.
  abbrev pub IsEntry : Entry → Type 0
  IsEntry e =
      (e.key.attributes.algorithm ≡ ed25519_algorithm)
      × (decode_base64 e.key.attributes.public_key ≡ some e.public_key)
      × (length e.public_key ≡ 32)
      × (e.computed_id ≡ key_id crypto e.key.attributes.public_key)

  pub decode_ed25519_public_key-eq-ok :
      (b64 raw : Bytes)
      → decode_ed25519_public_key crypto b64 ≡ ok raw
      → (decode_base64 b64 ≡ some raw) × (length raw ≡ 32)
  unfolding decode_ed25519_public_key
  decode_ed25519_public_key-eq-ok b64 raw e =
      let (r, decoded, e₁) = bind-eq-ok (or_fail (decode_base64 b64) _) _ raw e in
      let (n, e₂) = guard-eq-ok (not (eqb (length r) 32)) _ (ok r) raw e₁ in
      let same : r ≡ raw = cc in
      let long : length r ≡ 32 = ground arith in
      (or_fail-eq-ok (decode_base64 b64) _ r decoded ∙ ap some same, sym (ap length same) ∙ long)

  pub data IsEntries : List Entry → Type 0 where
    nil : IsEntries []
    cons : {e : Entry} {es : List Entry} → IsEntry e → IsEntries es → IsEntries (e ∷ es)

  pub usable-eq-ok :
      (key : SigningKey) (raw : Bytes)
      → usable crypto key ≡ ok raw
      → IsEntry (entry_of crypto key raw)
  unfolding key_id
  usable-eq-ok key raw e =
      let (n, e₁) =
        guard-eq-ok (not (key.attributes.algorithm == ed25519_algorithm)) _
          (decode_ed25519_public_key crypto key.attributes.public_key) raw e in
      let (decoded, long) = decode_ed25519_public_key-eq-ok key.attributes.public_key raw e₁ in
      ((==_iff key.attributes.algorithm ed25519_algorithm).0 (ground arith), decoded, long, refl)

  entries_from-IsEntries : (ks : List SigningKey) → IsEntries (entries_from crypto ks)
  unfolding entries_from
  entries_from-IsEntries [] = nil
  entries_from-IsEntries (key ∷ ks) = elim (Result-cases (usable crypto key)) [
    | inl (e, q) ↦ rw q (entries_from-IsEntries ks)
    | inr (raw, q) ↦ rw q (cons (usable-eq-ok key raw q) (entries_from-IsEntries ks))
  ]

  -- Whatever keys the server publishes, the set holds only keys that can verify a signature: of the
  -- algorithm Ed25519, of 32 bytes, which are those of the published text, with the id of that text.
  pub new_signing_key_set-IsEntries :
      (ks : List SigningKey) → IsEntries (new_signing_key_set crypto ks).entries
  unfolding new_signing_key_set
  new_signing_key_set-IsEntries ks = entries_from-IsEntries ks
