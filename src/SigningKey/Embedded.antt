-- ===== src/SigningKey/Embedded.antt =====
-- NewSigningKeySetFromPublicKeys: the set of keys that a program is shipped with.
use tamga_go.Base.{◌≡◌, ◌↔◌, ◌∙◌, ap, subst, sym, refl, some, List, [], ◌∷◌, length, map, All}
use tamga_go.Text.{Bytes}
use tamga_go.Text.Laws.{==_refl}
use tamga_go.Errors.{Result, ok, err}
use tamga_go.Errors.Laws.{bind-eq-ok}
use tamga_go.Resource.{SigningKey}
use tamga_go.Checkout.{Crypto}
use tamga_go.SigningKey.{
  Entry, SigningKeySet, key_id, decode_ed25519_public_key, mismatched_in, embedded_entries,
  new_signing_key_set_from_public_keys, entry_of, embedded, at_key,
}
use tamga_go.SigningKey.Lookup.{IsEntry, IsEntries, nil, cons, decode_ed25519_public_key-eq-ok}

module _ (crypto : Crypto) where
  open crypto use {decode_base64}

  at_key-eq-ok : (r : Result Bytes) (raw : Bytes) → at_key crypto r ≡ ok raw → r ≡ ok raw
  at_key-eq-ok (ok x) raw e = e
  at_key-eq-ok (err x) raw e = absurd (cc)

  -- The entries are those of the embedded keys, one for each and in their order, each as it is meant
  -- to be, under the id that its text gives.
  abbrev pub Embeds : List Bytes → List Entry → Type 0
  Embeds l es =
      (map (λ (e : Entry). e.key) es ≡ map (embedded crypto) l)
      × IsEntries crypto es
      × (mismatched_in es ≡ [])

  embedded-mismatched :
      (b64 raw : Bytes) (es : List Entry)
      → mismatched_in es ≡ []
      → mismatched_in (entry_of crypto (embedded crypto b64) raw ∷ es) ≡ []
  unfolding mismatched_in
  embedded-mismatched b64 raw es e = rw (==_refl (key_id crypto b64)) e

  embedded_entries-Embeds :
      (l : List Bytes) (es : List Entry) → embedded_entries crypto l ≡ ok es → Embeds l es
  unfolding embedded_entries mismatched_in
  embedded_entries-Embeds [] es e =
      let same : [] ≡ es = cc in subst (Embeds []) same (refl, nil, refl)
  embedded_entries-Embeds (b64 ∷ l) es e =
      let (raw, wrapped, e₁) =
        bind-eq-ok (at_key crypto (decode_ed25519_public_key crypto b64)) _ es e in
      let (rest, more, e₂) = bind-eq-ok (embedded_entries crypto l) _ es e₁ in
      let (decoded, long) =
        decode_ed25519_public_key-eq-ok crypto b64 raw
          (at_key-eq-ok (decode_ed25519_public_key crypto b64) raw wrapped) in
      let (keys, held, equal) = embedded_entries-Embeds l rest more in
      let same : entry_of crypto (embedded crypto b64) raw ∷ rest ≡ es = cc in
      subst (Embeds (b64 ∷ l)) same (
        ap (λ ks. embedded crypto b64 ∷ ks) keys,
        cons (refl, decoded, long, refl) held,
        embedded-mismatched b64 raw rest equal,
      )

  decode_ed25519_public_key-of_bytes :
      (b64 raw : Bytes)
      → decode_base64 b64 ≡ some raw
      → length raw ≡ 32
      → decode_ed25519_public_key crypto b64 ≡ ok raw
  unfolding decode_ed25519_public_key
  decode_ed25519_public_key-of_bytes b64 raw d n = rw (d, n) refl

  entry-eq :
      (b64 : Bytes) (e : Entry)
      → e.key ≡ embedded crypto b64
      → IsEntry crypto e
      → e ≡ entry_of crypto (embedded crypto b64) e.public_key
  entry-eq b64 e k (_, _, _, id) = cc (k, id)

  embedded_entries-of_Embeds :
      (l : List Bytes) (es : List Entry)
      → map (λ (e : Entry). e.key) es ≡ map (embedded crypto) l
      → IsEntries crypto es
      → embedded_entries crypto l ≡ ok es
  unfolding embedded_entries
  embedded_entries-of_Embeds [] [] q held = refl
  embedded_entries-of_Embeds [] (e ∷ es) q held = absurd (cc)
  embedded_entries-of_Embeds (b64 ∷ l) [] q held = absurd (cc)
  embedded_entries-of_Embeds (b64 ∷ l) (e ∷ es) q (cons is_entry held) =
      let k : e.key ≡ embedded crypto b64 = cc in
      let ks : map (λ (x : Entry). x.key) es ≡ map (embedded crypto) l = cc in
      let text : e.key.attributes.public_key ≡ b64 =
        ap (λ (x : SigningKey). x.attributes.public_key) k in
      let raw =
        decode_ed25519_public_key-of_bytes b64 e.public_key
          (ap decode_base64 (sym text) ∙ is_entry.1) is_entry.2 in
      rw (raw, embedded_entries-of_Embeds l es ks held)
        (ap (λ (x : Entry). ok (x ∷ es)) (sym (entry-eq b64 e k is_entry)))

  -- The text is the base64 of 32 bytes.
  abbrev pub IsKeyText : Bytes → Type 0
  IsKeyText b64 = (raw : Bytes) × (decode_base64 b64 ≡ some raw) × (length raw ≡ 32)

  embedded_entries-of_texts :
      (l : List Bytes) → All IsKeyText l → (es : List Entry) × (embedded_entries crypto l ≡ ok es)
  unfolding embedded_entries
  embedded_entries-of_texts [] h = ([], refl)
  embedded_entries-of_texts (b64 ∷ l) ((raw, d, n), h) =
      let (es, made) = embedded_entries-of_texts l h in
      (
        entry_of crypto (embedded crypto b64) raw ∷ es,
        rw (decode_ed25519_public_key-of_bytes b64 raw d n, made) refl,
      )

  -- NewSigningKeySetFromPublicKeys returns a set if every text is the base64 of 32 bytes. It returns a
  -- given set if and only if the entries of that are those of the embedded public keys, one for each
  -- and in their order, under the id that the text gives, each with the 32 bytes of its text, and
  -- none with a mismatched id.
  pub new_signing_key_set_from_public_keys-Embeds :
      (l : List Bytes)
      → (All IsKeyText l
          → (s : SigningKeySet) × (new_signing_key_set_from_public_keys crypto l ≡ ok s))
        × ((s : SigningKeySet)
            → (new_signing_key_set_from_public_keys crypto l ≡ ok s) ↔ Embeds l s.entries)
  unfolding new_signing_key_set_from_public_keys
  new_signing_key_set_from_public_keys-Embeds l = (
    λ h. let (es, made) = embedded_entries-of_texts l h in (record { entries = es }, rw made refl),
    λ s. (
      λ e.
          let (es, made, e₁) = bind-eq-ok (embedded_entries crypto l) _ s e in
          let same : es ≡ s.entries = cc in
          subst (Embeds l) same (embedded_entries-Embeds l es made),
      λ (q, held, _). rw (embedded_entries-of_Embeds l s.entries q held) refl,
    ),
  )
