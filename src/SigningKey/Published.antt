-- ===== src/SigningKey/Published.antt =====
-- NewSigningKeySet against the list that the server publishes: which of its keys are kept.
use mathlib.Core.List.{Memᴰ}
use mathlib.Core.List.Memᴰ.{head, tail}
use tamga_go.Base.{◌≡◌, ◌∙◌, ap, subst, sym, refl, some, List, [], ◌∷◌, inl, inr, length}
use tamga_go.Text.{Bytes}
use tamga_go.Text.Laws.{==_refl}
use tamga_go.Errors.{Result-cases, ok}
use tamga_go.Resource.{SigningKey}
use tamga_go.Checkout.{Crypto}
use tamga_go.SigningKey.{
  Entry, ed25519_algorithm, decode_ed25519_public_key, entry_of, usable, keep, entries_from,
}
use tamga_go.SigningKey.Lookup.{usable-eq-ok}

module _ (crypto : Crypto) where
  open crypto use {decode_base64}

  -- The key is one of Ed25519, and its text is the base64 of the 32 bytes `raw`.
  abbrev pub IsPublished : SigningKey → Bytes → Type 0
  IsPublished key raw =
      (key.attributes.algorithm ≡ ed25519_algorithm)
      × (decode_base64 key.attributes.public_key ≡ some raw)
      × (length raw ≡ 32)

  usable-IsPublished :
      (key : SigningKey) (raw : Bytes) → IsPublished key raw → usable crypto key ≡ ok raw
  unfolding decode_ed25519_public_key
  usable-IsPublished key raw (alg, decoded, long) =
      rw (alg, ==_refl ed25519_algorithm, decoded, long) refl

  -- What the set holds of a key is what the server publishes of it.
  pub entries_from-IsPublished :
      (ks : List SigningKey) (e : Entry)
      → Memᴰ e (entries_from crypto ks)
      → Memᴰ e.key ks × IsPublished e.key e.public_key
  unfolding entries_from
  entries_from-IsPublished [] e m = elim m [ ]
  entries_from-IsPublished (key ∷ ks) e m = elim (Result-cases (usable crypto key)) [
    | inl (x, q) ↦
        let (m', p) =
          entries_from-IsPublished ks e
            (subst (λ r. Memᴰ e (keep crypto key r (entries_from crypto ks))) q m) in
        (tail m', p)
    | inr (raw, q) ↦ elim (subst (λ r. Memᴰ e (keep crypto key r (entries_from crypto ks))) q m) [
      | head s ↦
          let (alg, decoded, long, _) = usable-eq-ok crypto key raw q in
          subst (λ x. Memᴰ x.key (key ∷ ks) × IsPublished x.key x.public_key) (sym s)
            (head refl, (alg, decoded, long))
      | tail m' ↦ let (k, p) = entries_from-IsPublished ks e m' in (tail k, p)
    ]
  ]

  -- Every key of Ed25519 that the server publishes is held.
  pub entries_from-of_IsPublished :
      (ks : List SigningKey) (key : SigningKey) (raw : Bytes)
      → Memᴰ key ks
      → IsPublished key raw
      → Memᴰ (entry_of crypto key raw) (entries_from crypto ks)
  unfolding entries_from
  entries_from-of_IsPublished [] key raw m p = elim m [ ]
  entries_from-of_IsPublished (x ∷ ks) key raw (head q) p =
      let usable_here = ap (usable crypto) (sym q) ∙ usable-IsPublished key raw p in
      subst (λ r. Memᴰ (entry_of crypto key raw) (keep crypto x r (entries_from crypto ks)))
        (sym usable_here) (head (ap (λ k. entry_of crypto k raw) q))
  entries_from-of_IsPublished (x ∷ ks) key raw (tail m) p =
      let later = entries_from-of_IsPublished ks key raw m p in
      elim (Result-cases (usable crypto x)) [
        | inl (e, q) ↦ rw q later
        | inr (other, q) ↦ rw q (tail later)
      ]
