-- ===== src/Fingerprint/Trimming.antt =====
-- Surrounding white space of a value does not reach the fingerprint.
use tamga_go.Fingerprint.{trimmed, FingerprintComponent, is_trimmed, fingerprint_canonical_form}
use tamga_go.Base.{
  subst, ℕ, ◌≡◌, ◌∙◌, refl, sym, ap, Bool, true, false, List, [], ◌∷◌, ◌++◌, map, All, Bool-cases,
  inl, inr,
}
use tamga_go.Text.{Bytes, trim, trim_left, trim_right, keep_right}
use mathlib.Core.List.{append-nil}
use tamga_go.Fingerprint.Validity.{
  is_canonical, are_valid, rendered, fingerprint_canonical_form_lem,
}

module _ (drops : ℕ → Bool) where
  abbrev Dropped : Bytes → Type 0
  Dropped s = All (λ c. drops c ≡ true) s

  trim_left-append : (s t : Bytes) → Dropped s → trim_left drops (s ++ t) ≡ trim_left drops t
  unfolding trim_left
  trim_left-append [] t h = refl
  trim_left-append (x ∷ s) t h = rw (h.0) (trim_left-append s t h.1)

  trim_right_of_Dropped : (t : Bytes) → Dropped t → trim_right drops t ≡ []
  unfolding trim_right
  trim_right_of_Dropped [] h = refl
  trim_right_of_Dropped (x ∷ t) h = rw (trim_right_of_Dropped t h.1, h.0)

  trim_right-append : (s t : Bytes) → Dropped t → trim_right drops (s ++ t) ≡ trim_right drops s
  unfolding trim_right
  trim_right-append [] t h = trim_right_of_Dropped t h
  trim_right-append (x ∷ s) t h = rw (trim_right-append s t h)

  trim-append : (s t : Bytes) → Dropped t → trim drops (s ++ t) ≡ trim drops s
  unfolding trim trim_left
  trim-append [] t h =
      ap (trim_right drops)
        (subst (λ u. trim_left drops u ≡ []) (append-nil t) (trim_left-append t [] h))
  trim-append (x ∷ s) t h = elim (Bool-cases (drops x)) [
    | inl e ↦ rw e (trim-append s t h)
    | inr e ↦ rw e (trim_right-append (x ∷ s) t h)
  ]

  trim_padded :
      (before s after : Bytes)
      → Dropped before
      → Dropped after
      → trim drops (before ++ (s ++ after)) ≡ trim drops s
  unfolding trim
  trim_padded before s after h k =
      ap (trim_right drops) (trim_left-append before (s ++ after) h) ∙ trim-append s after k

  -- The text does not begin with a dropped byte.
  abbrev IsKept : Bytes → Type 0
  IsKept [] = Unit
  IsKept (x ∷ s) = drops x ≡ false

  trim_left-IsKept : (s : Bytes) → IsKept (trim_left drops s)
  unfolding trim_left
  trim_left-IsKept [] = tt
  trim_left-IsKept (x ∷ s) = elim (Bool-cases (drops x)) [
    | inl e ↦ rw e (trim_left-IsKept s)
    | inr e ↦ rw e e
  ]

  trim_left_of_IsKept : (s : Bytes) → IsKept s → trim_left drops s ≡ s
  unfolding trim_left
  trim_left_of_IsKept [] k = refl
  trim_left_of_IsKept (x ∷ s) k = rw k refl

  keep_right-kept : (x : ℕ) (t : Bytes) → drops x ≡ false → keep_right drops x t ≡ x ∷ t
  keep_right-kept x [] k = rw k refl
  keep_right-kept x (y ∷ t) k = refl

  trim_right-IsKept : (s : Bytes) → IsKept s → IsKept (trim_right drops s)
  unfolding trim_right
  trim_right-IsKept [] k = tt
  trim_right-IsKept (x ∷ s) k = rw (keep_right-kept x (trim_right drops s) k) k

  trim_right-keep_right :
      (x : ℕ) (t : Bytes)
      → trim_right drops t ≡ t
      → trim_right drops (keep_right drops x t) ≡ keep_right drops x t
  unfolding trim_right
  trim_right-keep_right x [] q = elim (Bool-cases (drops x)) [
    | inl e ↦ rw (e) refl
    | inr e ↦ rw (e) (rw e refl)
  ]
  trim_right-keep_right x (y ∷ t) q = ap (keep_right drops x) q

  trim_right_idem : (s : Bytes) → trim_right drops (trim_right drops s) ≡ trim_right drops s
  unfolding trim_right
  trim_right_idem [] = refl
  trim_right_idem (x ∷ s) = trim_right-keep_right x (trim_right drops s) (trim_right_idem s)

  pub trim_idem : (s : Bytes) → trim drops (trim drops s) ≡ trim drops s
  unfolding trim
  trim_idem s =
      ap (trim_right drops) (
        trim_left_of_IsKept (trim_right drops (trim_left drops s))
          (trim_right-IsKept (trim_left drops s) (trim_left-IsKept s)))
      ∙ trim_right_idem (trim_left drops s)

abbrev pub padded : Bytes → Bytes → FingerprintComponent → FingerprintComponent
padded before after c = record c { value = before ++ (c.value ++ after) }

module _ (before after : Bytes) (c : FingerprintComponent) (ds : List FingerprintComponent)
    (h : All (λ b. is_trimmed b ≡ true) before) (k : All (λ b. is_trimmed b ≡ true) after) where
  trimmed-padded : trimmed (padded before after c) ≡ trimmed c
  trimmed-padded = trim_padded is_trimmed before c.value after h k

  are_valid-padded :
      (seen : List Bytes) (cs : List FingerprintComponent)
      → are_valid seen (cs ++ (padded before after c ∷ ds)) ≡ are_valid seen (cs ++ (c ∷ ds))
  unfolding are_valid
  are_valid-padded seen [] = rw trimmed-padded
  are_valid-padded seen (b ∷ cs) = rw (are_valid-padded (b.label ∷ seen) cs)

  map-rendered-padded :
      (cs : List FingerprintComponent)
      → map rendered (cs ++ (padded before after c ∷ ds)) ≡ map rendered (cs ++ (c ∷ ds))
  map-rendered-padded [] = rw trimmed-padded
  map-rendered-padded (b ∷ cs) = rw (map-rendered-padded cs)

  is_canonical-padded :
      (cs : List FingerprintComponent)
      → is_canonical (cs ++ (padded before after c ∷ ds)) ≡ is_canonical (cs ++ (c ∷ ds))
  is_canonical-padded [] = are_valid-padded [] []
  is_canonical-padded (b ∷ cs) = are_valid-padded [] (b ∷ cs)

-- Padding the value of any component with ASCII white space, before and after, changes nothing.
pub fingerprint_canonical_form-padded :
    (before after : Bytes) (cs ds : List FingerprintComponent) (c : FingerprintComponent)
    → All (λ b. is_trimmed b ≡ true) before
    → All (λ b. is_trimmed b ≡ true) after
    → fingerprint_canonical_form (cs ++ (padded before after c ∷ ds))
      ≡ fingerprint_canonical_form (cs ++ (c ∷ ds))
fingerprint_canonical_form-padded before after cs ds c h k =
    fingerprint_canonical_form_lem (cs ++ (padded before after c ∷ ds))
    ∙ cc
        (is_canonical-padded before after c ds h k cs, map-rendered-padded before after c ds h k cs)
    ∙ sym (fingerprint_canonical_form_lem (cs ++ (c ∷ ds)))
