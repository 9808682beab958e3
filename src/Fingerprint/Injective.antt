-- ===== src/Fingerprint/Injective.antt =====
-- Two lists of components with one canonical form are the same components.
use mathlib.Core.List.{drop, Perm}
use tamga_go.Text.Order.{insert, sort, sort-Perm}
use mathlib.Core.List.Perm
use tamga_go.Base.{
  ℕ, ◌≡◌, ◌≢◌, ◌∙◌, ◌<◌, refl, sym, ap, true, Option, none, some, List, [], ◌∷◌, ◌++◌, map, arith,
  All, Bool-cases, inl, inr, subst,
}
use tamga_go.Text.{Bytes, cut, join}
use tamga_go.Text.Laws.{Free, cut-append}
use tamga_go.Errors.{ok}
use tamga_go.Fingerprint.{
  FingerprintComponent, separator, trimmed, render, joined, fingerprint_canonical_form,
  is_label_byte, is_value_byte,
}
use tamga_go.Fingerprint.Validity.{
  all, is_sound, are_valid, rendered, is_canonical, fingerprint_canonical_form_lem,
}

-- What a component says: its label, and its value without the surrounding white space.
abbrev pub entry : FingerprintComponent → Bytes × Bytes
entry c = (c.label, trimmed c)

abbrev shown : Bytes × Bytes → Bytes
shown (l, v) = render l v

abbrev parsed : Option (Bytes × Bytes) → Bytes × Bytes
parsed none = ([], [])
parsed (some e) = e

abbrev parse : Bytes → Bytes × Bytes
parse s = parsed (cut b'=' s)

Free-append : (c : ℕ) (s t : Bytes) → Free c s → Free c t → Free c (s ++ t)
Free-append c [] t h k = k
Free-append c (x ∷ s) t h k = (h.0, Free-append c s t h.1 k)

label-Free : (c : ℕ) (s : Bytes) → all is_label_byte s ≡ true → c < 0x21 → Free c s
label-Free c [] h lt = tt
label-Free c (x ∷ s) h lt = (ground arith, label-Free c s (ground arith) lt)

label-Free_equals : (s : Bytes) → all is_label_byte s ≡ true → Free b'=' s
label-Free_equals [] h = tt
label-Free_equals (x ∷ s) h = (ground arith, label-Free_equals s (ground arith))

value-Free : (s : Bytes) → all is_value_byte s ≡ true → Free separator s
value-Free [] h = tt
value-Free (x ∷ s) h = (ground arith, value-Free s (ground arith))

Sound-rendered : (c : FingerprintComponent) → is_sound c ≡ true → Free separator (rendered c)
Sound-rendered c h =
    Free-append separator c.label _ (label-Free separator c.label (ground arith) (omega arith))
      (omega arith, value-Free (trimmed c) (ground arith))

parse-rendered : (c : FingerprintComponent) → is_sound c ≡ true → parse (rendered c) ≡ entry c
parse-rendered c h =
    ap parsed (cut-append b'=' c.label (trimmed c) (label-Free_equals c.label (ground arith)))

abbrev AllSound : List FingerprintComponent → Type 0
AllSound cs = All (λ c. is_sound c ≡ true) cs

are_valid-AllSound :
    (seen : List Bytes) (cs : List FingerprintComponent) → are_valid seen cs ≡ true → AllSound cs
unfolding are_valid
are_valid-AllSound seen [] h = tt
are_valid-AllSound seen (c ∷ cs) h =
    (ground arith, are_valid-AllSound (c.label ∷ seen) cs (ground arith))

parse-map :
    (cs : List FingerprintComponent) → AllSound cs → map parse (map rendered cs) ≡ map entry cs
parse-map [] h = refl
parse-map (c ∷ cs) h = cc (parse-rendered c h.0, parse-map cs h.1)

rendered-Free :
    (cs : List FingerprintComponent) → AllSound cs → All (Free separator) (map rendered cs)
rendered-Free [] h = tt
rendered-Free (c ∷ cs) h = (Sound-rendered c h.0, rendered-Free cs h.1)

cut_of_Free : (c : ℕ) (s : Bytes) → Free c s → cut c s ≡ none
unfolding cut
cut_of_Free c [] h = refl
cut_of_Free c (x ∷ s) h = ground (arith, cut_of_Free c s h.1)

-- Texts free of the separator are told apart by their join.
join-injective :
    (sep : ℕ) (ps qs : List Bytes)
    → All (Free sep) ps
    → All (Free sep) qs
    → ps ≢ []
    → qs ≢ []
    → join sep ps ≡ join sep qs
    → ps ≡ qs
unfolding join
join-injective sep [] qs h k a b e = absurd (a refl)
join-injective sep (p ∷ ps) [] h k a b e = absurd (b refl)
join-injective sep (p ∷ []) (q ∷ []) h k a b e = ap (λ s. s ∷ []) e
join-injective sep (p ∷ []) (q ∷ r ∷ qs) h k a b e =
    cc (cut_of_Free sep p h.0, cut-append sep q (join sep (r ∷ qs)) k.0)
join-injective sep (p ∷ r ∷ ps) (q ∷ []) h k a b e =
    cc (cut_of_Free sep q k.0, cut-append sep p (join sep (r ∷ ps)) h.0)
join-injective sep (p ∷ r ∷ ps) (q ∷ s ∷ qs) h k a b e =
    let both : ◌≡◌ {A = Option (Bytes × Bytes)} (some (p, join sep (r ∷ ps)))
        (some (q, join sep (s ∷ qs))) =
      sym (cut-append sep p _ h.0) ∙ ap (cut sep) e ∙ cut-append sep q _ k.0 in
    let later =
      join-injective sep (r ∷ ps) (s ∷ qs) h.1 k.1 (λ x. cc) (λ x. cc)
        (ap (λ (o : Option (Bytes × Bytes)). (parsed o).1) both) in
    let here : p ≡ q = ap (λ (o : Option (Bytes × Bytes)). (parsed o).0) both in cc

insert-All :
    (sep : ℕ) (p : Bytes) (ps : List Bytes)
    → Free sep p
    → All (Free sep) ps
    → All (Free sep) (insert p ps)
unfolding insert
insert-All sep p [] h k = (h, tt)
insert-All sep p (q ∷ ps) h k = ground (arith, insert-All sep p ps h k.1)

sort-All : (sep : ℕ) (ps : List Bytes) → All (Free sep) ps → All (Free sep) (sort ps)
unfolding sort
sort-All sep [] h = tt
sort-All sep (p ∷ ps) h = insert-All sep p (sort ps) h.0 (sort-All sep ps h.1)

insert-ne-nil : (p : Bytes) (ps : List Bytes) → insert p ps ≢ []
unfolding insert
insert-ne-nil p [] e = cc
insert-ne-nil p (q ∷ ps) e = ground arith

sort-ne-nil : (p : Bytes) (ps : List Bytes) → sort (p ∷ ps) ≢ []
unfolding sort
sort-ne-nil p ps = insert-ne-nil p (sort ps)

-- What a successful call says of its components.
accepted :
    (cs : List FingerprintComponent) (s : Bytes)
    → fingerprint_canonical_form cs ≡ ok s
    → AllSound cs × (s ≡ joined (map rendered cs)) × (sort (map rendered cs) ≢ [])
accepted [] s h = ground (arith, fingerprint_canonical_form_lem [])
accepted (c ∷ cs) s h = elim (Bool-cases (is_canonical (c ∷ cs))) [
  | inl valid ↦ (
    are_valid-AllSound [] (c ∷ cs) valid,
    ground (arith, fingerprint_canonical_form_lem (c ∷ cs)),
    sort-ne-nil (rendered c) (map rendered cs),
  )
  | inr e ↦ ground (arith, fingerprint_canonical_form_lem (c ∷ cs))
]

joined-injective :
    (ps qs : List Bytes)
    → All (Free separator) ps
    → All (Free separator) qs
    → sort ps ≢ []
    → sort qs ≢ []
    → joined ps ≡ joined qs
    → Perm ps qs
joined-injective ps qs h k a b e =
    let tails : join separator (sort ps) ≡ join separator (sort qs) = ap (drop 21) e in
    let sorted : sort ps ≡ sort qs =
      join-injective separator (sort ps) (sort qs) (sort-All separator ps h)
        (sort-All separator qs k) a b tails in
    Perm.trans (Perm.symm (sort-Perm ps)) (subst (λ l. Perm l qs) (sym sorted) (sort-Perm qs))

-- Components with one canonical form have, in some order, the same labels and trimmed values: no
-- two different sets of components collide before the hash.
pub fingerprint_canonical_form-injective :
    (cs ds : List FingerprintComponent) (s : Bytes)
    → fingerprint_canonical_form cs ≡ ok s
    → fingerprint_canonical_form ds ≡ ok s
    → Perm (map entry cs) (map entry ds)
fingerprint_canonical_form-injective cs ds s h k =
    let (sound, form, some_left) = accepted cs s h in
    let (sound', form', some_right) = accepted ds s k in
    let same =
      joined-injective (map rendered cs) (map rendered ds) (rendered-Free cs sound)
        (rendered-Free ds sound') some_left some_right (sym form ∙ form') in
    subst (λ l. Perm l (map entry ds)) (parse-map cs sound)
      (subst (λ l. Perm (map parse (map rendered cs)) l) (parse-map ds sound')
        (Perm.map parse same))
