-- ===== src/Fingerprint/Validity.antt =====
-- Which components have a canonical form, and that their order does not matter.
use mathlib.Core.Logic.{∥∥₁_elim}
use mathlib.Core.List.{Perm, Permᴰ, append_assoc, append-nil}
use tamga_go.Base.{
  sym, ℕ, ◌≡◌, ◌∙◌, refl, ap, Bool, true, false, ◌&&◌, not, List, [], ◌∷◌, ◌++◌, map, arith,
  if◌then◌else◌,
}
use mathlib.Core.Bool.{Bool-set}
use mathlib.Core.List.Perm
use tamga_go.Text.{Bytes, ◌==◌}
use tamga_go.Text.Laws.{==_iff}
use tamga_go.Text.Order.{sort-perm}
use tamga_go.Errors.{ok, err}
use tamga_go.Fingerprint.{
  FingerprintComponent, invalid_component, guard, is_label_byte, is_value_byte, validate_bytes,
  validate_label, validate_value, member, trimmed, render, collect, joined,
  fingerprint_canonical_form,
}

abbrev pub all : (ℕ → Bool) → Bytes → Bool
all p [] = true
all p (c ∷ s) = p c && all p s

-- A component that is acceptable by itself.
abbrev pub is_sound : FingerprintComponent → Bool
is_sound c = (not (c.label == []) && all is_label_byte c.label) && all is_value_byte (trimmed c)

-- All are acceptable, and no label repeats or is among `seen`.
unfoldable pub are_valid : List Bytes → List FingerprintComponent → Bool
are_valid seen [] = true
are_valid seen (c ∷ cs) = (is_sound c && not (member c.label seen)) && are_valid (c.label ∷ seen) cs

abbrev pub rendered : FingerprintComponent → Bytes
rendered c = render c.label (trimmed c)

validate_bytes_lem : (p : ℕ → Bool) (s : Bytes) → validate_bytes p s ≡ guard (all p s)
unfolding validate_bytes
validate_bytes_lem p [] = refl
validate_bytes_lem p (c ∷ s) = ground (arith, validate_bytes_lem p s)

collect_lem :
    (seen parts : List Bytes) (cs : List FingerprintComponent)
    → collect seen parts cs
      ≡ (if are_valid seen cs then ok (parts ++ map rendered cs) else err invalid_component)
unfolding collect are_valid validate_label validate_value
collect_lem seen parts [] = ap ok (sym (append-nil parts))
collect_lem seen parts (c ∷ cs) = ground (
  arith,
  validate_bytes_lem is_label_byte c.label,
  validate_bytes_lem is_value_byte (trimmed c),
  collect_lem (c.label ∷ seen) (parts ++ rendered c ∷ []) cs,
  append_assoc parts (rendered c ∷ []) (map rendered cs),
)

abbrev SameMembers : List Bytes → List Bytes → Type 0
SameMembers s t = (a : Bytes) → member a s ≡ member a t

SameMembers-cons : (b : Bytes) (s t : List Bytes) → SameMembers s t → SameMembers (b ∷ s) (b ∷ t)
unfolding member
SameMembers-cons b s t h a = rw (h a)

SameMembers-swap : (b c : Bytes) (s : List Bytes) → SameMembers (b ∷ c ∷ s) (c ∷ b ∷ s)
unfolding member
SameMembers-swap b c s a = ground arith

are_valid-SameMembers :
    (s t : List Bytes) (cs : List FingerprintComponent)
    → SameMembers s t
    → are_valid s cs ≡ are_valid t cs
unfolding are_valid
are_valid-SameMembers s t [] h = refl
are_valid-SameMembers s t (c ∷ cs) h = cc (
  h c.label,
  are_valid-SameMembers (c.label ∷ s) (c.label ∷ t) cs (SameMembers-cons c.label s t h),
)

are_valid-swap :
    (seen : List Bytes) (c d : FingerprintComponent) (cs : List FingerprintComponent)
    → are_valid seen (c ∷ d ∷ cs) ≡ are_valid seen (d ∷ c ∷ cs)
unfolding are_valid member
are_valid-swap seen c d cs = ground (
  arith,
  are_valid-SameMembers (d.label ∷ c.label ∷ seen) (c.label ∷ d.label ∷ seen) cs
      (SameMembers-swap d.label c.label seen),
  ==_iff c.label d.label,
  ==_iff d.label c.label,
)

are_valid-Permᴰ :
    {cs ds : List FingerprintComponent} (seen : List Bytes)
    → Permᴰ cs ds
    → are_valid seen cs ≡ are_valid seen ds
unfolding are_valid
are_valid-Permᴰ seen Permᴰ.nil = refl
are_valid-Permᴰ seen (Permᴰ.cons {a} e p) = cc (are_valid-Permᴰ (a.label ∷ seen) p)
are_valid-Permᴰ seen (Permᴰ.swap {a} {b} {l} e f) = cc (are_valid-swap seen a b l)
are_valid-Permᴰ seen (Permᴰ.trans p q) = are_valid-Permᴰ seen p ∙ are_valid-Permᴰ seen q

pub are_valid-Perm :
    {cs ds : List FingerprintComponent} → Perm cs ds → are_valid [] cs ≡ are_valid [] ds
are_valid-Perm p = ∥∥₁_elim p (Bool-set _ _) (are_valid-Permᴰ [])

-- The components have a canonical form.
abbrev pub is_canonical : List FingerprintComponent → Bool
is_canonical [] = false
is_canonical (c ∷ cs) = are_valid [] (c ∷ cs)

-- The components are accepted exactly when there is one, every label is non-empty and of printable
-- ASCII without `=`, no label repeats, and no trimmed value has a control byte. The result is the
-- domain, then the sorted rendered components, each behind the separator; the error is
-- ErrInvalidFingerprintComponent.
pub fingerprint_canonical_form_lem :
    (cs : List FingerprintComponent)
    → fingerprint_canonical_form cs
      ≡ (if is_canonical cs then ok (joined (map rendered cs)) else err invalid_component)
unfolding fingerprint_canonical_form
fingerprint_canonical_form_lem [] = refl
fingerprint_canonical_form_lem (c ∷ cs) = ground (arith, collect_lem [] [] (c ∷ cs))

is_canonical-Perm :
    (cs ds : List FingerprintComponent) → Perm cs ds → is_canonical cs ≡ is_canonical ds
is_canonical-Perm [] [] p = refl
is_canonical-Perm [] (d ∷ ds) p = cc (Perm.nil-eq p)
is_canonical-Perm (c ∷ cs) [] p = cc (Perm.eq-nil p)
is_canonical-Perm (c ∷ cs) (d ∷ ds) p = are_valid-Perm p

-- The order in which a caller lists the components does not matter: neither for the canonical form
-- nor for being refused.
pub fingerprint_canonical_form-Perm :
    (cs ds : List FingerprintComponent)
    → Perm cs ds
    → fingerprint_canonical_form cs ≡ fingerprint_canonical_form ds
fingerprint_canonical_form-Perm cs ds p =
    fingerprint_canonical_form_lem cs
    ∙ cc (is_canonical-Perm cs ds p, sort-perm (Perm.map rendered p))
    ∙ sym (fingerprint_canonical_form_lem ds)
