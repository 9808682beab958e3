-- ===== src/Fingerprint/Multiset.antt =====
-- The fingerprint as a function of the components alone: a quotient forgets the order in which they
-- are listed and the white space around their values.
use mathlib.Core.List.{Perm}
use mathlib.Core.List.Perm
use mathlib.Core.Quot
use mathlib.Core.Quot.{Quot, Quot-set}
use native.Mathlib.Decide.{ℕ_discrete}
use tamga_go.Base.{◌≡◌, ◌∙◌, refl, sym, ap, Option, none, some, List, [], ◌∷◌, map}
use tamga_go.Text.{Bytes}
use tamga_go.Errors.{Result, ok, err}
use tamga_go.Fingerprint.{FingerprintComponent, trimmed, is_trimmed, fingerprint_canonical_form}
use tamga_go.Fingerprint.Validity.{
  is_canonical, are_valid, rendered, fingerprint_canonical_form_lem,
  fingerprint_canonical_form-Perm,
}
use tamga_go.Fingerprint.Injective.{entry, fingerprint_canonical_form-injective}
use tamga_go.Fingerprint.Trimming.{trim_idem}

-- The same labels with the same trimmed values, in some order.
abbrev pub Same : List FingerprintComponent → List FingerprintComponent → Type 0
Same cs ds = Perm (map entry cs) (map entry ds)

abbrev pub Components : Type 0
Components = Quot Same

abbrev plain : Bytes × Bytes → FingerprintComponent
plain (l, v) = record { label = l; value = v }

trimmed-plain : (c : FingerprintComponent) → trimmed (plain (entry c)) ≡ trimmed c
trimmed-plain c = trim_idem is_trimmed c.value

are_valid-plain :
    (seen : List Bytes) (cs : List FingerprintComponent)
    → are_valid seen (map plain (map entry cs)) ≡ are_valid seen cs
unfolding are_valid
are_valid-plain seen [] = refl
are_valid-plain seen (c ∷ cs) = rw (trimmed-plain c, are_valid-plain (c.label ∷ seen) cs) refl

is_canonical-plain :
    (cs : List FingerprintComponent) → is_canonical (map plain (map entry cs)) ≡ is_canonical cs
is_canonical-plain [] = refl
is_canonical-plain (c ∷ cs) = are_valid-plain [] (c ∷ cs)

rendered-plain :
    (cs : List FingerprintComponent) → map rendered (map plain (map entry cs)) ≡ map rendered cs
rendered-plain [] = refl
rendered-plain (c ∷ cs) = rw (trimmed-plain c, rendered-plain cs) refl

canonical-plain :
    (cs : List FingerprintComponent)
    → fingerprint_canonical_form (map plain (map entry cs)) ≡ fingerprint_canonical_form cs
canonical-plain cs =
    fingerprint_canonical_form_lem (map plain (map entry cs))
    ∙ rw (is_canonical-plain cs, rendered-plain cs) refl
    ∙ sym (fingerprint_canonical_form_lem cs)

pub fingerprint_canonical_form-Same :
    (cs ds : List FingerprintComponent)
    → Same cs ds
    → fingerprint_canonical_form cs ≡ fingerprint_canonical_form ds
fingerprint_canonical_form-Same cs ds p =
    sym (canonical-plain cs)
    ∙ fingerprint_canonical_form-Perm (map plain (map entry cs)) (map plain (map entry ds))
        (Perm.map plain p)
    ∙ canonical-plain ds

-- The canonical form, with none for a refusal.
abbrev pub accepted_form : Result Bytes → Option Bytes
accepted_form (ok s) = some s
accepted_form (err e) = none

unfoldable pub canonical_form_of : Components → Option Bytes
canonical_form_of =
    Quot.lift (hlevel ℕ_discrete) (λ cs. accepted_form (fingerprint_canonical_form cs))
      (λ cs ds p. ap accepted_form (fingerprint_canonical_form-Same cs ds p))

form-eq-some :
    (cs : List FingerprintComponent) (r : Result Bytes) (s : Bytes)
    → accepted_form r ≡ some s
    → r ≡ ok s
form-eq-some cs (ok t) s q = cc
form-eq-some cs (err e) s q = absurd (cc)

canonical_form_of-injective :
    (x y : Components) (s : Bytes)
    → canonical_form_of x ≡ some s
    → canonical_form_of y ≡ some s
    → x ≡ y
unfolding canonical_form_of
canonical_form_of-injective =
    Quot.ind (λ x. hlevel Quot-set)
      λ cs.
        Quot.ind (λ y. hlevel Quot-set)
          λ ds s p q. Quot.sound (
            fingerprint_canonical_form-injective cs ds s
              (form-eq-some cs (fingerprint_canonical_form cs) s p)
              (form-eq-some ds (fingerprint_canonical_form ds) s q))

-- The canonical form is a function of the components themselves, of which the quotient forgets the
-- order and the surrounding white space, also where it refuses them; and components with one
-- canonical form are equal.
pub canonical_form_of-exact :
    (x y : Components) (s : Bytes)
    → canonical_form_of x ≡ some s
    → canonical_form_of y ≡ some s
    → (x ≡ y)
      × ((cs : List FingerprintComponent)
          → canonical_form_of (Quot.mk cs) ≡ accepted_form (fingerprint_canonical_form cs))
unfolding canonical_form_of
canonical_form_of-exact x y s p q = (canonical_form_of-injective x y s p q, λ cs. refl)
