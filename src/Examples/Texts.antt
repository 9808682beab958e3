-- ===== src/Examples/Texts.antt =====
-- Canonical fingerprints, compound algorithms and key lookups of concrete texts.
use mathlib.Core.Quot
use tamga_go.Base.{◌≡◌, ◌↔◌, ◌⊎◌, ◌%◌, refl, some, List, [], ◌∷◌, map, length, arith, if◌then◌else◌}
use tamga_go.Text.{precedes, Bytes, codes, ◌==◌}
use tamga_go.Text.Order.{sort}
use tamga_go.Errors.{ok, err}
use tamga_go.Fingerprint.{
  FingerprintComponent, fingerprint_canonical_form, canonical_fingerprint, hex, joined,
  invalid_component,
}
use tamga_go.Fingerprint.Validity.{is_canonical, rendered, fingerprint_canonical_form_lem}
use tamga_go.Fingerprint.Trimming.{padded}
use tamga_go.Fingerprint.Multiset.{
  Same, Components, canonical_form_of, accepted_form, canonical_form_of-exact,
}
use tamga_go.Fingerprint.Collision.{Collides, canonical_fingerprint-Same}
use tamga_go.Checkout.Machine.{parse_machine_file_alg}
use tamga_go.Checkout.Machine.Algorithm.{Compound, parse_machine_file_alg_iff}

abbrev cpu : FingerprintComponent
cpu = record { label = codes "cpu"; value = codes "a=b" }

abbrev disk : FingerprintComponent
disk = record { label = codes "disk"; value = codes "c" }

fingerprint_canonical_form_lem_example : fingerprint_canonical_form (disk ∷ cpu ∷ []) ≡ (
    if is_canonical (disk ∷ cpu ∷ [])
    then ok (joined (map rendered (disk ∷ cpu ∷ [])))
    else err invalid_component)
fingerprint_canonical_form_lem_example = fingerprint_canonical_form_lem (disk ∷ cpu ∷ [])

abbrev form : Bytes
form = joined (map rendered (disk ∷ cpu ∷ []))

disk_first_is_accepted : canonical_form_of (Quot.mk (disk ∷ cpu ∷ [])) ≡ some form
unfolding canonical_form_of fingerprint_canonical_form ◌==◌
disk_first_is_accepted = refl

cpu_first_is_accepted :
    canonical_form_of (Quot.mk (padded (codes " ") (codes "\n") cpu ∷ disk ∷ [])) ≡ some form
unfolding canonical_form_of fingerprint_canonical_form sort ◌==◌ precedes
cpu_first_is_accepted = refl

canonical_form_of-exact_example :
    (◌≡◌ {A = Components}
      (Quot.mk (disk ∷ cpu ∷ []))
      (Quot.mk (padded (codes " ") (codes "\n") cpu ∷ disk ∷ [])))
    × ((cs : List FingerprintComponent)
        → canonical_form_of (Quot.mk cs) ≡ accepted_form (fingerprint_canonical_form cs))
canonical_form_of-exact_example =
    canonical_form_of-exact (Quot.mk (disk ∷ cpu ∷ []))
      (Quot.mk (padded (codes " ") (codes "\n") cpu ∷ disk ∷ [])) form disk_first_is_accepted
      cpu_first_is_accepted

-- A hash of one byte.
abbrev sum_of : Bytes → Bytes
sum_of s = length s % 256 ∷ []

disk_first_is_hashed : canonical_fingerprint sum_of (disk ∷ cpu ∷ []) ≡ ok (hex (sum_of form))
unfolding canonical_fingerprint fingerprint_canonical_form ◌==◌
disk_first_is_hashed = refl

cpu_first_is_hashed : canonical_fingerprint sum_of (cpu ∷ disk ∷ []) ≡ ok (hex (sum_of form))
unfolding canonical_fingerprint fingerprint_canonical_form sort ◌==◌ precedes
cpu_first_is_hashed = refl

canonical_fingerprint-Same_example :
    Same (disk ∷ cpu ∷ []) (cpu ∷ disk ∷ []) ⊎ Collides sum_of (disk ∷ cpu ∷ []) (cpu ∷ disk ∷ [])
canonical_fingerprint-Same_example =
    canonical_fingerprint-Same sum_of (disk ∷ cpu ∷ []) (cpu ∷ disk ∷ []) (hex (sum_of form))
      (λ t. (omega arith, tt)) disk_first_is_hashed cpu_first_is_hashed

parse_machine_file_alg_iff_example :
    (parse_machine_file_alg (codes "base64+ed25519+v2") ≡ ok (codes "base64", codes "ed25519"))
    ↔ Compound (codes "base64+ed25519+v2") (codes "base64", codes "ed25519")
parse_machine_file_alg_iff_example =
    parse_machine_file_alg_iff (codes "base64+ed25519+v2") (codes "base64") (codes "ed25519")
