-- ===== src/Fingerprint.antt =====
-- fingerprint.go: the canonical fingerprint of a machine.
pub mod Validity
pub mod Injective
pub mod Trimming
pub mod Multiset
pub mod Collision
use tamga_go.Base.{
  ℕ, ◌/◌, ◌%◌, ◌+◌, Bool, true, false, ◌&&◌, ◌||◌, not, List, [], ◌∷◌, ◌++◌, leb, ltb, eqb,
  if◌then◌else◌,
}
use tamga_go.Text.{Bytes, codes, ◌==◌, join, trim}
use tamga_go.Text.Order.{sort}
use tamga_go.Errors.{
  Result, ok, err, GoError, sentinel, wrap, invalid_fingerprint_component, ◌>>=◌, ◌>>◌,
}

pub record FingerprintComponent : Type 0 where
  pub label : Bytes
  pub value : Bytes

abbrev pub fingerprint_domain : Bytes
fingerprint_domain = codes "tamga-fingerprint-v1"

abbrev pub separator : ℕ
separator = 0x1f

-- " \t\r\n\v\f"
abbrev pub is_trimmed : ℕ → Bool
is_trimmed c = eqb c 0x20 || eqb c 0x09 || eqb c 0x0d || eqb c 0x0a || eqb c 0x0b || eqb c 0x0c

abbrev pub invalid_component : GoError
invalid_component = wrap (sentinel invalid_fingerprint_component)

abbrev pub guard : Bool → Result (Unit {0})
guard true = ok tt
guard false = err invalid_component

abbrev pub is_label_byte : ℕ → Bool
is_label_byte c = leb 0x21 c && leb c 0x7e && not (eqb c b'=')

abbrev pub is_value_byte : ℕ → Bool
is_value_byte c = ltb 0x1f c && not (eqb c 0x7f)

unfoldable pub validate_bytes : (ℕ → Bool) → Bytes → Result (Unit {0})
validate_bytes allows [] = ok tt
validate_bytes allows (c ∷ s) = do guard (allows c); validate_bytes allows s

-- validateFingerprintLabel
unfoldable pub validate_label : Bytes → Result (Unit {0})
unfolding validate_bytes
validate_label label = do guard (not (label == [])); validate_bytes is_label_byte label

-- validateFingerprintValue
unfoldable pub validate_value : Bytes → Result (Unit {0})
unfolding validate_bytes
validate_value value = validate_bytes is_value_byte value

unfoldable pub member : Bytes → List Bytes → Bool
member a [] = false
member a (b ∷ l) = b == a || member a l

abbrev pub trimmed : FingerprintComponent → Bytes
trimmed c = trim is_trimmed c.value

abbrev pub render : Bytes → Bytes → Bytes
render label value = label ++ (b'=' ∷ value)

-- The loop of fingerprintCanonicalForm.
unfoldable pub collect : List Bytes → List Bytes → List FingerprintComponent → Result (List Bytes)
unfolding validate_label validate_value member trim
collect seen parts [] = ok parts
collect seen parts (c ∷ cs) = do
  validate_label c.label
  guard (not (member c.label seen))
  validate_value (trimmed c)
  collect (c.label ∷ seen) (parts ++ render c.label (trimmed c) ∷ []) cs

abbrev pub joined : List Bytes → Bytes
joined parts = fingerprint_domain ++ (separator ∷ join separator (sort parts))

-- fingerprintCanonicalForm
unfoldable pub fingerprint_canonical_form : List FingerprintComponent → Result Bytes
unfolding collect sort join
fingerprint_canonical_form [] = err invalid_component
fingerprint_canonical_form (c ∷ cs) = do parts ← collect [] [] (c ∷ cs); ok (joined parts)

abbrev pub hex_digit : ℕ → ℕ
hex_digit n = if ltb n 10 then b'0' + n else b'W' + n

-- hex.EncodeToString
unfoldable pub hex : Bytes → Bytes
hex [] = []
hex (b ∷ s) = hex_digit (b / 16) ∷ hex_digit (b % 16) ∷ hex s

-- CanonicalFingerprint, over sha256.Sum256.
unfoldable pub canonical_fingerprint :
    (sha256 : Bytes → Bytes) → List FingerprintComponent → Result Bytes
unfolding fingerprint_canonical_form hex
canonical_fingerprint sha256 cs = do
  canonical ← fingerprint_canonical_form cs
  ok (hex (sha256 canonical))
