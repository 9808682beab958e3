-- ===== src/Fingerprint/Collision.antt =====
-- The hashed fingerprint: what a collision of it would be.
use mathlib.Core.Bool.{true≢false}
use tamga_go.Base.{
  ℕ, ◌≡◌, ◌≢◌, ◌∙◌, ◌⊎◌, ◌<◌, ◌/◌, ◌%◌, refl, sym, ap, inl, inr, Bool-cases, List, [], ◌∷◌, All,
  arith,
}
use tamga_go.Text.{Bytes, ◌==◌}
use tamga_go.Text.Laws.{==_iff}
use tamga_go.Errors.{ok}
use tamga_go.Errors.Laws.{bind-eq-ok, ok-injective}
use tamga_go.Fingerprint.{
  FingerprintComponent, fingerprint_canonical_form, canonical_fingerprint, hex, hex_digit,
}
use tamga_go.Fingerprint.Injective.{fingerprint_canonical_form-injective}
use tamga_go.Fingerprint.Multiset.{Same}

-- All are bytes.
abbrev pub AreBytes : Bytes → Type 0
AreBytes s = All (λ b. b < 256) s

hex_digit-injective : (m n : ℕ) → m < 16 → n < 16 → hex_digit m ≡ hex_digit n → m ≡ n
hex_digit-injective m n p q e = ground arith

byte_of_halves : (m n : ℕ) → m / 16 ≡ n / 16 → m % 16 ≡ n % 16 → m ≡ n
byte_of_halves m n p q = omega arith

hex-injective : (s t : Bytes) → AreBytes s → AreBytes t → hex s ≡ hex t → s ≡ t
unfolding hex
hex-injective [] [] h k e = refl
hex-injective [] (y ∷ t) h k e = absurd (cc)
hex-injective (x ∷ s) [] h k e = absurd (cc)
hex-injective (x ∷ s) (y ∷ t) (p, h) (q, k) e =
    let high : hex_digit (x / 16) ≡ hex_digit (y / 16) = cc in
    let low : hex_digit (x % 16) ≡ hex_digit (y % 16) = cc in
    let rest : hex s ≡ hex t = cc in
    let same : x ≡ y =
      byte_of_halves x y (hex_digit-injective (x / 16) (y / 16) (omega arith) (omega arith) high)
        (hex_digit-injective (x % 16) (y % 16) (omega arith) (omega arith) low) in
    cc (same, hex-injective s t h k rest)

-- Two different canonical forms with one hash.
abbrev pub Collides :
    (Bytes → Bytes) → List FingerprintComponent → List FingerprintComponent → Type 0
Collides sha256 cs ds =
    (a : Bytes) × (b : Bytes) × (fingerprint_canonical_form cs ≡ ok a)
    × (fingerprint_canonical_form ds ≡ ok b)
    × (a ≢ b)
    × (sha256 a ≡ sha256 b)

-- With a hash function into bytes: components with one CanonicalFingerprint are, in some order, the
-- same labels with the same trimmed values, or their canonical forms collide in the hash.
pub canonical_fingerprint-Same :
    (sha256 : Bytes → Bytes) (cs ds : List FingerprintComponent) (s : Bytes)
    → ((t : Bytes) → AreBytes (sha256 t))
    → canonical_fingerprint sha256 cs ≡ ok s
    → canonical_fingerprint sha256 ds ≡ ok s
    → Same cs ds ⊎ Collides sha256 cs ds
unfolding canonical_fingerprint
canonical_fingerprint-Same sha256 cs ds s bytes p q =
    let (a, forms, h) = bind-eq-ok (fingerprint_canonical_form cs) _ s p in
    let (b, forms', k) = bind-eq-ok (fingerprint_canonical_form ds) _ s q in
    let hashes =
      hex-injective (sha256 a) (sha256 b) (bytes a) (bytes b)
        (ok-injective h ∙ sym (ok-injective k)) in
    elim (Bool-cases (a == b)) [
      | inl t ↦
          let same = (==_iff a b).0 t in
          inl (fingerprint_canonical_form-injective cs ds a forms (forms' ∙ ap ok (sym same)))
      | inr n ↦ inr (a, b, forms, forms', (λ e. true≢false (sym ((==_iff a b).1 e) ∙ n)), hashes)
    ]
