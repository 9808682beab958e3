-- ===== src/Text/Spaces.antt =====
-- strings.TrimSpace on texts that begin and end with a printable byte.
use mathlib.Core.List.{reverse, reverse_aux, reverse-append, reverse-reverse}
use tamga_go.Base.{ℕ, zero, suc, ◌≡◌, ◌≤◌, ◌<◌, refl, [], ◌∷◌, ◌++◌, All, arith, length}
use tamga_go.Text.{Bytes, leading_space, trailing_space, strip, trim_space}

-- Printable ASCII other than the space.
abbrev pub IsPlain : ℕ → Type 0
IsPlain c = (33 ≤ c) × (c < 127)

pub leading_space-plain : (c : ℕ) (s : Bytes) → IsPlain c → leading_space (c ∷ s) ≡ 0
unfolding leading_space
leading_space-plain c [] p = ground arith
leading_space-plain c (b ∷ []) p = ground arith
leading_space-plain c (b ∷ d ∷ s) p = ground arith

pub trailing_space-plain : (c : ℕ) (s : Bytes) → IsPlain c → trailing_space (c ∷ s) ≡ 0
unfolding trailing_space
trailing_space-plain c [] p = ground arith
trailing_space-plain c (b ∷ []) p = ground arith
trailing_space-plain c (b ∷ d ∷ s) p = ground arith

leading_space-newline : (s : Bytes) → leading_space (b'\n' ∷ s) ≡ 1
unfolding leading_space
leading_space-newline [] = refl
leading_space-newline (b ∷ []) = refl
leading_space-newline (b ∷ d ∷ s) = refl

trailing_space-newline : (s : Bytes) → trailing_space (b'\n' ∷ s) ≡ 1
unfolding trailing_space
trailing_space-newline [] = refl
trailing_space-newline (b ∷ []) = refl
trailing_space-newline (b ∷ d ∷ s) = refl

strip_kept : (width : Bytes → ℕ) (n : ℕ) (s : Bytes) → width s ≡ 0 → strip width n s ≡ s
unfolding strip
strip_kept width zero s w = refl
strip_kept width (suc n) s w = rw w refl

strip_one :
    (width : Bytes → ℕ) (n x : ℕ) (s : Bytes)
    → width (x ∷ s) ≡ 1
    → strip width (suc n) (x ∷ s) ≡ strip width n s
unfolding strip
strip_one width n x s w = rw w refl

reverse_aux-All : (s t : Bytes) → All IsPlain s → All IsPlain t → All IsPlain (reverse_aux s t)
reverse_aux-All [] t h k = k
reverse_aux-All (x ∷ s) t (p, h) k = reverse_aux-All s (x ∷ t) h (p, k)

trailing_space-nil : trailing_space [] ≡ 0
unfolding trailing_space
trailing_space-nil = refl

trailing_space-All : (s : Bytes) → All IsPlain s → trailing_space s ≡ 0
trailing_space-All [] h = trailing_space-nil
trailing_space-All (c ∷ s) (p, h) = trailing_space-plain c s p

-- A text that neither begins nor ends with a space stays.
pub trim_space_kept :
    (s : Bytes) → leading_space s ≡ 0 → trailing_space (reverse s) ≡ 0 → trim_space s ≡ s
unfolding trim_space
trim_space_kept s h k =
    rw (strip_kept leading_space (length s) s h, strip_kept trailing_space (length s) (reverse s) k)
      (reverse-reverse s)

-- A line that stands between line breaks is what is left without them.
pub trim_space-line : (s : Bytes) → All IsPlain s → trim_space (b'\n' ∷ (s ++ b'\n' ∷ [])) ≡ s
unfolding trim_space
trim_space-line [] h = refl
trim_space-line (x ∷ s) (p, h) =
    let t = x ∷ (s ++ b'\n' ∷ []) in
    let back : reverse t ≡ b'\n' ∷ reverse (x ∷ s) = reverse-append (x ∷ s) (b'\n' ∷ []) in
    let kept = trailing_space-All (reverse (x ∷ s)) (reverse_aux-All (x ∷ s) [] (p, h) tt) in
    rw
      (
        strip_one leading_space (length t) b'\n' t (leading_space-newline t),
        strip_kept leading_space (length t) t (leading_space-plain x _ p),
        back,
        strip_one trailing_space (length (s ++ b'\n' ∷ [])) b'\n' (reverse (x ∷ s))
            (trailing_space-newline (reverse (x ∷ s))),
        strip_kept trailing_space (length (s ++ b'\n' ∷ [])) (reverse (x ∷ s)) kept,
      )
      (reverse-reverse (x ∷ s))
