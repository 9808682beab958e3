-- ===== src/Text.antt =====
-- Go's strings as lists of bytes, and the functions of package strings that the SDK calls.
pub mod Laws
pub mod Decimal
pub mod Order
pub mod Spaces
use Prim.Native.Char.{code}
use Prim.Native.String.{String}
use mathlib.Core.List.{reverse}
use tamga_go.Base.{
  ℕ, zero, suc, ◌-◌, ◌≡◌, refl, ◌↔◌, Bool, true, false, ◌&&◌, ◌||◌, Option, none, some, List, [],
  ◌∷◌, ◌++◌, arith, leb, eqb, if◌then◌else◌, length, take, drop,
}

abbrev pub Bytes : Type 0
Bytes = List ℕ

-- The bytes of an ASCII literal.
abbrev pub codes : String → Bytes
codes String.[] = []
codes (String.◌∷◌ c s) = code c ∷ codes s

infix 50 ◌==◌
unfoldable pub ◌==◌ : Bytes → Bytes → Bool
[] == [] = true
[] == (y ∷ ys) = false
(x ∷ xs) == [] = false
(x ∷ xs) == (y ∷ ys) = eqb x y && xs == ys

-- `a <= b` of two Go strings.
unfoldable pub precedes : Bytes → Bytes → Bool
precedes [] ys = true
precedes (x ∷ xs) [] = false
precedes (x ∷ xs) (y ∷ ys) = if eqb x y then precedes xs ys else leb x y

-- strings.CutPrefix
unfoldable pub cut_prefix : Bytes → Bytes → Option Bytes
cut_prefix s [] = some s
cut_prefix [] (y ∷ p) = none
cut_prefix (x ∷ s) (y ∷ p) = if eqb x y then cut_prefix s p else none

-- strings.HasSuffix
unfoldable pub has_suffix : Bytes → Bytes → Bool
has_suffix s t = leb (length t) (length s) && drop (length s - length t) s == t

-- strings.CutSuffix
unfoldable pub cut_suffix : Bytes → Bytes → Option Bytes
unfolding has_suffix
cut_suffix s t = if has_suffix s t then some (take (length s - length t) s) else none

abbrev attach : ℕ → Option (Bytes × Bytes) → Option (Bytes × Bytes)
attach x none = none
attach x (some (before, after)) = some (x ∷ before, after)

-- strings.Cut at a separator of one byte
unfoldable pub cut : ℕ → Bytes → Option (Bytes × Bytes)
cut sep [] = none
cut sep (x ∷ s) = if eqb x sep then some ([], s) else attach x (cut sep s)

abbrev shift_index : Option ℕ → Bool → Option ℕ
shift_index none here = if here then some 0 else none
shift_index (some i) here = some (suc i)

-- strings.LastIndex of one byte; `none` is -1
unfoldable pub last_index : ℕ → Bytes → Option ℕ
last_index sep [] = none
last_index sep (x ∷ s) = shift_index (last_index sep s) (eqb x sep)

-- strings.Contains of one byte
unfoldable pub contains : ℕ → Bytes → Bool
contains c [] = false
contains c (x ∷ s) = eqb x c || contains c s

-- strings.Join
unfoldable pub join : ℕ → List Bytes → Bytes
join sep [] = []
join sep (p ∷ []) = p
join sep (p ∷ q ∷ ps) = p ++ (sep ∷ join sep (q ∷ ps))

module _ (drops : ℕ → Bool) where
  unfoldable pub trim_left : Bytes → Bytes
  trim_left [] = []
  trim_left (x ∷ s) = let rest = trim_left s in if drops x then rest else x ∷ s

  abbrev pub keep_right : ℕ → Bytes → Bytes
  keep_right x [] = if drops x then [] else x ∷ []
  keep_right x (y ∷ s) = x ∷ y ∷ s

  unfoldable pub trim_right : Bytes → Bytes
  trim_right [] = []
  trim_right (x ∷ s) = keep_right x (trim_right s)

  -- strings.Trim with a cutset of single bytes
  unfoldable pub trim : Bytes → Bytes
  unfolding trim_left trim_right
  trim s = trim_right (trim_left s)

abbrev pub is_ascii_space : ℕ → Bool
is_ascii_space c = eqb c 0x20 || (leb 0x09 c && leb c 0x0d)

-- The third byte of a space that begins with E2 80.
abbrev is_general_space : ℕ → Bool
is_general_space c = (leb 0x80 c && leb c 0x8a) || eqb c 0xa8 || eqb c 0xa9 || eqb c 0xaf

abbrev is_wide_space : ℕ → ℕ → ℕ → Bool
is_wide_space a b c =
    (eqb a 0xe1 && eqb b 0x9a && eqb c 0x80)
    || (eqb a 0xe2 && eqb b 0x80 && is_general_space c)
    || (eqb a 0xe2 && eqb b 0x81 && eqb c 0x9f)
    || (eqb a 0xe3 && eqb b 0x80 && eqb c 0x80)

abbrev is_latin_space : ℕ → ℕ → Bool
is_latin_space a b = eqb a 0xc2 && (eqb b 0x85 || eqb b 0xa0)

-- The length in bytes of the space (unicode.IsSpace, in UTF-8) that a text begins with, or 0.
unfoldable pub leading_space : Bytes → ℕ
leading_space [] = 0
leading_space (a ∷ []) = if is_ascii_space a then 1 else 0
leading_space (a ∷ b ∷ []) = if is_ascii_space a then 1 else if is_latin_space a b then 2 else 0
leading_space (a ∷ b ∷ c ∷ s) =
    if is_ascii_space a
    then 1
    else if is_latin_space a b
    then 2
    else if is_wide_space a b c
    then 3
    else 0

-- The same at the end of a text, whose bytes are given from the last to the first.
unfoldable pub trailing_space : Bytes → ℕ
trailing_space [] = 0
trailing_space (a ∷ []) = if is_ascii_space a then 1 else 0
trailing_space (b ∷ a ∷ []) = if is_ascii_space b then 1 else if is_latin_space a b then 2 else 0
trailing_space (c ∷ b ∷ a ∷ s) =
    if is_ascii_space c
    then 1
    else if is_latin_space b c
    then 2
    else if is_wide_space a b c
    then 3
    else 0

-- Each round drops at least one byte, so that the text's length is fuel enough.
unfoldable pub strip : (Bytes → ℕ) → ℕ → Bytes → Bytes
strip width zero s = s
strip width (suc fuel) s =
    let rest = strip width fuel (drop (width s) s) in if eqb (width s) 0 then s else rest

-- strings.TrimSpace
unfoldable pub trim_space : Bytes → Bytes
unfolding leading_space trailing_space strip
trim_space s =
    let t = strip leading_space (length s) s in
    reverse (strip trailing_space (length t) (reverse t))
