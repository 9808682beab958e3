-- ===== src/Proof/Escapes.antt =====
-- unescapeLineAndParagraphSeparators on JSON text, read as the tokens that it is written with.
use tamga_go.Base.{
  ℕ, ◌≡◌, refl, ap, ◌∙◌, true, false, List, [], ◌∷◌, ◌++◌, arith, eqb, leb, length, All,
  if◌then◌else◌,
}
use tamga_go.Text.{Bytes, codes, ◌==◌}
use tamga_go.Proof.{
  is_short_escape, unescape_from, unescape_line_and_paragraph_separators, u2028_rune, u2029_rune,
}

-- A byte that is no backslash, a backslash with one letter, or an escape with four digits.
pub data Token : Type 0 where
  plain : ℕ → Token
  short : ℕ → Token
  unicode : ℕ → ℕ → ℕ → ℕ → Token

abbrev pub IsToken : Token → Type 0
IsToken (plain c) = eqb c b'\\' ≡ false
IsToken (short c) = is_short_escape c ≡ true
IsToken (unicode a b c d) = Unit

abbrev pub written : Token → Bytes
written (plain c) = c ∷ []
written (short c) = b'\\' ∷ c ∷ []
written (unicode a b c d) = b'\\' ∷ b'u' ∷ a ∷ b ∷ c ∷ d ∷ []

-- What the server's encoder writes for the token: the two separators are not escaped.
abbrev pub rewritten : Token → Bytes
rewritten (plain c) = c ∷ []
rewritten (short c) = b'\\' ∷ c ∷ []
rewritten (unicode a b c d) =
    if (a ∷ b ∷ c ∷ d ∷ []) == codes "2028"
    then u2028_rune
    else if (a ∷ b ∷ c ∷ d ∷ []) == codes "2029"
    then u2029_rune
    else b'\\' ∷ b'u' ∷ a ∷ b ∷ c ∷ d ∷ []

abbrev pub text_of : (Token → Bytes) → List Token → Bytes
text_of f [] = []
text_of f (t ∷ ts) = f t ++ text_of f ts

short-ne-u : (c : ℕ) → is_short_escape c ≡ true → eqb c b'u' ≡ false
short-ne-u c h = ground arith

six-le-length : (a b c d : ℕ) (s : Bytes) → leb 6 (length (b'\\' ∷ b'u' ∷ a ∷ b ∷ c ∷ d ∷ s)) ≡ true
six-le-length a b c d s = ground arith

unescape_from-token :
    (t : Token) (s : Bytes)
    → IsToken t
    → unescape_from 0 (written t ++ s) ≡ rewritten t ++ unescape_from 0 s
unfolding unescape_from ◌==◌
unescape_from-token (plain c) s h = rw h refl
unescape_from-token (short c) s h = rw (short-ne-u c h, h) refl
unescape_from-token (unicode a b c d) s h = rw (six-le-length a b c d s) refl

-- Of JSON text in which every backslash begins an escape, the two line separators are unescaped and
-- nothing else is changed: not an escaped backslash before the letters of such an escape.
pub unescape_line_and_paragraph_separators_lem :
    (ts : List Token)
    → All IsToken ts
    → unescape_line_and_paragraph_separators (text_of written ts) ≡ text_of rewritten ts
unfolding unescape_line_and_paragraph_separators unescape_from
unescape_line_and_paragraph_separators_lem [] h = refl
unescape_line_and_paragraph_separators_lem (t ∷ ts) h =
    unescape_from-token t (text_of written ts) h.0
    ∙ ap (λ s. rewritten t ++ s) (unescape_line_and_paragraph_separators_lem ts h.1)
