-- ===== src/Examples/Proofs.antt =====
-- An offline proof and an escaped text of concrete bytes.
use tamga_go.Base.{◌≡◌, ◌↔◌, refl, none, some, List, [], ◌∷◌, Option}
use tamga_go.Text.{Bytes, codes}
use tamga_go.Json.{Json}
use tamga_go.Errors.{ok}
use tamga_go.Proof.{unescape_line_and_paragraph_separators, verify_offline_proof}
use tamga_go.Proof.Escapes.{
  Token, plain, short, unicode, written, rewritten, text_of,
  unescape_line_and_paragraph_separators_lem,
}
use tamga_go.Proof.Laws.{Proves, verify_offline_proof-Proves_iff}
use tamga_go.Examples.{toy}

-- An escaped separator, and an escaped backslash before the letters of one.
abbrev tokens : List Token
tokens =
    unicode b'2' b'0' b'2' b'8'
    ∷ short b'\\'
    ∷ plain b'u'
    ∷ plain b'2'
    ∷ plain b'0'
    ∷ plain b'2'
    ∷ plain b'9'
    ∷ unicode b'0' b'0' b'0' b'1'
    ∷ []

unescape_line_and_paragraph_separators_lem_example :
    unescape_line_and_paragraph_separators (text_of written tokens) ≡ text_of rewritten tokens
unescape_line_and_paragraph_separators_lem_example =
    unescape_line_and_paragraph_separators_lem tokens
      (tt, (refl, (refl, (refl, (refl, (refl, (refl, (tt, tt))))))))

abbrev encode_empty : Json → Option Bytes
encode_empty v = some (codes "{}\n")

verify_offline_proof-Proves_iff_example :
    (verify_offline_proof encode_empty toy
        (some (codes "k"))
        (codes "acct")
        (codes "m1")
        (codes "fp")
        none
        (codes "v1x0.k")
      ≡ ok tt)
    ↔ Proves encode_empty toy
        (some (codes "k"))
        (codes "acct")
        (codes "m1")
        (codes "fp")
        none
        (codes "v1x0.k")
verify_offline_proof-Proves_iff_example =
    verify_offline_proof-Proves_iff encode_empty toy (some (codes "k")) (codes "acct") (codes "m1")
      (codes "fp") none (codes "v1x0.k")
