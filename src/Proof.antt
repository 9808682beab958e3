-- ===== src/Proof.antt =====
-- proof.go: offline proofs of a machine, and the JSON that the server signs.
pub mod Escapes
pub mod Laws
use tamga_go.Base.{
  ℕ, zero, suc, Bool, true, false, ◌||◌, not, Option, none, some, List, [], ◌∷◌, ◌++◌, eqb, leb,
  length, take, if◌then◌else◌,
}
use tamga_go.Text.{Bytes, codes, ◌==◌, cut_prefix, cut_suffix}
use tamga_go.Json.{Json, Object, object, str}
use tamga_go.Errors.{
  Result, ok, err, GoError, sentinel, plain, wrap, invalid_signature, ◌>>=◌, ◌>>◌, or_fail,
}
use tamga_go.Http.{Env, post}
use tamga_go.Http.Monad.{M}
use tamga_go.Client.{Client}
use tamga_go.Client.Decode.{decode_json_api}
use tamga_go.Resource.{Machine, Wire}
use tamga_go.Machine.{or_empty, machine_path}
use tamga_go.Checkout.{Crypto, verify_rsa_pkcs1v15, base64}

abbrev pub proof_prefix : Bytes
proof_prefix = codes "v1x0."

-- The bytes of U+2028 and U+2029 in UTF-8.
abbrev pub u2028_rune : Bytes
u2028_rune = 0xe2 ∷ 0x80 ∷ 0xa8 ∷ []

abbrev pub u2029_rune : Bytes
u2029_rune = 0xe2 ∷ 0x80 ∷ 0xa9 ∷ []

-- The case 'u': the six bytes of an escape, or the character for two of them.
abbrev pub unicode_escape : Bytes → Bytes
unicode_escape s =
    if s == codes "\\u2028" then u2028_rune else if s == codes "\\u2029" then u2029_rune else s

abbrev pub is_short_escape : ℕ → Bool
is_short_escape c =
    eqb c b'"'
    || eqb c b'\\'
    || eqb c b'/'
    || eqb c b'b'
    || eqb c b'f'
    || eqb c b'n'
    || eqb c b'r'
    || eqb c b't'

-- What one round of the loop appends at the byte `c` before `s`, and how many bytes of `s` it takes.
abbrev pub after_backslash : ℕ → Bytes → Bytes × ℕ
after_backslash c [] = (c ∷ [], 0)
after_backslash c (d ∷ s) =
    if eqb d b'u'
    then (if leb 6 (length (c ∷ d ∷ s))
        then (unicode_escape (take 6 (c ∷ d ∷ s)), 5)
        else (c ∷ [], 0))
    else if is_short_escape d
    then (c ∷ d ∷ [], 1)
    else (c ∷ [], 0)

abbrev pub round : ℕ → Bytes → Bytes × ℕ
round c s = if eqb c b'\\' then after_backslash c s else (c ∷ [], 0)

-- The loop, with the number of bytes that the last round has taken beyond its first.
unfoldable pub unescape_from : ℕ → Bytes → Bytes
unescape_from taken [] = []
unescape_from (suc taken) (c ∷ s) = unescape_from taken s
unescape_from zero (c ∷ s) = (round c s).0 ++ unescape_from (round c s).1 s

-- unescapeLineAndParagraphSeparators
unfoldable pub unescape_line_and_paragraph_separators : Bytes → Bytes
unfolding unescape_from
unescape_line_and_paragraph_separators s = unescape_from 0 s

abbrev trim_newline : Bytes → Bytes
trim_newline s = elim (cut_suffix s (codes "\n")) [ none ↦ s | some t ↦ t ]

-- `encode` is the Encode of a json.Encoder that does not escape HTML; `none` is its error.
module _ (encode : Json → Option Bytes) where
  -- serdeCompatMarshal
  unfoldable pub serde_compat_marshal : Json → Option Bytes
  unfolding cut_suffix unescape_line_and_paragraph_separators
  serde_compat_marshal v = elim (encode v) [
    | none ↦ none
    | some s ↦ some (unescape_line_and_paragraph_separators (trim_newline s))
  ]

  abbrev payload : Bytes → Bytes → Bytes → Option Object → Json
  payload account_id machine_id fingerprint dataset = object (
      (codes "account", object ((codes "id", str account_id) ∷ []))
      ∷ (
        codes "machine",
        object ((codes "id", str machine_id) ∷ (codes "fingerprint", str fingerprint) ∷ []),
      )
      ∷ (codes "dataset", object (or_empty dataset))
      ∷ [])

  -- buildOfflineProofPayloadJSON
  unfoldable pub build_offline_proof_payload_json :
      Bytes → Bytes → Bytes → Option Object → Option Bytes
  unfolding serde_compat_marshal
  build_offline_proof_payload_json account_id machine_id fingerprint dataset =
      serde_compat_marshal (payload account_id machine_id fingerprint dataset)

  module _ (crypto : Crypto) where
    -- ParseProof
    unfoldable pub parse_proof : Bytes → Result Bytes
    unfolding cut_prefix
    parse_proof proof = do
      sig_b64 ← or_fail (cut_prefix proof proof_prefix) (plain (codes "malformed proof"))
      base64 crypto sig_b64

    abbrev require_rsa : Option Bytes → Result Bytes
    require_rsa key = or_fail key (plain (codes "pub must not be nil"))

    abbrev require_verified : Bool → Result (Unit {0})
    require_verified true = ok tt
    require_verified false = err (sentinel invalid_signature)

    -- VerifyOfflineProof
    unfoldable pub verify_offline_proof :
        Option Bytes → Bytes → Bytes → Bytes → Option Object → Bytes → Result (Unit {0})
    unfolding parse_proof build_offline_proof_payload_json verify_rsa_pkcs1v15
    verify_offline_proof key account_id machine_id fingerprint dataset proof = do
      pub_key ← require_rsa key
      sig ← parse_proof proof
      payload_json ←
          or_fail (build_offline_proof_payload_json account_id machine_id fingerprint dataset)
            (wrap (plain (codes "build offline proof payload")))
      require_verified (verify_rsa_pkcs1v15 crypto pub_key payload_json sig)

-- GenerateOfflineProof
unfoldable pub generate_offline_proof :
    Env → Wire → Client → Bytes → Option Object → M (Machine × Bytes)
unfolding decode_json_api
generate_offline_proof env wire c machine_id dataset =
    decode_json_api env wire.proof c post
      (machine_path env wire c machine_id (codes "/actions/generate-offline-proof"))
      (some
        (object ((codes "meta", object ((codes "dataset", object (or_empty dataset)) ∷ [])) ∷ [])))
