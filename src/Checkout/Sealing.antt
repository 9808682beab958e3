-- ===== src/Checkout/Sealing.antt =====
-- What a server that seals a file with SealAESGCM and signs it writes into a certificate, and that
-- the SDK reads it back. The encoders of base64 and of the certificate are parameters.
pub mod Files
pub mod Suffixes
pub mod Machines
pub mod Delivered
use mathlib.Core.List.{reverse, reverse-append}
use tamga_go.Base.{
  ℕ, suc, ◌≡◌, ◌≢◌, ◌∙◌, ◌≤◌, ◌<◌, ◌+◌, refl, sym, ap, Bool, true, false, not, Option, none, some,
  List, [], ◌∷◌, ◌++◌, All, arith, eqb, length, take, drop, if◌then◌else◌, ltb, leb, ◌&&◌, ◌||◌,
  length-append,
}
use tamga_go.Text.{
  Bytes, codes, ◌==◌, trim_space, cut_prefix, cut_suffix, leading_space, trailing_space,
}
use tamga_go.Text.Laws.{cut_prefix-append, cut_suffix-append}
use tamga_go.Text.Spaces.{
  IsPlain, trim_space_kept, trim_space-line, leading_space-plain, trailing_space-plain,
}
use tamga_go.Errors.{Result, ok, err}
use tamga_go.Errors.Laws.{guard-eq-ok, ok-injective}
use tamga_go.Resource.{CertPayload}
use tamga_go.Checkout.{Crypto, strip_pem, parse_cert, base64, seal_aes_gcm, open_aes_gcm}

-- The alphabet of base64.
abbrev pub is_base64_byte : ℕ → Bool
is_base64_byte c =
    (leb b'A' c && leb c b'Z')
    || (leb b'a' c && leb c b'z')
    || (leb b'0' c && leb c b'9')
    || eqb c b'+'
    || eqb c b'/'
    || eqb c b'='

-- A certificate of printable ASCII, which JSON text keeps as it is.
abbrev pub IsPlainCert : CertPayload → Type 0
IsPlainCert c = All IsPlain c.enc × All IsPlain c.sig × All IsPlain c.alg

-- How the primitives of the other side undo those of this side.
pub record Undoes (crypto : Crypto) (encode_base64 : Bytes → Bytes)
    (marshal_cert : CertPayload → Bytes) : Type 0 where
  pub base64_bytes : (s : Bytes) → All (λ c. is_base64_byte c ≡ true) (encode_base64 s)
  pub decodes : (s : Bytes) → crypto.decode_base64 (encode_base64 s) ≡ some s
  pub unmarshals :
      (c : CertPayload) → IsPlainCert c → crypto.unmarshal_cert (marshal_cert c) ≡ some c
  pub opens :
      (key nonce text : Bytes)
      → length nonce ≡ 12
      → crypto.gcm_open key nonce (crypto.gcm_seal key nonce text) ≡ some text
  pub tagged :
      (key nonce text : Bytes)
      → length nonce ≡ 12
      → length (crypto.gcm_seal key nonce text) ≡ length text + 16

pub base64-IsPlain : (s : Bytes) → All (λ c. is_base64_byte c ≡ true) s → All IsPlain s
base64-IsPlain [] h = tt
base64-IsPlain (c ∷ s) (p, h) = (ground arith, base64-IsPlain s h)

abbrev pub are_plain : Bytes → Bool
are_plain [] = true
are_plain (c ∷ s) = (leb 33 c && ltb c 127) && are_plain s

-- Of a text that is known, the test can be computed.
pub are_plain-IsPlain : (s : Bytes) → are_plain s ≡ true → All IsPlain s
unfolding are_plain
are_plain-IsPlain [] e = tt
are_plain-IsPlain (c ∷ s) e = (ground arith, are_plain-IsPlain s (ground arith))

-- The header and the footer, and the line between them.
abbrev pub envelope : Bytes → Bytes → Bytes → Bytes
envelope header footer body = header ++ ((b'\n' ∷ (body ++ b'\n' ∷ [])) ++ footer)

trailing_space-footer :
    (header footer : Bytes) (c : ℕ) (r m : Bytes)
    → reverse footer ≡ c ∷ r
    → IsPlain c
    → trailing_space (reverse (header ++ (m ++ footer))) ≡ 0
trailing_space-footer header footer c r m q p =
    rw (reverse-append header (m ++ footer), reverse-append m footer, q)
      (trailing_space-plain c ((r ++ reverse m) ++ reverse header) p)

strip_pem-envelope :
    (x : ℕ) (header footer body : Bytes) (c : ℕ) (r : Bytes)
    → IsPlain x
    → reverse footer ≡ c ∷ r
    → IsPlain c
    → All IsPlain body
    → strip_pem (envelope (x ∷ header) footer body) (x ∷ header) footer ≡ ok body
unfolding strip_pem
strip_pem-envelope x header footer body c r px q pc h =
    let m = b'\n' ∷ (body ++ b'\n' ∷ []) in
    rw
      (
        trim_space_kept (envelope (x ∷ header) footer body)
            (leading_space-plain x (header ++ (m ++ footer)) px)
            (trailing_space-footer (x ∷ header) footer c r m q pc),
        cut_prefix-append (x ∷ header) (m ++ footer),
        cut_suffix-append m footer,
        trim_space-line body h,
      )
      refl

module _ (crypto : Crypto) (encode_base64 : Bytes → Bytes) (marshal_cert : CertPayload → Bytes)
    (undoes : Undoes crypto encode_base64 marshal_cert) where
  open undoes use {base64_bytes, decodes, unmarshals, opens, tagged}

  pub base64-encode : (s : Bytes) → base64 crypto (encode_base64 s) ≡ ok s
  base64-encode s = rw (decodes s) refl

  pub parse_cert-envelope :
      (x : ℕ) (header footer : Bytes) (c : ℕ) (r : Bytes) (cert : CertPayload)
      → IsPlain x
      → reverse footer ≡ c ∷ r
      → IsPlain c
      → IsPlainCert cert
      → parse_cert crypto
          (x ∷ header)
          footer
          (envelope (x ∷ header) footer (encode_base64 (marshal_cert cert)))
        ≡ ok cert
  unfolding parse_cert
  parse_cert-envelope x header footer c r cert px q pc plain =
      let body = encode_base64 (marshal_cert cert) in
      rw
        (
          strip_pem-envelope x header footer body c r px q pc
              (base64-IsPlain body (base64_bytes (marshal_cert cert))),
          decodes (marshal_cert cert),
          unmarshals cert plain,
        )
        refl

  -- What is sealed opens again, under the same key and nonce.
  pub open_aes_gcm-of_sealed :
      (key nonce text sealed : Bytes)
      → seal_aes_gcm crypto key nonce text ≡ ok sealed
      → (length nonce ≡ 12)
        × (length sealed ≡ length text + 16)
        × (open_aes_gcm crypto key nonce sealed ≡ ok text)
  unfolding seal_aes_gcm open_aes_gcm
  open_aes_gcm-of_sealed key nonce text sealed q =
      let (n, s) = guard-eq-ok (not (eqb (length nonce) 12)) _ _ sealed q in
      let twelve : length nonce ≡ 12 = ground arith in
      let same : crypto.gcm_seal key nonce text ≡ sealed = ok-injective s in
      (
        twelve,
        ap length (sym same) ∙ tagged key nonce text twelve,
        rw (n, ← same, opens key nonce text twelve) refl,
      )
