-- ===== src/Examples/Codec.antt =====
-- Encoders that have an inverse: a number is written as so many letters, and a certificate as its
-- three texts with a letter between them.
mod Sealed
use tamga_go.Base.{
  ℕ, zero, suc, ◌≡◌, ◌∙◌, ◌+◌, refl, sym, ap, Bool, true, Option, none, some, List, [], ◌∷◌, ◌++◌,
  All, arith, eqb, if◌then◌else◌, drop, length,
}
use tamga_go.Text.{Bytes, codes, ◌==◌, cut}
use tamga_go.Text.Laws.{Free, cut-append}
use tamga_go.Resource.{CertPayload}
use tamga_go.Checkout.{Crypto}
use tamga_go.Checkout.Sealing.{Undoes, is_base64_byte}
use tamga_go.Examples.{toy}

unfoldable tally : ℕ → Bytes → Bytes
tally zero s = b'B' ∷ s
tally (suc n) s = b'A' ∷ tally n s

unfoldable write : Bytes → Bytes
unfolding tally
write [] = []
write (n ∷ s) = tally n (write s)

abbrev after : ℕ → Option Bytes → Option Bytes
after n none = none
after n (some s) = some (n ∷ s)

unfoldable read : ℕ → Bytes → Option Bytes
read n [] = some []
read n (c ∷ s) =
    let longer = read (suc n) s in
    let next = read 0 s in if eqb c b'A' then longer else after n next

read-tally : (m n : ℕ) (s : Bytes) → read m (tally n s) ≡ after (n + m) (read 0 s)
unfolding read tally
read-tally m zero s = ap (λ (k : ℕ). after k (read 0 s)) (omega arith)
read-tally m (suc n) s = read-tally (suc m) n s ∙ ap (λ (k : ℕ). after k (read 0 s)) (omega arith)

read-write : (s : Bytes) → read 0 (write s) ≡ some s
unfolding read write
read-write [] = refl
read-write (n ∷ s) =
    read-tally 0 n (write s)
    ∙ ap (after (n + 0)) (read-write s)
    ∙ ap (λ (k : ℕ). some (k ∷ s)) (omega arith)

abbrev IsLetter : ℕ → Type 0
IsLetter c = is_base64_byte c ≡ true

tally-All : (n : ℕ) (s : Bytes) → All IsLetter s → All IsLetter (tally n s)
unfolding tally
tally-All zero s h = (refl, h)
tally-All (suc n) s h = (refl, tally-All n s h)

write-All : (s : Bytes) → All IsLetter (write s)
unfolding write
write-All [] = tt
write-All (n ∷ s) = tally-All n (write s) (write-All s)

tally-Free : (n : ℕ) (s : Bytes) → Free b'C' s → Free b'C' (tally n s)
unfolding tally
tally-Free zero s h = (omega arith, h)
tally-Free (suc n) s h = (omega arith, tally-Free n s h)

write-Free : (s : Bytes) → Free b'C' (write s)
unfolding write
write-Free [] = tt
write-Free (n ∷ s) = tally-Free n (write s) (write-Free s)

abbrev write_cert : CertPayload → Bytes
write_cert c = write c.enc ++ (b'C' ∷ (write c.sig ++ (b'C' ∷ write c.alg)))

abbrev all_read : Option Bytes → Option Bytes → Option Bytes → Option CertPayload
all_read (some enc) (some sig) (some alg) = some (record { enc = enc; sig = sig; alg = alg })
all_read _ _ _ = none

abbrev split_last : Bytes → Option (Bytes × Bytes) → Option CertPayload
split_last enc none = none
split_last enc (some (sig, alg)) = all_read (read 0 enc) (read 0 sig) (read 0 alg)

abbrev split_first : Option (Bytes × Bytes) → Option CertPayload
split_first none = none
split_first (some (enc, rest)) = split_last enc (cut b'C' rest)

read_cert : Bytes → Option CertPayload
unfolding read cut
read_cert s = split_first (cut b'C' s)

abbrev tag : Bytes
tag = codes "0123456789abcdef"

-- A signature is the text that it signs, and a sealed text has a fixed tag before it.
abbrev coding : Crypto
coding = record toy {
  ed25519_verify = λ k m s. s == m;
  gcm_seal = λ k n s. tag ++ s;
  gcm_open = λ k n s. some (drop 16 s);
  decode_base64 = read 0;
  unmarshal_cert = read_cert;
}

read_cert-write_cert : (c : CertPayload) → read_cert (write_cert c) ≡ some c
unfolding read_cert
read_cert-write_cert c =
    ap split_first
      (cut-append b'C' (write c.enc) (write c.sig ++ (b'C' ∷ write c.alg)) (write-Free c.enc))
    ∙ ap (split_last (write c.enc)) (cut-append b'C' (write c.sig) (write c.alg) (write-Free c.sig))
    ∙ rw (read-write c.enc, read-write c.sig, read-write c.alg) refl

coding-Undoes : Undoes coding write write_cert
coding-Undoes = record {
  base64_bytes = write-All;
  decodes = read-write;
  unmarshals = λ c plain. read_cert-write_cert c;
  opens = λ key nonce text n. refl;
  tagged = λ key nonce text n. omega arith;
}
