-- ===== src/Text/Laws.antt =====
-- Laws of the text functions.
use tamga_go.Base.{
  ℕ, zero, suc, ◌-◌, ◌≡◌, refl, ◌↔◌, inl, inr, true, false, some, [], ◌∷◌, ◌++◌, arith, leb, eqb,
  length, take, drop, length-append, Bool-cases, Option-cases, ◌≢◌, ap, sym, ◌∙◌,
}
use tamga_go.Text.{Bytes, ◌==◌, cut_prefix, has_suffix, cut_suffix, cut, contains}

pub ==_iff : (s t : Bytes) → ((s == t) ≡ true) ↔ (s ≡ t)
unfolding ◌==◌
==_iff [] [] = ground arith
==_iff [] (y ∷ t) = ground arith
==_iff (x ∷ s) [] = ground arith
==_iff (x ∷ s) (y ∷ t) = ground (arith, ==_iff s t)

pub ==_refl : (s : Bytes) → (s == s) ≡ true
==_refl s = (==_iff s s).1 refl

pub cut_prefix-append : (p s : Bytes) → cut_prefix (p ++ s) p ≡ some s
unfolding cut_prefix
cut_prefix-append [] s = refl
cut_prefix-append (x ∷ p) s = ground (arith, cut_prefix-append p s)

pub cut_prefix-eq-some : (s p r : Bytes) → cut_prefix s p ≡ some r → s ≡ p ++ r
unfolding cut_prefix
cut_prefix-eq-some s [] r h = cc
cut_prefix-eq-some [] (y ∷ p) r h = cc
cut_prefix-eq-some (x ∷ s) (y ∷ p) r h = ground (arith, cut_prefix-eq-some s p r)

pub take-append_length : (s t : Bytes) → take (length s) (s ++ t) ≡ s
take-append_length [] t = refl
take-append_length (x ∷ s) t = ap (λ r. x ∷ r) (take-append_length s t)

pub drop-append_length : (s t : Bytes) → drop (length s) (s ++ t) ≡ t
drop-append_length [] t = refl
drop-append_length (x ∷ s) t = drop-append_length s t

pub take-append-drop : (n : ℕ) (s : Bytes) → take n s ++ drop n s ≡ s
take-append-drop zero s = refl
take-append-drop (suc n) [] = refl
take-append-drop (suc n) (x ∷ s) = ap (λ r. x ∷ r) (take-append-drop n s)

sub-length : (s t : Bytes) → length (s ++ t) - length t ≡ length s
sub-length s t = omega (arith, length-append s t)

pub has_suffix-append : (s t : Bytes) → has_suffix (s ++ t) t ≡ true
unfolding has_suffix
has_suffix-append s t =
    rw (sub-length s t, drop-append_length s t, ==_refl t) (ground (arith, length-append s t))

pub cut_suffix-append : (s t : Bytes) → cut_suffix (s ++ t) t ≡ some s
unfolding cut_suffix
cut_suffix-append s t = rw (has_suffix-append s t, sub-length s t, take-append_length s t)

pub has_suffix-eq-true :
    (s t : Bytes) → has_suffix s t ≡ true → take (length s - length t) s ++ t ≡ s
unfolding has_suffix
has_suffix-eq-true s t h =
    let (_, tail) = parts h in
    ap (λ r. take (length s - length t) s ++ r) (sym tail)
    ∙ take-append-drop (length s - length t) s
  where
    parts :
        has_suffix s t ≡ true
        → (leb (length t) (length s) ≡ true) × (drop (length s - length t) s ≡ t)
    parts e = ground (arith, ==_iff (drop (length s - length t) s) t)

pub cut_suffix-eq-some : (s t r : Bytes) → cut_suffix s t ≡ some r → s ≡ r ++ t
unfolding cut_suffix
cut_suffix-eq-some s t r h = ground (arith, has_suffix-eq-true s t)

-- Where a separator does not occur.
abbrev pub Free : ℕ → Bytes → Type 0
Free c [] = Unit
Free c (x ∷ s) = (x ≢ c) × Free c s

pub contains-eq-false_iff : (c : ℕ) (s : Bytes) → (contains c s ≡ false) ↔ Free c s
unfolding contains
contains-eq-false_iff c [] = ground arith
contains-eq-false_iff c (x ∷ s) = ground (arith, contains-eq-false_iff c s)

pub cut-append : (c : ℕ) (p r : Bytes) → Free c p → cut c (p ++ (c ∷ r)) ≡ some (p, r)
unfolding cut
cut-append c [] r h = ground arith
cut-append c (x ∷ p) r h = ground (arith, cut-append c p r h.1)

pub cut-eq-some : (c : ℕ) (s p r : Bytes) → cut c s ≡ some (p, r) → (s ≡ p ++ (c ∷ r)) × Free c p
unfolding cut
cut-eq-some c [] p r h = cc
cut-eq-some c (x ∷ s) p r h = elim (Bool-cases (eqb x c)) [
  | inl e ↦ ground arith
  | inr e ↦ elim (Option-cases (cut c s)) [
    | inl n ↦ ground arith
    | inr ((q, u), f) ↦ ground (arith, cut-eq-some c s q u f)
  ]
]
