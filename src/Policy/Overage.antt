-- ===== src/Policy/Overage.antt =====
-- What the overage strategies admit.
use tamga_go.Base.{
  ◌∙◌, sym, leb, sub_ℕ, ap, ◌≤◌, ℕ, suc, ℤ, pos, negsuc, ◌+◌, ◌*◌, ◌<◌, ◌≡◌, refl, ◌*ℤ◌, Bool, true,
  false, ◌||◌, Bool-cases, inl, inr, ltb, leb_ℤ, pos_part, neg_part, arith,
}
use tamga_go.Policy.{
  rounded, excess, round53, float_allows, allows, effective_overage_strategy, overage_none,
  overage_125x, overage_15x, overage_2x, overage_always_allow,
}
use tamga_go.Text.{Bytes, ◌==◌}

or-eq-false : (a b : Bool) → (a || b) ≡ false → (a ≡ false) × (b ≡ false)
or-eq-false true b q = absurd (cc)
or-eq-false false b q = (refl, q)

allows-overage_none : (count max : ℤ) → allows overage_none count max ≡ leb_ℤ count max
unfolding allows ◌==◌
allows-overage_none count max = refl

allows-of_unknown :
    (raw : Bytes) (count max : ℤ)
    → (raw == overage_125x
        || raw == overage_15x
        || raw == overage_2x
        || raw == overage_always_allow)
      ≡ false
    → allows raw count max ≡ leb_ℤ count max
unfolding allows
allows-of_unknown raw count max n =
    let (abd, e) = or-eq-false _ (raw == overage_always_allow) n in
    let (ab, d) = or-eq-false _ (raw == overage_2x) abd in
    let (a, b) = or-eq-false _ (raw == overage_15x) ab in rw (a, b, d, e) refl

-- What is not a strategy of this version is read as no overage, wherever the strategy comes from.
pub allows-effective_overage_strategy :
    (raw : Bytes) (count max : ℤ)
    → allows (effective_overage_strategy raw) count max ≡ allows raw count max
unfolding effective_overage_strategy
allows-effective_overage_strategy raw count max =
    elim (Bool-cases (
      raw == overage_125x
      || raw == overage_15x
      || raw == overage_2x
      || raw == overage_always_allow)) [
        | inl t ↦ rw t refl
        | inr n ↦ rw (n, allows-of_unknown raw count max n) (allows-overage_none count max)
      ]

-- Numbers of 53 bits are exact.
round53-exact : (n : ℕ) → n < 9007199254740992 → round53 n ≡ n
unfolding round53 excess
round53-exact n lt = let t : ltb n 9007199254740992 ≡ true = ground arith in rw t refl

rounded-exact :
    (a : ℤ) → pos_part a < 9007199254740992 → neg_part a < 9007199254740992 → rounded a ≡ a
rounded-exact (pos n) p q = ap pos (round53-exact n p)
rounded-exact (negsuc n) p q = rw (round53-exact (suc n) q) (ground arith)

-- The numbers that stay exact when they are multiplied by at most 8.
abbrev pub IsSmall : ℤ → Type 0
IsSmall a = (pos_part a < 1125899906842624) × (neg_part a < 1125899906842624)

sub_ℕ_bounds : (a b : ℕ) → (pos_part (sub_ℕ a b) ≤ a) × (neg_part (sub_ℕ a b) ≤ b)
sub_ℕ_bounds a b = elim (Bool-cases (leb b a)) [
  | inl t ↦ rw t (ground arith)
  | inr n ↦ rw n (ground arith)
]

-- Below 2 ^ 50, the floating-point comparison is the one of the exact numbers.
float_allows-exact :
    (q : ℕ) (count max : ℤ)
    → q * pos_part max + 0 * neg_part max < 9007199254740992
    → q * neg_part max + 0 * pos_part max < 9007199254740992
    → IsSmall count
    → IsSmall max
    → float_allows q count max ≡ leb_ℤ (pos 4 *ℤ count) (pos q *ℤ max)
unfolding float_allows
float_allows-exact q count max p n (cp, cn) (mp, mn) =
    let product = pos q *ℤ max in
    let (u, v) =
      sub_ℕ_bounds (q * pos_part max + 0 * neg_part max) (q * neg_part max + 0 * pos_part max) in
    rw
      (
        rounded-exact count (omega arith) (omega arith),
        rounded-exact max (omega arith) (omega arith),
        rounded-exact product (omega arith) (omega arith),
      )
      refl

-- Below 2 ^ 50 users, machines or cores, each strategy admits exactly the counts up to its
-- multiple of the maximum, although the code compares floating-point numbers: 5 quarters, 6
-- quarters and 8 quarters of it, and the maximum itself for whatever is no strategy.
pub allows-exact :
    (count max : ℤ)
    → IsSmall count
    → IsSmall max
    → (allows overage_125x count max ≡ leb_ℤ (pos 4 *ℤ count) (pos 5 *ℤ max))
      × (allows overage_15x count max ≡ leb_ℤ (pos 4 *ℤ count) (pos 6 *ℤ max))
      × (allows overage_2x count max ≡ leb_ℤ (pos 4 *ℤ count) (pos 8 *ℤ max))
      × ((raw : Bytes)
          → effective_overage_strategy raw ≡ overage_none
          → allows raw count max ≡ leb_ℤ count max)
unfolding allows ◌==◌
allows-exact count max c (p, n) = (
  float_allows-exact 5 count max (omega arith) (omega arith) c (p, n),
  float_allows-exact 6 count max (omega arith) (omega arith) c (p, n),
  float_allows-exact 8 count max (omega arith) (omega arith) c (p, n),
  (λ raw e.
      sym (allows-effective_overage_strategy raw count max)
      ∙ ap (λ s. allows s count max) e
      ∙ allows-overage_none count max),
)
