-- ===== src/Checkout/Machine/Algorithm.antt =====
-- The compound algorithm of a machine file, `<encoding>+<suffix>+v2`.
use tamga_go.Checkout.Machine.{machine_file_alg_v2_marker, parse_machine_file_alg, split_marker}
use tamga_go.Base.{
  ℕ, suc, ◌≡◌, ◌≢◌, ◌↔◌, ◌∙◌, ◌++◌, ap, subst, sym, refl, not, ◌||◌, none, some, [], ◌∷◌, arith,
  eqb, length, take, drop, Bool-cases, Option-cases, inl, inr,
}
use tamga_go.Text.{Bytes, codes, ◌==◌, cut, last_index}
use tamga_go.Text.Laws.{Free, ==_iff, cut-append, cut-eq-some, take-append_length}
use tamga_go.Errors.{ok, err, or_fail}
use tamga_go.Errors.Laws.{bind-eq-ok, guard-eq-ok, guard-of_false, bind-of_ok, or_fail-eq-ok}
use tamga_go.Checkout.{unsupported}

last_index-split :
    (sep : ℕ) (s : Bytes) (i : ℕ)
    → last_index sep s ≡ some i
    → s ≡ take i s ++ (sep ∷ drop (suc i) s)
unfolding last_index
last_index-split sep [] i e = absurd (cc)
last_index-split sep (x ∷ s) i e = elim (Option-cases (last_index sep s)) [
  | inl n ↦ elim (Bool-cases (eqb x sep)) [ inl t ↦ ground arith | inr f ↦ ground arith ]
  | inr (j, q) ↦ ground (arith, last_index-split sep s j q)
]

last_index-Free : (sep : ℕ) (s : Bytes) → Free sep s → last_index sep s ≡ none
unfolding last_index
last_index-Free sep [] h = refl
last_index-Free sep (x ∷ s) h = ground (arith, last_index-Free sep s h.1)

last_index-append :
    (sep : ℕ) (s t : Bytes) → Free sep t → last_index sep (s ++ (sep ∷ t)) ≡ some (length s)
unfolding last_index
last_index-append sep [] t h = ground (arith, last_index-Free sep t h)
last_index-append sep (x ∷ s) t h = ground (arith, last_index-append sep s t h)

abbrev pub version_marker : Bytes
version_marker = b'+' ∷ machine_file_alg_v2_marker

-- What follows the first `+`: a suffix, which may itself have one, and the version.
split_marker-eq-ok :
    (prefix rest p s : Bytes)
    → split_marker prefix rest ≡ ok (p, s)
    → (prefix ≡ p) × (rest ≡ s ++ version_marker) × (p ≢ []) × (s ≢ [])
unfolding last_index
split_marker-eq-ok prefix rest p s e =
    let (sep, found, e₁) = bind-eq-ok (or_fail (last_index b'+' rest) unsupported) _ (p, s) e in
    let (marked, e₂) = guard-eq-ok (not (drop (suc sep) rest == codes "v2")) _ _ (p, s) e₁ in
    let (filled, e₃) = guard-eq-ok (prefix == [] || take sep rest == []) _ _ (p, s) e₂ in
    let version : drop (suc sep) rest ≡ codes "v2" =
      (==_iff (drop (suc sep) rest) (codes "v2")).0 (ground arith) in
    let p_same : prefix ≡ p = cc in
    let s_same : take sep rest ≡ s = cc in
    (
      p_same,
      last_index-split b'+' rest sep (or_fail-eq-ok (last_index b'+' rest) _ sep found)
          ∙ ap (λ x. take sep rest ++ (b'+' ∷ x)) version
          ∙ ap (λ x. x ++ version_marker) s_same,
      λ q. ground (arith, (==_iff prefix []).1 (p_same ∙ q)),
      λ q. ground (arith, (==_iff (take sep rest) []).1 (s_same ∙ q)),
    )

v2-Free : Free b'+' (codes "v2")
v2-Free = ground arith

drop-marker : (s : Bytes) → drop (suc (length s)) (s ++ version_marker) ≡ codes "v2"
drop-marker [] = refl
drop-marker (x ∷ s) = drop-marker s

split_marker-of_parts :
    (p s : Bytes) → p ≢ [] → s ≢ [] → split_marker p (s ++ version_marker) ≡ ok (p, s)
unfolding ◌==◌
split_marker-of_parts p s filled named =
    bind-of_ok (or_fail (last_index b'+' (s ++ version_marker)) unsupported) _ (length s)
      (ap (λ o. or_fail o unsupported) (last_index-append b'+' s (codes "v2") (v2-Free)))
    ∙ guard-of_false (not (drop (suc (length s)) (s ++ version_marker) == codes "v2")) _ _
        (ap (λ v. not (v == codes "v2")) (drop-marker s))
    ∙ guard-of_false (p == [] || take (length s) (s ++ version_marker) == []) _ _
        (rw (take-append_length s version_marker) (ground (arith, ==_iff p [], ==_iff s [])))
    ∙ ap (λ x. ok (p, x)) (take-append_length s version_marker)

-- The parts of an algorithm, where it is one: no `+` stands in the encoding.
abbrev pub Compound : Bytes → Bytes × Bytes → Type 0
Compound alg (p, s) = (alg ≡ p ++ (b'+' ∷ s ++ version_marker)) × Free b'+' p × (p ≢ []) × (s ≢ [])

parse_machine_file_alg-of_cut :
    (alg q r : Bytes) → cut b'+' alg ≡ some (q, r) → parse_machine_file_alg alg ≡ split_marker q r
unfolding parse_machine_file_alg
parse_machine_file_alg-of_cut alg q r found = rw (found, parse_machine_file_alg) refl

parse_machine_file_alg-of_uncut :
    (alg : Bytes) → cut b'+' alg ≡ none → parse_machine_file_alg alg ≡ err unsupported
unfolding parse_machine_file_alg
parse_machine_file_alg-of_uncut alg n = rw (n, parse_machine_file_alg) refl

parse_machine_file_alg-Compound :
    (alg p s : Bytes) → parse_machine_file_alg alg ≡ ok (p, s) → Compound alg (p, s)
parse_machine_file_alg-Compound alg p s e = elim (Option-cases (cut b'+' alg)) [
  | inl n ↦ let clash = sym (parse_machine_file_alg-of_uncut alg n) ∙ e in absurd (cc)
  | inr ((q, r), found) ↦
      let (whole, free) = cut-eq-some b'+' alg q r found in
      let (same, rest, filled, named) =
        split_marker-eq-ok q r p s (sym (parse_machine_file_alg-of_cut alg q r found) ∙ e) in
      (
        whole ∙ ap (λ x. x ++ (b'+' ∷ r)) same ∙ ap (λ x. p ++ (b'+' ∷ x)) rest,
        subst (Free b'+') same free,
        filled,
        named,
      )
]

-- parseMachineFileAlg returns an encoding and a suffix if and only if the algorithm is the encoding,
-- which has no plus sign, the suffix and `v2`, with plus signs between them, and neither is empty.
pub parse_machine_file_alg_iff :
    (alg p s : Bytes) → (parse_machine_file_alg alg ≡ ok (p, s)) ↔ Compound alg (p, s)
parse_machine_file_alg_iff alg p s = (
  parse_machine_file_alg-Compound alg p s,
  λ (whole, free, filled, named).
      parse_machine_file_alg-of_cut alg p (s ++ version_marker)
        (ap (cut b'+') whole ∙ cut-append b'+' p (s ++ version_marker) free)
      ∙ split_marker-of_parts p s filled named,
)
