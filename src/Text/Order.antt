-- ===== src/Text/Order.antt =====
-- The bytewise order of Go's strings is total, and what slices.Sort makes of a list by it.
use mathlib.Core.Logic.{∥∥₁_elim}
use mathlib.Core.List.{Perm, Permᴰ}
use mathlib.Core.List.Perm
use native.Mathlib.Decide.{ℕ_discrete}
use tamga_go.Base.{◌≡◌, refl, true, false, List, [], ◌∷◌, ◌∙◌, arith, if◌then◌else◌}
use tamga_go.Text.{Bytes, precedes}

pub precedes_refl : (a : Bytes) → precedes a a ≡ true
unfolding precedes
precedes_refl [] = refl
precedes_refl (x ∷ a) = ground (arith, precedes_refl a)

pub precedes_total : (a b : Bytes) → precedes a b ≡ false → precedes b a ≡ true
unfolding precedes
precedes_total [] b h = cc
precedes_total (x ∷ a) [] h = refl
precedes_total (x ∷ a) (y ∷ b) h = ground (arith, precedes_total a b)

pub precedes_antisymm : (a b : Bytes) → precedes a b ≡ true → precedes b a ≡ true → a ≡ b
unfolding precedes
precedes_antisymm [] [] h k = refl
precedes_antisymm [] (y ∷ b) h k = cc
precedes_antisymm (x ∷ a) [] h k = cc
precedes_antisymm (x ∷ a) (y ∷ b) h k = ground (arith, precedes_antisymm a b)

pub precedes_trans :
    (a b c : Bytes) → precedes a b ≡ true → precedes b c ≡ true → precedes a c ≡ true
unfolding precedes
precedes_trans [] b c h k = refl
precedes_trans (x ∷ a) [] c h k = cc
precedes_trans (x ∷ a) (y ∷ b) [] h k = cc
precedes_trans (x ∷ a) (y ∷ b) (z ∷ c) h k = ground (arith, precedes_trans a b c)

unfoldable pub insert : Bytes → List Bytes → List Bytes
insert a [] = a ∷ []
insert a (b ∷ l) = if precedes a b then a ∷ b ∷ l else b ∷ insert a l

-- slices.Sort: the order is total and antisymmetric, so that every algorithm has this result.
unfoldable pub sort : List Bytes → List Bytes
unfolding insert
sort [] = []
sort (a ∷ l) = insert a (sort l)

insert_comm : (a b : Bytes) (l : List Bytes) → insert a (insert b l) ≡ insert b (insert a l)
unfolding insert
insert_comm a b [] = ground (arith, precedes_total a b, precedes_total b a, precedes_antisymm a b)
insert_comm a b (c ∷ l) = ground (
  arith,
  insert_comm a b l,
  precedes_total a b,
  precedes_total b a,
  precedes_antisymm a b,
  precedes_trans a b c,
  precedes_trans b a c,
)

Texts-set : IsSet (List Bytes)
Texts-set = hlevel ℕ_discrete

sort-permᴰ : {l m : List Bytes} → Permᴰ l m → sort l ≡ sort m
unfolding sort
sort-permᴰ Permᴰ.nil = refl
sort-permᴰ (Permᴰ.cons e p) = cc (sort-permᴰ p)
sort-permᴰ (Permᴰ.swap {a} {b} {l} e f) = cc (insert_comm a b (sort l))
sort-permᴰ (Permᴰ.trans p q) = sort-permᴰ p ∙ sort-permᴰ q

-- The result depends on the texts and not on the order in which they come.
pub sort-perm : {l m : List Bytes} → Perm l m → sort l ≡ sort m
sort-perm p = ∥∥₁_elim p (Texts-set _ _) sort-permᴰ

insert-Perm : (a : Bytes) (l : List Bytes) → Perm (insert a l) (a ∷ l)
unfolding insert
insert-Perm a [] = Perm.rfl
insert-Perm a (b ∷ l) =
    ground (
      arith,
      Perm.rfl {l = a ∷ b ∷ l},
      Perm.trans (Perm.cons b (insert-Perm a l)) (Perm.swap a b l),
    )

pub sort-Perm : (l : List Bytes) → Perm (sort l) l
unfolding sort
sort-Perm [] = Perm.rfl
sort-Perm (a ∷ l) = Perm.trans (insert-Perm a (sort l)) (Perm.cons a (sort-Perm l))
