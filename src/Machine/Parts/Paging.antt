-- ===== src/Machine/Parts/Paging.antt =====
-- The pages of components and processes: their cursor, and that reading it is in range.
use mathlib.Core.Bool.{true≢false}
use tamga_go.Base.{
  ap, sym, ◌∙◌, ℕ, zero, suc, ℤ, pos, negsuc, ◌≡◌, ◌≢◌, refl, true, Option, none, some, List, [],
  ◌∷◌, arith, length, last?, Bool-cases, Option-cases, inl, inr,
}
use tamga_go.Text.{Bytes}
use tamga_go.Errors.{Result, ok, err}
use tamga_go.Http.{Env, History}
use tamga_go.Http.Monad.{bind, pure}
use tamga_go.Client.{Client}
use tamga_go.Resource.{Wire}
use tamga_go.Machine.Read.{effective_page_limit}
use tamga_go.Machine.Parts.{
  ListOptions, Page, is_length, paged, list_components, list_machine_processes,
}

effective_page_limit-ne-zero : (limit : ℤ) → effective_page_limit limit ≢ pos 0
unfolding effective_page_limit
effective_page_limit-ne-zero (pos zero) = λ e. cc
effective_page_limit-ne-zero (pos (suc n)) = λ e. ground arith
effective_page_limit-ne-zero (negsuc n) = λ e. ground arith

last?-of_cons : {A : Type 0} (x : A) (xs : List A) → last? (x ∷ xs) ≢ none
last?-of_cons x [] = λ e. cc
last?-of_cons x (y ∷ xs) = last?-of_cons y xs

is_length-eq-true : (n : ℕ) (limit : ℤ) → is_length n limit ≡ true → limit ≡ pos n
is_length-eq-true n (pos m) e = ap pos (ground arith)
is_length-eq-true n (negsuc m) e = cc

last?-eq-none : {A : Type 0} (items : List A) → last? items ≡ none → length items ≡ 0
last?-eq-none [] e = refl
last?-eq-none (x ∷ xs) e = absurd (last?-of_cons x xs e)

is_length-of_length : (n : ℕ) (limit : ℤ) → limit ≡ pos n → is_length n limit ≡ true
is_length-of_length n (pos m) e = ground arith
is_length-of_length n (negsuc m) e = cc

-- A page has a cursor if and only if it has as many items as were asked for: the id of the last.
abbrev pub IsPage : {A : Type 0} → (A → Bytes) → ℤ → Page A → Type 0
IsPage id limit p =
    (p.next_cursor ≡ none → limit ≢ pos (length p.items))
    × ((cursor : Bytes)
        → p.next_cursor ≡ some cursor
        → (limit ≡ pos (length p.items)) × ((x : _) × (last? p.items ≡ some x) × (id x ≡ cursor)))

paged-IsPage :
    {A : Type 0} (id : A → Bytes) (limit : ℤ) (items : List A)
    → limit ≢ pos 0
    → (p : Page A) × (paged id limit items ≡ some p) × IsPage id limit p
unfolding paged
paged-IsPage id limit items some_limit = elim (Bool-cases (is_length (length items) limit)) [
  | inr short ↦ (
    record { next_cursor = none; items = items },
    rw short refl,
    (λ n e. true≢false (sym (is_length-of_length (length items) limit e) ∙ short), λ cursor e. cc),
  )
  | inl full ↦
      let same = is_length-eq-true (length items) limit full in
      elim (Option-cases (last? items)) [
        | inl nothing ↦ absurd (some_limit (same ∙ ap pos (last?-eq-none items nothing)))
        | inr (x, last) ↦ (
          record { next_cursor = some (id x); items = items },
          rw (full, last) refl,
          ((λ n. cc), λ cursor e. (same, (x, last, cc))),
        )
      ]
]

-- A listing that succeeds has a page: reading the last item is in range.
abbrev pub Lists : {A : Type 0} → (A → Bytes) → ListOptions → Result (Option (Page A)) → Type 0
Lists id opts r =
    (o : _) → r ≡ ok o → (p : _) × (o ≡ some p) × IsPage id (effective_page_limit opts.limit) p

bind-Lists :
    {A : Type 0} (id : A → Bytes) (opts : ListOptions) (r : History × Result (List A))
    → Lists id opts (bind r (λ items. pure (paged id (effective_page_limit opts.limit) items))).1
bind-Lists id opts (h, err e) o q = absurd (cc)
bind-Lists id opts (h, ok items) o q =
    let (p, made, is_page) =
      paged-IsPage id (effective_page_limit opts.limit) items
        (effective_page_limit-ne-zero opts.limit) in
    let same : paged id (effective_page_limit opts.limit) items ≡ o = cc in
    (p, sym same ∙ made, is_page)

module _ (env : Env) (wire : Wire) (c : Client) where
  -- Listing the components or the processes of a machine never reads an item out of range, and its
  -- page has a cursor if and only if it is full: the id of its last item.
  pub list_components-Lists :
      (machine_id : Bytes) (opts : ListOptions) (h : History)
      → Lists (λ x. x.id) opts (list_components env wire c machine_id opts h).1
        × Lists (λ x. x.id) opts (list_machine_processes env wire c machine_id opts h).1
  unfolding list_components list_machine_processes
  list_components-Lists machine_id opts h =
      (bind-Lists (λ x. x.id) opts _, bind-Lists (λ x. x.id) opts _)
