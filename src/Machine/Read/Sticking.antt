-- ===== src/Machine/Read/Sticking.antt =====
-- The walk of FindMachineByFingerprint against a server that answers with one page for ever.
use tamga_go.Base.{
  ap, ◌∙◌, ℕ, zero, suc, ℤ, pos, ◌<◌, ◌≡◌, ◌≤ℤ◌, refl, false, Option, none, List, [], ◌∷◌, arith,
  wrap64, half_range, ◌≢◌, ◌*ℤ◌, leb_ℤ, ltb_ℤ,
}
use tamga_go.Text.{Bytes}
use tamga_go.Http.{Env, History}
use tamga_go.Machine.Read.{
  is_empty, max_list_machines_offset, ListMachinesOptions, MachinePage, first_match, ends_walk,
  list_machines, visit, walk,
}
use tamga_go.Errors.{Result, ok, err, out_of_fuel}
use tamga_go.Http.Monad.{M, bind}
use tamga_go.Client.{Client}
use tamga_go.Resource.{Machine, Wire}
use tamga_go.Machine.Read.Search.{succeeds}

module _ (env : Env) (wire : Wire) (c : Client) where
  bind_page-ok :
      (r : History × Result MachinePage) (f : MachinePage → M (Option Machine)) (p : MachinePage)
      → r.1 ≡ ok p
      → bind r f ≡ f p r.0
  bind_page-ok (h, ok q) f p e = cc
  bind_page-ok (h, err x) f p e = cc

  -- The server answers every request for a page with a page of one number, whichever is asked for:
  -- of that many of `total` pages, with machines on it of which none has the fingerprint, and below
  -- the ceiling of the offset.
  abbrev pub Sticks : Bytes → ℕ → ℕ → Type 0
  Sticks fp number total =
      (opts : ListMachinesOptions) (h : History)
      → (p : MachinePage) × ((list_machines env wire c opts h).1 ≡ ok p)
        × (p.page.number ≡ pos number)
        × (p.page.total_pages ≡ pos total)
        × (p.items ≢ [])
        × (first_match fp p.items ≡ none)
        × (wrap64 (p.page.number *ℤ p.page.size) ≤ℤ max_list_machines_offset)

  is_empty-of_some : (ms : List Machine) → ms ≢ [] → is_empty ms ≡ false
  is_empty-of_some [] some_there = absurd (some_there refl)
  is_empty-of_some (m ∷ ms) some_there = refl

  goes_on-of_sticking :
      (number total : ℕ) (p : MachinePage)
      → number < total
      → p.page.number ≡ pos number
      → p.page.total_pages ≡ pos total
      → p.items ≢ []
      → wrap64 (p.page.number *ℤ p.page.size) ≤ℤ max_list_machines_offset
      → ends_walk p ≡ false
  unfolding ends_walk
  goes_on-of_sticking number total p below at pages some_there within =
      let more : leb_ℤ p.page.total_pages p.page.number ≡ false = ground arith in
      let low : ltb_ℤ max_list_machines_offset (wrap64 (p.page.number *ℤ p.page.size)) ≡ false =
        ground arith in
      rw (more, is_empty-of_some p.items some_there, low) refl

  -- One request after another for the page.
  unfoldable pub asked : ℕ → ListMachinesOptions → History → History
  asked zero opts h = h
  asked (suc k) opts h = asked k opts (list_machines env wire c opts h).0

  walk_one :
      (fuel number total : ℕ) (opts : ListMachinesOptions) (fp : Bytes) (h : History)
      → Sticks fp number total
      → number < total
      → total < half_range
      → walk env wire c (suc fuel) opts fp h
        ≡ walk env wire c fuel
            (record opts { page = pos (suc number) })
            fp
            (list_machines env wire c opts h).0
  unfolding walk visit
  walk_one fuel number total opts fp h sticks below small =
      let (p, listed, at, pages, some_there, none_here, within) = sticks opts h in
      let next = λ (n : ℤ). walk env wire c fuel (record opts { page = n }) fp in
      let goes_on = goes_on-of_sticking number total p below at pages some_there within in
      bind_page-ok (list_machines env wire c opts h) (visit env wire c fp next) p listed
      ∙ rw (none_here, goes_on, visit)
          (ap
            (λ (n : ℤ).
              walk env wire c fuel (record opts { page = n }) fp
                (list_machines env wire c opts h).0)
            (succeeds env wire c number p.page.number at (omega arith)))

  walk_asks :
      (fuel number total : ℕ) (opts : ListMachinesOptions) (fp : Bytes) (h : History)
      → Sticks fp number total
      → number < total
      → total < half_range
      → walk env wire c fuel (record opts { page = pos (suc number) }) fp h
        ≡ (asked fuel (record opts { page = pos (suc number) }) h, err out_of_fuel)
  unfolding asked walk
  walk_asks zero number total opts fp h sticks below small = refl
  walk_asks (suc fuel) number total opts fp h sticks below small =
      let next = record opts { page = pos (suc number) } in
      walk_one fuel number total next fp h sticks below small
      ∙ walk_asks fuel number total opts fp (list_machines env wire c next h).0 sticks below small

  -- Against a server that answers every request for a page with the same page number, below its page
  -- count, with machines of which none has the fingerprint, and below the ceiling of the offset, the
  -- walk never ends: however many pages it is given, after the first it asks for the page after that
  -- number, again and again, and runs out of what it was given.
  pub walk_diverges :
      (fuel number total : ℕ) (opts : ListMachinesOptions) (fp : Bytes) (h : History)
      → Sticks fp number total
      → number < total
      → total < half_range
      → walk env wire c (suc fuel) opts fp h ≡ (
        asked fuel (record opts { page = pos (suc number) }) (list_machines env wire c opts h).0,
        err out_of_fuel,
      )
  walk_diverges fuel number total opts fp h sticks below small =
      walk_one fuel number total opts fp h sticks below small
      ∙ walk_asks fuel number total opts fp (list_machines env wire c opts h).0 sticks below small
