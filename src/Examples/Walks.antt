-- ===== src/Examples/Walks.antt =====
-- Walks over the machines of a small server.
use tamga_go.Base.{wrap64, List, ap, sym, ◌∙◌, subst, ◌≤ℤ◌, ℕ, pos, ◌≡◌, refl, some, [], ◌∷◌, arith}
use tamga_go.Machine.Read.Sticking.{Sticks, asked, walk_diverges}
use tamga_go.Http.{History}
use tamga_go.Machine.Read.{
  MachinePage, ListMachinesOptions, list_machines, first_match, search_options, walk,
  find_machine_by_fingerprint,
}
use tamga_go.Text.{codes, ◌==◌}
use tamga_go.Errors.{ok, err, out_of_fuel}
use tamga_go.Client.Laws.Rounds.{Ends}
use tamga_go.Machine.Read.Search.{Echoes, walk-Found, find_machine_by_fingerprint-Ends}
use tamga_go.Resource.{Machine, Wire}
use tamga_go.Examples.{page_of, steady, wire_of, a_client, machine_with}

-- One page, with the machine on it; and a page that says it is the first of two, each time.
abbrev found_on_page : Wire
found_on_page = wire_of [] 1 (machine_with (codes "fp") ∷ [])

abbrev stuck_on_page : Wire
stuck_on_page = wire_of [] 2 (machine_with (codes "other") ∷ [])

abbrev options : ListMachinesOptions
options = search_options steady found_on_page a_client (codes "lic") (codes "fp")

finds :
    (walk steady found_on_page a_client 1 options (codes "fp") []).1
    ≡ ok (some (machine_with (codes "fp")))
unfolding walk ◌==◌
finds = refl

walk-Found_example : (machine_with (codes "fp")).attributes.fingerprint ≡ codes "fp"
walk-Found_example =
    walk-Found steady found_on_page a_client 1 options (codes "fp") [] (machine_with (codes "fp"))
      finds

lists :
    (pages : ℕ) (machines : List Machine) (opts : ListMachinesOptions) (h : History)
    → (list_machines steady (wire_of [] pages machines) a_client opts h).1
      ≡ ok (page_of pages machines)
unfolding list_machines ◌==◌
lists pages machines opts h = refl

found_on_page-Echoes : Echoes steady found_on_page a_client 1
found_on_page-Echoes n opts h p low high at listed =
    let same = sym (lists 1 (machine_with (codes "fp") ∷ []) opts h) ∙ listed in
    let here : page_of 1 (machine_with (codes "fp") ∷ []) ≡ p = cc in
    subst (λ (q : MachinePage). (q.page.number ≡ pos n) × (q.page.total_pages ≤ℤ pos 1)) here
      (ap pos (omega arith), omega arith)

find_machine_by_fingerprint-Ends_example :
    Ends
      (find_machine_by_fingerprint steady found_on_page a_client 2 (codes "lic") (codes "fp") []).1
find_machine_by_fingerprint-Ends_example =
    find_machine_by_fingerprint-Ends steady found_on_page a_client 1 (codes "lic") (codes "fp") []
      found_on_page-Echoes (omega arith) (omega arith)

stuck_on_page-Sticks : Sticks steady stuck_on_page a_client (codes "fp") 1 2
unfolding ◌==◌ first_match wrap64
stuck_on_page-Sticks opts h = (
  page_of 2 (machine_with (codes "other") ∷ []),
  lists 2 (machine_with (codes "other") ∷ []) opts h,
  refl,
  refl,
  λ e. cc,
  refl,
  omega arith,
)

walk_diverges_example : walk steady stuck_on_page a_client 9 options (codes "fp") [] ≡ (
  asked steady stuck_on_page a_client 8
      (record options { page = pos 2 })
      (list_machines steady stuck_on_page a_client options []).0,
  err out_of_fuel,
)
walk_diverges_example =
    walk_diverges steady stuck_on_page a_client 8 1 2 options (codes "fp") [] stuck_on_page-Sticks
      (omega arith) (omega arith)
