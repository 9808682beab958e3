-- ===== src/Machine/Read.antt =====
-- machine_read.go: reading, listing and updating machines, the search by fingerprint, and
-- idempotent activation.
pub mod Search
pub mod Sticking
use tamga_go.Base.{
  ℕ, zero, suc, ℤ, pos, Bool, true, false, ◌&&◌, ◌||◌, Option, none, some, List, [], ◌∷◌, ◌++◌,
  ltb_ℤ, leb_ℤ, ◌+ℤ◌, ◌*ℤ◌, wrap64, if◌then◌else◌,
}
use tamga_go.Text.{Bytes, codes, ◌==◌, join}
use tamga_go.Text.Decimal.{itoa}
use tamga_go.Json.{Json, Object, str, int, object}
use tamga_go.Errors.{Result, ok, err, GoError, plain, out_of_fuel}
use tamga_go.Http.{Env, Values, set_value, get, patch}
use tamga_go.Http.Monad.{M, ◌>>=◌, pure, fail}
use tamga_go.Client.{Client}
use tamga_go.Client.Decode.{decode_json_api}
use tamga_go.Resource.{Machine, PageMeta, Wire}
use tamga_go.Machine.{machine_path}

pub record ListMachinesOptions : Type 0 where
  pub query : Bytes
  pub sort : Bytes
  pub license_ids : List Bytes
  pub owner_ids : List Bytes
  pub group_ids : List Bytes
  pub platforms : List Bytes
  pub page : ℤ
  pub page_size : ℤ

-- effectivePageLimit
unfoldable pub effective_page_limit : ℤ → ℤ
effective_page_limit limit = if ltb_ℤ (pos 0) limit then limit else pos 100

abbrev pub set_text : Bytes → Bytes → Values → Values
set_text key [] q = q
set_text key (c ∷ s) q = set_value key (c ∷ s) q

abbrev set_list : Bytes → List Bytes → Values → Values
set_list key [] q = q
set_list key (v ∷ vs) q = set_value key (join b',' (v ∷ vs)) q

-- ListMachinesOptions.query. The source sets the filters in the order of a map's iteration, which
-- url.Values.Encode sorts away; here it is that of the text.
unfoldable pub list_query : ListMachinesOptions → Values
unfolding set_value join itoa effective_page_limit
list_query o =
    let q1 = set_value (codes "page[size]") (itoa (effective_page_limit o.page_size)) [] in
    let q2 =
      if ltb_ℤ (pos 0) o.page then set_value (codes "page[number]") (itoa o.page) q1 else q1 in
    let q3 = set_text (codes "sort") o.sort q2 in
    let q4 = set_text (codes "filter[q]") o.query q3 in
    let q5 = set_list (codes "filter[license]") o.license_ids q4 in
    let q6 = set_list (codes "filter[owner]") o.owner_ids q5 in
    let q7 = set_list (codes "filter[group]") o.group_ids q6 in
    set_list (codes "filter[platform]") o.platforms q7

pub record UpdateMachineOptions : Type 0 where
  pub name : Option Bytes
  pub ip : Option Bytes
  pub hostname : Option Bytes
  pub platform : Option Bytes
  pub cores : Option ℤ
  pub memory : Option ℤ
  pub disk : Option ℤ
  pub metadata : Option Object

abbrev given {ℓ} : {A : Type ℓ} → Bytes → (A → Json) → Option A → Object
given key encode none = []
given key encode (some a) = (key, encode a) ∷ []

-- UpdateMachineOptions.attributes: only what is set.
unfoldable pub update_attributes : UpdateMachineOptions → Object
update_attributes o =
    given (codes "name") str o.name
    ++ (given (codes "ip") str o.ip
        ++ (given (codes "hostname") str o.hostname
            ++ (given (codes "platform") str o.platform
                ++ (given (codes "cores") int o.cores
                    ++ (given (codes "memory") int o.memory
                        ++ (given (codes "disk") int o.disk
                            ++ given (codes "metadata") object o.metadata))))))

pub record MachinePage : Type 0 where
  pub items : List Machine
  pub page : PageMeta

abbrev pub max_list_machines_offset : ℤ
max_list_machines_offset = pos 100000

-- The loop over a page's items.
unfoldable pub first_match : Bytes → List Machine → Option Machine
first_match fingerprint [] = none
first_match fingerprint (m ∷ ms) =
    if m.attributes.fingerprint == fingerprint then some m else first_match fingerprint ms

abbrev pub is_empty {ℓ} : {A : Type ℓ} → List A → Bool
is_empty [] = true
is_empty (a ∷ l) = false

-- The two tests that end the walk after a page without a match.
unfoldable pub ends_walk : MachinePage → Bool
unfolding wrap64
ends_walk p =
    leb_ℤ p.page.total_pages p.page.number
    || is_empty p.items
    || ltb_ℤ max_list_machines_offset (wrap64 (p.page.number *ℤ p.page.size))

module _ (env : Env) (wire : Wire) (c : Client) where
  open env use {encode_query}

  -- GetMachine
  unfoldable pub get_machine : Bytes → M Machine
  unfolding decode_json_api
  get_machine machine_id =
      decode_json_api env wire.machine c get (machine_path env wire c machine_id []) none

  -- ListMachines
  unfoldable pub list_machines : ListMachinesOptions → M MachinePage
  unfolding decode_json_api list_query
  list_machines opts = do
    (items, page) ←
        decode_json_api env wire.machines c get
          (codes "/machines?" ++ encode_query (list_query opts)) none
    pure (record { items = items; page = page })

  -- UpdateMachine
  unfoldable pub update_machine : Bytes → UpdateMachineOptions → M Machine
  unfolding decode_json_api update_attributes
  update_machine machine_id opts =
      decode_json_api env wire.machine c patch (machine_path env wire c machine_id []) (
        some (
          object (
            (
              codes "data",
              object (
                  (codes "type", str (codes "machines"))
                  ∷ (codes "attributes", object (update_attributes opts))
                  ∷ []),
            )
            ∷ [])))

  -- One page of the walk; `next` goes on at the page after it.
  unfoldable pub visit : Bytes → (ℤ → M (Option Machine)) → MachinePage → M (Option Machine)
  unfolding first_match ends_walk
  visit fingerprint next p = elim (first_match fingerprint p.items) [
    | some m ↦ pure (some m)
    | none ↦ if ends_walk p then pure none else next (wrap64 (p.page.number +ℤ pos 1))
  ]

  -- The loop of FindMachineByFingerprint, which has no bound of its own.
  unfoldable pub walk : ℕ → ListMachinesOptions → Bytes → M (Option Machine)
  unfolding visit list_machines
  walk zero opts fingerprint = fail out_of_fuel
  walk (suc fuel) opts fingerprint = do
    p ← list_machines opts
    visit fingerprint (λ n. walk fuel (record opts { page = n }) fingerprint) p

  abbrev pub search_options : Bytes → Bytes → ListMachinesOptions
  search_options license_id fingerprint = record {
    query = fingerprint;
    sort = [];
    license_ids = license_id ∷ [];
    owner_ids = [];
    group_ids = [];
    platforms = [];
    page = pos 1;
    page_size = pos 0;
  }

  -- FindMachineByFingerprint, with a bound on the pages it may ask for.
  unfoldable pub find_machine_by_fingerprint : ℕ → Bytes → Bytes → M (Option Machine)
  unfolding walk
  find_machine_by_fingerprint fuel license_id fingerprint =
      if fingerprint == []
      then fail (plain (codes "requires a non-empty fingerprint"))
      else walk fuel (search_options license_id fingerprint) fingerprint
