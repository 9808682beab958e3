-- ===== src/Machine/Read/Search.antt =====
-- The walk of FindMachineByFingerprint: what it finds, and when it ends.
use tamga_go.Base.{
  ◌++◌, ℕ, zero, suc, ℤ, pos, ◌+◌, ◌≤◌, ◌<◌, ◌≡◌, ◌≤ℤ◌, ◌+ℤ◌, refl, Option, none, some, List, [],
  ◌∷◌, arith, Bool-cases, Option-cases, inl, inr, wrap64, wrap64-InInt64, half_range,
}
use tamga_go.Text.{codes, Bytes, ◌==◌}
use tamga_go.Http.{get, Env, History}
use tamga_go.Client.Decode.{decode_json_api}
use tamga_go.Client.Laws.Sending.{bind-Ends, decode_json_api-Ends}
use tamga_go.Machine.Read.{
  list_query, ListMachinesOptions, MachinePage, first_match, ends_walk, list_machines, visit, walk,
  search_options, find_machine_by_fingerprint,
}
use tamga_go.Text.Laws.{==_iff}
use tamga_go.Errors.{Result, ok, err}
use tamga_go.Http.Monad.{M, bind}
use tamga_go.Client.{Client}
use tamga_go.Client.Laws.Rounds.{Ends}
use tamga_go.Resource.{Machine, Wire}

first_match-eq-some :
    (fp : Bytes) (ms : List Machine) (m : Machine)
    → first_match fp ms ≡ some m
    → m.attributes.fingerprint ≡ fp
unfolding first_match
first_match-eq-some fp [] m e = cc
first_match-eq-some fp (x ∷ ms) m e =
    ground (arith, ==_iff x.attributes.fingerprint fp, first_match-eq-some fp ms m)

abbrev pub Found : Bytes → Result (Option Machine) → Type 0
Found fp r = (m : Machine) → r ≡ ok (some m) → m.attributes.fingerprint ≡ fp

module _ (env : Env) (wire : Wire) (c : Client) where
  visit-Found :
      (fp : Bytes) (next : ℤ → M (Option Machine)) (p : MachinePage) (h : History)
      → ((n : ℤ) (h' : History) → Found fp (next n h').1)
      → Found fp (visit env wire c fp next p h).1
  unfolding visit
  visit-Found fp next p h go = elim (Option-cases (first_match fp p.items)) [
    | inl n ↦ elim (Bool-cases (ends_walk p)) [
      | inl e ↦ rw (n, e, visit) (λ m q. cc)
      | inr e ↦ rw (n, e, visit) (go (wrap64 (p.page.number +ℤ pos 1)) h)
    ]
    | inr (x, e) ↦ rw (e, visit) (λ m q. ground (arith, first_match-eq-some fp p.items x e))
  ]

  bind-Found :
      (fp : Bytes) (r : History × Result MachinePage) (f : MachinePage → M (Option Machine))
      → ((p : MachinePage) (h : History) → Found fp (f p h).1)
      → Found fp (bind r f).1
  bind-Found fp (h, ok p) f go = go p h
  bind-Found fp (h, err e) f go = λ m q. cc

  -- Whatever the server lists, the machine that a walk returns has exactly the fingerprint asked for.
  pub walk-Found :
      (fuel : ℕ) (opts : ListMachinesOptions) (fp : Bytes) (h : History)
      → Found fp (walk env wire c fuel opts fp h).1
  unfolding walk
  walk-Found zero opts fp h = λ m q. cc
  walk-Found (suc fuel) opts fp h =
      let next = λ (n : ℤ). walk env wire c fuel (record opts { page = n }) fp in
      bind-Found fp (list_machines env wire c opts h) (visit env wire c fp next) λ p h'.
        visit-Found fp next p h' (λ n h''. walk-Found fuel (record opts { page = n }) fp h'')

  -- A server that answers the requests for its pages, the first to at most the last of `total`, with
  -- the page asked for.
  abbrev pub Echoes : ℕ → Type 0
  Echoes total =
      (n : ℕ) (opts : ListMachinesOptions) (h : History) (p : MachinePage)
      → 1 ≤ n
      → n ≤ total
      → opts.page ≡ pos n
      → (list_machines env wire c opts h).1 ≡ ok p
      → (p.page.number ≡ pos n) × (p.page.total_pages ≤ℤ pos total)

  pub succeeds :
      (n : ℕ) (z : ℤ) → z ≡ pos n → suc n < half_range → wrap64 (z +ℤ pos 1) ≡ pos (suc n)
  succeeds n z e h =
      let one : z +ℤ pos 1 ≡ pos (suc n) = ground arith in
      rw one (wrap64-InInt64 (pos (suc n)) (omega arith))

  bind_page-Ends :
      (r : History × Result MachinePage) (f : MachinePage → M (Option Machine))
      → Ends r.1
      → ((p : MachinePage) (h : History) → r.1 ≡ ok p → Ends (f p h).1)
      → Ends (bind r f).1
  bind_page-Ends (h, ok p) f e go = go p h refl
  bind_page-Ends (h, err e) f n go = λ q. n (cc)

  list_machines-Ends :
      (opts : ListMachinesOptions) (h : History) → Ends (list_machines env wire c opts h).1
  unfolding list_machines
  list_machines-Ends opts h =
      bind-Ends env
        (decode_json_api env wire.machines c get
          (codes "/machines?" ++ env.encode_query (list_query opts)) none h)
        (λ r. ok (record { items = r.0; page = r.1 }))
        (decode_json_api-Ends env wire.machines c get
          (codes "/machines?" ++ env.encode_query (list_query opts)) none h)
        (λ r. λ q. cc)

  visit-Ends :
      (total n : ℕ) (fp : Bytes) (next : ℤ → M (Option Machine)) (p : MachinePage) (h : History)
      → (p.page.number ≡ pos n) × (p.page.total_pages ≤ℤ pos total)
      → total < half_range
      → (n < total → (h' : History) → Ends (next (pos (suc n)) h').1)
      → Ends (visit env wire c fp next p h).1
  unfolding visit ends_walk
  visit-Ends total n fp next p h (number, pages) small go =
      elim (Option-cases (first_match fp p.items)) [
        | inl none_here ↦ elim (Bool-cases (ends_walk p)) [
          | inl e ↦ rw (none_here, e, visit) (λ q. cc)
          | inr e ↦
              rw (none_here, e, visit)
                (let low : n < total = ground arith in
                  rw (succeeds n p.page.number number (omega arith)) (go low h))
        ]
        | inr (x, e) ↦ rw (e, visit) (λ q. cc)
      ]

  -- A server that echoes the page number and has at most `total` pages lets the walk end within
  -- `total + 1` requests for a page.
  walk-Ends :
      (total left n : ℕ) (opts : ListMachinesOptions) (fp : Bytes) (h : History)
      → Echoes total
      → opts.page ≡ pos n
      → 1 ≤ n
      → n ≤ total
      → total ≤ left + n
      → total < half_range
      → Ends (walk env wire c (suc left) opts fp h).1
  unfolding walk
  walk-Ends total zero n opts fp h echoes at low high enough small =
      bind_page-Ends (list_machines env wire c opts h) _ (list_machines-Ends opts h) λ p h' q.
        visit-Ends total n fp (λ m. walk env wire c zero (record opts { page = m }) fp) p h'
          (echoes n opts h p low high at q) small (λ more h''. absurd (omega arith))
  walk-Ends total (suc left) n opts fp h echoes at low high enough small =
      bind_page-Ends (list_machines env wire c opts h) _ (list_machines-Ends opts h) λ p h' q.
        visit-Ends total n fp (λ m. walk env wire c (suc left) (record opts { page = m }) fp) p h'
          (echoes n opts h p low high at q) small
          (λ more h''.
            walk-Ends total left (suc n) (record opts { page = pos (suc n) }) fp h'' echoes refl
              (omega arith) (omega arith) (omega arith) small)

  -- If the server answers a request for one of its pages with that page, and has at least one and at
  -- most `total` of them, the search ends within `total` + 1 pages.
  pub find_machine_by_fingerprint-Ends :
      (total : ℕ) (license_id fp : Bytes) (h : History)
      → Echoes total
      → 1 ≤ total
      → total < half_range
      → Ends (find_machine_by_fingerprint env wire c (suc total) license_id fp h).1
  unfolding find_machine_by_fingerprint
  find_machine_by_fingerprint-Ends total license_id fp h echoes some_page small =
      elim (Bool-cases (fp == [])) [
        | inl e ↦ rw (e, find_machine_by_fingerprint) (λ q. cc)
        | inr e ↦
            rw (e, find_machine_by_fingerprint)
              (walk-Ends total total 1 (search_options env wire c license_id fp) fp h echoes refl
                (omega arith) some_page (omega arith) small)
      ]
