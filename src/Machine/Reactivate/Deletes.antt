-- ===== src/Machine/Reactivate/Deletes.antt =====
-- The requests of a recovery: adopting a machine sends no DELETE.
use tamga_go.Base.{
  ℕ, zero, suc, ℤ, pos, ◌+ℤ◌, wrap64, ◌++◌, ◌≡◌, ◌≢◌, ◌≤◌, ◌∙◌, refl, Option, none, some, [], arith,
  Bool-cases, Option-cases, inl, inr,
}
use tamga_go.Text.{Bytes, codes, ◌==◌}
use tamga_go.Errors.{Result, ok, err, GoError, err_not_found, err_fingerprint_taken}
use tamga_go.Errors.Matching.{is_api}
use tamga_go.Http.{Env, History, get, delete}
use tamga_go.Http.Monad.{M, bind}
use tamga_go.Client.{Client}
use tamga_go.Client.Decode.{decode_json_api}
use tamga_go.Client.Laws.Sending.{KeepsMethod, decode_json_api-count}
use tamga_go.Machine.{
  CreateMachineOptions, Activation, activate_machine, scoped, machine_path, validate_scoped,
}
use tamga_go.Machine.Laws.Rollback.{deletes, validate_by_id-deletes, activate_machine-RollsBack}
use tamga_go.Machine.Read.{
  ListMachinesOptions, MachinePage, first_match, ends_walk, list_query, get_machine, list_machines,
  visit, walk, search_options, find_machine_by_fingerprint,
}
use tamga_go.Machine.Reactivate.{
  search, take_named, conflict_id, resolve_taken_fingerprint, adopt, recover, after_activation,
  activate_machine_idempotent,
}
use tamga_go.Resource.{Machine, License, ValidationMeta, Scope, Wire}

-- From `h`, nothing is deleted.
abbrev Keeps {ℓ} : {A : Type ℓ} → History → History × A → Type 0
Keeps h r = deletes r.0 ≡ deletes h

bind-Keeps :
    {A B : Type 0} (h : History) (r : History × Result A) (f : A → M B)
    → Keeps h r
    → ((a : A) (h' : History) → Keeps h' (f a h'))
    → Keeps h (bind r f)
bind-Keeps h (h', ok a) f k go = go a h' ∙ k
bind-Keeps h (h', err e) f k go = k

get-ne-delete : ◌≢◌ {A = Bytes} get delete
get-ne-delete = λ e. cc

module _ (env : Env) (wire : Wire) (c : Client) (fuel : ℕ) (k : KeepsMethod env c) where
  get_machine-Keeps : (id : Bytes) (h : History) → Keeps h (get_machine env wire c id h)
  unfolding get_machine
  get_machine-Keeps id h =
      decode_json_api-count env c get (machine_path env wire c id []) none k wire.machine delete h
        get-ne-delete

  list_machines-Keeps :
      (opts : ListMachinesOptions) (h : History) → Keeps h (list_machines env wire c opts h)
  unfolding list_machines
  list_machines-Keeps opts h =
      let path = codes "/machines?" ++ env.encode_query (list_query opts) in
      bind-Keeps h (decode_json_api env wire.machines c get path none h) _
        (decode_json_api-count env c get path none k wire.machines delete h get-ne-delete)
        (λ a h'. refl)

  visit-Keeps :
      (fp : Bytes) (next : ℤ → M (Option Machine)) (p : MachinePage) (h : History)
      → ((n : ℤ) (h' : History) → Keeps h' (next n h'))
      → Keeps h (visit env wire c fp next p h)
  unfolding visit
  visit-Keeps fp next p h go = elim (Option-cases (first_match fp p.items)) [
    | inl n ↦ elim (Bool-cases (ends_walk p)) [
      | inl e ↦ rw (n, e, visit) refl
      | inr e ↦ rw (n, e, visit) (go (wrap64 (p.page.number +ℤ pos 1)) h)
    ]
    | inr (x, e) ↦ rw (e, visit) refl
  ]

  walk-Keeps :
      (pages : ℕ) (opts : ListMachinesOptions) (fp : Bytes) (h : History)
      → Keeps h (walk env wire c pages opts fp h)
  unfolding walk
  walk-Keeps zero opts fp h = refl
  walk-Keeps (suc pages) opts fp h =
      let next = λ (n : ℤ). walk env wire c pages (record opts { page = n }) fp in
      bind-Keeps h (list_machines env wire c opts h) (visit env wire c fp next)
        (list_machines-Keeps opts h)
        (λ p h'.
          visit-Keeps fp next p h' (λ n h''. walk-Keeps pages (record opts { page = n }) fp h''))

  search-Keeps :
      (opts : CreateMachineOptions) (h : History) → Keeps h (search env wire c fuel opts h)
  unfolding find_machine_by_fingerprint
  search-Keeps opts h = elim (Bool-cases (opts.fingerprint == [])) [
    | inl e ↦ rw (e, find_machine_by_fingerprint) refl
    | inr n ↦
        rw (n, find_machine_by_fingerprint)
          (walk-Keeps fuel (search_options env wire c opts.license_id opts.fingerprint)
            opts.fingerprint h)
  ]

  take_named-Keeps :
      (opts : CreateMachineOptions) (r : History × Result Machine)
      → Keeps r.0 (take_named env wire c fuel opts r)
  unfolding take_named
  take_named-Keeps opts (h, ok m) =
      elim (Bool-cases (m.attributes.fingerprint == opts.fingerprint)) [
        | inl e ↦ rw e refl
        | inr n ↦ rw n (search-Keeps opts h)
      ]
  take_named-Keeps opts (h, err e) = elim (Bool-cases (is_api err_not_found e)) [
    | inl t ↦ rw t (search-Keeps opts h)
    | inr f ↦ rw f refl
  ]

  resolve-Keeps :
      (conflict : GoError) (opts : CreateMachineOptions) (h : History)
      → Keeps h (resolve_taken_fingerprint env wire c fuel conflict opts h)
  unfolding resolve_taken_fingerprint
  resolve-Keeps conflict opts h = elim (Option-cases (conflict_id env wire c fuel conflict)) [
    | inl n ↦ rw (n, resolve_taken_fingerprint) (search-Keeps opts h)
    | inr (id, q) ↦
        rw (q, resolve_taken_fingerprint)
          (take_named-Keeps opts (get_machine env wire c id h) ∙ get_machine-Keeps id h)
  ]

  adopt-Keeps :
      (m : Machine) (r : History × Result (License × ValidationMeta))
      → Keeps r.0 (adopt env wire c fuel m r)
  unfolding adopt
  adopt-Keeps m (h, ok (l, v)) = refl
  adopt-Keeps m (h, err e) = refl

  recover-Keeps :
      (conflict : GoError) (opts : CreateMachineOptions) (scope : Option Scope)
      (r : History × Result (Option Machine))
      → Keeps r.0 (recover env wire c fuel conflict opts scope r)
  unfolding recover
  recover-Keeps conflict opts scope (h, err e) = refl
  recover-Keeps conflict opts scope (h, ok none) = refl
  recover-Keeps conflict opts scope (h, ok (some x)) =
      adopt-Keeps x (validate_scoped env wire c opts.license_id scope h)
      ∙ validate_by_id-deletes env wire c k opts.license_id (scoped scope) h

  after_activation-Keeps :
      (opts : CreateMachineOptions) (scope : Option Scope) (h : History) (a : Activation)
      (e : Option GoError)
      → Keeps h (after_activation env wire c fuel opts scope h a e)
  unfolding after_activation
  after_activation-Keeps opts scope h a none = refl
  after_activation-Keeps opts scope h a (some e) =
      elim (Bool-cases (is_api err_fingerprint_taken e)) [
        | inl t ↦ rw t (
            recover-Keeps e opts scope (resolve_taken_fingerprint env wire c fuel e opts h)
            ∙ resolve-Keeps e opts h)
        | inr f ↦ rw f refl
      ]

  -- With a transport that keeps a request's method: the idempotent activation deletes what its
  -- activation deletes, at most one machine, and the recovery from a taken fingerprint deletes none.
  pub activate_machine_idempotent-deletes :
      (opts : CreateMachineOptions) (scope : Option Scope) (h : History)
      → (deletes (activate_machine_idempotent env wire c fuel opts scope h).0
          ≡ deletes (activate_machine env wire c opts scope h).0)
        × (deletes (activate_machine_idempotent env wire c fuel opts scope h).0 ≤ suc (deletes h))
  unfolding activate_machine_idempotent
  activate_machine_idempotent-deletes opts scope h =
      let r = activate_machine env wire c opts scope h in
      let same = after_activation-Keeps opts scope r.0 r.1 r.1.error in
      let most = (activate_machine-RollsBack env wire c k opts scope h).0 in (same, omega arith)
