-- ===== src/Machine/Reactivate/Laws.antt =====
-- ActivateMachineIdempotent: which machine it adopts, and that adopting one deletes none.
use tamga_go.Base.{
  ℕ, ◌≡◌, ap, refl, true, Option, none, some, [], arith, Bool-cases, Option-cases, inl, inr,
}
use tamga_go.Text.{Bytes, ◌==◌}
use tamga_go.Text.Laws.{==_iff}
use tamga_go.Errors.{Result, ok, err, GoError, err_not_found, err_fingerprint_taken}
use tamga_go.Errors.Matching.{is_api}
use tamga_go.Http.{Env, History}
use tamga_go.Client.{Client}
use tamga_go.Machine.{CreateMachineOptions, Activation, activate_machine, validate_scoped}
use tamga_go.Machine.Read.{get_machine, search_options, find_machine_by_fingerprint}
use tamga_go.Machine.Read.Search.{Found, walk-Found}
use tamga_go.Machine.Reactivate.{
  search, take_named, conflict_id, resolve_taken_fingerprint, adopt, recover, after_activation,
  activate_machine_idempotent,
}
use tamga_go.Resource.{Machine, License, ValidationMeta, Scope, Wire}

module _ (env : Env) (wire : Wire) (c : Client) (fuel : ℕ) where
  search-Found :
      (opts : CreateMachineOptions) (h : History)
      → Found opts.fingerprint (search env wire c fuel opts h).1
  unfolding find_machine_by_fingerprint
  search-Found opts h = elim (Bool-cases (opts.fingerprint == [])) [
    | inl e ↦ rw (e, find_machine_by_fingerprint) (λ m q. cc)
    | inr n ↦
        rw (n, find_machine_by_fingerprint)
          (walk-Found env wire c fuel (search_options env wire c opts.license_id opts.fingerprint)
            opts.fingerprint h)
  ]

  take_named-Found :
      (opts : CreateMachineOptions) (r : History × Result Machine)
      → Found opts.fingerprint (take_named env wire c fuel opts r).1
  unfolding take_named
  take_named-Found opts (h, ok m) =
      elim (Bool-cases (m.attributes.fingerprint == opts.fingerprint)) [
        | inl e ↦ rw e (λ m' q. ground (arith, ==_iff m.attributes.fingerprint opts.fingerprint))
        | inr n ↦ rw n (search-Found opts h)
      ]
  take_named-Found opts (h, err e) = elim (Bool-cases (is_api err_not_found e)) [
    | inl t ↦ rw t (search-Found opts h)
    | inr f ↦ rw f (λ m q. cc)
  ]

  resolve-Found :
      (conflict : GoError) (opts : CreateMachineOptions) (h : History)
      → Found opts.fingerprint (resolve_taken_fingerprint env wire c fuel conflict opts h).1
  unfolding resolve_taken_fingerprint
  resolve-Found conflict opts h = elim (Option-cases (conflict_id env wire c fuel conflict)) [
    | inl n ↦ rw (n, resolve_taken_fingerprint) (search-Found opts h)
    | inr (id, q) ↦
        rw (q, resolve_taken_fingerprint) (take_named-Found opts (get_machine env wire c id h))
  ]

  adopt-machine :
      (m : Machine) (r : History × Result (License × ValidationMeta))
      → (adopt env wire c fuel m r).1.machine ≡ some m
  unfolding adopt
  adopt-machine m (h, ok (l, v)) = refl
  adopt-machine m (h, err e) = refl

  -- The machine of an activation, where there is one, has the fingerprint.
  abbrev pub Names : Bytes → Activation → Type 0
  Names fingerprint a = (m : Machine) → a.machine ≡ some m → m.attributes.fingerprint ≡ fingerprint

  recover-Names :
      (conflict : GoError) (opts : CreateMachineOptions) (scope : Option Scope)
      (r : History × Result (Option Machine))
      → Found opts.fingerprint r.1
      → Names opts.fingerprint (recover env wire c fuel conflict opts scope r).1
  unfolding recover
  recover-Names conflict opts scope (h, err e) found = λ m q. cc
  recover-Names conflict opts scope (h, ok none) found = λ m q. cc
  recover-Names conflict opts scope (h, ok (some x)) found = λ m q.
      let adopted = adopt-machine x (validate_scoped env wire c opts.license_id scope h) in
      let same : x ≡ m = cc in found m (ap (λ y. ok (some y)) same)

  -- Where the activation is refused as FINGERPRINT_TAKEN, the machine that the call hands out, if it
  -- hands one out, has exactly the fingerprint asked for, whatever the server names or lists.
  pub activate_machine_idempotent-Names :
      (opts : CreateMachineOptions) (scope : Option Scope) (h : History) (e : GoError)
      → (activate_machine env wire c opts scope h).1.error ≡ some e
      → is_api err_fingerprint_taken e ≡ true
      → Names opts.fingerprint (activate_machine_idempotent env wire c fuel opts scope h).1
  unfolding activate_machine_idempotent after_activation
  activate_machine_idempotent-Names opts scope h e failed taken =
      rw (failed, taken)
        (recover-Names e opts scope _
          (resolve-Found e opts (activate_machine env wire c opts scope h).0))
