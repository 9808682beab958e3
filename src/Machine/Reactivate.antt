-- ===== src/Machine/Reactivate.antt =====
-- machine_read.go: ActivateMachineIdempotent and the lookup of a machine whose fingerprint is taken.
pub mod Laws
pub mod Deletes
use tamga_go.Base.{ℕ, Bool, true, false, Option, none, some, List, [], ◌∷◌, if◌then◌else◌}
use tamga_go.Text.{Bytes, ◌==◌}
use tamga_go.Errors.{
  Result, ok, err, GoError, sentinel, wrap, wrap_both, machine_over_limit, err_not_found,
  err_fingerprint_taken,
}
use tamga_go.Errors.Matching.{as_api, is_api, conflicting_machine_id}
use tamga_go.Http.{Env, History}
use tamga_go.Http.Monad.{M, pure, fail}
use tamga_go.Client.{Client}
use tamga_go.Resource.{Machine, License, ValidationMeta, Scope, Wire}
use tamga_go.License.{validate_by_id}
use tamga_go.Machine.{
  CreateMachineOptions, Activation, failed, is_overage_code, activate_machine, validate_scoped,
}
use tamga_go.Machine.Read.{get_machine, find_machine_by_fingerprint}

module _ (env : Env) (wire : Wire) (c : Client) (fuel : ℕ) where
  abbrev search : CreateMachineOptions → M (Option Machine)
  search opts = find_machine_by_fingerprint env wire c fuel opts.license_id opts.fingerprint

  -- The switch on what GetMachine answers for the id that the server named.
  unfoldable pub take_named :
      CreateMachineOptions → History × Result Machine → History × Result (Option Machine)
  unfolding find_machine_by_fingerprint is_api
  take_named opts (h, ok m) =
      if m.attributes.fingerprint == opts.fingerprint then (h, ok (some m)) else search opts h
  take_named opts (h, err e) = if is_api err_not_found e then search opts h else (h, err e)

  abbrev conflict_id : GoError → Option Bytes
  conflict_id e = elim (as_api e) [ none ↦ none | some a ↦ conflicting_machine_id a ]

  -- resolveTakenFingerprint
  unfoldable pub resolve_taken_fingerprint : GoError → CreateMachineOptions → M (Option Machine)
  unfolding take_named get_machine as_api conflicting_machine_id
  resolve_taken_fingerprint conflict opts h = elim (conflict_id conflict) [
    | none ↦ search opts h
    | some id ↦ take_named opts (get_machine env wire c id h)
  ]

  -- The validation of an adopted machine, which is never deleted.
  unfoldable pub adopt :
      Machine → History × Result (License × ValidationMeta) → History × Activation
  unfolding is_overage_code
  adopt m (h, err e) = (h, record { machine = some m; meta = none; error = some e })
  adopt m (h, ok (l, meta)) = (
    h,
    record {
      machine = some m;
      meta = some meta;
      error = if is_overage_code meta.code then some (wrap (sentinel machine_over_limit)) else none;
    },
  )

  unfoldable pub recover :
      GoError
      → CreateMachineOptions
      → Option Scope
      → History × Result (Option Machine)
      → History × Activation
  unfolding adopt validate_by_id
  recover conflict opts scope (h, err e) = (h, failed (wrap_both conflict e))
  recover conflict opts scope (h, ok none) = (h, failed conflict)
  recover conflict opts scope (h, ok (some m)) =
      adopt m (validate_scoped env wire c opts.license_id scope h)

  unfoldable pub after_activation :
      CreateMachineOptions
      → Option Scope
      → History
      → Activation
      → Option GoError
      → History × Activation
  unfolding recover resolve_taken_fingerprint is_api
  after_activation opts scope h a none = (h, a)
  after_activation opts scope h a (some e) =
      if is_api err_fingerprint_taken e
      then recover e opts scope (resolve_taken_fingerprint e opts h)
      else (h, a)

  -- ActivateMachineIdempotent
  unfoldable pub activate_machine_idempotent :
      CreateMachineOptions → Option Scope → History → History × Activation
  unfolding after_activation activate_machine
  activate_machine_idempotent opts scope h =
      let r = activate_machine env wire c opts scope h in
      after_activation opts scope r.0 r.1 r.1.error
