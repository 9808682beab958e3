-- ===== src/Machine.antt =====
-- machine.go: creating, deleting and activating machines, and their heartbeats.
pub mod Heartbeat
pub mod Read
pub mod Reactivate
pub mod Parts
pub mod Laws
use tamga_go.Base.{
  ℤ, pos, Bool, true, false, ◌||◌, Option, none, some, List, [], ◌∷◌, ◌++◌, if◌then◌else◌,
}
use tamga_go.Text.{Bytes, codes, ◌==◌}
use tamga_go.Json.{Json, Object, str, object, str_or_null, int_or_null}
use tamga_go.Errors.{
  Result, ok, err, GoError, ApiError, api, sentinel, wrap, wrap_both, machine_over_limit,
}
use tamga_go.Errors.Matching.{as_api}
use tamga_go.Http.{Env, History, post, delete}
use tamga_go.Http.Monad.{M}
use tamga_go.Client.{Client}
use tamga_go.Client.Decode.{decode_json_api, do_no_content}
use tamga_go.Resource.{Machine, License, ValidationMeta, Scope, Wire}
use tamga_go.License.{ValidateByIdOptions, validate_by_id}

pub record CreateMachineOptions : Type 0 where
  pub name : Option Bytes
  pub ip : Option Bytes
  pub hostname : Option Bytes
  pub platform : Option Bytes
  pub cores : Option ℤ
  pub memory : Option ℤ
  pub disk : Option ℤ
  pub metadata : Option Object
  pub fingerprint : Bytes
  pub license_id : Bytes

-- A nil map is sent as an empty object.
abbrev pub or_empty : Option Object → Object
or_empty none = []
or_empty (some o) = o

unfoldable pub create_machine_body : CreateMachineOptions → Json
create_machine_body o = object (
    (
      codes "data",
      object (
          (codes "type", str (codes "machines"))
          ∷ (
            codes "attributes",
            object (
                (codes "fingerprint", str o.fingerprint)
                ∷ (codes "name", str_or_null o.name)
                ∷ (codes "ip", str_or_null o.ip)
                ∷ (codes "hostname", str_or_null o.hostname)
                ∷ (codes "platform", str_or_null o.platform)
                ∷ (codes "cores", int_or_null o.cores)
                ∷ (codes "memory", int_or_null o.memory)
                ∷ (codes "disk", int_or_null o.disk)
                ∷ (codes "metadata", object (or_empty o.metadata))
                ∷ []),
          )
          ∷ (
            codes "relationships",
            object (
                (
                  codes "license",
                  object (
                      (
                        codes "data",
                        object (
                            (codes "type", str (codes "licenses"))
                            ∷ (codes "id", str o.license_id)
                            ∷ []),
                      )
                      ∷ []),
                )
                ∷ []),
          )
          ∷ []),
    )
    ∷ [])

-- isOverageCode
unfoldable pub is_overage_code : Bytes → Bool
is_overage_code code =
    code == codes "TOO_MANY_MACHINES"
    || code == codes "TOO_MANY_CORES"
    || code == codes "TOO_MUCH_MEMORY"
    || code == codes "TOO_MUCH_DISK"
    || code == codes "TOO_MANY_PROCESSES"

-- createTimeLimitCode; `none` is the second result false.
unfoldable pub create_time_limit_code : Bytes → Option Bytes
create_time_limit_code code =
    if code == codes "MACHINE_LIMIT_EXCEEDED"
    then some (codes "TOO_MANY_MACHINES")
    else if code == codes "CORE_LIMIT_EXCEEDED"
    then some (codes "TOO_MANY_CORES")
    else if code == codes "MEMORY_LIMIT_EXCEEDED"
    then some (codes "TOO_MUCH_MEMORY")
    else if code == codes "DISK_LIMIT_EXCEEDED"
    then some (codes "TOO_MUCH_DISK")
    else none

-- The three results of an activation.
pub record Activation : Type 0 where
  pub machine : Option Machine
  pub meta : Option ValidationMeta
  pub error : Option GoError

abbrev pub failed : GoError → Activation
failed e = record { machine = none; meta = none; error = some e }

abbrev pub scoped : Option Scope → Option ValidateByIdOptions
scoped scope = some (record { scope = scope; skip_touch = false })

module _ (env : Env) (wire : Wire) (c : Client) where
  open env use {path_escape, clock}

  abbrev pub machine_path : Bytes → Bytes → Bytes
  machine_path machine_id tail = codes "/machines/" ++ (path_escape machine_id ++ tail)

  -- CreateMachine
  unfoldable pub create_machine : CreateMachineOptions → M Machine
  unfolding decode_json_api create_machine_body
  create_machine opts =
      decode_json_api env wire.machine c post (codes "/machines") (some (create_machine_body opts))

  -- DeleteMachine
  unfoldable pub delete_machine : Bytes → M (Unit {0})
  unfolding do_no_content
  delete_machine machine_id = do_no_content env c delete (machine_path machine_id [])

  -- PingHeartbeat
  unfoldable pub ping_heartbeat : Bytes → M Machine
  unfolding decode_json_api
  ping_heartbeat machine_id =
      decode_json_api env wire.machine c post
        (machine_path machine_id (codes "/actions/ping-heartbeat")) none

  -- ResetHeartbeat
  unfoldable pub reset_heartbeat : Bytes → M Machine
  unfolding decode_json_api
  reset_heartbeat machine_id =
      decode_json_api env wire.machine c post
        (machine_path machine_id (codes "/actions/reset-heartbeat")) none

  abbrev refusal : ApiError → Bytes → History → ValidationMeta
  refusal a code h = record {
    ts = pos (clock h);
    detail = a.err.detail;
    code = code;
    valid = false;
  }

  -- ActivateMachine after CreateMachine has failed.
  unfoldable pub refuse : GoError → History → History × Activation
  unfolding as_api create_time_limit_code
  refuse e h = elim (as_api e) [
    | none ↦ (h, failed e)
    | some a ↦ elim (create_time_limit_code a.err.code) [
      | none ↦ (h, failed e)
      | some code ↦ (
        h,
        record {
          machine = none;
          meta = some (refusal a code h);
          error = some (wrap_both (sentinel machine_over_limit) (api a));
        },
      )
    ]
  ]

  -- ActivateMachine after ValidateByID has answered for the new machine.
  unfoldable pub settle :
      Machine → History × Result (License × ValidationMeta) → History × Activation
  unfolding is_overage_code delete_machine
  settle m (h, err e) = (h, record { machine = some m; meta = none; error = some e })
  settle m (h, ok (l, meta)) =
      if is_overage_code meta.code
      then (
        (delete_machine m.id h).0,
        record {
          machine = none;
          meta = some meta;
          error = some (wrap (sentinel machine_over_limit));
        },
      )
      else (h, record { machine = some m; meta = some meta; error = none })

  abbrev pub validate_scoped : Bytes → Option Scope → M (License × ValidationMeta)
  validate_scoped license_id scope = validate_by_id env wire c license_id (scoped scope)

  unfoldable pub activate_created :
      CreateMachineOptions → Option Scope → History × Result Machine → History × Activation
  unfolding refuse settle validate_by_id
  activate_created opts scope (h, err e) = refuse e h
  activate_created opts scope (h, ok m) = settle m (validate_scoped opts.license_id scope h)

  -- ActivateMachine
  unfoldable pub activate_machine :
      CreateMachineOptions → Option Scope → History → History × Activation
  unfolding activate_created create_machine
  activate_machine opts scope h = activate_created opts scope (create_machine opts h)
