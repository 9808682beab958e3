-- ===== src/Machine/Laws/Limits.antt =====
-- When an activation reports ErrMachineOverLimit, and what it hands over then.
use tamga_go.Json.{object}
use tamga_go.Http.{post, Env, History}
use tamga_go.License.{ValidateByIdOptions, license_path, validate_meta, validate_by_id}
use tamga_go.Machine.{
  create_machine_body, scoped, CreateMachineOptions, Activation, failed, is_overage_code,
  create_time_limit_code, create_machine, refuse, settle, activate_created, activate_machine,
  validate_scoped,
}
use tamga_go.Base.{
  ◌≡◌, refl, true, false, Option, none, some, [], ◌∷◌, arith, Bool-cases, Option-cases, inl, inr,
}
use tamga_go.Text.{Bytes, codes, ◌==◌}
use tamga_go.Errors.{Result, ok, err, GoError, machine_over_limit}
use tamga_go.Errors.Matching.{is_sentinel, as_api}
use tamga_go.Client.{Client}
use tamga_go.Client.Laws.Foreign.{ForeignIn, Foreign, decode_json_api-Foreign}
use tamga_go.Resource.{Machine, License, ValidationMeta, Scope, Wire}

abbrev pub IsOverLimit : Activation → Type 0
IsOverLimit a = (e : GoError) × (a.error ≡ some e) × (is_sentinel machine_over_limit e ≡ true)

-- What an activation says and what it hands over agree.
pub record Reported (a : Activation) : Type 0 where
  -- Over the limit, no machine is handed over and the verdict names the limit.
  pub refused :
      IsOverLimit a
      → (a.machine ≡ none)
        × ((v : ValidationMeta) × (a.meta ≡ some v) × (is_overage_code v.code ≡ true))
  -- Without an error there is a machine, with a verdict that names no limit.
  pub activated :
      a.error ≡ none
      → ((m : Machine) × (a.machine ≡ some m))
        × ((v : ValidationMeta) × (a.meta ≡ some v) × (is_overage_code v.code ≡ false))
  -- A verdict that names a limit is always reported as that error.
  pub named : (v : ValidationMeta) → a.meta ≡ some v → is_overage_code v.code ≡ true → IsOverLimit a

overage_codes :
    (is_overage_code (codes "TOO_MANY_MACHINES") ≡ true)
    × (is_overage_code (codes "TOO_MANY_CORES") ≡ true)
    × (is_overage_code (codes "TOO_MUCH_MEMORY") ≡ true)
    × (is_overage_code (codes "TOO_MUCH_DISK") ≡ true)
unfolding is_overage_code ◌==◌
overage_codes = (refl, refl, refl, refl)

-- Each create-time code stands for one of the limits that validation reports.
create_time_limit_code-is_overage_code :
    (c code : Bytes) → create_time_limit_code c ≡ some code → is_overage_code code ≡ true
unfolding create_time_limit_code
create_time_limit_code-is_overage_code c code e = ground (arith, overage_codes)

failed-Reported : (e : GoError) → Foreign e → Reported (failed e)
failed-Reported e f = record {
  refused = λ (e', q, s). ground (arith, f machine_over_limit);
  activated = λ q. cc;
  named = λ v q. cc;
}

module _ (env : Env) (wire : Wire) (c : Client) where
  refuse-Reported : (e : GoError) (h : History) → Foreign e → Reported (refuse env wire c e h).1
  unfolding refuse is_sentinel
  refuse-Reported e h f = elim (Option-cases (as_api e)) [
    | inl n ↦ rw (n, refuse) (failed-Reported e f)
    | inr (a, q) ↦ elim (Option-cases (create_time_limit_code a.err.code)) [
      | inl n ↦ rw (q, n, refuse) (failed-Reported e f)
      | inr (code, l) ↦
          rw (q, l, refuse)
            (record {
              refused =
                  λ _. (refl, (_, refl, create_time_limit_code-is_overage_code a.err.code code l));
              activated = λ x. cc;
              named = λ v x y. (_, refl, refl);
            })
    ]
  ]

  settle-Reported :
      (m : Machine) (r : History × Result (License × ValidationMeta))
      → ForeignIn r.1
      → Reported (settle env wire c m r).1
  unfolding settle is_sentinel
  settle-Reported m (h, err e) f = record {
    refused = λ (e', q, s). ground (arith, f e refl machine_over_limit);
    activated = λ x. cc;
    named = λ v x. cc;
  }
  settle-Reported m (h, ok (l, v)) f = elim (Bool-cases (is_overage_code v.code)) [
    | inl over ↦
        rw (over, settle)
          (record {
            refused = λ _. (refl, (v, refl, over));
            activated = λ x. cc;
            named = λ w x y. (_, refl, refl);
          })
    | inr within ↦
        rw (within, settle)
          (record {
            refused = λ (e', q, s). cc;
            activated = λ x. ((m, refl), (v, refl, within));
            named = λ w x y. ground arith;
          })
  ]

  pub create_machine-Foreign :
      (opts : CreateMachineOptions) (h : History) → ForeignIn (create_machine env wire c opts h).1
  unfolding create_machine
  create_machine-Foreign opts h =
      decode_json_api-Foreign env wire.machine c post (codes "/machines")
        (some (create_machine_body opts)) h

  pub validate_by_id-Foreign :
      (id : Bytes) (o : Option ValidateByIdOptions) (h : History)
      → ForeignIn (validate_by_id env wire c id o h).1
  unfolding validate_by_id
  validate_by_id-Foreign id o h =
      decode_json_api-Foreign env wire.validation c post
        (license_path env wire c id (codes "/actions/validate"))
        (some (object ((codes "meta", object (validate_meta env o)) ∷ []))) h

  activate_created-Reported :
      (opts : CreateMachineOptions) (scope : Option Scope) (r : History × Result Machine)
      → ForeignIn r.1
      → Reported (activate_created env wire c opts scope r).1
  unfolding activate_created
  activate_created-Reported opts scope (h, err e) f = refuse-Reported e h (f e refl)
  activate_created-Reported opts scope (h, ok m) f =
      settle-Reported m (validate_scoped env wire c opts.license_id scope h)
        (validate_by_id-Foreign opts.license_id (scoped scope) h)

  -- An activation matches ErrMachineOverLimit exactly when its verdict names an exceeded limit, and
  -- then hands over no machine; one that returns no error hands over a machine, and a verdict that
  -- names no limit.
  pub activate_machine-Reported :
      (opts : CreateMachineOptions) (scope : Option Scope) (h : History)
      → Reported (activate_machine env wire c opts scope h).1
  unfolding activate_machine
  activate_machine-Reported opts scope h =
      activate_created-Reported opts scope (create_machine env wire c opts h)
        (create_machine-Foreign opts h)
