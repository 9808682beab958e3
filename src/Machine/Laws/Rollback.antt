-- ===== src/Machine/Laws/Rollback.antt =====
-- The requests of an activation: at most one DELETE, and only to roll back an overage.
use tamga_go.Base.{
  ℕ, suc, ◌≤◌, ◌≡◌, ◌≢◌, ◌∙◌, refl, false, Option, some, [], ◌∷◌, arith, Bool-cases, Option-cases,
  inl, inr,
}
use tamga_go.Text.{Bytes, codes, ◌==◌}
use tamga_go.Errors.{Result, ok, err, GoError}
use tamga_go.Errors.Matching.{is_sentinel, as_api}
use tamga_go.Http.{Env, History, delete, post, get}
use tamga_go.Client.{Client}
use tamga_go.Client.Retry.{is_retryable}
use tamga_go.Client.Laws.Rounds.{requests}
use tamga_go.Client.Laws.Sending.{
  KeepsMethod, count_method, decode_json_api-count, do_no_content-count,
}
use tamga_go.Json.{object}
use tamga_go.License.{ValidateByIdOptions, license_path, validate_meta, validate_by_id}
use tamga_go.Machine.{
  create_machine_body, scoped, machine_path, create_time_limit_code, CreateMachineOptions,
  Activation, is_overage_code, create_machine, delete_machine, refuse, settle, activate_created,
  activate_machine, validate_scoped,
}
use tamga_go.Resource.{Machine, License, ValidationMeta, Scope, Wire}
use tamga_go.Machine.Laws.Limits.{IsOverLimit}

-- The DELETE requests of a history.
abbrev pub deletes : History → ℕ
deletes h = count_method delete (requests h)

delete-not_retryable : (p : Bytes) → is_retryable delete p ≡ false
unfolding is_retryable ◌==◌
delete-not_retryable p = refl

post-ne-delete : ◌≢◌ {A = Bytes} post delete
post-ne-delete = λ e. cc

get-ne-delete : ◌≢◌ {A = Bytes} get delete
get-ne-delete = λ e. cc

-- From `h` the outcome deletes nothing, or once, and then it reports an overage.
abbrev pub RollsBack : History → History × Activation → Type 0
RollsBack h r = (deletes r.0 ≤ suc (deletes h)) × (deletes r.0 ≢ deletes h → IsOverLimit r.1)

RollsBack-from :
    (g h : History) (r : History × Activation)
    → deletes g ≡ deletes h
    → RollsBack g r
    → RollsBack h r
RollsBack-from g h r e (most, why) = (omega arith, λ d. why (λ q. d (q ∙ e)))

module _ (env : Env) (wire : Wire) (c : Client) (k : KeepsMethod env c) where
  create_machine-deletes :
      (opts : CreateMachineOptions) (h : History)
      → deletes (create_machine env wire c opts h).0 ≡ deletes h
  unfolding create_machine
  create_machine-deletes opts h =
      decode_json_api-count env c post (codes "/machines") (some (create_machine_body opts)) k
        wire.machine delete h post-ne-delete

  pub validate_by_id-deletes :
      (id : Bytes) (o : Option ValidateByIdOptions) (h : History)
      → deletes (validate_by_id env wire c id o h).0 ≡ deletes h
  unfolding validate_by_id
  validate_by_id-deletes id o h =
      decode_json_api-count env c post (license_path env wire c id (codes "/actions/validate"))
        (some (object ((codes "meta", object (validate_meta env o)) ∷ []))) k wire.validation delete
        h post-ne-delete

  delete_machine-deletes :
      (id : Bytes) (h : History) → deletes (delete_machine env wire c id h).0 ≤ suc (deletes h)
  unfolding delete_machine
  delete_machine-deletes id h =
      do_no_content-count env c delete (machine_path env wire c id []) delete h k
        delete-not_retryable

  refuse-history : (e : GoError) (h : History) → (refuse env wire c e h).0 ≡ h
  unfolding refuse
  refuse-history e h = elim (Option-cases (as_api e)) [
    | inl n ↦ rw (n, refuse)
    | inr (a, q) ↦ elim (Option-cases (create_time_limit_code a.err.code)) [
      | inl n ↦ rw (q, n, refuse)
      | inr (code, l) ↦ rw (q, l, refuse)
    ]
  ]

  settle-RollsBack :
      (m : Machine) (r : History × Result (License × ValidationMeta))
      → RollsBack r.0 (settle env wire c m r)
  unfolding settle is_sentinel
  settle-RollsBack m (h, err e) = (omega arith, λ d. absurd (d refl))
  settle-RollsBack m (h, ok (l, v)) = elim (Bool-cases (is_overage_code v.code)) [
    | inl over ↦ rw (over, settle) (delete_machine-deletes m.id h, λ d. (_, refl, refl))
    | inr within ↦ rw (within, settle) (omega arith, λ d. absurd (d refl))
  ]

  activate_created-RollsBack :
      (opts : CreateMachineOptions) (scope : Option Scope) (r : History × Result Machine)
      → RollsBack r.0 (activate_created env wire c opts scope r)
  unfolding activate_created
  activate_created-RollsBack opts scope (h, err e) =
      rw (refuse-history e h) (omega arith, λ d. absurd (d refl))
  activate_created-RollsBack opts scope (h, ok m) =
      RollsBack-from (validate_scoped env wire c opts.license_id scope h).0 h
        (settle env wire c m (validate_scoped env wire c opts.license_id scope h))
        (validate_by_id-deletes opts.license_id (scoped scope) h)
        (settle-RollsBack m (validate_scoped env wire c opts.license_id scope h))

  -- With a transport that keeps a request's method, an activation sends at most one DELETE, and
  -- only if it reports ErrMachineOverLimit.
  pub activate_machine-RollsBack :
      (opts : CreateMachineOptions) (scope : Option Scope) (h : History)
      → RollsBack h (activate_machine env wire c opts scope h)
  unfolding activate_machine
  activate_machine-RollsBack opts scope h =
      RollsBack-from (create_machine env wire c opts h).0 h
        (activate_created env wire c opts scope (create_machine env wire c opts h))
        (create_machine-deletes opts h)
        (activate_created-RollsBack opts scope (create_machine env wire c opts h))
