-- ===== src/Checkout/Fetch/Ttl.antt =====
-- The time to live that a machine file is asked for.
use tamga_go.Base.{
  ◌⊎◌, ℤ, pos, ◌≡◌, ◌≤ℤ◌, ◌<ℤ◌, ◌||◌, refl, true, Bool-cases, inl, inr, Option, none, some, leb_ℤ,
  ltb_ℤ, arith,
}
use tamga_go.Text.{Bytes, ◌==◌}
use tamga_go.Errors.{ok, err, GoError, api, wrap, err_ttl_invalid}
use tamga_go.Errors.Matching.{is_api, matches_api}
use tamga_go.Http.{Env, History}
use tamga_go.Client.{Client}
use tamga_go.Resource.{Wire}
use tamga_go.Checkout.{Crypto}
use tamga_go.Checkout.Machine.{MachineFile, DecodedMachine, check_ttl, max_checkout_ttl_seconds}
use tamga_go.Checkout.Fetch.{CheckOutOptions, check_out_machine, check_ttl_given}

-- A time to live that the server accepts, in seconds; none leaves it to the server.
abbrev pub IsTtl : Option ℤ → Type 0
IsTtl none = Unit
IsTtl (some ttl) = (pos 0 <ℤ ttl) × (ttl ≤ℤ max_checkout_ttl_seconds)

abbrev ttl_error : GoError
ttl_error = wrap (api err_ttl_invalid)

check_ttl-cases :
    (ttl : ℤ)
    → ((check_ttl ttl ≡ ok tt) × IsTtl (some ttl))
      ⊎ ((check_ttl ttl ≡ err ttl_error) × ¬ IsTtl (some ttl))
unfolding check_ttl
check_ttl-cases ttl = elim (Bool-cases (leb_ℤ ttl (pos 0) || ltb_ℤ max_checkout_ttl_seconds ttl)) [
  | inl t ↦ inr (rw t refl, ground arith)
  | inr n ↦ inl (rw n refl, ground arith)
]

is_api-ttl_error : is_api err_ttl_invalid ttl_error ≡ true
unfolding is_api matches_api ◌==◌
is_api-ttl_error = refl

module _ (env : Env) (wire : Wire) (crypto : Crypto) (c : Client) (now : ℤ)
    (unmarshal : Bytes → Option DecodedMachine) where
  pub given-cases :
      (o : Option ℤ)
      → ((check_ttl_given env wire crypto c now unmarshal o ≡ ok tt) × IsTtl o)
        ⊎ ((check_ttl_given env wire crypto c now unmarshal o ≡ err ttl_error) × ¬ IsTtl o)
  given-cases none = inl (refl, tt)
  given-cases (some ttl) = check_ttl-cases ttl

  -- A machine file is asked for with no time to live, or with one of at least a second and at most
  -- a year: with any other, CheckOutMachine sends nothing and its error matches ErrTTLInvalid, and
  -- a run that hands out a file had none or such a one.
  pub check_out_machine-IsTtl :
      (id : Bytes) (o : CheckOutOptions) (h : History)
      → (¬ IsTtl o.ttl
          → (e : GoError) × (check_out_machine env wire crypto c now unmarshal id o h ≡ (h, err e))
            × (is_api err_ttl_invalid e ≡ true))
        × ((h' : History) (f : MachineFile)
            → check_out_machine env wire crypto c now unmarshal id o h ≡ (h', ok f)
            → IsTtl o.ttl)
  unfolding check_out_machine
  check_out_machine-IsTtl id o h = elim (given-cases o.ttl) [
    | inl (v, t) ↦ (λ n. absurd (n t), λ h' f q. t)
    | inr (v, n) ↦ (λ m. (ttl_error, rw v refl, is_api-ttl_error), λ h' f q. absurd (cc))
  ]
