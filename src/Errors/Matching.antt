-- ===== src/Errors/Matching.antt =====
-- errors.Is and errors.As over the error values of the SDK, and the accessors of *APIError.
pub mod Laws
use tamga_go.Base.{Bool, true, false, ◌||◌, Option, none, some, List, if◌then◌else◌}
use mathlib.Core.Logic.{ite}
use tamga_go.Text.{Bytes, codes, ◌==◌}
use tamga_go.Json.{text_at}
use tamga_go.Errors.{
  Sentinel, Sentinel-discrete, unknown_signing_key, signing_key_not_published, ApiError, GoError,
  api, sentinel, expired, unknown_key, plain, wrap, wrap_both, out_of_fuel,
  err_meter_limit_exceeded, err_fingerprint_taken,
}

-- SHA-256 of the empty key, cut to 8 bytes, in hexadecimal.
abbrev pub unpublished_signing_key_id : Bytes
unpublished_signing_key_id = codes "e3b0c44298fc1c14"

-- (*UnknownSigningKeyError).Unwrap
unfoldable pub unwrap_unknown_key : Bytes → Sentinel
unwrap_unknown_key kid =
    if kid == unpublished_signing_key_id then signing_key_not_published else unknown_signing_key

abbrev is_same : Sentinel → Sentinel → Bool
is_same s t = ite (Sentinel-discrete s t) true false

-- errors.Is at a target made by errors.New.
unfoldable pub is_sentinel : Sentinel → GoError → Bool
unfolding unwrap_unknown_key Sentinel-discrete
is_sentinel t (api e) = false
is_sentinel t (sentinel s) = is_same s t
is_sentinel t (expired at) = false
is_sentinel t (unknown_key kid held) = is_same (unwrap_unknown_key kid) t
is_sentinel t (plain text) = false
is_sentinel t (wrap e) = is_sentinel t e
is_sentinel t (wrap_both e f) = is_sentinel t e || is_sentinel t f
is_sentinel t out_of_fuel = false

-- (*APIError).Is: an API error matches another by its code alone.
unfoldable pub matches_api : ApiError → ApiError → Bool
matches_api e t = e.err.code == t.err.code

-- errors.Is at a target of type *APIError.
unfoldable pub is_api : ApiError → GoError → Bool
unfolding matches_api
is_api t (api e) = matches_api e t
is_api t (wrap e) = is_api t e
is_api t (wrap_both e f) = is_api t e || is_api t f
is_api t (sentinel s) = false
is_api t (expired at) = false
is_api t (unknown_key kid held) = false
is_api t (plain text) = false
is_api t out_of_fuel = false

abbrev pub or_else {ℓ} : {A : Type ℓ} → Option A → Option A → Option A
or_else (some a) o = some a
or_else none o = o

-- errors.As into a *APIError: the first one of the tree.
unfoldable pub as_api : GoError → Option ApiError
as_api (api e) = some e
as_api (wrap e) = as_api e
as_api (wrap_both e f) = or_else (as_api e) (as_api f)
as_api (sentinel s) = none
as_api (expired at) = none
as_api (unknown_key kid held) = none
as_api (plain text) = none
as_api out_of_fuel = none

-- (*APIError).MeterEntitlementID
unfoldable pub meter_entitlement_id : ApiError → Option Bytes
meter_entitlement_id e =
    if e.err.code == err_meter_limit_exceeded.err.code
    then text_at (codes "entitlement_id") e.err.meta
    else none

-- (*APIError).ConflictingMachineID
unfoldable pub conflicting_machine_id : ApiError → Option Bytes
conflicting_machine_id e =
    if e.err.code == err_fingerprint_taken.err.code
    then text_at (codes "machineId") e.err.meta
    else none
