-- ===== src/Errors.antt =====
-- errors.go, and the error values of the other files: what errors.Is and errors.As see of them.
pub mod Laws
pub mod Matching
pub mod Exported
use tamga_go.Base.{◌≡◌, ◌⊎◌, inl, inr, refl, ℕ, ℤ, Option, none, some, List, [], ◌∷◌, ◌≡◌, refl}
use tamga_go.Text.{Bytes, codes}
use tamga_go.Json.{Object}

-- The variables made by errors.New.
pub data Sentinel : Type 0 where
  license_key_required fingerprint_required unsupported_algorithm decryption_failed : Sentinel
  machine_over_limit invalid_fingerprint_component missing_claims invalid_signature : Sentinel
  unknown_signing_key signing_key_not_published no_usable_signing_key : Sentinel

pub Sentinel-discrete : Discrete Sentinel
Sentinel-discrete = hlevel

-- One element of a JSON:API `errors` array.
pub record Error : Type 0 where
  pub source : Option Bytes
  pub meta : Object
  pub id : Bytes
  pub status : Bytes
  pub code : Bytes
  pub title : Bytes
  pub detail : Bytes

pub record ResponseInfo : Type 0 where
  pub tamga_version : Bytes
  pub tamga_edition : Bytes
  pub tamga_mode : Bytes
  pub request_id : Bytes

pub record ApiError : Type 0 where
  pub err : Error
  pub response : ResponseInfo
  pub http_status : ℕ

-- A value of Go's type `error`. Of a message only its fixed part is kept.
pub data GoError : Type 0 where
  api : ApiError → GoError
  sentinel : Sentinel → GoError
  expired : ℤ → GoError
  unknown_key : Bytes → List Bytes → GoError
  plain : Bytes → GoError
  wrap : GoError → GoError
  wrap_both : GoError → GoError → GoError
  out_of_fuel : GoError

pub data Result {ℓ} (A : Type ℓ) : Type ℓ where
  ok : A → Result A
  err : GoError → Result A

-- To split on a computed result and keep the equation.
pub Result-cases {ℓ} :
    {A : Type ℓ} (r : Result A) → ((e : GoError) × (r ≡ err e)) ⊎ ((a : A) × (r ≡ ok a))
Result-cases (ok a) = inr (a, refl)
Result-cases (err e) = inl (e, refl)

-- A failed step ends the chain with its own error: `if err != nil { return err }`.
infixl 5 ◌>>=◌
abbrev pub ◌>>=◌ {ℓ κ} : {T : Type ℓ} {U : Type κ} → Result T → (T → Result U) → Result U
err reason >>= next = err reason
ok value >>= next = next value

infixl 5 ◌>>◌
abbrev pub ◌>>◌ {κ} : {U : Type κ} → Result (Unit {0}) → Result U → Result U
check >> next = check >>= (λ passed. next)

abbrev pub or_fail {ℓ} : {A : Type ℓ} → Option A → GoError → Result A
or_fail none e = err e
or_fail (some a) e = ok a

abbrev no_info : ResponseInfo
no_info = record { tamga_version = []; tamga_edition = []; tamga_mode = []; request_id = [] }

abbrev coded : Bytes → Error
coded c = record {
  source = none;
  meta = [];
  id = [];
  status = [];
  code = c;
  title = [];
  detail = [];
}

abbrev known : ℕ → Bytes → ApiError
known status c = record { err = coded c; response = no_info; http_status = status }

abbrev pub err_not_found : ApiError
err_not_found = known 404 (codes "NOT_FOUND")

abbrev pub err_fingerprint_taken : ApiError
err_fingerprint_taken = known 409 (codes "FINGERPRINT_TAKEN")

abbrev pub err_ttl_invalid : ApiError
err_ttl_invalid = known 422 (codes "TTL_INVALID")

abbrev pub err_scheme_not_supported : ApiError
err_scheme_not_supported = known 422 (codes "SCHEME_NOT_SUPPORTED")

abbrev pub err_meter_limit_exceeded : ApiError
err_meter_limit_exceeded = known 422 (codes "METER_LIMIT_EXCEEDED")

abbrev unknown_error : Bytes → Error
unknown_error text = record (coded (codes "UNKNOWN")) {
  title = codes "Unknown Error";
  detail = text;
}

-- newAPIErrorFromResponse: the first object of the array.
unfoldable pub new_api_error_from_response : ℕ → ResponseInfo → List Error → ApiError
new_api_error_from_response status info [] = record {
  err = unknown_error (codes "server returned an empty errors array");
  response = info;
  http_status = status;
}
new_api_error_from_response status info (e ∷ es) = record {
  err = e;
  response = info;
  http_status = status;
}

-- The error that mapError makes when the body holds no error object.
unfoldable pub unreadable_error : ℕ → ResponseInfo → Bytes → ApiError
unreadable_error status info text = record {
  err = unknown_error text;
  response = info;
  http_status = status;
}
