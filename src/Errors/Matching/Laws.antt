-- ===== src/Errors/Matching/Laws.antt =====
-- What errors.Is and errors.As agree on.
use tamga_go.Base.{◌≡◌, refl, false, none, arith}
use tamga_go.Errors.{
  ApiError, GoError, api, sentinel, expired, unknown_key, plain, wrap, wrap_both, out_of_fuel,
}
use tamga_go.Errors.Matching.{is_api, as_api}

-- Where errors.As finds no API error, errors.Is matches none.
pub is_api_of_none : (t : ApiError) (e : GoError) → as_api e ≡ none → is_api t e ≡ false
unfolding is_api as_api
is_api_of_none t (api e) h = cc
is_api_of_none t (wrap e) h = is_api_of_none t e h
is_api_of_none t (wrap_both e f) h = ground (arith, is_api_of_none t e, is_api_of_none t f)
is_api_of_none t (sentinel s) h = refl
is_api_of_none t (expired at) h = refl
is_api_of_none t (unknown_key kid held) h = refl
is_api_of_none t (plain text) h = refl
is_api_of_none t out_of_fuel h = refl
