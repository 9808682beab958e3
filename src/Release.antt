-- ===== src/Release.antt =====
-- release.go: the check for an upgrade.
pub mod Upgrade
use tamga_go.Base.{Bool, ◌||◌, Option, none, some, List, [], ◌∷◌, ◌++◌, eqb, if◌then◌else◌}
use tamga_go.Text.{Bytes, codes, ◌==◌}
use tamga_go.Errors
use tamga_go.Errors.{Result, ok, err, plain}
use tamga_go.Http.{Env, Response, Values, get, set_value}
use tamga_go.Http.Monad.{M, ◌>>=◌, lift}
use tamga_go.Client.{Client, new_request}
use tamga_go.Client.Retry.{do_request}
use tamga_go.Client.Decode.{check_status, decode_body}
use tamga_go.Resource.{Release, Wire}

pub record UpgradeOptions : Type 0 where
  pub product_id : Bytes
  pub platform : Bytes
  pub filetype : Bytes
  pub version : Bytes
  pub channel : Bytes
  pub constraint : Bytes

-- The table that UpgradeOptions.validate goes through
abbrev pub required : UpgradeOptions → List (Bytes × Bytes)
required o =
    (codes "ProductID", o.product_id)
    ∷ (codes "Platform", o.platform)
    ∷ (codes "Filetype", o.filetype)
    ∷ (codes "Version", o.version)
    ∷ []

unfoldable pub validate_all : List (Bytes × Bytes) → Result (Unit {0})
validate_all [] = ok tt
validate_all ((name, value) ∷ fields) =
    if value == []
    then err
        (plain (codes "UpgradeOptions." ++ (name ++ codes " is required by the upgrade check")))
    else validate_all fields

-- UpgradeOptions.validate
unfoldable pub validate : UpgradeOptions → Result (Unit {0})
unfolding validate_all
validate o = validate_all (required o)

-- Set only if it is not empty.
abbrev set_unless_empty : Bytes → Bytes → Values → Values
set_unless_empty key [] q = q
set_unless_empty key (x ∷ s) q = set_value key (x ∷ s) q

-- UpgradeOptions.query
unfoldable pub upgrade_query : UpgradeOptions → Values
unfolding set_value
upgrade_query o =
    let q = set_value (codes "version") o.version (
      set_value (codes "filetype") o.filetype
        (set_value (codes "platform") o.platform (set_value (codes "product") o.product_id []))) in
    set_unless_empty (codes "constraint") o.constraint
      (set_unless_empty (codes "channel") o.channel q)

module _ (env : Env) (wire : Wire) (c : Client) where
  open env use {encode_query}

  abbrev pub found : Result Release → Result (Option Release)
  found (ok r) = ok (some r)
  found (err e) = err e

  -- What CheckUpgrade reads from a response of the 2xx range
  abbrev pub upgrade_of : Response → Result (Option Release)
  upgrade_of resp =
      if eqb resp.status 204 then ok none else found (decode_body env wire.release resp)

  -- CheckUpgrade; `none` is the result (nil, false).
  unfoldable pub check_upgrade : UpgradeOptions → M (Option Release)
  unfolding validate upgrade_query new_request do_request check_status
  check_upgrade o = do
    valid ← lift (validate o)
    req ← lift (
        new_request env c get (codes "/releases/actions/upgrade?" ++ encode_query (upgrade_query o))
          none)
    resp ← do_request env c req
    checked ← lift (check_status env resp)
    lift (upgrade_of checked)
