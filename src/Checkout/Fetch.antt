-- ===== src/Checkout/Fetch.antt =====
-- checkout_license.go and checkout_machine.go: the calls that check a file out.
pub mod Ttl
pub mod Reopen
pub mod Machines
pub mod Delivered
use tamga_go.Base.{ℤ, Bool, true, false, Option, none, some, List, [], ◌∷◌, ◌++◌, if◌then◌else◌}
use tamga_go.Text.{Bytes, codes}
use tamga_go.Text.Decimal.{itoa}
use tamga_go.Json.{Json, bool, object, int_or_null}
use tamga_go.Errors.{Result, ok, err}
use tamga_go.Http.{Env, Values, get, post, set_value}
use tamga_go.Http.Monad.{M, ◌>>=◌, ◌>>◌, pure, lift}
use tamga_go.Client.{Client}
use tamga_go.Client.Decode.{decode_json_api, do_raw_text}
use tamga_go.Resource.{LicenseFileResource, Wire}
use tamga_go.Checkout.{Crypto}
use tamga_go.Checkout.License.{LicenseFile, DecodedLicense, parse_license_file}
use tamga_go.Checkout.Machine.{MachineFile, DecodedMachine, parse_machine_file, check_ttl}

pub record CheckOutOptions : Type 0 where
  pub ttl : Option ℤ
  pub encrypt : Bool
  pub use_post : Bool

-- strconv.FormatBool
abbrev format_bool : Bool → Bytes
format_bool true = codes "true"
format_bool false = codes "false"

abbrev with_ttl : Option ℤ → Values → Values
with_ttl none q = q
with_ttl (some n) q = set_value (codes "ttl") (itoa n) q

abbrev pub file_query : CheckOutOptions → Values
file_query o = with_ttl o.ttl ((codes "encrypt", format_bool o.encrypt) ∷ [])

abbrev pub file_body : CheckOutOptions → Json
file_body o = object (
    (
      codes "meta",
      object ((codes "encrypt", bool o.encrypt) ∷ (codes "ttl", int_or_null o.ttl) ∷ []),
    )
    ∷ [])

-- The metadata that the POST variants copy from the resource.
abbrev pub describe_license_file : LicenseFileResource → LicenseFile → LicenseFile
describe_license_file r f = record f {
  id = r.id;
  ttl = r.attributes.ttl;
  expiry = r.attributes.expiry;
  issued = r.attributes.issued;
  includes = r.attributes.includes;
}

abbrev pub describe_machine_file : LicenseFileResource → MachineFile → MachineFile
describe_machine_file r f = record f {
  id = r.id;
  ttl = r.attributes.ttl;
  expiry = r.attributes.expiry;
  issued = r.attributes.issued;
  includes = r.attributes.includes;
}

module _ (env : Env) (wire : Wire) (crypto : Crypto) (c : Client) (now : ℤ) where
  open env use {path_escape}

  module _ (unmarshal : Bytes → Option DecodedLicense) where
    -- checkOutLicenseGET
    unfoldable pub check_out_license_get : Bytes → CheckOutOptions → M LicenseFile
    unfolding do_raw_text parse_license_file set_value itoa
    check_out_license_get path o = do
      pem ← do_raw_text env c get path (file_query o)
      lift (parse_license_file crypto unmarshal now pem)

    -- checkOutLicensePOST
    unfoldable pub check_out_license_post : Bytes → CheckOutOptions → M LicenseFile
    unfolding decode_json_api parse_license_file
    check_out_license_post path o = do
      resource ← decode_json_api env wire.file c post path (some (file_body o))
      file ← lift (parse_license_file crypto unmarshal now resource.attributes.certificate)
      pure (describe_license_file resource file)

    -- CheckOutLicense
    unfoldable pub check_out_license : Bytes → CheckOutOptions → M LicenseFile
    unfolding check_out_license_get check_out_license_post
    check_out_license license_id o h =
        let path = codes "/licenses/" ++ (path_escape license_id ++ codes "/actions/check-out") in
        if o.use_post then check_out_license_post path o h else check_out_license_get path o h

  module _ (unmarshal : Bytes → Option DecodedMachine) where
    -- checkOutMachineGET
    unfoldable pub check_out_machine_get : Bytes → CheckOutOptions → M MachineFile
    unfolding do_raw_text parse_machine_file set_value itoa
    check_out_machine_get path o = do
      pem ← do_raw_text env c get path (file_query o)
      lift (parse_machine_file crypto unmarshal now pem)

    -- checkOutMachinePOST
    unfoldable pub check_out_machine_post : Bytes → CheckOutOptions → M MachineFile
    unfolding decode_json_api parse_machine_file
    check_out_machine_post path o = do
      resource ← decode_json_api env wire.file c post path (some (file_body o))
      file ← lift (parse_machine_file crypto unmarshal now resource.attributes.certificate)
      pure (describe_machine_file resource file)

    abbrev pub check_ttl_given : Option ℤ → Result (Unit {0})
    check_ttl_given none = ok tt
    check_ttl_given (some ttl) = check_ttl ttl

    -- CheckOutMachine
    unfoldable pub check_out_machine : Bytes → CheckOutOptions → M MachineFile
    unfolding check_out_machine_get check_out_machine_post check_ttl
    check_out_machine machine_id o = do
      valid ← lift (check_ttl_given o.ttl)
      let path = codes "/machines/" ++ (path_escape machine_id ++ codes "/actions/check-out")
      if o.use_post then check_out_machine_post path o else check_out_machine_get path o
