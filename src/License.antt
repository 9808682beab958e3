-- ===== src/License.antt =====
-- license.go and the license reads of policy_read.go: validation and check-in.
pub mod Scopes
use tamga_go.Base.{Bool, false, Option, none, some, List, [], ◌∷◌, ◌++◌}
use tamga_go.Text.{Bytes, codes}
use tamga_go.Json.{Object, marshaler, bool, str, arr, object, texts}
use tamga_go.Http.{Env, post, get}
use tamga_go.Http.Monad.{M}
use tamga_go.Client.{Client}
use tamga_go.Client.Decode.{decode_json_api, decode_flat}
use tamga_go.Resource.{License, ValidationMeta, Scope, Wire}

-- A field tagged `omitempty`.
abbrev pub text_field : Bytes → Option Bytes → Object
text_field key none = []
text_field key (some s) = (key, str s) ∷ []

abbrev pub list_field : Bytes → List Bytes → Object
list_field key [] = []
list_field key (s ∷ l) = (key, arr (texts (s ∷ l))) ∷ []

-- The fields of the struct `alias` in Scope.MarshalJSON: Version and Checksum are left out.
unfoldable pub scope_fields : Scope → Object
scope_fields s =
    text_field (codes "product") s.product
    ++ (text_field (codes "policy") s.policy
        ++ (text_field (codes "user") s.user
            ++ (text_field (codes "environment") s.environment
                ++ (text_field (codes "fingerprint") s.fingerprint
                    ++ list_field (codes "entitlements") s.entitlements))))

pub record ValidateByIdOptions : Type 0 where
  pub scope : Option Scope
  pub skip_touch : Bool

module _ (env : Env) where
  -- Scope.MarshalJSON
  unfoldable pub marshal_scope : Scope → Option Bytes
  unfolding scope_fields
  marshal_scope s = env.marshal (object (scope_fields s))

  abbrev scope_field : Option Scope → Object
  scope_field none = []
  scope_field (some s) = (codes "scope", marshaler (marshal_scope s)) ∷ []

  abbrev pub validate_meta : Option ValidateByIdOptions → Object
  validate_meta none = (codes "skip_touch", bool false) ∷ []
  validate_meta (some o) = (codes "skip_touch", bool o.skip_touch) ∷ scope_field o.scope

module _ (env : Env) (wire : Wire) (c : Client) where
  open env use {path_escape}

  abbrev pub license_path : Bytes → Bytes → Bytes
  license_path license_id tail = codes "/licenses/" ++ (path_escape license_id ++ tail)

  -- ValidateByKey
  unfoldable pub validate_by_key : Bytes → M (License × ValidationMeta)
  unfolding decode_json_api
  validate_by_key key =
      decode_json_api env wire.validation c post (codes "/licenses/actions/validate-key")
        (some (object ((codes "key", str key) ∷ [])))

  -- ValidateByID
  unfoldable pub validate_by_id : Bytes → Option ValidateByIdOptions → M (License × ValidationMeta)
  unfolding decode_json_api marshal_scope
  validate_by_id license_id opts =
      decode_json_api env wire.validation c post
        (license_path license_id (codes "/actions/validate"))
        (some (object ((codes "meta", object (validate_meta env opts)) ∷ [])))

  -- QuickValidate
  unfoldable pub quick_validate : Bytes → M ValidationMeta
  unfolding decode_flat
  quick_validate license_id =
      decode_flat env wire.verdict c get (license_path license_id (codes "/actions/validate"))

  -- CheckIn
  unfoldable pub check_in : Bytes → M License
  unfolding decode_json_api
  check_in license_id =
      decode_json_api env wire.license c post (license_path license_id (codes "/actions/check-in"))
        none

  -- GetLicense
  unfoldable pub get_license : Bytes → M License
  unfolding decode_json_api
  get_license license_id = decode_json_api env wire.license c get (license_path license_id []) none
