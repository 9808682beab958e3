-- ===== src/Examples/Scopes.antt =====
-- Two scopes, with an encoder of their JSON that has an inverse.
use tamga_go.Base.{none, some, [], ◌∷◌, ◌≡◌, ◌↔◌, Option, refl}
use tamga_go.Text.{Bytes, codes}
use tamga_go.Resource.{Scope}
use tamga_go.License.{marshal_scope, scope_fields}
use tamga_go.Json.{Json, obj, field, str, object}
use tamga_go.Http.{Env}
use tamga_go.Examples.{steady}
use tamga_go.License.Scopes.{Agree, ReadsBack, marshal_scope-Agree_iff}

abbrev a_scope : Bytes → Bytes → Scope
a_scope product version = record {
  product = some product;
  policy = none;
  user = some [];
  environment = none;
  fingerprint = some (codes "fp");
  version = some version;
  checksum = none;
  entitlements = codes "E1" ∷ [];
}

-- An encoder that writes the first field of an object, and its inverse on such scopes.
abbrev first_text : Json → Option Bytes
first_text (obj (field k (str s) o)) = some s
first_text _ = none

abbrev writing : Env
writing = record steady { marshal = first_text }

abbrev reading : Bytes → Option Json
reading product = some (object (scope_fields (a_scope product [])))

a_scope-ReadsBack : (product version : Bytes) → ReadsBack writing reading (a_scope product version)
unfolding scope_fields
a_scope-ReadsBack product version = (product, refl, refl)

marshal_scope-Agree_iff_example :
    (marshal_scope writing (a_scope (codes "p1") (codes "1.0"))
      ≡ marshal_scope writing (a_scope (codes "p2") (codes "2.0")))
    ↔ Agree (a_scope (codes "p1") (codes "1.0")) (a_scope (codes "p2") (codes "2.0"))
marshal_scope-Agree_iff_example =
    marshal_scope-Agree_iff writing reading (a_scope (codes "p1") (codes "1.0"))
      (a_scope (codes "p2") (codes "2.0")) (a_scope-ReadsBack (codes "p1") (codes "1.0"))
      (a_scope-ReadsBack (codes "p2") (codes "2.0"))
