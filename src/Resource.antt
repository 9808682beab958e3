-- ===== src/Resource.antt =====
-- The data that the server returns, and the decoders that stand for encoding/json at these types.
mod Licensing
mod Catalog
pub use Licensing.*
pub use Catalog.*
use tamga_go.Base.{Option, List}
use tamga_go.Text.{Bytes}
use tamga_go.Http.{Body}

-- json.NewDecoder(body).Decode into an envelope of the named type; `none` is an error.
pub record Wire : Type 0 where
  pub machine : Body → Option Machine
  pub machines : Body → Option (List Machine × PageMeta)
  pub validation : Body → Option (License × ValidationMeta)
  pub verdict : Body → Option ValidationMeta
  pub license : Body → Option License
  pub component : Body → Option Component
  pub components : Body → Option (List Component)
  pub process : Body → Option Process
  pub processes : Body → Option (List Process)
  pub policy : Body → Option Policy
  pub entitlement : Body → Option Entitlement
  pub entitlements : Body → Option (List Entitlement)
  pub artifact : Body → Option Artifact
  pub artifacts : Body → Option (List Artifact)
  pub release : Body → Option Release
  pub signing_keys : Body → Option (List SigningKey)
  pub file : Body → Option LicenseFileResource
  pub proof : Body → Option (Machine × Bytes)
  pub health : Body → Option Health
