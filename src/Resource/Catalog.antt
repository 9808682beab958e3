-- ===== src/Resource/Catalog.antt =====
-- The structs of policy.go, artifact.go, release.go, entitlement.go, signing_key.go, health.go and
-- checkout_license.go, spelled as in Resource/Licensing.
use tamga_go.Base.{ℤ, Bool, Option, List}
use tamga_go.Text.{Bytes}

pub record PolicyAttributes : Type 0 where
  pub check_in_interval : Option Bytes
  pub max_users : Option ℤ
  pub duration : Option ℤ
  pub max_processes : Option ℤ
  pub scheme : Option Bytes
  pub max_cores : Option ℤ
  pub max_machines : Option ℤ
  pub heartbeat_duration : Option ℤ
  pub check_in_interval_count : Option ℤ
  pub overage_strategy_raw : Bytes
  pub renewal_basis : Bytes
  pub updated : Bytes
  pub created : Bytes
  pub heartbeat_cull_strategy_raw : Bytes
  pub heartbeat_resurrection_strategy_raw : Bytes
  pub machine_uniqueness_strategy : Bytes
  pub expiration_strategy : Bytes
  pub expiration_basis : Bytes
  pub name : Bytes
  pub authentication_strategy : Bytes
  pub product_id : Bytes
  pub metadata : Bytes
  pub use_pool : Bool
  pub encrypted : Bool
  pub floating : Bool
  pub strict : Bool
  pub require_check_in : Bool
  pub protected : Bool
  pub require_heartbeat : Bool

pub record Policy : Type 0 where
  pub id : Bytes
  pub kind : Bytes
  pub attributes : PolicyAttributes

pub record ArtifactAttributes : Type 0 where
  pub filetype : Option Bytes
  pub filesize : Option ℤ
  pub checksum : Option Bytes
  pub platform : Option Bytes
  pub arch : Option Bytes
  pub signature : Option Bytes
  pub redirect_url : Option Bytes
  pub filename : Bytes
  pub status : Bytes
  pub created : Bytes
  pub updated : Bytes
  pub metadata : Bytes

pub record Artifact : Type 0 where
  pub id : Bytes
  pub kind : Bytes
  pub attributes : ArtifactAttributes

pub record ReleaseAttributes : Type 0 where
  pub name : Option Bytes
  pub tag : Option Bytes
  pub product_id : Bytes
  pub version : Bytes
  pub channel : Bytes
  pub status : Bytes
  pub created : Bytes
  pub updated : Bytes
  pub metadata : Bytes

pub record Release : Type 0 where
  pub id : Bytes
  pub kind : Bytes
  pub attributes : ReleaseAttributes

pub record EntitlementAttributes : Type 0 where
  pub inherited : Option Bool
  pub max_value : Option ℤ
  pub current_value : Option ℤ
  pub name : Bytes
  pub code : Bytes
  pub kind : Bytes
  pub created : Bytes
  pub updated : Bytes
  pub metadata : Bytes

pub record Entitlement : Type 0 where
  pub id : Bytes
  pub kind : Bytes
  pub attributes : EntitlementAttributes

pub record SigningKeyAttributes : Type 0 where
  pub retired : Option Bytes
  pub algorithm : Bytes
  pub public_key : Bytes
  pub status : Bytes
  pub created : Bytes

pub record SigningKey : Type 0 where
  pub id : Bytes
  pub kind : Bytes
  pub attributes : SigningKeyAttributes

pub record Health : Type 0 where
  pub status : Bytes
  pub version : Bytes
  pub uptime_secs : ℤ

pub record LicenseFileResourceAttrs : Type 0 where
  pub ttl : Option ℤ
  pub expiry : Option Bytes
  pub certificate : Bytes
  pub algorithm : Bytes
  pub issued : Bytes
  pub includes : List Bytes

pub record LicenseFileResource : Type 0 where
  pub id : Bytes
  pub kind : Bytes
  pub attributes : LicenseFileResourceAttrs

pub record CertPayload : Type 0 where
  pub enc : Bytes
  pub sig : Bytes
  pub alg : Bytes

pub record LicenseFileClaims : Type 0 where
  pub id : Bytes
  pub key_id : Bytes
  pub issued_at : ℤ
  pub expires_at : ℤ
