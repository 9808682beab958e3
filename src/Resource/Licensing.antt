-- ===== src/Resource/Licensing.antt =====
-- The structs of license.go, validation.go, machine.go and machine_read.go. A string type is Bytes,
-- a pointer is an Option, raw JSON is its bytes, and the field `Type` is `kind`.
use tamga_go.Base.{ℤ, Bool, Option, List}
use tamga_go.Text.{Bytes}

pub record LicenseAttributes : Type 0 where
  pub max_machines : Option ℤ
  pub key : Option Bytes
  pub last_check_in_at : Option Bytes
  pub expiry : Option Bytes
  pub last_check_out_at : Option Bytes
  pub name : Option Bytes
  pub last_validated_at : Option Bytes
  pub scheme : Option Bytes
  pub max_users : Option ℤ
  pub updated : Bytes
  pub created : Bytes
  pub status : Bytes
  pub metadata : Bytes
  pub machines_count : ℤ
  pub protected : Bool
  pub floating : Bool
  pub strict : Bool
  pub encrypted : Bool
  pub suspended : Bool

pub record License : Type 0 where
  pub id : Bytes
  pub kind : Bytes
  pub attributes : LicenseAttributes

pub record Scope : Type 0 where
  pub product : Option Bytes
  pub policy : Option Bytes
  pub user : Option Bytes
  pub environment : Option Bytes
  pub fingerprint : Option Bytes
  pub version : Option Bytes
  pub checksum : Option Bytes
  pub entitlements : List Bytes

pub record ValidationMeta : Type 0 where
  pub ts : ℤ
  pub detail : Bytes
  pub code : Bytes
  pub valid : Bool

pub record MachineAttributes : Type 0 where
  pub platform : Option Bytes
  pub next_heartbeat_at : Option Bytes
  pub memory : Option ℤ
  pub disk : Option ℤ
  pub ip : Option Bytes
  pub hostname : Option Bytes
  pub cores : Option ℤ
  pub last_check_out_at : Option Bytes
  pub name : Option Bytes
  pub last_heartbeat_at : Option Bytes
  pub fingerprint : Bytes
  pub heartbeat_status : Bytes
  pub created : Bytes
  pub updated : Bytes
  pub metadata : Bytes

pub record Machine : Type 0 where
  pub id : Bytes
  pub kind : Bytes
  pub attributes : MachineAttributes

pub record ComponentAttributes : Type 0 where
  pub fingerprint : Bytes
  pub name : Bytes
  pub machine_id : Bytes
  pub created : Bytes
  pub updated : Bytes
  pub metadata : Bytes

pub record Component : Type 0 where
  pub id : Bytes
  pub kind : Bytes
  pub attributes : ComponentAttributes

pub record ProcessAttributes : Type 0 where
  pub pid : Bytes
  pub machine_id : Bytes
  pub last_heartbeat_at : Bytes
  pub created : Bytes
  pub updated : Bytes
  pub metadata : Bytes

pub record Process : Type 0 where
  pub id : Bytes
  pub kind : Bytes
  pub attributes : ProcessAttributes

pub record PageMeta : Type 0 where
  pub number : ℤ
  pub size : ℤ
  pub total : ℤ
  pub total_pages : ℤ
