-- ===== src/Examples/Files.antt =====
-- License files and machine files of concrete bytes.
use tamga_go.Base.{ℕ, pos, ◌≡◌, ◌↔◌, Option, none, some, [], ◌∷◌, arith}
use tamga_go.Text.{Bytes, codes}
use tamga_go.Errors.{ok}
use tamga_go.Resource.{LicenseFileClaims}
use tamga_go.Checkout.License
use tamga_go.Checkout.License.Laws.{verify-Accepted_iff}
use tamga_go.Checkout.License.Laws as LicenseLaws
use tamga_go.Checkout.Machine
use tamga_go.Checkout.Machine.Laws as MachineLaws
use tamga_go.Examples.{toy, a_license, machine_with}

-- A key of 32 bytes that begins with `n`.
abbrev pub key_bytes : ℕ → Bytes
key_bytes n = n ∷ codes "1234567890123456789012345678901"

abbrev pub claims : LicenseFileClaims
claims = record { id = codes "lf"; key_id = codes "k9"; issued_at = pos 0; expires_at = pos 5000 }

abbrev pub payload : License.LicensePayload
payload = record { claims = claims; contents = a_license }

abbrev pub unmarshal : Bytes → Option License.DecodedLicense
unmarshal s = some (record { contents = a_license; meta = some claims })

abbrev pub file : License.LicenseFile
file = record {
  ttl = none;
  expiry = none;
  now = pos 5060;
  enc = codes "text";
  sig = key_bytes b'A';
  alg = codes "base64+ed25519+v2";
  pem = [];
  id = [];
  issued = [];
  includes = [];
}

verify-Accepted_iff_example :
    (License.verify toy unmarshal file (key_bytes b'A') [] ≡ ok payload)
    ↔ LicenseLaws.Accepted toy unmarshal file (key_bytes b'A') [] payload
verify-Accepted_iff_example =
    verify-Accepted_iff toy unmarshal file (key_bytes b'A') [] payload (omega arith)

abbrev pub machine_payload : Machine.MachinePayload
machine_payload = record { contents = machine_with (codes "fp"); claims = claims }

abbrev pub unmarshal_machine : Bytes → Option Machine.DecodedMachine
unmarshal_machine s = some (record { contents = machine_with (codes "fp"); meta = some claims })

abbrev pub machine_file : Machine.MachineFile
machine_file = record {
  enc = codes "text";
  sig = key_bytes b'A';
  alg = codes "base64+ed25519+v2";
  pem = [];
  now = pos 5060;
  id = [];
  ttl = none;
  expiry = none;
  issued = [];
  includes = [];
}
