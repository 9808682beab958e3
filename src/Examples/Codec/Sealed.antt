-- ===== src/Examples/Codec/Sealed.antt =====
-- A license file and a machine file that are sealed, signed, fetched and read back.
use tamga_go.Base.{none, [], inl, pos, ◌≡◌, ◌≢◌, refl, sym, true, Option, some, ◌++◌, arith}
use tamga_go.Http.{History, post}
use tamga_go.Client.Decode.{decode_json_api}
use tamga_go.Resource.{Wire, LicenseFileClaims}
use tamga_go.Checkout.Fetch.{CheckOutOptions, check_out_license, check_out_machine, file_body}
use tamga_go.Checkout.Fetch.Delivered.{Brings, license_file_path, machine_file_path}
use tamga_go.Checkout.Sealing.Files.{license_pem}
use tamga_go.Checkout.Sealing.Machines.{machine_pem, sealed_enc}
use tamga_go.Checkout.Sealing.Delivered.{
  check_out_license-license_pem, check_out_machine-machine_pem,
}
use tamga_go.Examples.{steady, wire_of, a_client, a_license, machine_with}
use mathlib.Core.Bool.{true≢false}
use tamga_go.Text.{Bytes, codes, ◌==◌}
use tamga_go.Text.Laws.{==_refl, ==_iff}
use tamga_go.Errors.{ok}
use tamga_go.Checkout.{
  ed25519, seal_aes_gcm, derive_license_file_key, derive_machine_file_key, verify_ed25519,
}
use tamga_go.Checkout.License
use tamga_go.Checkout.License.{LicenseFile, LicensePayload, DecodedLicense, parse_license_file}
use tamga_go.Checkout.Machine
use tamga_go.Checkout.Machine.{
  MachineFile, MachinePayload, DecodedMachine, parse_machine_file, scheme_ed25519_sign,
  scheme_rsa2048_jwt_rs256, scheme_alg_suffix, verify_machine_file_signature,
}
use tamga_go.Examples.Codec.{write, write_cert, tag, coding, coding-Undoes}

abbrev unending : LicenseFileClaims
unending = record { id = codes "j"; key_id = codes "k"; issued_at = pos 0; expires_at = pos 0 }

abbrev a_payload : LicensePayload
a_payload = record { claims = unending; contents = a_license }

abbrev a_machine_payload : MachinePayload
a_machine_payload = record { contents = machine_with (codes "fp"); claims = unending }

abbrev to_license : Bytes → Option DecodedLicense
to_license s = some (record { contents = a_license; meta = some unending })

abbrev to_machine : Bytes → Option DecodedMachine
to_machine s = some (record { contents = machine_with (codes "fp"); meta = some unending })

abbrev nonce : Bytes
nonce = codes "nonce-of-12b"

abbrev text : Bytes
text = codes "{}"

abbrev a_key : Bytes
a_key = codes "0123456789abcdef0123456789abcdef"

license_key_is_key : derive_license_file_key coding (codes "key") ≡ ok (codes "key")
unfolding derive_license_file_key
license_key_is_key = refl

machine_key_is_key : derive_machine_file_key coding (codes "key") (codes "fp") ≡ ok (codes "key")
unfolding derive_machine_file_key
machine_key_is_key = refl

text_is_sealed : seal_aes_gcm coding (codes "key") nonce text ≡ ok (tag ++ text)
unfolding seal_aes_gcm
text_is_sealed = refl

-- The server answers a POST with the resource of a file with this text.
abbrev delivering : Bytes → Wire
delivering pem = record (wire_of [] 1 []) {
  file = λ b. some (record {
    id = codes "f1";
    kind = codes "license-files";
    attributes = record {
      ttl = none;
      expiry = none;
      certificate = pem;
      algorithm = [];
      issued = [];
      includes = [];
    };
  });
}

abbrev by_post : CheckOutOptions
by_post = record { ttl = some (pos 3600); encrypt = true; use_post = true }

-- A check-out by POST is one exchange.
abbrev after_post : Bytes → Bytes → History
after_post path pem =
    (decode_json_api steady (delivering pem).file a_client post path (some (file_body by_post))
      []).0

is_brought :
    (path pem : Bytes)
    → Brings steady
        (delivering pem)
        coding
        a_client
        (pos 60)
        path
        by_post
        []
        (after_post path pem)
        pem
unfolding decode_json_api
is_brought path pem = inl (refl, (_, refl, refl))

abbrev a_license_pem : Bytes
a_license_pem = license_pem write write_cert nonce (tag ++ text) (write (nonce ++ tag ++ text))

abbrev a_license_path : Bytes
a_license_path =
    license_file_path steady (delivering a_license_pem) coding a_client (pos 60) (codes "lic")

check_out_license-license_pem_example :
    (f : LicenseFile) × (check_out_license steady
        (delivering a_license_pem)
        coding
        a_client
        (pos 60)
        to_license
        (codes "lic")
        by_post
        []
      ≡ (after_post a_license_path a_license_pem, ok f))
    × (License.verify coding to_license f a_key (codes "key") ≡ ok a_payload)
check_out_license-license_pem_example =
    check_out_license-license_pem coding write write_cert coding-Undoes steady
      (delivering a_license_pem) a_client (pos 60) (codes "lic") by_post []
      (after_post a_license_path a_license_pem) to_license a_key (codes "key") (codes "key") nonce
      text (tag ++ text) (write (nonce ++ tag ++ text)) a_payload (omega arith, omega arith)
      (λ e. cc) license_key_is_key text_is_sealed refl (==_refl (write (nonce ++ tag ++ text)))
      (refl, λ n. absurd (n refl)) (is_brought a_license_path a_license_pem)

abbrev a_signature : Bytes
a_signature = sealed_enc write write_cert nonce (tag ++ text)

suffix_is_ed25519 : scheme_alg_suffix scheme_ed25519_sign ≡ ok (codes "ed25519")
unfolding scheme_alg_suffix ◌==◌
suffix_is_ed25519 = refl

schemes_differ : scheme_ed25519_sign ≢ scheme_rsa2048_jwt_rs256
unfolding ◌==◌
schemes_differ e = true≢false (sym ((==_iff scheme_ed25519_sign scheme_rsa2048_jwt_rs256).1 e))

machine_file_is_signed :
    verify_machine_file_signature coding scheme_ed25519_sign
      (ed25519 a_key)
      (sealed_enc write write_cert nonce (tag ++ text))
      a_signature
    ≡ ok true
unfolding verify_machine_file_signature verify_ed25519 ◌==◌ write
machine_file_is_signed = refl

abbrev a_machine_pem : Bytes
a_machine_pem = machine_pem write write_cert (codes "ed25519") nonce (tag ++ text) a_signature

abbrev a_machine_path : Bytes
a_machine_path =
    machine_file_path steady (delivering a_machine_pem) coding a_client (pos 60) (codes "mac")

check_out_machine-machine_pem_example :
    (f : MachineFile) × (check_out_machine steady
        (delivering a_machine_pem)
        coding
        a_client
        (pos 60)
        to_machine
        (codes "mac")
        by_post
        []
      ≡ (after_post a_machine_path a_machine_pem, ok f))
    × (Machine.verify coding to_machine f scheme_ed25519_sign
          (ed25519 a_key)
          (codes "key")
          (codes "fp")
        ≡ ok a_machine_payload)
check_out_machine-machine_pem_example =
    check_out_machine-machine_pem coding write write_cert coding-Undoes steady
      (delivering a_machine_pem) a_client (pos 60) (codes "mac") by_post []
      (after_post a_machine_path a_machine_pem) to_machine scheme_ed25519_sign (codes "ed25519")
      (ed25519 a_key) (codes "key") (codes "fp") (codes "key") nonce text (tag ++ text) a_signature
      a_machine_payload (omega arith, omega arith) schemes_differ suffix_is_ed25519 (λ e. cc)
      (λ e. cc) machine_key_is_key text_is_sealed machine_file_is_signed
      (refl, λ n. absurd (n refl)) (omega arith, omega arith)
      (is_brought a_machine_path a_machine_pem)
