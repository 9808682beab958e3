-- ===== src/Examples/Reopened.antt =====
-- A license file and a machine file that are checked out and opened again.
use tamga_go.Base.{pos, none, some, [], ◌≡◌, refl, true, false}
use tamga_go.Text.{Bytes, codes, ◌==◌, trim_space, cut_prefix, cut_suffix}
use tamga_go.Errors.{Result, ok}
use tamga_go.Http.{History}
use tamga_go.Resource.{LicenseFileResource, Wire}
use tamga_go.Checkout.{Crypto, parse_cert, strip_pem}
use tamga_go.Checkout.License.{LicenseFile, parse_license_file}
use tamga_go.Checkout.Fetch.{
  CheckOutOptions, check_out_license, check_out_license_post, check_out_machine,
  check_out_machine_post,
}
use tamga_go.Checkout.Machine.{MachineFile, parse_machine_file, check_ttl}
use tamga_go.Checkout.Fetch.Machines
use tamga_go.Checkout.Fetch.Machines.{check_out_machine-Reopens}
use tamga_go.Checkout.Fetch.Reopen.{Reopens, check_out_license-Reopens}
use tamga_go.Examples.{steady, wire_of, a_client, toy}

-- A file that a check-out by POST brings; its certificate is the two lines around a text.
abbrev a_text : Bytes
a_text = codes "-----BEGIN LICENSE FILE-----e-----END LICENSE FILE-----"

abbrev a_resource : LicenseFileResource
a_resource = record {
  id = codes "f1";
  kind = codes "license-files";
  attributes = record {
    ttl = some (pos 3600);
    expiry = none;
    certificate = a_text;
    algorithm = [];
    issued = codes "today";
    includes = [];
  };
}

abbrev one_file : Wire
one_file = record (wire_of [] 1 []) { file = λ b. some a_resource }

abbrev reading : Crypto
reading = record toy {
  unmarshal_cert = λ s. some (record { enc = codes "e"; sig = codes "s"; alg = codes "a" });
}

abbrev by_post : CheckOutOptions
by_post = record { ttl = some (pos 3600); encrypt = false; use_post = true }

abbrev a_file : LicenseFile
a_file = record {
  ttl = some (pos 3600);
  expiry = none;
  now = pos 0;
  enc = codes "e";
  sig = codes "s";
  alg = codes "a";
  pem = a_text;
  id = codes "f1";
  issued = codes "today";
  includes = [];
}

file_is_checked_out :
    check_out_license steady one_file reading a_client (pos 0) (λ s. none) (codes "lic") by_post []
    ≡ (
      (check_out_license steady one_file reading a_client
          (pos 0)
          (λ s. none)
          (codes "lic")
          by_post
          []).0,
      ok a_file,
    )
unfolding check_out_license check_out_license_post parse_license_file parse_cert strip_pem
    trim_space cut_prefix cut_suffix ◌==◌
file_is_checked_out = refl

check_out_license-Reopens_example : Reopens reading (pos 0) (λ s. none) a_file
check_out_license-Reopens_example =
    check_out_license-Reopens reading (pos 0) (λ s. none) steady one_file a_client (codes "lic")
      by_post []
      (check_out_license steady one_file reading a_client (pos 0) (λ s. none) (codes "lic") by_post
        []).0
      a_file file_is_checked_out

abbrev a_machine_text : Bytes
a_machine_text = codes "-----BEGIN MACHINE FILE-----e-----END MACHINE FILE-----"

abbrev one_machine_file : Wire
one_machine_file = record (wire_of [] 1 []) {
  file = λ b. some (record a_resource {
    attributes = record a_resource.attributes { certificate = a_machine_text };
  });
}

abbrev a_machine_file : MachineFile
a_machine_file = record {
  enc = codes "e";
  sig = codes "s";
  alg = codes "a";
  pem = a_machine_text;
  now = pos 0;
  id = codes "f1";
  ttl = some (pos 3600);
  expiry = none;
  issued = codes "today";
  includes = [];
}

abbrev checked_out : History × Result MachineFile
checked_out =
    check_out_machine steady one_machine_file reading a_client (pos 0) (λ s. none) (codes "mac")
      by_post []

machine_file_is_checked_out : checked_out ≡ (checked_out.0, ok a_machine_file)
unfolding check_out_machine check_out_machine_post parse_machine_file parse_cert strip_pem check_ttl
    trim_space cut_prefix cut_suffix ◌==◌
machine_file_is_checked_out = refl

check_out_machine-Reopens_example : Machines.Reopens reading (pos 0) (λ s. none) a_machine_file
check_out_machine-Reopens_example =
    check_out_machine-Reopens reading (pos 0) (λ s. none) steady one_machine_file a_client
      (codes "mac") by_post [] checked_out.0 a_machine_file machine_file_is_checked_out
