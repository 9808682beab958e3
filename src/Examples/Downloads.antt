-- ===== src/Examples/Downloads.antt =====
-- A download, a check for an upgrade, a probe, and a machine file asked for with a bad lifetime.
use tamga_go.Base.{Option, pos, none, some, [], ◌≡◌, true, false}
use tamga_go.Text.{codes}
use tamga_go.Errors.{GoError, ok, err, err_ttl_invalid}
use tamga_go.Errors.Matching.{is_api}
use tamga_go.Http.{Request, Response, History, is_success}
use tamga_go.Client.{license_key}
use tamga_go.Client.Retry.{do_request}
use tamga_go.Client.Laws.Adding.{Adds}
use tamga_go.Resource.{Artifact, Release, Wire}
use tamga_go.Artifact.{DownloadArtifactOptions, download_artifact}
use tamga_go.Artifact.Download.{IsGuarded, download_artifact-Adds}
use tamga_go.Release.{UpgradeOptions, check_upgrade}
use tamga_go.Release.Upgrade.{IsComplete, Says, check_upgrade-Says}
use tamga_go.Health.{health}
use tamga_go.Health.Anonymous.{IsAnonymous, health-IsAnonymous}
use tamga_go.Checkout.Machine.{MachineFile}
use tamga_go.Checkout.Fetch.{CheckOutOptions, check_out_machine}
use tamga_go.Checkout.Fetch.Ttl.{IsTtl, check_out_machine-IsTtl}
use tamga_go.Examples.{steady, wire_of, a_client, toy}

abbrev an_artifact : Artifact
an_artifact = record {
  id = codes "a1";
  kind = codes "artifacts";
  attributes = record {
    filetype = none;
    filesize = none;
    checksum = none;
    platform = none;
    arch = none;
    signature = none;
    redirect_url = some (codes "https://storage");
    filename = [];
    status = [];
    created = [];
    updated = [];
    metadata = [];
  };
}

abbrev one_artifact : Wire
one_artifact = record (wire_of [] 1 []) { artifact = λ b. some an_artifact }

abbrev a_day : DownloadArtifactOptions
a_day = record { ttl = pos 86400000000000 }

download_artifact-Adds_example :
    Adds IsGuarded [] (download_artifact steady one_artifact a_client (codes "a1") a_day []).0
download_artifact-Adds_example =
    download_artifact-Adds steady one_artifact a_client (codes "a1") a_day []

abbrev no_platform : UpgradeOptions
no_platform = record {
  product_id = codes "p";
  platform = [];
  filetype = codes "zip";
  version = codes "1.0";
  channel = [];
  constraint = [];
}

check_upgrade-Says_example :
    (¬ IsComplete no_platform
      → (e : GoError) × (check_upgrade steady (wire_of [] 1 []) a_client no_platform []
          ≡ ([], err e)))
    × ((h' : History) (r : Option Release)
        → check_upgrade steady (wire_of [] 1 []) a_client no_platform [] ≡ (h', ok r)
        → IsComplete no_platform
          × ((req : Request) × (resp : Response) × (do_request steady a_client req []
                ≡ (h', ok resp))
              × (is_success resp.status ≡ true)
              × Says (wire_of [] 1 []) resp r))
check_upgrade-Says_example = check_upgrade-Says steady (wire_of [] 1 []) a_client no_platform []

health-IsAnonymous_example :
    Adds (IsAnonymous a_client) [] (health steady (wire_of [] 1 []) a_client []).0
    × (health steady
          (wire_of [] 1 [])
          (record {
            auth = license_key (codes "k");
            settings = record a_client.settings { otp = codes "1" };
          })
          []
        ≡ health steady (wire_of [] 1 []) a_client [])
health-IsAnonymous_example =
    health-IsAnonymous steady (wire_of [] 1 []) a_client (license_key (codes "k")) (codes "1") []

abbrev for_ever : CheckOutOptions
for_ever = record { ttl = some (pos 31536001); encrypt = false; use_post = false }

check_out_machine-IsTtl_example :
    (¬ IsTtl for_ever.ttl
      → (e : GoError) × (check_out_machine steady
            (wire_of [] 1 [])
            toy
            a_client
            (pos 0)
            (λ s. none)
            (codes "m1")
            for_ever
            []
          ≡ ([], err e))
        × (is_api err_ttl_invalid e ≡ true))
    × ((h' : History) (f : MachineFile)
        → check_out_machine steady
            (wire_of [] 1 [])
            toy
            a_client
            (pos 0)
            (λ s. none)
            (codes "m1")
            for_ever
            []
          ≡ (h', ok f)
        → IsTtl for_ever.ttl)
check_out_machine-IsTtl_example =
    check_out_machine-IsTtl steady (wire_of [] 1 []) toy a_client (pos 0) (λ s. none) (codes "m1")
      for_ever []
