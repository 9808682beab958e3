-- ===== src/Examples.antt =====
-- Small servers, clients and files that the examples of the theorems run on.
mod Calls
mod Walks
mod Files
mod Scopes
mod Trust
mod Texts
mod Proofs
mod Pages
mod Caches
mod Codec
mod Failures
mod Reopened
mod Policies
mod Downloads
use tamga_go.Base.{
  ℕ, ℤ, pos, Bool, true, false, Option, none, some, List, [], ◌∷◌, ◌++◌, eqb, if◌then◌else◌, length,
}
use tamga_go.Text.{Bytes, codes, ◌==◌}
use tamga_go.Json.{Json}
use tamga_go.Checkout.{Crypto}
use tamga_go.Http.{Env, Response, Body, Url, Request, HttpClient, History, WireError, get}
use tamga_go.Client.{Client, bearer}
use tamga_go.Client.Laws.Rounds.{requests}
use tamga_go.Machine.{CreateMachineOptions}
use tamga_go.Machine.Read.{MachinePage}
use tamga_go.Resource.{
  License, LicenseAttributes, Machine, MachineAttributes, ValidationMeta, PageMeta, Wire,
  SigningKey, SigningKeyAttributes, LicenseFileClaims, CertPayload,
}

abbrev pub a_license : License
a_license = record {
  id = codes "lic";
  kind = codes "licenses";
  attributes = record {
    max_machines = none;
    key = none;
    last_check_in_at = none;
    expiry = none;
    last_check_out_at = none;
    name = none;
    last_validated_at = none;
    scheme = none;
    max_users = none;
    updated = [];
    created = [];
    status = [];
    metadata = [];
    machines_count = pos 0;
    protected = false;
    floating = false;
    strict = true;
    encrypted = false;
    suspended = false;
  };
}

abbrev pub machine_with : Bytes → Machine
machine_with fp = record {
  id = codes "m1";
  kind = codes "machines";
  attributes = record {
    platform = none;
    next_heartbeat_at = none;
    memory = none;
    disk = none;
    ip = none;
    hostname = none;
    cores = none;
    last_check_out_at = none;
    name = none;
    last_heartbeat_at = none;
    fingerprint = fp;
    heartbeat_status = [];
    created = [];
    updated = [];
    metadata = [];
  };
}

abbrev pub verdict_of : Bytes → ValidationMeta
verdict_of code = record { ts = pos 0; detail = []; code = code; valid = false }

-- A server's decoders: every validation ends in `code`, and `machines` are on page 1 of `pages`.
abbrev pub wire_of : Bytes → ℕ → List Machine → Wire
wire_of code pages machines = record {
  machine = λ b. some (machine_with (codes "fp"));
  machines = λ b.
      some (
        machines,
        record { number = pos 1; size = pos 10; total = pos 1; total_pages = pos pages },
      );
  validation = λ b. some (a_license, verdict_of code);
  verdict = λ b. some (verdict_of code);
  license = λ b. some a_license;
  component = λ b. none;
  components = λ b. none;
  process = λ b. none;
  processes = λ b. none;
  policy = λ b. none;
  entitlement = λ b. none;
  entitlements = λ b. none;
  artifact = λ b. none;
  artifacts = λ b. none;
  release = λ b. none;
  signing_keys = λ b. none;
  file = λ b. none;
  proof = λ b. none;
  health = λ b. none;
}

abbrev answer : ℕ → Response
answer status = record {
  status = status;
  header = λ k. [];
  body = record { bytes = codes "{}"; broken = false };
}

abbrev pub taken_error : WireError
taken_error = record {
  source = none;
  meta = [];
  id = [];
  code = codes "FINGERPRINT_TAKEN";
  title = [];
  detail = [];
  status = [];
}

-- The server answers the first request of a history with `first`, and all others with 200.
abbrev pub env_of : ℕ → Env
env_of first = record {
  exchange = λ h. some (if eqb (length (requests h)) 1 then answer first else answer 200);
  cancelled = λ h. false;
  jitter = λ h. 0;
  clock = λ h. 0;
  marshal = λ v. some (codes "{}");
  unmarshal_errors = λ b. some (taken_error ∷ []);
  unmarshal_string = λ b. none;
  unmarshal_number = λ b. none;
  parse_url = λ u. some (record {
    scheme = codes "https";
    host = codes "api.tamga.sh";
    path = codes "/v1/x";
    raw_query = [];
  });
  path_escape = λ s. s;
  encode_query = λ q. [];
  parse_query = λ q. [];
  encode_base64 = λ s. s;
  decode_base64 = λ s. some s;
}

-- The server that always answers with 200.
abbrev pub steady : Env
steady = record (env_of 200) { exchange = λ h. some (answer 200) }

abbrev pub page_of : ℕ → List Machine → MachinePage
page_of pages machines = record {
  items = machines;
  page = record { number = pos 1; size = pos 10; total = pos 1; total_pages = pos pages };
}

abbrev pub a_client : Client
a_client = record {
  auth = bearer (codes "token");
  settings = record {
    account_id = codes "acct";
    base_url = codes "https://api.tamga.sh";
    http_client = record { transport = 0; follows = true };
    api_version = codes "1.8";
    otp = [];
    max_retries = 3;
  };
}

abbrev pub a_request : Request
a_request = record {
  method = get;
  url = record { scheme = codes "https"; host = []; path = codes "/v1/x"; raw_query = [] };
  headers = [];
  cookies = [];
  body = none;
}

abbrev pub some_options : CreateMachineOptions
some_options = record {
  name = none;
  ip = none;
  hostname = none;
  platform = none;
  cores = none;
  memory = none;
  disk = none;
  metadata = none;
  fingerprint = codes "fp";
  license_id = codes "lic";
}

-- A signature is the key that made it; base64 is the identity.
abbrev pub toy : Crypto
toy = record {
  ed25519_verify = λ k m s. s == k;
  rsa_verify_pkcs1v15 = λ k m s. s == k;
  rsa_verify_pss = λ k m s. false;
  ecdsa_verify_asn1 = λ k m s. false;
  sha256 = λ s. s;
  hkdf = λ k s i. some k;
  gcm_open = λ k n s. some s;
  gcm_seal = λ k n s. s;
  decode_base64 = λ s. some s;
  unmarshal_cert = λ s. none;
}
