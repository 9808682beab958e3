-- ===== src/Checkout/Fetch/Delivered.antt =====
-- From what a server answers to the file that a check-out hands out.
use tamga_go.Base.{ℤ, ◌≡◌, ◌⊎◌, ◌∙◌, inl, inr, refl, ap, true, false, ◌++◌, Option, some}
use tamga_go.Text.{Bytes, codes}
use tamga_go.Errors.{Result, ok}
use tamga_go.Http.{Env, History, get, post}
use tamga_go.Http.Monad.{◌>>=◌, bind, lift, pure}
use tamga_go.Client.{Client}
use tamga_go.Client.Decode.{decode_json_api, do_raw_text}
use tamga_go.Resource.{Wire, LicenseFileResource}
use tamga_go.Checkout.{Crypto, PublicKey}
use tamga_go.Checkout.License
use tamga_go.Checkout.License.{LicenseFile, DecodedLicense, parse_license_file}
use tamga_go.Checkout.Machine
use tamga_go.Checkout.Machine.{MachineFile, DecodedMachine, parse_machine_file}
use tamga_go.Checkout.Fetch.{
  CheckOutOptions, check_out_license_get, check_out_license_post, check_out_license,
  check_out_machine_get, check_out_machine_post, check_out_machine, check_ttl_given, file_query,
  file_body, describe_license_file, describe_machine_file,
}
use tamga_go.Checkout.Fetch.Reopen.{verify-describe_license_file}
use tamga_go.Checkout.Fetch.Machines.{verify-describe_machine_file}
use tamga_go.Checkout.Fetch.Ttl.{IsTtl, given-cases}

described-of_parsed :
    {R F : Type 0} (r : History × Result R) (parse : R → Result F) (describe : R → F → F)
    (h : History) (x : R) (f : F)
    → r ≡ (h, ok x)
    → parse x ≡ ok f
    → bind r (λ x. lift (parse x) >>= λ g. pure (describe x g)) ≡ (h, ok (describe x f))
described-of_parsed r parse describe h x f q p = rw (q, p) refl

module _ (env : Env) (wire : Wire) (crypto : Crypto) (c : Client) (now : ℤ) where
  -- The server answers with the text: in a resource to a POST, as it is to a GET.
  abbrev pub Brings : Bytes → CheckOutOptions → History → History → Bytes → Type 0
  Brings path o h h' pem =
      ((o.use_post ≡ true)
        × ((r : LicenseFileResource) × (decode_json_api env wire.file c post path
                (some (file_body o)) h
              ≡ (h', ok r))
            × (r.attributes.certificate ≡ pem)))
      ⊎ ((o.use_post ≡ false) × (do_raw_text env c get path (file_query o) h ≡ (h', ok pem)))

  abbrev pub license_file_path : Bytes → Bytes
  license_file_path id = codes "/licenses/" ++ (env.path_escape id ++ codes "/actions/check-out")

  abbrev pub machine_file_path : Bytes → Bytes
  machine_file_path id = codes "/machines/" ++ (env.path_escape id ++ codes "/actions/check-out")

  module _ (unmarshal : Bytes → Option DecodedLicense) where
    license_post-of_brought :
        (path pem : Bytes) (o : CheckOutOptions) (h h' : History) (r : LicenseFileResource)
        (g : LicenseFile)
        → decode_json_api env wire.file c post path (some (file_body o)) h ≡ (h', ok r)
        → r.attributes.certificate ≡ pem
        → parse_license_file crypto unmarshal now pem ≡ ok g
        → check_out_license_post env wire crypto c now unmarshal path o h
          ≡ (h', ok (describe_license_file r g))
    unfolding check_out_license_post
    license_post-of_brought path pem o h h' r g q e p =
        described-of_parsed (decode_json_api env wire.file c post path (some (file_body o)) h)
          (λ r. parse_license_file crypto unmarshal now r.attributes.certificate)
          describe_license_file h' r g q (ap (parse_license_file crypto unmarshal now) e ∙ p)

    license_get-of_brought :
        (path pem : Bytes) (o : CheckOutOptions) (h h' : History) (g : LicenseFile)
        → do_raw_text env c get path (file_query o) h ≡ (h', ok pem)
        → parse_license_file crypto unmarshal now pem ≡ ok g
        → check_out_license_get env wire crypto c now unmarshal path o h ≡ (h', ok g)
    unfolding check_out_license_get
    license_get-of_brought path pem o h h' g q p = rw (q, p) refl

    -- A license file that the server brings and that parses is handed out, and verifies as parsed.
    pub check_out_license-of_brought :
        (id pem : Bytes) (o : CheckOutOptions) (h h' : History) (g : LicenseFile)
        → Brings (license_file_path id) o h h' pem
        → parse_license_file crypto unmarshal now pem ≡ ok g
        → (f : LicenseFile) × (check_out_license env wire crypto c now unmarshal id o h
            ≡ (h', ok f))
          × ((pub_key license_key : Bytes)
              → License.verify crypto unmarshal f pub_key license_key
                ≡ License.verify crypto unmarshal g pub_key license_key)
    unfolding check_out_license
    check_out_license-of_brought id pem o h h' g (inl (t, (r, q, e))) p = (
      describe_license_file r g,
      rw t (license_post-of_brought (license_file_path id) pem o h h' r g q e p),
      verify-describe_license_file crypto now unmarshal r g,
    )
    check_out_license-of_brought id pem o h h' g (inr (n, q)) p =
        (g, rw n (license_get-of_brought (license_file_path id) pem o h h' g q p), λ k l. refl)

  module _ (unmarshal : Bytes → Option DecodedMachine) where
    machine_post-of_brought :
        (path pem : Bytes) (o : CheckOutOptions) (h h' : History) (r : LicenseFileResource)
        (g : MachineFile)
        → decode_json_api env wire.file c post path (some (file_body o)) h ≡ (h', ok r)
        → r.attributes.certificate ≡ pem
        → parse_machine_file crypto unmarshal now pem ≡ ok g
        → check_out_machine_post env wire crypto c now unmarshal path o h
          ≡ (h', ok (describe_machine_file r g))
    unfolding check_out_machine_post
    machine_post-of_brought path pem o h h' r g q e p =
        described-of_parsed (decode_json_api env wire.file c post path (some (file_body o)) h)
          (λ r. parse_machine_file crypto unmarshal now r.attributes.certificate)
          describe_machine_file h' r g q (ap (parse_machine_file crypto unmarshal now) e ∙ p)

    machine_get-of_brought :
        (path pem : Bytes) (o : CheckOutOptions) (h h' : History) (g : MachineFile)
        → do_raw_text env c get path (file_query o) h ≡ (h', ok pem)
        → parse_machine_file crypto unmarshal now pem ≡ ok g
        → check_out_machine_get env wire crypto c now unmarshal path o h ≡ (h', ok g)
    unfolding check_out_machine_get
    machine_get-of_brought path pem o h h' g q p = rw (q, p) refl

    check_ttl_given-IsTtl :
        (ttl : Option ℤ) → IsTtl ttl → check_ttl_given env wire crypto c now unmarshal ttl ≡ ok tt
    check_ttl_given-IsTtl ttl is_ttl = elim (given-cases env wire crypto c now unmarshal ttl) [
      | inl (v, _) ↦ v
      | inr (_, n) ↦ absurd (n is_ttl)
    ]

    -- Likewise a machine file, if the time to live that it was asked for is one that is allowed.
    pub check_out_machine-of_brought :
        (id pem : Bytes) (o : CheckOutOptions) (h h' : History) (g : MachineFile)
        → IsTtl o.ttl
        → Brings (machine_file_path id) o h h' pem
        → parse_machine_file crypto unmarshal now pem ≡ ok g
        → (f : MachineFile) × (check_out_machine env wire crypto c now unmarshal id o h
            ≡ (h', ok f))
          × ((scheme : Bytes) (key : PublicKey) (license_key fingerprint : Bytes)
              → Machine.verify crypto unmarshal f scheme key license_key fingerprint
                ≡ Machine.verify crypto unmarshal g scheme key license_key fingerprint)
    unfolding check_out_machine
    check_out_machine-of_brought id pem o h h' g ttl (inl (t, (r, q, e))) p = (
      describe_machine_file r g,
      rw (check_ttl_given-IsTtl o.ttl ttl, t)
          (machine_post-of_brought (machine_file_path id) pem o h h' r g q e p),
      verify-describe_machine_file crypto now unmarshal r g,
    )
    check_out_machine-of_brought id pem o h h' g ttl (inr (n, q)) p = (
      g,
      rw (check_ttl_given-IsTtl o.ttl ttl, n)
          (machine_get-of_brought (machine_file_path id) pem o h h' g q p),
      λ s k l f. refl,
    )
