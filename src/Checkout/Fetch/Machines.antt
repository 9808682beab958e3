-- ===== src/Checkout/Fetch/Machines.antt =====
-- A checked-out machine file, and what is left of it when only its text is kept.
use tamga_go.Checkout.Machine.{
  machine_file_pem_header, machine_file_pem_footer, MachineFile, DecodedMachine, parse_machine_file,
}
use tamga_go.Base.{
  ◌⊎◌, Bool, true, false, ℤ, if◌then◌else◌, ◌≡◌, ◌∙◌, inl, inr, refl, sym, ap, subst, ◌++◌, Option,
  some,
}
use tamga_go.Checkout.Fetch.{
  M, CheckOutOptions, check_out_machine_get, check_out_machine_post, check_out_machine, file_query,
  file_body, describe_machine_file, check_ttl_given,
}
use tamga_go.Text.{Bytes, codes}
use tamga_go.Errors.{Result, ok}
use tamga_go.Errors.Laws
use tamga_go.Errors.Laws.{ok-injective, branch_of}
use tamga_go.Http.{Env, History, get, post}
use tamga_go.Http.Monad.{lift}
use tamga_go.Http.Monad.Laws.{bind-eq-ok}
use tamga_go.Client.{Client}
use tamga_go.Client.Decode.{decode_json_api, do_raw_text}
use tamga_go.Resource.{Wire, LicenseFileResource}
use tamga_go.Checkout.{Crypto, PublicKey, parse_cert}
use tamga_go.Checkout.Machine
use tamga_go.Checkout.Fetch.Reopen.{parsed, parsed-described}

call_of :
    {F : Type 0} (b : Bool) (r s : M F) (h : History) (y : History × Result F)
    → (if b then r else s) h ≡ y
    → (r h ≡ y) ⊎ (s h ≡ y)
call_of true r s h y q = inl q
call_of false r s h y q = inr q

module _ (crypto : Crypto) (now : ℤ) (unmarshal : Bytes → Option DecodedMachine) where
  -- The text of the file parses, and what it parses to verifies as the file does.
  abbrev pub Reopens : MachineFile → Type 0
  Reopens f =
      (g : MachineFile) × (parse_machine_file crypto unmarshal now f.pem ≡ ok g)
      × ((scheme : Bytes) (key : PublicKey) (license_key fingerprint : Bytes)
          → Machine.verify crypto unmarshal f scheme key license_key fingerprint
            ≡ Machine.verify crypto unmarshal g scheme key license_key fingerprint)

  pub verify-describe_machine_file :
      (r : LicenseFileResource) (f : MachineFile) (scheme : Bytes) (key : PublicKey)
      (license_key fingerprint : Bytes)
      → Machine.verify crypto unmarshal
          (describe_machine_file r f)
          scheme
          key
          license_key
          fingerprint
        ≡ Machine.verify crypto unmarshal f scheme key license_key fingerprint
  unfolding Machine.verify
  verify-describe_machine_file r f scheme key license_key fingerprint = refl

  pem-parse_machine_file :
      (pem : Bytes) (f : MachineFile)
      → parse_machine_file crypto unmarshal now pem ≡ ok f
      → f.pem ≡ pem
  unfolding parse_machine_file
  pem-parse_machine_file pem f q =
      let (cert, _, r) =
        Laws.bind-eq-ok (parse_cert crypto machine_file_pem_header machine_file_pem_footer pem) _ f
          q in
      sym (ap (λ f. f.pem) (ok-injective r))

  parse-again :
      (pem : Bytes) (f : MachineFile)
      → parse_machine_file crypto unmarshal now pem ≡ ok f
      → parse_machine_file crypto unmarshal now f.pem ≡ ok f
  parse-again pem f q =
      ap (parse_machine_file crypto unmarshal now) (pem-parse_machine_file pem f q) ∙ q

  parsed-Reopens :
      (pem : Bytes) (f : MachineFile)
      → parse_machine_file crypto unmarshal now pem ≡ ok f
      → Reopens f
  parsed-Reopens pem f q = (f, parse-again pem f q, λ s k l p. refl)

  described-Reopens :
      (r : LicenseFileResource) (g : MachineFile)
      → parse_machine_file crypto unmarshal now r.attributes.certificate ≡ ok g
      → Reopens (describe_machine_file r g)
  described-Reopens r g q =
      (g, parse-again r.attributes.certificate g q, verify-describe_machine_file r g)

  module _ (env : Env) (wire : Wire) (c : Client) where
    get-Reopens :
        (path : Bytes) (o : CheckOutOptions) (h h' : History) (f : MachineFile)
        → check_out_machine_get env wire crypto c now unmarshal path o h ≡ (h', ok f)
        → Reopens f
    unfolding check_out_machine_get
    get-Reopens path o h h' f q =
        let (pem, p) =
          parsed (do_raw_text env c get path (file_query o) h)
            (parse_machine_file crypto unmarshal now) h' f q in
        parsed-Reopens pem f p

    post-Reopens :
        (path : Bytes) (o : CheckOutOptions) (h h' : History) (f : MachineFile)
        → check_out_machine_post env wire crypto c now unmarshal path o h ≡ (h', ok f)
        → Reopens f
    unfolding check_out_machine_post
    post-Reopens path o h h' f q =
        let (r, g, p, e) =
          parsed-described (decode_json_api env wire.file c post path (some (file_body o)) h)
            (λ r. parse_machine_file crypto unmarshal now r.attributes.certificate)
            describe_machine_file h' f q in
        subst Reopens e (described-Reopens r g p)

    fetch-Reopens :
        (path : Bytes) (o : CheckOutOptions) (h h' : History) (f : MachineFile)
        → (if o.use_post
              then check_out_machine_post env wire crypto c now unmarshal path o
              else check_out_machine_get env wire crypto c now unmarshal path o)
            h
          ≡ (h', ok f)
        → Reopens f
    fetch-Reopens path o h h' f q =
        elim (call_of o.use_post (check_out_machine_post env wire crypto c now unmarshal path o)
          (check_out_machine_get env wire crypto c now unmarshal path o) h (h', ok f) q) [
            | inl r ↦ post-Reopens path o h h' f r
            | inr r ↦ get-Reopens path o h h' f r
          ]

    -- The text of a machine file that a check-out handed out is enough to keep: it parses, and the
    -- file that it parses to verifies as the one handed out, under every scheme, key, license key
    -- and fingerprint, whether the file came by GET or by POST.
    pub check_out_machine-Reopens :
        (id : Bytes) (o : CheckOutOptions) (h h' : History) (f : MachineFile)
        → check_out_machine env wire crypto c now unmarshal id o h ≡ (h', ok f)
        → Reopens f
    unfolding check_out_machine
    check_out_machine-Reopens id o h h' f q =
        let (u, _, s) =
          bind-eq-ok (lift (check_ttl_given env wire crypto c now unmarshal o.ttl) h)
            (λ valid.
              let path = codes "/machines/" ++ (env.path_escape id ++ codes "/actions/check-out") in
              if o.use_post
              then check_out_machine_post env wire crypto c now unmarshal path o
              else check_out_machine_get env wire crypto c now unmarshal path o)
            h' f q in
        fetch-Reopens (codes "/machines/" ++ (env.path_escape id ++ codes "/actions/check-out")) o h
          h' f s
