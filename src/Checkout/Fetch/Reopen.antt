-- ===== src/Checkout/Fetch/Reopen.antt =====
-- A checked-out license file, and what is left of it when only its text is kept.
use tamga_go.Checkout.License.{
  license_file_pem_header, license_file_pem_footer, LicenseFile, DecodedLicense, parse_license_file,
}
use tamga_go.Base.{ℤ, ◌≡◌, ◌∙◌, inl, inr, refl, sym, ap, subst, ◌++◌, Option, some}
use tamga_go.Text.{Bytes, codes}
use tamga_go.Errors.{Result, ok}
use tamga_go.Errors.Laws
use tamga_go.Errors.Laws.{ok-injective, branch_of}
use tamga_go.Http.{Env, History, get, post}
use tamga_go.Http.Monad.{◌>>=◌, bind, lift, pure}
use tamga_go.Http.Monad.Laws.{bind-eq-ok}
use tamga_go.Client.{Client}
use tamga_go.Client.Decode.{decode_json_api, do_raw_text}
use tamga_go.Resource.{Wire, LicenseFileResource}
use tamga_go.Checkout.{Crypto, parse_cert}
use tamga_go.Checkout.License
use tamga_go.Checkout.Fetch.{
  CheckOutOptions, check_out_license_get, check_out_license_post, check_out_license, file_query,
  file_body, describe_license_file,
}

-- A successful call that parses what a request brought, and then describes it.
pub parsed-described :
    {R F : Type 0} (r : History × Result R) (parse : R → Result F) (describe : R → F → F)
    (h : History) (f : F)
    → bind r (λ x. lift (parse x) >>= λ g. pure (describe x g)) ≡ (h, ok f)
    → (x : R) × (g : F) × (parse x ≡ ok g) × (describe x g ≡ f)
parsed-described r parse describe h f q =
    let (x, _, s) = bind-eq-ok r (λ x. lift (parse x) >>= λ g. pure (describe x g)) h f q in
    let (g, p, t) = bind-eq-ok (lift (parse x) r.0) (λ g. pure (describe x g)) h f s in
    (x, g, ap (λ y. y.1) p, ok-injective (ap (λ y. y.1) t))

pub parsed :
    {F : Type 0} (r : History × Result Bytes) (parse : Bytes → Result F) (h : History) (f : F)
    → bind r (λ x. lift (parse x)) ≡ (h, ok f)
    → (x : Bytes) × (parse x ≡ ok f)
parsed r parse h f q =
    let (x, _, s) = bind-eq-ok r (λ x. lift (parse x)) h f q in (x, ap (λ y. y.1) s)

module _ (crypto : Crypto) (now : ℤ) (unmarshal : Bytes → Option DecodedLicense) where
  -- The text of the file parses, and what it parses to verifies as the file does.
  abbrev pub Reopens : LicenseFile → Type 0
  Reopens f =
      (g : LicenseFile) × (parse_license_file crypto unmarshal now f.pem ≡ ok g)
      × ((pub_key license_key : Bytes)
          → License.verify crypto unmarshal f pub_key license_key
            ≡ License.verify crypto unmarshal g pub_key license_key)

  pub verify-describe_license_file :
      (r : LicenseFileResource) (f : LicenseFile) (pub_key license_key : Bytes)
      → License.verify crypto unmarshal (describe_license_file r f) pub_key license_key
        ≡ License.verify crypto unmarshal f pub_key license_key
  unfolding License.verify
  verify-describe_license_file r f pub_key license_key = refl

  pem-parse_license_file :
      (pem : Bytes) (f : LicenseFile)
      → parse_license_file crypto unmarshal now pem ≡ ok f
      → f.pem ≡ pem
  unfolding parse_license_file
  pem-parse_license_file pem f q =
      let (cert, _, r) =
        Laws.bind-eq-ok (parse_cert crypto license_file_pem_header license_file_pem_footer pem) _ f
          q in
      sym (ap (λ f. f.pem) (ok-injective r))

  parse-again :
      (pem : Bytes) (f : LicenseFile)
      → parse_license_file crypto unmarshal now pem ≡ ok f
      → parse_license_file crypto unmarshal now f.pem ≡ ok f
  parse-again pem f q =
      ap (parse_license_file crypto unmarshal now) (pem-parse_license_file pem f q) ∙ q

  parsed-Reopens :
      (pem : Bytes) (f : LicenseFile)
      → parse_license_file crypto unmarshal now pem ≡ ok f
      → Reopens f
  parsed-Reopens pem f q = (f, parse-again pem f q, λ k l. refl)

  described-Reopens :
      (r : LicenseFileResource) (g : LicenseFile)
      → parse_license_file crypto unmarshal now r.attributes.certificate ≡ ok g
      → Reopens (describe_license_file r g)
  described-Reopens r g q =
      (g, parse-again r.attributes.certificate g q, λ k l. verify-describe_license_file r g k l)

  module _ (env : Env) (wire : Wire) (c : Client) where
    get-Reopens :
        (path : Bytes) (o : CheckOutOptions) (h h' : History) (f : LicenseFile)
        → check_out_license_get env wire crypto c now unmarshal path o h ≡ (h', ok f)
        → Reopens f
    unfolding check_out_license_get
    get-Reopens path o h h' f q =
        let (pem, p) =
          parsed (do_raw_text env c get path (file_query o) h)
            (parse_license_file crypto unmarshal now) h' f q in
        parsed-Reopens pem f p

    post-Reopens :
        (path : Bytes) (o : CheckOutOptions) (h h' : History) (f : LicenseFile)
        → check_out_license_post env wire crypto c now unmarshal path o h ≡ (h', ok f)
        → Reopens f
    unfolding check_out_license_post
    post-Reopens path o h h' f q =
        let (r, g, p, e) =
          parsed-described (decode_json_api env wire.file c post path (some (file_body o)) h)
            (λ r. parse_license_file crypto unmarshal now r.attributes.certificate)
            describe_license_file h' f q in
        subst Reopens e (described-Reopens r g p)

    -- The text of a license file that a check-out handed out is enough to keep: it parses, and the
    -- file that it parses to is accepted under the same keys with the same payload, whether the
    -- file came by GET or by POST.
    pub check_out_license-Reopens :
        (id : Bytes) (o : CheckOutOptions) (h h' : History) (f : LicenseFile)
        → check_out_license env wire crypto c now unmarshal id o h ≡ (h', ok f)
        → Reopens f
    unfolding check_out_license
    check_out_license-Reopens id o h h' f q =
        let path = codes "/licenses/" ++ (env.path_escape id ++ codes "/actions/check-out") in
        elim (branch_of o.use_post (check_out_license_post env wire crypto c now unmarshal path o h)
          (check_out_license_get env wire crypto c now unmarshal path o h) (h', ok f) q) [
            | inl (_, r) ↦ post-Reopens path o h h' f r
            | inr (_, r) ↦ get-Reopens path o h h' f r
          ]
