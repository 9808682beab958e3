-- ===== src/Entitlement.antt =====
-- entitlement.go: the entitlements of a license, and their meters.
pub mod Cache
use tamga_go.Base.{ℤ, pos, Option, none, some, List, [], ◌∷◌, ◌++◌}
use tamga_go.Text.{Bytes, codes}
use tamga_go.Text.Decimal.{itoa}
use tamga_go.Json.{Json, object, int}
use tamga_go.Http.{Env, Values, get, post}
use tamga_go.Http.Monad.{M, bind, pure}
use tamga_go.Client.{Client}
use tamga_go.Client.Decode.{decode_json_api}
use tamga_go.Resource.{Entitlement, Wire}
use tamga_go.License.{license_path}
use tamga_go.Machine.Read.{effective_page_limit}
use tamga_go.Machine.Parts.{ListOptions, Page}

abbrev pub server_max_page_limit : ℤ
server_max_page_limit = pos 100

module _ (env : Env) (wire : Wire) (c : Client) where
  open env use {encode_query, path_escape}

  abbrev pub entitlements_query : ListOptions → Values
  entitlements_query opts = (codes "limit", itoa (effective_page_limit opts.limit)) ∷ []

  -- ListEntitlements, which sends no cursor and returns none.
  unfoldable pub list_entitlements : Bytes → ListOptions → M (Page Entitlement)
  unfolding decode_json_api effective_page_limit itoa
  list_entitlements license_id opts h =
      bind
        (decode_json_api env wire.entitlements c get
          (license_path env wire c license_id
            (codes "/entitlements?" ++ encode_query (entitlements_query opts)))
          none h)
        (λ items. pure (record { next_cursor = none; items = items }))

  abbrev pub entitlement_path : Bytes → Bytes → Bytes → Bytes
  entitlement_path license_id entitlement_id tail =
      license_path env wire c license_id
        (codes "/entitlements/" ++ (path_escape entitlement_id ++ tail))

  -- GetEntitlement
  unfoldable pub get_entitlement : Bytes → Bytes → M Entitlement
  unfolding decode_json_api
  get_entitlement license_id entitlement_id =
      decode_json_api env wire.entitlement c get (entitlement_path license_id entitlement_id [])
        none

  -- The body is sent only with an amount.
  abbrev amount : Bytes → Option ℤ → Option Json
  amount key none = none
  amount key (some n) = some (object ((key, int n) ∷ []))

  -- IncrementEntitlementUsage
  unfoldable pub increment_entitlement_usage : Bytes → Bytes → Option ℤ → M Entitlement
  unfolding decode_json_api
  increment_entitlement_usage license_id entitlement_id increment =
      decode_json_api env wire.entitlement c post
        (entitlement_path license_id entitlement_id (codes "/actions/increment"))
        (amount (codes "increment") increment)

  -- DecrementEntitlementUsage
  unfoldable pub decrement_entitlement_usage : Bytes → Bytes → Option ℤ → M Entitlement
  unfolding decode_json_api
  decrement_entitlement_usage license_id entitlement_id decrement =
      decode_json_api env wire.entitlement c post
        (entitlement_path license_id entitlement_id (codes "/actions/decrement"))
        (amount (codes "decrement") decrement)

  -- ResetEntitlementUsage
  unfoldable pub reset_entitlement_usage : Bytes → Bytes → M Entitlement
  unfolding decode_json_api
  reset_entitlement_usage license_id entitlement_id =
      decode_json_api env wire.entitlement c post
        (entitlement_path license_id entitlement_id (codes "/actions/reset")) none
