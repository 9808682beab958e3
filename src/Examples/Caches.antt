-- ===== src/Examples/Caches.antt =====
-- A license whose one entitlement is cached.
use tamga_go.Base.{true, none, some, [], ◌∷◌, ◌≡◌, refl, arith}
use tamga_go.Text.{codes, ◌==◌}
use tamga_go.Errors.{ok}
use tamga_go.Resource.{Entitlement, Wire}
use tamga_go.Entitlement.Cache.{
  CacheEntry, store, holds, invalidate_entitlement_cache, fetch, answer, has_entitlement,
}
use tamga_go.Entitlement.Cache.System.{World, start, Reach, here}
use tamga_go.Entitlement.Cache.Answers.{Answers, after, has_entitlement-Answers}
use tamga_go.Entitlement.Cache.Races.{invalidate_in_flight}
use tamga_go.Examples.{steady, wire_of, a_client}

abbrev an_entitlement : Entitlement
an_entitlement = record {
  id = codes "e1";
  kind = codes "entitlements";
  attributes = record {
    inherited = none;
    max_value = none;
    current_value = none;
    name = [];
    code = codes "pro";
    kind = [];
    created = [];
    updated = [];
    metadata = [];
  };
}

abbrev one_entitlement : Wire
one_entitlement = record (wire_of [] 1 []) { entitlements = λ b. some (an_entitlement ∷ []) }

abbrev empty : World
empty = start []

abbrev stale : CacheEntry
stale = record { codes = codes "pro" ∷ []; fetched_at = 0 }

pro_is_held :
    (has_entitlement steady one_entitlement a_client (codes "lic") (codes "pro") [] []).1.1
    ≡ ok true
unfolding has_entitlement fetch answer store holds ◌==◌
pro_is_held = refl

has_entitlement-Answers_example :
    Answers steady one_entitlement a_client
      (codes "lic")
      (codes "pro")
      (has_entitlement steady one_entitlement a_client (codes "lic") (codes "pro") [] []).0
      true
    × Reach steady one_entitlement a_client empty (
        after steady one_entitlement a_client empty
          (has_entitlement steady one_entitlement a_client (codes "lic") (codes "pro") [] []))
has_entitlement-Answers_example =
    has_entitlement-Answers steady one_entitlement a_client [] empty (codes "lic") (codes "pro")
      true here pro_is_held

invalidate_in_flight_example :
    (has_entitlement steady one_entitlement a_client
        (codes "lic")
        (codes "pro")
        (invalidate_entitlement_cache (codes "lic") [])
        []
      ≡ answer steady one_entitlement a_client
          (codes "lic")
          (codes "pro")
          (invalidate_entitlement_cache (codes "lic") [])
          (fetch steady one_entitlement a_client (codes "lic") []))
    × (has_entitlement steady one_entitlement a_client
          (codes "lic")
          (codes "pro")
          (store (codes "lic") stale (invalidate_entitlement_cache (codes "lic") []))
          []
        ≡ (
          [],
          (
            store (codes "lic") stale (invalidate_entitlement_cache (codes "lic") []),
            ok (holds (codes "pro") stale.codes),
          ),
        ))
invalidate_in_flight_example =
    invalidate_in_flight steady one_entitlement a_client (codes "lic") (codes "pro") [] [] stale
      (omega arith)
