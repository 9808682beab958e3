-- ===== src/Entitlement/Cache.antt =====
-- entitlement.go: the cache behind HasEntitlement. The map is an association list, and the calls
-- that read and write it are split where the source takes the lock, so that calls of several
-- goroutines can be interleaved.
pub mod System
pub mod Races
pub mod Answers
use tamga_go.Base.{
  ℕ, ◌*◌, ◌-◌, Bool, true, false, ◌||◌, Option, none, some, List, [], ◌∷◌, ltb, map, if◌then◌else◌,
}
use tamga_go.Text.{Bytes, ◌==◌}
use tamga_go.Errors.{Result, ok, err}
use tamga_go.Http.{Env, History}
use tamga_go.Client.{Client}
use tamga_go.Client.Retry.{second}
use tamga_go.Resource.{Entitlement, Wire}
use tamga_go.Machine.Parts.{ListOptions, Page}
use tamga_go.Entitlement.{list_entitlements, server_max_page_limit}

-- entitlementCacheTTL, in nanoseconds
abbrev pub entitlement_cache_ttl : ℕ
entitlement_cache_ttl = 60 * second

-- entitlementCacheEntry; the time is in nanoseconds.
pub record CacheEntry : Type 0 where
  pub codes : List Bytes
  pub fetched_at : ℕ

-- entitlementCache.entries
abbrev pub Cache : Type 0
Cache = List (Bytes × CacheEntry)

-- cache.entries[licenseID]
unfoldable pub entry_for : Bytes → Cache → Option CacheEntry
entry_for id [] = none
entry_for id ((k, e) ∷ cache) = if k == id then some e else entry_for id cache

-- delete(cache.entries, licenseID)
unfoldable pub without : Bytes → Cache → Cache
without id [] = []
without id ((k, e) ∷ cache) = if k == id then without id cache else (k, e) ∷ without id cache

-- cache.entries[licenseID] = entry
unfoldable pub store : Bytes → CacheEntry → Cache → Cache
unfolding without
store id e cache = (id, e) ∷ without id cache

-- `ok && time.Since(entry.fetchedAt) < entitlementCacheTTL`
abbrev pub is_fresh : ℕ → Option CacheEntry → Bool
is_fresh now none = false
is_fresh now (some e) = ltb (now - e.fetched_at) entitlement_cache_ttl

-- `_, found := entry.codes[code]`
unfoldable pub holds : Bytes → List Bytes → Bool
holds code [] = false
holds code (x ∷ l) = x == code || holds code l

abbrev pub fetched : ℕ → Page Entitlement → CacheEntry
fetched now page = record { codes = map (λ e. e.attributes.code) page.items; fetched_at = now }

-- InvalidateEntitlementCache
unfoldable pub invalidate_entitlement_cache : Bytes → Cache → Cache
unfolding without
invalidate_entitlement_cache id cache = without id cache

abbrev pub full_page : ListOptions
full_page = record { after = none; limit = server_max_page_limit }

module _ (env : Env) (wire : Wire) (c : Client) where
  open env use {clock}

  abbrev brought : ℕ → Result (Page Entitlement) → Result CacheEntry
  brought now (ok page) = ok (fetched now page)
  brought now (err e) = err e

  -- What the listing brings: the entry to store, or the error.
  unfoldable pub fetch : Bytes → History → History × Result CacheEntry
  unfolding list_entitlements
  fetch id h = let r = list_entitlements env wire c id full_page h in (r.0, brought (clock r.0) r.1)

  unfoldable pub answer :
      Bytes → Bytes → Cache → History × Result CacheEntry → History × (Cache × Result Bool)
  unfolding store holds
  answer id code cache (h, err e) = (h, (cache, err e))
  answer id code cache (h, ok e) = (h, (store id e cache, ok (holds code e.codes)))

  abbrev cached : Bytes → Option CacheEntry → Bool
  cached code none = false
  cached code (some e) = holds code e.codes

  -- HasEntitlement, by one goroutine at a time.
  unfoldable pub has_entitlement : Bytes → Bytes → Cache → History → History × (Cache × Result Bool)
  unfolding entry_for fetch answer holds
  has_entitlement id code cache h =
      if is_fresh (clock h) (entry_for id cache)
      then (h, (cache, ok (cached code (entry_for id cache))))
      else answer id code cache (fetch id h)
