-- ===== src/Entitlement/Cache/Races.antt =====
-- Invalidation, in sequence and while a listing is on its way.
use tamga_go.Base.{◌≡◌, ◌<◌, ◌-◌, refl, true, none, some, [], ◌∷◌, arith, Bool-cases, inl, inr}
use tamga_go.Text.{Bytes, ◌==◌}
use tamga_go.Text.Laws.{==_refl}
use tamga_go.Errors.{ok}
use tamga_go.Http.{Env, History}
use tamga_go.Client.{Client}
use tamga_go.Resource.{Wire}
use tamga_go.Entitlement.Cache.{
  CacheEntry, Cache, entry_for, without, store, is_fresh, holds, invalidate_entitlement_cache,
  fetch, answer, has_entitlement, entitlement_cache_ttl,
}

entry_for-without : (id : Bytes) (cache : Cache) → entry_for id (without id cache) ≡ none
unfolding entry_for without
entry_for-without id [] = refl
entry_for-without id ((k, e) ∷ cache) = elim (Bool-cases (k == id)) [
  | inl t ↦ rw t (entry_for-without id cache)
  | inr n ↦ rw (n, n) (entry_for-without id cache)
]

entry_for-store :
    (id : Bytes) (e : CacheEntry) (cache : Cache) → entry_for id (store id e cache) ≡ some e
unfolding entry_for store
entry_for-store id e cache = rw (==_refl id) refl

module _ (env : Env) (wire : Wire) (c : Client) where
  -- After an invalidation with no listing on its way, the next HasEntitlement lists again. But if
  -- another goroutine has a listing of the license on its way, which it stores after the
  -- invalidation, HasEntitlement answers from it for a minute from when it came back and sends
  -- nothing.
  pub invalidate_in_flight :
      (id code : Bytes) (cache : Cache) (h : History) (e : CacheEntry)
      → env.clock h - e.fetched_at < entitlement_cache_ttl
      → (has_entitlement env wire c id code (invalidate_entitlement_cache id cache) h
          ≡ answer env wire c id code
              (invalidate_entitlement_cache id cache)
              (fetch env wire c id h))
        × (has_entitlement env wire c id code (store id e (invalidate_entitlement_cache id cache)) h
            ≡ (h, (store id e (invalidate_entitlement_cache id cache), ok (holds code e.codes))))
  unfolding has_entitlement invalidate_entitlement_cache
  invalidate_in_flight id code cache h e young =
      let fresh : is_fresh (env.clock h) (some e) ≡ true = ground arith in
      (
        rw (entry_for-without id cache) refl,
        rw (entry_for-store id e (without id cache), fresh) refl,
      )
