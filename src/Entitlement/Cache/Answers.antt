-- ===== src/Entitlement/Cache/Answers.antt =====
-- What HasEntitlement answers, in a state that other goroutines may have left.
use tamga_go.Base.{
  ◌≢◌, ◌≡◌, ◌<◌, ◌-◌, refl, ap, Bool, true, Option, none, some, [], arith, Bool-cases, inl, inr,
}
use tamga_go.Text.{Bytes}
use tamga_go.Errors.{Result, ok, err, GoError, Result-cases}
use tamga_go.Http.{Env, History}
use tamga_go.Client.{Client}
use tamga_go.Resource.{Wire}
use tamga_go.Entitlement.{list_entitlements}
use tamga_go.Entitlement.Cache.{
  CacheEntry, Cache, entry_for, is_fresh, holds, full_page, fetch, answer, cached, has_entitlement,
  entitlement_cache_ttl,
}
use tamga_go.Entitlement.Cache.System.{
  World, start, IsTrue, lists, fails, stores, Reach, here, next, Listed, Reach-IsTrue, fetch-Listed,
  entry_for-Listed, brought-eq-ok,
}

module _ (env : Env) (wire : Wire) (c : Client) where
  -- The answer is right of a listing of the license that is less than a minute old.
  abbrev pub Answers : Bytes → Bytes → History → Bool → Type 0
  Answers id code h b =
      (e : CacheEntry) × Listed env wire c h (id, e)
      × (b ≡ holds code e.codes)
      × (env.clock h - e.fetched_at < entitlement_cache_ttl)

  -- The state that the call leaves.
  abbrev pub after : World → History × (Cache × Result Bool) → World
  after w r = record w { cache = r.1.0; history = r.0 }

  fetched_now :
      (id : Bytes) (h : History) (e : CacheEntry)
      → (fetch env wire c id h).1 ≡ ok e
      → env.clock (fetch env wire c id h).0 - e.fetched_at < entitlement_cache_ttl
  unfolding fetch
  fetched_now id h e q =
      let r = list_entitlements env wire c id full_page h in
      let (page, listed, same) = brought-eq-ok env wire c (env.clock r.0) r.1 e q in
      let at : e.fetched_at ≡ env.clock r.0 = ap (λ (x : CacheEntry). x.fetched_at) same in
      omega (arith, at)

  answer-steps :
      (w : World) (id code : Bytes)
      → Reach env wire c w
          (after w (answer env wire c id code w.cache (fetch env wire c id w.history)))
  unfolding answer
  answer-steps w id code = elim (Result-cases (fetch env wire c id w.history).1) [
    | inl (x, q) ↦ rw q (next here (fails w id))
    | inr (e, q) ↦ rw q (next (next here (lists w id e q)) (stores _ [] w.pending id e refl))
  ]

  Reach-trans : {w v u : World} → Reach env wire c w v → Reach env wire c v u → Reach env wire c w u
  Reach-trans r here = r
  Reach-trans r (next s st) = next (Reach-trans r s) st

  has_entitlement-steps :
      (w : World) (id code : Bytes)
      → Reach env wire c w (after w (has_entitlement env wire c id code w.cache w.history))
  unfolding has_entitlement
  has_entitlement-steps w id code =
      elim (Bool-cases (is_fresh (env.clock w.history) (entry_for id w.cache))) [
        | inl t ↦ rw t here
        | inr n ↦ rw n (answer-steps w id code)
      ]

  answer-Answers :
      (id code : Bytes) (cache : Cache) (h : History) (b : Bool)
      → (answer env wire c id code cache (fetch env wire c id h)).1.1 ≡ ok b
      → Answers id code (fetch env wire c id h).0 b
  unfolding answer
  answer-Answers id code cache h b right = elim (Result-cases (fetch env wire c id h).1) [
    | inl (x, q) ↦ absurd (failed_listing (fetch env wire c id h) x q right)
    | inr (e, q) ↦ (
      e,
      fetch-Listed env wire c id h e q,
      succeeded (fetch env wire c id h) e q right,
      fetched_now id h e q,
    )
  ]
    where
      failed_listing :
          (r : History × Result CacheEntry) (x : GoError)
          → r.1 ≡ err x
          → (answer env wire c id code cache r).1.1 ≢ ok b
      failed_listing (h, err y) x q = λ f. cc
      failed_listing (h, ok e) x q = λ f. cc

      succeeded :
          (r : History × Result CacheEntry) (e : CacheEntry)
          → r.1 ≡ ok e
          → (answer env wire c id code cache r).1.1 ≡ ok b
          → b ≡ holds code e.codes
      succeeded (h, err y) e q f = cc
      succeeded (h, ok y) e q f = cc

  answer-history :
      (id code : Bytes) (cache : Cache) (r : History × Result CacheEntry)
      → (answer env wire c id code cache r).0 ≡ r.0
  unfolding answer
  answer-history id code cache (h, err x) = refl
  answer-history id code cache (h, ok e) = refl

  fresh-Answers :
      (id code : Bytes) (cache : Cache) (h : History) (o : Option CacheEntry) (b : Bool)
      → ((e : CacheEntry) → o ≡ some e → Listed env wire c h (id, e))
      → is_fresh (env.clock h) o ≡ true
      → ◌≡◌ {A = Result Bool} (ok (cached env wire c code o)) (ok b)
      → Answers id code h b
  fresh-Answers id code cache h none b listed fresh q = absurd (cc)
  fresh-Answers id code cache h (some e) b listed fresh q = (e, listed e refl, cc, ground arith)

  run-Answers :
      (w : World) (id code : Bytes) (b : Bool)
      → IsTrue env wire c w
      → (has_entitlement env wire c id code w.cache w.history).1.1 ≡ ok b
      → Answers id code (has_entitlement env wire c id code w.cache w.history).0 b
  unfolding has_entitlement
  run-Answers w id code b (a, _) =
      elim (Bool-cases (is_fresh (env.clock w.history) (entry_for id w.cache))) [
        | inl t ↦ rw t (
            fresh-Answers id code w.cache w.history (entry_for id w.cache) b
              (λ e. entry_for-Listed env wire c w.history id w.cache e a) t)
        | inr n ↦
            rw (n, answer-history id code w.cache (fetch env wire c id w.history))
              (answer-Answers id code w.cache w.history b)
      ]

  -- However goroutines interleave their listings, stores and invalidations: HasEntitlement answers
  -- what one listing of the license said, which came back less than a minute ago, and it leaves the
  -- cache in a state that is reached in the same way.
  pub has_entitlement-Answers :
      (h₀ : History) (w : World) (id code : Bytes) (b : Bool)
      → Reach env wire c (start h₀) w
      → (has_entitlement env wire c id code w.cache w.history).1.1 ≡ ok b
      → Answers id code (has_entitlement env wire c id code w.cache w.history).0 b
        × Reach env wire c
            (start h₀)
            (after w (has_entitlement env wire c id code w.cache w.history))
  has_entitlement-Answers h₀ w id code b reached q = (
    run-Answers w id code b (Reach-IsTrue env wire c reached (tt, tt)) q,
    Reach-trans reached (has_entitlement-steps w id code),
  )
