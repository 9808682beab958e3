-- ===== src/Entitlement/Cache/System.antt =====
-- Goroutines that share the cache: a listing and the storing of its entry are separate steps, with
-- those of the others in between.
use tamga_go.Base.{ℕ, ◌≡◌, refl, subst, none, some, [], ◌∷◌, ◌++◌, arith, All, Bool-cases, inl, inr}
use tamga_go.Text.{Bytes, ◌==◌}
use tamga_go.Text.Laws.{==_iff}
use tamga_go.Errors.{Result, ok, err}
use tamga_go.Http.{Env, Event, History}
use tamga_go.Client.{Client}
use tamga_go.Client.Laws.Adding.{
  Extends, Adds-refl, Adds-trans, Adds-one, bind-Adds, decode_json_api-Extends,
}
use tamga_go.Resource.{Entitlement, Wire}
use tamga_go.Machine.Parts.{Page}
use tamga_go.Entitlement.{list_entitlements}
use tamga_go.Entitlement.Cache.{
  CacheEntry, Cache, entry_for, without, store, fetched, full_page, invalidate_entitlement_cache,
  fetch, brought,
}

-- `pending` holds the entries that goroutines have fetched and not yet stored.
pub record World : Type 0 where
  pub cache : Cache
  pub history : History
  pub pending : Cache

abbrev pub start : History → World
start h = record { cache = []; history = h; pending = [] }

module _ (env : Env) (wire : Wire) (c : Client) where
  pub data Step : World → World → Type 0 where
    -- a goroutine lists the entitlements of a license
    lists :
        (w : World) (id : Bytes) (e : CacheEntry)
        → (fetch env wire c id w.history).1 ≡ ok e
        → Step w (record {
          cache = w.cache;
          history = (fetch env wire c id w.history).0;
          pending = (id, e) ∷ w.pending;
        })
    -- a listing fails
    fails :
        (w : World) (id : Bytes) → Step w (record w { history = (fetch env wire c id w.history).0 })
    -- a goroutine stores what it fetched
    stores :
        (w : World) (before after : Cache) (id : Bytes) (e : CacheEntry)
        → w.pending ≡ before ++ ((id, e) ∷ after)
        → Step w
            (record { cache = store id e w.cache; history = w.history; pending = before ++ after })
    invalidates :
        (w : World) (id : Bytes)
        → Step w (record w { cache = invalidate_entitlement_cache id w.cache })
    -- time passes, or another call adds an event
    happens : (w : World) (x : Event) → Step w (record w { history = x ∷ w.history })

  pub data Reach (w : World) : World → Type 0 where
    here : Reach w w
    next : {v u : World} → Reach w v → Step v u → Reach w u

  -- The entry is what one successful listing of the license brought, in the past of `h`.
  abbrev pub Listed : History → Bytes × CacheEntry → Type 0
  Listed h (id, e) =
      (h₀ : History) × (page : Page Entitlement) × ((list_entitlements env wire c id full_page h₀).1
        ≡ ok page)
      × (e ≡ fetched (env.clock (list_entitlements env wire c id full_page h₀).0) page)
      × Extends (list_entitlements env wire c id full_page h₀).0 h

  list_entitlements-Extends :
      (id : Bytes) (h : History) → Extends h (list_entitlements env wire c id full_page h).0
  unfolding list_entitlements
  list_entitlements-Extends id h =
      bind-Adds (λ e. Unit) h _ _ (decode_json_api-Extends env c wire.entitlements _ _ none h)
        (λ a h'. Adds-refl (λ e. Unit) h')

  pub brought-eq-ok :
      (now : ℕ) (r : Result (Page Entitlement)) (e : CacheEntry)
      → brought env wire c now r ≡ ok e
      → (page : Page Entitlement) × (r ≡ ok page) × (e ≡ fetched now page)
  brought-eq-ok now (ok page) e q = (page, refl, cc)
  brought-eq-ok now (err x) e q = absurd (cc)

  pub fetch-Listed :
      (id : Bytes) (h : History) (e : CacheEntry)
      → (fetch env wire c id h).1 ≡ ok e
      → Listed (fetch env wire c id h).0 (id, e)
  unfolding fetch
  fetch-Listed id h e q =
      let r = list_entitlements env wire c id full_page h in
      let (page, listed, same) = brought-eq-ok (env.clock r.0) r.1 e q in
      (h, page, listed, same, Adds-refl (λ e. Unit) r.0)

  Listed-later : (h h' : History) (x : Bytes × CacheEntry) → Extends h h' → Listed h x → Listed h' x
  Listed-later h h' (id, e) more (h₀, page, l, q, past) =
      (h₀, page, l, q, Adds-trans (λ e. Unit) _ h h' past more)

  abbrev pub AllListed : History → Cache → Type 0
  AllListed h cache = All (Listed h) cache

  AllListed-later :
      (h h' : History) (cache : Cache) → Extends h h' → AllListed h cache → AllListed h' cache
  AllListed-later h h' [] more a = tt
  AllListed-later h h' (x ∷ cache) more a =
      (Listed-later h h' x more a.0, AllListed-later h h' cache more a.1)

  without-AllListed :
      (h : History) (id : Bytes) (cache : Cache)
      → AllListed h cache
      → AllListed h (without id cache)
  unfolding without
  without-AllListed h id [] a = tt
  without-AllListed h id ((k, e) ∷ cache) a = elim (Bool-cases (k == id)) [
    | inl t ↦ rw t (without-AllListed h id cache a.1)
    | inr n ↦ rw n (a.0, without-AllListed h id cache a.1)
  ]

  pub entry_for-Listed :
      (h : History) (id : Bytes) (cache : Cache) (e : CacheEntry)
      → AllListed h cache
      → entry_for id cache ≡ some e
      → Listed h (id, e)
  unfolding entry_for
  entry_for-Listed h id [] e a q = absurd (cc)
  entry_for-Listed h id ((k, x) ∷ cache) e a q = elim (Bool-cases (k == id)) [
    | inl t ↦
        let key : k ≡ id = (==_iff k id).0 t in
        let same : x ≡ e = ground arith in
        subst (λ (i : Bytes). Listed h (i, e)) key (subst (λ y. Listed h (k, y)) same a.0)
    | inr n ↦
        let later : entry_for id cache ≡ some e = ground arith in
        entry_for-Listed h id cache e a.1 later
  ]

  append-AllListed :
      (h : History) (xs ys : Cache) → AllListed h xs → AllListed h ys → AllListed h (xs ++ ys)
  append-AllListed h [] ys a b = b
  append-AllListed h (x ∷ xs) ys a b = (a.0, append-AllListed h xs ys a.1 b)

  split-AllListed :
      (h : History) (xs : Cache) (x : Bytes × CacheEntry) (ys : Cache)
      → AllListed h (xs ++ (x ∷ ys))
      → Listed h x × AllListed h (xs ++ ys)
  split-AllListed h [] x ys a = a
  split-AllListed h (y ∷ xs) x ys a =
      let (found, rest) = split-AllListed h xs x ys a.1 in (found, (a.0, rest))

  store-AllListed :
      (h : History) (id : Bytes) (e : CacheEntry) (cache : Cache)
      → Listed h (id, e)
      → AllListed h cache
      → AllListed h (store id e cache)
  unfolding store
  store-AllListed h id e cache l a = (l, without-AllListed h id cache a)

  -- What is cached and what is about to be cached was listed.
  abbrev pub IsTrue : World → Type 0
  IsTrue w = AllListed w.history w.cache × AllListed w.history w.pending

  fetch-Extends : (id : Bytes) (h : History) → Extends h (fetch env wire c id h).0
  unfolding fetch
  fetch-Extends id h = list_entitlements-Extends id h

  Step-IsTrue : {w u : World} → Step w u → IsTrue w → IsTrue u
  unfolding invalidate_entitlement_cache
  Step-IsTrue (lists w id e q) (a, b) =
      let more = fetch-Extends id w.history in
      (
        AllListed-later w.history _ w.cache more a,
        (fetch-Listed id w.history e q, AllListed-later w.history _ w.pending more b),
      )
  Step-IsTrue (fails w id) (a, b) =
      let more = fetch-Extends id w.history in
      (AllListed-later w.history _ w.cache more a, AllListed-later w.history _ w.pending more b)
  Step-IsTrue (stores w before after id e q) (a, b) =
      let (l, rest) =
        split-AllListed w.history before (id, e) after (subst (AllListed w.history) q b) in
      (store-AllListed w.history id e w.cache l a, rest)
  Step-IsTrue (invalidates w id) (a, b) = (without-AllListed w.history id w.cache a, b)
  Step-IsTrue (happens w x) (a, b) =
      let more = Adds-one (λ e. Unit) x w.history tt in
      (AllListed-later w.history _ w.cache more a, AllListed-later w.history _ w.pending more b)

  pub Reach-IsTrue : {w u : World} → Reach w u → IsTrue w → IsTrue u
  Reach-IsTrue here a = a
  Reach-IsTrue (next r st) a = Step-IsTrue st (Reach-IsTrue r a)
