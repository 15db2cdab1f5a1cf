-- ===== src/Cached/Interleaving/Fresh.antt =====
-- One step of a calm run of calls of internal/repository/cached/product_repository.go, against what the
-- products in the cache are.
pub mod Writes
use shop_catalog_service.Common.{
  ℕ, ◌≡◌, ◌≢◌, refl, sym, ◌∙◌, ap, ◌⊎◌, inl, inr, eq_refl, str_eq-cases, String, Option, none, List,
  [], ◌∷◌,
}
use shop_catalog_service.Common.Int.{ℤ}
use shop_catalog_service.Exec.{Result, ok, err, panic}
use shop_catalog_service.Exec.Ensures.{Post}
use shop_catalog_service.Domain.{Product}
use shop_catalog_service.Repository.{Context}
use shop_catalog_service.Service.Calls.{Call, list, get, create, update, stock}
use shop_catalog_service.Redis
use shop_catalog_service.Redis.{Json, ProductCacheValue, from_cache_value, product_key}
use shop_catalog_service.Redis.Server.{IsRedis, IsJson, Shrinks}
use shop_catalog_service.Redis.Entries.{Holds, Holds-map, Shrinks-Holds}
use shop_catalog_service.Redis.Scan.{invalidate_list_cache-Shrinks}
use shop_catalog_service.Cached.{CachedRepository, CachedState}
use shop_catalog_service.Cached.Coherence.{IsSource, Stored}
use shop_catalog_service.Cached.Writes.{delete_product_gone}
use shop_catalog_service.Cached.Steps.{
  Pc, started, product_read, stored, dropped, returned, call_of, move,
}
use shop_catalog_service.Cached.Interleaving.{at_thread}
use shop_catalog_service.Cached.Interleaving.Held.{IsReading, settled-IsHeld}
use shop_catalog_service.Cached.Interleaving.Fair.{read-IsHeld}
use shop_catalog_service.Cached.Interleaving.Threads.{
  at_thread-all, DropsNext, Dirty, Dirty-own, Dirty-others, IsReading-clean, Holding, free-Holding,
  Holding-map, AnyPage, Holding-IsHeld, IsHeld-Holding,
}
use shop_catalog_service.Cached.Interleaving.Calm.{IsWriting, write_of, written_id, IsLawful}
use shop_catalog_service.Cached.Interleaving.Moves.{
  written, logged, move-write, move-stored, move-dropped,
}
use mathlib.Core.Path.{subst}

module _ {R S : Type 0} (find : S → String → Option Product)
    (listing : S → ℤ → ℤ → Option (List Product)) (entries : R → String → Option String)
    (json : Json) where
  -- A product as the next repository has it, or one that a write has changed and is yet to drop.
  abbrev Current : S → (ℕ → Pc) → String → Product → Type 0
  Current s pcs id p = Stored find s id p ⊎ Dirty pcs id

  -- The products in the cache are current, and those that reads hold are what the next repository has.
  pub record IsFresh (st : CachedState R S) (pcs : ℕ → Pc) : Type 0 where
    pub cached : Holds entries json (Current st.store pcs) AnyPage st.redis
    pub held : (j : ℕ) → Holding (Stored find st.store) (pcs j)

  -- A step of a call that drops nothing next, at which the next repository stays as it was.
  pub IsFresh-same :
      (st st' : CachedState R S) (pcs : ℕ → Pc) (i : ℕ) (pc : Pc)
      → st'.store ≡ st.store
      → Holds entries json (Current st.store pcs) AnyPage st'.redis
      → ((j : ℕ) → Holding (Stored find st.store) (pcs j))
      → ((id : String) → DropsNext (pcs i) id → ⊥)
      → Holding (Stored find st.store) pc
      → IsFresh st' (at_thread i pc pcs)
  IsFresh-same st st' pcs i pc same cached held clean new = record {
    cached =
        Holds-map entries json (Current st.store pcs) (Current st'.store (at_thread i pc pcs))
          AnyPage AnyPage st'.redis later (λ _ _ _ _. tt) cached;
    held =
        at_thread-all (Holding (Stored find st'.store)) pcs i pc (again pc new)
          (λ j. again (pcs j) (held j));
  }
    where
      known' : (id : String) (p : Product) → Stored find st.store id p → Stored find st'.store id p
      known' id p known = ap (λ s. find s id) same ∙ known

      again : (q : Pc) → Holding (Stored find st.store) q → Holding (Stored find st'.store) q
      again q h = Holding-map (Stored find st.store) (Stored find st'.store) q known' h

      later :
          (id : String) (p : Product)
          → Current st.store pcs id p
          → Current st'.store (at_thread i pc pcs) id p
      later id p (inl known) = inl (known' id p known)
      later id p (inr dirty) = inr (Dirty-others pcs i pc id (clean id) dirty)

  module _ (fuel : ℕ) (r : CachedRepository R S) (laws : IsRedis entries r.cache.client)
      (codec : IsJson json) (ctx : Context) where
    -- What the goroutines and the shared state are after the next step of one of them.
    abbrev pub Moved : CachedState R S → (ℕ → Pc) → ℕ → Pc → Type 0
    Moved st pcs i before =
        let (pc, st') = move json fuel r ctx before st in IsFresh st' (at_thread i pc pcs)

    pub read-IsFresh :
        (st : CachedState R S) (pcs : ℕ → Pc) (i : ℕ)
        → IsSource r.next find listing st.store
        → IsReading (pcs i)
        → IsFresh st pcs
        → Moved st pcs i (pcs i)
    unfolding move
    read-IsFresh st pcs i source reading fresh =
        let ((same, cached), post) =
          read-IsHeld find listing entries json fuel r laws codec (Current st.store pcs)
            (Stored find st.store) AnyPage ctx st.store source (λ id p h. inl h) (λ id p h. h)
            (λ _ _ _ _. tt) (pcs i) st reading refl fresh.cached
            (Holding-IsHeld (Current st.store pcs) (Stored find st.store) (pcs i) reading
              (fresh.held i)) in
        IsFresh-same st _ pcs i _ same cached fresh.held (IsReading-clean (pcs i) reading) (
          IsHeld-Holding (Current st.store pcs) (Stored find st.store) _ (
            settled-IsHeld (Current st.store pcs) (Stored find st.store) AnyPage (call_of (pcs i)) _
              post))

    logged-Holding :
        (H : String → Product → Type 0) (call : Call) (p : Product) (x : Result (Unit {0}))
        → Holding H (logged call (returned call (ok (p ∷ []))) x)
    logged-Holding H call p (ok u) = tt
    logged-Holding H call p (err e) = tt
    logged-Holding H call p panic = tt

    -- DeleteProduct, where it succeeds: the product's entry is gone.
    pub drop-IsFresh :
        (st : CachedState R S) (pcs : ℕ → Pc) (i : ℕ) (call : Call) (id : String) (p : Product)
        → pcs i ≡ stored call id p
        → (Redis.delete_product r.cache ctx id st.redis).0 ≡ ok tt
        → IsFresh st pcs
        → Moved st pcs i (stored call id p)
    drop-IsFresh st pcs i call id p at_i deleted fresh =
        subst (λ m. IsFresh m.1 (at_thread i m.0 pcs)) (sym moved)
          (record {
            cached = record {
              product = λ k raw v e read.
                  later k v (λ own. cc (gone, e, ap product_key own))
                    (fresh.cached.product k raw v (fewer (product_key k) raw e) read);
              list = λ _ _ _ _ _ _. tt;
            };
            held =
                at_thread-all (Holding (Stored find st.store)) pcs i (dropped call p) tt fresh.held;
          })
      where
        after_redis : R
        after_redis = (Redis.delete_product r.cache ctx id st.redis).1

        gone : entries after_redis (product_key id) ≡ none
        gone = delete_product_gone entries fuel r.cache ctx id st.redis laws deleted

        fewer : Shrinks entries st.redis after_redis
        fewer = unfold Redis.delete_product in laws.del_shrinks ctx (product_key id ∷ []) st.redis

        moved :
            move json fuel r ctx (stored call id p) st
            ≡ (dropped call p, record st { redis = after_redis })
        moved =
            move-stored json fuel r ctx call id p st
            ∙ ap (λ x. (logged call (dropped call p) x, record st { redis = after_redis })) deleted

        -- The call drops the entry of no other product.
        clean : (k : String) → k ≢ id → DropsNext (pcs i) k → ⊥
        clean k other d = other (sym (subst (λ pc. DropsNext pc k) at_i d))

        later :
            (k : String) (v : ProductCacheValue)
            → k ≢ id
            → Current st.store pcs k (from_cache_value v)
            → Current st.store (at_thread i (dropped call p) pcs) k (from_cache_value v)
        later k v other (inl known) = inl known
        later k v other (inr dirty) =
            inr (Dirty-others pcs i (dropped call p) k (clean k other) dirty)

    -- invalidateListCache, also where it fails.
    pub pages-IsFresh :
        (st : CachedState R S) (pcs : ℕ → Pc) (i : ℕ) (call : Call) (p : Product)
        → pcs i ≡ dropped call p
        → IsFresh st pcs
        → Moved st pcs i (dropped call p)
    pages-IsFresh st pcs i call p at_i fresh =
        subst (λ m. IsFresh m.1 (at_thread i m.0 pcs))
          (sym (move-dropped json fuel r ctx call p st))
          (IsFresh-same st _ pcs i _ refl
            (Shrinks-Holds entries json (Current st.store pcs) AnyPage st.redis _
              (invalidate_list_cache-Shrinks entries r.cache ctx st.redis laws fuel) fresh.cached)
            fresh.held (λ k d. subst (λ pc. DropsNext pc k) at_i d)
            (logged-Holding (Stored find st.store) call p _))
