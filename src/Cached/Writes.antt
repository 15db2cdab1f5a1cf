-- ===== src/Cached/Writes.antt =====
-- The writes of internal/repository/cached/product_repository.go (Create, Update, UpdateStock) and the
-- entries of the cache.
use shop_catalog_service.Cached.{
  CreateProductCommand, drop_product, drop_lists, CachedRepository, CachedState, create, update,
  update_stock,
}
use shop_catalog_service.Cached.Coherence.{Paged, Stored, IsCoherent}
use shop_catalog_service.Redis
use shop_catalog_service.Redis.{product_key, Cache, Json}
use shop_catalog_service.Redis.Server.{IsRedis, Shrinks}
use shop_catalog_service.Common.{
  ◌∙◌, inl, inr, Option-cases, eq_refl, [], ◌∷◌, ℕ, ◌≡◌, ◌≢◌, refl, String, Option, none, List,
}
use shop_catalog_service.Exec.{ok}
use shop_catalog_service.Repository.{Context}
use shop_catalog_service.Domain.{UpdateProductCommand, Product}
use shop_catalog_service.Common.Int.{ℤ}
use shop_catalog_service.Redis.Entries.{Holds, write-Holds}
use shop_catalog_service.Redis.Scan.{invalidate_list_cache_gone, invalidate_list_cache-Shrinks}

module _ {R : Type 0} (entries : R → String → Option String) (fuel : ℕ) (cache : Cache R)
    (ctx : Context) where
  pub delete_product_gone :
      (id : String) (r : R)
      → IsRedis entries cache.client
      → (Redis.delete_product cache ctx id r).0 ≡ ok tt
      → entries (Redis.delete_product cache ctx id r).1 (product_key id) ≡ none
  unfolding Redis.delete_product
  delete_product_gone id r laws e =
      laws.del_gone ctx (product_key id ∷ []) r e (product_key id) (rw (eq_refl (product_key id)))

  -- The server after an Update or an UpdateStock of a product has dropped its entries.
  dropped : String → R → R
  dropped id r =
      (Redis.invalidate_list_cache cache ctx fuel (Redis.delete_product cache ctx id r).1).1

  -- Both calls of the server succeed.
  pub record Drops (id : String) (r : R) : Type 0 where
    pub product : (Redis.delete_product cache ctx id r).0 ≡ ok tt
    pub lists :
        (Redis.invalidate_list_cache cache ctx fuel (Redis.delete_product cache ctx id r).1).0
        ≡ ok tt

  dropped-Holds :
      (json : Json) (Known Known' : String → Product → Type 0)
      (Listed Listed' : ℤ → ℤ → List Product → Type 0) (id : String) (r : R)
      → IsRedis entries cache.client
      → Drops id r
      → Holds entries json Known Listed r
      → ((k : String) → k ≢ id → (p : Product) → Known k p → Known' k p)
      → Holds entries json Known' Listed' (dropped id r)
  unfolding dropped
  dropped-Holds json Known Known' Listed Listed' id r laws d h same =
      write-Holds entries json Known Known' Listed Listed' id r _ h
        (λ k v e. fewer k v (fewest k v e)) same
        (inl (none_after (delete_product_gone id r laws d.product) fewest))
        (λ key listed. invalidate_list_cache_gone entries cache ctx fuel _ laws d.lists key listed)
    where
      fewer : Shrinks entries r (Redis.delete_product cache ctx id r).1
      fewer = unfold Redis.delete_product in laws.del_shrinks ctx (product_key id ∷ []) r

      fewest :
          Shrinks entries
            (Redis.delete_product cache ctx id r).1
            (Redis.invalidate_list_cache cache ctx fuel (Redis.delete_product cache ctx id r).1).1
      fewest = invalidate_list_cache-Shrinks entries cache ctx _ laws fuel

      none_after :
          {k : String} {r r' : R} → entries r k ≡ none → Shrinks entries r r' → entries r' k ≡ none
      none_after {k} {r} {r'} gone s = elim (Option-cases (entries r' k)) [
        | inl e ↦ e
        | inr (v, e) ↦ cc (gone, s k v e)
      ]

module _ {R S : Type 0} (entries : R → String → Option String) (json : Json) (fuel : ℕ)
    (r : CachedRepository R S) (find : S → String → Option Product)
    (listing : S → ℤ → ℤ → Option (List Product)) (ctx : Context) (st : CachedState R S)
    (laws : IsRedis entries r.cache.client)
    (before : IsCoherent entries json r find listing st) where
  -- The state after a write that was stored, and whose entries were dropped.
  abbrev written : S → String → CachedState R S
  written s id = record st { store = s; redis = dropped entries fuel r.cache ctx id st.redis }

  written-IsCoherent :
      (s : S) (id : String)
      → Drops entries fuel r.cache ctx id st.redis
      → ((k : String) → k ≢ id → find s k ≡ find st.store k)
      → IsCoherent entries json r find listing (written s id)
  written-IsCoherent s id d same =
      dropped-Holds entries fuel r.cache ctx json (Stored find st.store) (Stored find s)
        (Paged listing st.store) (Paged listing s) id st.redis laws d before
        (λ k ne p e. same k ne ∙ e)

  update_written :
      (cmd : UpdateProductCommand) (p : Product) (s : S)
      → r.next.update ctx cmd st.store ≡ (ok p, s)
      → Drops entries fuel r.cache ctx p.id st.redis
      → update fuel r ctx cmd st ≡ (ok p, written s p.id)
  unfolding update drop_lists drop_product dropped
  update_written cmd p s stored d = rw (stored, d.product, d.lists)

  -- Update returns what the next repository stored, and a coherent cache is coherent with the new
  -- catalog, if the next repository changes no other product and both deletions in Redis, which
  -- keeps its documented promises, succeed.
  pub update-IsCoherent :
      (cmd : UpdateProductCommand) (p : Product) (s : S)
      → r.next.update ctx cmd st.store ≡ (ok p, s)
      → ((k : String) → k ≢ p.id → find s k ≡ find st.store k)
      → Drops entries fuel r.cache ctx p.id st.redis
      → ((update fuel r ctx cmd st).0 ≡ ok p)
        × ((update fuel r ctx cmd st).1.store ≡ s)
        × IsCoherent entries json r find listing (update fuel r ctx cmd st).1
  update-IsCoherent cmd p s stored same d =
      rw (update_written cmd p s stored d) (refl, refl, written-IsCoherent s p.id d same)

  update_stock_written :
      (id : String) (delta : ℤ) (p : Product) (s : S)
      → r.next.update_stock ctx id delta st.store ≡ (ok p, s)
      → Drops entries fuel r.cache ctx id st.redis
      → update_stock fuel r ctx id delta st ≡ (ok p, written s id)
  unfolding update_stock drop_lists drop_product dropped
  update_stock_written id delta p s stored d = rw (stored, d.product, d.lists)

  -- UpdateStock returns what the next repository stored, and a coherent cache is coherent with the
  -- new catalog, if the next repository changes no product but the one that was asked for and both
  -- deletions in Redis, which keeps its documented promises, succeed.
  pub update_stock-IsCoherent :
      (id : String) (delta : ℤ) (p : Product) (s : S)
      → r.next.update_stock ctx id delta st.store ≡ (ok p, s)
      → ((k : String) → k ≢ id → find s k ≡ find st.store k)
      → Drops entries fuel r.cache ctx id st.redis
      → ((update_stock fuel r ctx id delta st).0 ≡ ok p)
        × ((update_stock fuel r ctx id delta st).1.store ≡ s)
        × IsCoherent entries json r find listing (update_stock fuel r ctx id delta st).1
  update_stock-IsCoherent id delta p s stored same d =
      rw (update_stock_written id delta p s stored d) (refl, refl, written-IsCoherent s id d same)

  -- Create, which drops the pages only, returns what the next repository stored, and a coherent cache
  -- is coherent with the new catalog, if the id is new in the next repository, no other product
  -- changes, and the deletion in Redis, which keeps its documented promises, succeeds.
  pub create-IsCoherent :
      (cmd : CreateProductCommand) (p : Product) (s : S)
      → r.next.create ctx cmd st.store ≡ (ok p, s)
      → find st.store p.id ≡ none
      → ((k : String) → k ≢ p.id → find s k ≡ find st.store k)
      → (Redis.invalidate_list_cache r.cache ctx fuel st.redis).0 ≡ ok tt
      → ((create fuel r ctx cmd st).0 ≡ ok p)
        × ((create fuel r ctx cmd st).1.store ≡ s)
        × IsCoherent entries json r find listing (create fuel r ctx cmd st).1
  unfolding create drop_lists
  create-IsCoherent cmd p s stored new same d =
      rw (stored, create, drop_lists, d)
        (
          refl,
          refl,
          write-Holds entries json (Stored find st.store) (Stored find s) (Paged listing st.store)
              (Paged listing s) p.id st.redis _ before
              (invalidate_list_cache-Shrinks entries r.cache ctx st.redis laws fuel)
              (λ k ne q e. same k ne ∙ e) (inr (λ q e. cc (new, e)))
              (λ key listed.
                invalidate_list_cache_gone entries r.cache ctx fuel st.redis laws d key listed),
        )
