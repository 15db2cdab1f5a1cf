-- ===== src/Cached/Interleaving/Fair.antt =====
-- One step of a read of internal/repository/cached/product_repository.go: the products and pages in the
-- cache, and those that the call holds, stay of their kinds.
pub mod Writes
use shop_catalog_service.Common.{ℕ, ◌≡◌, sym, String, Option, none, some, List, [], ◌∷◌}
use shop_catalog_service.Common.Int.{ℤ}
use shop_catalog_service.Exec.{ok, Exec, pure, fail, handle, ◌>>=◌, ◌>>◌}
use shop_catalog_service.Exec.Ensures.{
  Ensures, Ensures-handle, Ensures-pure, Ensures-fail, Post, any,
}
use shop_catalog_service.Domain.{Product}
use shop_catalog_service.Repository.{Context}
use shop_catalog_service.Service.{effective_limit}
use shop_catalog_service.Service.Calls.{Call, list, get, create, update, stock}
use shop_catalog_service.Redis
use shop_catalog_service.Redis.{product_key, Json}
use shop_catalog_service.Redis.Server.{IsRedis, IsJson, Shrinks}
use shop_catalog_service.Redis.Entries.{
  Holds, Shrinks-Holds, get_product-Holds, get_product_list-Holds, set_product-Holds,
  set_product_list-Holds, IsProductAnswer, IsListAnswer,
}
use shop_catalog_service.Redis.Scan.{invalidate_list_cache-Shrinks}
use shop_catalog_service.Cached.{
  CachedRepository, CachedState, on_redis, on_store, drop_product, drop_lists, count_cache,
}
use shop_catalog_service.Cached.Coherence.{IsSource, Stored, Paged}
use shop_catalog_service.Cached.Parts.{Keeping, Keeping-on_redis, Keeping-on_store, Keeping-count}
use shop_catalog_service.Cached.Steps.{
  Pc, started, product_missed, product_read, page_missed, page_read, stored, dropped, returned,
  advance, product_looked, page_looked,
}
use shop_catalog_service.Cached.Interleaving.Held.{IsReading, IsAnswerOf-write, IsHeld, IsWrite}
use shop_catalog_service.Errors.{Error}
use mathlib.Core.Path.{subst}

module _ {R S : Type 0} (find : S → String → Option Product)
    (listing : S → ℤ → ℤ → Option (List Product)) (entries : R → String → Option String)
    (json : Json) (fuel : ℕ) (r : CachedRepository R S) (laws : IsRedis entries r.cache.client)
    (codec : IsJson json) (K H : String → Product → Type 0) (L : ℤ → ℤ → List Product → Type 0)
    (ctx : Context) (s : S) (source : IsSource r.next find listing s)
    (keep : (id : String) (p : Product) → H id p → K id p)
    (found : (id : String) (p : Product) → Stored find s id p → H id p)
    (listed : (limit offset : ℤ) (ps : List Product)
      → Paged listing s limit offset ps
      → L limit offset ps) where
  abbrev InCache : R → Type 0
  InCache = Holds entries json K L

  -- A read's step: the next repository stays, and the entries of the cache are of their kinds.
  abbrev Stays : CachedState R S → Type 0
  Stays = Keeping entries json K L s

  abbrev Reads : Exec (CachedState R S) Pc → Type 0
  Reads = Ensures Stays (IsHeld K H L)

  counted :
      (operation result : String) (m : Exec (CachedState R S) Pc)
      → Reads m
      → Reads (count_cache operation result >> m)
  counted operation result m h =
      Keeping-count entries json K L s (IsHeld K H L) operation result m h

  returning : (pc : Pc) → IsHeld K H L pc → Reads (pure pc)
  returning pc h = Ensures-pure Stays (IsHeld K H L) pc h

  failing : (operation result : String) (e : Error) → Reads (count_cache operation result >> fail e)
  failing operation result e = counted operation result _ (Ensures-fail Stays (IsHeld K H L) e)

  redis_then :
      {A : Type 0} (Q : A → Type 0) (m : Exec R A) (f : Error → Exec (CachedState R S) Pc)
      (g : A → Exec (CachedState R S) Pc)
      → Ensures InCache Q m
      → ((e : Error) → Reads (f e))
      → ((a : A) → Q a → Reads (g a))
      → Reads (handle (on_redis m) f g)
  redis_then Q m f g h on_err on_ok =
      Ensures-handle Stays Q (IsHeld K H L) _ f g (Keeping-on_redis entries json K L s Q m h) on_err
        on_ok

  store_then :
      {A : Type 0} (Q : A → Type 0) (m : Exec S A) (f : Error → Exec (CachedState R S) Pc)
      (g : A → Exec (CachedState R S) Pc)
      → (m s).1 ≡ s
      → ((a : A) → (m s).0 ≡ ok a → Q a)
      → ((e : Error) → Reads (f e))
      → ((a : A) → Q a → Reads (g a))
      → Reads (handle (on_store m) f g)
  store_then Q m f g same value on_err on_ok =
      Ensures-handle Stays Q (IsHeld K H L) _ f g
        (Keeping-on_store entries json K L s Q m same value) on_err on_ok

  product_looked-Reads :
      (id : String) (o : Option Product)
      → IsProductAnswer entries json r.cache laws codec K L ctx id o
      → Reads (product_looked json fuel r ctx id o)
  product_looked-Reads id (some p) h = counted _ _ _ (returning (returned (get id) (ok (p ∷ []))) h)
  product_looked-Reads id none h = counted _ _ _ (returning (product_missed id) tt)

  page_looked-Reads :
      (limit offset : ℤ) (o : Option (List Product))
      → IsListAnswer entries json r.cache laws codec K L ctx (effective_limit limit) offset o
      → Reads (page_looked json fuel r ctx limit offset o)
  page_looked-Reads limit offset (some ps) h =
      counted _ _ _ (returning (returned (list limit offset) (ok ps)) h)
  page_looked-Reads limit offset none h = counted _ _ _ (returning (page_missed limit offset) tt)

  get_started : (id : String) → Reads (advance json fuel r ctx (started (get id)))
  get_started id =
      redis_then _ (Redis.get_product json r.cache ctx id) _ _
        (get_product-Holds entries json r.cache laws codec K L ctx id) (failing _ _)
        (product_looked-Reads id)

  list_started : (limit offset : ℤ) → Reads (advance json fuel r ctx (started (list limit offset)))
  list_started limit offset =
      redis_then _ (Redis.get_product_list json r.cache ctx (effective_limit limit) offset) _ _
        (get_product_list-Holds entries json r.cache laws codec K L ctx (effective_limit limit)
          offset)
        (failing _ _) (page_looked-Reads limit offset)

  product_missed-Reads : (id : String) → Reads (advance json fuel r ctx (product_missed id))
  product_missed-Reads id =
      store_then (λ p. Stored find s id p × (p.id ≡ id)) (r.next.get_by_id ctx id) _ _
        (source.get_same ctx id) (source.get_found ctx id) (failing _ _)
        (λ p h. returning (product_read id p) (h.1, found id p h.0))

  page_missed-Reads :
      (limit offset : ℤ) → Reads (advance json fuel r ctx (page_missed limit offset))
  page_missed-Reads limit offset =
      store_then (λ ps. Paged listing s (effective_limit limit) offset ps)
        (r.next.list ctx (effective_limit limit) offset) _ _
        (source.list_same ctx (effective_limit limit) offset)
        (source.list_found ctx (effective_limit limit) offset) (failing _ _)
        (λ ps h. returning (page_read limit offset ps) (listed _ _ ps h))

  product_read-Reads :
      (id : String) (p : Product)
      → p.id ≡ id
      → H id p
      → Reads (advance json fuel r ctx (product_read id p))
  product_read-Reads id p own h =
      redis_then (λ _. Unit {0}) (Redis.set_product json r.cache ctx p) _ _
        (set_product-Holds entries json r.cache laws codec K L ctx p
          (subst (λ k. K k p) (sym own) (keep id p h)))
        (λ e. counted _ _ _ (returning (returned (get id) (ok (p ∷ []))) (keep id p h)))
        (λ _ _. returning (returned (get id) (ok (p ∷ []))) (keep id p h))

  page_read-Reads :
      (limit offset : ℤ) (ps : List Product)
      → L (effective_limit limit) offset ps
      → Reads (advance json fuel r ctx (page_read limit offset ps))
  page_read-Reads limit offset ps h =
      redis_then (λ _. Unit {0})
        (Redis.set_product_list json r.cache ctx (effective_limit limit) offset ps) _ _
        (set_product_list-Holds entries json r.cache laws codec K L ctx (effective_limit limit)
          offset ps h)
        (λ e. counted _ _ _ (returning (returned (list limit offset) (ok ps)) h))
        (λ _ _. returning (returned (list limit offset) (ok ps)) h)

  -- The step of a read leaves the next repository, and keeps what is in the cache and held of its kind.
  pub read-IsHeld :
      (pc : Pc) (st : CachedState R S)
      → IsReading pc
      → st.store ≡ s
      → InCache st.redis
      → IsHeld K H L pc
      → Stays (advance json fuel r ctx pc st).1
        × Post (IsHeld K H L) (advance json fuel r ctx pc st).0
  read-IsHeld (started (get id)) st reading same h held = (get_started id).at st (same, h)
  read-IsHeld (started (list limit offset)) st reading same h held =
      (list_started limit offset).at st (same, h)
  read-IsHeld (started (create cmd)) st reading same h held = absurd reading
  read-IsHeld (started (update cmd)) st reading same h held = absurd reading
  read-IsHeld (started (stock id delta)) st reading same h held = absurd reading
  read-IsHeld (product_missed id) st reading same h held = (product_missed-Reads id).at st (same, h)
  read-IsHeld (product_read id p) st reading same h held =
      (product_read-Reads id p held.0 held.1).at st (same, h)
  read-IsHeld (page_missed limit offset) st reading same h held =
      (page_missed-Reads limit offset).at st (same, h)
  read-IsHeld (page_read limit offset ps) st reading same h held =
      (page_read-Reads limit offset ps held).at st (same, h)
  read-IsHeld (stored call id p) st reading same h held = absurd reading
  read-IsHeld (dropped call p) st reading same h held = absurd reading
  read-IsHeld (returned call reply) st reading same h held = absurd reading
