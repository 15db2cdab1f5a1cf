-- ===== src/Cached/Steps.antt =====
-- The methods of internal/repository/cached/product_repository.go, cut at their calls of the cache and
-- of the next repository: between two of these, other goroutines and other instances make theirs.
use shop_catalog_service.Common.{ℕ, String, Option, none, some, List, [], ◌∷◌}
use shop_catalog_service.Common.Int.{ℤ}
use shop_catalog_service.Exec.{Result, ok, err, panic, Exec, pure, fail, handle, ◌>>=◌, ◌>>◌}
use shop_catalog_service.Domain.{Product}
use shop_catalog_service.Repository.{Context}
use shop_catalog_service.Service.{effective_limit}
use shop_catalog_service.Service.Calls.{Call, list, get, create, update, stock, Reply}
use shop_catalog_service.Redis
use shop_catalog_service.Redis.{Json}
use shop_catalog_service.Cached.{
  CachedRepository, CachedState, count_cache, on_redis, on_store, drop_product, drop_lists,
}

-- Where a call stands: before its first step; a read before it asks the next repository and before
-- it stores the answer in the cache; a write before it drops the product's entry and before it drops
-- the pages; at its end.
pub data Pc : Type 0 where
  started : Call → Pc
  product_missed : String → Pc
  product_read : String → Product → Pc
  page_missed : ℤ → ℤ → Pc
  page_read : ℤ → ℤ → List Product → Pc
  stored : Call → String → Product → Pc
  dropped : Call → Product → Pc
  returned : Call → Result Reply → Pc

abbrev pub call_of : Pc → Call
call_of (started call) = call
call_of (product_missed id) = get id
call_of (product_read id p) = get id
call_of (page_missed limit offset) = list limit offset
call_of (page_read limit offset ps) = list limit offset
call_of (stored call id p) = call
call_of (dropped call p) = call
call_of (returned call reply) = call

-- A step that fails or panics ends its call.
abbrev pub settled : Call → Result Pc → Pc
settled call (ok pc) = pc
settled call (err e) = returned call (err e)
settled call panic = returned call panic

module _ {R S : Type 0} (json : Json) (fuel : ℕ) (r : CachedRepository R S) (ctx : Context) where
  -- GetByID and List behind the look into the cache.
  abbrev pub product_looked : String → Option Product → Exec (CachedState R S) Pc
  product_looked id (some p) =
      count_cache "GetProduct" "hit" >> pure (returned (get id) (ok (p ∷ [])))
  product_looked id none = count_cache "GetProduct" "miss" >> pure (product_missed id)

  abbrev pub page_looked : ℤ → ℤ → Option (List Product) → Exec (CachedState R S) Pc
  page_looked limit offset (some ps) =
      count_cache "ListProducts" "hit" >> pure (returned (list limit offset) (ok ps))
  page_looked limit offset none =
      count_cache "ListProducts" "miss" >> pure (page_missed limit offset)

  -- The next step of a call, with the count that follows it.
  abbrev pub advance : Pc → Exec (CachedState R S) Pc
  advance (started (get id)) =
      handle (on_redis (Redis.get_product json r.cache ctx id))
        (λ e. count_cache "GetProduct" "error" >> fail e) (product_looked id)
  advance (started (list limit offset)) =
      handle (on_redis (Redis.get_product_list json r.cache ctx (effective_limit limit) offset))
        (λ e. count_cache "ListProducts" "error" >> fail e) (page_looked limit offset)
  advance (started (create cmd)) =
      on_store (r.next.create ctx cmd) >>= λ p. pure (dropped (create cmd) p)
  advance (started (update cmd)) =
      on_store (r.next.update ctx cmd) >>= λ p. pure (stored (update cmd) p.id p)
  advance (started (stock id delta)) =
      on_store (r.next.update_stock ctx id delta) >>= λ p. pure (stored (stock id delta) id p)
  advance (product_missed id) =
      handle (on_store (r.next.get_by_id ctx id)) (λ e. count_cache "GetProduct" "error" >> fail e)
        (λ p. pure (product_read id p))
  advance (product_read id p) =
      handle (on_redis (Redis.set_product json r.cache ctx p))
        (λ e. count_cache "GetProduct" "set_error" >> pure (returned (get id) (ok (p ∷ []))))
        (λ _. pure (returned (get id) (ok (p ∷ []))))
  advance (page_missed limit offset) =
      handle (on_store (r.next.list ctx (effective_limit limit) offset))
        (λ e. count_cache "List" "error" >> fail e) (λ ps. pure (page_read limit offset ps))
  advance (page_read limit offset ps) =
      handle (on_redis (Redis.set_product_list json r.cache ctx (effective_limit limit) offset ps))
        (λ e.
          count_cache "GetProductList" "set_error" >> pure (returned (list limit offset) (ok ps)))
        (λ _. pure (returned (list limit offset) (ok ps)))
  advance (stored call id p) = drop_product fuel r ctx id >> pure (dropped call p)
  advance (dropped call p) = drop_lists fuel r ctx >> pure (returned call (ok (p ∷ [])))
  advance (returned call reply) = pure (returned call reply)

  unfoldable pub move : Pc → CachedState R S → Pc × CachedState R S
  move pc st = let (result, st') = advance pc st in (settled (call_of pc) result, st')
