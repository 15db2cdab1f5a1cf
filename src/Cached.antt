-- ===== src/Cached.antt =====
-- internal/repository/cached/product_repository.go: a repository that reads through the Redis cache
-- and writes to the next repository, after which it drops what is stale. Its own state is the counter
-- `catalog_cache_requests_total{method,result}`.
pub mod Parts
pub mod Coherence
pub mod Writes
pub mod Steps
pub mod Interleaving
use shop_catalog_service.Common.{ℕ, String, Option, none, some, List, ◌∷◌}
use shop_catalog_service.Common.Int.{ℤ}
use shop_catalog_service.Errors.{Error, plain}
use shop_catalog_service.Exec.{Result, ok, err, Exec, pure, fail, handle, ◌>>=◌, ◌>>◌}
use shop_catalog_service.Domain.{Product, CreateProductCommand, UpdateProductCommand}
use shop_catalog_service.Repository.{Context, ProductRepository}
use shop_catalog_service.Service.{Logger, CounterVec}
use shop_catalog_service.Redis
use shop_catalog_service.Redis.{Cache, Json}

-- ProductRepository
pub record CachedRepository (R S : Type 0) : Type 0 where
  pub logger : Logger
  pub cache : Cache R
  pub next : ProductRepository S

-- What a call reads and writes: the counter, the Redis server, and the next repository's state.
pub record CachedState (R S : Type 0) : Type 0 where
  pub cache_requests : CounterVec
  pub redis : R
  pub store : S

-- NewProductRepository, with the logger that slog.Default returns.
unfoldable pub new_cached_repository :
    {R S : Type 0}
    → Logger
    → Option Logger
    → Option (Cache R)
    → Option (ProductRepository S)
    → Result (CachedRepository R S)
new_cached_repository default logger cache none = err (plain "next repository is empty")
new_cached_repository default logger none (some next) = err (plain "cache is empty")
new_cached_repository default none (some cache) (some next) =
    ok (record { logger = default; cache = cache; next = next })
new_cached_repository default (some l) (some cache) (some next) =
    ok (record { logger = l; cache = cache; next = next })

module _ {R S : Type 0} where
  -- metrics.CacheRequestsTotal.WithLabelValues(operation, result).Inc()
  abbrev pub count_cache : String → String → Exec (CachedState R S) (Unit {0})
  count_cache operation result st =
      (ok tt, record st { cache_requests = (operation, result) ∷ st.cache_requests })

  -- A call of the cache, and one of the next repository, inside the state.
  abbrev pub on_redis : {A : Type 0} → Exec R A → Exec (CachedState R S) A
  on_redis m st = let (r, s') = m st.redis in (r, record st { redis = s' })

  abbrev pub on_store : {A : Type 0} → Exec S A → Exec (CachedState R S) A
  on_store m st = let (r, s') = m st.store in (r, record st { store = s' })

  -- A call whose error is only logged.
  abbrev ignoring_error : Exec (CachedState R S) (Unit {0}) → Exec (CachedState R S) (Unit {0})
  ignoring_error m = handle m (λ e. pure tt) pure

module _ {R S : Type 0} (json : Json) (r : CachedRepository R S) where
  -- SetProduct after a miss: a failure is counted, and the product returned all the same.
  unfoldable pub remember_product : Context → Product → Exec (CachedState R S) Product
  remember_product ctx product =
      handle (on_redis (Redis.set_product json r.cache ctx product))
        (λ e. count_cache "GetProduct" "set_error" >> pure product) (λ _. pure product)

  -- What follows the look into the cache.
  unfoldable pub product_after : Context → String → Option Product → Exec (CachedState R S) Product
  unfolding remember_product
  product_after ctx id (some product) = count_cache "GetProduct" "hit" >> pure product
  product_after ctx id none =
      count_cache "GetProduct" "miss"
      >> handle (on_store (r.next.get_by_id ctx id))
          (λ e. count_cache "GetProduct" "error" >> fail e) (remember_product ctx)

  -- GetByID
  unfoldable pub get_by_id : Context → String → Exec (CachedState R S) Product
  unfolding product_after
  get_by_id ctx id =
      handle (on_redis (Redis.get_product json r.cache ctx id))
        (λ e. count_cache "GetProduct" "error" >> fail e) (product_after ctx id)

  -- SetProductList after a miss; its failures are counted as "GetProductList".
  pub remember_list : Context → ℤ → ℤ → List Product → Exec (CachedState R S) (List Product)
  remember_list ctx limit offset products =
      handle (on_redis (Redis.set_product_list json r.cache ctx limit offset products))
        (λ e. count_cache "GetProductList" "set_error" >> pure products) (λ _. pure products)

  -- What follows the look into the cache; an error of the next repository is counted as "List".
  pub list_after : Context → ℤ → ℤ → Option (List Product) → Exec (CachedState R S) (List Product)
  unfolding remember_list
  list_after ctx limit offset (some products) = count_cache "ListProducts" "hit" >> pure products
  list_after ctx limit offset none =
      count_cache "ListProducts" "miss"
      >> handle (on_store (r.next.list ctx limit offset))
          (λ e. count_cache "List" "error" >> fail e) (remember_list ctx limit offset)

  -- List
  unfoldable pub list : Context → ℤ → ℤ → Exec (CachedState R S) (List Product)
  unfolding list_after
  list ctx limit offset =
      handle (on_redis (Redis.get_product_list json r.cache ctx limit offset))
        (λ e. count_cache "ListProducts" "error" >> fail e) (list_after ctx limit offset)

module _ {R S : Type 0} (fuel : ℕ) (r : CachedRepository R S) where
  -- invalidateListCache, where its caller logs an error and goes on.
  unfoldable pub drop_lists : Context → Exec (CachedState R S) (Unit {0})
  drop_lists ctx = ignoring_error (on_redis (Redis.invalidate_list_cache r.cache ctx fuel))

  -- DeleteProduct, in the same way.
  unfoldable pub drop_product : Context → String → Exec (CachedState R S) (Unit {0})
  drop_product ctx id = ignoring_error (on_redis (Redis.delete_product r.cache ctx id))

  -- Create
  unfoldable pub create : Context → CreateProductCommand → Exec (CachedState R S) Product
  unfolding drop_lists
  create ctx cmd = on_store (r.next.create ctx cmd) >>= λ product. drop_lists ctx >> pure product

  -- Update
  unfoldable pub update : Context → UpdateProductCommand → Exec (CachedState R S) Product
  unfolding drop_lists drop_product
  update ctx cmd = on_store (r.next.update ctx cmd) >>= λ product.
      drop_product ctx product.id >> (drop_lists ctx >> pure product)

  -- UpdateStock
  unfoldable pub update_stock : Context → String → ℤ → Exec (CachedState R S) Product
  unfolding drop_lists drop_product
  update_stock ctx product_id delta =
      on_store (r.next.update_stock ctx product_id delta) >>= λ product.
      drop_product ctx product_id >> (drop_lists ctx >> pure product)

-- The methods as the interface that the service takes.
unfoldable pub cached_repository :
    {R S : Type 0} → Json → ℕ → CachedRepository R S → ProductRepository (CachedState R S)
cached_repository json fuel r = record {
  list = list json r;
  get_by_id = get_by_id json r;
  create = create fuel r;
  update = update fuel r;
  update_stock = update_stock fuel r;
}
