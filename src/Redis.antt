-- ===== src/Redis.antt =====
-- internal/repository/redis: the cache of products and of pages of products in Redis. The client of
-- go-redis and encoding/json are not code of this repository: they are parameters, the records
-- `RedisClient` and `Json`. Logs and spans are left out.
pub mod Keys
pub mod Server
pub mod Scan
pub mod Entries
use Prim.Native.String.{◌++◌ as str_append}
use shop_catalog_service.Common.{
  ℕ, zero, suc, String, Bool, true, false, Option, none, some, List, [], ◌∷◌, ◌++◌, if◌then◌else◌,
}
use shop_catalog_service.Common.Int.{ℤ, pos, leb_ℤ}
use shop_catalog_service.Common.Decimal.{int_text}
use shop_catalog_service.Errors.{plain, redis_nil, error_is}
use shop_catalog_service.Exec.{Result, ok, err, Exec, pure, fail, crash, lift, handle, ◌>>=◌, ◌>>◌}
use shop_catalog_service.Domain.{Product}
use shop_catalog_service.Repository.{Context}
use shop_catalog_service.Service.{Logger}

-- What the cache calls of *redis.Client, over the server's state: Get, Set with a ttl, Del of
-- several keys, and one step of Scan, from a cursor, with a pattern and a count.
pub record RedisClient (R : Type 0) : Type 0 where
  pub get : Context → String → Exec R String
  pub set : Context → String → String → ℤ → Exec R (Unit {0})
  pub del : Context → List String → Exec R (Unit {0})
  pub scan : Context → ℕ → String → ℕ → Exec R (List String × ℕ)

-- productCacheValue
pub record ProductCacheValue : Type 0 where
  pub id : String
  pub sku : String
  pub name : String
  pub description : String
  pub price_cents : ℤ
  pub currency : String
  pub stock : ℤ
  pub active : Bool

-- productListCacheValue
pub record ProductListCacheValue : Type 0 where
  pub items : List ProductCacheValue

-- json.Marshal and json.Unmarshal at the two cache values.
pub record Json : Type 0 where
  pub marshal_product : ProductCacheValue → Result String
  pub unmarshal_product : String → Result ProductCacheValue
  pub marshal_list : ProductListCacheValue → Result String
  pub unmarshal_list : String → Result ProductListCacheValue

-- Cache; its logger is only written to.
pub record Cache (R : Type 0) : Type 0 where
  pub logger : Logger
  pub client : RedisClient R
  pub ttl : ℤ

-- NewCache, with the logger that slog.Default returns.
unfoldable pub new_cache :
    {R : Type 0} → Logger → Option Logger → Option (RedisClient R) → ℤ → Result (Cache R)
new_cache default logger none ttl = err (plain "redis client is empty")
new_cache default logger (some client) ttl =
    let logger' : Logger = elim logger [ none ↦ default | some l ↦ l ] in
    if leb_ℤ ttl (pos 0)
    then err (plain "redis ttl must be > 0")
    else ok (record { logger = logger'; client = client; ttl = ttl })

-- productKey
pub product_key : String → String
product_key id = str_append "catalog:product:" id

-- productListKey
pub product_list_key : ℤ → ℤ → String
product_list_key limit offset =
    str_append "catalog:list:v1:limit="
      (str_append (int_text limit) (str_append ":offset=" (int_text offset)))

abbrev pub list_pattern : String
list_pattern = "catalog:list:v1:*"

-- The composite literals that copy the fields, both ways.
pub to_cache_value : Product → ProductCacheValue
to_cache_value p = record {
  id = p.id;
  sku = p.sku;
  name = p.name;
  description = p.description;
  price_cents = p.price_cents;
  currency = p.currency;
  stock = p.stock;
  active = p.active;
}

pub from_cache_value : ProductCacheValue → Product
from_cache_value v = record {
  id = v.id;
  sku = v.sku;
  name = v.name;
  description = v.description;
  price_cents = v.price_cents;
  currency = v.currency;
  stock = v.stock;
  active = v.active;
}

-- The loops that copy a list.
pub to_items : List Product → List ProductCacheValue
to_items [] = []
to_items (p ∷ ps) = to_cache_value p ∷ to_items ps

pub from_items : List ProductCacheValue → List Product
from_items [] = []
from_items (v ∷ vs) = from_cache_value v ∷ from_items vs

module _ {R : Type 0} (json : Json) (cache : Cache R) where
  -- GetProduct; a miss is `none`, for the Boolean false with a zero product.
  unfoldable pub get_product : Context → String → Exec R (Option Product)
  unfolding product_key from_cache_value
  get_product ctx id =
      handle (cache.client.get ctx (product_key id))
        (λ e. if error_is e redis_nil then pure none else fail e)
        (λ raw.
          lift (json.unmarshal_product raw) >>= λ cached. pure (some (from_cache_value cached)))

  -- SetProduct
  unfoldable pub set_product : Context → Product → Exec R (Unit {0})
  unfolding product_key to_cache_value
  set_product ctx product = lift (json.marshal_product (to_cache_value product)) >>= λ payload.
      cache.client.set ctx (product_key product.id) payload cache.ttl

  -- GetProductList
  pub get_product_list : Context → ℤ → ℤ → Exec R (Option (List Product))
  unfolding product_list_key from_items
  get_product_list ctx limit offset =
      handle (cache.client.get ctx (product_list_key limit offset))
        (λ e. if error_is e redis_nil then pure none else fail e)
        (λ raw. lift (json.unmarshal_list raw) >>= λ cached. pure (some (from_items cached.items)))

  -- SetProductList
  pub set_product_list : Context → ℤ → ℤ → List Product → Exec R (Unit {0})
  unfolding product_list_key to_items
  set_product_list ctx limit offset products =
      lift (json.marshal_list (record { items = to_items products })) >>= λ payload.
      cache.client.set ctx (product_list_key limit offset) payload cache.ttl

module _ {R : Type 0} (cache : Cache R) (ctx : Context) where
  -- DeleteProduct
  unfoldable pub delete_product : String → Exec R (Unit {0})
  unfolding product_key
  delete_product id = cache.client.del ctx (product_key id ∷ [])

  -- The loop over SCAN, from a cursor, with the keys found so far; without fuel it has not ended,
  -- which counts as a panic here.
  pub scan_loop : ℕ → ℕ → List String → Exec R (List String)
  scan_loop zero cursor found = crash
  scan_loop (suc f) cursor found = cache.client.scan ctx cursor list_pattern 100 >>= λ page.
      let found' = found ++ page.0 in
      elim page.1 [ zero ↦ pure found' | suc n ↦ scan_loop f (suc n) found' ]

  -- Del of what was found, unless that is nothing.
  pub delete_found : List String → Exec R (Unit {0})
  delete_found [] = pure tt
  delete_found (k ∷ ks) = cache.client.del ctx (k ∷ ks)

  -- InvalidateListCache
  unfoldable pub invalidate_list_cache : ℕ → Exec R (Unit {0})
  unfolding scan_loop delete_found
  invalidate_list_cache fuel = scan_loop fuel 0 [] >>= delete_found
