-- ===== src/Tests/Caching.antt =====
-- The cache and the cached repository over a server that answers every call.
use shop_catalog_service.Common.{arith, ◌≡◌, refl, none, some, [], ◌∷◌}
use shop_catalog_service.Common.Int.{◌+ℤ◌, pos, negsuc}
use shop_catalog_service.Exec.{err, ok}
use shop_catalog_service.Domain.{Product, CreateProductCommand, UpdateProductCommand}
use shop_catalog_service.InMemory
use shop_catalog_service.InMemory.{
  has_sku, Store, repository, new_product, merge, numbered_id, store_product,
}
use shop_catalog_service.InMemory.Source.{find, listing, repository-IsSource}
use shop_catalog_service.Redis.{
  new_cache, get_product, set_product, delete_product, product_list_key, invalidate_list_cache,
  scan_loop,
}
use shop_catalog_service.Redis.Keys.{product_list_key-IsListKey}
use shop_catalog_service.Redis.Server.{Iterates, last}
use shop_catalog_service.Redis.Scan.{scan_loop_enough, invalidate_list_cache_gone}
use shop_catalog_service.Cached
use shop_catalog_service.Service
use shop_catalog_service.Cached.{
  new_cached_repository, cached_repository, CachedRepository, CachedState,
}
use shop_catalog_service.Cached.Coherence.{IsCoherent, get_by_id-IsCoherent, list-IsCoherent}
use shop_catalog_service.Cached.Writes.{
  update-IsCoherent, update_stock-IsCoherent, create-IsCoherent, Drops,
}
use shop_catalog_service.Fixtures.{live, logger, mug, mug_command, one_mug, one_mug-IsConsistent}
use shop_catalog_service.Fixtures.Server.{
  server, Entries, entry, cache, json, server-IsRedis, json-IsJson,
}
use shop_catalog_service.Exec.Ensures.{Post}
use shop_catalog_service.Common.Word.{add32}
use mathlib.Core.Path.{subst}
use shop_catalog_service.Common.Decimal.{int_text}
use shop_catalog_service.Service.Calls.{get, wired, serve}
use shop_catalog_service.Service.{initialized}
use shop_catalog_service.Errors.{plain}
use shop_catalog_service.Common.Text.{is_space, trim_space}
use shop_catalog_service.InMemory.Lawful.{other_id}

abbrev repo : CachedRepository Entries Store
repo = record { logger = logger; cache = cache; next = repository }

-- A server that has the product and a page.
abbrev filled : Entries
filled = ("catalog:product:prod-1", "mug") ∷ ("catalog:list:v1:limit=5:offset=0", "[mug]") ∷ []

abbrev cold : CachedState Entries Store
cold = record { cache_requests = []; redis = []; store = one_mug }

cold-IsCoherent : IsCoherent entry json repo find listing cold
cold-IsCoherent = record { product = λ id raw v e read. cc; list = λ l o raw v e read. cc }

-- The first read misses, and what it stores is there for the second.
miss_test : (Cached.get_by_id json repo live "prod-1" cold).1 ≡ record {
  cache_requests = ("GetProduct", "miss") ∷ [];
  redis = ("catalog:product:prod-1", "mug") ∷ [];
  store = one_mug;
}
unfolding Cached.get_by_id Cached.product_after Cached.remember_product get_product repository
    InMemory.get_by_id set_product
miss_test = refl

hit_test : (Cached.get_by_id json repo live "prod-1" (record cold { redis = filled })).0 ≡ ok mug
unfolding Cached.get_by_id Cached.product_after get_product
hit_test = refl

abbrev pages :
    Iterates entry cache.client live 0 filled
      ("catalog:product:prod-1" ∷ "catalog:list:v1:limit=5:offset=0" ∷ [])
      filled
pages = last 0 filled filled _ refl

scan_loop_enough_example :
    scan_loop cache live 3 0 [] filled
    ≡ (ok ("catalog:product:prod-1" ∷ "catalog:list:v1:limit=5:offset=0" ∷ []), filled)
scan_loop_enough_example =
    scan_loop_enough entry cache live 3 0 filled filled
      ("catalog:product:prod-1" ∷ "catalog:list:v1:limit=5:offset=0" ∷ []) [] pages (omega arith)

invalidate_list_cache_gone_example :
    entry (invalidate_list_cache cache live 3 filled).1 (product_list_key (pos 5) (pos 0)) ≡ none
unfolding invalidate_list_cache
invalidate_list_cache_gone_example =
    invalidate_list_cache_gone entry cache live 3 filled server-IsRedis refl
      (product_list_key (pos 5) (pos 0)) (product_list_key-IsListKey (pos 5) (pos 0))

get_by_id-IsCoherent_example :
    IsCoherent entry json repo find listing (Cached.get_by_id json repo live "prod-1" cold).1
    × ((Cached.get_by_id json repo live "prod-1" cold).1.store ≡ one_mug)
    × Post (λ p. find one_mug "prod-1" ≡ some p) (Cached.get_by_id json repo live "prod-1" cold).0
get_by_id-IsCoherent_example =
    get_by_id-IsCoherent entry json repo find listing server-IsRedis json-IsJson one_mug
      (repository-IsSource one_mug one_mug-IsConsistent) live "prod-1" cold refl cold-IsCoherent

list-IsCoherent_example :
    IsCoherent entry json repo find listing (Cached.list json repo live (pos 5) (pos 0) cold).1
    × ((Cached.list json repo live (pos 5) (pos 0) cold).1.store ≡ one_mug)
    × Post
        (λ ps. listing one_mug (pos 5) (pos 0) ≡ some ps)
        (Cached.list json repo live (pos 5) (pos 0) cold).0
list-IsCoherent_example =
    list-IsCoherent entry json repo find listing server-IsRedis json-IsJson one_mug
      (repository-IsSource one_mug one_mug-IsConsistent) live (pos 5) (pos 0) cold refl
      cold-IsCoherent

abbrev warm : CachedState Entries Store
warm = record {
  cache_requests = ("GetProduct", "miss") ∷ [];
  redis = ("catalog:product:prod-1", "mug") ∷ [];
  store = one_mug;
}

warm-IsCoherent : IsCoherent entry json repo find listing warm
warm-IsCoherent =
    subst (λ st. IsCoherent entry json repo find listing st) miss_test
      (get_by_id-IsCoherent entry json repo find listing server-IsRedis json-IsJson one_mug
        (repository-IsSource one_mug one_mug-IsConsistent) live "prod-1" cold refl
        cold-IsCoherent).0

abbrev rename : UpdateProductCommand
rename = record {
  id = "prod-1";
  name = some "Cup";
  description = none;
  price_cents = none;
  active = none;
}

abbrev cup : Product
cup = record mug { name = "Cup" }

abbrev sold : Product
sold = record mug { stock = pos 0 }

abbrev pen_command : CreateProductCommand
pen_command = record mug_command { sku = "SKU-PEN"; name = "Pen" }

abbrev pen : Product
pen = record mug { id = "prod-2"; sku = "SKU-PEN"; name = "Pen" }

abbrev two : Store
two = record { products = mug ∷ pen ∷ []; by_id = InMemory.insert "prod-2" pen one_mug.by_id }

drops : Drops entry 3 cache live "prod-1" warm.redis
unfolding delete_product invalidate_list_cache
drops = record { product = refl; lists = refl }

update-IsCoherent_example :
    ((Cached.update 3 repo live rename warm).0 ≡ ok cup)
    × ((Cached.update 3 repo live rename warm).1.store ≡ store_product cup one_mug)
    × IsCoherent entry json repo find listing (Cached.update 3 repo live rename warm).1
unfolding repository InMemory.update merge
update-IsCoherent_example =
    update-IsCoherent entry json 3 repo find listing live warm server-IsRedis warm-IsCoherent rename
      cup (store_product cup one_mug) refl (λ k ne. other_id cup one_mug.by_id "prod-1" k ne) drops

update_stock-IsCoherent_example :
    ((Cached.update_stock 3 repo live "prod-1" (negsuc 29) warm).0 ≡ ok sold)
    × ((Cached.update_stock 3 repo live "prod-1" (negsuc 29) warm).1.store
        ≡ store_product sold one_mug)
    × IsCoherent entry json repo find listing
        (Cached.update_stock 3 repo live "prod-1" (negsuc 29) warm).1
unfolding repository InMemory.update_stock add32 ◌+ℤ◌
update_stock-IsCoherent_example =
    update_stock-IsCoherent entry json 3 repo find listing live warm server-IsRedis warm-IsCoherent
      "prod-1" (negsuc 29) sold (store_product sold one_mug) refl
      (λ k ne. other_id sold one_mug.by_id "prod-1" k ne) drops

create-IsCoherent_example :
    ((Cached.create 3 repo live pen_command warm).0 ≡ ok pen)
    × ((Cached.create 3 repo live pen_command warm).1.store ≡ two)
    × IsCoherent entry json repo find listing (Cached.create 3 repo live pen_command warm).1
unfolding repository InMemory.create has_sku numbered_id int_text new_product invalidate_list_cache
create-IsCoherent_example =
    create-IsCoherent entry json 3 repo find listing live warm server-IsRedis warm-IsCoherent
      pen_command pen two refl refl (λ k ne. other_id pen one_mug.by_id "prod-2" k ne) refl

-- The constructors, with every part given and with one missing.
constructors_test :
    (new_cache logger none (some server) (pos 60) ≡ ok cache)
    × (new_cache logger none (some server) (pos 0) ≡ err (plain "redis ttl must be > 0"))
    × (new_cached_repository logger none (some cache) (some repository) ≡ ok repo)
    × (new_cached_repository {R = Entries} logger none none (some repository)
        ≡ err (plain "cache is empty"))
unfolding new_cache new_cached_repository
constructors_test = (refl, refl, refl, refl)

-- The service over the cached repository answers from a warm cache.
layers_test :
    (serve
      (wired logger (cached_repository json 3 repo))
      live
      (get "prod-1")
      (record { requests_total = []; repo = warm })).0
    ≡ ok (mug ∷ [])
unfolding serve Service.get_product Service.get_checked initialized cached_repository
    Cached.get_by_id Cached.product_after get_product trim_space is_space
layers_test = refl
