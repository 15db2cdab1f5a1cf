-- ===== src/Redis/Server.antt =====
-- What the cache relies on of a Redis server, by the documentation of GET, SET, DEL and SCAN, and of
-- encoding/json. Any call may fail, and any entry may expire before or during any call.
use shop_catalog_service.Common.{true, ℕ, suc, String, ◌≡◌, ◌⊎◌, Option, none, some, List, ◌++◌}
use shop_catalog_service.Common.Int.{ℤ}
use shop_catalog_service.Exec.{ok}
use shop_catalog_service.Repository.{Context}
use shop_catalog_service.Redis.{
  RedisClient, Json, ProductCacheValue, ProductListCacheValue, list_pattern,
}
use shop_catalog_service.Redis.Keys.{IsListKey}
use shop_catalog_service.Common.Lists.{has_text}

module _ {R : Type 0} (entries : R → String → Option String) where
  -- No entry of the later state is new.
  abbrev pub Shrinks : R → R → Type 0
  Shrinks r r' = (k v : String) → entries r' k ≡ some v → entries r k ≡ some v

  -- A full iteration of SCAN over the list pattern: steps from a cursor until the server returns
  -- cursor 0, with the keys of all steps.
  pub data Iterates (client : RedisClient R) (ctx : Context)
      : ℕ → R → List String → R → Type 0 where
    last :
        (c : ℕ) (r r' : R) (keys : List String)
        → client.scan ctx c list_pattern 100 r ≡ (ok (keys, 0), r')
        → Iterates client ctx c r keys r'
    step :
        (c n : ℕ) (r r' r'' : R) (keys rest : List String)
        → client.scan ctx c list_pattern 100 r ≡ (ok (keys, suc n), r')
        → Iterates client ctx (suc n) r' rest r''
        → Iterates client ctx c r (keys ++ rest) r''

  pub record IsRedis (client : RedisClient R) : Type 0 where
    -- GET changes nothing but what expires, and returns the value of the key.
    pub get_shrinks : (ctx : Context) (k : String) (r : R) → Shrinks r (client.get ctx k r).1
    pub get_value :
        (ctx : Context) (k v : String) (r : R)
        → (client.get ctx k r).0 ≡ ok v
        → entries r k ≡ some v
    -- SET changes at most its own key, to its value, also where it fails.
    pub set_entry :
        (ctx : Context) (k v : String) (ttl : ℤ) (r : R) (k' v' : String)
        → entries (client.set ctx k v ttl r).1 k' ≡ some v'
        → ((k' ≡ k) × (v' ≡ v)) ⊎ (entries r k' ≡ some v')
    -- DEL adds nothing, and where it succeeds its keys are gone.
    pub del_shrinks : (ctx : Context) (ks : List String) (r : R) → Shrinks r (client.del ctx ks r).1
    pub del_gone :
        (ctx : Context) (ks : List String) (r : R)
        → (client.del ctx ks r).0 ≡ ok tt
        → (k : String) → has_text k ks ≡ true
        → entries (client.del ctx ks r).1 k ≡ none
    -- SCAN changes nothing but what expires; a full iteration from cursor 0 returns every key of
    -- the pattern that is there at its end, as a sequence of calls by one client adds none.
    pub scan_shrinks :
        (ctx : Context) (c : ℕ) (p : String) (n : ℕ) (r : R) → Shrinks r (client.scan ctx c p n r).1
    pub scan_complete :
        (ctx : Context) (r r' : R) (keys : List String)
        → Iterates client ctx 0 r keys r'
        → (k v : String) → IsListKey k
        → entries r' k ≡ some v
        → has_text k keys ≡ true

-- What Marshal writes, Unmarshal reads back.
pub record IsJson (json : Json) : Type 0 where
  pub product :
      (v : ProductCacheValue) (raw : String)
      → json.marshal_product v ≡ ok raw
      → json.unmarshal_product raw ≡ ok v
  pub list :
      (v : ProductListCacheValue) (raw : String)
      → json.marshal_list v ≡ ok raw
      → json.unmarshal_list raw ≡ ok v
