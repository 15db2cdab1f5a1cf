-- ===== src/Cached/Interleaving/Fair/Writes.antt =====
-- One step of any call of internal/repository/cached/product_repository.go, a write too: the products and
-- pages in the cache, and those that the call holds, stay of their kinds.
use shop_catalog_service.Cached.Interleaving.Fair.{read-IsHeld}
use shop_catalog_service.Common.{ℕ, ◌≡◌, String, Option, List, [], ◌∷◌}
use shop_catalog_service.Common.Int.{ℤ}
use shop_catalog_service.Exec.{ok, Exec, pure, fail, handle, ◌>>=◌, ◌>>◌}
use shop_catalog_service.Exec.Ensures.{
  Ensures, Ensures-handle, Ensures-pure, Ensures-fail, Post, any,
}
use shop_catalog_service.Domain.{Product}
use shop_catalog_service.Repository.{Context}
use shop_catalog_service.Service.Calls.{Call, list, get, create, update, stock}
use shop_catalog_service.Redis
use shop_catalog_service.Redis.{product_key, Json}
use shop_catalog_service.Redis.Server.{IsRedis, IsJson, Shrinks}
use shop_catalog_service.Redis.Entries.{Holds, Shrinks-Holds}
use shop_catalog_service.Redis.Scan.{invalidate_list_cache-Shrinks}
use shop_catalog_service.Cached.{
  CachedRepository, CachedState, on_redis, on_store, drop_product, drop_lists,
}
use shop_catalog_service.Cached.Coherence.{IsSource, Stored, Paged}
use shop_catalog_service.Cached.Steps.{
  Pc, started, product_missed, product_read, page_missed, page_read, stored, dropped, returned,
  advance,
}
use shop_catalog_service.Cached.Interleaving.Held.{IsReading, IsAnswerOf-write, IsHeld, IsWrite}

module _ {R S : Type 0} (find : S → String → Option Product)
    (listing : S → ℤ → ℤ → Option (List Product)) (entries : R → String → Option String)
    (json : Json) (fuel : ℕ) (r : CachedRepository R S) (laws : IsRedis entries r.cache.client)
    (codec : IsJson json) (K H : String → Product → Type 0) (L : ℤ → ℤ → List Product → Type 0)
    (ctx : Context) (s : S) (source : IsSource r.next find listing s)
    (keep : (id : String) (p : Product) → H id p → K id p)
    (found : (id : String) (p : Product) → Stored find s id p → H id p)
    (listed : (limit offset : ℤ) (ps : List Product)
      → Paged listing s limit offset ps
      → L limit offset ps) where
  abbrev InCache : R → Type 0
  InCache = Holds entries json K L

  -- A write's step: it may change the next repository, and adds no entry to the cache.
  abbrev Shared : CachedState R S → Type 0
  Shared st = InCache st.redis

  abbrev Writes : Exec (CachedState R S) Pc → Type 0
  Writes = Ensures Shared (IsHeld K H L)

  writing : (pc : Pc) → IsHeld K H L pc → Writes (pure pc)
  writing pc h = Ensures-pure Shared (IsHeld K H L) pc h

  write_then :
      {A : Type 0} (m : Exec S A) (g : A → Exec (CachedState R S) Pc)
      → ((a : A) → Writes (g a))
      → Writes (on_store m >>= g)
  write_then m g next =
      Ensures-handle Shared (λ _. Unit {0}) (IsHeld K H L) (on_store m) fail g
        (record { at = λ st h. (h, any (m st.store).0) })
        (λ e. Ensures-fail Shared (IsHeld K H L) e) (λ a _. next a)

  -- A deletion in Redis, whose error is only logged.
  drop_then :
      (m : Exec R (Unit {0})) (n : Exec (CachedState R S) Pc)
      → ((redis : R) → Shrinks entries redis (m redis).1)
      → Writes n
      → Writes (handle (on_redis m) (λ e. pure tt) pure >> n)
  drop_then m n fewer next =
      Ensures-handle Shared (λ _. Unit {0}) (IsHeld K H L) _ fail (λ _. n)
        (Ensures-handle Shared (λ _. Unit {0}) (λ _. Unit {0}) (on_redis m) (λ e. pure tt) pure
          (record {
            at = λ st h. (
              Shrinks-Holds entries json K L st.redis (m st.redis).1 (fewer st.redis) h,
              any (m st.redis).0,
            );
          })
          (λ e. Ensures-pure Shared (λ _. Unit {0}) tt tt)
          (λ a _. Ensures-pure Shared (λ _. Unit {0}) a tt))
        (λ e. Ensures-fail Shared (IsHeld K H L) e) (λ _ _. next)

  stored-Writes :
      (call : Call) (id : String) (p : Product)
      → IsWrite call
      → Writes (advance json fuel r ctx (stored call id p))
  unfolding drop_product
  stored-Writes call id p w =
      drop_then (Redis.delete_product r.cache ctx id) _
        (λ redis. unfold Redis.delete_product in laws.del_shrinks ctx (product_key id ∷ []) redis)
        (writing (dropped call p) w)

  dropped-Writes :
      (call : Call) (p : Product) → IsWrite call → Writes (advance json fuel r ctx (dropped call p))
  unfolding drop_lists
  dropped-Writes call p w =
      drop_then (Redis.invalidate_list_cache r.cache ctx fuel) _
        (λ redis. invalidate_list_cache-Shrinks entries r.cache ctx redis laws fuel)
        (writing (returned call (ok (p ∷ []))) (IsAnswerOf-write K H L (p ∷ []) call w))

  of_read :
      (pc : Pc) (st : CachedState R S)
      → IsReading pc
      → st.store ≡ s
      → InCache st.redis
      → IsHeld K H L pc
      → InCache (advance json fuel r ctx pc st).1.redis
        × Post (IsHeld K H L) (advance json fuel r ctx pc st).0
  of_read pc st reading same h held =
      let ((_, after), fair) =
        read-IsHeld find listing entries json fuel r laws codec K H L ctx s source keep found listed
          pc st reading same h held in
      (after, fair)

  -- After a step the entries of the cache, and what the call holds, are of their kinds.
  pub advance-IsHeld :
      (pc : Pc) (st : CachedState R S)
      → st.store ≡ s
      → InCache st.redis
      → IsHeld K H L pc
      → InCache (advance json fuel r ctx pc st).1.redis
        × Post (IsHeld K H L) (advance json fuel r ctx pc st).0
  advance-IsHeld (started (get id)) st same h fair = of_read (started (get id)) st tt same h fair
  advance-IsHeld (started (list limit offset)) st same h fair =
      of_read (started (list limit offset)) st tt same h fair
  advance-IsHeld (started (create cmd)) st same h fair =
      (write_then (r.next.create ctx cmd) _ (λ p. writing (dropped (create cmd) p) tt)).at st h
  advance-IsHeld (started (update cmd)) st same h fair =
      (write_then (r.next.update ctx cmd) _ (λ p. writing (stored (update cmd) p.id p) tt)).at st h
  advance-IsHeld (started (stock id delta)) st same h fair =
      (write_then (r.next.update_stock ctx id delta) _
          (λ p. writing (stored (stock id delta) id p) tt)).at
        st h
  advance-IsHeld (product_missed id) st same h fair = of_read (product_missed id) st tt same h fair
  advance-IsHeld (product_read id p) st same h fair = of_read (product_read id p) st tt same h fair
  advance-IsHeld (page_missed limit offset) st same h fair =
      of_read (page_missed limit offset) st tt same h fair
  advance-IsHeld (page_read limit offset ps) st same h fair =
      of_read (page_read limit offset ps) st tt same h fair
  advance-IsHeld (stored call id p) st same h fair = (stored-Writes call id p fair).at st h
  advance-IsHeld (dropped call p) st same h fair = (dropped-Writes call p fair).at st h
  advance-IsHeld (returned call reply) st same h fair = (h, fair)
