-- ===== src/Cached/Interleaving/Runs.antt =====
-- What holds of internal/repository/cached/product_repository.go in every state that a calm run of calls
-- of it reaches.
use shop_catalog_service.Common.{ℕ, ◌≡◌, refl, sym, ◌⊎◌, inl, String, Option, some, List, [], ◌∷◌}
use shop_catalog_service.Common.Int.{ℤ}
use shop_catalog_service.Common.Lists.{All}
use shop_catalog_service.Exec.{ok}
use shop_catalog_service.Domain.{Product}
use shop_catalog_service.Repository.{Context}
use shop_catalog_service.Redis.{Json, ProductCacheValue, from_cache_value, product_key}
use shop_catalog_service.Redis.Server.{IsRedis, IsJson}
use shop_catalog_service.Redis.Entries.{Holds-map, Shrinks-Holds}
use shop_catalog_service.Cached.{CachedRepository}
use shop_catalog_service.Cached.Coherence.{Stored, IsCoherent}
use shop_catalog_service.Cached.Steps.{dropped, Pc, started, stored}
use shop_catalog_service.Cached.Interleaving.{System, stepped}
use shop_catalog_service.Cached.Interleaving.Threads.{DropsNext, Dirty, Holding, AnyPage}
use shop_catalog_service.Cached.Interleaving.Calm.{
  Calm, reads, writes, drops, drops_pages, calls, expires, CalmlyReaches, here, further, IsLawful,
  IsWriting-call,
}
use shop_catalog_service.Cached.Interleaving.Fresh.Writes.{write-IsFresh}
use shop_catalog_service.Cached.Interleaving.Fresh.{
  IsFresh, IsFresh-same, Moved, read-IsFresh, drop-IsFresh, pages-IsFresh,
}
use shop_catalog_service.Cached.Interleaving.Safety.{IsStart}
use mathlib.Core.Path.{subst}

module _ {R S : Type 0} (find : S → String → Option Product)
    (listing : S → ℤ → ℤ → Option (List Product)) (entries : R → String → Option String)
    (json : Json) (fuel : ℕ) (r : CachedRepository R S) (laws : IsRedis entries r.cache.client)
    (codec : IsJson json) where
  record IsCalm (s : System R S) : Type 0 where
    current : (rest : List S) × (s.past ≡ s.shared.store ∷ rest)
    fresh : IsFresh find listing entries json s.shared s.pc

  -- In every state of the history the next repository keeps its promises.
  abbrev pub KeepsPromises : System R S → Type 0
  KeepsPromises s = All (IsLawful r.next find listing) s.past

  IsLawful-now :
      (s : System R S) → KeepsPromises s → IsCalm s → IsLawful r.next find listing s.shared.store
  IsLawful-now s promises calm =
      let (rest, e) = calm.current in (subst (All (IsLawful r.next find listing)) e promises).0

  stepped-IsCalm :
      (ctx : Context) (i : ℕ) (s : System R S) (before : Pc)
      → s.pc i ≡ before
      → Moved find listing entries json fuel r laws codec ctx s.shared s.pc i before
      → IsCalm (stepped json fuel r ctx i s)
  stepped-IsCalm ctx i s before at_i moved = record {
    current = (s.past, refl);
    fresh =
        subst (Moved find listing entries json fuel r laws codec ctx s.shared s.pc i) (sym at_i)
          moved;
  }

  Calm-IsCalm :
      (s t : System R S) → Calm json fuel r entries s t → KeepsPromises s → IsCalm s → IsCalm t
  Calm-IsCalm s _ (reads ctx i reading) promises calm = stepped-IsCalm ctx i s (s.pc i) refl (
      read-IsFresh find listing entries json fuel r laws codec ctx s.shared s.pc i
        (IsLawful-now s promises calm).source reading calm.fresh)
  Calm-IsCalm s _ (writes ctx i writing free) promises calm =
      let (call, at_i, w) = IsWriting-call (s.pc i) writing in
      stepped-IsCalm ctx i s (started call) at_i (
        write-IsFresh find listing entries json fuel r laws codec ctx s.shared s.pc i call
          (IsLawful-now s promises calm) free w (λ id d. subst (λ pc. DropsNext pc id) at_i d)
          calm.fresh)
  Calm-IsCalm s _ (drops ctx i call id p at_i deleted) promises calm =
      stepped-IsCalm ctx i s (stored call id p) at_i (
        drop-IsFresh find listing entries json fuel r laws codec ctx s.shared s.pc i call id p at_i
          deleted calm.fresh)
  Calm-IsCalm s _ (drops_pages ctx i call p at_i) promises calm =
      stepped-IsCalm ctx i s (dropped call p) at_i (
        pages-IsFresh find listing entries json fuel r laws codec ctx s.shared s.pc i call p at_i
          calm.fresh)
  Calm-IsCalm s _ (calls i before call reply at_i) promises calm = record {
    current = calm.current;
    fresh =
        IsFresh-same find listing entries json s.shared s.shared s.pc i (started call) refl
          calm.fresh.cached calm.fresh.held (λ id d. subst (λ pc. DropsNext pc id) at_i d) tt;
  }
  Calm-IsCalm s _ (expires redis fewer) promises calm = record {
    current = calm.current;
    fresh = record {
      cached =
          Shrinks-Holds entries json (λ id p. Stored find s.shared.store id p ⊎ Dirty s.pc id)
            AnyPage s.shared.redis redis fewer calm.fresh.cached;
      held = calm.fresh.held;
    };
  }

  Calm-KeepsPromises :
      (s t : System R S) → Calm json fuel r entries s t → KeepsPromises t → KeepsPromises s
  Calm-KeepsPromises s _ (reads ctx i reading) promises = promises.1
  Calm-KeepsPromises s _ (writes ctx i writing free) promises = promises.1
  Calm-KeepsPromises s _ (drops ctx i call id p at_i deleted) promises = promises.1
  Calm-KeepsPromises s _ (drops_pages ctx i call p at_i) promises = promises.1
  Calm-KeepsPromises s _ (calls i before call reply at_i) promises = promises
  Calm-KeepsPromises s _ (expires redis fewer) promises = promises

  CalmlyReaches-IsCalm :
      (s t : System R S)
      → CalmlyReaches json fuel r entries s t
      → KeepsPromises t
      → IsCalm s
      → IsCalm t
  CalmlyReaches-IsCalm s _ here promises calm = calm
  CalmlyReaches-IsCalm s _ (further {t} {u} before step) promises calm =
      Calm-IsCalm t u step (Calm-KeepsPromises t u step promises)
        (CalmlyReaches-IsCalm s t before (Calm-KeepsPromises t u step promises) calm)

  IsStart-IsCalm :
      (s : System R S)
      → IsStart find listing entries json fuel r laws codec s
      → IsCoherent entries json r find listing s.shared
      → IsCalm s
  IsStart-IsCalm s start coherent = record {
    current = ([], start.history);
    fresh = record {
      cached =
          Holds-map entries json (Stored find s.shared.store)
            (λ id p. Stored find s.shared.store id p ⊎ Dirty s.pc id) _ AnyPage s.shared.redis
            (λ id p. inl) (λ _ _ _ _. tt) coherent;
      held = λ i.
          let (call, e) = start.waits i in subst (Holding (Stored find s.shared.store)) (sym e) tt;
    };
  }

  -- Calls of the five methods run at the same time, their steps in any order and entries of Redis
  -- expiring at any time, but the next repository is written only while no read holds a product
  -- that it has read and not stored yet, and DeleteProduct does not fail. Then each product in the
  -- cache that can be read is the one that the next repository has now, unless a write that has
  -- changed that product is about to drop its entry. The cache must be coherent at the start, where
  -- every goroutine is before its first call, Redis and the JSON encoding must keep their documented
  -- promises, and the next repository must keep its own in each of its states: its reads return what
  -- it has, a write changes its own product only, Create returns a new one, and a write that fails
  -- changes nothing.
  pub CalmlyReaches-Stored :
      (s t : System R S)
      → IsStart find listing entries json fuel r laws codec s
      → IsCoherent entries json r find listing s.shared
      → CalmlyReaches json fuel r entries s t
      → KeepsPromises t
      → (id raw : String) (v : ProductCacheValue)
      → entries t.shared.redis (product_key id) ≡ some raw
      → json.unmarshal_product raw ≡ ok v
      → Stored find t.shared.store id (from_cache_value v) ⊎ Dirty t.pc id
  CalmlyReaches-Stored s t start coherent reach promises =
      (CalmlyReaches-IsCalm s t reach promises
        (IsStart-IsCalm s start coherent)).fresh.cached.product
