-- ===== src/Tests/Concurrency.antt =====
-- A read and a write of one product at the same time, on the fixtures' server and the in-memory
-- repository.
use shop_catalog_service.Common.{
  false, Option, sym, refl, ℕ, zero, suc, ◌≡◌, String, none, some, [], ◌∷◌,
}
use shop_catalog_service.Exec.{ok}
use shop_catalog_service.Domain.{Product, UpdateProductCommand}
use shop_catalog_service.InMemory
use shop_catalog_service.InMemory.{Store, repository, store_product, merge}
use shop_catalog_service.InMemory.Source.{find, listing, repository-IsSource}
use shop_catalog_service.InMemory.Methods.{forward-IsConsistent}
use shop_catalog_service.Service.Calls.{Call, get, update, forward}
use shop_catalog_service.Cached
use shop_catalog_service.Cached.{CachedRepository, CachedState, cached_repository}
use shop_catalog_service.Cached.Steps.{Pc, started, returned, move}
use shop_catalog_service.Cached.Interleaving.{System, stepped, Reaches, here, further, steps}
use shop_catalog_service.Redis.{get_product, invalidate_list_cache, delete_product, set_product}
use shop_catalog_service.Redis.Entries.{Holds}
use shop_catalog_service.Cached.Coherence.{IsSource}
use shop_catalog_service.Fixtures.{live, logger, mug, one_mug, one_mug-IsConsistent}
use shop_catalog_service.Fixtures.Server.{Entries, entry, cache, json, server-IsRedis, json-IsJson}
use shop_catalog_service.Cached.Interleaving.Versions.{KnownPage, Known, IsAnswer}
use shop_catalog_service.InMemory.Invariant.{IsConsistent}
use shop_catalog_service.Cached.Interleaving.Safety.{Reaches-IsAnswer, IsReadable}
use shop_catalog_service.Domain.Validation.{IsValidUpdate}
use mathlib.Core.Path.{subst}
use shop_catalog_service.Common.Lists.{All}
use shop_catalog_service.Common.Text.{is_space, is_blank}

abbrev repo : CachedRepository Entries Store
repo = record { logger = logger; cache = cache; next = repository }

abbrev rename : UpdateProductCommand
rename = record {
  id = "prod-1";
  name = some "Cup";
  description = none;
  price_cents = none;
  active = none;
}

abbrev cup : Product
cup = record mug { name = "Cup" }

abbrev renamed : Store
renamed = store_product cup one_mug

abbrev cold : CachedState Entries Store
cold = record { cache_requests = []; redis = []; store = one_mug }

-- Goroutine 0 is to read the product, and the others are to rename it.
abbrev begin : ℕ → Pc
begin zero = started (get "prod-1")
begin (suc n) = started (update rename)

abbrev quiet : System Entries Store
quiet = record { shared = cold; pc = begin; past = one_mug ∷ [] }

abbrev turn : ℕ → System Entries Store → System Entries Store
turn i s = stepped json 3 repo live i s

-- The read misses and takes the product; the update runs to its end; then the read stores what it took.
abbrev raced : System Entries Store
raced = turn 0 (turn 1 (turn 1 (turn 1 (turn 0 (turn 0 quiet)))))

raced-Reaches : Reaches json 3 repo entry quiet raced
raced-Reaches =
    further
      (further
        (further (further (further (further here (steps live 0)) (steps live 0)) (steps live 1))
          (steps live 1))
        (steps live 1))
      (steps live 0)

-- Both calls have returned, the next repository has the new name, and the cache the old product: the
-- next read returns the old one.
stale_test :
    (raced.pc 0 ≡ returned (get "prod-1") (ok (mug ∷ [])))
    × (raced.pc 1 ≡ returned (update rename) (ok (cup ∷ [])))
    × (raced.shared.store ≡ renamed)
    × (raced.shared.redis ≡ ("catalog:product:prod-1", "mug") ∷ [])
    × ((Cached.get_by_id json repo live "prod-1" raced.shared).0 ≡ ok mug)
    × ((InMemory.get_by_id live "prod-1" raced.shared.store).0 ≡ ok cup)
unfolding move repository InMemory.get_by_id InMemory.update merge Cached.drop_product
    Cached.drop_lists get_product set_product delete_product invalidate_list_cache Cached.get_by_id
    Cached.product_after
stale_test = (refl, refl, refl, refl, refl, refl)

history : raced.past ≡ renamed ∷ renamed ∷ renamed ∷ renamed ∷ one_mug ∷ one_mug ∷ one_mug ∷ []
unfolding move repository InMemory.get_by_id InMemory.update merge Cached.drop_product
    Cached.drop_lists get_product set_product delete_product invalidate_list_cache
history = refl

renamed-IsConsistent : IsConsistent renamed
unfolding forward repository InMemory.update merge is_blank is_space
renamed-IsConsistent =
    forward-IsConsistent live (update rename) one_mug valid tt one_mug-IsConsistent
  where
    valid : IsValidUpdate rename
    valid = record {
      id_given = refl;
      name_given = λ n e. subst given e refl;
      price_nonneg = λ p e. cc;
    }
      where
        given : Option String → Type 0
        given none = Unit
        given (some n) = is_blank n ≡ false

raced-IsReadable : IsReadable find listing entry json 3 repo server-IsRedis json-IsJson raced
raced-IsReadable =
    subst (All (IsSource repository find listing)) (sym history)
      (after, (after, (after, (after, (before, (before, (before, tt)))))))
  where
    after : IsSource repository find listing renamed
    after = repository-IsSource renamed renamed-IsConsistent

    before : IsSource repository find listing one_mug
    before = repository-IsSource one_mug one_mug-IsConsistent

Reaches-IsAnswer_example :
    IsAnswer find listing raced.past (ok (mug ∷ [])) (get "prod-1")
    × Holds entry json
        (Known find listing raced.past)
        (KnownPage find listing raced.past)
        raced.shared.redis
Reaches-IsAnswer_example =
    Reaches-IsAnswer find listing entry json 3 repo server-IsRedis json-IsJson quiet raced
      (record { history = refl; waits = waits })
      (record { product = λ id raw v e read. cc; list = λ l o raw v e read. cc }) raced-Reaches
      raced-IsReadable 0 (get "prod-1") (ok (mug ∷ [])) stale_test.0
  where
    waits : (i : ℕ) → (call : Call) × (begin i ≡ started call)
    waits zero = (get "prod-1", refl)
    waits (suc n) = (update rename, refl)
