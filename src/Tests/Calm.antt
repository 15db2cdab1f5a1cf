-- ===== src/Tests/Calm.antt =====
-- A product that is renamed and then read, on the fixtures' server and the in-memory repository, in the
-- steps of two goroutines.
use shop_catalog_service.Common.{
  false, Option, refl, sym, ℕ, zero, suc, ◌≡◌, ◌≢◌, ◌⊎◌, String, none, some, [], ◌∷◌,
}
use shop_catalog_service.Common.Lists.{All}
use shop_catalog_service.Common.Text.{is_space, is_blank}
use shop_catalog_service.Domain.{Product, UpdateProductCommand}
use shop_catalog_service.Domain.Validation.{IsValidUpdate}
use shop_catalog_service.InMemory
use shop_catalog_service.InMemory.{Store, repository, store_product, merge, numbered_id}
use shop_catalog_service.InMemory.Invariant.{IsConsistent}
use shop_catalog_service.InMemory.Methods.{forward-IsConsistent}
use shop_catalog_service.InMemory.Source.{find, listing}
use shop_catalog_service.InMemory.Lawful.{repository-IsLawful}
use shop_catalog_service.Service.Calls.{Call, get, update, forward}
use shop_catalog_service.Redis.{get_product, set_product, delete_product, invalidate_list_cache}
use shop_catalog_service.Cached
use shop_catalog_service.Cached.{CachedRepository, CachedState}
use shop_catalog_service.Cached.Coherence.{Stored}
use shop_catalog_service.Cached.Steps.{Pc, started, product_read, move}
use shop_catalog_service.Cached.Interleaving.{System, stepped}
use shop_catalog_service.Cached.Interleaving.Threads.{Dirty}
use shop_catalog_service.Cached.Interleaving.Calm.{
  CalmlyReaches, here, further, reads, writes, drops, drops_pages, IsLawful,
}
use shop_catalog_service.Cached.Interleaving.Runs.{CalmlyReaches-Stored, KeepsPromises}
use shop_catalog_service.Fixtures.{live, logger, mug, one_mug, one_mug-IsConsistent}
use shop_catalog_service.Fixtures.Server.{
  Entries, entry, cache, json, mug_value, server-IsRedis, json-IsJson,
}
use mathlib.Core.Path.{subst}

abbrev repo : CachedRepository Entries Store
repo = record { logger = logger; cache = cache; next = repository }

abbrev cup : Product
cup = record mug { name = "Cup" }

abbrev one_cup : Store
one_cup = store_product cup one_mug

abbrev rename : String → UpdateProductCommand
rename name = record {
  id = "prod-1";
  name = some name;
  description = none;
  price_cents = none;
  active = none;
}

abbrev one_again : Store
one_again = store_product mug one_cup

-- Goroutine 0 is to read the product, and the others are to give it its old name.
abbrev begin : ℕ → Pc
begin zero = started (get "prod-1")
begin (suc n) = started (update (rename mug.name))

abbrev quiet : System Entries Store
quiet = record {
  shared = record { cache_requests = []; redis = []; store = one_cup };
  pc = begin;
  past = one_cup ∷ [];
}

abbrev turn : ℕ → System Entries Store → System Entries Store
turn i s = stepped json 3 repo live i s

abbrev renamed : System Entries Store
renamed = turn 1 (turn 1 (turn 1 quiet))

abbrev cached : System Entries Store
cached = turn 0 (turn 0 (turn 0 renamed))

nobody_reads : (j : ℕ) (id : String) (p : Product) → begin j ≢ product_read id p
nobody_reads zero id p e = cc
nobody_reads (suc n) id p e = cc

cached-CalmlyReaches : CalmlyReaches json 3 repo entry quiet cached
unfolding move repository InMemory.get_by_id InMemory.update merge Cached.drop_product
    Cached.drop_lists get_product set_product delete_product invalidate_list_cache
cached-CalmlyReaches =
    further
      (further
        (further
          (further
            (further (further here (writes live 1 tt nobody_reads))
              (drops live 1 (update (rename mug.name)) "prod-1" mug refl refl))
            (drops_pages live 1 (update (rename mug.name)) mug refl))
          (reads live 0 tt))
        (reads live 0 tt))
      (reads live 0 tt)

history :
    cached.past
    ≡ one_again ∷ one_again ∷ one_again ∷ one_again ∷ one_again ∷ one_again ∷ one_cup ∷ []
unfolding move repository InMemory.get_by_id InMemory.update merge Cached.drop_product
    Cached.drop_lists get_product set_product delete_product invalidate_list_cache
history = refl

-- A new name that is not blank.
renaming-IsConsistent :
    (name : String) (st : Store)
    → is_blank name ≡ false
    → IsConsistent st
    → IsConsistent (forward repository live (update (rename name)) st).1
unfolding is_blank is_space
renaming-IsConsistent name st named c =
    forward-IsConsistent live (update (rename name)) st valid tt c
  where
    valid : IsValidUpdate (rename name)
    valid = record {
      id_given = refl;
      name_given = λ n e. subst given e named;
      price_nonneg = λ p e. cc;
    }
      where
        given : Option String → Type 0
        given none = Unit
        given (some n) = is_blank n ≡ false

one_cup-IsConsistent : IsConsistent one_cup
unfolding forward repository InMemory.update merge is_blank is_space
one_cup-IsConsistent = renaming-IsConsistent "Cup" one_mug refl one_mug-IsConsistent

one_again-IsConsistent : IsConsistent one_again
unfolding forward repository InMemory.update merge is_blank is_space
one_again-IsConsistent = renaming-IsConsistent mug.name one_cup refl one_cup-IsConsistent

cached-KeepsPromises :
    KeepsPromises find listing entry json 3 repo server-IsRedis json-IsJson cached
cached-KeepsPromises =
    subst (All (IsLawful repository find listing)) (sym history)
      (now, (now, (now, (now, (now, (now, (first, tt)))))))
  where
    now : IsLawful repository find listing one_again
    now = repository-IsLawful one_again one_again-IsConsistent

    first : IsLawful repository find listing one_cup
    first = repository-IsLawful one_cup one_cup-IsConsistent

CalmlyReaches-Stored_example :
    Stored find cached.shared.store "prod-1" mug ⊎ Dirty cached.pc "prod-1"
unfolding move repository InMemory.get_by_id InMemory.update merge Cached.drop_product
    Cached.drop_lists get_product set_product delete_product invalidate_list_cache
CalmlyReaches-Stored_example =
    CalmlyReaches-Stored find listing entry json 3 repo server-IsRedis json-IsJson quiet cached
      (record { history = refl; waits = waits })
      (record { product = λ id raw v e read. cc; list = λ l o raw v e read. cc })
      cached-CalmlyReaches cached-KeepsPromises "prod-1" "mug" mug_value refl refl
  where
    waits : (i : ℕ) → (call : Call) × (begin i ≡ started call)
    waits zero = (get "prod-1", refl)
    waits (suc n) = (update (rename mug.name), refl)
