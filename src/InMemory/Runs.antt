-- ===== src/InMemory/Runs.antt =====
-- Runs of calls of the service over the in-memory repository.
use shop_catalog_service.Exec.{ok}
use shop_catalog_service.Common.Lists.{All}
use shop_catalog_service.Domain.{Product}
use shop_catalog_service.Service.Calls.{serve, wired, serve_all, Call}
use shop_catalog_service.InMemory.{repository, seed_or_default, Store, new_product_repository}
use shop_catalog_service.Service.{ServiceState, CounterVec, Logger}
use shop_catalog_service.Common.{[], ◌∷◌, ◌≡◌, List}
use shop_catalog_service.Repository.{Context}
use shop_catalog_service.InMemory.Seed.{new_product_repository-IsConsistent, IsGoodSeed}
use shop_catalog_service.InMemory.Methods.{forward-IsConsistent, InRange}
use shop_catalog_service.InMemory.Invariant.{IsConsistent}
use shop_catalog_service.Service.Guards.{serve_keeps}

module _ (l : Logger) where
  serve-IsConsistent :
      (ctx : Context) (call : Call) (st : ServiceState Store)
      → InRange call
      → IsConsistent st.repo
      → IsConsistent (serve (wired l repository) ctx call st).1.repo
  serve-IsConsistent ctx call st i c =
      serve_keeps l repository IsConsistent ctx call st
        (λ a. forward-IsConsistent ctx call st.repo a i c) c

  -- Every run of calls, refused and failing ones included, keeps the invariant of the store, if the
  -- stocks that Create is given are int32.
  serve_all-IsConsistent :
      (calls : List (Context × Call)) (st : ServiceState Store)
      → All (λ call. InRange call.1) calls
      → IsConsistent st.repo
      → IsConsistent (serve_all (wired l repository) calls st).1.repo
  unfolding serve_all
  serve_all-IsConsistent [] st i c = c
  serve_all-IsConsistent ((ctx, call) ∷ calls) st i c =
      serve_all-IsConsistent calls (serve (wired l repository) ctx call st).1 i.1
        (serve-IsConsistent ctx call st i.0 c)

  -- From a good seed, or from the default products where the seed is empty, the repository is
  -- built, and every run of calls then keeps its invariant, if the stocks that Create is given are
  -- int32.
  pub startup-IsConsistent :
      (seed : List Product) (calls : List (Context × Call)) (v : CounterVec)
      → IsGoodSeed (seed_or_default seed)
      → All (λ call. InRange call.1) calls
      → (st : Store) × (new_product_repository seed ≡ ok st)
        × IsConsistent
            (serve_all (wired l repository) calls (record { requests_total = v; repo = st })).1.repo
  startup-IsConsistent seed calls v g i =
      let (st, built, _, c) = new_product_repository-IsConsistent seed g in
      (st, built, serve_all-IsConsistent calls (record { requests_total = v; repo = st }) i c)
