-- ===== src/Cached/Parts.antt =====
-- The calls of the cache and of the next repository in internal/repository/cached/product_repository.go,
-- while the next repository stays at a state and the cache's entries are ones that it may have.
use shop_catalog_service.Common.{◌≡◌, ◌∙◌, sym, ap, String, Option, List, ◌∷◌}
use shop_catalog_service.Common.Int.{ℤ}
use shop_catalog_service.Exec.{Exec, ok, ◌>>◌}
use shop_catalog_service.Exec.Ensures.{Ensures, of_value}
use shop_catalog_service.Domain.{Product}
use shop_catalog_service.Redis.{Json}
use shop_catalog_service.Redis.Entries.{Holds}
use shop_catalog_service.Cached.{CachedState, count_cache, on_redis, on_store}

module _ {R S : Type 0} (entries : R → String → Option String) (json : Json)
    (Known : String → Product → Type 0) (Listed : ℤ → ℤ → List Product → Type 0) (s : S) where
  abbrev pub Keeping : CachedState R S → Type 0
  Keeping st = (st.store ≡ s) × Holds entries json Known Listed st.redis

  pub Keeping-on_redis :
      {A : Type 0} (Q : A → Type 0) (m : Exec R A)
      → Ensures (Holds entries json Known Listed) Q m
      → Ensures Keeping Q (on_redis m)
  Keeping-on_redis Q m h = record {
    at = λ st i. ((i.0, (h.at st.redis i.1).0), (h.at st.redis i.1).1);
  }

  pub Keeping-count :
      {A : Type 0} (Q : A → Type 0) (operation result : String) (m : Exec (CachedState R S) A)
      → Ensures Keeping Q m
      → Ensures Keeping Q (count_cache operation result >> m)
  Keeping-count Q operation result m h = record {
    at = λ st i. h.at (record st { cache_requests = (operation, result) ∷ st.cache_requests }) i;
  }

  pub Keeping-on_store :
      {A : Type 0} (Q : A → Type 0) (m : Exec S A)
      → (m s).1 ≡ s
      → ((a : A) → (m s).0 ≡ ok a → Q a)
      → Ensures Keeping Q (on_store m)
  Keeping-on_store Q m same value = record {
    at = λ st (here, h). (
      (ap (λ x. (m x).1) here ∙ same, h),
      of_value Q (m st.store).0 (λ a e. value a (ap (λ x. (m x).0) (sym here) ∙ e)),
    );
  }
