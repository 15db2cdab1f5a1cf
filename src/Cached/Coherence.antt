-- ===== src/Cached/Coherence.antt =====
-- The reads of internal/repository/cached/product_repository.go (GetByID, List) against a cache that
-- holds for the catalog of the next repository.
use shop_catalog_service.Common.{◌≡◌, sym, ◌∙◌, ap, String, Option, none, some, List}
use shop_catalog_service.Exec.{Exec, ok}
use shop_catalog_service.Redis.{Json}
use shop_catalog_service.Redis.Server.{IsRedis, IsJson}
use shop_catalog_service.Redis.Entries.{
  set_product_list-Holds, get_product_list-Holds, IsListAnswer, set_product-Holds,
  get_product-Holds, IsProductAnswer, Holds,
}
use shop_catalog_service.Cached.{
  list_after, remember_list, product_after, remember_product, CachedRepository, CachedState,
  get_by_id, list,
}
use shop_catalog_service.Repository.{Context, ProductRepository}
use shop_catalog_service.Domain.{Product}
use shop_catalog_service.Common.Int.{ℤ}
use shop_catalog_service.Exec.Ensures.{Ensures-fail, Ensures-pure, Ensures-handle, Post, Ensures}
use mathlib.Core.Path.{subst}
use shop_catalog_service.Cached.Parts.{Keeping-on_store, Keeping-count, Keeping, Keeping-on_redis}

-- What the next repository's reads promise at a state: they change nothing, and return what the
-- catalog of the state has.
pub record IsSource {S : Type 0} (next : ProductRepository S) (find : S → String → Option Product)
    (listing : S → ℤ → ℤ → Option (List Product)) (s : S) : Type 0 where
  pub get_same : (ctx : Context) (id : String) → (next.get_by_id ctx id s).1 ≡ s
  pub get_found :
      (ctx : Context) (id : String) (p : Product)
      → (next.get_by_id ctx id s).0 ≡ ok p
      → (find s id ≡ some p) × (p.id ≡ id)
  pub list_same : (ctx : Context) (limit offset : ℤ) → (next.list ctx limit offset s).1 ≡ s
  pub list_found :
      (ctx : Context) (limit offset : ℤ) (ps : List Product)
      → (next.list ctx limit offset s).0 ≡ ok ps
      → listing s limit offset ≡ some ps

-- What the catalog of a state has: a product under an id, and a page.
abbrev pub Stored : {S : Type 0} → (S → String → Option Product) → S → String → Product → Type 0
Stored find s id p = find s id ≡ some p

abbrev pub Paged :
    {S : Type 0} → (S → ℤ → ℤ → Option (List Product)) → S → ℤ → ℤ → List Product → Type 0
Paged listing s limit offset ps = listing s limit offset ≡ some ps

module _ {R S : Type 0} (entries : R → String → Option String) (json : Json)
    (r : CachedRepository R S) (find : S → String → Option Product)
    (listing : S → ℤ → ℤ → Option (List Product)) where
  -- The cache holds for the catalog of the next repository's state.
  abbrev pub IsCoherent : CachedState R S → Type 0
  IsCoherent st = Holds entries json (Stored find st.store) (Paged listing st.store) st.redis

  -- The two reads, at a state of the next repository.
  module _ (laws : IsRedis entries r.cache.client) (codec : IsJson json) (s : S)
      (source : IsSource r.next find listing s) (ctx : Context) where
    abbrev At : CachedState R S → Type 0
    At = Keeping entries json (Stored find s) (Paged listing s) s

    remember_product-At :
        (id : String) (p : Product)
        → (find s id ≡ some p) × (p.id ≡ id)
        → Ensures At (λ p. find s id ≡ some p) (remember_product json r ctx p)
    unfolding remember_product
    remember_product-At id p (known, own) =
        Ensures-handle At (λ _. Unit {0}) (λ p. find s id ≡ some p) _ _ _
          (Keeping-on_redis entries json (Stored find s) (Paged listing s) s (λ _. Unit {0}) _
            (set_product-Holds entries json r.cache laws codec (Stored find s) (Paged listing s) ctx
              p (ap (find s) own ∙ known)))
          (λ e.
            Keeping-count entries json (Stored find s) (Paged listing s) s _ _ _ _
              (Ensures-pure At _ p known))
          (λ _ _. Ensures-pure At (λ p. find s id ≡ some p) p known)

    product_after-At :
        (id : String) (o : Option Product)
        → IsProductAnswer entries json r.cache laws codec (Stored find s) (Paged listing s) ctx id o
        → Ensures At (λ p. find s id ≡ some p) (product_after json r ctx id o)
    unfolding product_after
    product_after-At id (some p) known =
        Keeping-count entries json (Stored find s) (Paged listing s) s _ _ _ _
          (Ensures-pure At (λ p. find s id ≡ some p) p known)
    product_after-At id none h =
        Keeping-count entries json (Stored find s) (Paged listing s) s _ _ _ _ (
          Ensures-handle At (λ p. (find s id ≡ some p) × (p.id ≡ id)) (λ p. find s id ≡ some p) _ _
            _
            (Keeping-on_store entries json (Stored find s) (Paged listing s) s _
              (r.next.get_by_id ctx id) (source.get_same ctx id) (source.get_found ctx id))
            (λ e.
              Keeping-count entries json (Stored find s) (Paged listing s) s _ _ _ _
                (Ensures-fail At _ e))
            (remember_product-At id))

    pub get_by_id-At :
        (id : String) → Ensures At (λ p. find s id ≡ some p) (get_by_id json r ctx id)
    unfolding get_by_id
    get_by_id-At id =
        Ensures-handle At
          (IsProductAnswer entries json r.cache laws codec (Stored find s) (Paged listing s) ctx id)
          (λ p. find s id ≡ some p) _ _ _
          (Keeping-on_redis entries json (Stored find s) (Paged listing s) s _ _ (
            get_product-Holds entries json r.cache laws codec (Stored find s) (Paged listing s) ctx
              id))
          (λ e.
            Keeping-count entries json (Stored find s) (Paged listing s) s _ _ _ _
              (Ensures-fail At _ e))
          (product_after-At id)

    remember_list-At :
        (limit offset : ℤ) (ps : List Product)
        → listing s limit offset ≡ some ps
        → Ensures At
            (λ ps. listing s limit offset ≡ some ps)
            (remember_list json r ctx limit offset ps)
    unfolding remember_list
    remember_list-At limit offset ps known =
        Ensures-handle At (λ _. Unit {0}) (λ ps. listing s limit offset ≡ some ps) _ _ _
          (Keeping-on_redis entries json (Stored find s) (Paged listing s) s (λ _. Unit {0}) _
            (set_product_list-Holds entries json r.cache laws codec (Stored find s)
              (Paged listing s) ctx limit offset ps known))
          (λ e.
            Keeping-count entries json (Stored find s) (Paged listing s) s _ _ _ _
              (Ensures-pure At _ ps known))
          (λ _ _. Ensures-pure At (λ ps. listing s limit offset ≡ some ps) ps known)

    list_after-At :
        (limit offset : ℤ) (o : Option (List Product))
        → IsListAnswer entries json r.cache laws codec
            (Stored find s)
            (Paged listing s)
            ctx
            limit
            offset
            o
        → Ensures At (λ ps. listing s limit offset ≡ some ps) (list_after json r ctx limit offset o)
    unfolding list_after
    list_after-At limit offset (some ps) known =
        Keeping-count entries json (Stored find s) (Paged listing s) s _ _ _ _
          (Ensures-pure At (λ ps. listing s limit offset ≡ some ps) ps known)
    list_after-At limit offset none h =
        Keeping-count entries json (Stored find s) (Paged listing s) s _ _ _ _ (
          Ensures-handle At (λ ps. listing s limit offset ≡ some ps)
            (λ ps. listing s limit offset ≡ some ps) _ _ _
            (Keeping-on_store entries json (Stored find s) (Paged listing s) s _
              (r.next.list ctx limit offset) (source.list_same ctx limit offset)
              (source.list_found ctx limit offset))
            (λ e.
              Keeping-count entries json (Stored find s) (Paged listing s) s _ _ _ _
                (Ensures-fail At _ e))
            (remember_list-At limit offset))

    pub list-At :
        (limit offset : ℤ)
        → Ensures At (λ ps. listing s limit offset ≡ some ps) (list json r ctx limit offset)
    unfolding list
    list-At limit offset =
        Ensures-handle At
          (IsListAnswer entries json r.cache laws codec (Stored find s) (Paged listing s) ctx limit
            offset)
          (λ ps. listing s limit offset ≡ some ps) _ _ _
          (Keeping-on_redis entries json (Stored find s) (Paged listing s) s _ _ (
            get_product_list-Holds entries json r.cache laws codec (Stored find s) (Paged listing s)
              ctx limit offset))
          (λ e.
            Keeping-count entries json (Stored find s) (Paged listing s) s _ _ _ _
              (Ensures-fail At _ e))
          (list_after-At limit offset)

    coherent :
        {A : Type 0} (Q : A → Type 0) (m : Exec (CachedState R S) A) (st : CachedState R S)
        → Ensures At Q m
        → st.store ≡ s
        → IsCoherent st
        → IsCoherent (m st).1 × ((m st).1.store ≡ s) × Post Q (m st).0
    coherent Q m st e here h =
        let ((there, after), value) = e.at st (here, subst HeldAt here h) in
        (
          subst (λ x. Holds entries json (Stored find x) (Paged listing x) (m st).1.redis)
              (sym there) after,
          there,
          value,
        )
      where
        HeldAt : S → Type 0
        HeldAt x = Holds entries json (Stored find x) (Paged listing x) st.redis

    -- GetByID, whether it hits, misses or fails to store, returns only the product that the next
    -- repository has under the id; it leaves the next repository as it was and the cache coherent.
    -- The cache must be coherent before, Redis and the JSON encoding must keep their documented
    -- promises, and the next repository's reads must keep theirs.
    pub get_by_id-IsCoherent :
        (id : String) (st : CachedState R S)
        → st.store ≡ s
        → IsCoherent st
        → IsCoherent (get_by_id json r ctx id st).1
          × ((get_by_id json r ctx id st).1.store ≡ s)
          × Post (λ p. find s id ≡ some p) (get_by_id json r ctx id st).0
    get_by_id-IsCoherent id st here h =
        coherent (λ p. find s id ≡ some p) (get_by_id json r ctx id) st (get_by_id-At id) here h

    -- List, whether it hits, misses or fails to store, returns only the page that the next repository
    -- has for the limit and the offset; it leaves the next repository as it was and the cache
    -- coherent. The cache must be coherent before, Redis and the JSON encoding must keep their
    -- documented promises, and the next repository's reads must keep theirs.
    pub list-IsCoherent :
        (limit offset : ℤ) (st : CachedState R S)
        → st.store ≡ s
        → IsCoherent st
        → IsCoherent (list json r ctx limit offset st).1
          × ((list json r ctx limit offset st).1.store ≡ s)
          × Post (λ ps. listing s limit offset ≡ some ps) (list json r ctx limit offset st).0
    list-IsCoherent limit offset st here h =
        coherent (λ ps. listing s limit offset ≡ some ps) (list json r ctx limit offset) st
          (list-At limit offset) here h
