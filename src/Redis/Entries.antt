-- ===== src/Redis/Entries.antt =====
-- The methods of Cache in internal/repository/redis/cache.go, against what the entries of
-- the cache may be.
use shop_catalog_service.Common.{
  eq_refl, inr, inl, str_eq-cases, ◌⊎◌, sym, ◌∙◌, ap, ◌≡◌, ◌≢◌, refl, String, Option, none, some,
  List, [], ◌∷◌,
}
use shop_catalog_service.Redis.{
  get_product_list, set_product_list, set_product, get_product, product_list_key,
  ProductListCacheValue, product_key, ProductCacheValue, to_cache_value, from_cache_value, to_items,
  Cache, Json, from_items,
}
use shop_catalog_service.Redis.Server.{IsRedis, IsJson, Shrinks}
use shop_catalog_service.Exec.{ok_inj, ok}
use shop_catalog_service.Domain.{Product}
use shop_catalog_service.Common.Int.{ℤ}
use shop_catalog_service.Repository.{Context}
use shop_catalog_service.Exec.Ensures.{
  any, of_value, Ensures-lift, Ensures-fail, Ensures-pure, Ensures-if, Ensures-handle, Ensures,
}
use shop_catalog_service.Redis.Keys.{
  product_list_key_unique, product_key_unique, keys_differ, product_list_key-IsListKey, IsListKey,
}
use mathlib.Core.Path.{subst}

from-to_cache_value : (p : Product) → from_cache_value (to_cache_value p) ≡ p
unfolding from_cache_value to_cache_value
from-to_cache_value p = refl

from-to_items : (ps : List Product) → from_items (to_items ps) ≡ ps
unfolding from_items to_items
from-to_items [] = refl
from-to_items (p ∷ ps) = rw (from-to_cache_value p, from-to_items ps)

module _ {R : Type 0} (entries : R → String → Option String) (json : Json) where
  -- Every entry that can be read is one that the cache may have: a product under its id's key, and a
  -- page under the key of its limit and offset.
  pub record Holds (Known : String → Product → Type 0) (Paged : ℤ → ℤ → List Product → Type 0)
      (r : R) : Type 0 where
    pub product :
        (id raw : String) (v : ProductCacheValue)
        → entries r (product_key id) ≡ some raw
        → json.unmarshal_product raw ≡ ok v
        → Known id (from_cache_value v)
    pub list :
        (limit offset : ℤ) (raw : String) (v : ProductListCacheValue)
        → entries r (product_list_key limit offset) ≡ some raw
        → json.unmarshal_list raw ≡ ok v
        → Paged limit offset (from_items v.items)

  -- What the cache may have, it may have more of.
  pub Holds-map :
      (Known Known' : String → Product → Type 0) (Paged Paged' : ℤ → ℤ → List Product → Type 0)
      (r : R)
      → ((id : String) (p : Product) → Known id p → Known' id p)
      → ((limit offset : ℤ) (ps : List Product) → Paged limit offset ps → Paged' limit offset ps)
      → Holds Known Paged r
      → Holds Known' Paged' r
  Holds-map Known Known' Paged Paged' r f g h = record {
    product = λ id raw v e read. f id _ (h.product id raw v e read);
    list = λ l o raw v e read. g l o _ (h.list l o raw v e read);
  }

  pub Shrinks-Holds :
      (Known : String → Product → Type 0) (Paged : ℤ → ℤ → List Product → Type 0) (r r' : R)
      → Shrinks entries r r'
      → Holds Known Paged r
      → Holds Known Paged r'
  Shrinks-Holds Known Paged r r' s h = record {
    product = λ id raw v e. h.product id raw v (s _ raw e);
    list = λ l o raw v e. h.list l o raw v (s _ raw e);
  }

  -- A write of one product: the cache then holds for the new catalog if the pages are gone, and the
  -- product's own entry is gone or was never there.
  pub write-Holds :
      (Known Known' : String → Product → Type 0) (Paged Paged' : ℤ → ℤ → List Product → Type 0)
      (id : String) (r r' : R)
      → Holds Known Paged r
      → Shrinks entries r r'
      → ((k : String) → k ≢ id → (p : Product) → Known k p → Known' k p)
      → (entries r' (product_key id) ≡ none) ⊎ ((p : Product) → ¬ Known id p)
      → ((key : String) → IsListKey key → entries r' key ≡ none)
      → Holds Known' Paged' r'
  write-Holds Known Known' Paged Paged' id r r' h s same own lists = record {
    product = λ k raw v e read. elim (str_eq-cases k id) [
      | inl (_, k_id) ↦ elim own [
        | inl gone ↦ cc (gone, e, ap product_key k_id)
        | inr new ↦ absurd (
            new (from_cache_value v)
              (subst (λ k. Known k (from_cache_value v)) k_id (h.product k raw v (s _ raw e) read)))
      ]
      | inr (ne, _) ↦ same k (λ p. cc (ne, eq_refl id, p)) _ (h.product k raw v (s _ raw e) read)
    ];
    list =
        λ l o raw v e read. cc (lists (product_list_key l o) (product_list_key-IsListKey l o), e);
  }

  module _ (cache : Cache R) (laws : IsRedis entries cache.client) (codec : IsJson json)
      (Known : String → Product → Type 0) (Paged : ℤ → ℤ → List Product → Type 0)
      (ctx : Context) where
    -- An answer of the cache for a product, and for a page.
    abbrev pub IsProductAnswer : String → Option Product → Type 0
    IsProductAnswer id none = Unit
    IsProductAnswer id (some p) = Known id p

    abbrev pub IsListAnswer : ℤ → ℤ → Option (List Product) → Type 0
    IsListAnswer limit offset none = Unit
    IsListAnswer limit offset (some ps) = Paged limit offset ps

    client_get :
        (key : String)
        → Ensures
            (Holds Known Paged)
            (λ raw. (r : R) × Holds Known Paged r × (entries r key ≡ some raw))
            (cache.client.get ctx key)
    client_get key = record {
      at = λ r h. (
        Shrinks-Holds Known Paged r (cache.client.get ctx key r).1 (laws.get_shrinks ctx key r) h,
        of_value _ (cache.client.get ctx key r).0 (λ raw e. (r, h, laws.get_value ctx key raw r e)),
      );
    }

    pub get_product-Holds :
        (id : String)
        → Ensures (Holds Known Paged) (IsProductAnswer id) (get_product json cache ctx id)
    unfolding get_product
    get_product-Holds id =
        Ensures-handle (Holds Known Paged) _ (IsProductAnswer id) _ _ _
          (client_get (product_key id))
          (λ e.
            Ensures-if (Holds Known Paged) (IsProductAnswer id) _ _ _
              (Ensures-pure (Holds Known Paged) (IsProductAnswer id) none tt)
              (Ensures-fail (Holds Known Paged) (IsProductAnswer id) e))
          (λ raw (r, h, e).
            Ensures-handle (Holds Known Paged) (λ v. Known id (from_cache_value v))
              (IsProductAnswer id) _ _ _
              (Ensures-lift (Holds Known Paged) _ (json.unmarshal_product raw)
                (of_value _ (json.unmarshal_product raw) (λ v. h.product id raw v e)))
              (λ e. Ensures-fail (Holds Known Paged) (IsProductAnswer id) e)
              (λ v found. Ensures-pure (Holds Known Paged) (IsProductAnswer id) _ found))

    pub get_product_list-Holds :
        (limit offset : ℤ)
        → Ensures
            (Holds Known Paged)
            (IsListAnswer limit offset)
            (get_product_list json cache ctx limit offset)
    unfolding get_product_list
    get_product_list-Holds limit offset =
        Ensures-handle (Holds Known Paged) _ (IsListAnswer limit offset) _ _ _
          (client_get (product_list_key limit offset))
          (λ e.
            Ensures-if (Holds Known Paged) (IsListAnswer limit offset) _ _ _
              (Ensures-pure (Holds Known Paged) (IsListAnswer limit offset) none tt)
              (Ensures-fail (Holds Known Paged) (IsListAnswer limit offset) e))
          (λ raw (r, h, e).
            Ensures-handle (Holds Known Paged) (λ v. Paged limit offset (from_items v.items))
              (IsListAnswer limit offset) _ _ _
              (Ensures-lift (Holds Known Paged) _ (json.unmarshal_list raw)
                (of_value _ (json.unmarshal_list raw) (λ v. h.list limit offset raw v e)))
              (λ e. Ensures-fail (Holds Known Paged) (IsListAnswer limit offset) e)
              (λ v found. Ensures-pure (Holds Known Paged) (IsListAnswer limit offset) _ found))

    -- A product that the catalog has may be stored, and so may a page.
    pub set_product-Holds :
        (p : Product)
        → Known p.id p
        → Ensures (Holds Known Paged) (λ _. Unit {0}) (set_product json cache ctx p)
    unfolding set_product
    set_product-Holds p known =
        Ensures-handle (Holds Known Paged)
          (λ raw. json.unmarshal_product raw ≡ ok (to_cache_value p)) (λ _. Unit {0}) _ _ _
          (Ensures-lift (Holds Known Paged) _ (json.marshal_product (to_cache_value p)) (
            of_value _ (json.marshal_product (to_cache_value p))
              (codec.product (to_cache_value p))))
          (λ e. Ensures-fail (Holds Known Paged) (λ _. Unit {0}) e)
          (λ payload reads. record {
            at = λ r h. (
              record {
                product = λ id raw v e read.
                    elim (laws.set_entry ctx (product_key p.id) payload cache.ttl r _ raw e) [
                      | inl (key, written) ↦ rw (product_key_unique id p.id key) (
                          subst (Known p.id)
                            (sym (from-to_cache_value p)
                              ∙ ap from_cache_value (
                                  ok_inj
                                    (sym reads ∙ ap json.unmarshal_product (sym written) ∙ read)))
                            known)
                      | inr old ↦ h.product id raw v old read
                    ];
                list = λ l o raw v e read.
                    elim (laws.set_entry ctx (product_key p.id) payload cache.ttl r _ raw e) [
                      | inl (key, written) ↦ absurd (keys_differ p.id l o (sym key))
                      | inr old ↦ h.list l o raw v old read
                    ];
              },
              any (cache.client.set ctx (product_key p.id) payload cache.ttl r).0,
            );
          })

    pub set_product_list-Holds :
        (limit offset : ℤ) (ps : List Product)
        → Paged limit offset ps
        → Ensures
            (Holds Known Paged)
            (λ _. Unit {0})
            (set_product_list json cache ctx limit offset ps)
    unfolding set_product_list
    set_product_list-Holds limit offset ps known =
        Ensures-handle (Holds Known Paged)
          (λ raw. json.unmarshal_list raw ≡ ok (record { items = to_items ps })) (λ _. Unit {0}) _ _
          _
          (Ensures-lift (Holds Known Paged) _ (json.marshal_list (record { items = to_items ps })) (
            of_value _ (json.marshal_list (record { items = to_items ps }))
              (codec.list (record { items = to_items ps }))))
          (λ e. Ensures-fail (Holds Known Paged) (λ _. Unit {0}) e)
          (λ payload reads. record {
            at = λ r h. (
              record {
                product = λ id raw v e read.
                    elim (laws.set_entry ctx (product_list_key limit offset) payload cache.ttl r _
                      raw e) [
                        | inl (key, written) ↦ absurd (keys_differ id limit offset key)
                        | inr old ↦ h.product id raw v old read
                      ];
                list = λ l o raw v e read.
                    elim (laws.set_entry ctx (product_list_key limit offset) payload cache.ttl r _
                      raw e) [
                        | inl (key, written) ↦
                            let (same_limit, same_offset) =
                              product_list_key_unique l o limit offset key in
                            rw (same_limit, same_offset)
                              (subst (Paged limit offset)
                                (sym (from-to_items ps)
                                  ∙ ap (λ (v : ProductListCacheValue). from_items v.items)
                                      (ok_inj
                                        (sym reads ∙ ap json.unmarshal_list (sym written) ∙ read)))
                                known)
                        | inr old ↦ h.list l o raw v old read
                      ];
              },
              any (cache.client.set ctx (product_list_key limit offset) payload cache.ttl r).0,
            );
          })
