-- ===== src/InMemory/Invariant.antt =====
-- The invariant of the in-memory repository, and the two ways in which its writes change the store.
use shop_catalog_service.Common.{
  ℕ, ◌+◌, ◌<◌, ◌≡◌, sym, ◌∙◌, false, String, none, some, [], ◌∷◌, ◌++◌, eq_iff, arith, inl, inr,
  Option-cases,
}
use shop_catalog_service.Common.Int.{pos, ◌≤ℤ◌}
use shop_catalog_service.Common.Word.{IsInt32}
use shop_catalog_service.Common.Lists.{length, length-append, All, All-append}
use shop_catalog_service.Domain.{Product}
use shop_catalog_service.InMemory.{Store, has_sku, numbered_id, store_product, insert}
use shop_catalog_service.InMemory.Find.{
  find_id, find_id-id, find_id-append, find_id-append_old, find_id-replace_first,
  length-replace_first, numbered_id_unique,
}
use shop_catalog_service.InMemory.Distinct.{
  DistinctIds, DistinctSkus, DistinctIds-append, DistinctSkus-append, DistinctIds-replace_first,
  DistinctSkus-replace_first, find_id-replace_first-none, All-replace_first, All-find_id,
}

-- A product's numbers are in their ranges.
pub record IsStocked (p : Product) : Type 0 where
  pub stock_nonneg : pos 0 ≤ℤ p.stock
  pub stock_int32 : IsInt32 p.stock
  pub price_nonneg : pos 0 ≤ℤ p.price_cents

-- The map and the slice say the same of every id.
abbrev pub Agrees : Store → Type 0
Agrees st = (id : String) → st.by_id id ≡ find_id id st.products

pub record IsConsistent (st : Store) : Type 0 where
  pub agrees : Agrees st
  -- The ids that Create will give are not taken.
  pub free : (n : ℕ) → length st.products < n → find_id (numbered_id n) st.products ≡ none
  pub ids : DistinctIds st.products
  pub skus : DistinctSkus st.products
  pub stocked : All IsStocked st.products

-- A product found by its id has that id, and is stocked.
pub by_id-id :
    {st : Store} (id : String) (p : Product) → IsConsistent st → st.by_id id ≡ some p → p.id ≡ id
by_id-id {st} id p c e = find_id-id id st.products p (sym (c.agrees id) ∙ e)

pub by_id-IsStocked :
    {st : Store} (id : String) (p : Product) → IsConsistent st → st.by_id id ≡ some p → IsStocked p
by_id-IsStocked {st} id p c e =
    All-find_id IsStocked id st.products p (sym (c.agrees id) ∙ e) c.stocked

-- A product with an id that is not taken, added to both.
pub insert-Agrees :
    (p : Product) (st : Store)
    → Agrees st
    → find_id p.id st.products ≡ none
    → Agrees (record { products = st.products ++ p ∷ []; by_id = insert p.id p st.by_id })
insert-Agrees p st a fresh id = elim (Option-cases (find_id id st.products)) [
  | inl no_such ↦ rw (find_id-append id st.products p no_such, a id, no_such)
  | inr (q, found) ↦
      rw (find_id-append_old id st.products q p found, a id, found)
        (ground (arith, eq_iff id p.id, fresh, found))
]

-- Overwriting a product with one of the same id and SKU.
pub store_product-IsConsistent :
    (p old : Product) (st : Store)
    → IsConsistent st
    → st.by_id p.id ≡ some old
    → p.sku ≡ old.sku
    → IsStocked p
    → IsConsistent (store_product p st)
store_product-IsConsistent p old st c e same s = record {
  agrees = λ id. rw (find_id-replace_first id p st.products old found, c.agrees id);
  free = λ n h.
      find_id-replace_first-none (numbered_id n) p st.products
        (c.free n (omega (arith, length-replace_first p st.products)));
  ids = DistinctIds-replace_first p st.products c.ids;
  skus = DistinctSkus-replace_first p st.products old found same c.skus;
  stocked = All-replace_first IsStocked p st.products s c.stocked;
}
  where
    found : find_id p.id st.products ≡ some old
    found = sym (c.agrees p.id) ∙ e

-- Adding a product with the next number as its id and a SKU that is not taken.
pub append-IsConsistent :
    (p : Product) (st : Store)
    → IsConsistent st
    → p.id ≡ numbered_id (length st.products + 1)
    → has_sku p.sku st.products ≡ false
    → IsStocked p
    → IsConsistent (record { products = st.products ++ p ∷ []; by_id = insert p.id p st.by_id })
append-IsConsistent p st c e new s = record {
  agrees = insert-Agrees p st c.agrees fresh;
  free = λ n h.
      rw (find_id-append (numbered_id n) st.products p (c.free n (omega (arith, longer)))) (
        ground (
          arith,
          e,
          longer,
          eq_iff (numbered_id n) p.id,
          numbered_id_unique n (length st.products + 1),
        ));
  ids = DistinctIds-append st.products p c.ids fresh;
  skus = DistinctSkus-append st.products p c.skus new;
  stocked = All-append IsStocked st.products (p ∷ []) c.stocked (s, tt);
}
  where
    fresh : find_id p.id st.products ≡ none
    fresh = rw e (c.free (length st.products + 1) (omega arith))

    longer : length (st.products ++ p ∷ []) ≡ length st.products + 1
    longer = length-append st.products (p ∷ [])
