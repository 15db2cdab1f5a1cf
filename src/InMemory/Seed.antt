-- ===== src/InMemory/Seed.antt =====
-- NewProductRepository and defaultProducts of the in-memory repository.
use Prim.Native.String.{◌++◌ as str_append}
use shop_catalog_service.Common.{
  str_eq-cases, ℕ, ◌<◌, ◌≡◌, ◌≢◌, refl, sym, ◌∙◌, ap, String, none, List, [], ◌∷◌, ◌++◌, str_eq,
  eq_iff, eq_refl, arith, inl, inr, false,
}
use shop_catalog_service.Common.Lists.{length, All}
use shop_catalog_service.Exec.{ok}
use shop_catalog_service.Domain.{Product, validate_product}
use shop_catalog_service.Domain.Validation.{IsValidProduct, validate_product-accepts_iff}
use shop_catalog_service.InMemory.{
  seed_or_default, has_sku, Store, load, insert, empty, new_product_repository, default_products,
  numbered_id,
}
use shop_catalog_service.InMemory.Find.{find_id}
use shop_catalog_service.InMemory.Distinct.{DistinctIds, DistinctSkus}
use shop_catalog_service.InMemory.Invariant.{IsConsistent, IsStocked, Agrees, insert-Agrees}
use mathlib.Core.List.{append_assoc, append-nil}
use mathlib.Core.Path.{subst}
use shop_catalog_service.Common.Decimal.{scan-int_text, scan}
use text.Mathlib.TextLemmas.{append_cancel_left}

-- A seed whose products are valid and differ in id and SKU, and that takes none of the ids that
-- Create will give.
pub record IsGoodSeed (seed : List Product) : Type 0 where
  pub valid : All IsValidProduct seed
  pub ids : DistinctIds seed
  pub skus : DistinctSkus seed
  pub stocked : All IsStocked seed
  pub free : (n : ℕ) → length seed < n → find_id (numbered_id n) seed ≡ none

find_id-middle :
    (ps : List Product) (p : Product) (qs : List Product) → find_id p.id (ps ++ p ∷ qs) ≢ none
unfolding find_id
find_id-middle [] p qs h = cc (h, eq_refl p.id)
find_id-middle (q ∷ ps) p qs h = ground (arith, find_id-middle ps p qs)

DistinctIds-front :
    (ps : List Product) (p : Product) (qs : List Product)
    → DistinctIds (ps ++ p ∷ qs)
    → find_id p.id ps ≡ none
unfolding find_id
DistinctIds-front [] p qs d = refl
DistinctIds-front (q ∷ ps) p qs d =
    ground (arith, eq_iff p.id q.id, find_id-middle ps p qs, DistinctIds-front ps p qs d.1)

load_lem :
    (seed : List Product) (st : Store)
    → Agrees st
    → All IsValidProduct seed
    → DistinctIds (st.products ++ seed)
    → (st' : Store) × (load st seed ≡ ok st') × (st'.products ≡ st.products ++ seed) × Agrees st'
unfolding load
load_lem [] st a v d = (st, refl, sym (append-nil st.products), a)
load_lem (p ∷ seed) st a v d =
    let fresh = DistinctIds-front st.products p seed d in
    let next : Store = record {
      products = st.products ++ p ∷ [];
      by_id = insert p.id p st.by_id;
    } in
    let regroup : (st.products ++ p ∷ []) ++ seed ≡ st.products ++ (p ∷ seed) =
      append_assoc st.products (p ∷ []) seed in
    let (st', loaded, products, agrees) =
      load_lem seed next (insert-Agrees p st a fresh) v.1 (subst DistinctIds (sym regroup) d) in
    (st', rw ((validate_product-accepts_iff p).1 v.0, load) loaded, products ∙ regroup, agrees)

load-IsConsistent :
    (seed : List Product)
    → IsGoodSeed seed
    → (st : Store) × (load empty seed ≡ ok st) × (st.products ≡ seed) × IsConsistent st
unfolding find_id
load-IsConsistent seed g =
    let (st, loaded, products, agrees) = load_lem seed empty (λ id. refl) g.valid g.ids in
    (
      st,
      loaded,
      products,
      record {
        agrees = agrees;
        free = rw products g.free;
        ids = rw products g.ids;
        skus = rw products g.skus;
        stocked = rw products g.stocked;
      },
    )

-- From a good seed, or from the default products where the seed is empty, the constructor returns a
-- consistent store that holds exactly those, in their order.
pub new_product_repository-IsConsistent :
    (seed : List Product)
    → IsGoodSeed (seed_or_default seed)
    → (st : Store) × (new_product_repository seed ≡ ok st)
      × (st.products ≡ seed_or_default seed)
      × IsConsistent st
unfolding new_product_repository
new_product_repository-IsConsistent seed g = load-IsConsistent (seed_or_default seed) g

-- An id whose digits read as a number within the length is none of those to come.
not_numbered :
    (t : String) (k n : ℕ)
    → scan 0 t ≡ (k, "")
    → k < n
    → str_eq (numbered_id n) (str_append "prod-" t) ≡ false
unfolding numbered_id
not_numbered t k n reads h = elim (str_eq-cases (numbered_id n) (str_append "prod-" t)) [
  | inl (_, e) ↦
      let both : ◌≡◌ {A = ℕ × String} (n, "") (k, "") =
        sym (scan-int_text n) ∙ ap (scan 0) (append_cancel_left "prod-" _ _ e) ∙ reads in
      absurd (omega (arith, ap (λ (p : ℕ × String). p.0) both))
  | inr (e, _) ↦ e
]

pub default_products-IsGoodSeed : IsGoodSeed default_products
unfolding default_products find_id has_sku validate_product scan
default_products-IsGoodSeed = record {
  valid = (
    (validate_product-accepts_iff _).0 refl,
    (
      (validate_product-accepts_iff _).0 refl,
      (
        (validate_product-accepts_iff _).0 refl,
        ((validate_product-accepts_iff _).0 refl, ((validate_product-accepts_iff _).0 refl, tt)),
      ),
    ),
  );
  ids = (refl, (refl, (refl, (refl, (refl, tt)))));
  skus = (refl, (refl, (refl, (refl, (refl, tt)))));
  stocked = omega arith;
  free = λ n h. rw (
    not_numbered "001" 1 n refl (omega arith),
    not_numbered "002" 2 n refl (omega arith),
    not_numbered "003" 3 n refl (omega arith),
    not_numbered "004" 4 n refl (omega arith),
    not_numbered "005" 5 n refl (omega arith),
  );
}
