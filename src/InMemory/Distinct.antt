-- ===== src/InMemory/Distinct.antt =====
-- Distinct ids and SKUs in the slice of the in-memory repository, under its three updates.
use mathlib.Core.Path.{subst}
use shop_catalog_service.Common.{
  Bool-cases, inl, inr, ◌≡◌, refl, false, ◌||◌, String, none, some, List, [], ◌∷◌, ◌++◌, str_eq,
  eq_iff, arith,
}
use shop_catalog_service.Common.Lists.{All}
use shop_catalog_service.Domain.{Product}
use shop_catalog_service.InMemory.{replace_first, has_sku}
use shop_catalog_service.InMemory.Find.{find_id, find_id-append}

abbrev pub DistinctIds : List Product → Type 0
DistinctIds [] = Unit
DistinctIds (p ∷ ps) = (find_id p.id ps ≡ none) × DistinctIds ps

abbrev pub DistinctSkus : List Product → Type 0
DistinctSkus [] = Unit
DistinctSkus (p ∷ ps) = (has_sku p.sku ps ≡ false) × DistinctSkus ps

pub DistinctIds-append :
    (ps : List Product) (p : Product)
    → DistinctIds ps
    → find_id p.id ps ≡ none
    → DistinctIds (ps ++ p ∷ [])
unfolding find_id
DistinctIds-append [] p d h = (refl, tt)
DistinctIds-append (q ∷ ps) p d h = ground (
  arith,
  find_id-append q.id ps p,
  eq_iff q.id p.id,
  eq_iff p.id q.id,
  DistinctIds-append ps p d.1,
)

has_sku-append :
    (s : String) (ps : List Product) (p : Product)
    → has_sku s (ps ++ p ∷ []) ≡ (has_sku s ps || str_eq p.sku s)
unfolding has_sku
has_sku-append s [] p = ground arith
has_sku-append s (q ∷ ps) p = ground (arith, has_sku-append s ps p)

pub DistinctSkus-append :
    (ps : List Product) (p : Product)
    → DistinctSkus ps
    → has_sku p.sku ps ≡ false
    → DistinctSkus (ps ++ p ∷ [])
unfolding has_sku
DistinctSkus-append [] p d h = (refl, tt)
DistinctSkus-append (q ∷ ps) p d h = ground (
  arith,
  has_sku-append q.sku ps p,
  eq_iff q.sku p.sku,
  eq_iff p.sku q.sku,
  DistinctSkus-append ps p d.1,
)

-- An id that is not there stays away when another is overwritten.
pub find_id-replace_first-none :
    (id : String) (p : Product) (ps : List Product)
    → find_id id ps ≡ none
    → find_id id (replace_first p ps) ≡ none
unfolding find_id replace_first
find_id-replace_first-none id p [] h = refl
find_id-replace_first-none id p (q ∷ ps) h =
    ground
      (arith, eq_iff q.id p.id, eq_iff id p.id, eq_iff id q.id, find_id-replace_first-none id p ps)

pub DistinctIds-replace_first :
    (p : Product) (ps : List Product) → DistinctIds ps → DistinctIds (replace_first p ps)
unfolding replace_first
DistinctIds-replace_first p [] d = tt
DistinctIds-replace_first p (q ∷ ps) d = ground (
  arith,
  eq_iff q.id p.id,
  find_id-replace_first-none q.id p ps,
  DistinctIds-replace_first p ps d.1,
)

has_sku-replace_first :
    (s : String) (p : Product) (ps : List Product) (old : Product)
    → find_id p.id ps ≡ some old
    → p.sku ≡ old.sku
    → has_sku s (replace_first p ps) ≡ has_sku s ps
unfolding has_sku find_id replace_first
has_sku-replace_first s p [] old h e = refl
has_sku-replace_first s p (q ∷ ps) old h e =
    ground (arith, eq_iff q.id p.id, eq_iff p.id q.id, has_sku-replace_first s p ps old)

pub DistinctSkus-replace_first :
    (p : Product) (ps : List Product) (old : Product)
    → find_id p.id ps ≡ some old
    → p.sku ≡ old.sku
    → DistinctSkus ps
    → DistinctSkus (replace_first p ps)
unfolding find_id replace_first
DistinctSkus-replace_first p [] old h e d = tt
DistinctSkus-replace_first p (q ∷ ps) old h e d = ground (
  arith,
  eq_iff q.id p.id,
  eq_iff p.id q.id,
  has_sku-replace_first q.sku p ps old,
  DistinctSkus-replace_first p ps old,
)

module _ (P : Product → Type 0) where
  pub All-replace_first :
      (p : Product) (ps : List Product) → P p → All P ps → All P (replace_first p ps)
  unfolding replace_first
  All-replace_first p [] hp h = tt
  All-replace_first p (q ∷ ps) hp h = elim (Bool-cases (str_eq q.id p.id)) [
    | inl same ↦ rw same (hp, h.1)
    | inr other ↦ rw other (h.0, All-replace_first p ps hp h.1)
  ]

  pub All-find_id :
      (id : String) (ps : List Product) (p : Product) → find_id id ps ≡ some p → All P ps → P p
  unfolding find_id
  All-find_id id [] p e h = cc
  All-find_id id (q ∷ ps) p e h = elim (Bool-cases (str_eq id q.id)) [
    | inl same ↦
        let one : some q ≡ some p = rw same at e in let is_it : q ≡ p = cc one in subst P is_it h.0
    | inr other ↦ All-find_id id ps p (rw other at e) h.1
  ]
