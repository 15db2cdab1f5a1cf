-- ===== src/InMemory/Find.antt =====
-- Looking products up by id in the slice of the in-memory repository, under its three updates.
use text.Mathlib.TextLemmas.{append_cancel_left, append-nil}
use shop_catalog_service.Common.{
  ℕ, ◌≡◌, refl, sym, ◌∙◌, ap, String, Option, none, some, List, ◌∷◌, ◌++◌, str_eq, eq_iff, arith,
  if◌then◌else◌,
}
use shop_catalog_service.Common.Int.{pos, pos_part}
use shop_catalog_service.Common.Lists.{length}
use shop_catalog_service.Common.Decimal.{int_text, int_text_unique, Stops-nil}
use shop_catalog_service.Domain.{Product}
use shop_catalog_service.InMemory.{replace_first, numbered_id}

-- The first product with an id.
unfoldable pub find_id : String → List Product → Option Product
find_id id List.[] = none
find_id id (p ∷ ps) = if str_eq id p.id then some p else find_id id ps

pub find_id-id :
    (id : String) (ps : List Product) (p : Product) → find_id id ps ≡ some p → p.id ≡ id
unfolding find_id
find_id-id id List.[] p h = cc
find_id-id id (q ∷ ps) p h = ground (arith, eq_iff id q.id, find_id-id id ps p)

pub find_id-append :
    (id : String) (ps : List Product) (p : Product)
    → find_id id ps ≡ none
    → find_id id (ps ++ p ∷ List.[]) ≡ (if str_eq id p.id then some p else none)
unfolding find_id
find_id-append id List.[] p h = refl
find_id-append id (q ∷ ps) p h = ground (arith, find_id-append id ps p)

pub find_id-append_old :
    (id : String) (ps : List Product) (q p : Product)
    → find_id id ps ≡ some q
    → find_id id (ps ++ p ∷ List.[]) ≡ some q
unfolding find_id
find_id-append_old id List.[] q p h = cc
find_id-append_old id (r ∷ ps) q p h = ground (arith, find_id-append_old id ps q p)

-- Overwriting the first product with an id that is there.
pub find_id-replace_first :
    (id : String) (p : Product) (ps : List Product) (old : Product)
    → find_id p.id ps ≡ some old
    → find_id id (replace_first p ps) ≡ (if str_eq id p.id then some p else find_id id ps)
unfolding find_id replace_first
find_id-replace_first id p List.[] old h = cc
find_id-replace_first id p (q ∷ ps) old h = ground (
  arith,
  eq_iff q.id p.id,
  eq_iff p.id q.id,
  eq_iff id p.id,
  eq_iff id q.id,
  find_id-replace_first id p ps old,
)

pub length-replace_first :
    (p : Product) (ps : List Product) → length (replace_first p ps) ≡ length ps
unfolding replace_first
length-replace_first p List.[] = refl
length-replace_first p (q ∷ ps) = ground (arith, length-replace_first p ps)

-- Two numbers with one printed id are equal.
pub numbered_id_unique : (m n : ℕ) → numbered_id m ≡ numbered_id n → m ≡ n
unfolding numbered_id
numbered_id_unique m n e =
    ap pos_part
      (int_text_unique (pos m) (pos n) "" "" Stops-nil Stops-nil (
        append-nil (int_text (pos m))
        ∙ append_cancel_left "prod-" _ _ e
        ∙ sym (append-nil (int_text (pos n))))).0
