-- ===== src/InMemory/Source.antt =====
-- The reads of the in-memory repository as the next repository of a cached one.
use shop_catalog_service.Common.{
  ap, inr, arith, inl, Option-cases, ◌≡◌, String, Option, none, some, List,
}
use shop_catalog_service.Common.Int.{ℤ}
use shop_catalog_service.Exec.{Result, ok, err, panic}
use shop_catalog_service.Domain.{Product}
use shop_catalog_service.InMemory
use shop_catalog_service.InMemory.{Store, page, repository}
use shop_catalog_service.Cached.Coherence.{IsSource}
use shop_catalog_service.Repository.{Context}
use shop_catalog_service.InMemory.Invariant.{by_id-id, IsConsistent}
use shop_catalog_service.InMemory.Methods.{list-state, get_by_id-state}

abbrev value_of : {A : Type 0} → Result A → Option A
value_of (ok a) = some a
value_of (err e) = none
value_of panic = none

-- The catalog of a store: its map, and its pages.
abbrev pub find : Store → String → Option Product
find st id = st.by_id id

abbrev pub listing : Store → ℤ → ℤ → Option (List Product)
listing st limit offset = value_of (page st.products limit offset)

get_by_id_value :
    (ctx : Context) (id : String) (st : Store) (p : Product)
    → (InMemory.get_by_id ctx id st).0 ≡ ok p
    → st.by_id id ≡ some p
unfolding InMemory.get_by_id
get_by_id_value ctx id st p e = elim (Option-cases ctx.done) [
  | inl live ↦ ground arith
  | inr (x, done) ↦ ground arith
]

list_value :
    (ctx : Context) (limit offset : ℤ) (st : Store) (ps : List Product)
    → (InMemory.list ctx limit offset st).0 ≡ ok ps
    → page st.products limit offset ≡ ok ps
unfolding InMemory.list
list_value ctx limit offset st ps e = elim (Option-cases ctx.done) [
  | inl live ↦ ground arith
  | inr (x, done) ↦ ground arith
]

pub repository-IsSource : (st : Store) → IsConsistent st → IsSource repository find listing st
unfolding repository
repository-IsSource st c = record {
  get_same = λ ctx id. get_by_id-state ctx id st;
  get_found = λ ctx id p e.
      (get_by_id_value ctx id st p e, by_id-id id p c (get_by_id_value ctx id st p e));
  list_same = λ ctx limit offset. list-state ctx limit offset st;
  list_found = λ ctx limit offset ps e. ap value_of (list_value ctx limit offset st ps e);
}
