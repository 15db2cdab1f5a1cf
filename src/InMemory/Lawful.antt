-- ===== src/InMemory/Lawful.antt =====
-- The writes of internal/repository/in_memory/product_repository.go as those of the next repository of a
-- cached one.
use shop_catalog_service.Common.{
  ◌+◌, ◌≡◌, ◌≢◌, refl, ◌∙◌, ap, inl, inr, Bool-cases, Option, Option-cases, String, eq_iff, arith,
}
use shop_catalog_service.Common.Int.{ℤ, pos, ltb_ℤ}
use shop_catalog_service.Common.Word.{add32}
use shop_catalog_service.Common.Lists.{length}
use shop_catalog_service.Exec.{ok}
use shop_catalog_service.Exec.Ensures.{Post}
use shop_catalog_service.Domain.{Product, CreateProductCommand, UpdateProductCommand}
use shop_catalog_service.Repository.{Context}
use shop_catalog_service.Service.Calls.{Call, list, get, create, update, stock}
use shop_catalog_service.InMemory
use shop_catalog_service.InMemory.{
  Store, insert, has_sku, numbered_id, merge, new_product, store_product, repository,
}
use shop_catalog_service.InMemory.Invariant.{IsConsistent, by_id-id}
use shop_catalog_service.InMemory.Source.{find, listing, repository-IsSource}
use shop_catalog_service.Cached.Interleaving.Calm.{write_of, written_id, IsLawful}

pub other_id :
    (p : Product) (m : String → Option Product) (id k : String) → k ≢ id → insert id p m k ≡ m k
other_id p m id k ne = ground (arith, eq_iff k id)

module _ (ctx : Context) (st : Store) (c : IsConsistent st) where
  -- Where a write returns a product, it has stored that one and no other.
  update_stored :
      (cmd : UpdateProductCommand) (p : Product)
      → (InMemory.update ctx cmd st).0 ≡ ok p
      → (InMemory.update ctx cmd st).1 ≡ store_product p st
  unfolding InMemory.update
  update_stored cmd p e = elim (Option-cases (st.by_id cmd.id)) [
    | inl missing ↦ ground arith
    | inr (old, found) ↦ ground arith
  ]

  update_stock_stored :
      (id : String) (delta : ℤ) (p : Product)
      → (InMemory.update_stock ctx id delta st).0 ≡ ok p
      → ((InMemory.update_stock ctx id delta st).1 ≡ store_product p st) × (p.id ≡ id)
  unfolding InMemory.update_stock
  update_stock_stored id delta p e = elim (Option-cases (st.by_id id)) [
    | inl missing ↦ ground arith
    | inr (old, found) ↦
        let own = by_id-id id old c found in
        elim (Bool-cases (ltb_ℤ (add32 old.stock delta) (pos 0))) [
          | inl short ↦ ground arith
          | inr enough ↦ ground arith
        ]
  ]

  create_stored :
      (cmd : CreateProductCommand) (p : Product)
      → (InMemory.create ctx cmd st).0 ≡ ok p
      → ((InMemory.create ctx cmd st).1.by_id ≡ insert p.id p st.by_id)
        × (p.id ≡ numbered_id (length st.products + 1))
  unfolding InMemory.create new_product
  create_stored cmd p e = elim (Bool-cases (has_sku cmd.sku st.products)) [
    | inl taken ↦ ground arith
    | inr free ↦ ground arith
  ]

  update_failed :
      (cmd : UpdateProductCommand)
      → Post (λ _. ⊥) (InMemory.update ctx cmd st).0
      → (InMemory.update ctx cmd st).1 ≡ st
  unfolding InMemory.update
  update_failed cmd h = elim (Option-cases (st.by_id cmd.id)) [
    | inl missing ↦ ground arith
    | inr (old, found) ↦ ground arith
  ]

  update_stock_failed :
      (id : String) (delta : ℤ)
      → Post (λ _. ⊥) (InMemory.update_stock ctx id delta st).0
      → (InMemory.update_stock ctx id delta st).1 ≡ st
  unfolding InMemory.update_stock
  update_stock_failed id delta h = elim (Option-cases (st.by_id id)) [
    | inl missing ↦ ground arith
    | inr (old, found) ↦ elim (Bool-cases (ltb_ℤ (add32 old.stock delta) (pos 0))) [
      | inl short ↦ ground arith
      | inr enough ↦ ground arith
    ]
  ]

  create_failed :
      (cmd : CreateProductCommand)
      → Post (λ _. ⊥) (InMemory.create ctx cmd st).0
      → (InMemory.create ctx cmd st).1 ≡ st
  unfolding InMemory.create
  create_failed cmd h = elim (Bool-cases (has_sku cmd.sku st.products)) [
    | inl taken ↦ ground arith
    | inr free ↦ ground arith
  ]

  write-changes :
      (call : Call) (p : Product)
      → (write_of repository ctx call st).0 ≡ ok p
      → (k : String) → k ≢ written_id call p
      → find (write_of repository ctx call st).1 k ≡ find st k
  unfolding repository
  write-changes (list limit offset) p e k ne = absurd (ground arith)
  write-changes (get id) p e k ne = absurd (ground arith)
  write-changes (create cmd) p e k ne =
      ap (λ m. m k) (create_stored cmd p e).0 ∙ other_id p st.by_id p.id k ne
  write-changes (update cmd) p e k ne =
      ap (λ s. find s k) (update_stored cmd p e) ∙ other_id p st.by_id p.id k ne
  write-changes (stock id delta) p e k ne =
      let (stored, own) = update_stock_stored id delta p e in
      ap (λ s. find s k) stored ∙ other_id p st.by_id p.id k (λ same. ne (same ∙ own))

  write-failed :
      (call : Call)
      → Post (λ _. ⊥) (write_of repository ctx call st).0
      → (write_of repository ctx call st).1 ≡ st
  unfolding repository
  write-failed (list limit offset) h = refl
  write-failed (get id) h = refl
  write-failed (create cmd) h = create_failed cmd h
  write-failed (update cmd) h = update_failed cmd h
  write-failed (stock id delta) h = update_stock_failed id delta h

pub repository-IsLawful : (st : Store) → IsConsistent st → IsLawful repository find listing st
unfolding repository
repository-IsLawful st c = record {
  source = repository-IsSource st c;
  changes = λ ctx call p e k ne. write-changes ctx st c call p e k ne;
  fresh = λ ctx cmd p e.
      ap st.by_id (create_stored ctx st c cmd p e).1
      ∙ (c.agrees (numbered_id (length st.products + 1))
          ∙ c.free (length st.products + 1) (omega arith));
  failed = λ ctx call h. write-failed ctx st c call h;
}
