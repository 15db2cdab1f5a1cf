-- ===== src/InMemory/Methods.antt =====
-- The methods of the in-memory repository against its invariant.
use shop_catalog_service.Common.{
  ◌+◌, ◌≡◌, refl, ◌∙◌, ap, String, Option, none, some, arith, inl, inr, Option-cases, Bool-cases,
}
use shop_catalog_service.Common.Int.{◌+ℤ◌, ℤ, pos, ◌≤ℤ◌, ltb_ℤ}
use shop_catalog_service.Common.Word.{IsInt32, add32, wrap32-IsInt32}
use shop_catalog_service.Common.Lists.{length}
use shop_catalog_service.Domain.{CreateProductCommand, UpdateProductCommand}
use shop_catalog_service.Domain.Validation.{IsValidCreate, IsValidUpdate}
use shop_catalog_service.Repository.{Context}
use shop_catalog_service.Service.Calls.{
  one-state, Call, list, get, create, update, stock, IsAdmitted, forward,
}
use shop_catalog_service.InMemory
use shop_catalog_service.InMemory.{
  Store, store_product, insert, has_sku, numbered_id, new_product, merge, or_keep, repository,
}
use shop_catalog_service.InMemory.Invariant.{
  IsConsistent, by_id-id, by_id-IsStocked, store_product-IsConsistent, append-IsConsistent,
}
use shop_catalog_service.Service.{effective_limit}

-- The stock of a new product is an int32, as its type in Go says.
abbrev pub InRange : Call → Type 0
InRange (create cmd) = IsInt32 cmd.stock
InRange _ = Unit {0}

module _ (ctx : Context) (st : Store) (c : IsConsistent st) where
  create-IsConsistent :
      (cmd : CreateProductCommand)
      → IsValidCreate cmd
      → IsInt32 cmd.stock
      → IsConsistent (InMemory.create ctx cmd st).1
  unfolding InMemory.create new_product
  create-IsConsistent cmd v i = elim (Bool-cases (has_sku cmd.sku st.products)) [
    | inl taken ↦ rw taken c
    | inr new ↦ rw new (
        append-IsConsistent (new_product (numbered_id (length st.products + 1)) cmd) st c refl new
          (record {
            stock_nonneg = v.stock_nonneg;
            stock_int32 = i;
            price_nonneg = v.price_nonneg;
          }))
  ]

  price-or_keep :
      (o : Option ℤ) (old : ℤ)
      → ((p : ℤ) → o ≡ some p → pos 0 ≤ℤ p)
      → pos 0 ≤ℤ old
      → pos 0 ≤ℤ or_keep o old
  price-or_keep none old h k = k
  price-or_keep (some p) old h k = h p refl

  update-IsConsistent :
      (cmd : UpdateProductCommand) → IsValidUpdate cmd → IsConsistent (InMemory.update ctx cmd st).1
  unfolding InMemory.update merge
  update-IsConsistent cmd v = elim (Option-cases (st.by_id cmd.id)) [
    | inl e ↦ rw (e, InMemory.update) c
    | inr (old, e) ↦
        let s = by_id-IsStocked cmd.id old c e in
        rw (e, InMemory.update)
          (store_product-IsConsistent (merge cmd old) old st c
            (ap st.by_id (by_id-id cmd.id old c e) ∙ e) refl
            (record {
              stock_nonneg = s.stock_nonneg;
              stock_int32 = s.stock_int32;
              price_nonneg =
                  price-or_keep cmd.price_cents old.price_cents v.price_nonneg s.price_nonneg;
            }))
  ]

  update_stock-IsConsistent :
      (id : String) (delta : ℤ) → IsConsistent (InMemory.update_stock ctx id delta st).1
  unfolding InMemory.update_stock
  update_stock-IsConsistent id delta = elim (Option-cases (st.by_id id)) [
    | inl e ↦ rw (e, InMemory.update_stock) c
    | inr (old, e) ↦
        rw (e, InMemory.update_stock)
          (elim (Bool-cases (ltb_ℤ (add32 old.stock delta) (pos 0))) [
            | inl short ↦ rw short c
            | inr enough ↦ rw enough (
                store_product-IsConsistent (record old { stock = add32 old.stock delta }) old st c
                  (ap st.by_id (by_id-id id old c e) ∙ e) refl
                  (record {
                    stock_nonneg = ground (arith, enough);
                    stock_int32 = unfold add32 in wrap32-IsInt32 (old.stock +ℤ delta);
                    price_nonneg = (by_id-IsStocked id old c e).price_nonneg;
                  }))
          ])
  ]

-- The reads change nothing.
pub list-state :
    (ctx : Context) (limit offset : ℤ) (st : Store) → (InMemory.list ctx limit offset st).1 ≡ st
unfolding InMemory.list
list-state ctx limit offset st = ground arith

pub get_by_id-state :
    (ctx : Context) (id : String) (st : Store) → (InMemory.get_by_id ctx id st).1 ≡ st
unfolding InMemory.get_by_id
get_by_id-state ctx id st = ground arith

-- An admitted call of the repository, reads included, keeps the invariant.
pub forward-IsConsistent :
    (ctx : Context) (call : Call) (st : Store)
    → IsAdmitted call
    → InRange call
    → IsConsistent st
    → IsConsistent (forward repository ctx call st).1
unfolding forward repository
forward-IsConsistent ctx (list limit offset) st a i c =
    rw (list-state ctx (effective_limit limit) offset st) c
forward-IsConsistent ctx (get id) st a i c =
    rw (one-state (InMemory.get_by_id ctx id) st, get_by_id-state ctx id st) c
forward-IsConsistent ctx (create cmd) st a i c =
    rw (one-state (InMemory.create ctx cmd) st) (create-IsConsistent ctx st c cmd a i)
forward-IsConsistent ctx (update cmd) st a i c =
    rw (one-state (InMemory.update ctx cmd) st) (update-IsConsistent ctx st c cmd a)
forward-IsConsistent ctx (stock id delta) st a i c =
    rw (one-state (InMemory.update_stock ctx id delta) st)
      (update_stock-IsConsistent ctx st c id delta)
