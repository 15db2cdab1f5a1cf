-- ===== src/InMemory/Stock.antt =====
-- UpdateStock of the in-memory repository and the range of a stock.
use shop_catalog_service.Common.{◌-◌, ◌^◌, ◌≡◌, String, some, arith, inl, inr, Bool-cases, ◌⊎◌}
use shop_catalog_service.Common.Int.{ltb_ℤ, ℤ, pos, ◌+ℤ◌, ◌≤ℤ◌, ◌<ℤ◌, +ℤ_parts}
use shop_catalog_service.Common.Word.{IsInt32, add32, wrap32_exact, wrap32_above}
use shop_catalog_service.Errors.{sentinel, insufficient_stock}
use shop_catalog_service.Exec.{ok, err}
use shop_catalog_service.Domain.{Product}
use shop_catalog_service.Repository.{Context}
use shop_catalog_service.InMemory.{Store, store_product, update_stock}
use shop_catalog_service.InMemory.Invariant.{IsConsistent, by_id-IsStocked}

-- The stock after a change is one that the product can have: zero or more, and an int32.
pub record Fits (stock delta : ℤ) : Type 0 where
  pub nonneg : pos 0 ≤ℤ stock +ℤ delta
  pub int32 : stock +ℤ delta ≤ℤ pos (2 ^ 31 - 1)

add32-Fits : (s d : ℤ) → Fits s d → add32 s d ≡ s +ℤ d
unfolding add32
add32-Fits s d f = wrap32_exact (s +ℤ d) (record { low = omega (arith, f.nonneg); high = f.int32 })

-- A sum that does not fit shows as a negative int32, also where it is too large.
add32_not-Fits : (s d : ℤ) → pos 0 ≤ℤ s → IsInt32 s → IsInt32 d → ¬ Fits s d → add32 s d <ℤ pos 0
unfolding add32
add32_not-Fits s d nonneg hs hd misfit = elim (Bool-cases (ltb_ℤ (s +ℤ d) (pos 0))) [
  | inl below ↦
      rw (wrap32_exact (s +ℤ d) (record { low = omega (arith, +ℤ_parts s d); high = ground arith }))
        (ground arith)
  | inr above ↦ elim (Bool-cases (ltb_ℤ (pos (2 ^ 31 - 1)) (s +ℤ d))) [
    | inl large ↦ wrap32_above (s +ℤ d) (ground arith) (omega (arith, +ℤ_parts s d))
    | inr fits ↦ absurd (misfit (record { nonneg = ground arith; int32 = ground arith }))
  ]
]

Fits-cases : (s d : ℤ) → Fits s d ⊎ (¬ Fits s d)
Fits-cases s d = elim (Bool-cases (ltb_ℤ (s +ℤ d) (pos 0))) [
  | inl below ↦ inr (λ f. ground (arith, f.nonneg))
  | inr above ↦ elim (Bool-cases (ltb_ℤ (pos (2 ^ 31 - 1)) (s +ℤ d))) [
    | inl large ↦ inr (λ f. ground (arith, f.int32))
    | inr fits ↦ inl (record { nonneg = ground arith; int32 = ground arith })
  ]
]

module _ (ctx : Context) (id : String) (delta : ℤ) (st : Store) (c : IsConsistent st) where
  abbrev with_stock : Product → Product
  with_stock p = record p { stock = p.stock +ℤ delta }

  -- What UpdateStock does to a known product: the stock is changed by exactly delta if the new stock
  -- is zero or more and an int32; otherwise the call fails with ErrInsufficientStock and changes
  -- nothing, also where the sum overflows.
  pub update_stock_lem :
      (p : Product)
      → st.by_id id ≡ some p
      → IsInt32 delta
      → (Fits p.stock delta
          × (update_stock ctx id delta st ≡ (ok (with_stock p), store_product (with_stock p) st)))
        ⊎ ((¬ Fits p.stock delta)
            × (update_stock ctx id delta st ≡ (err (sentinel insufficient_stock), st)))
  unfolding update_stock
  update_stock_lem p e hd = elim (Fits-cases p.stock delta) [
    | inl f ↦ inl (f, rw (e, update_stock, add32-Fits p.stock delta f) (ground (arith, f.nonneg)))
    | inr m ↦ inr (
      m,
      rw (e, update_stock)
          (ground (
            arith,
            add32_not-Fits p.stock delta (by_id-IsStocked id p c e).stock_nonneg
                (by_id-IsStocked id p c e).stock_int32 hd m,
          )),
    )
  ]
