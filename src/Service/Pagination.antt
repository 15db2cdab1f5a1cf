-- ===== src/Service/Pagination.antt =====
-- The page size in ListProducts of internal/service/catalog/catalog.go.
use shop_catalog_service.Common.{inl, inr, Bool-cases, ◌⊎◌, ◌≡◌, arith}
use shop_catalog_service.Common.Int.{ltb_ℤ, leb_ℤ, leb_ℤ, ℤ, pos, ◌≤ℤ◌, ◌<ℤ◌}
use shop_catalog_service.Service.{effective_limit}

-- What a page size is by the limit that was asked for: the default, the limit itself, or the most.
abbrev pub IsPageSize : ℤ → ℤ → Type 0
IsPageSize limit size =
    ((limit ≤ℤ pos 0) × (size ≡ pos 20))
    ⊎ (((pos 1 ≤ℤ limit) × (limit ≤ℤ pos 100) × (size ≡ limit))
        ⊎ ((pos 100 <ℤ limit) × (size ≡ pos 100)))

-- Whatever limit is asked for, the page size is from 1 to 100: 20 for a limit that is not
-- positive, the limit itself from 1 to 100, and 100 above that.
pub effective_limit-IsPageSize :
    (limit : ℤ)
    → IsPageSize limit (effective_limit limit)
      × (pos 1 ≤ℤ effective_limit limit)
      × (effective_limit limit ≤ℤ pos 100)
unfolding effective_limit
effective_limit-IsPageSize limit = (sizes, ground arith, ground arith)
  where
    sizes : IsPageSize limit (effective_limit limit)
    sizes = elim (Bool-cases (leb_ℤ limit (pos 0))) [
      | inl e ↦ inl (ground arith, ground arith)
      | inr e ↦ elim (Bool-cases (ltb_ℤ (pos 100) limit)) [
        | inl f ↦ inr (inr (ground arith, ground arith))
        | inr f ↦ inr (inl (ground arith, ground arith, ground arith))
      ]
    ]
