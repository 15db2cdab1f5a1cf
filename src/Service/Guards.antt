-- ===== src/Service/Guards.antt =====
-- The guards of the methods of internal/service/catalog/catalog.go: which calls reach the repository.
use shop_catalog_service.Common.{
  false, sym, ◌⊎◌, ◌≡◌, ◌∷◌, refl, arith, Option-cases, Bool-cases, inl, inr, true,
}
use shop_catalog_service.Common.Text.{is_blank, empty-trim_space}
use shop_catalog_service.Errors.{
  Error, Sentinel, sentinel, plain, error_is, invalid_pagination, invalid_product,
}
use shop_catalog_service.Exec.{err}
use shop_catalog_service.Domain.{validate_create, validate_update}
use shop_catalog_service.Domain.Validation.{
  validate_create-accepts_iff, validate_update-accepts_iff, validate_create-error_is,
  validate_update-error_is,
}
use shop_catalog_service.Repository.{Context, ProductRepository}
use shop_catalog_service.Service.{
  Logger, ServiceState, id_required, list_products, get_product, create_product, update_product,
  update_stock,
}
use shop_catalog_service.Service.Calls.{
  Call, list, get, create, update, stock, method_name, IsAdmitted, wired, serve, forward,
}
use mathlib.Core.Path.{subst}
use shop_catalog_service.Common.Int.{eqb_ℤ, pos, ltb_ℤ}

abbrev pub refused_state : {S : Type 0} → Call → ServiceState S → ServiceState S
refused_state call st = record st {
  requests_total = (method_name call, "invalid_argument") ∷ st.requests_total;
}

-- `errors.Is` finds no sentinel in the error.
abbrev pub IsUnnamed : Error → Type 0
IsUnnamed e = (s : Sentinel) → error_is e s ≡ false

-- The error that a refusal has: the pagination error for a list, an invalid-product error for a
-- command, and an unnamed one for an id or a delta.
abbrev pub IsRefusal : Call → Error → Type 0
IsRefusal (list limit offset) e = e ≡ sentinel invalid_pagination
IsRefusal (get id) e = IsUnnamed e
IsRefusal (create cmd) e = error_is e invalid_product ≡ true
IsRefusal (update cmd) e = error_is e invalid_product ≡ true
IsRefusal (stock id delta) e = IsUnnamed e

-- Every call is admitted or not.
pub IsAdmitted-cases : (call : Call) → IsAdmitted call ⊎ (¬ IsAdmitted call)
IsAdmitted-cases (list limit offset) = elim (Bool-cases (ltb_ℤ offset (pos 0))) [
  | inl e ↦ inr (λ h. ground arith)
  | inr e ↦ inl (ground arith)
]
IsAdmitted-cases (get id) = elim (Bool-cases (is_blank id)) [
  | inl e ↦ inr (λ h. cc (e, h))
  | inr e ↦ inl e
]
IsAdmitted-cases (create cmd) = elim (Option-cases (validate_create cmd)) [
  | inl e ↦ inl ((validate_create-accepts_iff cmd).0 e)
  | inr (x, e) ↦ inr (λ h. cc (e, (validate_create-accepts_iff cmd).1 h))
]
IsAdmitted-cases (update cmd) = elim (Option-cases (validate_update cmd)) [
  | inl e ↦ inl ((validate_update-accepts_iff cmd).0 e)
  | inr (x, e) ↦ inr (λ h. cc (e, (validate_update-accepts_iff cmd).1 h))
]
IsAdmitted-cases (stock id delta) = elim (Bool-cases (is_blank id)) [
  | inl e ↦ inr (λ h. cc (e, h.0))
  | inr e ↦ elim (Bool-cases (eqb_ℤ delta (pos 0))) [
    | inl z ↦ inr (λ h. h.1 (ground arith))
    | inr z ↦ inl (e, λ p. ground arith)
  ]
]

module _ {S : Type 0} (l : Logger) (r : ProductRepository S) where
  -- An admitted call has the repository's own result and leaves it in the same state.
  pub serve_admitted :
      (ctx : Context) (call : Call) (st : ServiceState S)
      → IsAdmitted call
      → ((serve (wired l r) ctx call st).0 ≡ (forward r ctx call st.repo).0)
        × ((serve (wired l r) ctx call st).1.repo ≡ (forward r ctx call st.repo).1)
  unfolding serve forward
  serve_admitted ctx (list limit offset) st h = unfold list_products in ground arith
  serve_admitted ctx (get id) st h = unfold get_product in ground (arith, empty-trim_space id)
  serve_admitted ctx (create cmd) st h =
      unfold create_product in ground (arith, (validate_create-accepts_iff cmd).1 h)
  serve_admitted ctx (update cmd) st h =
      unfold update_product in ground (arith, (validate_update-accepts_iff cmd).1 h)
  serve_admitted ctx (stock id delta) st h =
      unfold update_stock in ground (arith, empty-trim_space id)

  -- A call that is not admitted fails, the repository is not called, and the request is counted as an
  -- invalid argument. The error is ErrInvalidPagination for a list, one in which errors.Is finds
  -- ErrInvalidProduct for a command, and one in which it finds no sentinel for an id or a delta.
  pub serve_refused :
      (ctx : Context) (call : Call) (st : ServiceState S)
      → ¬ IsAdmitted call
      → (e : Error) × (serve (wired l r) ctx call st ≡ (err e, refused_state call st))
        × IsRefusal call e
  unfolding serve
  serve_refused ctx (list limit offset) st h =
      unfold list_products in (sentinel invalid_pagination, ground arith, refl)
  serve_refused ctx (get id) st h =
      unfold get_product in (id_required, ground (arith, empty-trim_space id), λ s. refl)
  serve_refused ctx (create cmd) st h = elim (Option-cases (validate_create cmd)) [
    | inl e ↦ absurd (h ((validate_create-accepts_iff cmd).0 e))
    | inr (e, p) ↦ unfold create_product in (e, ground arith, validate_create-error_is cmd e p)
  ]
  serve_refused ctx (update cmd) st h = elim (Option-cases (validate_update cmd)) [
    | inl e ↦ absurd (h ((validate_update-accepts_iff cmd).0 e))
    | inr (e, p) ↦ unfold update_product in (e, ground arith, validate_update-error_is cmd e p)
  ]
  serve_refused ctx (stock id delta) st h = elim (Bool-cases (is_blank id)) [
    | inl blank ↦
        unfold update_stock in (id_required, ground (arith, empty-trim_space id), λ s. refl)
    | inr given ↦
        unfold update_stock in
        (plain "delta cannot be zero", ground (arith, empty-trim_space id), λ s. refl)
  ]

  -- What the repository keeps on every admitted call, the service keeps on every call.
  pub serve_keeps :
      (P : S → Type 0) (ctx : Context) (call : Call) (st : ServiceState S)
      → (IsAdmitted call → P (forward r ctx call st.repo).1)
      → P st.repo
      → P (serve (wired l r) ctx call st).1.repo
  serve_keeps P ctx call st keep h = elim (IsAdmitted-cases call) [
    | inl a ↦ subst P (sym (serve_admitted ctx call st a).1) (keep a)
    | inr n ↦ rw (serve_refused ctx call st n).1 h
  ]
