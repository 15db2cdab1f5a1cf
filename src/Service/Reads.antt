-- ===== src/Service/Reads.antt =====
-- ListProducts and GetProduct of internal/service/catalog/catalog.go: what they return, from what the
-- repository's reads return.
use shop_catalog_service.Common.{String, List, str_eq}
use shop_catalog_service.Common.Int.{ℤ, pos, ltb_ℤ}
use shop_catalog_service.Common.Text.{trim_space}
use shop_catalog_service.Errors.{Error}
use shop_catalog_service.Exec.{Exec}
use shop_catalog_service.Exec.Ensures.{Ensures, Ensures-if, Ensures-handle}
use shop_catalog_service.Domain.{Product}
use shop_catalog_service.Repository.{Context, ProductRepository}
use shop_catalog_service.Service.{
  Logger, ServiceState, count_and_fail, on_repo, initialized, get_checked, get_product,
  list_checked, list_products, effective_limit,
}
use shop_catalog_service.Service.Calls.{wired}

module _ {S : Type 0} (J : S → Type 0) (l : Logger) (r : ProductRepository S) (ctx : Context) where
  abbrev pub Kept : ServiceState S → Type 0
  Kept st = J st.repo

  fails :
      {A : Type 0} (Q : A → Type 0) (method status : String) (e : Error)
      → Ensures Kept Q (count_and_fail method status e)
  fails Q method status e = record { at = λ st i. (i, tt) }

  repo_call :
      {A : Type 0} (Q : A → Type 0) (m : Exec S A) → Ensures J Q m → Ensures Kept Q (on_repo m)
  repo_call Q m h = record { at = λ st i. h.at st.repo i }

  pub get_product-Ensures :
      (Q : Product → Type 0) (id : String)
      → Ensures J Q (r.get_by_id ctx id)
      → Ensures Kept Q (get_product (wired l r) ctx id)
  unfolding get_product get_checked initialized
  get_product-Ensures Q id h = Ensures-if Kept Q (str_eq (trim_space id) "") _ _ (fails Q _ _ _) (
      Ensures-handle Kept Q Q (on_repo (r.get_by_id ctx id)) _ _ (repo_call Q _ h)
        (λ e. fails Q _ _ e) (λ p q. record { at = λ st i. (i, q) }))

  pub list_products-Ensures :
      (Q : List Product → Type 0) (limit offset : ℤ)
      → Ensures J Q (r.list ctx (effective_limit limit) offset)
      → Ensures Kept Q (list_products (wired l r) ctx limit offset)
  unfolding list_products list_checked initialized
  list_products-Ensures Q limit offset h =
      Ensures-if Kept Q (ltb_ℤ offset (pos 0)) _ _ (fails Q _ _ _) (
        Ensures-handle Kept Q Q (on_repo (r.list ctx (effective_limit limit) offset)) _ _
          (repo_call Q _ h) (λ e. fails Q _ _ e) (λ ps q. record { at = λ st i. (i, q) }))
