-- ===== src/Service/Labels.antt =====
-- The counter requests_total of internal/service/catalog/catalog.go, over one call and over runs.
use shop_catalog_service.Common.{
  ◌+◌, ◌≡◌, String, Option, none, some, List, [], ◌∷◌, refl, arith, str_eq, false, if◌then◌else◌,
}
use shop_catalog_service.Common.Int.{pos, eqb_ℤ, ℤ}
use shop_catalog_service.Common.Lists.{length}
use shop_catalog_service.Exec.{◌>>=◌, ◌>>◌, pure, handle, deref, Exec, Result, ok, err, panic}
use shop_catalog_service.Repository.{Context, ProductRepository}
use shop_catalog_service.Service.{
  id_required, stock_status, on_repo, count_and_fail, log, count_request, Logger, CatalogService,
  ServiceState, CounterVec, initialized, list_checked, get_checked, list_products, get_product,
  create_product, update_product, update_stock,
}
use shop_catalog_service.Service.Calls.{
  Call, list, get, create, update, stock, Reply, method_name, serve, serve_all, total_of, successes,
  returned,
}
use shop_catalog_service.Errors.{
  plain, insufficient_stock, product_not_found, product_already_exists, error_is, Error,
}
use shop_catalog_service.Domain.{
  validate_update, validate_create, UpdateProductCommand, CreateProductCommand, Product,
}
use shop_catalog_service.Service.Counting.{
  IsCounted-success, is_failure, IsCounted-log, IsCounted-repo, IsCounted-fail, IsCounted-deref,
  IsCounted-unless, IsCounted-if, counting, IsCounted-one, IsCounted, Counts,
}
use shop_catalog_service.Common.Text.{trim_space}

returned-cons :
    (r : Result Reply) (rs : List (Result Reply))
    → returned (r ∷ rs) ≡ returned (r ∷ []) + returned rs
returned-cons (ok _) rs = omega arith
returned-cons (err _) rs = omega arith
returned-cons panic rs = omega arith

successes-cons :
    (r : Result Reply) (rs : List (Result Reply))
    → successes (r ∷ rs) ≡ successes (r ∷ []) + successes rs
successes-cons (ok _) rs = omega arith
successes-cons (err _) rs = omega arith
successes-cons panic rs = omega arith

module _ {S : Type 0} (ctx : Context) where
  list_checked-IsCounted :
      (o : Option (Logger × ProductRepository S)) (limit offset : ℤ)
      → IsCounted "ListProducts" (list_checked o ctx limit offset)
  unfolding list_checked
  list_checked-IsCounted none limit offset = search counting
  list_checked-IsCounted (some (l, r)) limit offset = search counting

module _ {S : Type 0} (service : Option (CatalogService S)) where
  get_checked-IsCounted :
      (ctx : Context) (o : Option (Logger × ProductRepository S)) (id : String)
      → IsCounted "GetProduct" (get_checked o ctx id)
  unfolding get_checked
  get_checked-IsCounted ctx none id = search counting
  get_checked-IsCounted ctx (some (l, r)) id = search counting

  -- The common course of the three writes, once the command is admitted.
  IsCounted-write :
      (method : String) (call : ProductRepository S → Exec S Product) (status : Error → String)
      → ((e : Error) → str_eq (status e) "success" ≡ false)
      → IsCounted method (
          deref service >>= λ this. deref this.repository >>= λ repository.
          handle
            (on_repo (call repository))
            (λ e. log this >> count_and_fail method (status e) e)
            (λ product. log this >> (count_request method "success" >> pure product)))
  IsCounted-write method call status h = IsCounted-deref method service _ λ this.
      IsCounted-deref method this.repository _ λ r.
        IsCounted-repo method (call r) _ _
          (λ e. IsCounted-log method this _ (IsCounted-fail method (status e) e (h e)))
          (λ p. IsCounted-log method this _ (IsCounted-success method p))

  create_product-IsCounted :
      (ctx : Context) (cmd : CreateProductCommand)
      → IsCounted "CreateProduct" (create_product service ctx cmd)
  unfolding create_product
  create_product-IsCounted ctx cmd =
      IsCounted-unless "CreateProduct" (validate_create cmd)
        (count_and_fail "CreateProduct" "invalid_argument") _ (λ e. IsCounted-fail _ _ e refl)
        (IsCounted-write "CreateProduct" (λ r. r.create ctx cmd)
          (λ e. if error_is e product_already_exists then "already_exists" else "error")
          (λ e. is_failure (error_is e product_already_exists) "already_exists" "error" refl refl))

  update_product-IsCounted :
      (ctx : Context) (cmd : UpdateProductCommand)
      → IsCounted "UpdateProduct" (update_product service ctx cmd)
  unfolding update_product
  update_product-IsCounted ctx cmd =
      IsCounted-unless "UpdateProduct" (validate_update cmd)
        (count_and_fail "UpdateProduct" "invalid_argument") _ (λ e. IsCounted-fail _ _ e refl)
        (IsCounted-write "UpdateProduct" (λ r. r.update ctx cmd)
          (λ e. if error_is e product_not_found then "not_found" else "error")
          (λ e. is_failure (error_is e product_not_found) "not_found" "error" refl refl))

  update_stock-IsCounted :
      (ctx : Context) (id : String) (delta : ℤ)
      → IsCounted "UpdateStock" (update_stock service ctx id delta)
  unfolding update_stock
  update_stock-IsCounted ctx id delta =
      IsCounted-if "UpdateStock" (str_eq (trim_space id) "") _ _
        (IsCounted-fail "UpdateStock" "invalid_argument" id_required refl)
        (IsCounted-if "UpdateStock" (eqb_ℤ delta (pos 0)) _ _
          (IsCounted-fail "UpdateStock" "invalid_argument" (plain "delta cannot be zero") refl)
          (IsCounted-write "UpdateStock" (λ r. r.update_stock ctx id delta) stock_status
            (λ e.
              is_failure (error_is e insufficient_stock) "insufficient_stock" _ refl
                (is_failure (error_is e product_not_found) "not_found" "error" refl refl))))

  -- A call that succeeds is counted as one success of its method, one that fails as one other
  -- status of its method, and one that panics is not counted.
  serve-IsCounted :
      (ctx : Context) (call : Call) → IsCounted (method_name call) (serve service ctx call)
  unfolding serve
  serve-IsCounted ctx (list limit offset) =
      unfold list_products in list_checked-IsCounted ctx (initialized service) limit offset
  serve-IsCounted ctx (get id) =
      unfold get_product in IsCounted-one _ _ (get_checked-IsCounted ctx (initialized service) id)
  serve-IsCounted ctx (create cmd) = IsCounted-one _ _ (create_product-IsCounted ctx cmd)
  serve-IsCounted ctx (update cmd) = IsCounted-one _ _ (update_product-IsCounted ctx cmd)
  serve-IsCounted ctx (stock id delta) = IsCounted-one _ _ (update_stock-IsCounted ctx id delta)

  -- The number of increments, and of successes, agrees with the results of a run.
  increments :
      (call : Call) (v : CounterVec) (r : Result Reply) (v' : CounterVec)
      → Counts (method_name call) v r v'
      → (length v' ≡ returned (r ∷ []) + length v)
        × (total_of "success" v' ≡ successes (r ∷ []) + total_of "success" v)
  unfolding total_of
  increments call v (ok _) v' h = rw h (omega arith, omega arith)
  increments call v (err _) v' (s, w) = rw (w, s) (omega arith, omega arith)
  increments call v panic v' h = rw h (omega arith, omega arith)

  -- After any run of calls, whatever their results, the counter has grown by the number of calls
  -- that returned, and its successes by the number of calls that succeeded.
  pub serve_all_counted :
      (calls : List (Context × Call)) (st : ServiceState S)
      → let (rs, st') = serve_all service calls st in
        (length st'.requests_total ≡ returned rs + length st.requests_total)
        × (total_of "success" st'.requests_total
            ≡ successes rs + total_of "success" st.requests_total)
  unfolding serve_all
  serve_all_counted [] st = (omega arith, omega arith)
  serve_all_counted ((ctx, call) ∷ calls) st =
      let (r, st') = serve service ctx call st in
      let (n, k) = serve_all_counted calls st' in
      let (n1, k1) =
        increments call st.requests_total r st'.requests_total ((serve-IsCounted ctx call).at st) in
      (
        omega (arith, returned-cons r (serve_all service calls st').0),
        omega (arith, successes-cons r (serve_all service calls st').0),
      )
