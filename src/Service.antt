-- ===== src/Service.antt =====
-- internal/service/catalog/catalog.go: the catalog service over a repository. Its own state is the
-- counter `catalog_service_requests_total{method,status}`; logs, spans and durations are output
-- that nothing reads back, and are left out.
pub mod Calls
pub mod Pagination
pub mod Guards
pub mod Counting
pub mod Labels
pub mod Reads
use shop_catalog_service.Common.{
  String, Bool, true, false, Option, none, some, List, ◌∷◌, ◌||◌, str_eq, if◌then◌else◌,
}
use shop_catalog_service.Common.Int.{ℤ, pos, ltb_ℤ, leb_ℤ, eqb_ℤ}
use shop_catalog_service.Common.Text.{trim_space}
use shop_catalog_service.Errors.{
  Error, sentinel, plain, error_is, product_not_found, invalid_pagination, product_already_exists,
  insufficient_stock,
}
use shop_catalog_service.Exec.{
  Result, ok, err, panic, Exec, pure, fail, crash, deref, continue, handle, ◌>>=◌, ◌>>◌,
}
use shop_catalog_service.Domain.{
  Product, CreateProductCommand, UpdateProductCommand, validate_create, validate_update,
}
use shop_catalog_service.Repository.{Context, ProductRepository}

-- *slog.Logger: only whether it is nil matters here.
pub data Logger : Type 0 where
  slog_logger : Logger

-- A counter vector, as the increments made so far, the latest first: (method, status).
abbrev pub CounterVec : Type 0
CounterVec = List (String × String)

-- CatalogService; a nil pointer or interface is `none`.
pub record CatalogService (S : Type 0) : Type 0 where
  pub logger : Option Logger
  pub repository : Option (ProductRepository S)

-- What a call of the service reads and writes: its counter, and the state of its repository.
pub record ServiceState (S : Type 0) : Type 0 where
  pub requests_total : CounterVec
  pub repo : S

abbrev default_list_limit : ℤ
default_list_limit = pos 20

abbrev max_list_limit : ℤ
max_list_limit = pos 100

abbrev not_initialized : Error
not_initialized = plain "catalog service is not initialized"

abbrev pub id_required : Error
id_required = plain "product id is required"

-- The limit that ListProducts passes on.
unfoldable pub effective_limit : ℤ → ℤ
effective_limit limit =
    let limit' = if leb_ℤ limit (pos 0) then default_list_limit else limit in
    if ltb_ℤ max_list_limit limit' then max_list_limit else limit'

-- The two tests of UpdateStock run one after the other, so the second overrides the first.
abbrev pub stock_status : Error → String
stock_status e =
    let status = if error_is e product_not_found then "not_found" else "error" in
    if error_is e insufficient_stock then "insufficient_stock" else status

-- `if err := check(); err != nil { on_err } rest`
abbrev pub unless {ℓ} : {M : Type ℓ} → Option Error → (Error → M) → M → M
unless none on_err rest = rest
unless (some e) on_err rest = on_err e

module _ {S : Type 0} where
  -- NewCatalogService
  unfoldable pub new_catalog_service :
      Option Logger → Option (ProductRepository S) → Result (CatalogService S)
  new_catalog_service none repository = err (plain "logger is empty")
  new_catalog_service (some l) none = err (plain "repository is empty")
  new_catalog_service (some l) (some r) = ok (record { logger = some l; repository = some r })

  -- metrics.CatalogRequestsTotal.WithLabelValues(method, status).Inc()
  abbrev pub count_request : String → String → Exec (ServiceState S) (Unit {0})
  count_request method status st =
      (ok tt, record st { requests_total = (method, status) ∷ st.requests_total })

  -- A log call on the service's logger: a nil logger is a nil dereference.
  abbrev pub log : CatalogService S → Exec (ServiceState S) (Unit {0})
  log service = deref service.logger >> pure tt

  -- A call of the repository, inside the service's state.
  abbrev pub on_repo : {A : Type 0} → Exec S A → Exec (ServiceState S) A
  on_repo m st = let (r, s') = m st.repo in (r, record st { repo = s' })

  abbrev pub count_and_fail : {A : Type 0} → String → String → Error → Exec (ServiceState S) A
  count_and_fail method status e = count_request method status >> fail e

  -- `service == nil || service.repository == nil || service.logger == nil`; otherwise the two parts.
  unfoldable pub initialized : Option (CatalogService S) → Option (Logger × ProductRepository S)
  initialized none = none
  initialized (some service) = elim service.repository [
    | none ↦ none
    | some r ↦ elim service.logger [ none ↦ none | some l ↦ some (l, r) ]
  ]

  -- ListProducts, after the test of the receiver.
  pub list_checked :
      Option (Logger × ProductRepository S) → Context → ℤ → ℤ → Exec (ServiceState S) (List Product)
  list_checked none ctx limit offset = count_and_fail "ListProducts" "error" not_initialized
  list_checked (some (l, repository)) ctx limit offset =
      if ltb_ℤ offset (pos 0)
      then count_and_fail "ListProducts" "invalid_argument" (sentinel invalid_pagination)
      else handle (on_repo (repository.list ctx (effective_limit limit) offset))
          (count_and_fail "ListProducts" "error")
          (λ products. count_request "ListProducts" "success" >> pure products)

  -- ListProducts
  pub list_products :
      Option (CatalogService S) → Context → ℤ → ℤ → Exec (ServiceState S) (List Product)
  unfolding list_checked initialized
  list_products service ctx limit offset = list_checked (initialized service) ctx limit offset

  -- GetProduct, after the test of the receiver.
  unfoldable pub get_checked :
      Option (Logger × ProductRepository S) → Context → String → Exec (ServiceState S) Product
  get_checked none ctx id = count_and_fail "GetProduct" "error" not_initialized
  get_checked (some (l, repository)) ctx id =
      if str_eq (trim_space id) ""
      then count_and_fail "GetProduct" "invalid_argument" id_required
      else handle (on_repo (repository.get_by_id ctx id))
          (λ e.
            count_and_fail "GetProduct"
              (if error_is e product_not_found then "not_found" else "error") e)
          (λ product. count_request "GetProduct" "success" >> pure product)

  -- GetProduct
  unfoldable pub get_product :
      Option (CatalogService S) → Context → String → Exec (ServiceState S) Product
  unfolding get_checked initialized
  get_product service ctx id = get_checked (initialized service) ctx id

  -- CreateProduct; unlike the two reads it does not test the receiver.
  unfoldable pub create_product :
      Option (CatalogService S) → Context → CreateProductCommand → Exec (ServiceState S) Product
  create_product service ctx cmd =
      unless (validate_create cmd) (count_and_fail "CreateProduct" "invalid_argument") do
        this ← deref service
        repository ← deref this.repository
        handle (on_repo (repository.create ctx cmd))
            (λ e.
              log this
              >> count_and_fail "CreateProduct"
                  (if error_is e product_already_exists then "already_exists" else "error") e)
            (λ product. log this >> (count_request "CreateProduct" "success" >> pure product))

  -- UpdateProduct
  unfoldable pub update_product :
      Option (CatalogService S) → Context → UpdateProductCommand → Exec (ServiceState S) Product
  update_product service ctx cmd =
      unless (validate_update cmd) (count_and_fail "UpdateProduct" "invalid_argument") do
        this ← deref service
        repository ← deref this.repository
        handle (on_repo (repository.update ctx cmd))
            (λ e.
              log this
              >> count_and_fail "UpdateProduct"
                  (if error_is e product_not_found then "not_found" else "error") e)
            (λ product. log this >> (count_request "UpdateProduct" "success" >> pure product))

  -- UpdateStock
  unfoldable pub update_stock :
      Option (CatalogService S) → Context → String → ℤ → Exec (ServiceState S) Product
  update_stock service ctx product_id delta =
      if str_eq (trim_space product_id) ""
      then count_and_fail "UpdateStock" "invalid_argument" id_required
      else if eqb_ℤ delta (pos 0)
      then count_and_fail "UpdateStock" "invalid_argument" (plain "delta cannot be zero")
      else do
        this ← deref service
        repository ← deref this.repository
        handle (on_repo (repository.update_stock ctx product_id delta))
            (λ e. log this >> count_and_fail "UpdateStock" (stock_status e) e)
            (λ product. log this >> (count_request "UpdateStock" "success" >> pure product))
