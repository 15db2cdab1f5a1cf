-- ===== src/Http/Router.antt =====
-- internal/transport/http/v1/router.go with handlers/health.go and handlers/admin.go of the same
-- folder: what each request is answered, over the state of the service and of the logger. ServeMux is
-- net/http's: `route` is its documented choice among the patterns that NewRouter registers, for a path
-- that needs no cleaning. The answer to /metrics and the readiness checker are parameters.
use Prim.Native.String.{[], ◌∷◌}
use shop_catalog_service.Common.{
  ℕ, String, Bool, true, false, ◌&&◌, ◌||◌, not, Option, none, some, List, str_eq, if◌then◌else◌,
}
use mathlib.Core.List.{[] as nil, ◌∷◌ as cons}
use shop_catalog_service.Common.Int.{ℤ}
use shop_catalog_service.Common.Text.{after_prefix}
use shop_catalog_service.Errors.{message}
use shop_catalog_service.Exec.{Result, ok, err, panic}
use shop_catalog_service.Domain.{CreateProductCommand}
use shop_catalog_service.Repository.{Context}
use shop_catalog_service.Service.{CatalogService, ServiceState}
use shop_catalog_service.Http.{HttpReply, UpdateProductRequest}
use shop_catalog_service.Http
use shop_catalog_service.Observability.{RuntimeLogger, set_level, level_of, level_text}

-- http.Request: `level` is the query's parameter of this name, and the body is what Decode made of it
-- for each of the three handlers.
pub record Request : Type 0 where
  pub ctx : Context
  pub method : String
  pub path : String
  pub level : String
  pub create_body : Option CreateProductCommand
  pub update_body : Option UpdateProductRequest
  pub stock_body : Option ℤ

pub data Answer : Type 0 where
  http_error : ℕ → String → Answer
  json : ℕ → List (String × String) → Answer
  catalog : HttpReply → Answer
  metrics : Answer
  -- net/http recovers a panic of a handler.
  panicked : Answer

pub record WebState (S : Type 0) : Type 0 where
  pub service : ServiceState S
  pub logger : Option (Option RuntimeLogger)

pub data Route : Type 0 where
  health ready metrics_page log_level products product_tree not_found : Route

-- strings.HasPrefix and strings.HasSuffix
unfoldable pub has_prefix : String → String → Bool
unfolding after_prefix
has_prefix s p = elim (after_prefix p s) [ none ↦ false | some _ ↦ true ]

unfoldable pub has_suffix : String → String → Bool
has_suffix [] p = str_eq [] p
has_suffix (c ∷ s) p = str_eq (c ∷ s) p || has_suffix s p

unfoldable pub route : String → Route
unfolding has_prefix
route path =
    if str_eq path "/health"
    then health
    else if str_eq path "/ready"
    then ready
    else if str_eq path "/metrics"
    then metrics_page
    else if str_eq path "/admin/log-level"
    then log_level
    else if str_eq path "/admin/products"
    then products
    else if has_prefix path "/admin/products/"
    then product_tree
    else not_found

abbrev not_allowed : Answer
not_allowed = http_error 405 "method not allowed"

-- Health
health_answer : String → Answer
health_answer method =
    if not (str_eq method "GET") then not_allowed else json 200 (cons ("status", "ok") nil)

-- The end of Ready, on what Check answers.
unfoldable pub checked : Result (Unit {0}) → Answer
checked (ok _) = json 200 (cons ("status", "ready") nil)
checked (err e) = json 503 (cons ("status", "not_ready") (cons ("error", message e) nil))
checked panic = panicked

-- Ready; a nil checker is `none`.
unfoldable pub ready_answer : Option (Context → Result (Unit {0})) → Context → String → Answer
unfolding checked
ready_answer checker ctx method = if not (str_eq method "GET") then not_allowed else elim checker [
  | none ↦ http_error 500 "readiness checker is not initialized"
  | some check ↦ checked (check ctx)
]

abbrev level_answer : Option RuntimeLogger → Answer
level_answer logger = json 200 (cons ("level", level_text (level_of logger)) nil)

-- The end of LogLevel, on what SetLevel answers.
unfoldable pub level_set : Result (Unit {0}) × Option RuntimeLogger → Answer × Option RuntimeLogger
level_set (ok _, logger) = (level_answer logger, logger)
level_set (err e, logger) = (http_error 400 (message e), logger)
level_set (panic, logger) = (panicked, logger)

unfoldable pub level_change : String → Option RuntimeLogger → Answer × Option RuntimeLogger
unfolding level_set set_level
level_change level logger =
    if str_eq level "" then (level_answer logger, logger) else level_set (set_level level logger)

module _ {S : Type 0} where
  abbrev with_logger : WebState S → Answer × Option RuntimeLogger → Answer × WebState S
  with_logger st (a, logger) = (a, record st { logger = some logger })

  -- LogLevel; a nil controller is `none`.
  unfoldable pub log_level_answer : String → String → WebState S → Answer × WebState S
  unfolding level_change
  log_level_answer method level st =
      if not (str_eq method "GET") && not (str_eq method "POST")
      then (not_allowed, st)
      else elim st.logger [
        | none ↦ (http_error 500 "logger is not initialized", st)
        | some logger ↦ with_logger st (level_change level logger)
      ]

  abbrev pub with_service : WebState S → HttpReply × ServiceState S → Answer × WebState S
  with_service st (r, service) = (catalog r, record st { service = service })

  module _ (svc : CatalogService S) where
    -- The functions that NewRouter registers for the products.
    unfoldable pub products_answer : Request → WebState S → Answer × WebState S
    unfolding Http.create_product
    products_answer req st =
        if str_eq req.method "POST"
        then with_service st (Http.create_product svc req.ctx req.create_body st.service)
        else (not_allowed, st)

    unfoldable pub product_answer : Request → WebState S → Answer × WebState S
    unfolding Http.update_stock Http.update_product has_suffix
    product_answer req st =
        if has_suffix req.path "/stock" && str_eq req.method "POST"
        then with_service st (Http.update_stock svc req.ctx req.path req.stock_body st.service)
        else if str_eq req.method "PATCH"
        then with_service st (Http.update_product svc req.ctx req.path req.update_body st.service)
        else (not_allowed, st)

    unfoldable pub answer_by :
        Route → Option (Context → Result (Unit {0})) → Request → WebState S → Answer × WebState S
    unfolding health_answer ready_answer log_level_answer products_answer product_answer
    answer_by health checker req st = (health_answer req.method, st)
    answer_by ready checker req st = (ready_answer checker req.ctx req.method, st)
    answer_by metrics_page checker req st = (metrics, st)
    answer_by log_level checker req st = log_level_answer req.method req.level st
    answer_by products checker req st = products_answer req st
    answer_by product_tree checker req st = product_answer req st
    answer_by not_found checker req st = (http_error 404 "404 page not found", st)

    -- The handler that NewRouter returns.
    unfoldable pub serve_http :
        Option (Context → Result (Unit {0})) → Request → WebState S → Answer × WebState S
    unfolding answer_by route
    serve_http checker req st = answer_by (route req.path) checker req st
