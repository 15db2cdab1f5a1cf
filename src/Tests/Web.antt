-- ===== src/Tests/Web.antt =====
-- The HTTP handlers at concrete requests.
use shop_catalog_service.Common.{ℕ, arith, eq_iff, ◌≢◌, ◌≡◌, refl, none, some, [], true}
use shop_catalog_service.Common.Int.{pos, negsuc}
use shop_catalog_service.Errors.{Error, message, error_is, invalid_product}
use shop_catalog_service.InMemory.{Store, repository}
use shop_catalog_service.Service.{CatalogService, ServiceState}
use shop_catalog_service.Http
use shop_catalog_service.Http.{extract_product_id, write_error, UpdateProductRequest}
use shop_catalog_service.Http.Target.{IsSegment}
use shop_catalog_service.Http.Admin.{answered_invalid, counted_invalid, updating, update_stock_zero}
use shop_catalog_service.Fixtures.{live, logger, one_mug}
use shop_catalog_service.Common.Text.{is_space, is_blank}

abbrev svc : CatalogService Store
svc = record { logger = some logger; repository = some repository }

abbrev start : ServiceState Store
start = record { requests_total = []; repo = one_mug }

abbrev cheaper : UpdateProductRequest
cheaper = record { name = none; description = none; price_cents = some (negsuc 0); active = none }

path_test : extract_product_id "/admin/products/prod-001/stock" ≡ "prod-001"
unfolding extract_product_id
path_test = refl

answered_invalid_example :
    (e : Error) × (Http.update_product svc live "/admin/products/prod-1" (some cheaper) start
      ≡ (write_error 400 (message e), counted_invalid svc live start "UpdateProduct"))
    × (error_is e invalid_product ≡ true)
unfolding extract_product_id
answered_invalid_example =
    answered_invalid svc live start (updating "/admin/products/prod-1" cheaper) (
      λ e. cc ((eq_iff "prod-1" "").1 e),
      λ v. absurd (omega (arith, v.price_nonneg (negsuc 0) refl)),
    )

update_stock_zero_example :
    Http.update_stock svc live "/admin/products/a/stock" (some (pos 0)) start
    ≡ (write_error 500 "internal error", counted_invalid svc live start "UpdateStock")
unfolding IsSegment is_blank is_space
update_stock_zero_example = update_stock_zero svc live start "a" (differs, tt) refl
  where
    differs : ◌≢◌ {A = ℕ} 97 47
    differs e = absurd (omega (arith, e))
