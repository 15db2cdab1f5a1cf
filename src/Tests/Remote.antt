-- ===== src/Tests/Remote.antt =====
-- The gRPC handlers at concrete requests; prices are left in cents.
use shop_catalog_service.Common.{◌≡◌, refl, Option, some, []}
use shop_catalog_service.Common.Int.{ℤ}
use shop_catalog_service.Errors.{product_not_found, sentinel}
use shop_catalog_service.Service.{CatalogService}
use shop_catalog_service.InMemory.{Store, repository}
use shop_catalog_service.Grpc
use shop_catalog_service.Grpc.{
  not_found, invalid_argument, new_handler, map_error, validate_list_request, ListRequest,
  ProtoProduct, GrpcState, Answer, status, response, to_proto_product,
}
use shop_catalog_service.Grpc.Stream.{receive, SameAnswer, stream_products-list_products}
use shop_catalog_service.Grpc.Status.{CountsAnswer, handlers_counted}
use shop_catalog_service.Fixtures.{live, logger, one_mug}
use shop_catalog_service.Exec.{ok}

abbrev cents : ℤ → ℤ
cents c = c

abbrev svc : CatalogService Store
svc = record { logger = some logger; repository = some repository }

abbrev start : GrpcState Store
start = record { grpc_requests = []; inner = record { requests_total = []; repo = one_mug } }

abbrev first_ten : Option ListRequest
first_ten = some (record { limit = 10; offset = 0 })

too_many_test :
    (Grpc.list_products cents svc live (some (record { limit = 1001; offset = 0 })) start).0
    ≡ status invalid_argument "limit must be <= 1000"
unfolding Grpc.list_products validate_list_request
too_many_test = refl

constructor_test : new_handler (some svc) ≡ ok svc
unfolding new_handler
constructor_test = refl

not_found_test : map_error (sentinel product_not_found) ≡ not_found
unfolding map_error
not_found_test = refl

stream_products-list_products_example :
    let ((answer, st'), sent') = Grpc.stream_products cents svc receive live first_ten start [] in
    SameAnswer (Grpc.list_products cents svc live first_ten start).0 answer [] sent'
    × (st'.inner ≡ (Grpc.list_products cents svc live first_ten start).1.inner)
stream_products-list_products_example =
    stream_products-list_products cents svc live first_ten start []

handlers_counted_example :
    (let (a, st') = Grpc.list_products cents svc live first_ten start in
      CountsAnswer "ListProducts" [] a st'.grpc_requests)
    × (let (a, st') = Grpc.get_product cents svc live (some "prod-9") start in
        CountsAnswer "GetProduct" [] a st'.grpc_requests)
    × (let ((a, st'), _) = Grpc.stream_products cents svc receive live first_ten start [] in
        CountsAnswer "StreamProducts" [] a st'.grpc_requests)
handlers_counted_example =
    handlers_counted cents svc receive live start first_ten (some "prod-9") []
