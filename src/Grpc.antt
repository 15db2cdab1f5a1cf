-- ===== src/Grpc.antt =====
-- internal/transport/grpc/v1/handlers/handler.go: the gRPC handlers of the catalog service. The
-- messages are those of the generated package catalogv1, read through their fields, and a stream is
-- a parameter. The state is the counter catalog_grpc_requests_total{method,code}, and the service's. Logs
-- and durations are left out.
pub mod Stream
pub mod Status
pub mod Reads
mod Truncate
use shop_catalog_service.Common.{
  ℕ, suc, ◌-◌, ◌%◌, ◌^◌, String, Bool, true, false, Option, none, some, List, [], ◌∷◌, str_eq, ltb,
  if◌then◌else◌,
}
use shop_catalog_service.Common.Int.{ℤ, pos, negsuc}
use shop_catalog_service.Common.Lists.{length}
use shop_catalog_service.Common.Text.{trim_space}
use shop_catalog_service.Errors.{
  Error, error_is, message, plain, product_not_found, invalid_pagination,
}
use shop_catalog_service.Exec.{Result, ok, err, panic}
use shop_catalog_service.Domain.{Product}
use shop_catalog_service.Repository.{Context}
use shop_catalog_service.Service
use shop_catalog_service.Service.{CatalogService, ServiceState, CounterVec}

-- codes.Code, as far as the handlers use it, and its String method.
pub data Code : Type 0 where
  ok_code invalid_argument not_found internal : Code

abbrev pub code_text : Code → String
code_text ok_code = "OK"
code_text invalid_argument = "InvalidArgument"
code_text not_found = "NotFound"
code_text internal = "Internal"

-- What a handler returns: a response, a status error, or a panic that goes on up.
pub data Answer (A : Type 0) : Type 0 where
  response : A → Answer A
  status : Code → String → Answer A
  crashed : Answer A

-- catalogv1.ListProductsRequest, with two uint32, and catalogv1.Product; `F` stands for float64.
pub record ListRequest : Type 0 where
  pub limit : ℕ
  pub offset : ℕ

pub record ProtoProduct (F : Type 0) : Type 0 where
  pub id : String
  pub sku : String
  pub name : String
  pub description : String
  pub price : F
  pub currency : String
  pub stock : ℕ
  pub active : Bool
  pub updated_at : String

pub record ListResponse (F : Type 0) : Type 0 where
  pub items : List (ProtoProduct F)
  pub total : ℕ

pub record GrpcState (S : Type 0) : Type 0 where
  pub grpc_requests : CounterVec
  pub inner : ServiceState S

-- NewHandler
unfoldable pub new_handler : {S : Type 0} → Option (CatalogService S) → Result (CatalogService S)
new_handler none = err (plain "catalog service is nil")
new_handler (some svc) = ok svc

-- validateListProductsRequest; a nil request is `none`.
unfoldable pub validate_list_request : Option ListRequest → Option (Code × String)
validate_list_request none = some (invalid_argument, "request is required")
validate_list_request (some req) =
    if ltb 1000 req.limit then some (invalid_argument, "limit must be <= 1000") else none

-- validateGetProductRequest; the request is its id.
pub validate_get_request : Option String → Option (Code × String)
validate_get_request none = some (invalid_argument, "request is required")
validate_get_request (some id) =
    if str_eq (trim_space id) "" then some (invalid_argument, "id is required") else none

-- mapError
unfoldable pub map_error : Error → Code
map_error e =
    if error_is e product_not_found
    then not_found
    else if error_is e invalid_pagination
    then invalid_argument
    else internal

-- uint32(x) of an int32, and of a length.
pub uint32 : ℤ → ℕ
uint32 (pos n) = n % 2 ^ 32
uint32 (negsuc n) = 2 ^ 32 - suc (n % 2 ^ 32)

-- GetLimit, GetOffset and GetId, which are the zero value of a nil request.
abbrev pub get_limit : Option ListRequest → ℕ
get_limit none = 0
get_limit (some req) = req.limit

abbrev pub get_offset : Option ListRequest → ℕ
get_offset none = 0
get_offset (some req) = req.offset

abbrev get_id : Option String → String
get_id none = ""
get_id (some id) = id

-- metrics.GRPCRequestsTotal.WithLabelValues(method, code).Inc(), and the answer.
abbrev counted : {S A : Type 0} → String → Code → Answer A → GrpcState S → Answer A × GrpcState S
counted method code answer st =
    (answer, record st { grpc_requests = (method, code_text code) ∷ st.grpc_requests })

-- `float64(cents) / 100.0`
module _ {F : Type 0} (price_of : ℤ → F) where
  -- toProtoProduct
  pub to_proto_product : Product → ProtoProduct F
  unfolding uint32
  to_proto_product p = record {
    id = p.id;
    sku = p.sku;
    name = p.name;
    description = p.description;
    price = price_of p.price_cents;
    currency = p.currency;
    stock = uint32 p.stock;
    active = p.active;
    updated_at = "";
  }

  -- The loop that converts a list.
  pub to_proto_products : List Product → List (ProtoProduct F)
  to_proto_products [] = []
  to_proto_products (p ∷ ps) = to_proto_product p ∷ to_proto_products ps

  module _ {S : Type 0} (svc : CatalogService S) where
    -- ListProducts, after the service's answer.
    pub list_answer : Result (List Product) → GrpcState S → Answer (ListResponse F) × GrpcState S
    unfolding to_proto_products map_error
    list_answer (ok products) st =
        let items = to_proto_products products in
        counted "ListProducts" ok_code
          (response (record { items = items; total = uint32 (pos (length items)) })) st
    list_answer (err e) st =
        counted "ListProducts" (map_error e) (status (map_error e) (message e)) st
    list_answer panic st = (crashed, st)

    -- ListProducts
    unfoldable pub list_products :
        Context → Option ListRequest → GrpcState S → Answer (ListResponse F) × GrpcState S
    unfolding list_answer validate_list_request
    list_products ctx req st = elim (validate_list_request req) [
      | some (code, text) ↦ counted "ListProducts" invalid_argument (status code text) st
      | none ↦
          let (r, s) =
            Service.list_products (some svc) ctx (pos (get_limit req)) (pos (get_offset req))
              st.inner in
          list_answer r (record st { inner = s })
    ]

    -- GetProduct, after the service's answer.
    pub get_answer : Result Product → GrpcState S → Answer (ProtoProduct F) × GrpcState S
    unfolding to_proto_product map_error
    get_answer (ok product) st =
        counted "GetProduct" ok_code (response (to_proto_product product)) st
    get_answer (err e) st = counted "GetProduct" (map_error e) (status (map_error e) (message e)) st
    get_answer panic st = (crashed, st)

    -- GetProduct
    unfoldable pub get_product :
        Context → Option String → GrpcState S → Answer (ProtoProduct F) × GrpcState S
    unfolding get_answer validate_get_request
    get_product ctx req st = elim (validate_get_request req) [
      | some (code, text) ↦ counted "GetProduct" invalid_argument (status code text) st
      | none ↦
          let (r, s) = Service.get_product (some svc) ctx (get_id req) st.inner in
          get_answer r (record st { inner = s })
    ]

    -- A stream with its own state: Send of one message, or its error.
    module _ {T : Type 0} (send : ProtoProduct F → T → Option Error × T) where
      -- The loop that sends; the first error ends it.
      pub send_all : List Product → T → Option Error × T
      send_all [] t = (none, t)
      send_all (p ∷ ps) t =
          let (e, t') = send (to_proto_product p) t in
          let rest = send_all ps t' in elim e [ some e ↦ (some e, t') | none ↦ rest ]

      -- StreamProducts, after the loop.
      pub stream_end : Option Error × T → GrpcState S → (Answer (Unit {0}) × GrpcState S) × T
      stream_end (none, t) st = (counted "StreamProducts" ok_code (response tt) st, t)
      stream_end (some e, t) st =
          (counted "StreamProducts" internal (status internal "failed to send stream item") st, t)

      -- StreamProducts, after the service's answer.
      pub stream_answer :
          Result (List Product) → GrpcState S → T → (Answer (Unit {0}) × GrpcState S) × T
      unfolding send_all stream_end map_error
      stream_answer (ok products) st t = stream_end (send_all products t) st
      stream_answer (err e) st t =
          (counted "StreamProducts" (map_error e) (status (map_error e) (message e)) st, t)
      stream_answer panic st t = ((crashed, st), t)

      -- StreamProducts, with the stream's context.
      pub stream_products :
          Context → Option ListRequest → GrpcState S → T → (Answer (Unit {0}) × GrpcState S) × T
      unfolding stream_answer validate_list_request
      stream_products ctx req st t = elim (validate_list_request req) [
        | some (code, text) ↦ (counted "StreamProducts" invalid_argument (status code text) st, t)
        | none ↦
            let (r, s) =
              Service.list_products (some svc) ctx (pos (get_limit req)) (pos (get_offset req))
                st.inner in
            stream_answer r (record st { inner = s }) t
      ]
