-- ===== src/Grpc/Status.antt =====
-- The counter of the gRPC handlers in internal/transport/grpc/v1/handlers/handler.go, and the stock
-- in their messages.
use shop_catalog_service.Common.{
  inr, inl, Option-cases, ◌≡◌, refl, String, Option, none, some, List, ◌∷◌, arith, ap, Bool-cases,
  ltb, str_eq,
}
use shop_catalog_service.Common.Int.{ℤ, pos, ◌≤ℤ◌}
use shop_catalog_service.Common.Word.{IsInt32}
use shop_catalog_service.Exec.{Result, ok, err, panic}
use shop_catalog_service.Errors.{Error}
use shop_catalog_service.Domain.{Product}
use shop_catalog_service.Repository.{Context}
use shop_catalog_service.Service.{CatalogService, CounterVec}
use shop_catalog_service.Common.Text.{trim_space}
use shop_catalog_service.Grpc.{
  Code, invalid_argument, send_all, Answer, response, status, crashed, code_text, ListRequest,
  ProtoProduct, GrpcState, list_answer, list_products, get_answer, get_product, stream_answer,
  stream_end, stream_products, uint32, to_proto_product, validate_list_request,
  validate_get_request,
}

-- An answer is counted once, under its own code; a panic is not counted.
abbrev pub CountsAnswer : {A : Type 0} → String → CounterVec → Answer A → CounterVec → Type 0
CountsAnswer method v (response a) v' = v' ≡ (method, "OK") ∷ v
CountsAnswer method v (status code text) v' = v' ≡ (method, code_text code) ∷ v
CountsAnswer method v crashed v' = v' ≡ v

-- The validations answer with InvalidArgument, under which the handlers count them.
validate_list_request_code :
    (req : Option ListRequest) (x : Code × String)
    → validate_list_request req ≡ some x
    → invalid_argument ≡ x.0
unfolding validate_list_request
validate_list_request_code none x e = ground arith
validate_list_request_code (some req) x e = elim (Bool-cases (ltb 1000 req.limit)) [
  | inl large ↦ ground arith
  | inr fits ↦ ground arith
]

validate_get_request_code :
    (req : Option String) (x : Code × String)
    → validate_get_request req ≡ some x
    → invalid_argument ≡ x.0
unfolding validate_get_request
validate_get_request_code none x e = ground arith
validate_get_request_code (some id) x e = elim (Bool-cases (str_eq (trim_space id) "")) [
  | inl blank ↦ ground arith
  | inr given ↦ ground arith
]

module _ {F S T : Type 0} (price_of : ℤ → F) (svc : CatalogService S)
    (send : ProtoProduct F → T → Option Error × T) (ctx : Context) (st : GrpcState S) where
  list_answer_counted :
      (r : Result (List Product)) (st : GrpcState S)
      → let (a, st') = list_answer price_of svc r st in
        CountsAnswer "ListProducts" st.grpc_requests a st'.grpc_requests
  unfolding list_answer
  list_answer_counted (ok ps) st = refl
  list_answer_counted (err e) st = refl
  list_answer_counted panic st = refl

  get_answer_counted :
      (r : Result Product) (st : GrpcState S)
      → let (a, st') = get_answer price_of svc r st in
        CountsAnswer "GetProduct" st.grpc_requests a st'.grpc_requests
  unfolding get_answer
  get_answer_counted (ok p) st = refl
  get_answer_counted (err e) st = refl
  get_answer_counted panic st = refl

  stream_end_counted :
      (sent : Option Error × T) (st : GrpcState S)
      → let ((a, st'), _) = stream_end price_of svc send sent st in
        CountsAnswer "StreamProducts" st.grpc_requests a st'.grpc_requests
  unfolding stream_end
  stream_end_counted (none, t) st = refl
  stream_end_counted (some e, t) st = refl

  stream_answer_counted :
      (r : Result (List Product)) (st : GrpcState S) (t : T)
      → let ((a, st'), _) = stream_answer price_of svc send r st t in
        CountsAnswer "StreamProducts" st.grpc_requests a st'.grpc_requests
  unfolding stream_answer
  stream_answer_counted (ok ps) st t = stream_end_counted (send_all price_of svc send ps t) st
  stream_answer_counted (err e) st t = refl
  stream_answer_counted panic st t = refl

  list_products_counted :
      (req : Option ListRequest)
      → let (a, st') = list_products price_of svc ctx req st in
        CountsAnswer "ListProducts" st.grpc_requests a st'.grpc_requests
  unfolding list_products
  list_products_counted req = elim (Option-cases (validate_list_request req)) [
    | inl e ↦ rw (e, list_products) (list_answer_counted _ _)
    | inr (x, e) ↦
        rw (e, list_products)
          (ap (λ c. ("ListProducts", code_text c) ∷ st.grpc_requests)
            (validate_list_request_code req x e))
  ]

  get_product_counted :
      (req : Option String)
      → let (a, st') = get_product price_of svc ctx req st in
        CountsAnswer "GetProduct" st.grpc_requests a st'.grpc_requests
  unfolding get_product
  get_product_counted req = elim (Option-cases (validate_get_request req)) [
    | inl e ↦ rw (e, get_product) (get_answer_counted _ _)
    | inr (x, e) ↦
        rw (e, get_product)
          (ap (λ c. ("GetProduct", code_text c) ∷ st.grpc_requests)
            (validate_get_request_code req x e))
  ]

  -- Each of the three handlers, on every branch, counts its answer once, under its own method and
  -- the code of the answer; only a panic is not counted.
  pub handlers_counted :
      (req : Option ListRequest) (id : Option String) (t : T)
      → (let (a, st') = list_products price_of svc ctx req st in
          CountsAnswer "ListProducts" st.grpc_requests a st'.grpc_requests)
        × (let (a, st') = get_product price_of svc ctx id st in
            CountsAnswer "GetProduct" st.grpc_requests a st'.grpc_requests)
        × (let ((a, st'), _) = stream_products price_of svc send ctx req st t in
            CountsAnswer "StreamProducts" st.grpc_requests a st'.grpc_requests)
  unfolding stream_products
  handlers_counted req id t = (
    list_products_counted req,
    get_product_counted id,
    elim (Option-cases (validate_list_request req)) [
      | inl e ↦ rw (e, stream_products) (stream_answer_counted _ _ _)
      | inr (x, e) ↦
          rw (e, stream_products)
            (ap (λ c. ("StreamProducts", code_text c) ∷ st.grpc_requests)
              (validate_list_request_code req x e))
    ],
  )

-- A stock that a product can have is sent unchanged: the conversion to uint32 loses nothing from zero
-- to the largest int32.
to_proto_product_stock :
    {F : Type 0} (price_of : ℤ → F) (p : Product)
    → pos 0 ≤ℤ p.stock
    → IsInt32 p.stock
    → pos (to_proto_product price_of p).stock ≡ p.stock
unfolding to_proto_product uint32
to_proto_product_stock price_of p nonneg range = ground (arith, range.high)
