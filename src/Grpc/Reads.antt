-- ===== src/Grpc/Reads.antt =====
-- ListProducts and GetProduct of internal/transport/grpc/v1/handlers/handler.go: what they answer, from
-- what the service returns.
use shop_catalog_service.Common.{
  suc, ap, [], ◌∷◌, ◌≡◌, refl, String, some, List, Option-cases, inl, inr,
}
use shop_catalog_service.Common.Int.{ℤ, pos}
use shop_catalog_service.Common.Lists.{length}
use shop_catalog_service.Exec.{Result, ok, err, panic}
use shop_catalog_service.Exec.Ensures.{Ensures, Post}
use shop_catalog_service.Domain.{Product}
use shop_catalog_service.Repository.{Context}
use shop_catalog_service.Service
use shop_catalog_service.Service.{CatalogService, ServiceState}
use shop_catalog_service.Grpc.{
  Answer, response, status, crashed, ListRequest, ListResponse, ProtoProduct, GrpcState, uint32,
  to_proto_product, to_proto_products, list_answer, list_products, get_answer, get_product,
  validate_list_request, validate_get_request,
}

module _ {F : Type 0} (price_of : ℤ → F) where
  -- The message has the product's fields; updated_at is left empty.
  pub record IsMessageOf (p : Product) (m : ProtoProduct F) : Type 0 where
    pub id : m.id ≡ p.id
    pub sku : m.sku ≡ p.sku
    pub name : m.name ≡ p.name
    pub description : m.description ≡ p.description
    pub price : m.price ≡ price_of p.price_cents
    pub currency : m.currency ≡ p.currency
    pub stock : m.stock ≡ uint32 p.stock
    pub active : m.active ≡ p.active
    pub updated_at : m.updated_at ≡ ""

  -- The messages are those of the products, in their order.
  abbrev pub AreMessagesOf : List Product → List (ProtoProduct F) → Type 0
  AreMessagesOf [] [] = Unit
  AreMessagesOf [] (m ∷ ms) = ⊥
  AreMessagesOf (p ∷ ps) [] = ⊥
  AreMessagesOf (p ∷ ps) (m ∷ ms) = IsMessageOf p m × AreMessagesOf ps ms

  -- A response shows a product, or a page with the number of its items, with the property; a status
  -- shows none.
  abbrev pub Shows : (Product → Type 0) → Answer (ProtoProduct F) → Type 0
  Shows Q (response m) = (p : Product) × Q p × IsMessageOf p m
  Shows Q (status code text) = Unit
  Shows Q crashed = Unit

  abbrev pub ShowsPage : (List Product → Type 0) → Answer (ListResponse F) → Type 0
  ShowsPage Q (response m) =
      (ps : List Product) × Q ps × AreMessagesOf ps m.items × (m.total ≡ uint32 (pos (length ps)))
  ShowsPage Q (status code text) = Unit
  ShowsPage Q crashed = Unit

  to_proto_product-IsMessageOf : (p : Product) → IsMessageOf p (to_proto_product price_of p)
  unfolding to_proto_product
  to_proto_product-IsMessageOf p = record {
    id = refl;
    sku = refl;
    name = refl;
    description = refl;
    price = refl;
    currency = refl;
    stock = refl;
    active = refl;
    updated_at = refl;
  }

  to_proto_products-AreMessagesOf :
      (ps : List Product) → AreMessagesOf ps (to_proto_products price_of ps)
  unfolding to_proto_products
  to_proto_products-AreMessagesOf [] = tt
  to_proto_products-AreMessagesOf (p ∷ ps) =
      (to_proto_product-IsMessageOf p, to_proto_products-AreMessagesOf ps)

  length-to_proto_products :
      (ps : List Product) → length (to_proto_products price_of ps) ≡ length ps
  unfolding to_proto_products
  length-to_proto_products [] = refl
  length-to_proto_products (p ∷ ps) = ap suc (length-to_proto_products ps)

  module _ {S : Type 0} (svc : CatalogService S) (I : ServiceState S → Type 0) (ctx : Context) where
    get_answer-Shows :
        (Q : Product → Type 0) (r : Result Product) (st : GrpcState S)
        → I st.inner
        → Post Q r
        → I (get_answer price_of svc r st).1.inner × Shows Q (get_answer price_of svc r st).0
    unfolding get_answer
    get_answer-Shows Q (ok p) st i q = (i, (p, q, to_proto_product-IsMessageOf p))
    get_answer-Shows Q (err e) st i q = (i, tt)
    get_answer-Shows Q panic st i q = (i, tt)

    pub get_product-Shows :
        (Q : Product → Type 0) (id : String) (st : GrpcState S)
        → Ensures I Q (Service.get_product (some svc) ctx id)
        → I st.inner
        → I (get_product price_of svc ctx (some id) st).1.inner
          × Shows Q (get_product price_of svc ctx (some id) st).0
    unfolding get_product
    get_product-Shows Q id st h i = elim (Option-cases (validate_get_request (some id))) [
      | inl valid ↦
          rw (valid, get_product) (get_answer-Shows Q _ _ (h.at st.inner i).0 (h.at st.inner i).1)
      | inr (x, refused) ↦ rw (refused, get_product) (i, tt)
    ]

    list_answer-ShowsPage :
        (Q : List Product → Type 0) (r : Result (List Product)) (st : GrpcState S)
        → I st.inner
        → Post Q r
        → I (list_answer price_of svc r st).1.inner × ShowsPage Q (list_answer price_of svc r st).0
    unfolding list_answer
    list_answer-ShowsPage Q (ok ps) st i q = (
      i,
      (
        ps,
        q,
        to_proto_products-AreMessagesOf ps,
        ap (λ n. uint32 (pos n)) (length-to_proto_products ps),
      ),
    )
    list_answer-ShowsPage Q (err e) st i q = (i, tt)
    list_answer-ShowsPage Q panic st i q = (i, tt)

    pub list_products-ShowsPage :
        (Q : List Product → Type 0) (req : ListRequest) (st : GrpcState S)
        → Ensures I Q (Service.list_products (some svc) ctx (pos req.limit) (pos req.offset))
        → I st.inner
        → I (list_products price_of svc ctx (some req) st).1.inner
          × ShowsPage Q (list_products price_of svc ctx (some req) st).0
    unfolding list_products
    list_products-ShowsPage Q req st h i = elim (Option-cases (validate_list_request (some req))) [
      | inl valid ↦
          rw (valid, list_products)
            (list_answer-ShowsPage Q _ _ (h.at st.inner i).0 (h.at st.inner i).1)
      | inr (x, refused) ↦ rw (refused, list_products) (i, tt)
    ]
