-- ===== src/Grpc/Stream.antt =====
-- StreamProducts beside ListProducts, in internal/transport/grpc/v1/handlers/handler.go.
use shop_catalog_service.Common.{
  inr, inl, Option-cases, ◌≡◌, refl, sym, ◌∙◌, ap, Option, none, some, List, [], ◌∷◌, ◌++◌,
}
use shop_catalog_service.Common.Int.{ℤ, pos}
use shop_catalog_service.Exec.{Result, ok, err, panic}
use shop_catalog_service.Errors.{Error}
use shop_catalog_service.Domain.{Product}
use shop_catalog_service.Repository.{Context}
use shop_catalog_service.Service
use shop_catalog_service.Service.{CatalogService, ServiceState}
use shop_catalog_service.Grpc.{
  Answer, response, status, crashed, ListRequest, ListResponse, ProtoProduct, GrpcState, get_limit,
  get_offset, to_proto_products, to_proto_product, list_answer, list_products, send_all,
  stream_answer, stream_end, stream_products, validate_list_request,
}
use mathlib.Core.List.{append_assoc, append-nil}

module _ {F : Type 0} where
  -- A client that receives everything: the messages so far.
  abbrev pub receive : ProtoProduct F → List (ProtoProduct F) → Option Error × List (ProtoProduct F)
  receive p sent = (none, sent ++ p ∷ [])

  -- The answers of ListProducts and of StreamProducts, and what was sent before and after, agree.
  abbrev pub SameAnswer :
      Answer (ListResponse F)
      → Answer (Unit {0})
      → List (ProtoProduct F)
      → List (ProtoProduct F)
      → Type 0
  SameAnswer (response r) answer sent sent' = (answer ≡ response tt) × (sent' ≡ sent ++ r.items)
  SameAnswer (status code text) answer sent sent' = (answer ≡ status code text) × (sent' ≡ sent)
  SameAnswer crashed answer sent sent' = (answer ≡ crashed) × (sent' ≡ sent)

module _ {F S : Type 0} (price_of : ℤ → F) (svc : CatalogService S) where
  send_all_lem :
      (ps : List Product) (sent : List (ProtoProduct F))
      → send_all price_of svc receive ps sent ≡ (none, sent ++ to_proto_products price_of ps)
  unfolding send_all to_proto_products
  send_all_lem [] sent = ap (λ s. (none, s)) (sym (append-nil sent))
  send_all_lem (p ∷ ps) sent =
      send_all_lem ps (sent ++ to_proto_product price_of p ∷ [])
      ∙ ap (λ s. (none, s))
          (append_assoc sent (to_proto_product price_of p ∷ []) (to_proto_products price_of ps))

  same_answer :
      (r : Result (List Product)) (st : GrpcState S) (sent : List (ProtoProduct F))
      → SameAnswer
          (list_answer price_of svc r st).0
          (stream_answer price_of svc receive r st sent).0.0
          sent
          (stream_answer price_of svc receive r st sent).1
        × ((stream_answer price_of svc receive r st sent).0.1.inner
            ≡ (list_answer price_of svc r st).1.inner)
  unfolding list_answer stream_answer stream_end
  same_answer (ok ps) st sent = rw (send_all_lem ps sent) ((refl, refl), refl)
  same_answer (err e) st sent = ((refl, refl), refl)
  same_answer panic st sent = ((refl, refl), refl)

  -- To a client that receives everything, StreamProducts sends the items of the response that
  -- ListProducts gives to the same request in the same state, in their order, and ends well; where
  -- ListProducts fails, it fails with the same status and sends nothing. Both leave the service in
  -- the same state.
  pub stream_products-list_products :
      (ctx : Context) (req : Option ListRequest) (st : GrpcState S) (sent : List (ProtoProduct F))
      → let ((answer, st'), sent') = stream_products price_of svc receive ctx req st sent in
        SameAnswer (list_products price_of svc ctx req st).0 answer sent sent'
        × (st'.inner ≡ (list_products price_of svc ctx req st).1.inner)
  unfolding list_products stream_products
  stream_products-list_products ctx req st sent = elim (Option-cases (validate_list_request req)) [
    | inl e ↦
        let (r, s) =
          Service.list_products (some svc) ctx (pos (get_limit req)) (pos (get_offset req))
            st.inner in
        rw (e, list_products, stream_products) (same_answer r (record st { inner = s }) sent)
    | inr ((code, text), e) ↦ rw (e, list_products, stream_products) ((refl, refl), refl)
  ]
