-- ===== src/Http/Routes.antt =====
-- Requests through the router of internal/transport/http/v1/router.go.
use Prim.Native.String.{◌++◌, ◌∷◌ as cons_char}
use shop_catalog_service.Http.Paths.{has_suffix_text, route_products, route_product_tree}
use shop_catalog_service.Common.{
  ◌≡◌, refl, ap, ◌∙◌, ◌⊎◌, inl, inr, String, false, Option, some, str_eq, eq_iff, Bool-cases,
  Option-cases, arith, not, ◌&&◌, [], ◌∷◌, ◌≢◌, sym,
}
use shop_catalog_service.Service.{CatalogService, ServiceState}
use shop_catalog_service.Http.Target.{IsSegment, extract_product_id_lem}
use shop_catalog_service.Http.{UpdateProductRequest, extract_product_id}
use shop_catalog_service.Http
use shop_catalog_service.Repository.{Context}
use shop_catalog_service.Exec.{Result}
use shop_catalog_service.Observability.{Level, parse_level, level_text, set_level, level_of}
use shop_catalog_service.Http.Router.{
  json, level_change, level_set, Request, WebState, Route, health, ready, metrics_page, log_level,
  products, product_tree, not_found, route, serve_http, answer_by, products_answer, product_answer,
  log_level_answer, has_suffix, with_service,
}

-- The requests of the three operations, by their method and their path.
pub data IsWrite (req : Request) : Type 0 where
  creates : req.method ≡ "POST" → req.path ≡ "/admin/products" → IsWrite req
  updates :
      (rest : String) → req.method ≡ "PATCH" → req.path ≡ "/admin/products/" ++ rest → IsWrite req
  restocks :
      (rest front : String)
      → req.method ≡ "POST"
      → req.path ≡ "/admin/products/" ++ rest
      → req.path ≡ front ++ "/stock"
      → IsWrite req

not_empty : (s : String) → s ≢ "" → str_eq s "" ≡ false
not_empty s given = elim (Bool-cases (str_eq s "")) [
  | inl e ↦ absurd (given ((eq_iff s "").0 e))
  | inr e ↦ e
]

module _ {S : Type 0} (svc : CatalogService S) where
  log_level_answer-service :
      (method level : String) (st : WebState S)
      → (log_level_answer method level st).1.service ≡ st.service
  unfolding log_level_answer
  log_level_answer-service method level st =
      elim (Bool-cases (not (str_eq method "GET") && not (str_eq method "POST"))) [
        | inl other ↦ rw other refl
        | inr known ↦ rw known (elim (Option-cases st.logger) [
          | inl missing ↦ rw missing refl
          | inr (logger, given) ↦ rw given refl
        ])
      ]

  not_stock :
      (req : Request) (st : WebState S)
      → route req.path ≡ product_tree
      → has_suffix req.path "/stock" && str_eq req.method "POST" ≡ false
      → IsWrite req ⊎ ((product_answer svc req st).1.service ≡ st.service)
  unfolding product_answer
  not_stock req st e other = elim (Bool-cases (str_eq req.method "PATCH")) [
    | inl patch ↦
        let (rest, below) = route_product_tree req.path e in
        inl (updates rest ((eq_iff req.method "PATCH").0 patch) below)
    | inr neither ↦ inr (rw other (rw neither refl))
  ]

  product_answer-service :
      (req : Request) (st : WebState S)
      → route req.path ≡ product_tree
      → IsWrite req ⊎ ((product_answer svc req st).1.service ≡ st.service)
  product_answer-service req st e = elim (Bool-cases (str_eq req.method "POST")) [
    | inl post ↦ elim (Bool-cases (has_suffix req.path "/stock")) [
      | inl stock ↦
          let (rest, below) = route_product_tree req.path e in
          let (front, same) = has_suffix_text req.path "/stock" stock in
          inl (restocks rest front ((eq_iff req.method "POST").0 post) below same)
      | inr other ↦ not_stock req st e (ground arith)
    ]
    | inr other ↦ not_stock req st e (ground arith)
  ]

  answer_by-service :
      (r : Route) (checker : _) (req : Request) (st : WebState S)
      → route req.path ≡ r
      → IsWrite req ⊎ ((answer_by svc r checker req st).1.service ≡ st.service)
  unfolding answer_by products_answer product_answer
  answer_by-service health checker req st e = inr refl
  answer_by-service ready checker req st e = inr refl
  answer_by-service metrics_page checker req st e = inr refl
  answer_by-service log_level checker req st e =
      inr (log_level_answer-service req.method req.level st)
  answer_by-service products checker req st e = elim (Bool-cases (str_eq req.method "POST")) [
    | inl post ↦ inl (creates ((eq_iff req.method "POST").0 post) (route_products req.path e))
    | inr other ↦ inr (rw other refl)
  ]
  answer_by-service product_tree checker req st e = product_answer-service req st e
  answer_by-service not_found checker req st e = inr refl

  -- Only three kinds of requests can touch the service and its repository: POST /admin/products, PATCH
  -- below /admin/products/, and POST to a path below it that ends in /stock. Every other request
  -- leaves the state of the service, whatever it is answered.
  pub serve_http-service :
      (checker : Option (Context → Result (Unit {0}))) (req : Request) (st : WebState S)
      → IsWrite req ⊎ ((serve_http svc checker req st).1.service ≡ st.service)
  unfolding serve_http
  serve_http-service checker req st = answer_by-service (route req.path) checker req st refl

  patch_answer :
      (req : Request) (st : WebState S)
      → req.method ≡ "PATCH"
      → product_answer svc req st
        ≡ with_service st (Http.update_product svc req.ctx req.path req.update_body st.service)
  unfolding product_answer
  patch_answer req st patch = elim (Bool-cases (has_suffix req.path "/stock")) [
    | inl stock ↦ rw stock (rw patch refl)
    | inr other ↦ rw other (rw patch refl)
  ]

  same_product :
      (ctx : Context) (path path' : String) (body : Option UpdateProductRequest)
      (service : ServiceState S)
      → extract_product_id path ≡ extract_product_id path'
      → Http.update_product svc ctx path body service
        ≡ Http.update_product svc ctx path' body service
  unfolding Http.update_product
  same_product ctx path path' body service e = rw e refl

  -- A PATCH below a product's path is the PATCH of the product, whatever comes behind the slash: also
  -- /admin/products/{id}/stock, where only a POST changes the stock.
  product_answer-patch :
      (req : Request) (st : WebState S) (id rest : String)
      → IsSegment id
      → product_answer svc
          (record req {
            method = "PATCH";
            path = "/admin/products/" ++ (id ++ (cons_char "/" rest));
          })
          st
        ≡ product_answer svc (record req { method = "PATCH"; path = "/admin/products/" ++ id }) st
  product_answer-patch req st id rest segment =
      let (one, below) = extract_product_id_lem id rest segment in
      patch_answer
        (record req { method = "PATCH"; path = "/admin/products/" ++ (id ++ (cons_char "/" rest)) })
        st refl
      ∙ ap (λ r. with_service st r)
          (same_product req.ctx _ _ req.update_body st.service (below ∙ sym one))
      ∙ sym
          (patch_answer (record req { method = "PATCH"; path = "/admin/products/" ++ id }) st refl)

module _ {S : Type 0} where
  -- An answer of LogLevel on a logger that is set up: the level is set, for a GET as for a POST, to
  -- what the parameter's text means, and 200 is answered with the level; no text is refused.
  log_level_answer_lem :
      (method level : String) (old : Level) (service : ServiceState S)
      → (method ≡ "GET") ⊎ (method ≡ "POST")
      → level ≢ ""
      → log_level_answer method level
          (record { service = service; logger = some (some (record { level = some old })) })
        ≡ (
          json 200 (("level", level_text (parse_level level)) ∷ []),
          record {
            service = service;
            logger = some (some (record { level = some (parse_level level) }));
          },
        )
  unfolding log_level_answer level_change level_set set_level level_of
  log_level_answer_lem method level old service m given = elim m [
    | inl get ↦ rw get (rw (not_empty level given) refl)
    | inr post ↦ rw post (rw (not_empty level given) refl)
  ]
