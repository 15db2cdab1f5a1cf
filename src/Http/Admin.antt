-- ===== src/Http/Admin.antt =====
-- Requests to the handlers of internal/transport/http/v1/handlers/catalog_admin.go that the service
-- refuses.
use Prim.Native.String.{◌++◌ as str_append}
use shop_catalog_service.Common.{
  inr, inl, Bool-cases, ◌∷◌, ℕ, Option-cases, ◌≡◌, ◌≢◌, ap, String, some, true, false, arith,
  str_eq, eq_iff,
}
use shop_catalog_service.Common.Int.{pos}
use shop_catalog_service.Errors.{
  product_already_exists, product_not_found, Error, Sentinel, message, error_is, error_is_unique,
  invalid_product,
}
use shop_catalog_service.Domain.{
  CreateProductCommand, UpdateProductCommand, validate_create, validate_update,
}
use shop_catalog_service.Domain.Validation.{
  IsValidCreate, IsValidUpdate, validate_create-accepts_iff, validate_create-error_is,
  validate_update-accepts_iff, validate_update-error_is,
}
use shop_catalog_service.Repository.{Context}
use shop_catalog_service.Service
use shop_catalog_service.Service.{CatalogService, ServiceState}
use shop_catalog_service.Http
use shop_catalog_service.Http.{
  HttpReply, write_error, UpdateProductRequest, extract_product_id, update_by_id,
  update_stock_by_id, error_reply, reply,
}
use shop_catalog_service.Http.Target.{IsSegment, extract_product_id_lem}
use shop_catalog_service.Common.Text.{empty-trim_space, is_blank}

-- The switch answers the second sentinel with its status.
error_reply_second :
    (s t : Sentinel) (a b : ℕ) (e : Error)
    → s ≢ t
    → error_is e t ≡ true
    → error_reply s a t b e ≡ write_error b (message e)
unfolding error_reply
error_reply_second s t a b e ne h = elim (Bool-cases (error_is e s)) [
  | inl both ↦ absurd (ne (error_is_unique e s t both h))
  | inr other ↦ rw (other, h)
]

-- A text that is not blank is not empty.
not_blank : (id : String) → is_blank id ≡ false → str_eq id "" ≡ false
not_blank id given = elim (Bool-cases (str_eq id "")) [
  | inl e ↦ absurd (blank_empty ((eq_iff id "").0 e))
  | inr e ↦ e
]
  where
    blank_empty : id ≡ "" → ⊥
    blank_empty p = unfold is_blank in cc (given, ap is_blank p)

abbrev command_of : String → UpdateProductRequest → UpdateProductCommand
command_of id req = record {
  id = id;
  name = req.name;
  description = req.description;
  price_cents = req.price_cents;
  active = req.active;
}

-- The requests that carry fields of a product, with a body that could be read.
pub data FieldsRequest : Type 0 where
  creating : CreateProductCommand → FieldsRequest
  updating : String → UpdateProductRequest → FieldsRequest

abbrev IsInvalid : FieldsRequest → Type 0
IsInvalid (creating cmd) = ¬ IsValidCreate cmd
IsInvalid (updating path req) =
    (extract_product_id path ≢ "") × ¬ IsValidUpdate (command_of (extract_product_id path) req)

abbrev counted_as : FieldsRequest → String
counted_as (creating cmd) = "CreateProduct"
counted_as (updating path req) = "UpdateProduct"

module _ {S : Type 0} (svc : CatalogService S) (ctx : Context) (st : ServiceState S) where
  abbrev pub counted_invalid : String → ServiceState S
  counted_invalid method = record st {
    requests_total = (method, "invalid_argument") ∷ st.requests_total;
  }

  -- A create request whose fields break the rules is answered with 400 and the text of an
  -- invalid-product error; the repository is left as it was.
  create_product_invalid :
      (cmd : CreateProductCommand)
      → ¬ IsValidCreate cmd
      → (e : Error) × (Http.create_product svc ctx (some cmd) st
          ≡ (write_error 400 (message e), counted_invalid "CreateProduct"))
        × (error_is e invalid_product ≡ true)
  unfolding Http.create_product Service.create_product reply
  create_product_invalid cmd bad = elim (Option-cases (validate_create cmd)) [
    | inl e ↦ absurd (bad ((validate_create-accepts_iff cmd).0 e))
    | inr (e, refused) ↦
        let kind = validate_create-error_is cmd e refused in
        (
          e,
          rw (refused, Http.create_product, Service.create_product, reply)
              (ap (λ x. (x, counted_invalid "CreateProduct"))
                (error_reply_second product_already_exists invalid_product 409 400 e (λ p. cc)
                  kind)),
          kind,
        )
  ]

  -- An update request to a path with an id, whose fields break the rules, is answered
  -- with 400 and the text of an invalid-product error; the repository is left as it was.
  update_product_invalid :
      (path : String) (req : UpdateProductRequest)
      → extract_product_id path ≢ ""
      → ¬ IsValidUpdate (command_of (extract_product_id path) req)
      → (e : Error) × (Http.update_product svc ctx path (some req) st
          ≡ (write_error 400 (message e), counted_invalid "UpdateProduct"))
        × (error_is e invalid_product ≡ true)
  unfolding Http.update_product update_by_id Service.update_product reply
  update_product_invalid path req given bad =
      let id = extract_product_id path in
      elim (Option-cases (validate_update (command_of id req))) [
        | inl e ↦ absurd (bad ((validate_update-accepts_iff (command_of id req)).0 e))
        | inr (e, refused) ↦
            let kind = validate_update-error_is (command_of id req) e refused in
            (
              e,
              rw
                  (
                    not_empty id given,
                    refused,
                    Http.update_product,
                    update_by_id,
                    Service.update_product,
                    reply,
                  )
                  (ap (λ x. (x, counted_invalid "UpdateProduct"))
                    (error_reply_second product_not_found invalid_product 404 400 e (λ p. cc)
                      kind)),
              kind,
            )
      ]
    where
      not_empty : (id : String) → id ≢ "" → str_eq id "" ≡ false
      not_empty id ne = ground (arith, eq_iff id "")

  abbrev answered : FieldsRequest → HttpReply × ServiceState S
  answered (creating cmd) = Http.create_product svc ctx (some cmd) st
  answered (updating path req) = Http.update_product svc ctx path (some req) st

  -- A request to create or to update a product whose fields break the rules, the update to a path with
  -- an id, is answered with 400 and the text of an invalid-product error; the call is counted as
  -- invalid, and the repository is left as it was.
  pub answered_invalid :
      (q : FieldsRequest)
      → IsInvalid q
      → (e : Error) × (answered q ≡ (write_error 400 (message e), counted_invalid (counted_as q)))
        × (error_is e invalid_product ≡ true)
  answered_invalid (creating cmd) bad = create_product_invalid cmd bad
  answered_invalid (updating path req) (given, bad) = update_product_invalid path req given bad

  -- A request to change a stock by zero is answered with 500 and "internal error", although the
  -- service refuses it as the client's mistake, for every id that is not blank and has no slash.
  pub update_stock_zero :
      (id : String)
      → IsSegment id
      → is_blank id ≡ false
      → Http.update_stock svc ctx
          (str_append "/admin/products/" (str_append id ("/stock")))
          (some (pos 0))
          st
        ≡ (write_error 500 "internal error", counted_invalid "UpdateStock")
  unfolding Http.update_stock update_stock_by_id Service.update_stock reply error_reply
  update_stock_zero id segment given =
      rw (extract_product_id_lem id "stock" segment).1
        (ground (arith, given, empty-trim_space id, not_blank id given))
