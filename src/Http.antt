-- ===== src/Http.antt =====
-- internal/transport/http/v1/handlers/catalog_admin.go: the HTTP handlers that create and change
-- products. Decoding a body with encoding/json is not code of this repository: a request comes with
-- what Decode made of its body, `none` where it failed. The state is the service's. The handler's logger
-- is given, and logs are left out.
pub mod Target
pub mod Admin
pub mod Router
pub mod Paths
pub mod Routes
use Prim.Native.Char.{Char, code}
use Prim.Native.String.{[], ◌∷◌}
use shop_catalog_service.Common.{
  ℕ, ◌≡◌, String, Bool, true, false, ◌||◌, Option, none, some, str_eq, if◌then◌else◌, ◌==◌,
}
use shop_catalog_service.Common.Int.{ℤ}
use shop_catalog_service.Errors.{
  Error, Sentinel, error_is, message, product_not_found, product_already_exists, invalid_product,
  insufficient_stock,
}
use shop_catalog_service.Exec.{Result, ok, err, panic}
use shop_catalog_service.Domain.{Product, CreateProductCommand, UpdateProductCommand}
use shop_catalog_service.Repository.{Context}
use shop_catalog_service.Service
use shop_catalog_service.Service.{CatalogService, ServiceState}
use shop_catalog_service.Common.Text.{after_prefix}

-- The requests' bodies; createProductRequest has the fields of the command.
pub record UpdateProductRequest : Type 0 where
  pub name : Option String
  pub description : Option String
  pub price_cents : Option ℤ
  pub active : Option Bool

-- productResponse
pub record ProductResponse : Type 0 where
  pub id : String
  pub sku : String
  pub name : String
  pub description : String
  pub price_cents : ℤ
  pub currency : String
  pub stock : ℤ
  pub active : Bool

pub data Body : Type 0 where
  product_body : ProductResponse → Body
  error_body : String → Body

-- What is written to the client; a panic is `none`.
abbrev pub HttpReply : Type 0
HttpReply = Option (ℕ × Body)

-- writeError
abbrev pub write_error : ℕ → String → HttpReply
write_error status text = some (status, error_body text)

-- toProductResponse
to_product_response : Product → ProductResponse
to_product_response p = record {
  id = p.id;
  sku = p.sku;
  name = p.name;
  description = p.description;
  price_cents = p.price_cents;
  currency = p.currency;
  stock = p.stock;
  active = p.active;
}

-- strings.TrimPrefix
pub trim_prefix : String → String → String
unfolding after_prefix
trim_prefix p s = elim (after_prefix p s) [ none ↦ s | some rest ↦ rest ]

-- The first part of strings.Split and strings.SplitN at "/".
pub before_slash : String → String
before_slash [] = ""
before_slash (c ∷ s) = let rest = before_slash s in if code c == 47 then "" else c ∷ rest

-- extractProductID, and the same steps in UpdateStock
unfoldable pub extract_product_id : String → String
unfolding trim_prefix before_slash
extract_product_id path = before_slash (trim_prefix "/admin/products/" path)

-- The switches over the error: two sentinels with a status each, and 500 for the rest.
pub error_reply : Sentinel → ℕ → Sentinel → ℕ → Error → HttpReply
error_reply s a t b e =
    if error_is e s
    then write_error a (message e)
    else if error_is e t
    then write_error b (message e)
    else write_error 500 "internal error"

pub reply : ℕ → (Error → HttpReply) → Result Product → HttpReply
unfolding to_product_response
reply status on_err (ok p) = some (status, product_body (to_product_response p))
reply status on_err (err e) = on_err e
reply status on_err panic = none

module _ {S : Type 0} (svc : CatalogService S) where
  -- CreateProduct
  unfoldable pub create_product :
      Context → Option CreateProductCommand → ServiceState S → HttpReply × ServiceState S
  unfolding reply error_reply
  create_product ctx none st = (write_error 400 "invalid request body", st)
  create_product ctx (some cmd) st =
      let (r, st') = Service.create_product (some svc) ctx cmd st in
      (reply 201 (error_reply product_already_exists 409 invalid_product 400) r, st')

  -- UpdateProduct, with the id of the path.
  pub update_by_id :
      Context → String → Option UpdateProductRequest → ServiceState S → HttpReply × ServiceState S
  unfolding reply error_reply
  update_by_id ctx id none st = (write_error 400 "invalid request body", st)
  update_by_id ctx id (some req) st =
      let (r, st') =
        Service.update_product (some svc) ctx
          (record {
            id = id;
            name = req.name;
            description = req.description;
            price_cents = req.price_cents;
            active = req.active;
          })
          st in
      (reply 200 (error_reply product_not_found 404 invalid_product 400) r, st')

  -- UpdateProduct
  unfoldable pub update_product :
      Context → String → Option UpdateProductRequest → ServiceState S → HttpReply × ServiceState S
  unfolding update_by_id extract_product_id
  update_product ctx path req st =
      let rest = update_by_id ctx (extract_product_id path) req st in
      if str_eq (extract_product_id path) ""
      then (write_error 400 "product id is required", st)
      else rest

  -- UpdateStock, with the id of the path; the body is the delta.
  pub update_stock_by_id : Context → String → Option ℤ → ServiceState S → HttpReply × ServiceState S
  unfolding reply error_reply
  update_stock_by_id ctx id none st = (write_error 400 "invalid request body", st)
  update_stock_by_id ctx id (some delta) st =
      let (r, st') = Service.update_stock (some svc) ctx id delta st in
      (reply 200 (error_reply product_not_found 404 insufficient_stock 422) r, st')

  -- UpdateStock
  unfoldable pub update_stock :
      Context → String → Option ℤ → ServiceState S → HttpReply × ServiceState S
  unfolding update_stock_by_id extract_product_id
  update_stock ctx path delta st =
      let rest = update_stock_by_id ctx (extract_product_id path) delta st in
      if str_eq (extract_product_id path) ""
      then (write_error 400 "product id is required", st)
      else rest
