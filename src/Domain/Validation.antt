-- ===== src/Domain/Validation.antt =====
-- The rules of the three Validate methods of internal/domain/product.go.
use shop_catalog_service.Common.{
  String, true, false, ◌≡◌, ◌≢◌, ◌↔◌, Option, none, some, eq_iff, arith, refl, ◌∙◌,
}
use shop_catalog_service.Common.Int.{ℤ, pos, ◌≤ℤ◌}
use shop_catalog_service.Common.Text.{is_blank, empty-trim_space}
use shop_catalog_service.Errors.{Error, error_is, invalid_product}
use shop_catalog_service.Domain.{
  Product, CreateProductCommand, UpdateProductCommand, validate_product, validate_create,
  validate_update, is_empty_name, is_negative_price,
}

-- The rules for a stored product.
pub record IsValidProduct (p : Product) : Type 0 where
  pub id_given : p.id ≢ ""
  pub sku_given : p.sku ≢ ""
  pub name_given : p.name ≢ ""
  pub currency_given : p.currency ≢ ""
  pub price_nonneg : pos 0 ≤ℤ p.price_cents
  pub stock_nonneg : pos 0 ≤ℤ p.stock

-- The rules for a new product: three fields hold more than white space, two are not negative.
pub record IsValidCreate (c : CreateProductCommand) : Type 0 where
  pub sku_given : is_blank c.sku ≡ false
  pub name_given : is_blank c.name ≡ false
  pub currency_given : is_blank c.currency ≡ false
  pub price_nonneg : pos 0 ≤ℤ c.price_cents
  pub stock_nonneg : pos 0 ≤ℤ c.stock

-- The rules for an update, on the fields that it sets.
pub record IsValidUpdate (c : UpdateProductCommand) : Type 0 where
  pub id_given : is_blank c.id ≡ false
  pub name_given : (n : String) → c.name ≡ some n → is_blank n ≡ false
  pub price_nonneg : (p : ℤ) → c.price_cents ≡ some p → pos 0 ≤ℤ p

-- Product.Validate accepts a product exactly when its id, SKU, name and currency are not empty and
-- its price and stock are not negative.
pub validate_product-accepts_iff : (p : Product) → (validate_product p ≡ none) ↔ IsValidProduct p
unfolding validate_product
validate_product-accepts_iff p = (
  λ h. ground (arith, eq_iff p.id "", eq_iff p.sku "", eq_iff p.name "", eq_iff p.currency ""),
  λ h. ground (arith, eq_iff p.id "", eq_iff p.sku "", eq_iff p.name "", eq_iff p.currency ""),
)

-- CreateProductCommand.Validate accepts a command exactly when SKU, name and currency hold more than
-- white space and its price and stock are not negative.
pub validate_create-accepts_iff :
    (c : CreateProductCommand) → (validate_create c ≡ none) ↔ IsValidCreate c
unfolding validate_create
validate_create-accepts_iff c = (
  λ h. ground (arith, empty-trim_space c.sku, empty-trim_space c.name, empty-trim_space c.currency),
  λ h. ground (arith, empty-trim_space c.sku, empty-trim_space c.name, empty-trim_space c.currency),
)

nonempty_name :
    (o : Option String) → ((n : String) → o ≡ some n → is_blank n ≡ false) → is_empty_name o ≡ false
nonempty_name none h = refl
nonempty_name (some n) h = empty-trim_space n ∙ h n refl

nonnegative_price :
    (o : Option ℤ) → ((p : ℤ) → o ≡ some p → pos 0 ≤ℤ p) → is_negative_price o ≡ false
nonnegative_price none h = refl
nonnegative_price (some p) h = ground (arith, h p refl)

-- UpdateProductCommand.Validate accepts a command exactly when its id holds more than white space, a
-- name that it sets does too, and a price that it sets is not negative.
pub validate_update-accepts_iff :
    (c : UpdateProductCommand) → (validate_update c ≡ none) ↔ IsValidUpdate c
unfolding validate_update
validate_update-accepts_iff c = (
  λ h. record {
    id_given = ground (arith, empty-trim_space c.id);
    name_given = λ n e. ground (arith, empty-trim_space n);
    price_nonneg = λ p e. ground arith;
  },
  λ h. ground (
    arith,
    empty-trim_space c.id,
    nonempty_name c.name h.name_given,
    nonnegative_price c.price_cents h.price_nonneg,
  ),
)

-- What a command's Validate returns is always ErrInvalidProduct with a reason.
pub validate_create-error_is :
    (c : CreateProductCommand) (e : Error)
    → validate_create c ≡ some e
    → error_is e invalid_product ≡ true
unfolding validate_create
validate_create-error_is c e h = ground arith

pub validate_update-error_is :
    (c : UpdateProductCommand) (e : Error)
    → validate_update c ≡ some e
    → error_is e invalid_product ≡ true
unfolding validate_update
validate_update-error_is c e h = ground arith

-- Each of the three Validate methods accepts exactly what meets its rules: Product.Validate a product
-- whose id, SKU, name and currency are not empty and whose price and stock are not negative;
-- CreateProductCommand.Validate a command whose SKU, name and currency hold more than white space and
-- whose price and stock are not negative; UpdateProductCommand.Validate a command whose id, and whose
-- name where it is set, hold more than white space, and whose price is not negative where it is set.
pub validate_accepts_iff :
    (p : Product) (c : CreateProductCommand) (u : UpdateProductCommand)
    → ((validate_product p ≡ none) ↔ IsValidProduct p)
      × ((validate_create c ≡ none) ↔ IsValidCreate c)
      × ((validate_update u ≡ none) ↔ IsValidUpdate u)
validate_accepts_iff p c u =
    (validate_product-accepts_iff p, validate_create-accepts_iff c, validate_update-accepts_iff u)
