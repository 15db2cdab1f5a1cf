-- ===== src/Domain.antt =====
-- internal/domain/product.go: the product, the commands that change it, and their validation.
pub mod Validation
use shop_catalog_service.Common.{String, Bool, false, Option, none, some, str_eq, if◌then◌else◌}
use shop_catalog_service.Common.Int.{ℤ, pos, ltb_ℤ}
use shop_catalog_service.Common.Text.{trim_space}
use shop_catalog_service.Errors.{Error, sentinel, plain, wrap, invalid_product}

-- PriceCents is an int64 and Stock an int32: integers in those ranges.
pub record Product : Type 0 where
  pub id : String
  pub sku : String
  pub name : String
  pub description : String
  pub price_cents : ℤ
  pub currency : String
  pub stock : ℤ
  pub active : Bool

pub record CreateProductCommand : Type 0 where
  pub sku : String
  pub name : String
  pub description : String
  pub price_cents : ℤ
  pub currency : String
  pub stock : ℤ

-- A nil pointer is `none`.
pub record UpdateProductCommand : Type 0 where
  pub id : String
  pub name : Option String
  pub description : Option String
  pub price_cents : Option ℤ
  pub active : Option Bool

-- Product.Validate; a nil error is `none`.
unfoldable pub validate_product : Product → Option Error
validate_product p =
    if str_eq p.id ""
    then some (plain "product id is required")
    else if str_eq p.sku ""
    then some (plain "product sku is required")
    else if str_eq p.name ""
    then some (plain "product name is required")
    else if ltb_ℤ p.price_cents (pos 0)
    then some (plain "product price must be >= 0")
    else if str_eq p.currency ""
    then some (plain "product currency is required")
    else if ltb_ℤ p.stock (pos 0)
    then some (plain "product stock must be >= 0")
    else none

abbrev invalid : String → Error
invalid why = wrap "" (sentinel invalid_product) why

-- CreateProductCommand.Validate
pub validate_create : CreateProductCommand → Option Error
validate_create c =
    if str_eq (trim_space c.sku) ""
    then some (invalid ": sku is required")
    else if str_eq (trim_space c.name) ""
    then some (invalid ": name is required")
    else if ltb_ℤ c.price_cents (pos 0)
    then some (invalid ": price must be >= 0")
    else if str_eq (trim_space c.currency) ""
    then some (invalid ": currency is required")
    else if ltb_ℤ c.stock (pos 0)
    then some (invalid ": stock must be >= 0")
    else none

-- `c.Name != nil && strings.TrimSpace(*c.Name) == ""`
abbrev pub is_empty_name : Option String → Bool
is_empty_name none = false
is_empty_name (some name) = str_eq (trim_space name) ""

-- `c.PriceCents != nil && *c.PriceCents < 0`
abbrev pub is_negative_price : Option ℤ → Bool
is_negative_price none = false
is_negative_price (some price) = ltb_ℤ price (pos 0)

-- UpdateProductCommand.Validate
pub validate_update : UpdateProductCommand → Option Error
validate_update c =
    if str_eq (trim_space c.id) ""
    then some (invalid ": id is required")
    else if is_empty_name c.name
    then some (invalid ": name cannot be empty")
    else if is_negative_price c.price_cents
    then some (invalid ": price must be >= 0")
    else none
