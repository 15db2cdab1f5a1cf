-- ===== src/InMemory.antt =====
-- internal/repository/in_memory/product_repository.go: products in a slice, in the order of
-- creation, and in a map by id. The lock makes each method one step; the slice's elements are
-- values, so the slice and the map share nothing.
pub mod Lawful
pub mod Paging
pub mod Find
pub mod Distinct
pub mod Invariant
pub mod Stock
pub mod Methods
pub mod Reads
pub mod Seed
pub mod Runs
pub mod Returns
pub mod Source
use Prim.Native.String.{◌++◌ as str_append}
use shop_catalog_service.Common.{
  ℕ, suc, ◌+◌, ◌-◌, ◌≡◌, String, Bool, true, false, ◌||◌, Option, none, some, List, [], ◌∷◌, ◌++◌,
  str_eq, if◌then◌else◌,
}
use shop_catalog_service.Common.Int.{ℤ, pos, pos_part, ltb_ℤ, leb_ℤ}
use shop_catalog_service.Common.Word.{add32, add64}
use shop_catalog_service.Common.Lists.{length, take, drop}
use shop_catalog_service.Common.Decimal.{int_text}
use shop_catalog_service.Errors.{
  Error, sentinel, product_not_found, product_already_exists, insufficient_stock,
}
use shop_catalog_service.Exec.{Result, ok, err, panic, Exec, pure, fail, crash}
use shop_catalog_service.Domain.{
  Product, CreateProductCommand, UpdateProductCommand, validate_product,
}
use shop_catalog_service.Repository.{Context, ProductRepository}

-- map[string]domain.Product
abbrev ProductMap : Type 0
ProductMap = String → Option Product

-- `m[key] = product`
abbrev pub insert : String → Product → ProductMap → ProductMap
insert key product m k = if str_eq k key then some product else m k

pub record Store : Type 0 where
  pub products : List Product
  pub by_id : ProductMap

abbrev pub empty : Store
empty = record { products = []; by_id = λ _. none }

-- defaultProducts
pub default_products : List Product
default_products =
    record {
      id = "prod-001";
      sku = "SKU-TSHIRT-001";
      name = "Go T-Shirt";
      description = "Soft cotton t-shirt with Go gopher print";
      price_cents = pos 2499;
      currency = "USD";
      stock = pos 42;
      active = true;
    }
    ∷ record {
      id = "prod-002";
      sku = "SKU-MUG-001";
      name = "Observability Mug";
      description = "Ceramic mug for logs, metrics and traces discussions";
      price_cents = pos 1599;
      currency = "USD";
      stock = pos 30;
      active = true;
    }
    ∷ record {
      id = "prod-003";
      sku = "SKU-STICKER-001";
      name = "Telemetry Stickers Pack";
      description = "Stickers pack with Kafka, Prometheus and Jaeger themes";
      price_cents = pos 799;
      currency = "USD";
      stock = pos 120;
      active = true;
    }
    ∷ record {
      id = "prod-004";
      sku = "SKU-HOODIE-001";
      name = "SRE Hoodie";
      description = "Warm hoodie for incident response nights";
      price_cents = pos 5999;
      currency = "USD";
      stock = pos 12;
      active = true;
    }
    ∷ record {
      id = "prod-005";
      sku = "SKU-NOTEBOOK-001";
      name = "Runbook Notebook";
      description = "Notebook for runbooks, postmortems and debug notes";
      price_cents = pos 1299;
      currency = "USD";
      stock = pos 55;
      active = true;
    }
    ∷ []

-- The loop over the seed: the first product that does not validate ends it with its error.
pub load : Store → List Product → Result Store
load st [] = ok st
load st (p ∷ seed) =
    let rest =
      load (record { products = st.products ++ p ∷ []; by_id = insert p.id p st.by_id }) seed in
    elim (validate_product p) [ some e ↦ err e | none ↦ rest ]

-- `if len(seed) == 0 { seed = defaultProducts() }`
unfoldable pub seed_or_default : List Product → List Product
unfolding default_products
seed_or_default [] = default_products
seed_or_default (p ∷ seed) = p ∷ seed

-- NewProductRepository; its logger is only written to, and is left out.
pub new_product_repository : List Product → Result Store
unfolding load seed_or_default
new_product_repository seed = load empty (seed_or_default seed)

-- `select { case <-ctx.Done(): return ctx.Err() default: }`
abbrev unless_done : {A : Type 0} → Option Error → Exec Store A → Exec Store A
unless_done (some e) m st = (err e, st)
unless_done none m st = m st

-- `products[offset:end]` with `make(…, 0, end-offset)` before it: both panic out of range. The end
-- may lie between the length and the capacity, which is not modelled: this too counts as a panic.
pub slice : List Product → ℤ → ℤ → Result (List Product)
slice products offset end =
    if ltb_ℤ offset (pos 0) || (ltb_ℤ end offset || ltb_ℤ (pos (length products)) end)
    then panic
    else ok (take (pos_part end - pos_part offset) (drop (pos_part offset) products))

-- The end of a page, cut off at the length.
pub page_end : List Product → ℤ → ℤ → ℤ
page_end products limit offset =
    let total = pos (length products) in
    let end = add64 offset limit in if ltb_ℤ total end then total else end

pub page : List Product → ℤ → ℤ → Result (List Product)
unfolding slice page_end
page products limit offset =
    if leb_ℤ (pos (length products)) offset
    then ok []
    else slice products offset (page_end products limit offset)

-- List
unfoldable pub list : Context → ℤ → ℤ → Exec Store (List Product)
unfolding page
list ctx limit offset = unless_done ctx.done (λ st. (page st.products limit offset, st))

-- GetByID
unfoldable pub get_by_id : Context → String → Exec Store Product
get_by_id ctx id =
    unless_done ctx.done λ st. elim (st.by_id id) [
      | none ↦ (err (sentinel product_not_found), st)
      | some p ↦ (ok p, st)
    ]

-- The loop of Create that looks for the SKU.
unfoldable pub has_sku : String → List Product → Bool
has_sku sku [] = false
has_sku sku (p ∷ ps) = str_eq p.sku sku || has_sku sku ps

-- `fmt.Sprintf("prod-%d", n)`
unfoldable pub numbered_id : ℕ → String
numbered_id n = str_append "prod-" (int_text (pos n))

-- The product that a command makes.
unfoldable pub new_product : String → CreateProductCommand → Product
new_product id cmd = record {
  id = id;
  sku = cmd.sku;
  name = cmd.name;
  description = cmd.description;
  price_cents = cmd.price_cents;
  currency = cmd.currency;
  stock = cmd.stock;
  active = true;
}

-- Create; it does not look at its context.
unfoldable pub create : Context → CreateProductCommand → Exec Store Product
create ctx cmd st =
    if has_sku cmd.sku st.products
    then (err (sentinel product_already_exists), st)
    else let p = new_product (numbered_id (length st.products + 1)) cmd in
      (ok p, record { products = st.products ++ p ∷ []; by_id = insert p.id p st.by_id })

-- The loop that overwrites the first product with the same id.
pub replace_first : Product → List Product → List Product
replace_first product [] = []
replace_first product (p ∷ ps) =
    if str_eq p.id product.id then product ∷ ps else p ∷ replace_first product ps

-- `if v != nil { field = *v }`
abbrev pub or_keep : {A : Type 0} → Option A → A → A
or_keep none old = old
or_keep (some new) old = new

unfoldable pub merge : UpdateProductCommand → Product → Product
merge cmd p = record p {
  name = or_keep cmd.name p.name;
  description = or_keep cmd.description p.description;
  price_cents = or_keep cmd.price_cents p.price_cents;
  active = or_keep cmd.active p.active;
}

abbrev pub store_product : Product → Store → Store
store_product p st = record {
  products = replace_first p st.products;
  by_id = insert p.id p st.by_id;
}

-- Update
unfoldable pub update : Context → UpdateProductCommand → Exec Store Product
update ctx cmd st = elim (st.by_id cmd.id) [
  | none ↦ (err (sentinel product_not_found), st)
  | some old ↦ let p = merge cmd old in (ok p, store_product p st)
]

-- UpdateStock; the sum is an int32.
unfoldable pub update_stock : Context → String → ℤ → Exec Store Product
update_stock ctx product_id delta st = elim (st.by_id product_id) [
  | none ↦ (err (sentinel product_not_found), st)
  | some old ↦
      let new_stock = add32 old.stock delta in
      if ltb_ℤ new_stock (pos 0)
      then (err (sentinel insufficient_stock), st)
      else let p = record old { stock = new_stock } in (ok p, store_product p st)
]

unfoldable pub repository : ProductRepository Store
repository = record {
  list = list;
  get_by_id = get_by_id;
  create = create;
  update = update;
  update_stock = update_stock;
}
