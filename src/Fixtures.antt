-- ===== src/Fixtures.antt =====
-- Data that the tests share: a live context, a product, and a store that holds it.
pub mod Server
pub mod Database
use shop_catalog_service.Common.{arith, true, refl, none, ◌∷◌, []}
use shop_catalog_service.Common.Decimal.{int_text}
use shop_catalog_service.Common.Int.{pos}
use shop_catalog_service.Domain.{Product, CreateProductCommand}
use shop_catalog_service.Repository.{Context}
use shop_catalog_service.InMemory.{Store, insert, empty, has_sku, numbered_id}
use shop_catalog_service.InMemory.Invariant.{IsConsistent, IsStocked, append-IsConsistent}
use shop_catalog_service.Service.{Logger, slog_logger}
use shop_catalog_service.InMemory.Find.{find_id}

abbrev pub live : Context
live = record { done = none }

abbrev pub logger : Logger
logger = slog_logger

abbrev pub mug_command : CreateProductCommand
mug_command = record {
  sku = "SKU-MUG";
  name = "Mug";
  description = "A mug";
  price_cents = pos 1599;
  currency = "USD";
  stock = pos 30;
}

abbrev pub mug : Product
mug = record {
  id = "prod-1";
  sku = "SKU-MUG";
  name = "Mug";
  description = "A mug";
  price_cents = pos 1599;
  currency = "USD";
  stock = pos 30;
  active = true;
}

abbrev pub one_mug : Store
one_mug = record { products = mug ∷ []; by_id = insert "prod-1" mug (λ _. none) }

pub one_mug-IsConsistent : IsConsistent one_mug
unfolding numbered_id has_sku find_id int_text
one_mug-IsConsistent =
    append-IsConsistent mug empty
      (record { agrees = λ id. refl; free = λ n h. refl; ids = tt; skus = tt; stocked = tt }) refl
      refl
      (record {
        stock_nonneg = omega arith;
        stock_int32 = record { low = omega arith; high = omega arith };
        price_nonneg = omega arith;
      })
