-- ===== src/Repository.antt =====
-- The interface `ProductRepository` of internal/service/catalog/catalog.go, which the in-memory,
-- PostgreSQL and cached repositories implement, and what a call of it is given.
use shop_catalog_service.Common.{String, Option, List}
use shop_catalog_service.Common.Int.{ℤ}
use shop_catalog_service.Errors.{Error}
use shop_catalog_service.Exec.{Exec}
use shop_catalog_service.Domain.{Product, CreateProductCommand, UpdateProductCommand}

-- context.Context, as far as the service reads it: the error of a context that is done.
pub record Context : Type 0 where
  pub done : Option Error

-- A repository over its own state, which each call may change.
pub record ProductRepository (S : Type 0) : Type 0 where
  pub list : Context → ℤ → ℤ → Exec S (List Product)
  pub get_by_id : Context → String → Exec S Product
  pub create : Context → CreateProductCommand → Exec S Product
  pub update : Context → UpdateProductCommand → Exec S Product
  pub update_stock : Context → String → ℤ → Exec S Product
