-- ===== src/Postgres/Outcome.antt =====
-- What the three writes of internal/repository/postgres/product_repository.go are to do.
use shop_catalog_service.Outbox.Table.{Event, Row, pending_row}
use shop_catalog_service.Postgres.{
  stock_error, not_found_error, create_error, insert_args, Sql, World, PostgresRepository, PgState,
  Columns, product_event, scan_product, insert_outbox_event, write_row, deferred, finish,
  in_transaction, committed, draw, on_db,
}
use shop_catalog_service.Events.{ProductEvent}
use shop_catalog_service.Postgres
use shop_catalog_service.Domain.{Product, CreateProductCommand, UpdateProductCommand}
use shop_catalog_service.Common.{◌⊎◌, [], ◌∷◌, ◌++◌, ◌≡◌, List, ℕ, String}
use shop_catalog_service.Repository.{Context}
use shop_catalog_service.Exec.{panic, err, ok, Result, Exec}
use shop_catalog_service.Common.Int.{ℤ}

-- The writes as data, and the type of event that each is announced by.
pub data Write : Type 0 where
  creating : CreateProductCommand → Write
  updating : UpdateProductCommand → Write
  restocking : String → ℤ → Write

abbrev pub event_type_of : Write → String
event_type_of (creating _) = "product.created"
event_type_of (updating _) = "product.updated"
event_type_of (restocking _ _) = "stock.changed"

-- The event has the fields of the product as it is returned, its own id, type and time, and the table
-- has it under this id, with the product's id as the key, and in the form that a JSONB column gives back.
pub record Announces (world : World) (jsonb : String → String) (event_type : String) (p : Product)
    (e : Event) : Type 0 where
  pub event : ProductEvent
  pub product_id : event.product_id ≡ p.id
  pub sku : event.sku ≡ p.sku
  pub name : event.name ≡ p.name
  pub price_cents : event.price_cents ≡ p.price_cents
  pub currency : event.currency ≡ p.currency
  pub stock : event.stock ≡ p.stock
  pub active : event.active ≡ p.active
  pub same_id : event.event_id ≡ e.id
  pub same_type : event.event_type ≡ event_type
  pub drawn : ℕ
  pub id : e.id ≡ world.uuid drawn
  pub at : ℕ
  pub time : event.occured_at ≡ world.now at
  pub encoded : String
  pub marshalled : world.marshal_event event ≡ ok encoded
  pub payload : e.payload ≡ jsonb encoded
  pub topic : e.topic ≡ "catalog.products.v1"
  pub key : e.message_key ≡ p.id
  pub event_type_lem : e.event_type ≡ event_type

-- One event more than before, which announces the product.
abbrev pub Announced : World → (String → String) → String → Product → List Row → List Row → Type 0
Announced world jsonb event_type p rows rows' =
    (e : Event) × Announces world jsonb event_type p e × (rows' ≡ rows ++ pending_row e ∷ [])

-- How a write ends: what it returned, and the database before and after it.
abbrev pub IsOutcome :
    {D : Type 0}
    → World
    → (String → String)
    → (D → List Row)
    → String
    → Result Product
    → D
    → D
    → Type 0
IsOutcome world jsonb outbox event_type (ok p) d d' =
    Announced world jsonb event_type p (outbox d) (outbox d')
IsOutcome world jsonb outbox event_type (err e) d d' =
    (d' ≡ d) ⊎ ((p : Product) × Announced world jsonb event_type p (outbox d) (outbox d'))
IsOutcome world jsonb outbox event_type panic d d' =
    (d' ≡ d) ⊎ ((p : Product) × Announced world jsonb event_type p (outbox d) (outbox d'))

module _ {D T : Type 0} (world : World) (r : PostgresRepository D T) (ctx : Context) where
  unfoldable pub run_write : Write → Exec (PgState D) Product
  run_write (creating cmd) = Postgres.create world r ctx cmd
  run_write (updating cmd) = Postgres.update world r ctx cmd
  run_write (restocking id delta) = Postgres.update_stock world r ctx id delta
