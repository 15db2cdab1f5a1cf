-- ===== src/Postgres.antt =====
-- internal/repository/postgres/product_repository.go: the repository over PostgreSQL. The driver is a
-- parameter, `Sql`, over the state of the database and that of an open transaction; so are the
-- identifiers, the clock and the JSON encoder, `World`. The texts of the statements have single
-- spaces for white space. Logs and spans are left out.
pub mod Statement
pub mod Transaction
pub mod Source
pub mod Outcome
pub mod Writes
pub mod Update
use Prim.Native.String.{◌++◌ as str_append}
use shop_catalog_service.Common.{
  ℕ, suc, ◌+◌, String, Bool, true, false, ◌||◌, Option, none, some, List, [], ◌∷◌, ◌++◌,
  if◌then◌else◌,
}
use shop_catalog_service.Common.Int.{ℤ, pos, ltb_ℤ}
use shop_catalog_service.Common.Text.{contains}
use shop_catalog_service.Errors.{
  Error, sentinel, plain, wrap, error_is, message, no_rows, product_not_found,
  product_already_exists, insufficient_stock,
}
use shop_catalog_service.Exec.{
  Result, ok, err, panic, Exec, pure, fail, crash, lift, handle, ◌>>=◌, ◌>>◌,
}
use shop_catalog_service.Domain.{Product, CreateProductCommand, UpdateProductCommand}
use shop_catalog_service.Repository.{Context, ProductRepository}
use shop_catalog_service.Service.{Logger}
use shop_catalog_service.Events.{ProductEvent, product_created, product_updated, stock_changed}
use shop_catalog_service.Postgres.Statement.{
  SqlValue, text, int, bytes, list_text, get_text, insert_text, update_text, update_args,
  stock_text, outbox_text,
}

-- What Scan writes to its eight destinations, in the order of the columns.
abbrev pub Columns : Type 0
Columns = String × String × String × String × ℤ × String × ℤ × Bool

-- *sql.Rows: what Scan does at each row, and Err at the end.
pub record RowSet : Type 0 where
  pub rows : List (Result Columns)
  pub end_error : Option Error

-- *sql.DB and *sql.Tx. A row of QueryRowContext is read by Scan at once, which reports every error.
pub record Sql (D T : Type 0) : Type 0 where
  pub query : Context → String → List SqlValue → Exec D RowSet
  pub query_row : Context → String → List SqlValue → Exec D Columns
  pub begin_tx : Context → Exec D T
  pub tx_query_row : Context → String → List SqlValue → Exec T Columns
  pub tx_exec : Context → String → List SqlValue → Exec T (Unit {0})
  pub commit : T → Exec D (Unit {0})
  pub rollback : T → Exec D (Unit {0})

-- uuid.New().String() and time.Now() at each use, and json.Marshal of an event.
pub record World : Type 0 where
  pub uuid : ℕ → String
  pub now : ℕ → ℕ
  pub marshal_event : ProductEvent → Result String

-- ProductRepository; its logger is only written to.
pub record PostgresRepository (D T : Type 0) : Type 0 where
  pub logger : Logger
  pub db : Sql D T

-- NewProductRepository, with the logger that slog.Default returns.
unfoldable pub new_postgres_repository :
    {D T : Type 0} → Logger → Option Logger → Option (Sql D T) → Result (PostgresRepository D T)
new_postgres_repository default logger none = err (plain "db is empty")
new_postgres_repository default none (some db) = ok (record { logger = default; db = db })
new_postgres_repository default (some l) (some db) = ok (record { logger = l; db = db })

-- The database, and how many identifiers and times were drawn; inside a transaction, its own state.
pub record PgState (D : Type 0) : Type 0 where
  pub db : D
  pub drawn : ℕ

-- scanProduct
unfoldable pub scan_product : Columns → Product
scan_product (id, sku, name, description, price_cents, currency, stock, active) = record {
  id = id;
  sku = sku;
  name = name;
  description = description;
  price_cents = price_cents;
  currency = currency;
  stock = stock;
  active = active;
}

-- The loop over the rows.
scan_rows : Option Error → List (Result Columns) → List Product → Result (List Product)
unfolding scan_product
scan_rows none [] products = ok products
scan_rows (some e) [] products = err e
scan_rows end (ok row ∷ rows) products = scan_rows end rows (products ++ scan_product row ∷ [])
scan_rows end (err e ∷ rows) products = err e
scan_rows end (panic ∷ rows) products = panic

-- The errors of the statements, as the methods return them.
pub create_error : Error → Error
create_error e =
    if contains "unique" (message e) || contains "duplicate" (message e)
    then sentinel product_already_exists
    else e

pub not_found_error : Error → Error
not_found_error e = if error_is e no_rows then sentinel product_not_found else e

pub stock_error : Error → Error
stock_error e =
    if error_is e no_rows
    then sentinel product_not_found
    else if contains "check" (message e) || contains "stock" (message e)
    then sentinel insufficient_stock
    else e

-- One draw of an identifier or a time.
abbrev pub draw : {X : Type 0} → Exec (PgState X) ℕ
draw st = (ok st.drawn, record st { drawn = st.drawn + 1 })

-- A call of the driver inside the state.
abbrev pub on_db : {X A : Type 0} → Exec X A → Exec (PgState X) A
on_db m st = let (r, x) = m st.db in (r, record st { db = x })

-- The event of a product, and the arguments of its row.
pub product_event : World → ℕ → ℕ → String → Product → ProductEvent
product_event world k at event_type product = record {
  event_id = world.uuid k;
  event_type = event_type;
  product_id = product.id;
  sku = product.sku;
  name = product.name;
  price_cents = product.price_cents;
  currency = product.currency;
  stock = product.stock;
  active = product.active;
  occured_at = world.now at;
}

-- What a method returns after Commit.
abbrev pub committed : String → Product → Result (Unit {0}) → Result Product
committed context product (ok _) = ok product
committed context product (err e) = err (wrap context e "")
committed context product panic = panic

-- The arguments of the statement in Create.
abbrev pub insert_args : World → ℕ → CreateProductCommand → List SqlValue
insert_args world k cmd =
    text (world.uuid k)
    ∷ text cmd.sku
    ∷ text cmd.name
    ∷ text cmd.description
    ∷ int cmd.price_cents
    ∷ text cmd.currency
    ∷ int cmd.stock
    ∷ []

module _ {D T : Type 0} (world : World) (r : PostgresRepository D T) where
  -- List; `make([]domain.Product, 0, limit)` panics at a negative limit.
  unfoldable pub list : Context → ℤ → ℤ → Exec (PgState D) (List Product)
  unfolding scan_rows
  list ctx limit offset = on_db (r.db.query ctx list_text (int limit ∷ int offset ∷ [])) >>= λ rows.
      if ltb_ℤ limit (pos 0) then crash else lift (scan_rows rows.end_error rows.rows [])

  -- GetByID
  unfoldable pub get_by_id : Context → String → Exec (PgState D) Product
  unfolding not_found_error scan_product
  get_by_id ctx id =
      handle (on_db (r.db.query_row ctx get_text (text id ∷ []))) (λ e. fail (not_found_error e))
        (λ row. pure (scan_product row))

  -- insertOutboxEvent
  pub insert_outbox_event : Context → String → Product → Exec (PgState T) (Unit {0})
  unfolding product_event
  insert_outbox_event ctx event_type product = draw >>= λ k. draw >>= λ at.
      handle (lift (world.marshal_event (product_event world k at event_type product)))
        (λ e. fail (wrap "marshal outbox event: " e ""))
        (λ payload.
          handle
            (on_db (
              r.db.tx_exec ctx outbox_text (
                text (world.uuid k)
                ∷ text "catalog.products.v1"
                ∷ text product.id
                ∷ text event_type
                ∷ bytes payload
                ∷ [])))
            (λ e. fail (wrap "insert outbox event: " e "")) pure)

  -- What the three writes do inside their transaction: a statement that returns the product's row,
  -- with its errors, and the event.
  pub write_row :
      Context → String → List SqlValue → (Error → Error) → String → Exec (PgState T) Product
  unfolding insert_outbox_event scan_product
  write_row ctx statement args on_error event_type =
      handle (on_db (r.db.tx_query_row ctx statement args)) (λ e. fail (on_error e))
        (λ row. insert_outbox_event ctx event_type (scan_product row) >> pure (scan_product row))

  -- `defer tx.Rollback()`: whatever the method returns, its error is ignored.
  pub deferred : T → Result Product → PgState D → Result Product × PgState D
  deferred tx result st = let (_, d) = r.db.rollback tx st.db in (result, record st { db = d })

  -- Commit, unless the writes failed.
  pub finish : String → Result Product → PgState T → PgState D → Result Product × PgState D
  unfolding deferred
  finish context (ok product) tx st =
      let (c, d) = r.db.commit tx.db st.db in
      deferred tx.db (committed context product c) (record { db = d; drawn = tx.drawn })
  finish context (err e) tx st = deferred tx.db (err e) (record st { drawn = tx.drawn })
  finish context panic tx st = deferred tx.db panic (record st { drawn = tx.drawn })

  -- BeginTx, the writes, and Commit.
  pub in_transaction : Context → String → Exec (PgState T) Product → Exec (PgState D) Product
  unfolding finish
  in_transaction ctx context body = on_db (r.db.begin_tx ctx) >>= λ tx. λ st.
      let (result, tx') = body (record { db = tx; drawn = st.drawn }) in
      finish context result tx' st

  -- Create
  unfoldable pub create : Context → CreateProductCommand → Exec (PgState D) Product
  unfolding in_transaction write_row create_error
  create ctx cmd = in_transaction ctx "commit create product transaction: " (
      draw >>= λ k.
      write_row ctx insert_text (insert_args world k cmd) create_error product_created)

  -- Update
  unfoldable pub update : Context → UpdateProductCommand → Exec (PgState D) Product
  unfolding in_transaction write_row not_found_error
  update ctx cmd =
      in_transaction ctx "commit update product transaction: "
        (write_row ctx (update_text cmd) (update_args cmd) not_found_error product_updated)

  -- UpdateStock
  unfoldable pub update_stock : Context → String → ℤ → Exec (PgState D) Product
  unfolding in_transaction write_row stock_error
  update_stock ctx product_id delta =
      in_transaction ctx "commit update stock transaction: "
        (write_row ctx stock_text (int delta ∷ text product_id ∷ []) stock_error stock_changed)

  unfoldable pub repository : ProductRepository (PgState D)
  repository = record {
    list = list;
    get_by_id = get_by_id;
    create = create;
    update = update;
    update_stock = update_stock;
  }
