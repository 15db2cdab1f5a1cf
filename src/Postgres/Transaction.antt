-- ===== src/Postgres/Transaction.antt =====
-- What the writes of internal/repository/postgres/product_repository.go rely on of PostgreSQL.
use shop_catalog_service.Common.{◌≡◌, ◌⊎◌, String, List, [], ◌∷◌, ◌++◌}
use shop_catalog_service.Exec.{ok}
use shop_catalog_service.Repository.{Context}
use shop_catalog_service.Domain.{UpdateProductCommand}
use shop_catalog_service.Outbox.Table.{Event, Row, pending_row}
use shop_catalog_service.Postgres.{Sql}
use shop_catalog_service.Postgres.Statement.{
  SqlValue, text, bytes, insert_text, stock_text, update_text, outbox_text,
}

-- The statements on the table of products.
pub data IsProductStatement (statement : String) : Type 0 where
  inserts : statement ≡ insert_text → IsProductStatement statement
  updates :
      (cmd : UpdateProductCommand) → statement ≡ update_text cmd → IsProductStatement statement
  restocks : statement ≡ stock_text → IsProductStatement statement

module _ {D T : Type 0} (sql : Sql D T) (after : T → D) (outbox : D → List Row)
    (jsonb : String → String) where
  -- `after t` is the database as committing the transaction `t` would leave it, and `outbox` the
  -- table of events; no other session writes between BeginTx and Commit. A JSONB column keeps a value
  -- and not its text: `jsonb` is the text that it gives back, with its own order of keys and white space.
  pub record IsPostgres : Type 0 where
    pub begin_same : (ctx : Context) (d : D) → (sql.begin_tx ctx d).1 ≡ d
    pub begin_after : (ctx : Context) (d : D) (t : T) → (sql.begin_tx ctx d).0 ≡ ok t → after t ≡ d
    -- COMMIT applies all of a transaction where it succeeds, and all or nothing where it fails.
    pub commit_done : (t : T) (d : D) → (sql.commit t d).0 ≡ ok tt → (sql.commit t d).1 ≡ after t
    pub commit_whole : (t : T) (d : D) → ((sql.commit t d).1 ≡ d) ⊎ ((sql.commit t d).1 ≡ after t)
    -- ROLLBACK, also of a transaction that has ended, changes nothing that was committed.
    pub rollback_same : (t : T) (d : D) → (sql.rollback t d).1 ≡ d
    -- A statement on products leaves the table of events; INSERT adds the row that it names.
    pub product_statement :
        (ctx : Context) (statement : String) (args : List SqlValue) (t : T)
        → IsProductStatement statement
        → outbox (after (sql.tx_query_row ctx statement args t).1) ≡ outbox (after t)
    pub insert_event :
        (ctx : Context) (e : Event) (t : T)
        → let (r, t') =
            sql.tx_exec ctx outbox_text
              (text e.id
                ∷ text e.topic
                ∷ text e.message_key
                ∷ text e.event_type
                ∷ bytes e.payload
                ∷ [])
              t in
          r ≡ ok tt
          → outbox (after t')
            ≡ outbox (after t) ++ pending_row (record e { payload = jsonb e.payload }) ∷ []
