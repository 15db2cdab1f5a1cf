-- ===== src/Fixtures/Database.antt =====
-- A database with room for one event, whose every call that fits in it succeeds, and a broker that
-- keeps its log in a list: they keep the promises of PostgreSQL and Kafka.
use shop_catalog_service.Common.{
  arith, String, ◌≡◌, refl, sym, ap, ◌⊎◌, inl, inr, Option, none, some, List, [], ◌∷◌, ◌++◌, ℕ,
  Bool, true, false, str_eq, eq_iff, if◌then◌else◌,
}
use shop_catalog_service.Common.Int.{pos}
use shop_catalog_service.Common.Lists.{take}
use shop_catalog_service.Errors.{Error, error_is, product_not_found, no_rows, sentinel, plain}
use shop_catalog_service.Exec.{Result, ok, err, Exec, ok_inj}
use shop_catalog_service.Events.{Message, Producer}
use shop_catalog_service.Postgres.{RowSet, Sql, World, PostgresRepository, Columns}
use shop_catalog_service.Postgres.Statement.{int, SqlValue, text, bytes}
use shop_catalog_service.Postgres.Transaction.{IsPostgres}
use shop_catalog_service.Outbox.{OutboxSql, EventSet, Publisher}
use shop_catalog_service.Outbox.Table.{
  Event, Row, pending_row, sent, bumped, map_rows, pending, Keyed,
}
use shop_catalog_service.Outbox.Environment.{IsOutboxTable, IsBroker, Answers}
use shop_catalog_service.Postgres.Source.{IsProductTable, columns_of, HasRow, rows_of}
use shop_catalog_service.Domain.{Product}
use shop_catalog_service.Fixtures.{logger, mug}

abbrev pub Slot : Type 0
Slot = Option Row

abbrev pub table : Slot → List Row
table none = []
table (some row) = row ∷ []

abbrev mug_columns : Columns
mug_columns = (
  mug.id, mug.sku, mug.name, mug.description, mug.price_cents, mug.currency, mug.stock, mug.active,
)

-- A JSONB column, for the one value that is stored.
abbrev pub jsonb : String → String
jsonb raw = if str_eq raw "{ }" then "{}" else raw

-- The INSERT of an event; there is no room for a second one.
abbrev inserted : List SqlValue → Exec Slot (Unit {0})
inserted (text id ∷ text topic ∷ text key ∷ text event_type ∷ bytes payload ∷ []) none = (
  ok tt,
  some (
      pending_row (record {
        id = id;
        topic = topic;
        message_key = key;
        event_type = event_type;
        payload = jsonb payload;
      })),
)
inserted args st = (err (plain "could not extend file"), st)

-- The table of products has the mug.
abbrev pub shelf : Slot → List Product
shelf d = mug ∷ []

abbrev mug_row : List SqlValue → Result Columns
mug_row (text id ∷ []) = if str_eq id "prod-1" then ok mug_columns else err (sentinel no_rows)
mug_row args = err (plain "expected 1 argument")

abbrev mug_rows : List SqlValue → Result RowSet
mug_rows (int limit ∷ int offset ∷ []) = ok (record {
  rows = map_rows (λ p. ok (columns_of p)) (rows_of (mug ∷ []) limit offset);
  end_error = none;
})
mug_rows args = err (plain "expected 2 arguments")

abbrev pub database : Sql Slot Slot
database = record {
  query = λ ctx s args d. (mug_rows args, d);
  query_row = λ ctx s args d. (mug_row args, d);
  begin_tx = λ ctx d. (ok d, d);
  tx_query_row = λ ctx s args t. (ok mug_columns, t);
  tx_exec = λ ctx s args t. inserted args t;
  commit = λ t d. (ok tt, t);
  rollback = λ t d. (ok tt, d);
}

abbrev pub world : World
world = record { uuid = λ n. "event-1"; now = λ n. n; marshal_event = λ e. ok "{ }" }

abbrev pub postgres : PostgresRepository Slot Slot
postgres = record { logger = logger; db = database }

pub database-IsPostgres : IsPostgres database (λ t. t) table jsonb
database-IsPostgres = record {
  begin_same = λ ctx d. refl;
  begin_after = λ ctx d t e. sym (ok_inj e);
  commit_done = λ t d e. refl;
  commit_whole = λ t d. inr refl;
  rollback_same = λ t d. refl;
  product_statement = λ ctx s args t h. refl;
  insert_event = λ ctx e t h. room e t h;
}
  where
    room :
        (e : Event) (t : Slot)
        → (inserted
            (text e.id
              ∷ text e.topic
              ∷ text e.message_key
              ∷ text e.event_type
              ∷ bytes e.payload
              ∷ [])
            t).0
          ≡ ok tt
        → table
            (inserted
              (text e.id
                ∷ text e.topic
                ∷ text e.message_key
                ∷ text e.event_type
                ∷ bytes e.payload
                ∷ [])
              t).1
          ≡ table t ++ pending_row (record e { payload = jsonb e.payload }) ∷ []
    room e none h = refl
    room e (some row) h = cc

abbrev updated : (Row → Row) → Slot → Slot
updated f none = none
updated f (some row) = some (f row)

abbrev executed : List SqlValue → Exec Slot (Unit {0})
executed (text id ∷ []) d = (ok tt, updated (sent id) d)
executed (text message ∷ text id ∷ []) d = (ok tt, updated (bumped message id) d)
executed args d = (ok tt, d)

abbrev limit_of : List SqlValue → ℕ
limit_of (int (pos n) ∷ []) = n
limit_of args = 0

abbrev pub outbox_database : OutboxSql Slot
outbox_database = record {
  query = λ ctx s args d. (
    ok (record { rows = map_rows ok (take (limit_of args) (pending (table d))); end_error = none }),
    d,
  );
  exec = λ ctx s args d. executed args d;
}

table-updated : (f : Row → Row) (d : Slot) → table (updated f d) ≡ map_rows f (table d)
table-updated f none = refl
table-updated f (some row) = refl

pub outbox_database-IsOutboxTable : IsOutboxTable outbox_database table
outbox_database-IsOutboxTable = record {
  keyed = one;
  query_same = λ ctx n d. refl;
  query_rows = λ ctx n d s e h. ap (λ (x : EventSet). x.rows) (sym (ok_inj e));
  sent_done = λ ctx id d e. table-updated (sent id) d;
  sent_whole = λ ctx id d. inr (table-updated (sent id) d);
  failed_whole = λ ctx message id d. inr (table-updated (bumped message id) d);
}
  where
    one : (d : Slot) → Keyed (table d)
    one none = tt
    one (some row) = (tt, tt)

pub outbox_database-Answers : Answers outbox_database
outbox_database-Answers = record { queried = λ ctx n d. (_, refl, refl); marked = λ ctx id d. refl }

-- The broker's log.
abbrev pub Log : Type 0
Log = List Message

abbrev pub Has : Log → Message → Type 0
Has [] m = ⊥
Has (x ∷ log) m = (x ≡ m) ⊎ Has log m

abbrev pub producer : Producer Log
producer = record { write_messages = λ ctx m log. (ok tt, m ∷ log); close = λ log. (ok tt, log) }

pub producer-IsBroker : IsBroker producer Has
producer-IsBroker = record { kept = λ ctx m x log h. inr h; acknowledged = λ ctx m log e. inl refl }

-- One that refuses every message.
abbrev pub refusing : Producer Log
refusing = record {
  write_messages = λ ctx m log. (err (plain "Message Size Too Large"), log);
  close = λ log. (ok tt, log);
}

abbrev pub publisher : Option (Producer Log) → Publisher Slot Log
publisher producer = record {
  db = outbox_database;
  producer = producer;
  logger = logger;
  batch_size = 100;
}

pub database-IsProductTable : (d : Slot) → IsProductTable database shelf d
database-IsProductTable d = record {
  keyed = (tt, tt);
  row_same = λ ctx id. refl;
  row_found = λ ctx id row e. own_row id row (str_eq id "prod-1") refl e;
  row_missing = λ ctx id e answer h. no_row e (str_eq id "prod-1") answer;
  row_error = λ ctx id e answer. other_error e (str_eq id "prod-1") answer;
  rows_same = λ ctx limit offset. refl;
  rows_found = λ ctx limit offset s e h. ap (λ (x : RowSet). x.rows) (sym (ok_inj e));
}
  where
    own_row :
        (id : String) (row : Columns) (b : Bool)
        → str_eq id "prod-1" ≡ b
        → (if b then ok mug_columns else err (sentinel no_rows)) ≡ ok row
        → (p : Product) × HasRow p (mug ∷ []) × (p.id ≡ id) × (row ≡ columns_of p)
    own_row id row true same e = (mug, inl refl, sym ((eq_iff id "prod-1").0 same), sym (ok_inj e))
    own_row id row false other e = cc

    no_row :
        (e : Error) (b : Bool)
        → (if b then ok mug_columns else err (sentinel no_rows)) ≡ err e
        → (if b then some mug else none) ≡ none
    no_row e true answer = cc
    no_row e false answer = refl

    other_error :
        (e : Error) (b : Bool)
        → (if b then ok mug_columns else err (sentinel no_rows)) ≡ err e
        → error_is e product_not_found ≡ false
    other_error e true answer = cc
    other_error e false answer = ground arith
