-- ===== src/Tests/Delivery.antt =====
-- Writes over PostgreSQL, and the outbox, on a database with room for one event.
use shop_catalog_service.Common.{false, inl, ◌≡◌, refl, arith, [], ◌∷◌, none, some}
use shop_catalog_service.Common.Int.{pos}
use shop_catalog_service.Common.Lists.{All}
use shop_catalog_service.Exec.{ok}
use shop_catalog_service.Domain.{UpdateProductCommand}
use shop_catalog_service.Common.Decimal.{int_text}
use shop_catalog_service.Postgres.Statement.{update_args, update_text, text, int, flag}
use shop_catalog_service.Postgres
use shop_catalog_service.Postgres.{scan_product, PgState, insert_outbox_event}
use shop_catalog_service.Postgres.Outcome.{creating, event_type_of, run_write, IsOutcome}
use shop_catalog_service.Postgres.Writes.{run_write-IsOutcome}
use shop_catalog_service.Postgres.Source.{IsRowOf, rows_of, reads_found}
use shop_catalog_service.Exec.Ensures.{Post}
use shop_catalog_service.Postgres.Update.{IsUpdateOf, update_text-IsUpdateOf}
use shop_catalog_service.Outbox.{OutboxState, tick, done, run, new_publisher, on_tick}
use shop_catalog_service.Outbox.Table.{Event, pending_row, pending}
use shop_catalog_service.Outbox.Invariant.{AreDelivered}
use shop_catalog_service.Outbox.Interleaving.{wrote, ticked, here, further, Reaches-AreDelivered}
use shop_catalog_service.Outbox.Draining.{run-IsSent, ticks, IsSent}
use shop_catalog_service.Outbox.Refusal.{run-Waits}
use shop_catalog_service.Fixtures.{live, logger, mug_command, mug}
use shop_catalog_service.Fixtures.Database.{
  jsonb, database-IsProductTable, shelf, Slot, table, world, postgres, database-IsPostgres,
  outbox_database, outbox_database-IsOutboxTable, outbox_database-Answers, Log, Has, producer,
  producer-IsBroker, refusing, publisher,
}

abbrev empty : PgState Slot
empty = record { db = none; drawn = 0 }

run_write-IsOutcome_example :
    let (result, st') = run_write world postgres live (creating mug_command) empty in
    IsOutcome world jsonb table (event_type_of (creating mug_command)) result none st'.db
run_write-IsOutcome_example =
    run_write-IsOutcome world postgres live (λ t. t) table jsonb database-IsPostgres
      (creating mug_command) empty

create_test : (run_write world postgres live (creating mug_command) empty).0 ≡ ok mug
unfolding run_write Postgres.create
create_test = refl

abbrev created : Event
created = record {
  id = "event-1";
  topic = "catalog.products.v1";
  message_key = "prod-1";
  event_type = "product.created";
  payload = "{}";
}

abbrev waiting : OutboxState Slot Log
waiting = record { db = some (pending_row created); kafka = [] }

publisher_test :
    new_publisher logger outbox_database (some producer) none ≡ publisher (some producer)
unfolding new_publisher
publisher_test = refl

abbrev start : OutboxState Slot Log
start = record { db = none; kafka = [] }

abbrev after_create : OutboxState Slot Log
after_create = record start {
  db =
      (run_write world postgres live (creating mug_command) (record { db = none; drawn = 0 })).1.db;
}

Reaches-AreDelivered_example :
    AreDelivered table Has (on_tick (publisher (some producer)) live after_create).1
Reaches-AreDelivered_example =
    Reaches-AreDelivered world postgres (publisher (some producer)) (λ t. t) table Has jsonb
      database-IsPostgres outbox_database-IsOutboxTable producer-IsBroker start
      (on_tick (publisher (some producer)) live after_create).1 refl
      (further start after_create _
        (further start start after_create (here start) (wrote live (creating mug_command) 0 start))
        (ticked live after_create))

run-IsSent_example :
    ((run (publisher (some producer)) live (ticks 1) waiting).0 ≡ none)
    × (pending (table (run (publisher (some producer)) live (ticks 1) waiting).1.db) ≡ [])
    × All
        (IsSent Has (run (publisher (some producer)) live (ticks 1) waiting).1.kafka)
        (table (run (publisher (some producer)) live (ticks 1) waiting).1.db)
run-IsSent_example =
    run-IsSent (publisher (some producer)) table live outbox_database-IsOutboxTable
      outbox_database-Answers (λ ctx m k. refl) Has producer-IsBroker 1 waiting (omega arith)
      (inl refl, tt)

run-Waits_example :
    pending (table (run (publisher (some refusing)) live (tick ∷ tick ∷ done ∷ []) waiting).1.db)
    ≡ pending (table waiting.db)
run-Waits_example =
    run-Waits (publisher (some refusing)) table live outbox_database-IsOutboxTable
      (tick ∷ tick ∷ done ∷ []) waiting ((λ ctx k. (_, refl)), tt)

abbrev cheaper : UpdateProductCommand
cheaper = record {
  id = "prod-1";
  name = none;
  description = none;
  price_cents = some (pos 999);
  active = some false;
}

update_test :
    (update_text cheaper
      ≡ "UPDATE products SET updated_at = NOW(), price_cents = $1, active = $2 WHERE id = $3 RETURNING id, sku, name, description, price_cents, currency, stock, active")
    × (update_args cheaper ≡ int (pos 999) ∷ flag false ∷ text "prod-1" ∷ [])
unfolding update_text update_args int_text
update_test = (refl, refl)

update_text-IsUpdateOf_example : IsUpdateOf cheaper (update_text cheaper) (update_args cheaper)
update_text-IsUpdateOf_example = update_text-IsUpdateOf cheaper

reads_found_example :
    (IsRowOf (mug ∷ []) "prod-1" (Postgres.get_by_id world postgres live "prod-1" empty).0
      × ((Postgres.get_by_id world postgres live "prod-1" empty).1 ≡ empty))
    × (Post
          (λ ps. rows_of (mug ∷ []) (pos 10) (pos 0) ≡ ps)
          (Postgres.list world postgres live (pos 10) (pos 0) empty).0
        × ((Postgres.list world postgres live (pos 10) (pos 0) empty).1 ≡ empty))
reads_found_example =
    reads_found world postgres shelf empty (database-IsProductTable none) live "prod-1" (pos 10)
      (pos 0)

get_test : (Postgres.get_by_id world postgres live "prod-1" empty).0 ≡ ok mug
unfolding Postgres.get_by_id scan_product
get_test = refl
