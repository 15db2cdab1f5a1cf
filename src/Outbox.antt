-- ===== src/Outbox.antt =====
-- internal/outbox/publisher.go: the publisher of the outbox. A run is a sequence of ticks of its ticker
-- that ends when its context is done. The driver and the writer of Kafka are parameters, over the
-- state of the database and that of the broker. Logs are left out.
pub mod Table
pub mod Environment
pub mod Pending
pub mod Delivery
pub mod Fetch
pub mod Invariant
pub mod Interleaving
pub mod Refusal
pub mod Draining
use shop_catalog_service.Outbox.Table.{Event}
use shop_catalog_service.Common.{ℕ, String, Option, none, some, List, [], ◌∷◌, ◌++◌}
use shop_catalog_service.Common.Int.{pos}
use shop_catalog_service.Errors.{Error, wrap, message}
use shop_catalog_service.Exec.{
  Result, ok, err, panic, Exec, pure, fail, lift, handle, crash, ◌>>=◌, ◌>>◌,
}
use shop_catalog_service.Repository.{Context}
use shop_catalog_service.Service.{Logger}
use shop_catalog_service.Events.{Producer, publish_raw}
use shop_catalog_service.Postgres.Statement.{SqlValue, text, int}

-- *sql.Rows at the five columns of an event: what Scan does at each row, and Err at the end.
pub record EventSet : Type 0 where
  pub rows : List (Result Event)
  pub end_error : Option Error

-- *sql.DB, as the publisher uses it.
pub record OutboxSql (D : Type 0) : Type 0 where
  pub query : Context → String → List SqlValue → Exec D EventSet
  pub exec : Context → String → List SqlValue → Exec D (Unit {0})

-- Publisher; the ticker's interval is that of the ticks.
pub record Publisher (D K : Type 0) : Type 0 where
  pub db : OutboxSql D
  pub producer : Option (Producer K)
  pub logger : Logger
  pub batch_size : ℕ

pub record OutboxState (D K : Type 0) : Type 0 where
  pub db : D
  pub kafka : K

abbrev pub pending_text : String
pending_text =
    "SELECT id, topic, message_key, event_type, payload FROM outbox_events WHERE status = 'pending' ORDER BY created_at LIMIT $1"

abbrev pub sent_text : String
sent_text = "UPDATE outbox_events SET status = 'sent', sent_at = NOW() WHERE id = $1"

abbrev pub failed_text : String
failed_text = "UPDATE outbox_events SET attempts = attempts + 1, last_error = $1 WHERE id = $2"

-- NewPublisher, with the logger that slog.Default returns.
unfoldable pub new_publisher :
    {D K : Type 0} → Logger → OutboxSql D → Option (Producer K) → Option Logger → Publisher D K
new_publisher default db producer none = record {
  db = db;
  producer = producer;
  logger = default;
  batch_size = 100;
}
new_publisher default db producer (some l) = record {
  db = db;
  producer = producer;
  logger = l;
  batch_size = 100;
}

-- The loop over the rows.
pub scan_events : Option Error → List (Result Event) → List Event → Result (List Event)
scan_events none [] events = ok events
scan_events (some e) [] events = err (wrap "iterate pending outbox events: " e "")
scan_events end (ok event ∷ rows) events = scan_events end rows (events ++ event ∷ [])
scan_events end (err e ∷ rows) events = err (wrap "scan pending outbox event: " e "")
scan_events end (panic ∷ rows) events = panic

-- What select finds ready in Run: a tick, or the context's end.
pub data Signal : Type 0 where
  tick done : Signal

module _ {D K : Type 0} where
  abbrev pub on_db : {A : Type 0} → Exec D A → Exec (OutboxState D K) A
  on_db m st = let (r, d) = m st.db in (r, record st { db = d })

  abbrev on_kafka : {A : Type 0} → Exec K A → Exec (OutboxState D K) A
  on_kafka m st = let (r, k) = m st.kafka in (r, record st { kafka = k })

-- Only a panic ends the loop at a tick.
abbrev pub go_on :
    {D K : Type 0}
    → Result (Unit {0})
    → OutboxState D K
    → Option (Result (Unit {0})) × OutboxState D K
    → Option (Result (Unit {0})) × OutboxState D K
go_on (ok _) st rest = rest
go_on (err e) st rest = rest
go_on panic st rest = (some panic, st)

module _ {D K : Type 0} (p : Publisher D K) (ctx : Context) where
  -- fetchPending
  pub fetch_pending : Exec (OutboxState D K) (List Event)
  unfolding scan_events
  fetch_pending =
      handle (on_db (p.db.query ctx pending_text (int (pos p.batch_size) ∷ [])))
        (λ e. fail (wrap "query pending outbox events: " e ""))
        (λ rows. lift (scan_events rows.end_error rows.rows []))

  -- markFailed and markSent: an error is only logged.
  pub mark_failed : String → Error → Exec (OutboxState D K) (Unit {0})
  mark_failed event_id e =
      handle (on_db (p.db.exec ctx failed_text (text (message e) ∷ text event_id ∷ [])))
        (λ _. pure tt) pure

  pub mark_sent : String → Exec (OutboxState D K) (Unit {0})
  mark_sent event_id =
      handle (on_db (p.db.exec ctx sent_text (text event_id ∷ []))) (λ _. pure tt) pure

  -- The call of PublishRaw on p.producer; a nil producer has no writer.
  pub send : Option (Producer K) → Event → Exec (OutboxState D K) (Unit {0})
  unfolding publish_raw
  send none event = crash
  send (some producer) event = on_kafka (
      publish_raw producer ctx event.topic event.message_key event.event_type event.id
        event.payload)

  -- The body of the loop over the events.
  pub publish_one : Event → Exec (OutboxState D K) (Unit {0})
  unfolding mark_failed mark_sent send
  publish_one event =
      handle (send p.producer event) (mark_failed event.id) (λ _. mark_sent event.id)

  pub publish_all : List Event → Exec (OutboxState D K) (Unit {0})
  unfolding publish_one
  publish_all [] = pure tt
  publish_all (event ∷ events) = publish_one event >> publish_all events

  -- publishBatch
  pub publish_batch : Exec (OutboxState D K) (Unit {0})
  unfolding fetch_pending publish_all
  publish_batch = fetch_pending >>= publish_all

  -- One turn of Run: an error of the batch is only logged.
  pub on_tick : Exec (OutboxState D K) (Unit {0})
  unfolding publish_batch
  on_tick = handle publish_batch (λ _. pure tt) pure

  -- Run, as long as signals come; `none` while it goes on.
  pub run : List Signal → OutboxState D K → Option (Result (Unit {0})) × OutboxState D K
  unfolding on_tick
  run [] st = (none, st)
  run (done ∷ signals) st = (some (ok tt), st)
  run (tick ∷ signals) st =
      let rest = run signals (on_tick st).1 in go_on (on_tick st).0 (on_tick st).1 rest

-- Close; a nil publisher or producer is `none`.
pub close : {D K : Type 0} → Option (Publisher D K) → Exec (OutboxState D K) (Unit {0})
close none = pure tt
close (some p) = elim p.producer [ none ↦ pure tt | some producer ↦ on_kafka producer.close ]
