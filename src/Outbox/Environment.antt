-- ===== src/Outbox/Environment.antt =====
-- What internal/outbox/publisher.go relies on of PostgreSQL and of Kafka.
use shop_catalog_service.Common.{◌≡◌, ◌⊎◌, none, ℕ, String, List, [], ◌∷◌}
use shop_catalog_service.Common.Int.{pos}
use shop_catalog_service.Common.Lists.{take}
use shop_catalog_service.Exec.{ok, err}
use shop_catalog_service.Repository.{Context}
use shop_catalog_service.Errors.{Error}
use shop_catalog_service.Events.{Message, Producer, raw_message}
use shop_catalog_service.Postgres.Statement.{text, int}
use shop_catalog_service.Outbox.{OutboxSql, EventSet, pending_text, sent_text, failed_text}
use shop_catalog_service.Outbox.Table.{Event, Row, sent, bumped, map_rows, pending, Keyed}

-- The message that PublishRaw makes of an event.
abbrev pub message_of : Event → Message
message_of e = raw_message e.topic e.message_key e.event_type e.id e.payload

module _ {D : Type 0} (sql : OutboxSql D) (table : D → List Row) where
  -- `table d` is the table of events in the order of created_at; between two statements of a tick no
  -- other session writes.
  pub record IsOutboxTable : Type 0 where
    pub keyed : (d : D) → Keyed (table d)
    pub query_same :
        (ctx : Context) (n : ℕ) (d : D)
        → table (sql.query ctx pending_text (int (pos n) ∷ []) d).1 ≡ table d
    -- A result set that is read to its end without an error has the rows that the statement names.
    pub query_rows :
        (ctx : Context) (n : ℕ) (d : D) (s : EventSet)
        → (sql.query ctx pending_text (int (pos n) ∷ []) d).0 ≡ ok s
        → s.end_error ≡ none
        → s.rows ≡ map_rows ok (take n (pending (table d)))
    -- An UPDATE that answers was made; one that does not was made or not.
    pub sent_done :
        (ctx : Context) (id : String) (d : D)
        → (sql.exec ctx sent_text (text id ∷ []) d).0 ≡ ok tt
        → table (sql.exec ctx sent_text (text id ∷ []) d).1 ≡ map_rows (sent id) (table d)
    pub sent_whole :
        (ctx : Context) (id : String) (d : D)
        → let d' = (sql.exec ctx sent_text (text id ∷ []) d).1 in
          (table d' ≡ table d) ⊎ (table d' ≡ map_rows (sent id) (table d))
    pub failed_whole :
        (ctx : Context) (message id : String) (d : D)
        → let d' = (sql.exec ctx failed_text (text message ∷ text id ∷ []) d).1 in
          (table d' ≡ table d) ⊎ (table d' ≡ map_rows (bumped message id) (table d))

module _ {D : Type 0} (sql : OutboxSql D) where
  -- Every statement is answered, and every result set is read to its end.
  pub record Answers : Type 0 where
    pub queried :
        (ctx : Context) (n : ℕ) (d : D)
        → (s : EventSet) × ((sql.query ctx pending_text (int (pos n) ∷ []) d).0 ≡ ok s)
          × (s.end_error ≡ none)
    pub marked :
        (ctx : Context) (id : String) (d : D) → (sql.exec ctx sent_text (text id ∷ []) d).0 ≡ ok tt

module _ {K : Type 0} (producer : Producer K) where
  -- `Has k m`: the broker's log has the message. The log only grows, and an acknowledged message is
  -- in it; one whose write failed may be in it or not, and a message may be in it twice.
  pub record IsBroker (Has : K → Message → Type 0) : Type 0 where
    pub kept :
        (ctx : Context) (m x : Message) (k : K)
        → Has k x
        → Has (producer.write_messages ctx m k).1 x
    pub acknowledged :
        (ctx : Context) (m : Message) (k : K)
        → (producer.write_messages ctx m k).0 ≡ ok tt
        → Has (producer.write_messages ctx m k).1 m

  -- The broker acknowledges every message.
  abbrev pub Acknowledges : Type 0
  Acknowledges = (ctx : Context) (m : Message) (k : K) → (producer.write_messages ctx m k).0 ≡ ok tt

  -- The broker answers this message with an error, always.
  abbrev pub Rejects : Message → Type 0
  Rejects m = (ctx : Context) (k : K) → (e : Error) × ((producer.write_messages ctx m k).0 ≡ err e)
