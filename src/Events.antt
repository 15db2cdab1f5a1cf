-- ===== src/Events.antt =====
-- internal/events/producer.go: the events of the catalog and the messages that carry them. The writer
-- of kafka-go and encoding/json are parameters; a []byte is a text.
use shop_catalog_service.Common.{ℕ, String, Bool, List, [], ◌∷◌}
use shop_catalog_service.Common.Int.{ℤ}
use shop_catalog_service.Errors.{wrap}
use shop_catalog_service.Exec.{Result, Exec, fail, lift, handle}
use shop_catalog_service.Repository.{Context}

abbrev pub product_created : String
product_created = "product.created"

abbrev pub product_updated : String
product_updated = "product.updated"

abbrev pub stock_changed : String
stock_changed = "stock.changed"

-- ProductEvent; a time.Time is its number of nanoseconds.
pub record ProductEvent : Type 0 where
  pub event_id : String
  pub event_type : String
  pub product_id : String
  pub sku : String
  pub name : String
  pub price_cents : ℤ
  pub currency : String
  pub stock : ℤ
  pub active : Bool
  pub occured_at : ℕ

-- kafka.Message, the fields that are set.
pub record Message : Type 0 where
  pub topic : String
  pub key : String
  pub value : String
  pub headers : List (String × String)

-- Producer, over the state of its writer: WriteMessages of one message, and Close.
pub record Producer (K : Type 0) : Type 0 where
  pub write_messages : Context → Message → Exec K (Unit {0})
  pub close : Exec K (Unit {0})

-- The message of a raw event.
unfoldable pub raw_message : String → String → String → String → String → Message
raw_message topic key event_type event_id payload = record {
  topic = topic;
  key = key;
  value = payload;
  headers =
      ("event-type", event_type) ∷ ("event-id", event_id) ∷ ("source", "catalog-service") ∷ [];
}

module _ {K : Type 0} (producer : Producer K) where
  -- PublishRaw
  unfoldable pub publish_raw :
      Context → String → String → String → String → String → Exec K (Unit {0})
  unfolding raw_message
  publish_raw ctx topic key event_type event_id payload =
      producer.write_messages ctx (raw_message topic key event_type event_id payload)

  -- Publish, which marshals the event itself.
  publish : (ProductEvent → Result String) → Context → ProductEvent → Exec K (Unit {0})
  publish marshal ctx event =
      handle (lift (marshal event)) (λ e. fail (wrap "marshal event: " e ""))
        (λ payload. producer.write_messages ctx (record {
          topic = "catalog.products.v1";
          key = event.product_id;
          value = payload;
          headers =
              ("event-type", event.event_type)
              ∷ ("event-id", event.event_id)
              ∷ ("source", "catalog-service")
              ∷ [];
        }))
