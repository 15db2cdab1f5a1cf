-- ===== src/Outbox/Table.antt =====
-- The table outbox_events of migrations/000003_create_outbox_events.up.sql, and what the UPDATEs of
-- internal/outbox/publisher.go do to a row.
use shop_catalog_service.Common.{
  ◌≡◌, ℕ, ◌+◌, String, Bool, true, false, if◌then◌else◌, Option, none, some, List, [], ◌∷◌, str_eq,
}
use shop_catalog_service.Common.Lists.{All}

-- Event of internal/outbox/publisher.go: the columns that the publisher reads.
pub record Event : Type 0 where
  pub id : String
  pub topic : String
  pub message_key : String
  pub event_type : String
  pub payload : String

pub record Row : Type 0 where
  pub event : Event
  pub status : String
  pub attempts : ℕ
  pub last_error : Option String

-- A row with the defaults of the table.
abbrev pub pending_row : Event → Row
pending_row event = record { event = event; status = "pending"; attempts = 0; last_error = none }

-- `SET status = 'sent', sent_at = NOW() WHERE id = $1`
abbrev pub sent : String → Row → Row
sent id row = if str_eq row.event.id id then record row { status = "sent" } else row

-- `SET attempts = attempts + 1, last_error = $1 WHERE id = $2`
abbrev pub bumped : String → String → Row → Row
bumped message id row =
    if str_eq row.event.id id
    then record row { attempts = row.attempts + 1; last_error = some message }
    else row

abbrev pub map_rows : {A B : Type 0} → (A → B) → List A → List B
map_rows f [] = []
map_rows f (row ∷ rows) = f row ∷ map_rows f rows

-- The events that `WHERE status = 'pending'` selects, in the table's order.
abbrev pub select : Bool → Event → List Event → List Event
select true event events = event ∷ events
select false event events = events

abbrev pub pending : List Row → List Event
pending [] = []
pending (row ∷ rows) = select (str_eq row.status "pending") row.event (pending rows)

-- PRIMARY KEY: no two rows have one id.
abbrev pub Keyed : List Row → Type 0
Keyed [] = Unit
Keyed (row ∷ rows) =
    All (λ (other : Row). str_eq other.event.id row.event.id ≡ false) rows × Keyed rows
