-- ===== src/Outbox/Interleaving.antt =====
-- The writes of internal/repository/postgres/product_repository.go and the ticks of
-- internal/outbox/publisher.go on one database, in any order.
use shop_catalog_service.Common.{◌≡◌, refl, sym, ◌⊎◌, inl, inr, ℕ, String, List, [], ◌∷◌, ◌++◌}
use shop_catalog_service.Common.Lists.{All, All-append}
use shop_catalog_service.Exec.{Result, ok, err, panic}
use shop_catalog_service.Repository.{Context}
use shop_catalog_service.Outbox.{Publisher, OutboxState, on_tick}
use shop_catalog_service.Outbox.Table.{pending_row, Row, Event}
use shop_catalog_service.Postgres.{World, PostgresRepository}
use shop_catalog_service.Postgres.Outcome.{event_type_of, IsOutcome, Announced, Write, run_write}
use shop_catalog_service.Postgres.Writes.{run_write-IsOutcome}
use shop_catalog_service.Postgres.Transaction.{IsPostgres}
use shop_catalog_service.Events.{Message}
use shop_catalog_service.Outbox.Environment.{IsOutboxTable}
use shop_catalog_service.Outbox.Invariant.{on_tick-AreDelivered, AreDelivered, WritesTo}
use shop_catalog_service.Domain.{Product}
use mathlib.Core.Path.{subst}
use shop_catalog_service.Outbox.Delivery.{IsDelivered}

module _ {D T K : Type 0} (world : World) (r : PostgresRepository D T) (p : Publisher D K) where
  -- A write of the repository, which has drawn `drawn` ids and times before, or a tick.
  pub data Step : OutboxState D K → OutboxState D K → Type 0 where
    wrote :
        (ctx : Context) (w : Write) (drawn : ℕ) (st : OutboxState D K)
        → Step st (record st {
          db = (run_write world r ctx w (record { db = st.db; drawn = drawn })).1.db;
        })
    ticked : (ctx : Context) (st : OutboxState D K) → Step st (on_tick p ctx st).1

  pub data Reaches : OutboxState D K → OutboxState D K → Type 0 where
    here : (st : OutboxState D K) → Reaches st st
    further : (st st' st'' : OutboxState D K) → Reaches st st' → Step st' st'' → Reaches st st''

  module _ (after : T → D) (table : D → List Row) (Has : K → Message → Type 0)
      (jsonb : String → String) (postgres : IsPostgres r.db after table jsonb)
      (laws : IsOutboxTable p.db table) (broker : WritesTo Has p.producer) where
    -- A new event waits.
    announced-IsDelivered :
        (k : K) (t t' : List Row) (e : Event)
        → t' ≡ t ++ pending_row e ∷ []
        → All (IsDelivered (Has k)) t
        → All (IsDelivered (Has k)) t'
    announced-IsDelivered k t t' e same h =
        subst (All (IsDelivered (Has k))) (sym same)
          (All-append (IsDelivered (Has k)) t (pending_row e ∷ []) h (inl refl, tt))

    unfinished-IsDelivered :
        (ctx : Context) (w : Write) (k : K) (d d' : D)
        → (d' ≡ d)
          ⊎ ((p : Product) × Announced world jsonb (event_type_of w) p (table d) (table d'))
        → All (IsDelivered (Has k)) (table d)
        → All (IsDelivered (Has k)) (table d')
    unfinished-IsDelivered ctx w k d d' (inl same) h =
        subst (λ x. All (IsDelivered (Has k)) (table x)) (sym same) h
    unfinished-IsDelivered ctx w k d d' (inr (_, (e, _, same))) h =
        announced-IsDelivered k (table d) (table d') e same h

    outcome-IsDelivered :
        (ctx : Context) (w : Write) (k : K) (result : Result Product) (d d' : D)
        → IsOutcome world jsonb table (event_type_of w) result d d'
        → All (IsDelivered (Has k)) (table d)
        → All (IsDelivered (Has k)) (table d')
    outcome-IsDelivered ctx w k (ok a) d d' (e, _, same) h =
        announced-IsDelivered k (table d) (table d') e same h
    outcome-IsDelivered ctx w k (err _) d d' o h = unfinished-IsDelivered ctx w k d d' o h
    outcome-IsDelivered ctx w k panic d d' o h = unfinished-IsDelivered ctx w k d d' o h

    Step-AreDelivered :
        (st st' : OutboxState D K)
        → Step st st'
        → AreDelivered table Has st
        → AreDelivered table Has st'
    Step-AreDelivered _ _ (wrote ctx w drawn st) h =
        outcome-IsDelivered ctx w st.kafka _ st.db _
          (run_write-IsOutcome world r ctx after table jsonb postgres w
            (record { db = st.db; drawn = drawn }))
          h
    Step-AreDelivered _ _ (ticked ctx st) h = on_tick-AreDelivered p table Has ctx laws broker st h

    -- From an empty table of events on, in every state that any sequence of the repository's writes
    -- and the publisher's ticks reaches, whatever fails in them, each event of the table waits with
    -- the status "pending", or has the status "sent" and its message is in the broker's log: no event
    -- is marked as sent that Kafka did not acknowledge. PostgreSQL and Kafka must keep their promises.
    pub Reaches-AreDelivered :
        (st st' : OutboxState D K) → table st.db ≡ [] → Reaches st st' → AreDelivered table Has st'
    Reaches-AreDelivered _ _ empty (here st) =
        subst (All (IsDelivered (Has st.kafka))) (sym empty) tt
    Reaches-AreDelivered _ _ empty (further st st' st'' before step) =
        Step-AreDelivered st' st'' step (Reaches-AreDelivered st st' empty before)
