-- ===== src/Outbox/Invariant.antt =====
-- internal/outbox/publisher.go: the invariant of the table under a tick, whatever fails in it.
use shop_catalog_service.Common.{
  ◌≡◌, refl, sym, ap, ◌⊎◌, inl, inr, String, Option, none, some, List, [], ◌∷◌,
}
use shop_catalog_service.Outbox.Table.{pending, bumped, sent, map_rows, Event, Row}
use shop_catalog_service.Outbox.{
  publish_all, on_tick, publish_batch, publish_one, sent_text, failed_text, mark_sent, mark_failed,
  Publisher, OutboxState, on_db, send, fetch_pending,
}
use shop_catalog_service.Events.{raw_message, publish_raw, Producer, Message}
use shop_catalog_service.Outbox.Environment.{message_of, IsOutboxTable, IsBroker}
use shop_catalog_service.Repository.{Context}
use shop_catalog_service.Common.Lists.{All}
use shop_catalog_service.Outbox.Delivery.{
  pending-AreRowsOf, All-take, All-both, sent-IsDelivered, bumped-IsDelivered, All-map_rows,
  bumped_event, sent_event, IsDelivered-imp, map_rows-AreRowsOf, IsRowOf, All-imp, AreRowsOf,
  IsDelivered,
}
use shop_catalog_service.Exec.{fail, panic, err, ok, Result}
use shop_catalog_service.Exec.Ensures.{logged, handle_cases, of_value, Post}
use shop_catalog_service.Errors.{message, Error}
use mathlib.Core.Path.{subst}
use shop_catalog_service.Postgres.Statement.{text}
use shop_catalog_service.Outbox.Fetch.{fetch_pending-Fetches, Fetches}

-- The producer, where there is one, writes to the broker.
abbrev pub WritesTo : {K : Type 0} → (K → Message → Type 0) → Option (Producer K) → Type 0
WritesTo Has none = Unit
WritesTo Has (some producer) = IsBroker producer Has

-- Every row waits, or is marked as sent and its message is in the broker's log.
abbrev pub AreDelivered :
    {D K : Type 0} → (D → List Row) → (K → Message → Type 0) → OutboxState D K → Type 0
AreDelivered table Has st = All (IsDelivered (Has st.kafka)) (table st.db)

module _ {D K : Type 0} (p : Publisher D K) (table : D → List Row) (Has : K → Message → Type 0)
    (ctx : Context) where
  -- The same during a batch of events.
  abbrev IsBatch : List Event → OutboxState D K → Type 0
  IsBatch es st = AreDelivered table Has st × AreRowsOf (table st.db) es

  -- How a write to the broker ends.
  abbrev Sends : Event → OutboxState D K → Result (Unit {0}) → OutboxState D K → Type 0
  Sends e st result st' =
      (st'.db ≡ st.db)
      × ((m : Message) → Has st.kafka m → Has st'.kafka m)
      × Post (λ _. Has st'.kafka (message_of e)) result

  module _ (laws : IsOutboxTable p.db table) (broker : WritesTo Has p.producer) where
    send-Sends :
        (producer : Option (Producer K)) (e : Event) (st : OutboxState D K)
        → WritesTo Has producer
        → Sends e st (send p ctx producer e st).0 (send p ctx producer e st).1
    unfolding send publish_raw raw_message
    send-Sends none e st w = (refl, λ m h. h, tt)
    send-Sends (some producer) e st w = (
      refl,
      λ m h. w.kept ctx (message_of e) m st.kafka h,
      of_value (λ _. Has _ (message_of e)) (producer.write_messages ctx (message_of e) st.kafka).0
          (λ _ h. w.acknowledged ctx (message_of e) st.kafka h),
    )

    -- A batch goes on where the broker's log has grown.
    kept-IsBatch :
        (es : List Event) (e : Event) (st st' : OutboxState D K) (result : Result (Unit {0}))
        → Sends e st result st'
        → IsBatch es st
        → IsBatch es st'
    kept-IsBatch es e st st' result (same, kept, _) (d, r) = (
      subst (λ x. All (IsDelivered (Has st'.kafka)) (table x)) (sym same)
          (All-imp (IsDelivered (Has st.kafka)) (IsDelivered (Has st'.kafka))
            (λ row. IsDelivered-imp (Has st.kafka) (Has st'.kafka) row kept) (table st.db) d),
      subst (λ x. AreRowsOf (table x) es) (sym same) r,
    )

    -- An UPDATE was made or not; the rows that it makes must be good.
    updated-IsBatch :
        (es : List Event) (st : OutboxState D K) (d : D) (f : Row → Row)
        → ((row : Row) → (f row).event ≡ row.event)
        → All (IsDelivered (Has st.kafka)) (map_rows f (table st.db))
        → (table d ≡ table st.db) ⊎ (table d ≡ map_rows f (table st.db))
        → IsBatch es st
        → IsBatch es (record st { db = d })
    updated-IsBatch es st d f h good (inl same) (delivered, r) = (
      subst (All (IsDelivered (Has st.kafka))) (sym same) delivered,
      subst (λ t. AreRowsOf t es) (sym same) r,
    )
    updated-IsBatch es st d f h good (inr made) (delivered, r) = (
      subst (All (IsDelivered (Has st.kafka))) (sym made) good,
      subst (λ t. AreRowsOf t es) (sym made) (map_rows-AreRowsOf f (table st.db) h es r),
    )

    mark_failed-IsBatch :
        (es : List Event) (id : String) (e : Error) (st : OutboxState D K)
        → IsBatch es st
        → IsBatch es (mark_failed p ctx id e st).1
    unfolding mark_failed
    mark_failed-IsBatch es id e st b =
        logged (IsBatch es) (on_db (p.db.exec ctx failed_text (text (message e) ∷ text id ∷ []))) st
          updated
      where
        updated : IsBatch es (record st {
          db = (p.db.exec ctx failed_text (text (message e) ∷ text id ∷ []) st.db).1;
        })
        updated =
            updated-IsBatch es st _ (bumped (message e) id) (bumped_event (message e) id)
              (All-map_rows (IsDelivered (Has st.kafka)) (IsDelivered (Has st.kafka))
                (bumped (message e) id) (bumped-IsDelivered (Has st.kafka) (message e) id)
                (table st.db) b.0)
              (laws.failed_whole ctx (message e) id st.db) b

    mark_sent-IsBatch :
        (es : List Event) (e : Event) (st : OutboxState D K)
        → Has st.kafka (message_of e)
        → All (IsRowOf e) (table st.db)
        → IsBatch es st
        → IsBatch es (mark_sent p ctx e.id st).1
    unfolding mark_sent
    mark_sent-IsBatch es e st h r b =
        logged (IsBatch es) (on_db (p.db.exec ctx sent_text (text e.id ∷ []))) st updated
      where
        updated : IsBatch es (record st { db = (p.db.exec ctx sent_text (text e.id ∷ []) st.db).1 })
        updated =
            updated-IsBatch es st _ (sent e.id) (sent_event e.id)
              (All-map_rows (λ row. IsDelivered (Has st.kafka) row × IsRowOf e row)
                (IsDelivered (Has st.kafka)) (sent e.id)
                (λ row (d, r). sent-IsDelivered (Has st.kafka) e row h d r) (table st.db)
                (All-both (IsDelivered (Has st.kafka)) (IsRowOf e)
                  (λ row. IsDelivered (Has st.kafka) row × IsRowOf e row) (λ row d r. (d, r))
                  (table st.db) b.0 r))
              (laws.sent_whole ctx e.id st.db) b

    publish_one-IsBatch :
        (es : List Event) (e : Event) (st : OutboxState D K)
        → All (IsRowOf e) (table st.db)
        → IsBatch es st
        → IsBatch es (publish_one p ctx e st).1
    unfolding publish_one
    publish_one-IsBatch es e st r b =
        handle_cases (λ _ st'. IsBatch es st') (send p ctx p.producer e) (mark_failed p ctx e.id)
          (λ _. mark_sent p ctx e.id) st
          (λ _ s' x.
            mark_sent-IsBatch es e s' (sends (ok tt) s' x).2
              (subst (λ d. All (IsRowOf e) (table d)) (sym (sends (ok tt) s' x).0) r)
              (kept-IsBatch es e st s' (ok tt) (sends (ok tt) s' x) b))
          (λ error s' x.
            mark_failed-IsBatch es e.id error s'
              (kept-IsBatch es e st s' (err error) (sends (err error) s' x) b))
          (λ s' x. kept-IsBatch es e st s' panic (sends panic s' x) b)
      where
        sends :
            (result : Result (Unit {0})) (s' : OutboxState D K)
            → send p ctx p.producer e st ≡ (result, s')
            → Sends e st result s'
        sends result s' x =
            subst (λ (x : Result (Unit {0}) × OutboxState D K). Sends e st x.0 x.1) x
              (send-Sends p.producer e st broker)

    publish_all-AreDelivered :
        (es : List Event) (st : OutboxState D K)
        → IsBatch es st
        → AreDelivered table Has (publish_all p ctx es st).1
    unfolding publish_all
    publish_all-AreDelivered [] st b = b.0
    publish_all-AreDelivered (e ∷ es) st b =
        handle_cases (λ _ st'. AreDelivered table Has st') (publish_one p ctx e) fail
          (λ _. publish_all p ctx es) st
          (λ _ s' x. publish_all-AreDelivered es s' (rest (ok tt) s' x))
          (λ error s' x. (rest (err error) s' x).0) (λ s' x. (rest panic s' x).0)
      where
        rest :
            (result : Result (Unit {0})) (s' : OutboxState D K)
            → publish_one p ctx e st ≡ (result, s')
            → IsBatch es s'
        rest result s' x =
            let (delivered, rows) = publish_one-IsBatch (e ∷ es) e st b.1.0 b in
            subst (IsBatch es) (ap (λ (x : Result (Unit {0}) × OutboxState D K). x.1) x)
              (delivered, rows.1)

    publish_batch-AreDelivered :
        (st : OutboxState D K)
        → AreDelivered table Has st
        → AreDelivered table Has (publish_batch p ctx st).1
    unfolding publish_batch
    publish_batch-AreDelivered st d =
        handle_cases (λ _ st'. AreDelivered table Has st') (fetch_pending p ctx) fail
          (publish_all p ctx) st
          (λ es s' x.
            let (same_kafka, same_table, found) = fetches (ok es) s' x in
            publish_all-AreDelivered es s' (
              unchanged (ok es) s' x,
              subst (λ t. AreRowsOf t es) (sym same_table)
                  (subst (AreRowsOf (table st.db)) (sym found) (
                    All-take (λ e. All (IsRowOf e) (table st.db)) p.batch_size
                      (pending (table st.db))
                      (pending-AreRowsOf (table st.db) (laws.keyed st.db)))),
            ))
          (λ error s' x. unchanged (err error) s' x) (λ s' x. unchanged panic s' x)
      where
        fetches :
            (result : Result (List Event)) (s' : OutboxState D K)
            → fetch_pending p ctx st ≡ (result, s')
            → Fetches p table ctx laws st result s'
        fetches result s' x =
            subst
              (λ (x : Result (List Event) × OutboxState D K). Fetches p table ctx laws st x.0 x.1) x
              (fetch_pending-Fetches p table ctx laws st)

        unchanged :
            (result : Result (List Event)) (s' : OutboxState D K)
            → fetch_pending p ctx st ≡ (result, s')
            → AreDelivered table Has s'
        unchanged result s' x =
            subst (λ k. All (IsDelivered (Has k)) (table s'.db)) (sym (fetches result s' x).0)
              (subst (All (IsDelivered (Has st.kafka))) (sym (fetches result s' x).1) d)

    pub on_tick-AreDelivered :
        (st : OutboxState D K)
        → AreDelivered table Has st
        → AreDelivered table Has (on_tick p ctx st).1
    unfolding on_tick
    on_tick-AreDelivered st d =
        logged (AreDelivered table Has) (publish_batch p ctx) st (publish_batch-AreDelivered st d)
