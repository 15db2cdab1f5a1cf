-- ===== src/Outbox/Refusal.antt =====
-- internal/outbox/publisher.go, where the broker refuses messages.
use shop_catalog_service.Common.{
  String, ◌≡◌, refl, sym, ap, ◌∙◌, inl, inr, Option, none, some, List, [], ◌∷◌,
}
use shop_catalog_service.Common.Lists.{All, take}
use shop_catalog_service.Exec.{fail, Result, ok, err, panic}
use shop_catalog_service.Postgres.Statement.{text}
use shop_catalog_service.Repository.{Context}
use shop_catalog_service.Outbox.Table.{pending, Row, Event}
use shop_catalog_service.Outbox.{
  failed_text, mark_sent, fetch_pending, send, on_tick, publish_all, mark_failed, publish_batch,
  publish_one, Publisher, OutboxState, Signal, tick, done, run, go_on, on_db,
}
use shop_catalog_service.Events.{raw_message, publish_raw, Producer}
use shop_catalog_service.Outbox.Environment.{message_of, Rejects, IsOutboxTable}
use mathlib.Core.Path.{subst}
use shop_catalog_service.Exec.Ensures.{handle_cases, logged}
use shop_catalog_service.Outbox.Fetch.{fetch_pending-Fetches, Fetches}
use shop_catalog_service.Errors.{message, Error}
use shop_catalog_service.Outbox.Pending.{pending-bumped}

-- The broker answers the event's message with an error, always.
abbrev IsRefused : {K : Type 0} → Option (Producer K) → Event → Type 0
IsRefused none e = ⊥
IsRefused (some producer) e = Rejects producer (message_of e)

module _ {D K : Type 0} (p : Publisher D K) (table : D → List Row) (ctx : Context)
    (laws : IsOutboxTable p.db table) where
  abbrev Waits : OutboxState D K → OutboxState D K → Type 0
  Waits st st' = pending (table st'.db) ≡ pending (table st.db)

  mark_failed-Waits :
      (id : String) (e : Error) (st : OutboxState D K) → Waits st (mark_failed p ctx id e st).1
  unfolding mark_failed
  mark_failed-Waits id e st =
      logged (Waits st) (on_db (p.db.exec ctx failed_text (text (message e) ∷ text id ∷ []))) st
        (elim (laws.failed_whole ctx (message e) id st.db) [
          | inl same ↦ ap pending same
          | inr made ↦ ap pending made ∙ pending-bumped (message e) id (table st.db)
        ])

  -- A write that is answered with an error, the database unchanged.
  abbrev Fails : OutboxState D K → Result (Unit {0}) → OutboxState D K → Type 0
  Fails st (ok _) st' = ⊥
  Fails st (err e) st' = st'.db ≡ st.db
  Fails st panic st' = ⊥

  send-Fails :
      (producer : Option (Producer K)) (e : Event) (st : OutboxState D K)
      → IsRefused producer e
      → Fails st (send p ctx producer e st).0 (send p ctx producer e st).1
  unfolding send publish_raw raw_message
  send-Fails none e st h = absurd h
  send-Fails (some producer) e st h =
      let (error, x) = h ctx st.kafka in
      subst
        (λ result.
          Fails st result
            (record st { kafka = (producer.write_messages ctx (message_of e) st.kafka).1 }))
        (sym x) refl

  publish_one-Waits :
      (e : Event) (st : OutboxState D K)
      → IsRefused p.producer e
      → Waits st (publish_one p ctx e st).1
  unfolding publish_one
  publish_one-Waits e st h =
      handle_cases (λ _ st'. Waits st st') (send p ctx p.producer e) (mark_failed p ctx e.id)
        (λ _. mark_sent p ctx e.id) st (λ _ s' x. absurd (fails (ok tt) s' x))
        (λ error s' x.
          mark_failed-Waits e.id error s' ∙ ap (λ d. pending (table d)) (fails (err error) s' x))
        (λ s' x. absurd (fails panic s' x))
    where
      fails :
          (result : Result (Unit {0})) (s' : OutboxState D K)
          → send p ctx p.producer e st ≡ (result, s')
          → Fails st result s'
      fails result s' x =
          subst (λ (x : Result (Unit {0}) × OutboxState D K). Fails st x.0 x.1) x
            (send-Fails p.producer e st h)

  publish_all-Waits :
      (es : List Event) (st : OutboxState D K)
      → All (IsRefused p.producer) es
      → Waits st (publish_all p ctx es st).1
  unfolding publish_all
  publish_all-Waits [] st h = refl
  publish_all-Waits (e ∷ es) st (h, hs) =
      handle_cases (λ _ st'. Waits st st') (publish_one p ctx e) fail (λ _. publish_all p ctx es) st
        (λ _ s' x. publish_all-Waits es s' hs ∙ one x) (λ error s' x. one x) (λ s' x. one x)
    where
      one :
          {result : Result (Unit {0})} {s' : OutboxState D K}
          → publish_one p ctx e st ≡ (result, s')
          → Waits st s'
      one x =
          subst (λ (x : Result (Unit {0}) × OutboxState D K). Waits st x.1) x
            (publish_one-Waits e st h)

  abbrev AreRefused : OutboxState D K → Type 0
  AreRefused st = All (IsRefused p.producer) (take p.batch_size (pending (table st.db)))

  publish_batch-Waits : (st : OutboxState D K) → AreRefused st → Waits st (publish_batch p ctx st).1
  unfolding publish_batch
  publish_batch-Waits st h =
      handle_cases (λ _ st'. Waits st st') (fetch_pending p ctx) fail (publish_all p ctx) st
        (λ es s' x.
          publish_all-Waits es s' (subst (All (IsRefused p.producer)) (sym (fetches x).2) h)
          ∙ ap pending (fetches x).1)
        (λ error s' x. ap pending (fetches x).1) (λ s' x. ap pending (fetches x).1)
    where
      fetches :
          {result : Result (List Event)} {s' : OutboxState D K}
          → fetch_pending p ctx st ≡ (result, s')
          → Fetches p table ctx laws st result s'
      fetches x =
          subst (λ (x : Result (List Event) × OutboxState D K). Fetches p table ctx laws st x.0 x.1)
            x (fetch_pending-Fetches p table ctx laws st)

  on_tick-Waits : (st : OutboxState D K) → AreRefused st → Waits st (on_tick p ctx st).1
  unfolding on_tick
  on_tick-Waits st h = logged (Waits st) (publish_batch p ctx) st (publish_batch-Waits st h)

  go_on-Waits :
      (st st' : OutboxState D K) (result : Result (Unit {0}))
      (rest : Option (Result (Unit {0})) × OutboxState D K)
      → Waits st st'
      → Waits st rest.1
      → Waits st (go_on result st' rest).1
  go_on-Waits st st' (ok _) rest h k = k
  go_on-Waits st st' (err _) rest h k = k
  go_on-Waits st st' panic rest h k = h

  -- Run, with the first batch of waiting events all refused by the broker: whatever signals come,
  -- the same events wait in the same order. No row is given up after some number of attempts.
  pub run-Waits :
      (signals : List Signal) (st : OutboxState D K)
      → All (IsRefused p.producer) (take p.batch_size (pending (table st.db)))
      → pending (table (run p ctx signals st).1.db) ≡ pending (table st.db)
  unfolding run
  run-Waits [] st h = refl
  run-Waits (done ∷ signals) st h = refl
  run-Waits (tick ∷ signals) st h =
      let one : Waits st (on_tick p ctx st).1 = on_tick-Waits st h in
      go_on-Waits st (on_tick p ctx st).1 (on_tick p ctx st).0
        (run p ctx signals (on_tick p ctx st).1) one
        (run-Waits signals (on_tick p ctx st).1
            (subst (λ es. All (IsRefused p.producer) (take p.batch_size es)) (sym one) h)
          ∙ one)
