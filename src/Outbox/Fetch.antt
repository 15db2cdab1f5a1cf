-- ===== src/Outbox/Fetch.antt =====
-- fetchPending of internal/outbox/publisher.go and the table of events.
use shop_catalog_service.Common.{◌≡◌, refl, sym, ap, ◌∙◌, Option, none, some, List, [], ◌∷◌, ◌++◌}
use mathlib.Core.List.{append_assoc, append-nil}
use shop_catalog_service.Outbox.Table.{pending, map_rows, Row, Event}
use shop_catalog_service.Outbox.{
  EventSet, pending_text, scan_events, Publisher, OutboxState, on_db, fetch_pending,
}
use shop_catalog_service.Errors.{Error}
use shop_catalog_service.Repository.{Context}
use shop_catalog_service.Exec.{panic, err, ok, Result}
use shop_catalog_service.Outbox.Environment.{IsOutboxTable}
use shop_catalog_service.Exec.Ensures.{Post-nothing, Post, handle_cases}
use shop_catalog_service.Common.Lists.{take}
use shop_catalog_service.Postgres.Statement.{int}
use shop_catalog_service.Common.Int.{pos}

pub scan_events_all : (es acc : List Event) → scan_events none (map_rows ok es) acc ≡ ok (acc ++ es)
unfolding scan_events
scan_events_all [] acc = ap ok (sym (append-nil acc))
scan_events_all (e ∷ es) acc =
    scan_events_all es (acc ++ e ∷ []) ∙ ap ok (append_assoc acc (e ∷ []) es)

scan_events_error :
    (e : Error) (rows : List (Result Event)) (acc : List Event)
    → Post (λ _. ⊥) (scan_events (some e) rows acc)
unfolding scan_events
scan_events_error e [] acc = tt
scan_events_error e (ok event ∷ rows) acc = scan_events_error e rows (acc ++ event ∷ [])
scan_events_error e (err x ∷ rows) acc = tt
scan_events_error e (panic ∷ rows) acc = tt

scan_events_lem :
    (end : Option Error) (rows : List (Result Event)) (es : List Event)
    → (end ≡ none → rows ≡ map_rows ok es)
    → Post (λ found. found ≡ es) (scan_events end rows [])
scan_events_lem none rows es h = rw (h refl) (rw (scan_events_all es []) refl)
scan_events_lem (some e) rows es h =
    Post-nothing (λ found. found ≡ es) (scan_events (some e) rows []) (scan_events_error e rows [])

module _ {D K : Type 0} (p : Publisher D K) (table : D → List Row) (ctx : Context)
    (laws : IsOutboxTable p.db table) where
  -- The state is as before, and the events are the first that wait.
  abbrev pub Fetches : OutboxState D K → Result (List Event) → OutboxState D K → Type 0
  Fetches st result st' =
      (st'.kafka ≡ st.kafka)
      × (table st'.db ≡ table st.db)
      × Post (λ es. es ≡ take p.batch_size (pending (table st.db))) result

  pub fetch_pending-Fetches :
      (st : OutboxState D K) → Fetches st (fetch_pending p ctx st).0 (fetch_pending p ctx st).1
  unfolding fetch_pending
  fetch_pending-Fetches st =
      handle_cases (Fetches st) (on_db (p.db.query ctx pending_text (int (pos p.batch_size) ∷ [])))
        _ _ st
        (λ s s' e. (
          same_kafka e,
          same_table e,
          scan_events_lem s.end_error s.rows (take p.batch_size (pending (table st.db))) (
              laws.query_rows ctx p.batch_size st.db s
                (ap (λ (x : Result EventSet × OutboxState D K). x.0) e)),
        ))
        (λ x s' e. (same_kafka e, same_table e, tt)) (λ s' e. (same_kafka e, same_table e, tt))
    where
      called : Result EventSet × OutboxState D K
      called = on_db (p.db.query ctx pending_text (int (pos p.batch_size) ∷ [])) st

      same_kafka :
          {r : Result EventSet} {s' : OutboxState D K} → called ≡ (r, s') → s'.kafka ≡ st.kafka
      same_kafka e = ap (λ (x : Result EventSet × OutboxState D K). x.1.kafka) (sym e)

      same_table :
          {r : Result EventSet} {s' : OutboxState D K}
          → called ≡ (r, s')
          → table s'.db ≡ table st.db
      same_table e =
          ap (λ (x : Result EventSet × OutboxState D K). table x.1.db) (sym e)
          ∙ laws.query_same ctx p.batch_size st.db
