-- ===== src/Outbox/Draining.antt =====
-- internal/outbox/publisher.go, where PostgreSQL and Kafka answer.
use shop_catalog_service.Common.{
  true, false, eq_iff, true, Bool, str_eq, ℕ, zero, suc, ◌*◌, ◌≤◌, arith, ◌≡◌, refl, sym, ap, ◌∙◌,
  inl, inr, Option, none, some, List, [], ◌∷◌, ◌++◌,
}
use shop_catalog_service.Common.Lists.{length-drop, All, take, drop, length}
use shop_catalog_service.Exec.{fail, Result, ok, err, panic, pure, fail}
use shop_catalog_service.Repository.{Context}
use shop_catalog_service.Postgres.Statement.{text, int}
use shop_catalog_service.Outbox.Table.{select, pending, Row, Event}
use shop_catalog_service.Outbox.{
  scan_events, pending_text, mark_failed, sent_text, publish_batch, publish_all, on_tick,
  fetch_pending, Publisher, OutboxState, Signal, tick, done, run, go_on, on_db, send, mark_sent,
  publish_one,
}
use shop_catalog_service.Outbox.Environment.{message_of, Acknowledges, Answers, IsOutboxTable}
use shop_catalog_service.Events.{Message, raw_message, publish_raw, Producer}
use mathlib.Core.Path.{subst}
use shop_catalog_service.Exec.Ensures.{handle_ok}
use shop_catalog_service.Outbox.Fetch.{scan_events_all, fetch_pending-Fetches}
use shop_catalog_service.Outbox.Pending.{without-first, pending-sent}
use shop_catalog_service.Common.Int.{pos}
use shop_catalog_service.Outbox.Invariant.{on_tick-AreDelivered, AreDelivered, WritesTo}
use shop_catalog_service.Outbox.Delivery.{IsDelivered}

-- There is a producer, and the broker acknowledges each of its messages.
abbrev IsAcknowledged : {K : Type 0} → Option (Producer K) → Type 0
IsAcknowledged none = ⊥
IsAcknowledged (some producer) = Acknowledges producer

-- A row that does not wait is sent.
abbrev pub IsSent : {K : Type 0} → (K → Message → Type 0) → K → Row → Type 0
IsSent Has k row = (row.status ≡ "sent") × Has k (message_of row.event)

abbrev pub ticks : ℕ → List Signal
ticks zero = []
ticks (suc n) = tick ∷ ticks n

nothing_left : {A : Type 0} (xs : List A) → length xs ≤ 0 → xs ≡ []
nothing_left [] h = refl
nothing_left (x ∷ xs) h = absurd (omega (arith, h))

batch_off :
    {A : Type 0} (b n : ℕ) (xs : List A) → length xs ≤ suc n * b → length (drop b xs) ≤ n * b
batch_off b n xs h = omega (arith, h, length-drop b xs)

take-drop : {A : Type 0} (n : ℕ) (xs : List A) → take n xs ++ drop n xs ≡ xs
take-drop zero xs = refl
take-drop (suc n) [] = refl
take-drop (suc n) (x ∷ xs) = ap (λ ys. x ∷ ys) (take-drop n xs)

module _ {D K : Type 0} (p : Publisher D K) (table : D → List Row) (ctx : Context)
    (laws : IsOutboxTable p.db table) (answers : Answers p.db)
    (acknowledged : IsAcknowledged p.producer) where
  -- A call that succeeds and leaves these events waiting.
  abbrev Leaves : List Event → Result (Unit {0}) × OutboxState D K → Type 0
  Leaves es (r, st) = (r ≡ ok tt) × (pending (table st.db) ≡ es)

  send-done :
      (producer : Option (Producer K)) (e : Event) (st : OutboxState D K)
      → IsAcknowledged producer
      → ((send p ctx producer e st).0 ≡ ok tt) × ((send p ctx producer e st).1.db ≡ st.db)
  unfolding send publish_raw raw_message
  send-done none e st h = absurd h
  send-done (some producer) e st h = (h ctx (message_of e) st.kafka, refl)

  mark_sent-Leaves :
      (e : Event) (es : List Event) (st : OutboxState D K)
      → pending (table st.db) ≡ e ∷ es
      → Leaves es (mark_sent p ctx e.id st)
  unfolding mark_sent
  mark_sent-Leaves e es st h =
      subst (Leaves es)
        (sym (
          handle_ok (on_db (p.db.exec ctx sent_text (text e.id ∷ []))) (λ _. pure tt) pure st tt
            (answers.marked ctx e.id st.db)))
        (
          refl,
          ap pending (laws.sent_done ctx e.id st.db (answers.marked ctx e.id st.db))
              ∙ pending-sent e.id (table st.db)
              ∙ without-first (table st.db) e es (laws.keyed st.db) h,
        )

  publish_one-Leaves :
      (e : Event) (es : List Event) (st : OutboxState D K)
      → pending (table st.db) ≡ e ∷ es
      → Leaves es (publish_one p ctx e st)
  unfolding publish_one
  publish_one-Leaves e es st h =
      let (sent, same) = send-done p.producer e st acknowledged in
      subst (Leaves es)
        (sym (
          handle_ok (send p ctx p.producer e) (mark_failed p ctx e.id) (λ _. mark_sent p ctx e.id)
            st tt sent))
        (mark_sent-Leaves e es (send p ctx p.producer e st).1
          (ap (λ d. pending (table d)) same ∙ h))

  publish_all-Leaves :
      (es rest : List Event) (st : OutboxState D K)
      → pending (table st.db) ≡ es ++ rest
      → Leaves rest (publish_all p ctx es st)
  unfolding publish_all
  publish_all-Leaves [] rest st h = (refl, h)
  publish_all-Leaves (e ∷ es) rest st h =
      let (published, left) = publish_one-Leaves e (es ++ rest) st h in
      subst (Leaves rest)
        (sym (handle_ok (publish_one p ctx e) fail (λ _. publish_all p ctx es) st tt published))
        (publish_all-Leaves es rest (publish_one p ctx e st).1 left)

  fetched :
      (st : OutboxState D K)
      → (fetch_pending p ctx st).0 ≡ ok (take p.batch_size (pending (table st.db)))
  unfolding fetch_pending
  fetched st =
      let (s, queried, whole) = answers.queried ctx p.batch_size st.db in
      ap (λ (x : Result (List Event) × OutboxState D K). x.0)
        (handle_ok (on_db (p.db.query ctx pending_text (int (pos p.batch_size) ∷ []))) _ _ st s
          queried)
      ∙ ap (λ end. scan_events end s.rows []) whole
      ∙ ap (λ rows. scan_events none rows [])
          (laws.query_rows ctx p.batch_size st.db s queried whole)
      ∙ scan_events_all (take p.batch_size (pending (table st.db))) []

  publish_batch-Leaves :
      (st : OutboxState D K)
      → Leaves (drop p.batch_size (pending (table st.db))) (publish_batch p ctx st)
  unfolding publish_batch
  publish_batch-Leaves st =
      subst (Leaves (drop p.batch_size (pending (table st.db))))
        (sym (handle_ok (fetch_pending p ctx) fail (publish_all p ctx) st _ (fetched st)))
        (publish_all-Leaves (take p.batch_size (pending (table st.db))) _ (fetch_pending p ctx st).1
          (ap pending (fetch_pending-Fetches p table ctx laws st).1
            ∙ sym (take-drop p.batch_size (pending (table st.db)))))

  on_tick-Leaves :
      (st : OutboxState D K) → Leaves (drop p.batch_size (pending (table st.db))) (on_tick p ctx st)
  unfolding on_tick
  on_tick-Leaves st =
      let (published, left) = publish_batch-Leaves st in
      subst (Leaves (drop p.batch_size (pending (table st.db))))
        (sym (handle_ok (publish_batch p ctx) (λ _. pure tt) pure st tt published)) (refl, left)

  go_on_ok :
      (r : Result (Unit {0})) (st : OutboxState D K)
      (rest : Option (Result (Unit {0})) × OutboxState D K)
      → r ≡ ok tt
      → go_on r st rest ≡ rest
  go_on_ok r st rest h = rw h refl

  -- Every tick takes a batch off.
  run-ticks :
      (n : ℕ) (st : OutboxState D K)
      → length (pending (table st.db)) ≤ n * p.batch_size
      → ((run p ctx (ticks n) st).0 ≡ none) × (pending (table (run p ctx (ticks n) st).1.db) ≡ [])
  unfolding run
  run-ticks zero st h = (refl, nothing_left (pending (table st.db)) (omega (arith, h)))
  run-ticks (suc n) st h =
      let (ticked, left) = on_tick-Leaves st in
      subst
        (λ (x : Option (Result (Unit {0})) × OutboxState D K).
          (x.0 ≡ none) × (pending (table x.1.db) ≡ []))
        (sym (
          go_on_ok (on_tick p ctx st).0 (on_tick p ctx st).1
            (run p ctx (ticks n) (on_tick p ctx st).1) ticked))
        (run-ticks n (on_tick p ctx st).1 (
          subst (λ es. length es ≤ n * p.batch_size) (sym left)
            (batch_off p.batch_size n (pending (table st.db)) h)))

  module _ (Has : K → Message → Type 0) (broker : WritesTo Has p.producer) where
    run-AreDelivered :
        (signals : List Signal) (st : OutboxState D K)
        → AreDelivered table Has st
        → AreDelivered table Has (run p ctx signals st).1
    unfolding run
    run-AreDelivered [] st d = d
    run-AreDelivered (done ∷ signals) st d = d
    run-AreDelivered (tick ∷ signals) st d =
        let ticked = on_tick-AreDelivered p table Has ctx laws broker st d in
        goes_on (on_tick p ctx st).1 (on_tick p ctx st).0 (run p ctx signals (on_tick p ctx st).1)
          ticked (run-AreDelivered signals (on_tick p ctx st).1 ticked)
      where
        goes_on :
            (st' : OutboxState D K) (result : Result (Unit {0}))
            (rest : Option (Result (Unit {0})) × OutboxState D K)
            → AreDelivered table Has st'
            → AreDelivered table Has rest.1
            → AreDelivered table Has (go_on result st' rest).1
        goes_on st' (ok _) rest h k = k
        goes_on st' (err _) rest h k = k
        goes_on st' panic rest h k = h

    taken : (e : Event) (es : List Event) (c : Bool) → c ≡ true → select c e es ≡ [] → ⊥
    taken e es true x h = cc
    taken e es false x h = cc

    nothing_waits :
        (k : K) (t : List Row) → pending t ≡ [] → All (IsDelivered (Has k)) t → All (IsSent Has k) t
    nothing_waits k [] h _ = tt
    nothing_waits k (row ∷ t) h (inl waits, d) = absurd (
        taken row.event (pending t) (str_eq row.status "pending")
          ((eq_iff row.status "pending").1 waits) h)
    nothing_waits k (row ∷ t) h (inr sent, d) = (
      sent,
      nothing_waits k t
          (subst (λ c. select c row.event (pending t) ≡ []) (ap (λ s. str_eq s "pending") sent.0) h)
          d,
    )

    -- Run, where PostgreSQL answers every statement and Kafka acknowledges every message: after as
    -- many ticks as there are batches of waiting events, the loop still goes on, no event waits, and
    -- each row is marked as sent with its message in the broker's log, if each row was waiting or so
    -- sent before.
    pub run-IsSent :
        (n : ℕ) (st : OutboxState D K)
        → length (pending (table st.db)) ≤ n * p.batch_size
        → AreDelivered table Has st
        → ((run p ctx (ticks n) st).0 ≡ none)
          × (pending (table (run p ctx (ticks n) st).1.db) ≡ [])
          × All (IsSent Has (run p ctx (ticks n) st).1.kafka) (table (run p ctx (ticks n) st).1.db)
    run-IsSent n st h d =
        let (on, empty) = run-ticks n st h in
        (
          on,
          empty,
          nothing_waits (run p ctx (ticks n) st).1.kafka (table (run p ctx (ticks n) st).1.db) empty
              (run-AreDelivered (ticks n) st d),
        )
