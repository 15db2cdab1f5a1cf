-- ===== src/Postgres/Writes.antt =====
-- The three writes of internal/repository/postgres/product_repository.go and the outbox.
use shop_catalog_service.Exec.Ensures.{handle_cases}
use shop_catalog_service.Outbox.Table.{Event, Row, pending_row}
use shop_catalog_service.Postgres.{
  stock_error, not_found_error, create_error, insert_args, Sql, World, PostgresRepository, PgState,
  Columns, product_event, scan_product, insert_outbox_event, write_row, deferred, finish,
  in_transaction, committed, draw, on_db,
}
use shop_catalog_service.Postgres
use shop_catalog_service.Postgres.Transaction.{
  restocks, updates, inserts, IsPostgres, IsProductStatement,
}
use shop_catalog_service.Domain.{Product}
use shop_catalog_service.Common.{
  refl, inr, ◌∙◌, ap, sym, ◌⊎◌, inl, [], ◌+◌, ◌∷◌, ◌++◌, ◌≡◌, List, ℕ, String,
}
use shop_catalog_service.Postgres.Outcome.{
  Write, creating, updating, restocking, event_type_of, Announced, IsOutcome, run_write,
}
use shop_catalog_service.Repository.{Context}
use shop_catalog_service.Exec.{pure, fail, panic, err, lift, ok, Result, Exec}
use mathlib.Core.Path.{subst}
use shop_catalog_service.Postgres.Statement.{
  int, update_args, stock_text, update_text, insert_text, bytes, text, SqlValue, outbox_text,
}
use shop_catalog_service.Errors.{Error}

module _ {D T : Type 0} (world : World) (r : PostgresRepository D T) (ctx : Context) where
  module _ (after : T → D) (outbox : D → List Row) (jsonb : String → String)
      (laws : IsPostgres r.db after outbox jsonb) where
    abbrev AnnouncedBy : String → Product → List Row → Result (Unit {0}) → PgState T → Type 0
    AnnouncedBy event_type p rows (ok _) st =
        Announced world jsonb event_type p rows (outbox (after st.db))
    AnnouncedBy event_type p rows (err e) st = Unit
    AnnouncedBy event_type p rows panic st = Unit

    -- The row of the event that is inserted.
    abbrev event_of : ℕ → String → Product → String → Event
    event_of k event_type p payload = record {
      id = world.uuid k;
      topic = "catalog.products.v1";
      message_key = p.id;
      event_type = event_type;
      payload = payload;
    }

    insert_outbox_event_lem :
        (event_type : String) (p : Product) (st : PgState T)
        → let (result, st') = insert_outbox_event world r ctx event_type p st in
          AnnouncedBy event_type p (outbox (after st.db)) result st'
    unfolding insert_outbox_event product_event
    insert_outbox_event_lem event_type p st =
        handle_cases (AnnouncedBy event_type p (outbox (after st.db)))
          (lift (world.marshal_event (product_event world st.drawn (st.drawn + 1) event_type p))) _
          _ _
          (λ payload s' e.
            let event = event_of st.drawn event_type p payload in
            handle_cases (AnnouncedBy event_type p (outbox (after st.db)))
              (on_db (
                r.db.tx_exec ctx outbox_text (
                  text event.id
                  ∷ text event.topic
                  ∷ text event.message_key
                  ∷ text event.event_type
                  ∷ bytes event.payload
                  ∷ [])))
              _ _ s'
              (λ _ s'' done. (
                record event { payload = jsonb payload },
                record {
                  event = product_event world st.drawn (st.drawn + 1) event_type p;
                  product_id = refl;
                  sku = refl;
                  name = refl;
                  price_cents = refl;
                  currency = refl;
                  stock = refl;
                  active = refl;
                  same_id = refl;
                  same_type = refl;
                  drawn = st.drawn;
                  id = refl;
                  at = st.drawn + 1;
                  time = refl;
                  encoded = payload;
                  marshalled = ap (λ (x : Result String × PgState T). x.0) e;
                  payload = refl;
                  topic = refl;
                  key = refl;
                  event_type_lem = refl;
                },
                ap (λ (x : Result (Unit {0}) × PgState T). outbox (after x.1.db)) (sym done)
                    ∙ laws.insert_event ctx event s'.db
                        (ap (λ (x : Result (Unit {0}) × PgState T). x.0) done)
                    ∙ ap
                        (λ (x : Result String × PgState T).
                          outbox (after x.1.db)
                          ++ pending_row (record event { payload = jsonb payload }) ∷ [])
                        (sym e),
              ))
              (λ _ _ _. tt) (λ _ _. tt))
          (λ e s' _. tt) (λ s' _. tt)

    -- The same of a transaction's whole body, which returns the product that it announces.
    abbrev AnnouncedAs : String → List Row → Result Product → PgState T → Type 0
    AnnouncedAs event_type rows (ok p) st =
        Announced world jsonb event_type p rows (outbox (after st.db))
    AnnouncedAs event_type rows (err e) st = Unit
    AnnouncedAs event_type rows panic st = Unit

    write_row_lem :
        (statement : String) (args : List SqlValue) (on_error : Error → Error) (event_type : String)
        (st : PgState T)
        → IsProductStatement statement
        → let (result, st') = write_row world r ctx statement args on_error event_type st in
          AnnouncedAs event_type (outbox (after st.db)) result st'
    unfolding write_row
    write_row_lem statement args on_error event_type st h =
        handle_cases (AnnouncedAs event_type (outbox (after st.db)))
          (on_db (r.db.tx_query_row ctx statement args)) _ _ st
          (λ row s' e.
            let p = scan_product row in
            let same : outbox (after s'.db) ≡ outbox (after st.db) =
              ap (λ (x : Result Columns × PgState T). outbox (after x.1.db)) (sym e)
              ∙ laws.product_statement ctx statement args st.db h in
            handle_cases (AnnouncedAs event_type (outbox (after st.db)))
              (insert_outbox_event world r ctx event_type p) fail (λ _. pure p) s'
              (λ _ s'' done.
                subst (λ rows. Announced world jsonb event_type p rows (outbox (after s''.db))) same
                  (subst
                    (λ (x : Result (Unit {0}) × PgState T).
                      AnnouncedBy event_type p (outbox (after s'.db)) x.0 x.1)
                    done (insert_outbox_event_lem event_type p s')))
              (λ _ _ _. tt) (λ _ _. tt))
          (λ _ _ _. tt) (λ _ _. tt)

    deferred_lem :
        (event_type : String) (t : T) (result : Result Product) (st : PgState D) (d : D)
        → IsOutcome world jsonb outbox event_type result d st.db
        → let (result', st') = deferred world r t result st in
          IsOutcome world jsonb outbox event_type result' d st'.db
    unfolding deferred
    deferred_lem event_type t result st d h =
        subst (λ x. IsOutcome world jsonb outbox event_type result d x)
          (sym (laws.rollback_same t st.db)) h

    whole_or_nothing :
        (event_type : String) (p : Product) (tx : PgState T) (d d' : D)
        → (r.db.commit tx.db d).1 ≡ d'
        → Announced world jsonb event_type p (outbox d) (outbox (after tx.db))
        → (d' ≡ d) ⊎ ((p : Product) × Announced world jsonb event_type p (outbox d) (outbox d'))
    whole_or_nothing event_type p tx d d' e h = elim (laws.commit_whole tx.db d) [
      | inl nothing ↦ inl (sym e ∙ nothing)
      | inr whole ↦ inr (
        p,
        subst (λ x. Announced world jsonb event_type p (outbox d) (outbox x)) (sym whole ∙ e) h,
      )
    ]

    committed_lem :
        (context event_type : String) (p : Product) (tx : PgState T) (d : D) (c : Result (Unit {0}))
        (d' : D)
        → r.db.commit tx.db d ≡ (c, d')
        → Announced world jsonb event_type p (outbox d) (outbox (after tx.db))
        → IsOutcome world jsonb outbox event_type (committed context p c) d d'
    committed_lem context event_type p tx d (ok _) d' e h =
        subst (λ x. Announced world jsonb event_type p (outbox d) (outbox x))
          (sym (laws.commit_done tx.db d (ap (λ (x : Result (Unit {0}) × D). x.0) e))
            ∙ ap (λ (x : Result (Unit {0}) × D). x.1) e)
          h
    committed_lem context event_type p tx d (err x) d' e h =
        whole_or_nothing event_type p tx d d' (ap (λ (x : Result (Unit {0}) × D). x.1) e) h
    committed_lem context event_type p tx d panic d' e h =
        whole_or_nothing event_type p tx d d' (ap (λ (x : Result (Unit {0}) × D). x.1) e) h

    finish_lem :
        (context event_type : String) (result : Result Product) (tx : PgState T) (st : PgState D)
        → AnnouncedAs event_type (outbox st.db) result tx
        → let (result', st') = finish world r context result tx st in
          IsOutcome world jsonb outbox event_type result' st.db st'.db
    unfolding finish
    finish_lem context event_type (ok p) tx st h =
        deferred_lem event_type tx.db _
          (record { db = (r.db.commit tx.db st.db).1; drawn = tx.drawn }) st.db
          (committed_lem context event_type p tx st.db (r.db.commit tx.db st.db).0
            (r.db.commit tx.db st.db).1 refl h)
    finish_lem context event_type (err e) tx st h =
        deferred_lem event_type tx.db (err e) (record st { drawn = tx.drawn }) st.db (inl refl)
    finish_lem context event_type panic tx st h =
        deferred_lem event_type tx.db panic (record st { drawn = tx.drawn }) st.db (inl refl)

    in_transaction_lem :
        (context event_type : String) (body : Exec (PgState T) Product) (st : PgState D)
        → ((tx : PgState T) → AnnouncedAs event_type (outbox (after tx.db)) (body tx).0 (body tx).1)
        → let (result, st') = in_transaction world r ctx context body st in
          IsOutcome world jsonb outbox event_type result st.db st'.db
    unfolding in_transaction
    in_transaction_lem context event_type body st h =
        handle_cases (λ result st'. IsOutcome world jsonb outbox event_type result st.db st'.db)
          (on_db (r.db.begin_tx ctx)) fail _ st
          (λ t s' e.
            let before : s'.db ≡ st.db =
              ap (λ (x : Result T × PgState D). x.1.db) (sym e) ∙ laws.begin_same ctx st.db in
            let start : after t ≡ s'.db =
              laws.begin_after ctx st.db t (ap (λ (x : Result T × PgState D). x.0) e)
              ∙ sym before in
            let tx : PgState T = record { db = t; drawn = s'.drawn } in
            subst
              (λ d.
                IsOutcome world jsonb outbox event_type
                  (finish world r context (body tx).0 (body tx).1 s').0 d
                  (finish world r context (body tx).0 (body tx).1 s').1.db)
              before
              (finish_lem context event_type (body tx).0 (body tx).1 s' (
                subst (λ d. AnnouncedAs event_type (outbox d) (body tx).0 (body tx).1) start
                  (h tx))))
          (λ x s' e.
            inl (ap (λ (x : Result T × PgState D). x.1.db) (sym e) ∙ laws.begin_same ctx st.db))
          (λ s' e.
            inl (ap (λ (x : Result T × PgState D). x.1.db) (sym e) ∙ laws.begin_same ctx st.db))

    -- Create, Update and UpdateStock: where a write returns a product, the table of events has one
    -- more row than before, whose payload is the JSON of an event with the fields of just this product,
    -- under the type of the write, and whose key is the product's id; where it
    -- fails, the database is as before, or the table of events has one more row, that announces a
    -- product under this type, as when COMMIT fails after it was applied. PostgreSQL must keep its
    -- documented promises.
    pub run_write-IsOutcome :
        (w : Write) (st : PgState D)
        → let (result, st') = run_write world r ctx w st in
          IsOutcome world jsonb outbox (event_type_of w) result st.db st'.db
    unfolding run_write Postgres.create Postgres.update Postgres.update_stock
    run_write-IsOutcome (creating cmd) st =
        in_transaction_lem "commit create product transaction: " "product.created" _ st (λ tx.
          write_row_lem insert_text (insert_args world tx.drawn cmd) create_error "product.created"
            (record tx { drawn = tx.drawn + 1 }) (inserts refl))
    run_write-IsOutcome (updating cmd) st =
        in_transaction_lem "commit update product transaction: " "product.updated" _ st (λ tx.
          write_row_lem (update_text cmd) (update_args cmd) not_found_error "product.updated" tx
            (updates cmd refl))
    run_write-IsOutcome (restocking id delta) st =
        in_transaction_lem "commit update stock transaction: " "stock.changed" _ st (λ tx.
          write_row_lem stock_text (int delta ∷ text id ∷ []) stock_error "stock.changed" tx
            (restocks refl))
