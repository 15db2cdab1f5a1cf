-- ===== src/Postgres/Source.antt =====
-- The reads of internal/repository/postgres/product_repository.go, as what the cached repository asks of
-- the next one.
use shop_catalog_service.Common.{
  if◌then◌else◌, false, true, str_eq, eq_refl, ◌⊎◌, inr, inl, Bool-cases, ◌≡◌, refl, sym, ap, ◌∙◌,
  String, Option, none, some, List, [], ◌∷◌, ◌++◌,
}
use mathlib.Core.List.{append_assoc, append-nil}
use mathlib.Core.Path.{subst}
use shop_catalog_service.Common.Int.{pos_part, ℤ, pos, ltb_ℤ}
use shop_catalog_service.Errors.{product_not_found, no_rows, error_is, Error}
use shop_catalog_service.Exec.{Result, ok, err, panic}
use shop_catalog_service.Exec.Ensures.{Post, Post-nothing, handle_cases}
use shop_catalog_service.Domain.{Product}
use shop_catalog_service.Repository.{Context}
use shop_catalog_service.Outbox.Table.{map_rows}
use shop_catalog_service.Cached.Coherence.{IsSource}
use shop_catalog_service.Postgres.Statement.{text, int, get_text, list_text}
use shop_catalog_service.Postgres.{
  Sql, World, PostgresRepository, PgState, Columns, RowSet, on_db, scan_product, scan_rows,
  not_found_error,
}
use shop_catalog_service.Common.Lists.{drop, All, take}
use shop_catalog_service.Postgres

-- The eight columns that the SELECTs name, in their order, of a product's row.
abbrev pub columns_of : Product → Columns
columns_of p = (p.id, p.sku, p.name, p.description, p.price_cents, p.currency, p.stock, p.active)

-- The SELECT of a product's row by its id, and that of a page: $1 is its limit and $2 its offset.
abbrev row_query : String
row_query =
    "SELECT id, sku, name, description, price_cents, currency, stock, active FROM products WHERE id = $1"

abbrev page_query : String
page_query =
    "SELECT id, sku, name, description, price_cents, currency, stock, active FROM products ORDER BY id LIMIT $1 OFFSET $2"

-- PRIMARY KEY: no two rows have one id.
abbrev pub PrimaryKey : List Product → Type 0
PrimaryKey [] = Unit
PrimaryKey (p ∷ ps) = All (λ (q : Product). str_eq q.id p.id ≡ false) ps × PrimaryKey ps

abbrev pub HasRow : Product → List Product → Type 0
HasRow p [] = ⊥
HasRow p (q ∷ qs) = (p ≡ q) ⊎ HasRow p qs

-- The product of an id, and the products that LIMIT and OFFSET choose of the rows in their order.
abbrev pub row_of : List Product → String → Option Product
row_of [] id = none
row_of (p ∷ ps) id = if str_eq id p.id then some p else row_of ps id

abbrev pub rows_of : List Product → ℤ → ℤ → List Product
rows_of ps limit offset = take (pos_part limit) (drop (pos_part offset) ps)

module _ {D T : Type 0} (sql : Sql D T) (table : D → List Product) where
  -- What PostgreSQL answers to these two SELECTs from a database: `table` is the table of products, in
  -- the order of the ids. Any call may fail, but not with an error of this program.
  pub record IsProductTable (d : D) : Type 0 where
    pub keyed : PrimaryKey (table d)
    pub row_same :
        (ctx : Context) (id : String) → (sql.query_row ctx row_query (text id ∷ []) d).1 ≡ d
    pub row_found :
        (ctx : Context) (id : String) (row : Columns)
        → (sql.query_row ctx row_query (text id ∷ []) d).0 ≡ ok row
        → (p : Product) × HasRow p (table d) × (p.id ≡ id) × (row ≡ columns_of p)
    -- sql.ErrNoRows says that there is no row.
    pub row_missing :
        (ctx : Context) (id : String) (e : Error)
        → (sql.query_row ctx row_query (text id ∷ []) d).0 ≡ err e
        → error_is e no_rows ≡ true
        → row_of (table d) id ≡ none
    pub row_error :
        (ctx : Context) (id : String) (e : Error)
        → (sql.query_row ctx row_query (text id ∷ []) d).0 ≡ err e
        → error_is e product_not_found ≡ false
    pub rows_same :
        (ctx : Context) (limit offset : ℤ)
        → (sql.query ctx page_query (int limit ∷ int offset ∷ []) d).1 ≡ d
    pub rows_found :
        (ctx : Context) (limit offset : ℤ) (s : RowSet)
        → (sql.query ctx page_query (int limit ∷ int offset ∷ []) d).0 ≡ ok s
        → s.end_error ≡ none
        → s.rows ≡ map_rows (λ p. ok (columns_of p)) (rows_of (table d) limit offset)

All-HasRow : (P : Product → Type 0) (p : Product) (ps : List Product) → All P ps → HasRow p ps → P p
All-HasRow P p [] h has = absurd has
All-HasRow P p (q ∷ qs) h (inl same) = subst P (sym same) h.0
All-HasRow P p (q ∷ qs) h (inr has) = All-HasRow P p qs h.1 has

row_of-HasRow :
    (p : Product) (ps : List Product) → PrimaryKey ps → HasRow p ps → row_of ps p.id ≡ some p
row_of-HasRow p [] key has = absurd has
row_of-HasRow p (q ∷ qs) key (inl same) = rw same (rw (eq_refl q.id) refl)
row_of-HasRow p (q ∷ qs) key (inr has) =
    rw (All-HasRow (λ x. str_eq x.id q.id ≡ false) p qs key.0 has) (row_of-HasRow p qs key.1 has)

-- What GetByID returns: the product of the id, or an error, which is ErrProductNotFound only where the
-- table has no such product; a panic of the driver goes on up.
abbrev pub IsRowOf : List Product → String → Result Product → Type 0
IsRowOf ps id (ok p) = (row_of ps id ≡ some p) × (p.id ≡ id)
IsRowOf ps id (err e) = (error_is e product_not_found ≡ false) ⊎ (row_of ps id ≡ none)
IsRowOf ps id panic = Unit

-- Scan puts each column into the field of its name.
scan_product-columns_of : (p : Product) → scan_product (columns_of p) ≡ p
unfolding scan_product
scan_product-columns_of p = refl

scan_rows_all :
    (ps products : List Product)
    → scan_rows none (map_rows (λ p. ok (columns_of p)) ps) products ≡ ok (products ++ ps)
unfolding scan_rows
scan_rows_all [] products = ap ok (sym (append-nil products))
scan_rows_all (p ∷ ps) products =
    ap (λ q. scan_rows none (map_rows (λ p. ok (columns_of p)) ps) (products ++ q ∷ []))
      (scan_product-columns_of p)
    ∙ scan_rows_all ps (products ++ p ∷ [])
    ∙ ap ok (append_assoc products (p ∷ []) ps)

scan_rows_error :
    (e : Error) (rows : List (Result Columns)) (products : List Product)
    → Post (λ _. ⊥) (scan_rows (some e) rows products)
unfolding scan_rows
scan_rows_error e [] products = tt
scan_rows_error e (ok row ∷ rows) products =
    scan_rows_error e rows (products ++ scan_product row ∷ [])
scan_rows_error e (err x ∷ rows) products = tt
scan_rows_error e (panic ∷ rows) products = tt

Post-ok : {A : Type 0} (Q : A → Type 0) (r : Result A) (a : A) → Post Q r → r ≡ ok a → Q a
Post-ok Q r a h e = subst (Post Q) e h

module _ {D T : Type 0} (world : World) (r : PostgresRepository D T) (table : D → List Product)
    (st : PgState D) (laws : IsProductTable r.db table st.db) where
  not_found_error_lem :
      (id : String) (e : Error)
      → (error_is e no_rows ≡ true → row_of (table st.db) id ≡ none)
      → error_is e product_not_found ≡ false
      → IsRowOf (table st.db) id (err (not_found_error e))
  unfolding not_found_error
  not_found_error_lem id e missing other = elim (Bool-cases (error_is e no_rows)) [
    | inl none_there ↦ inr (missing none_there)
    | inr failed ↦ inl (rw failed other)
  ]

  get_by_id_found :
      (ctx : Context) (id : String)
      → IsRowOf (table st.db) id (Postgres.get_by_id world r ctx id st).0
        × ((Postgres.get_by_id world r ctx id st).1 ≡ st)
  unfolding Postgres.get_by_id
  get_by_id_found ctx id =
      handle_cases (λ result st'. IsRowOf (table st.db) id result × (st' ≡ st))
        (on_db (r.db.query_row ctx get_text (text id ∷ []))) _ _ st
        (λ row s' e.
          let (p, has, own, columns) =
            laws.row_found ctx id row (ap (λ (x : Result Columns × PgState D). x.0) e) in
          let scanned : scan_product row ≡ p =
            ap scan_product columns ∙ scan_product-columns_of p in
          let found : row_of (table st.db) id ≡ some p =
            ap (row_of (table st.db)) (sym own) ∙ row_of-HasRow p (table st.db) laws.keyed has in
          ((found ∙ ap some (sym scanned), ap (λ (q : Product). q.id) scanned ∙ own), same e))
        (λ x s' e.
          let answer = ap (λ (y : Result Columns × PgState D). y.0) e in
          (
            not_found_error_lem id x (laws.row_missing ctx id x answer)
                (laws.row_error ctx id x answer),
            same e,
          ))
        (λ s' e. (tt, same e))
    where
      same :
          {result : Result Columns} {s' : PgState D}
          → on_db (r.db.query_row ctx get_text (text id ∷ [])) st ≡ (result, s')
          → s' ≡ st
      same e =
          ap (λ (x : Result Columns × PgState D). x.1) (sym e)
          ∙ ap (λ d. record st { db = d }) (laws.row_same ctx id)

  -- The rows that were scanned are the page, where they were read to their end.
  scanned_found :
      (ctx : Context) (limit offset : ℤ) (end : Option Error) (rows : List (Result Columns))
      → (end ≡ none → rows ≡ map_rows (λ p. ok (columns_of p)) (rows_of (table st.db) limit offset))
      → Post (λ ps. rows_of (table st.db) limit offset ≡ ps) (scan_rows end rows [])
  scanned_found ctx limit offset none rows h =
      rw (h refl) (rw (scan_rows_all (rows_of (table st.db) limit offset) []) refl)
  scanned_found ctx limit offset (some e) rows h =
      Post-nothing (λ ps. rows_of (table st.db) limit offset ≡ ps) (scan_rows (some e) rows [])
        (scan_rows_error e rows [])

  list_found :
      (ctx : Context) (limit offset : ℤ)
      → Post
          (λ ps. rows_of (table st.db) limit offset ≡ ps)
          (Postgres.list world r ctx limit offset st).0
        × ((Postgres.list world r ctx limit offset st).1 ≡ st)
  unfolding Postgres.list
  list_found ctx limit offset =
      handle_cases
        (λ result st'. Post (λ ps. rows_of (table st.db) limit offset ≡ ps) result × (st' ≡ st))
        (on_db (r.db.query ctx list_text (int limit ∷ int offset ∷ []))) _ _ st
        (λ s s' e. elim (Bool-cases (ltb_ℤ limit (pos 0))) [
          | inl negative ↦ rw negative (tt, same e)
          | inr fits ↦ rw fits (
            scanned_found ctx limit offset s.end_error s.rows (
                laws.rows_found ctx limit offset s (ap (λ (x : Result RowSet × PgState D). x.0) e)),
            same e,
          )
        ])
        (λ x s' e. (tt, same e)) (λ s' e. (tt, same e))
    where
      same :
          {result : Result RowSet} {s' : PgState D}
          → on_db (r.db.query ctx list_text (int limit ∷ int offset ∷ [])) st ≡ (result, s')
          → s' ≡ st
      same e =
          ap (λ (x : Result RowSet × PgState D). x.1) (sym e)
          ∙ ap (λ d. record st { db = d }) (laws.rows_same ctx limit offset)

  -- GetByID and List change nothing. GetByID returns the product that the table has under the id, or an
  -- error, which is ErrProductNotFound only where the table has no such product; List returns only the
  -- page that LIMIT and OFFSET choose of the table in the order of the ids. Each column is in the field of
  -- its name. PostgreSQL must answer the two SELECTs as it promises.
  pub reads_found :
      (ctx : Context) (id : String) (limit offset : ℤ)
      → (IsRowOf (table st.db) id (Postgres.get_by_id world r ctx id st).0
          × ((Postgres.get_by_id world r ctx id st).1 ≡ st))
        × (Post
              (λ ps. rows_of (table st.db) limit offset ≡ ps)
              (Postgres.list world r ctx limit offset st).0
            × ((Postgres.list world r ctx limit offset st).1 ≡ st))
  reads_found ctx id limit offset = (get_by_id_found ctx id, list_found ctx limit offset)

  -- The repository over PostgreSQL keeps what the cached repository asks of the reads of the next one.
  pub repository-IsSource :
      IsSource
        (Postgres.repository world r)
        (λ st. row_of (table st.db))
        (λ st limit offset. some (rows_of (table st.db) limit offset))
        st
  unfolding Postgres.repository
  repository-IsSource = record {
    get_same = λ ctx id. (get_by_id_found ctx id).1;
    get_found = λ ctx id p e. subst (IsRowOf (table st.db) id) e (get_by_id_found ctx id).0;
    list_same = λ ctx limit offset. (list_found ctx limit offset).1;
    list_found = λ ctx limit offset ps e. ap some (
        Post-ok (λ ps. rows_of (table st.db) limit offset ≡ ps)
          (Postgres.list world r ctx limit offset st).0 ps (list_found ctx limit offset).0 e);
  }
