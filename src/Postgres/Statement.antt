-- ===== src/Postgres/Statement.antt =====
-- The SQL statements of internal/repository/postgres/product_repository.go, and how Update puts its
-- own together from the fields that are set.
use Prim.Native.String.{◌++◌}
use shop_catalog_service.Common.{ℕ, ◌+◌, String, Bool, Option, none, some, List, [], ◌∷◌}
use shop_catalog_service.Common.Int.{ℤ, pos}
use shop_catalog_service.Common.Decimal.{int_text}
use shop_catalog_service.Domain.{UpdateProductCommand}
use mathlib.Core.List.{◌++◌ as list_append}

-- An argument of a statement.
pub data SqlValue : Type 0 where
  text bytes : String → SqlValue
  int : ℤ → SqlValue
  flag : Bool → SqlValue

abbrev pub list_text : String
list_text =
    "SELECT id, sku, name, description, price_cents, currency, stock, active FROM products ORDER BY id LIMIT $1 OFFSET $2"

abbrev pub get_text : String
get_text =
    "SELECT id, sku, name, description, price_cents, currency, stock, active FROM products WHERE id = $1"

abbrev pub insert_text : String
insert_text =
    "INSERT INTO products (id, sku, name, description, price_cents, currency, stock, active) VALUES ($1, $2, $3, $4, $5, $6, $7, TRUE) RETURNING id, sku, name, description, price_cents, currency, stock, active"

abbrev pub stock_text : String
stock_text =
    "UPDATE products SET stock = stock + $1, updated_at = NOW() WHERE id = $2 RETURNING id, sku, name, description, price_cents, currency, stock, active"

abbrev pub outbox_text : String
outbox_text =
    "INSERT INTO outbox_events ( id, topic, message_key, event_type, payload ) VALUES ($1, $2, $3, $4, $5)"

-- setClauses, args and argIdx.
pub record Builder : Type 0 where
  pub set_clauses : List String
  pub args : List SqlValue
  pub arg_idx : ℕ

unfoldable pub start : Builder
start = record { set_clauses = "updated_at = NOW()" ∷ []; args = []; arg_idx = 1 }

-- `fmt.Sprintf("<column> = $%d", argIdx)`
unfoldable pub clause : String → ℕ → String
clause column n = column ++ (" = $" ++ int_text (pos n))

-- The block under `if field != nil`, with the value of the field.
unfoldable pub add_clause : String → Option SqlValue → Builder → Builder
unfolding clause
add_clause column none b = b
add_clause column (some v) b = record {
  set_clauses = list_append b.set_clauses (clause column b.arg_idx ∷ []);
  args = list_append b.args (v ∷ []);
  arg_idx = b.arg_idx + 1;
}

abbrev pub map_option : {A B : Type 0} → (A → B) → Option A → Option B
map_option f none = none
map_option f (some a) = some (f a)

-- The four blocks.
unfoldable pub build : UpdateProductCommand → Builder
unfolding add_clause start
build cmd = add_clause "active" (map_option flag cmd.active) (
    add_clause "price_cents" (map_option int cmd.price_cents) (
      add_clause "description" (map_option text cmd.description)
        (add_clause "name" (map_option text cmd.name) start)))

-- strings.Join(clauses, ", ")
pub join : List String → String
join [] = ""
join (s ∷ []) = s
join (s ∷ t ∷ r) = s ++ (", " ++ join (t ∷ r))

unfoldable pub update_args : UpdateProductCommand → List SqlValue
unfolding build
update_args cmd = list_append (build cmd).args (text cmd.id ∷ [])

unfoldable pub update_text : UpdateProductCommand → String
unfolding build join
update_text cmd =
    "UPDATE products SET "
    ++ (join (build cmd).set_clauses
        ++ (" WHERE id = $"
            ++ (int_text (pos (build cmd).arg_idx)
                ++ " RETURNING id, sku, name, description, price_cents, currency, stock, active")))
