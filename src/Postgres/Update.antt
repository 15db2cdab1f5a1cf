-- ===== src/Postgres/Update.antt =====
-- The UPDATE that Update of internal/repository/postgres/product_repository.go puts together.
use Prim.Native.String.{◌++◌}
use shop_catalog_service.Common.{
  sym, ℕ, suc, ◌+◌, arith, ◌≡◌, refl, ap, ◌∙◌, String, Option, none, some, List, [], ◌∷◌,
}
use shop_catalog_service.Common.Int.{pos}
use shop_catalog_service.Common.Lists.{length}
use shop_catalog_service.Common.Decimal.{int_text}
use shop_catalog_service.Domain.{UpdateProductCommand}
use shop_catalog_service.Postgres.Statement.{
  SqlValue, text, int, flag, Builder, start, clause, add_clause, map_option, build, join,
  update_args, update_text,
}
use mathlib.Core.List.{◌++◌ as list_append, append-nil}
use mathlib.Core.Path.{subst}

-- A column and its new value, where one is given.
abbrev field : String → Option SqlValue → List (String × SqlValue)
field column none = []
field column (some v) = (column, v) ∷ []

-- The fields that are set, in the order of the source.
abbrev pub fields : UpdateProductCommand → List (String × SqlValue)
fields cmd =
    list_append
      (list_append
        (list_append (field "name" (map_option text cmd.name))
          (field "description" (map_option text cmd.description)))
        (field "price_cents" (map_option int cmd.price_cents)))
      (field "active" (map_option flag cmd.active))

-- `<column> = $n`, numbered from n.
abbrev numbered : ℕ → List (String × SqlValue) → List String
numbered n [] = []
numbered n ((column, v) ∷ fs) = (column ++ (" = $" ++ int_text (pos n))) ∷ numbered (n + 1) fs

abbrev values : List (String × SqlValue) → List SqlValue
values [] = []
values ((column, v) ∷ fs) = v ∷ values fs

numbered-append :
    (n : ℕ) (fs : List (String × SqlValue)) (column : String) (v : SqlValue)
    → numbered n (list_append fs ((column, v) ∷ []))
      ≡ list_append (numbered n fs) (clause column (n + length fs) ∷ [])
unfolding clause
numbered-append n [] column v =
    ap (λ k. (column ++ (" = $" ++ int_text (pos k))) ∷ []) (omega arith)
numbered-append n ((c, x) ∷ fs) column v =
    ap (λ cs. (c ++ (" = $" ++ int_text (pos n))) ∷ cs)
      (numbered-append (n + 1) fs column v
        ∙ ap (λ k. list_append (numbered (n + 1) fs) (clause column k ∷ [])) (omega arith))

values-append :
    (fs : List (String × SqlValue)) (column : String) (v : SqlValue)
    → values (list_append fs ((column, v) ∷ [])) ≡ list_append (values fs) (v ∷ [])
values-append [] column v = refl
values-append ((c, x) ∷ fs) column v = ap (λ vs. x ∷ vs) (values-append fs column v)

length-snoc : {A : Type 0} (xs : List A) (x : A) → length (list_append xs (x ∷ [])) ≡ length xs + 1
length-snoc [] x = refl
length-snoc (y ∷ xs) x = omega (arith, length-snoc xs x)

-- What the builder holds after these fields.
record Builds (fs : List (String × SqlValue)) (b : Builder) : Type 0 where
  set_clauses : b.set_clauses ≡ "updated_at = NOW()" ∷ numbered 1 fs
  args : b.args ≡ values fs
  arg_idx : b.arg_idx ≡ suc (length fs)

add_clause-Builds :
    (fs : List (String × SqlValue)) (b : Builder) (column : String) (v : Option SqlValue)
    → Builds fs b
    → Builds (list_append fs (field column v)) (add_clause column v b)
unfolding add_clause
add_clause-Builds fs b column none h = subst (λ fs. Builds fs b) (sym (append-nil fs)) h
add_clause-Builds fs b column (some v) h = record {
  set_clauses =
      rw (h.set_clauses, h.arg_idx)
        (ap (λ cs. "updated_at = NOW()" ∷ cs)
          (ap (λ k. list_append (numbered 1 fs) (clause column k ∷ [])) (omega arith)
            ∙ sym (numbered-append 1 fs column v)));
  args = ap (λ vs. list_append vs (v ∷ [])) h.args ∙ sym (values-append fs column v);
  arg_idx = omega (arith, h.arg_idx, length-snoc fs (column, v));
}

build-Builds : (cmd : UpdateProductCommand) → Builds (fields cmd) (build cmd)
unfolding build start
build-Builds cmd = add_clause-Builds _ _ "active" (map_option flag cmd.active) (
    add_clause-Builds _ _ "price_cents" (map_option int cmd.price_cents) (
      add_clause-Builds _ _ "description" (map_option text cmd.description) (
        add_clause-Builds [] start "name" (map_option text cmd.name)
          (record { set_clauses = refl; args = refl; arg_idx = refl }))))

-- The statement and the arguments that set just these fields.
abbrev pub IsUpdateOf : UpdateProductCommand → String → List SqlValue → Type 0
IsUpdateOf cmd statement args =
    (statement
      ≡ "UPDATE products SET "
        ++ (join ("updated_at = NOW()" ∷ numbered 1 (fields cmd))
            ++ (" WHERE id = $"
                ++ (int_text (pos (suc (length (fields cmd))))
                    ++ " RETURNING id, sku, name, description, price_cents, currency, stock, active"))))
    × (args ≡ list_append (values (fields cmd)) (text cmd.id ∷ []))

-- The UPDATE that Update puts together: its SET list has updated_at and then just the fields that the
-- command sets, the i-th of them with the placeholder $i; its WHERE has the next number; and its
-- arguments are the values of these fields in the same order, and the id.
pub update_text-IsUpdateOf :
    (cmd : UpdateProductCommand) → IsUpdateOf cmd (update_text cmd) (update_args cmd)
unfolding update_text update_args
update_text-IsUpdateOf cmd =
    let b = build-Builds cmd in
    (rw (b.set_clauses, b.arg_idx) refl, ap (λ vs. list_append vs (text cmd.id ∷ [])) b.args)
