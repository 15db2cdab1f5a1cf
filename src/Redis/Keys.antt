-- ===== src/Redis/Keys.antt =====
-- productKey and productListKey of internal/repository/redis/cache.go.
use Prim.Native.String.{◌∷◌, ◌++◌ as str_append}
use text.Mathlib.TextLemmas.{
  append_assoc, cons-append, cons-eq-cons, append_cancel_left, append-nil,
}
use shop_catalog_service.Common.{arith, ◌≡◌, ◌≢◌, refl, sym, ◌∙◌, ap, String}
use shop_catalog_service.Common.Int.{ℤ}
use shop_catalog_service.Common.Decimal.{
  Stops, is_digit, int_text, Stops-nil, Stops-cons, int_text_unique,
}
use shop_catalog_service.Redis.{product_key, product_list_key}
use mathlib.Core.Path.{subst}
use Prim.Native.Char.{code}

-- A key under the list pattern `catalog:list:v1:*`.
pub IsListKey : String → Type 0
IsListKey key = (rest : String) × (key ≡ str_append "catalog:list:v1:" rest)

pub product_key_unique : (a b : String) → product_key a ≡ product_key b → a ≡ b
unfolding product_key
product_key_unique a b e = append_cancel_left "catalog:product:" a b e

offset_Stops : (o : ℤ) → Stops (str_append ":offset=" (int_text o))
unfolding is_digit
offset_Stops o =
    subst Stops (sym (cons-append ":" "offset=" (int_text o)))
      (Stops-cons ":" (str_append "offset=" (int_text o)) refl)

-- Two pages have one key only if their limits and their offsets are equal, also where they are
-- negative.
pub product_list_key_unique :
    (l o l' o' : ℤ) → product_list_key l o ≡ product_list_key l' o' → (l ≡ l') × (o ≡ o')
unfolding product_list_key
product_list_key_unique l o l' o' e =
    let (limits, rest) =
      int_text_unique l l' (str_append ":offset=" (int_text o))
        (str_append ":offset=" (int_text o')) (offset_Stops o) (offset_Stops o')
        (append_cancel_left "catalog:list:v1:limit=" _ _ e) in
    let tails : str_append (int_text o) "" ≡ str_append (int_text o') "" =
      append-nil (int_text o)
      ∙ append_cancel_left ":offset=" _ _ rest
      ∙ sym (append-nil (int_text o')) in
    (limits, (int_text_unique o o' "" "" Stops-nil Stops-nil tails).0)

-- Every page's key is under the pattern, and no product's key is.
pub product_list_key-IsListKey : (l o : ℤ) → IsListKey (product_list_key l o)
unfolding product_list_key IsListKey
product_list_key-IsListKey l o = (
  str_append "limit=" (str_append (int_text l) (str_append ":offset=" (int_text o))),
  append_assoc "catalog:list:v1:" "limit=" _,
)

product_key_not-IsListKey : (id : String) → ¬ IsListKey (product_key id)
unfolding product_key IsListKey
product_key_not-IsListKey id (rest, e) = absurd (omega (arith, ap code (cons-eq-cons.0 heads).0))
  where
    behind : str_append "product:" id ≡ str_append "list:v1:" rest
    behind =
        append_cancel_left "catalog:" _ _ (
          sym (append_assoc "catalog:" "product:" id) ∙ e ∙ append_assoc "catalog:" "list:v1:" rest)

    heads : ◌≡◌ {A = String} ("p" ∷ str_append "roduct:" id) ("l" ∷ str_append "ist:v1:" rest)
    heads = sym (cons-append "p" "roduct:" id) ∙ behind ∙ cons-append "l" "ist:v1:" rest

pub keys_differ : (id : String) (l o : ℤ) → product_key id ≢ product_list_key l o
keys_differ id l o e =
    product_key_not-IsListKey id (subst IsListKey (sym e) (product_list_key-IsListKey l o))
