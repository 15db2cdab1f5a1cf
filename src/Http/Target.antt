-- ===== src/Http/Target.antt =====
-- The product's id in a request's path: extractProductID of
-- internal/transport/http/v1/handlers/catalog_admin.go.
use Prim.Native.Char.{code}
use Prim.Native.String.{[], ◌∷◌, ◌++◌}
use text.Mathlib.TextLemmas.{nil-append, cons-append}
use shop_catalog_service.Common.Text.{after_prefix}
use shop_catalog_service.Common.{◌≡◌, ◌≢◌, refl, ap, String, some, arith}
use shop_catalog_service.Http.{trim_prefix, before_slash, extract_product_id}

-- No character is a slash.
unfoldable pub IsSegment : String → Type 0
IsSegment [] = Unit
IsSegment (c ∷ s) = (code c ≢ 47) × IsSegment s

after_prefix-append : (p s : String) → after_prefix p (p ++ s) ≡ some s
unfolding after_prefix
after_prefix-append [] s = ap some (nil-append s)
after_prefix-append (c ∷ p) s = rw cons-append (ground (arith, after_prefix-append p s))

before_slash-append : (id rest : String) → IsSegment id → before_slash (id ++ ("/" ∷ rest)) ≡ id
unfolding before_slash IsSegment
before_slash-append [] rest h = rw nil-append refl
before_slash-append (c ∷ s) rest h =
    rw cons-append (ground (arith, before_slash-append s rest h.1, h.0))

before_slash-IsSegment : (id : String) → IsSegment id → before_slash id ≡ id
unfolding before_slash IsSegment
before_slash-IsSegment [] h = refl
before_slash-IsSegment (c ∷ s) h = ground (arith, before_slash-IsSegment s h.1, h.0)

-- The id is read back from the path of a product, `/admin/products/{id}`, and from every path below
-- it, as of its stock, if it has no slash.
pub extract_product_id_lem :
    (id rest : String)
    → IsSegment id
    → (extract_product_id ("/admin/products/" ++ id) ≡ id)
      × (extract_product_id ("/admin/products/" ++ (id ++ ("/" ∷ rest))) ≡ id)
unfolding extract_product_id trim_prefix
extract_product_id_lem id rest h = (
  rw (after_prefix-append "/admin/products/" id, extract_product_id, trim_prefix)
      (before_slash-IsSegment id h),
  rw (after_prefix-append "/admin/products/" (id ++ ("/" ∷ rest)), extract_product_id, trim_prefix)
      (before_slash-append id rest h),
)
