-- ===== src/Http/Paths.antt =====
-- What the tests of internal/transport/http/v1/router.go, and of net/http's ServeMux for its patterns, tell
-- of a path.
use Prim.Native.Char.{code}
use Prim.Native.String.{[], ◌++◌, ◌∷◌ as cons_char}
use text.Mathlib.TextEquality.{Char-path}
use text.Mathlib.TextLemmas.{nil-append, cons-append}
use shop_catalog_service.Common.{
  ◌≡◌, sym, ap, ◌∙◌, inl, inr, String, true, some, str_eq, eq_iff, ◌==◌, Bool-cases, Option-cases,
  arith,
}
use shop_catalog_service.Common.Text.{after_prefix}
use shop_catalog_service.Http.Router.{has_prefix, has_suffix, products, product_tree, route}

-- What the tests for a path, a prefix and a suffix tell.
after_prefix_text : (p s rest : String) → after_prefix p s ≡ some rest → s ≡ p ++ rest
unfolding after_prefix
after_prefix_text [] s rest e = ground (arith, nil-append rest)
after_prefix_text (cons_char c p) [] rest e = absurd (ground arith)
after_prefix_text (cons_char c p) (cons_char d s) rest e = elim (Bool-cases (code c == code d)) [
  | inl same ↦
      ap (λ x. cons_char x s) (sym (Char-path c d (ground arith)))
      ∙ ap (cons_char c) (after_prefix_text p s rest (ground arith))
      ∙ sym (cons-append c p rest)
  | inr other ↦ absurd (ground arith)
]

pub has_suffix_text : (s p : String) → has_suffix s p ≡ true → (front : String) × (s ≡ front ++ p)
unfolding has_suffix
has_suffix_text [] p e = ([], (eq_iff [] p).0 e ∙ sym (nil-append p))
has_suffix_text (cons_char c s) p e = elim (Bool-cases (str_eq (cons_char c s) p)) [
  | inl whole ↦ ([], (eq_iff (cons_char c s) p).0 whole ∙ sym (nil-append p))
  | inr longer ↦
      let (front, same) = has_suffix_text s p (ground arith) in
      (cons_char c front, ap (cons_char c) same ∙ sym (cons-append c front p))
]

pub route_products : (path : String) → route path ≡ products → path ≡ "/admin/products"
unfolding route
route_products path e = elim (Bool-cases (str_eq path "/admin/products")) [
  | inl same ↦ (eq_iff path "/admin/products").0 same
  | inr other ↦ absurd (ground arith)
]

pub route_product_tree :
    (path : String)
    → route path ≡ product_tree
    → (rest : String) × (path ≡ "/admin/products/" ++ rest)
unfolding route has_prefix
route_product_tree path e = elim (Option-cases (after_prefix "/admin/products/" path)) [
  | inl out ↦ absurd (ground arith)
  | inr (rest, e') ↦ (rest, after_prefix_text "/admin/products/" path rest e')
]
