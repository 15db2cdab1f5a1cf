-- ===== src/Common/Text.antt =====
-- strings.TrimSpace, on texts as lists of code points (a Go string that is not valid UTF-8 is not
-- modelled).
use Prim.Native.Char.{Char, code}
use Prim.Native.String.{[], ◌∷◌}
use text.Mathlib.TextLemmas.{cons-ne-nil}
use shop_catalog_service.Common.{
  Option, none, some, ℕ, String, ◌≡◌, refl, Bool, true, false, ◌&&◌, ◌||◌, leb, ◌==◌, str_eq,
  eq_iff, if◌then◌else◌, arith, ◌∙◌, Bool-cases, inl, inr,
}

-- unicode.IsSpace: the characters with the White_Space property.
unfoldable pub is_space : ℕ → Bool
is_space c =
    (leb 9 c && leb c 13)
    || c == 32
    || c == 133
    || c == 160
    || c == 5760
    || (leb 8192 c && leb c 8202)
    || c == 8232
    || c == 8233
    || c == 8239
    || c == 8287
    || c == 12288

trim_left : String → String
trim_left [] = ""
trim_left (c ∷ s) = if is_space (code c) then trim_left s else c ∷ s

trim_right : String → String
trim_right [] = ""
trim_right (c ∷ s) =
    let rest = trim_right s in if str_eq rest "" && is_space (code c) then "" else c ∷ rest

unfoldable pub trim_space : String → String
unfolding trim_left trim_right
trim_space s = trim_right (trim_left s)

-- Every character is white space.
unfoldable pub is_blank : String → Bool
is_blank [] = true
is_blank (c ∷ s) = is_space (code c) && is_blank s

str_eq-cons : (c : Char) (s : String) → str_eq (c ∷ s) "" ≡ false
str_eq-cons c s = elim (Bool-cases (str_eq (c ∷ s) "")) [
  | inl e ↦ absurd (cons-ne-nil c s ((eq_iff (c ∷ s) "").0 e))
  | inr e ↦ e
]

empty-trim_right : (s : String) → str_eq (trim_right s) "" ≡ is_blank s
unfolding trim_right is_blank
empty-trim_right [] = refl
empty-trim_right (c ∷ s) = rw (← empty-trim_right s) (elim (Bool-cases (all_space)) [
  | inl e ↦ rw e (ground arith)
  | inr e ↦ rw e (str_eq-cons c (trim_right s) ∙ ground arith)
])
  where
    all_space : Bool
    all_space = str_eq (trim_right s) "" && is_space (code c)

is_blank-trim_left : (s : String) → is_blank (trim_left s) ≡ is_blank s
unfolding trim_left is_blank
is_blank-trim_left [] = refl
is_blank-trim_left (c ∷ s) = ground (arith, is_blank-trim_left s)

-- The test `strings.TrimSpace(s) == ""` passes exactly on the texts of white space alone.
pub empty-trim_space : (s : String) → str_eq (trim_space s) "" ≡ is_blank s
unfolding trim_space
empty-trim_space s = empty-trim_right (trim_left s) ∙ is_blank-trim_left s

-- What is behind a prefix, if the text begins with it.
unfoldable pub after_prefix : String → String → Option String
after_prefix [] s = some s
after_prefix (c ∷ p) [] = none
after_prefix (c ∷ p) (d ∷ s) =
    let rest = after_prefix p s in if code c == code d then rest else none

abbrev is_some : {A : Type 0} → Option A → Bool
is_some none = false
is_some (some _) = true

-- strings.Contains(s, p)
pub contains : String → String → Bool
unfolding after_prefix
contains p [] = is_some (after_prefix p [])
contains p (c ∷ s) = is_some (after_prefix p (c ∷ s)) || contains p s
