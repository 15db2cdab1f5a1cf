-- ===== src/Common/Decimal.antt =====
-- The verb %d of fmt.Sprintf: decimal printing, and that what is printed can be read back, so two
-- numbers with one print are equal.
use Prim.Native.Char.{Char, code}
use Prim.Native.String.{[], ◌∷◌, ◌++◌}
use text.Mathlib.TextLemmas.{append-nil, nil-append, cons-append, cons-eq-cons}
use shop_catalog_service.Common.{
  ℕ, zero, suc, ◌+◌, ◌-◌, ◌*◌, ◌/◌, ◌%◌, ◌<◌, String, ◌≡◌, refl, sym, ap, Bool, true, false, ◌∙◌,
  ◌&&◌, leb, ltb, if◌then◌else◌, arith, Bool-cases, inl, inr,
}
use shop_catalog_service.Common.Int.{ℤ, pos, negsuc}

digit : ℕ → Char
digit zero = "0"
digit (suc zero) = "1"
digit (suc (suc zero)) = "2"
digit (suc (suc (suc zero))) = "3"
digit (suc (suc (suc (suc zero)))) = "4"
digit (suc (suc (suc (suc (suc zero))))) = "5"
digit (suc (suc (suc (suc (suc (suc zero)))))) = "6"
digit (suc (suc (suc (suc (suc (suc (suc zero))))))) = "7"
digit (suc (suc (suc (suc (suc (suc (suc (suc zero)))))))) = "8"
digit (suc (suc (suc (suc (suc (suc (suc (suc (suc _))))))))) = "9"

-- The digits of `n` in front of a text; the fuel counts divisions by ten.
digits_from : ℕ → ℕ → String → String
digits_from zero n out = out
digits_from (suc f) n out =
    let rest = digits_from f (n / 10) (digit (n % 10) ∷ out) in
    if ltb n 10 then digit n ∷ out else rest

-- `n` divisions bring `n` below ten, so the fuel is enough.
decimal : ℕ → String
unfolding digits_from digit
decimal n = digits_from (suc n) n ""

unfoldable pub int_text : ℤ → String
unfolding decimal
int_text (pos n) = decimal n
int_text (negsuc n) = "-" ∷ decimal (suc n)

code-digit : (n : ℕ) → n < 10 → code (digit n) ≡ 48 + n
unfolding digit
code-digit zero h = refl
code-digit (suc zero) h = refl
code-digit (suc (suc zero)) h = refl
code-digit (suc (suc (suc zero))) h = refl
code-digit (suc (suc (suc (suc zero)))) h = refl
code-digit (suc (suc (suc (suc (suc zero))))) h = refl
code-digit (suc (suc (suc (suc (suc (suc zero)))))) h = refl
code-digit (suc (suc (suc (suc (suc (suc (suc zero))))))) h = refl
code-digit (suc (suc (suc (suc (suc (suc (suc (suc zero)))))))) h = refl
code-digit (suc (suc (suc (suc (suc (suc (suc (suc (suc zero))))))))) h = refl
code-digit (suc (suc (suc (suc (suc (suc (suc (suc (suc (suc n)))))))))) h = absurd (omega arith)

-- A reader of leading digits: the number that they spell behind `acc`, and what follows them.
unfoldable pub is_digit : Char → Bool
is_digit c = leb 48 (code c) && leb (code c) 57

unfoldable pub scan : ℕ → String → ℕ × String
unfolding is_digit
scan acc [] = (acc, "")
scan acc (c ∷ s) =
    let rest = scan (acc * 10 + (code c - 48)) s in if is_digit c then rest else (acc, c ∷ s)

scan_digit : (acc d : ℕ) (s : String) → d < 10 → scan acc (digit d ∷ s) ≡ scan (acc * 10 + d) s
unfolding scan is_digit
scan_digit acc d s h = ground (arith, code-digit d h)

scan-digits_from : (f n : ℕ) (out : String) → n < f → scan 0 (digits_from f n out) ≡ scan n out
unfolding digits_from
scan-digits_from zero n out h = elim h [ ]
scan-digits_from (suc f) n out h = elim (Bool-cases (ltb n 10)) [
  | inl small ↦ rw small (scan_digit 0 n out (ground arith) ∙ ap (λ m. scan m out) (omega arith))
  | inr large ↦
      rw (large, scan-digits_from f (n / 10) (digit (n % 10) ∷ out) (ground arith))
        (scan_digit (n / 10) (n % 10) out (omega arith) ∙ ap (λ m. scan m out) (omega arith))
]

digits_from-append :
    (f n : ℕ) (out t : String) → digits_from f n out ++ t ≡ digits_from f n (out ++ t)
unfolding digits_from
digits_from-append zero n out t = refl
digits_from-append (suc f) n out t = elim (Bool-cases (ltb n 10)) [
  | inl small ↦ rw small (cons-append (digit n) out t)
  | inr large ↦ rw (large, digits_from-append f (n / 10) (digit (n % 10) ∷ out) t, cons-append)
]

-- The reader takes a print apart from what follows it.
scan-decimal : (n : ℕ) (t : String) → scan 0 (decimal n ++ t) ≡ scan n t
scan-decimal n t = rw decimal-append (scan-digits_from (suc n) n t (omega arith))
  where
    decimal-append : decimal n ++ t ≡ digits_from (suc n) n t
    decimal-append = unfold decimal in rw (digits_from-append (suc n) n "" t, nil-append)

-- The text does not begin with a digit.
abbrev pub Stops : String → Type 0
Stops t = (acc : ℕ) → scan acc t ≡ (acc, t)

pub Stops-nil : Stops ""
unfolding scan
Stops-nil acc = refl

pub Stops-cons : (c : Char) (s : String) → is_digit c ≡ false → Stops (c ∷ s)
unfolding scan
Stops-cons c s h acc = rw h

starts_digit : String → Bool
starts_digit [] = false
starts_digit (c ∷ s) = is_digit c

is_digit-digit : (n : ℕ) → n < 10 → is_digit (digit n) ≡ true
unfolding is_digit
is_digit-digit n h = ground (arith, code-digit n h)

starts_digit-digits_from :
    (f n : ℕ) (out : String) → n < f → starts_digit (digits_from f n out) ≡ true
unfolding digits_from starts_digit
starts_digit-digits_from zero n out h = elim h [ ]
starts_digit-digits_from (suc f) n out h = elim (Bool-cases (ltb n 10)) [
  | inl small ↦ rw small (is_digit-digit n (ground arith))
  | inr large ↦ rw large (starts_digit-digits_from f (n / 10) (digit (n % 10) ∷ out) (ground arith))
]

starts_digit-decimal : (n : ℕ) (t : String) → starts_digit (decimal n ++ t) ≡ true
unfolding decimal
starts_digit-decimal n t =
    rw (digits_from-append (suc n) n "" t) (starts_digit-digits_from (suc n) n _ (omega arith))

-- Two prints with the same text before anything that is no digit are prints of one number.
decimal_unique :
    (m n : ℕ) (s t : String)
    → Stops s
    → Stops t
    → decimal m ++ s ≡ decimal n ++ t
    → (m ≡ n) × (s ≡ t)
decimal_unique m n s t hs ht e = (ap (λ p. p.0) both, ap (λ p. p.1) both)
  where
    both : ◌≡◌ {A = ℕ × String} (m, s) (n, t)
    both = sym (hs m) ∙ sym (scan-decimal m s) ∙ ap (scan 0) e ∙ scan-decimal n t ∙ ht n

-- A print of a natural number does not begin with a minus sign.
decimal_ne_minus : (m n : ℕ) (s t : String) → decimal m ++ s ≡ ("-" ∷ decimal n) ++ t → ⊥
unfolding starts_digit is_digit
decimal_ne_minus m n s t e =
    cc (starts_digit-decimal m s, ap starts_digit (e ∙ cons-append "-" (decimal n) t))

-- The same for integers, negative ones included.
pub int_text_unique :
    (a b : ℤ) (s t : String)
    → Stops s
    → Stops t
    → int_text a ++ s ≡ int_text b ++ t
    → (a ≡ b) × (s ≡ t)
unfolding int_text
int_text_unique (pos m) (pos n) s t hs ht e =
    let (p, q) = decimal_unique m n s t hs ht e in (ap pos p, q)
int_text_unique (pos m) (negsuc n) s t hs ht e = absurd (decimal_ne_minus m (suc n) s t e)
int_text_unique (negsuc m) (pos n) s t hs ht e = absurd (decimal_ne_minus n (suc m) t s (sym e))
int_text_unique (negsuc m) (negsuc n) s t hs ht e =
    let (p, q) = decimal_unique (suc m) (suc n) s t hs ht tails in (ap negsuc (omega (arith, p)), q)
  where
    tails : decimal (suc m) ++ s ≡ decimal (suc n) ++ t
    tails =
        (cons-eq-cons.0
          (sym (cons-append "-" (decimal (suc m)) s) ∙ e ∙ cons-append "-" (decimal (suc n)) t)).1

-- A print of `n` reads back as `n`.
pub scan-int_text : (n : ℕ) → scan 0 (int_text (pos n)) ≡ (n, "")
unfolding int_text
scan-int_text n = ap (scan 0) (sym (append-nil (decimal n))) ∙ scan-decimal n "" ∙ Stops-nil n
