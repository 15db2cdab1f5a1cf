-- ===== src/Grpc/Truncate.antt =====
-- truncate of internal/transport/grpc/v1/handlers/handler.go, which shortens what is logged. A string is its
-- bytes, as len and a slice of a string see it.
use shop_catalog_service.Common.{
  ℕ, zero, suc, ◌-◌, ◌≤◌, ◌<◌, ◌≡◌, refl, ◌⊎◌, inl, inr, List, [], ◌∷◌, ◌++◌, leb, arith,
  if◌then◌else◌, Bool-cases,
}
use shop_catalog_service.Common.Int.{ℤ, pos, negsuc}
use shop_catalog_service.Common.Lists.{length, take, length-append}

abbrev max_log_value_len : ℤ
max_log_value_len = pos 256

-- "..."
abbrev dots : List ℕ
dots = 46 ∷ 46 ∷ 46 ∷ []

-- Behind the test of the limit, which is one or more here.
truncate_to : List ℕ → ℕ → List ℕ
truncate_to value max_len =
    if leb (length value) max_len
    then value
    else if leb max_len 3
    then take max_len value
    else take (max_len - 3) value ++ dots

truncate : List ℕ → ℤ → List ℕ
unfolding truncate_to
truncate value (pos zero) = value
truncate value (pos (suc n)) = truncate_to value (suc n)
truncate value (negsuc n) = value

length-take : (n : ℕ) (xs : List ℕ) → n ≤ length xs → length (take n xs) ≡ n
length-take zero xs h = refl
length-take (suc n) [] h = omega arith
length-take (suc n) (x ∷ xs) h = omega (arith, length-take n xs (omega (arith, h)))

-- For a limit of one or more, a value that fits is as it was; a longer one becomes just as long as the
-- limit, and where the limit is more than three it is its first bytes and three dots.
length-truncate :
    (value : List ℕ) (n : ℕ)
    → ((length value ≤ suc n) × (truncate value (pos (suc n)) ≡ value))
      ⊎ ((suc n < length value)
          × (length (truncate value (pos (suc n))) ≡ suc n)
          × ((suc n ≤ 3) ⊎ (truncate value (pos (suc n)) ≡ take (suc n - 3) value ++ dots)))
unfolding truncate truncate_to
length-truncate value n = elim (Bool-cases (leb (length value) (suc n))) [
  | inl fits ↦ inl (ground arith, rw (fits, truncate, truncate_to) refl)
  | inr long ↦ elim (Bool-cases (leb (suc n) 3)) [
    | inl small ↦ inr (
      ground arith,
      rw (long, small, truncate, truncate_to) (length-take (suc n) value (ground arith)),
      inl (ground arith),
    )
    | inr large ↦
        let over : 3 < suc n = ground arith in
        let longer : suc n < length value = ground arith in
        inr (
          longer,
          rw (long, large, truncate, truncate_to)
              (omega (
                arith,
                over,
                longer,
                length-append (take (suc n - 3) value) dots,
                length-take (suc n - 3) value (omega (arith, longer)),
              )),
          inr (rw (long, large, truncate, truncate_to) refl),
        )
  ]
]
