-- ===== src/InMemory/Paging.antt =====
-- List of the in-memory repository: pages of the slice.
use shop_catalog_service.Common.{
  ℕ, zero, suc, ◌+◌, ◌*◌, ◌-◌, ◌^◌, ◌≤◌, ◌<◌, ◌≡◌, refl, sym, ◌∙◌, ap, List, [], ◌∷◌, ◌++◌, none,
  arith,
}
use shop_catalog_service.Common.Int.{pos}
use shop_catalog_service.Common.Word.{add64_exact}
use shop_catalog_service.Common.Lists.{length-drop, length, take, drop}
use shop_catalog_service.Exec.{◌>>=◌, pure, Exec, ok}
use shop_catalog_service.Domain.{Product}
use shop_catalog_service.Repository.{Context}
use shop_catalog_service.InMemory.{Store, page, list}

take-length-le : {A : Type 0} (n : ℕ) (xs : List A) → length xs ≤ n → take n xs ≡ xs
take-length-le zero [] h = refl
take-length-le zero (x ∷ xs) h = absurd (omega arith)
take-length-le (suc n) [] h = refl
take-length-le (suc n) (x ∷ xs) h = ap (λ r. x ∷ r) (take-length-le n xs (omega arith))

drop-length-le : {A : Type 0} (n : ℕ) (xs : List A) → length xs ≤ n → drop n xs ≡ []
drop-length-le zero [] h = refl
drop-length-le zero (x ∷ xs) h = absurd (omega arith)
drop-length-le (suc n) [] h = refl
drop-length-le (suc n) (x ∷ xs) h = drop-length-le n xs (omega arith)

take-nil : {A : Type 0} (n : ℕ) → take {A = A} n [] ≡ []
take-nil zero = refl
take-nil (suc n) = refl

-- A page is what lies behind the offset, up to the limit, as long as the two do not overflow an int.
pub page_lem :
    (ps : List Product) (limit offset : ℕ)
    → offset + limit < 2 ^ 63
    → page ps (pos limit) (pos offset) ≡ ok (take limit (drop offset ps))
unfolding page
page_lem ps limit offset h = rw (add64_exact offset limit h) (
    ground (
      arith,
      drop-length-le offset ps,
      take-nil {A = Product} limit,
      length-drop offset ps,
      take-length-le (length ps - offset) (drop offset ps),
      take-length-le limit (drop offset ps),
    ))

take-append-drop :
    {A : Type 0} (a m : ℕ) (xs : List A) → take a xs ++ take m (drop a xs) ≡ take (a + m) xs
take-append-drop zero m xs = ap (λ k. take k xs) (omega arith)
take-append-drop (suc a) m [] = rw take-nil (sym (take-nil (suc a + m)))
take-append-drop (suc a) m (x ∷ xs) =
    ap (λ r. x ∷ r) (take-append-drop a m xs) ∙ ap (λ k. take k (x ∷ xs)) one_more
  where
    one_more : suc (a + m) ≡ suc a + m
    one_more = omega arith

drop-drop : {A : Type 0} (a s : ℕ) (xs : List A) → drop s (drop a xs) ≡ drop (a + s) xs
drop-drop zero s xs = ap (λ k. drop k xs) (omega arith)
drop-drop (suc a) zero [] = sym (drop-length-le (suc a + 0) [] (omega arith))
drop-drop (suc a) (suc s) [] = sym (drop-length-le (suc a + suc s) [] (omega arith))
drop-drop (suc a) s (x ∷ xs) = drop-drop a s xs ∙ ap (λ k. drop k (x ∷ xs)) one_more
  where
    one_more : suc (a + s) ≡ suc a + s
    one_more = omega arith

-- One page and the `n` pages behind it.
join_page :
    {A : Type 0} (size n i : ℕ) (xs : List A)
    → take size (drop (i * size) xs) ++ take (n * size) (drop (suc i * size) xs)
      ≡ take (suc n * size) (drop (i * size) xs)
join_page size n i xs =
    ap (λ d. take size (drop (i * size) xs) ++ take (n * size) d)
      (ap (λ k. drop k xs) further ∙ sym (drop-drop (i * size) size xs))
    ∙ take-append-drop size (n * size) (drop (i * size) xs)
    ∙ ap (λ k. take k (drop (i * size) xs)) longer
  where
    further : suc i * size ≡ i * size + size
    further = grind arith

    longer : size + n * size ≡ suc n * size
    longer = grind arith

module _ (ctx : Context) (size : ℕ) where
  -- A client that asks for `n` pages of one size, beginning with page `i`.
  pub collect : ℕ → ℕ → Exec Store (List Product)
  collect zero i = pure []
  collect (suc n) i = do
    products ← list ctx (pos size) (pos (i * size))
    rest ← collect n (suc i)
    pure (products ++ rest)

  -- One call, when the context is live and nothing overflows.
  list_lem :
      (offset : ℕ) (st : Store)
      → ctx.done ≡ none
      → offset + size < 2 ^ 63
      → list ctx (pos size) (pos offset) st ≡ (ok (take size (drop offset st.products)), st)
  unfolding list
  list_lem offset st live fits = rw (live, page_lem st.products size offset fits)

  collect_lem :
      (n i : ℕ) (st : Store)
      → ctx.done ≡ none
      → (i + n) * size < 2 ^ 63
      → collect n i st ≡ (ok (take (n * size) (drop (i * size) st.products)), st)
  unfolding collect
  collect_lem zero i st live fits =
      ap (λ k. (ok (take k (drop (i * size) st.products)), st)) zero_pages
    where
      zero_pages : 0 ≡ 0 * size
      zero_pages = omega arith
  collect_lem (suc n) i st live fits =
      rw (list_lem (i * size) st live (grind arith), collect_lem n (suc i) st live (grind arith))
        (ap (λ r. (ok r, st)) (join_page size n i st.products))

  -- With enough pages of one size, the pages that List returns, put together in order, are all the
  -- products, each once, and no call changes the store. The context must not be done, and the last
  -- page's end must be an int.
  pub collect_all :
      (n : ℕ) (st : Store)
      → ctx.done ≡ none
      → n * size < 2 ^ 63
      → length st.products ≤ n * size
      → collect n 0 st ≡ (ok st.products, st)
  collect_all n st live fits enough =
      collect_lem n 0 st live (grind arith)
      ∙ ap (λ r. (ok r, st))
          (ap (λ k. take (n * size) (drop k st.products)) start
            ∙ take-length-le (n * size) st.products enough)
    where
      start : 0 * size ≡ 0
      start = omega arith
