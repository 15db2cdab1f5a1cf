-- ===== src/InMemory/Reads.antt =====
-- The reads of the in-memory repository (List, GetByID) after its writes.
use shop_catalog_service.Common.{
  ◌≢◌, ◌||◌, Bool-cases, Option-cases, ℕ, zero, suc, ◌+◌, ◌≡◌, refl, ◌∙◌, ap, String, Option, none,
  some, List, [], ◌∷◌, eq_iff, eq_refl, arith, inl, inr, false,
}
use shop_catalog_service.Common.Int.{leb_ℤ, ltb_ℤ, ℤ, pos}
use shop_catalog_service.Common.Lists.{length, take, drop, All}
use shop_catalog_service.Errors.{product_not_found, sentinel}
use shop_catalog_service.Exec.{Result, ok, err, panic}
use shop_catalog_service.Domain.{Product, CreateProductCommand, UpdateProductCommand}
use shop_catalog_service.Repository.{Context}
use shop_catalog_service.InMemory
use shop_catalog_service.InMemory.{
  Store, has_sku, numbered_id, new_product, merge, or_keep, insert, slice, page, page_end,
}
use shop_catalog_service.InMemory.Find.{find_id}
use shop_catalog_service.InMemory.Distinct.{DistinctIds}
use shop_catalog_service.InMemory.Invariant.{IsConsistent, by_id-id}

module _ {A : Type 0} (P : A → Type 0) where
  All-take : (n : ℕ) (xs : List A) → All P xs → All P (take n xs)
  All-take zero xs h = tt
  All-take (suc n) [] h = tt
  All-take (suc n) (x ∷ xs) h = (h.0, All-take n xs h.1)

  All-drop : (n : ℕ) (xs : List A) → All P xs → All P (drop n xs)
  All-drop zero xs h = h
  All-drop (suc n) [] h = tt
  All-drop (suc n) (x ∷ xs) h = All-drop n xs h.1

-- The products of a page.
abbrev pub Listed : (Product → Type 0) → Result (List Product) → Type 0
Listed P (ok ps) = All P ps
Listed P (err e) = Unit
Listed P panic = Unit

slice-Listed :
    (P : Product → Type 0) (ps : List Product) (from to : ℤ)
    → All P ps
    → Listed P (slice ps from to)
unfolding slice
slice-Listed P ps from to h =
    elim (Bool-cases (ltb_ℤ from (pos 0) || (ltb_ℤ to from || ltb_ℤ (pos (length ps)) to))) [
      | inl out ↦ rw (out, Listed) tt
      | inr within ↦ rw (within, Listed) (All-take P _ _ (All-drop P _ ps h))
    ]

page-Listed :
    (P : Product → Type 0) (ps : List Product) (limit offset : ℤ)
    → All P ps
    → Listed P (page ps limit offset)
unfolding page
page-Listed P ps limit offset h = elim (Bool-cases (leb_ℤ (pos (length ps)) offset)) [
  | inl past ↦ rw (past, Listed) tt
  | inr before ↦ rw (before, Listed) (slice-Listed P ps offset (page_end ps limit offset) h)
]

All-map :
    {A : Type 0} (P Q : A → Type 0) (xs : List A) → ((x : A) → P x → Q x) → All P xs → All Q xs
All-map P Q [] f h = tt
All-map P Q (x ∷ xs) f h = (f x h.0, All-map P Q xs f h.1)

-- Products of distinct ids are found by their ids.
find_id_self : (ps : List Product) → DistinctIds ps → All (λ p. find_id p.id ps ≡ some p) ps
unfolding find_id
find_id_self [] d = tt
find_id_self (p ∷ ps) d = (
  rw (eq_refl p.id),
  All-map (λ q. find_id q.id ps ≡ some q) (λ q. find_id q.id (p ∷ ps) ≡ some q) ps
      (λ q found. ground (arith, eq_iff q.id p.id, found)) (find_id_self ps d.1),
)

get_by_id_found :
    (ctx : Context) (id : String) (st : Store) (p : Product)
    → ctx.done ≡ none
    → st.by_id id ≡ some p
    → InMemory.get_by_id ctx id st ≡ (ok p, st)
unfolding InMemory.get_by_id
get_by_id_found ctx id st p live e = ground arith

abbrev found : Option Product → Result Product
found none = err (sentinel product_not_found)
found (some p) = ok p

get_by_id_lem :
    (ctx : Context) (id : String) (st : Store)
    → ctx.done ≡ none
    → InMemory.get_by_id ctx id st ≡ (found (st.by_id id), st)
unfolding InMemory.get_by_id
get_by_id_lem ctx id st live = ground arith

-- GetByID sees only the map.
get_by_id_same :
    (ctx : Context) (id : String) (st st' : Store)
    → ctx.done ≡ none
    → st'.by_id id ≡ st.by_id id
    → (InMemory.get_by_id ctx id st').0 ≡ (InMemory.get_by_id ctx id st).0
get_by_id_same ctx id st st' live e =
    rw (get_by_id_lem ctx id st live, get_by_id_lem ctx id st' live) (ap found e)

-- GetByID returns every product that a page of List shows, as List shows it.
list-get_by_id :
    (ctx : Context) (limit offset : ℤ) (st : Store)
    → IsConsistent st
    → Listed
        (λ p. InMemory.get_by_id ctx p.id st ≡ (ok p, st))
        (InMemory.list ctx limit offset st).0
unfolding InMemory.list InMemory.get_by_id
list-get_by_id ctx limit offset st c = elim (Option-cases ctx.done) [
  | inl live ↦
      rw (live, InMemory.list, Listed)
        (page-Listed (λ p. InMemory.get_by_id ctx p.id st ≡ (ok p, st)) st.products limit offset
          (All-map (λ p. find_id p.id st.products ≡ some p)
            (λ p. InMemory.get_by_id ctx p.id st ≡ (ok p, st)) st.products
            (λ p found. get_by_id_found ctx p.id st p live (c.agrees p.id ∙ found))
            (find_id_self st.products c.ids)))
  | inr (e, done) ↦ rw (done, InMemory.list, Listed) tt
]

module _ (ctx : Context) (st : Store) (c : IsConsistent st) (live : ctx.done ≡ none) where
  -- Create of a SKU that is not taken returns a product with the next number in its id, that was
  -- not taken; GetByID then finds it, and every other id as before.
  pub create-get_by_id :
      (cmd : CreateProductCommand) (k : String)
      → has_sku cmd.sku st.products ≡ false
      → k ≢ numbered_id (length st.products + 1)
      → let id = numbered_id (length st.products + 1) in
        let st' = (InMemory.create ctx cmd st).1 in
        ((InMemory.create ctx cmd st).0 ≡ ok (new_product id cmd))
        × ((InMemory.get_by_id ctx id st).0 ≡ err (sentinel product_not_found))
        × (InMemory.get_by_id ctx id st' ≡ (ok (new_product id cmd), st'))
        × ((InMemory.get_by_id ctx k st').0 ≡ (InMemory.get_by_id ctx k st).0)
  unfolding InMemory.create new_product
  create-get_by_id cmd k new other =
      let id = numbered_id (length st.products + 1) in
      rw new (
        refl,
        rw (get_by_id_lem ctx id st live)
            (ap found (c.agrees id ∙ c.free (length st.products + 1) (omega arith))),
        get_by_id_found ctx id _ _ live (rw (eq_refl id)),
        get_by_id_same ctx k st _ live (ground (arith, eq_iff k id)),
      )

  -- Update of a known product returns it with the given fields replaced; GetByID then finds that
  -- under its id, and every other id as before.
  pub update-get_by_id :
      (cmd : UpdateProductCommand) (p : Product) (k : String)
      → st.by_id cmd.id ≡ some p
      → k ≢ cmd.id
      → let st' = (InMemory.update ctx cmd st).1 in
        ((InMemory.update ctx cmd st).0 ≡ ok (merge cmd p))
        × (InMemory.get_by_id ctx cmd.id st' ≡ (ok (merge cmd p), st'))
        × ((InMemory.get_by_id ctx k st').0 ≡ (InMemory.get_by_id ctx k st).0)
  unfolding InMemory.update merge
  update-get_by_id cmd p k e other =
      let same = by_id-id cmd.id p c e in
      rw (e, InMemory.update)
        (
          refl,
          get_by_id_found ctx cmd.id _ _ live (ground (arith, eq_iff cmd.id p.id, same)),
          get_by_id_same ctx k st _ live (ground (arith, eq_iff k p.id, same)),
        )
