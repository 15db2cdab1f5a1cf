-- ===== src/InMemory/Returns.antt =====
-- Panics of the service over the in-memory repository: nil dereferences and slices out of range.
use shop_catalog_service.Common.Lists.{length}
use shop_catalog_service.Exec.{pure, fail, continue, Result, ok, err, panic, Exec, Returns}
use shop_catalog_service.Domain.{CreateProductCommand, UpdateProductCommand, Product}
use shop_catalog_service.Service.{ServiceState, Logger, effective_limit}
use shop_catalog_service.Service.Calls.{
  wired, serve, IsAdmitted, forward, Call, list, get, create, update, stock, one,
}
use shop_catalog_service.Service.Pagination.{effective_limit-IsPageSize}
use shop_catalog_service.InMemory
use shop_catalog_service.InMemory.{Store, page, repository}
use shop_catalog_service.Common.{
  inr, Option-cases, inl, Bool-cases, ℕ, ◌^◌, [], ◌<◌, ◌∷◌, ◌+◌, arith, String, List,
}
use shop_catalog_service.Repository.{Context}
use shop_catalog_service.Common.Int.{pos_part, nonneg_form, ◌≤ℤ◌, leb_ℤ, pos, ℤ}
use shop_catalog_service.Service.Guards.{serve_refused, serve_admitted, IsAdmitted-cases}
use shop_catalog_service.InMemory.Paging.{page_lem}

Returns-one : {S : Type 0} (m : Exec S Product) (s : S) → Returns (m s).0 → Returns (one m s).0
Returns-one {S} m s = go (m s).0 (m s).1
  where
    go :
        (r : Result Product) (s' : S)
        → Returns r
        → Returns (continue {S = S} r fail (λ p. pure (p ∷ [])) s').0
    go (ok p) s' h = tt
    go (err e) s' h = tt
    go panic s' h = h

page-Returns :
    (ps : List Product) (limit offset : ℕ)
    → length ps + limit < 2 ^ 63
    → Returns (page ps (pos limit) (pos offset))
unfolding page
page-Returns ps limit offset h = elim (Bool-cases (leb_ℤ (pos (length ps)) (pos offset))) [
  | inl past ↦ rw (past, page, Returns) tt
  | inr before ↦ rw (page_lem ps limit offset (ground arith), Returns) tt
]

list-Returns :
    (ctx : Context) (limit offset : ℤ) (st : Store)
    → pos 0 ≤ℤ offset
    → length st.products + 100 < 2 ^ 63
    → Returns (InMemory.list ctx (effective_limit limit) offset st).0
unfolding InMemory.list
list-Returns ctx limit offset st h room = elim (Option-cases ctx.done) [
  | inl live ↦
      let (_, low, high) = effective_limit-IsPageSize limit in
      let size = nonneg_form (effective_limit limit) (ground (arith, low)) in
      let from = nonneg_form offset h in
      rw (live, InMemory.list, size, from, Returns)
        (page-Returns st.products (pos_part (effective_limit limit)) (pos_part offset)
          (ground (arith, high, size)))
  | inr (e, done) ↦ rw (done, InMemory.list, Returns) tt
]

get_by_id-Returns :
    (ctx : Context) (id : String) (st : Store) → Returns (InMemory.get_by_id ctx id st).0
unfolding InMemory.get_by_id
get_by_id-Returns ctx id st = ground arith

create-Returns :
    (ctx : Context) (cmd : CreateProductCommand) (st : Store)
    → Returns (InMemory.create ctx cmd st).0
unfolding InMemory.create
create-Returns ctx cmd st = ground arith

update-Returns :
    (ctx : Context) (cmd : UpdateProductCommand) (st : Store)
    → Returns (InMemory.update ctx cmd st).0
unfolding InMemory.update
update-Returns ctx cmd st = ground arith

update_stock-Returns :
    (ctx : Context) (id : String) (delta : ℤ) (st : Store)
    → Returns (InMemory.update_stock ctx id delta st).0
unfolding InMemory.update_stock
update_stock-Returns ctx id delta st = ground arith

forward-Returns :
    (ctx : Context) (call : Call) (st : Store)
    → IsAdmitted call
    → length st.products + 100 < 2 ^ 63
    → Returns (forward repository ctx call st).0
unfolding forward repository
forward-Returns ctx (list limit offset) st a room = list-Returns ctx limit offset st a room
forward-Returns ctx (get id) st a room =
    Returns-one (InMemory.get_by_id ctx id) st (get_by_id-Returns ctx id st)
forward-Returns ctx (create cmd) st a room =
    Returns-one (InMemory.create ctx cmd) st (create-Returns ctx cmd st)
forward-Returns ctx (update cmd) st a room =
    Returns-one (InMemory.update ctx cmd) st (update-Returns ctx cmd st)
forward-Returns ctx (stock id delta) st a room =
    Returns-one (InMemory.update_stock ctx id delta) st (update_stock-Returns ctx id delta st)

-- Every call of the service over the in-memory repository returns: whatever its arguments are, it
-- does not dereference nil or slice out of range, as long as a page beyond the number of products is
-- an int.
pub serve-Returns :
    (l : Logger) (ctx : Context) (call : Call) (st : ServiceState Store)
    → length st.repo.products + 100 < 2 ^ 63
    → Returns (serve (wired l repository) ctx call st).0
serve-Returns l ctx call st room = elim (IsAdmitted-cases call) [
  | inl a ↦
      rw (serve_admitted l repository ctx call st a).0 (forward-Returns ctx call st.repo a room)
  | inr n ↦ rw ((serve_refused l repository ctx call st n).1, Returns) tt
]
