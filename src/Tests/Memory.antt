-- ===== src/Tests/Memory.antt =====
-- The in-memory repository at concrete stores.
use shop_catalog_service.Common.{◌⊎◌, arith, eq_iff, ◌≡◌, ◌≢◌, refl, none, some, List, [], ◌∷◌}
use shop_catalog_service.Common.Int.{◌+ℤ◌, ℤ, pos, negsuc}
use shop_catalog_service.Exec.{Returns, ok, err}
use shop_catalog_service.Errors.{insufficient_stock, product_not_found, sentinel}
use shop_catalog_service.Domain.{Product, CreateProductCommand, UpdateProductCommand}
use shop_catalog_service.InMemory
use shop_catalog_service.InMemory.{
  has_sku, Store, repository, new_product, merge, numbered_id, default_products,
  new_product_repository, store_product, seed_or_default,
}
use shop_catalog_service.InMemory.Invariant.{IsConsistent}
use shop_catalog_service.Service.Calls.{Call, list, get, create, stock, serve, serve_all, wired}
use shop_catalog_service.Fixtures.{live, logger, mug, mug_command, one_mug, one_mug-IsConsistent}
use shop_catalog_service.InMemory.Stock.{update_stock_lem, Fits}
use shop_catalog_service.InMemory.Reads.{create-get_by_id, update-get_by_id}
use shop_catalog_service.InMemory.Paging.{collect_all, collect}
use shop_catalog_service.Repository.{Context}
use shop_catalog_service.InMemory.Runs.{startup-IsConsistent}
use shop_catalog_service.InMemory.Seed.{default_products-IsGoodSeed}
use shop_catalog_service.InMemory.Returns.{serve-Returns}
use shop_catalog_service.Common.Decimal.{int_text}

abbrev pen : CreateProductCommand
pen = record mug_command { sku = "SKU-PEN"; name = "Pen"; stock = pos 5 }

abbrev rename : UpdateProductCommand
rename = record {
  id = "prod-1";
  name = some "Cup";
  description = none;
  price_cents = none;
  active = none;
}

abbrev requests : List (Context × Call)
requests = (live, create pen) ∷ (live, stock "prod-001" (negsuc 4)) ∷ (live, get " ") ∷ []

-- Where the seed takes the next number's id, Create stores a second product under it: the map has
-- the new product, the slice both.
abbrev numbered_seed : List Product
numbered_seed = record mug { id = "prod-2" } ∷ []

abbrev collided : Store
collided = record {
  products = record mug { id = "prod-2" } ∷ new_product "prod-2" pen ∷ [];
  by_id =
      InMemory.insert "prod-2" (new_product "prod-2" pen)
        (InMemory.insert "prod-2" (record mug { id = "prod-2" }) (λ _. none));
}

collision_test :
    (InMemory.create live pen (record {
      products = numbered_seed;
      by_id = InMemory.insert "prod-2" (record mug { id = "prod-2" }) (λ _. none);
    })).1
    ≡ collided
unfolding InMemory.create has_sku numbered_id int_text new_product
collision_test = refl

startup-IsConsistent_example :
    (st : Store) × (new_product_repository [] ≡ ok st)
    × IsConsistent
        (serve_all
          (wired logger repository)
          requests
          (record { requests_total = []; repo = st })).1.repo
unfolding seed_or_default
startup-IsConsistent_example =
    startup-IsConsistent logger [] requests [] default_products-IsGoodSeed
      (record { low = omega arith; high = omega arith }, (tt, (tt, tt)))

serve-Returns_example :
    Returns
      (serve
        (wired logger repository)
        live
        (list (pos 10) (pos 1))
        (record { requests_total = []; repo = one_mug })).0
serve-Returns_example =
    serve-Returns logger live (list (pos 10) (pos 1))
      (record { requests_total = []; repo = one_mug }) (omega arith)

abbrev sale : ℤ
sale = negsuc 29

update_stock_lem_example :
    (Fits (pos 30) sale
      × (InMemory.update_stock live "prod-1" sale one_mug ≡ (
        ok (record mug { stock = pos 30 +ℤ sale }),
        store_product (record mug { stock = pos 30 +ℤ sale }) one_mug,
      )))
    ⊎ ((¬ Fits (pos 30) sale)
        × (InMemory.update_stock live "prod-1" sale one_mug
            ≡ (err (sentinel insufficient_stock), one_mug)))
update_stock_lem_example =
    update_stock_lem live "prod-1" sale one_mug one_mug-IsConsistent mug refl
      (record { low = omega arith; high = omega arith })

collect_all_example : collect live 1 2 0 one_mug ≡ (ok (mug ∷ []), one_mug)
collect_all_example = collect_all live 1 2 one_mug refl (omega arith) (omega arith)

create-get_by_id_example :
    let st = (InMemory.create live pen one_mug).1 in
    ((InMemory.create live pen one_mug).0 ≡ ok (new_product (numbered_id 2) pen))
    × ((InMemory.get_by_id live (numbered_id 2) one_mug).0 ≡ err (sentinel product_not_found))
    × (InMemory.get_by_id live (numbered_id 2) st ≡ (ok (new_product (numbered_id 2) pen), st))
    × ((InMemory.get_by_id live "prod-1" st).0 ≡ (InMemory.get_by_id live "prod-1" one_mug).0)
unfolding has_sku
create-get_by_id_example =
    create-get_by_id live one_mug one_mug-IsConsistent refl pen "prod-1" refl other
  where
    other : "prod-1" ≢ numbered_id 2
    other = unfold numbered_id in unfold int_text in λ e. cc ((eq_iff "prod-1" "prod-2").1 e)

update-get_by_id_example :
    let st = (InMemory.update live rename one_mug).1 in
    ((InMemory.update live rename one_mug).0 ≡ ok (merge rename mug))
    × (InMemory.get_by_id live "prod-1" st ≡ (ok (merge rename mug), st))
    × ((InMemory.get_by_id live "prod-9" st).0 ≡ (InMemory.get_by_id live "prod-9" one_mug).0)
update-get_by_id_example =
    update-get_by_id live one_mug one_mug-IsConsistent refl rename mug "prod-9" refl
      (λ e. cc ((eq_iff "prod-9" "prod-1").1 e))
