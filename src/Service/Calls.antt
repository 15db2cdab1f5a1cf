-- ===== src/Service/Calls.antt =====
-- The five calls of the service as data, what each is meant to ask of the repository, and runs of
-- several calls.
use shop_catalog_service.Common.{
  refl, ℕ, suc, String, ◌≡◌, ◌≢◌, false, Option, some, List, [], ◌∷◌, str_eq, if◌then◌else◌,
}
use shop_catalog_service.Common.Int.{ℤ, pos, ◌≤ℤ◌}
use shop_catalog_service.Common.Text.{is_blank}
use shop_catalog_service.Exec.{fail, continue, Result, ok, err, panic, Exec, pure, ◌>>=◌}
use shop_catalog_service.Domain.{Product, CreateProductCommand, UpdateProductCommand}
use shop_catalog_service.Domain.Validation.{IsValidCreate, IsValidUpdate}
use shop_catalog_service.Repository.{Context, ProductRepository}
use shop_catalog_service.Service.{
  Logger, CatalogService, ServiceState, CounterVec, effective_limit, list_products, get_product,
  create_product, update_product, update_stock,
}

pub data Call : Type 0 where
  list : ℤ → ℤ → Call
  get : String → Call
  create : CreateProductCommand → Call
  update : UpdateProductCommand → Call
  stock : String → ℤ → Call

-- One product comes back as a list of one.
abbrev pub Reply : Type 0
Reply = List Product

abbrev pub method_name : Call → String
method_name (list _ _) = "ListProducts"
method_name (get _) = "GetProduct"
method_name (create _) = "CreateProduct"
method_name (update _) = "UpdateProduct"
method_name (stock _ _) = "UpdateStock"

-- What a call must satisfy to be passed on.
abbrev pub IsAdmitted : Call → Type 0
IsAdmitted (list limit offset) = pos 0 ≤ℤ offset
IsAdmitted (get id) = is_blank id ≡ false
IsAdmitted (create cmd) = IsValidCreate cmd
IsAdmitted (update cmd) = IsValidUpdate cmd
IsAdmitted (stock id delta) = (is_blank id ≡ false) × (delta ≢ pos 0)

abbrev pub one : {S : Type 0} → Exec S Product → Exec S Reply
one m = m >>= λ p. pure (p ∷ [])

pub one-state : {S : Type 0} (m : Exec S Product) (s : S) → (one m s).1 ≡ (m s).1
one-state {S} m s = go (m s).0 (m s).1
  where
    go : (r : Result Product) (s' : S) → (continue {S = S} r fail (λ p. pure (p ∷ [])) s').1 ≡ s'
    go (ok p) s' = refl
    go (err e) s' = refl
    go panic s' = refl

module _ {S : Type 0} where
  -- The service that NewCatalogService builds from a logger and a repository.
  abbrev pub wired : Logger → ProductRepository S → Option (CatalogService S)
  wired l r = some (record { logger = some l; repository = some r })

  -- A call of the service.
  unfoldable pub serve : Option (CatalogService S) → Context → Call → Exec (ServiceState S) Reply
  serve service ctx (list limit offset) = list_products service ctx limit offset
  serve service ctx (get id) = one (get_product service ctx id)
  serve service ctx (create cmd) = one (create_product service ctx cmd)
  serve service ctx (update cmd) = one (update_product service ctx cmd)
  serve service ctx (stock id delta) = one (update_stock service ctx id delta)

  -- The same call made of the repository itself.
  unfoldable pub forward : ProductRepository S → Context → Call → Exec S Reply
  forward r ctx (list limit offset) = r.list ctx (effective_limit limit) offset
  forward r ctx (get id) = one (r.get_by_id ctx id)
  forward r ctx (create cmd) = one (r.create ctx cmd)
  forward r ctx (update cmd) = one (r.update ctx cmd)
  forward r ctx (stock id delta) = one (r.update_stock ctx id delta)

  -- Calls one after the other, each whatever the one before it returned.
  unfoldable pub serve_all :
      Option (CatalogService S)
      → List (Context × Call)
      → ServiceState S
      → List (Result Reply) × ServiceState S
  serve_all service [] st = ([], st)
  serve_all service ((ctx, call) ∷ calls) st =
      let (r, st') = serve service ctx call st in
      let (rs, st'') = serve_all service calls st' in (r ∷ rs, st'')

-- How many increments a counter vector holds for a status, and how many results are of a kind.
unfoldable pub total_of : String → CounterVec → ℕ
total_of status [] = 0
total_of status ((_, s) ∷ v) =
    if str_eq s status then suc (total_of status v) else total_of status v

abbrev pub successes : List (Result Reply) → ℕ
successes [] = 0
successes (ok _ ∷ rs) = suc (successes rs)
successes (err _ ∷ rs) = successes rs
successes (panic ∷ rs) = successes rs

abbrev pub returned : List (Result Reply) → ℕ
returned [] = 0
returned (ok _ ∷ rs) = suc (returned rs)
returned (err _ ∷ rs) = suc (returned rs)
returned (panic ∷ rs) = returned rs
