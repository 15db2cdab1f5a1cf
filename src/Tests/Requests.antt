-- ===== src/Tests/Requests.antt =====
-- The service and the validation at concrete requests.
use shop_catalog_service.Common.{◌+◌, ◌≡◌, ◌↔◌, refl, none, some, List, [], ◌∷◌}
use shop_catalog_service.Common.Int.{◌≤ℤ◌, pos, negsuc}
use shop_catalog_service.Exec.{ok, err}
use shop_catalog_service.Errors.{
  invalid_pagination, sentinel, wrap, plain, sentinel_text, message, Error,
}
use shop_catalog_service.Domain.{
  UpdateProductCommand, validate_product, validate_create, validate_update,
}
use shop_catalog_service.InMemory
use shop_catalog_service.InMemory.{Store, repository}
use shop_catalog_service.Service.{
  new_catalog_service, initialized, get_checked, get_product, ServiceState, effective_limit,
}
use shop_catalog_service.Service.Calls.{
  successes, total_of, returned, Call, list, get, stock, serve, serve_all, wired, forward,
}
use shop_catalog_service.Service.Guards.{serve_admitted, serve_refused, refused_state, IsRefusal}
use shop_catalog_service.Service.Labels.{serve_all_counted}
use shop_catalog_service.Common.Text.{is_blank, is_space, trim_space}
use shop_catalog_service.Fixtures.{live, logger, mug, mug_command, one_mug}
use shop_catalog_service.Domain.Validation.{
  validate_accepts_iff, IsValidUpdate, IsValidCreate, IsValidProduct,
}
use shop_catalog_service.Common.Lists.{length}
use shop_catalog_service.Service.Pagination.{effective_limit-IsPageSize, IsPageSize}
use shop_catalog_service.Repository.{Context}

abbrev start : ServiceState Store
start = record { requests_total = []; repo = one_mug }

abbrev rename : UpdateProductCommand
rename = record {
  id = "prod-1";
  name = some "Cup";
  description = none;
  price_cents = none;
  active = none;
}

-- A run: a hit, a blank id, a negative offset, and a product that is not there.
abbrev requests : List (Context × Call)
requests =
    (live, get "prod-1")
    ∷ (live, get " ")
    ∷ (live, list (pos 5) (negsuc 0))
    ∷ (live, get "prod-9")
    ∷ []

hit_test : (serve (wired logger repository) live (get "prod-1") start).0 ≡ ok (mug ∷ [])
unfolding serve get_product get_checked initialized repository InMemory.get_by_id trim_space
    is_space
hit_test = refl

limit_test : effective_limit (pos 0) ≡ pos 20
unfolding effective_limit
limit_test = refl

serve_admitted_example :
    ((serve (wired logger repository) live (get "prod-1") start).0
      ≡ (forward repository live (get "prod-1") one_mug).0)
    × ((serve (wired logger repository) live (get "prod-1") start).1.repo
        ≡ (forward repository live (get "prod-1") one_mug).1)
unfolding is_blank is_space
serve_admitted_example = serve_admitted logger repository live (get "prod-1") start refl

serve_refused_example :
    (e : Error) × (serve (wired logger repository) live (stock "prod-1" (pos 0)) start
      ≡ (err e, refused_state (stock "prod-1" (pos 0)) start))
    × IsRefusal (stock "prod-1" (pos 0)) e
serve_refused_example =
    serve_refused logger repository live (stock "prod-1" (pos 0)) start (λ h. h.1 refl)

serve_all_counted_example :
    let (rs, st) = serve_all (wired logger repository) requests start in
    (length st.requests_total ≡ returned rs + 0)
    × (total_of "success" st.requests_total
        ≡ successes rs + total_of "success" start.requests_total)
serve_all_counted_example = serve_all_counted (wired logger repository) requests start

effective_limit-IsPageSize_example :
    IsPageSize (pos 250) (effective_limit (pos 250))
    × (pos 1 ≤ℤ effective_limit (pos 250))
    × (effective_limit (pos 250) ≤ℤ pos 100)
effective_limit-IsPageSize_example = effective_limit-IsPageSize (pos 250)

validate_accepts_iff_example :
    ((validate_product mug ≡ none) ↔ IsValidProduct mug)
    × ((validate_create mug_command ≡ none) ↔ IsValidCreate mug_command)
    × ((validate_update rename ≡ none) ↔ IsValidUpdate rename)
validate_accepts_iff_example = validate_accepts_iff mug mug_command rename

constructor_test :
    (new_catalog_service (some logger) (some repository)
      ≡ ok (record { logger = some logger; repository = some repository }))
    × (new_catalog_service {S = Store} (some logger) none ≡ err (plain "repository is empty"))
unfolding new_catalog_service
constructor_test = (refl, refl)

message_test :
    message (wrap "invalid: " (sentinel invalid_pagination) "") ≡ "invalid: invalid pagination"
unfolding message sentinel_text
message_test = refl
