-- ===== src/Cached/Interleaving/Moves.antt =====
-- The steps of the writes of internal/repository/cached/product_repository.go: the one that calls the next
-- repository, and those that drop entries, whose errors are only logged.
use shop_catalog_service.Common.{ℕ, ◌≡◌, refl, String, [], ◌∷◌}
use shop_catalog_service.Exec.{Result, ok, err, panic, fail, pure, handle, continue}
use shop_catalog_service.Domain.{Product}
use shop_catalog_service.Repository.{Context}
use shop_catalog_service.Service.Calls.{Call, list, get, create, update, stock}
use shop_catalog_service.Redis
use shop_catalog_service.Redis.{Json}
use shop_catalog_service.Cached.{CachedRepository, CachedState, drop_product, drop_lists}
use shop_catalog_service.Cached.Steps.{Pc, started, stored, dropped, returned, settled, move}
use shop_catalog_service.Cached.Interleaving.Calm.{IsWriting, write_of}

-- What follows the next repository's answer to a write.
abbrev after : Call → Product → Pc
after (list limit offset) p = returned (list limit offset) (ok [])
after (get id) p = returned (get id) (ok [])
after (create cmd) p = dropped (create cmd) p
after (update cmd) p = stored (update cmd) p.id p
after (stock id delta) p = stored (stock id delta) id p

abbrev pub written : Call → Result Product → Pc
written call (ok p) = after call p
written call (err e) = returned call (err e)
written call panic = returned call panic

-- What follows a call whose error is only logged.
abbrev pub logged : Call → Pc → Result (Unit {0}) → Pc
logged call pc (ok u) = pc
logged call pc (err e) = pc
logged call pc panic = returned call panic

module _ {R S : Type 0} (json : Json) (fuel : ℕ) (r : CachedRepository R S) (ctx : Context) where
  abbrev ended : Call → Result Pc × CachedState R S → Pc × CachedState R S
  ended call (x, st) = (settled call x, st)

  written_lem :
      (call : Call) (x : Result Product) (st : CachedState R S)
      → ended call (continue x fail (λ p. pure (after call p)) st) ≡ (written call x, st)
  written_lem call (ok p) st = refl
  written_lem call (err e) st = refl
  written_lem call panic st = refl

  -- A write's first step.
  pub move-write :
      (call : Call) (st : CachedState R S)
      → IsWriting (started call)
      → move json fuel r ctx (started call) st ≡ (
        written call (write_of r.next ctx call st.store).0,
        record st { store = (write_of r.next ctx call st.store).1 },
      )
  unfolding move
  move-write (list limit offset) st w = absurd w
  move-write (get id) st w = absurd w
  move-write (create cmd) st w = written_lem (create cmd) _ _
  move-write (update cmd) st w = written_lem (update cmd) _ _
  move-write (stock id delta) st w = written_lem (stock id delta) _ _

  logged_lem :
      (call : Call) (pc : Pc) (x : Result (Unit {0})) (st : CachedState R S)
      → ended call (handle (λ s. continue x (λ e. pure tt) pure s) fail (λ _. pure pc) st)
        ≡ (logged call pc x, st)
  logged_lem call pc (ok u) st = refl
  logged_lem call pc (err e) st = refl
  logged_lem call pc panic st = refl

  pub move-stored :
      (call : Call) (id : String) (p : Product) (st : CachedState R S)
      → move json fuel r ctx (stored call id p) st ≡ (
        logged call (dropped call p) (Redis.delete_product r.cache ctx id st.redis).0,
        record st { redis = (Redis.delete_product r.cache ctx id st.redis).1 },
      )
  unfolding move drop_product
  move-stored call id p st = logged_lem call (dropped call p) _ _

  pub move-dropped :
      (call : Call) (p : Product) (st : CachedState R S)
      → move json fuel r ctx (dropped call p) st ≡ (
        logged call
            (returned call (ok (p ∷ [])))
            (Redis.invalidate_list_cache r.cache ctx fuel st.redis).0,
        record st { redis = (Redis.invalidate_list_cache r.cache ctx fuel st.redis).1 },
      )
  unfolding move drop_lists
  move-dropped call p st = logged_lem call (returned call (ok (p ∷ []))) _ _
