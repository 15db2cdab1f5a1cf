-- ===== src/Cached/Interleaving/Calm.antt =====
-- Runs of calls of internal/repository/cached/product_repository.go in which no product changes while a
-- read holds one, and the entries of products are dropped: the cache then stays up to date.
use shop_catalog_service.Common.{ℕ, ◌≡◌, ◌≢◌, refl, String, Option, none, List}
use shop_catalog_service.Common.Int.{ℤ}
use shop_catalog_service.Exec.{crash, Exec, Result, ok}
use shop_catalog_service.Domain.{Product}
use shop_catalog_service.Repository.{ProductRepository, Context}
use shop_catalog_service.Service.Calls.{Call, list, get, create, update, stock, Reply}
use shop_catalog_service.Redis
use shop_catalog_service.Redis.{Json}
use shop_catalog_service.Redis.Server.{Shrinks}
use shop_catalog_service.Cached.{CreateProductCommand, CachedRepository}
use shop_catalog_service.Cached.Coherence.{IsSource}
use shop_catalog_service.Cached.Steps.{
  Pc, started, product_missed, product_read, page_missed, page_read, stored, dropped, returned,
}
use shop_catalog_service.Cached.Interleaving.{System, stepped, called, expired}
use shop_catalog_service.Cached.Interleaving.Held.{IsReading}
use shop_catalog_service.Exec.Ensures.{Post}

-- A write before its first step.
abbrev pub IsWriting : Pc → Type 0
IsWriting (started (get id)) = ⊥
IsWriting (started (list limit offset)) = ⊥
IsWriting (started (create cmd)) = Unit
IsWriting (started (update cmd)) = Unit
IsWriting (started (stock id delta)) = Unit
IsWriting (product_missed id) = ⊥
IsWriting (product_read id p) = ⊥
IsWriting (page_missed limit offset) = ⊥
IsWriting (page_read limit offset ps) = ⊥
IsWriting (stored call id p) = ⊥
IsWriting (dropped call p) = ⊥
IsWriting (returned call reply) = ⊥

module _ {R S : Type 0} (json : Json) (fuel : ℕ) (r : CachedRepository R S)
    (entries : R → String → Option String) where
  pub data Calm (s : System R S) : System R S → Type 0 where
    reads : (ctx : Context) (i : ℕ) → IsReading (s.pc i) → Calm s (stepped json fuel r ctx i s)
    -- No read holds a product when the next repository is written.
    writes :
        (ctx : Context) (i : ℕ)
        → IsWriting (s.pc i)
        → ((j : ℕ) (id : String) (p : Product) → s.pc j ≢ product_read id p)
        → Calm s (stepped json fuel r ctx i s)
    -- DeleteProduct succeeds.
    drops :
        (ctx : Context) (i : ℕ) (call : Call) (id : String) (p : Product)
        → s.pc i ≡ stored call id p
        → (Redis.delete_product r.cache ctx id s.shared.redis).0 ≡ ok tt
        → Calm s (stepped json fuel r ctx i s)
    drops_pages :
        (ctx : Context) (i : ℕ) (call : Call) (p : Product)
        → s.pc i ≡ dropped call p
        → Calm s (stepped json fuel r ctx i s)
    calls :
        (i : ℕ) (before call : Call) (reply : Result Reply)
        → s.pc i ≡ returned before reply
        → Calm s (called json fuel r i call s)
    expires :
        (redis : R) → Shrinks entries s.shared.redis redis → Calm s (expired json fuel r redis s)

  pub data CalmlyReaches (s : System R S) : System R S → Type 0 where
    here : CalmlyReaches s s
    further : {t u : System R S} → CalmlyReaches s t → Calm t u → CalmlyReaches s u

-- The call of the next repository that a write begins with, and the id whose entry it is to drop.
abbrev pub write_of : {S : Type 0} → ProductRepository S → Context → Call → Exec S Product
write_of next ctx (list limit offset) = crash
write_of next ctx (get id) = crash
write_of next ctx (create cmd) = next.create ctx cmd
write_of next ctx (update cmd) = next.update ctx cmd
write_of next ctx (stock id delta) = next.update_stock ctx id delta

abbrev pub written_id : Call → Product → String
written_id (list limit offset) p = ""
written_id (get id) p = ""
written_id (create cmd) p = p.id
written_id (update cmd) p = p.id
written_id (stock id delta) p = id

-- What the next repository promises at a state: its reads keep their promises, a write that returns a
-- product changes no other, the product of Create is new, and a write that fails changes nothing.
pub record IsLawful {S : Type 0} (next : ProductRepository S) (find : S → String → Option Product)
    (listing : S → ℤ → ℤ → Option (List Product)) (s : S) : Type 0 where
  pub source : IsSource next find listing s
  pub changes :
      (ctx : Context) (call : Call) (p : Product)
      → (write_of next ctx call s).0 ≡ ok p
      → (k : String) → k ≢ written_id call p
      → find (write_of next ctx call s).1 k ≡ find s k
  pub fresh :
      (ctx : Context) (cmd : CreateProductCommand) (p : Product)
      → (next.create ctx cmd s).0 ≡ ok p
      → find s p.id ≡ none
  pub failed :
      (ctx : Context) (call : Call)
      → Post (λ _. ⊥) (write_of next ctx call s).0
      → (write_of next ctx call s).1 ≡ s

pub IsWriting-call :
    (pc : Pc) → IsWriting pc → (call : Call) × (pc ≡ started call) × IsWriting (started call)
IsWriting-call (started call) w = (call, refl, w)
IsWriting-call (product_missed id) w = absurd w
IsWriting-call (product_read id p) w = absurd w
IsWriting-call (page_missed limit offset) w = absurd w
IsWriting-call (page_read limit offset ps) w = absurd w
IsWriting-call (stored call id p) w = absurd w
IsWriting-call (dropped call p) w = absurd w
IsWriting-call (returned call reply) w = absurd w
