-- ===== src/App/Ready.antt =====
-- readinessChecker of internal/app/app.go, behind the handler of /ready.
use shop_catalog_service.Common.{
  ◌≡◌, refl, ◌⊎◌, inl, inr, Option, none, some, [], ◌∷◌, Option-cases,
}
use shop_catalog_service.Errors.{Error, plain, wrap, message}
use shop_catalog_service.Exec.{Result, ok, err}
use shop_catalog_service.Repository.{Context}
use shop_catalog_service.Http.Router.{json, ready_answer, checked}

-- readinessChecker: what the two clients answer to a ping; a nil client is `none`.
pub record ReadinessChecker : Type 0 where
  pub db : Option (Context → Option Error)
  pub redis : Option (Context → Option Error)

abbrev pub ping_redis : Option Error → Result (Unit {0})
ping_redis none = ok tt
ping_redis (some e) = err (wrap "redis not ready: " e "")

abbrev pings : Option Error → Option Error → Result (Unit {0})
pings none redis = ping_redis redis
pings (some e) redis = err (wrap "postgres not ready: " e "")

-- Check, on the two clients.
abbrev check_clients :
    Context → Option (Context → Option Error) → Option (Context → Option Error) → Result (Unit {0})
check_clients ctx none redis = err (plain "postgres is not initialized")
check_clients ctx (some db) none = err (plain "redis is not initialized")
check_clients ctx (some db) (some redis) = pings (db ctx) (redis ctx)

-- Check; a nil checker is `none`.
pub check : Option ReadinessChecker → Context → Result (Unit {0})
check none ctx = err (plain "readiness checker is nil")
check (some c) ctx = check_clients ctx c.db c.redis

-- The two clients, one of which does not answer.
abbrev IsDown : Option Error → Option Error → Type 0
IsDown db redis = ((x : Error) × (db ≡ some x)) ⊎ ((x : Error) × (redis ≡ some x))

-- GET /ready of an application: 200 just where PostgreSQL and Redis answer the ping, and 503 just
-- where one of them does not.
ready_answer-check :
    (db redis : Context → Option Error) (ctx : Context)
    → let answer =
        ready_answer
          (some (check (some (record { db = some db; redis = some redis }))))
          ctx
          "GET" in
      ((answer ≡ json 200 (("status", "ready") ∷ [])) × (db ctx ≡ none) × (redis ctx ≡ none))
      ⊎ ((e : Error) × (answer ≡ json 503 (("status", "not_ready") ∷ ("error", message e) ∷ []))
          × IsDown (db ctx) (redis ctx))
unfolding ready_answer checked check
ready_answer-check db redis ctx = elim (Option-cases (db ctx)) [
  | inr (e, down) ↦ inr (wrap "postgres not ready: " e "", rw down refl, inl (e, down))
  | inl up ↦ elim (Option-cases (redis ctx)) [
    | inr (e, down) ↦ inr (wrap "redis not ready: " e "", rw up (rw down refl), inr (e, down))
    | inl up' ↦ inl (rw up (rw up' refl), up, up')
  ]
]
