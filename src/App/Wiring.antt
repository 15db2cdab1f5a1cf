-- ===== src/App/Wiring.antt =====
-- The service that New of internal/app/app.go puts together.
use shop_catalog_service.Common.{
  ℕ, ◌≡◌, refl, String, Bool, true, false, Option, none, some, Bool-cases, inl, inr,
}
use shop_catalog_service.Common.Int.{ℤ, pos, leb_ℤ}
use shop_catalog_service.Errors.{Error}
use shop_catalog_service.Exec.{Exec, fail, lift, ◌>>◌}
use shop_catalog_service.Exec.Ensures.{
  Ensures, Ensures-handle, Ensures-pure, Ensures-lift, Post, any,
}
use shop_catalog_service.Config.{Config, grpc_addr, http_addr}
use shop_catalog_service.Service.{Logger, CatalogService, new_catalog_service}
use shop_catalog_service.Redis.{RedisClient, Json, Cache, new_cache}
use shop_catalog_service.Cached.{CachedRepository, cached_repository, new_cached_repository}
use shop_catalog_service.Postgres
use shop_catalog_service.Postgres.{PostgresRepository, Sql, World, PgState, new_postgres_repository}
use shop_catalog_service.Grpc.{new_handler}
use shop_catalog_service.App.{
  attempt, guarded, App, Libraries, Resources, Served, give_up, cleanup, close_stores,
  close_postgres, shutdown_tracing, new_grpc_app, new_http_app, start_servers, start_repositories,
  start_stores, new_app, traced,
}

module _ {D T R : Type 0} (libraries : Libraries) (logger : Logger) (sql : Sql D T)
    (client : RedisClient R) (json : Json) (fuel : ℕ) (world : World) where
  -- The service over the cache in front of PostgreSQL, with this TTL.
  abbrev postgres_over : PostgresRepository D T
  postgres_over = record { logger = logger; db = sql }

  abbrev pub repository_over : Cache R → CachedRepository R (PgState D)
  repository_over cache = record {
    logger = logger;
    cache = cache;
    next = Postgres.repository world postgres_over;
  }

  abbrev pub service_over : Cache R → CatalogService (Served D R)
  service_over cache = record {
    logger = some logger;
    repository = some (cached_repository json fuel (repository_over cache));
  }

  abbrev pub IsWired : App (Served D R) → Type 0
  IsWired app = (cache : Cache R) × (cache.client ≡ client) × (app.service ≡ service_over cache)

  -- Any code, behind which something is built.
  abbrev Anywhere : Resources → Type 0
  Anywhere st = Unit

  no_promise : {A : Type 0} (m : Exec Resources A) → Ensures Anywhere (λ _. Unit {0}) m
  no_promise m = record { at = λ st i. (tt, any (m st).0) }

  gives_up :
      {A : Type 0} (Q : A → Type 0) (undo : Exec Resources (Unit {0})) (text : String) (e : Error)
      → Ensures Anywhere Q (give_up {A = A} undo text e)
  gives_up Q undo text e =
      Ensures-handle Anywhere (λ _. Unit {0}) Q undo fail _ (no_promise undo)
        (λ x. record { at = λ st i. (tt, tt) }) (λ _ _. record { at = λ st i. (tt, tt) })

  guarded-Ensures :
      {A B : Type 0} (P : A → Type 0) (Q : B → Type 0) (m : Exec Resources A)
      (undo : Exec Resources (Unit {0})) (text : String) (next : A → Exec Resources B)
      → Ensures Anywhere P m
      → ((a : A) → P a → Ensures Anywhere Q (next a))
      → Ensures Anywhere Q (guarded m undo text next)
  guarded-Ensures P Q m undo text next h k =
      Ensures-handle Anywhere P Q m (give_up undo text) next h (gives_up Q undo text) k

  start_servers-IsWired :
      (cfg : Config) (has : Bool) (cache : Cache R)
      → cache.client ≡ client
      → Ensures Anywhere IsWired (
          start_servers libraries logger sql client json fuel world cfg has (repository_over cache))
  unfolding start_servers new_catalog_service new_handler
  start_servers-IsWired cfg has cache same =
      guarded-Ensures (λ _. Unit {0}) IsWired
        (new_grpc_app libraries.listen (some logger) true (grpc_addr cfg)) (cleanup has)
        "create grpc app: " _ (no_promise _)
        (λ grpc _.
          guarded-Ensures (λ _. Unit {0}) IsWired
            (lift (new_http_app (some logger) (some (http_addr cfg)))) (cleanup has)
            "create http app: " _ (no_promise _)
            (λ http _. Ensures-pure Anywhere IsWired _ (cache, same, refl)))

  new_cache-client :
      (ttl : ℤ) → Post (λ c. c.client ≡ client) (new_cache logger (some logger) (some client) ttl)
  unfolding new_cache
  new_cache-client ttl = elim (Bool-cases (leb_ℤ ttl (pos 0))) [
    | inl short ↦ rw short tt
    | inr long ↦ rw long refl
  ]

  start_repositories-IsWired :
      (cfg : Config) (has : Bool)
      → Ensures Anywhere IsWired
          (start_repositories libraries logger sql client json fuel world cfg has)
  unfolding start_repositories new_postgres_repository new_cached_repository
  start_repositories-IsWired cfg has =
      guarded-Ensures (λ c. c.client ≡ client) IsWired
        (lift (new_cache logger (some logger) (some client) cfg.redis.ttl)) (close_stores has)
        "create redis cache: " _
        (Ensures-lift Anywhere (λ c. c.client ≡ client) _ (new_cache-client cfg.redis.ttl))
        (λ cache same. record {
          at = λ st i.
              (start_servers-IsWired cfg has cache same).at
                (record st { producer = true; outbox = true }) tt;
        })

  start_stores-IsWired :
      (cfg : Config) (has : Bool)
      → Ensures Anywhere IsWired (start_stores libraries logger sql client json fuel world cfg has)
  unfolding start_stores
  start_stores-IsWired cfg has =
      guarded-Ensures (λ _. Unit {0}) IsWired (attempt libraries.open_postgres)
        (shutdown_tracing has) "open postgres: " _ (no_promise _)
        (λ _ _. record {
          at = λ st i.
              (guarded-Ensures (λ _. Unit {0}) IsWired (attempt libraries.ping_postgres)
                  (close_postgres >> shutdown_tracing has) "ping postgres: " _ (no_promise _)
                  (λ _ _. record {
                    at = λ st i.
                        (guarded-Ensures (λ _. Unit {0}) IsWired (attempt libraries.ping_redis)
                            (close_stores has) "ping redis: " _ (no_promise _)
                            (λ _ _. start_repositories-IsWired cfg has)).at
                          (record st { redis = true }) tt;
                  })).at
                (record st { postgres = true }) tt;
        })

  traced-IsWired :
      (cfg : Config) (answer : Option Error)
      → Ensures Anywhere IsWired (traced libraries logger sql client json fuel world cfg answer)
  traced-IsWired cfg none = record {
    at = λ st i. (start_stores-IsWired cfg true).at (record st { tracing = true }) tt;
  }
  traced-IsWired cfg (some e) = start_stores-IsWired cfg false

  -- The application that New returns serves the cached repository over the PostgreSQL repository.
  pub new_app-IsWired :
      (cfg : Config) (st : Resources)
      → Post IsWired (new_app libraries logger sql client json fuel world (some cfg) st).0
  unfolding new_app
  new_app-IsWired cfg st = ((traced-IsWired cfg libraries.init_tracing).at st tt).1
