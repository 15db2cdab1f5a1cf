-- ===== src/App.antt =====
-- internal/app/app.go, grpcapp/app.go and httpapp/app.go: how the process starts and how it stops. The
-- state says which resources the process holds; what the libraries answer is a parameter. The goroutines
-- of Run are in the child Serving. `fuel` is that of the cache's SCAN.
pub mod Startup
pub mod Untraced
pub mod Stop
pub mod Ready
pub mod Serving
pub mod Wiring
pub mod Reads
use shop_catalog_service.Common.{
  ℕ, String, Bool, true, false, Option, none, some, List, [], ◌∷◌, ◌++◌, str_eq, if◌then◌else◌,
}
use shop_catalog_service.Errors.{Error, plain, wrap}
use shop_catalog_service.Exec.{
  Result, ok, err, panic, Exec, pure, fail, crash, lift, handle, ◌>>=◌, ◌>>◌,
}
use shop_catalog_service.Config.{Config, grpc_addr, http_addr}
use shop_catalog_service.Repository.{ProductRepository}
use shop_catalog_service.Service.{Logger, CatalogService, new_catalog_service}
use shop_catalog_service.Redis.{RedisClient, Json, new_cache}
use shop_catalog_service.Cached.{
  CachedRepository, CachedState, new_cached_repository, cached_repository,
}
use shop_catalog_service.Postgres.{Sql, World, PgState, PostgresRepository, new_postgres_repository}
use shop_catalog_service.Postgres
use shop_catalog_service.Grpc.{new_handler}

-- What the process holds; `outbox` is the context of the publisher, and `served` says whether the gRPC
-- listener was given to Serve.
pub record Resources : Type 0 where
  pub tracing : Bool
  pub postgres : Bool
  pub redis : Bool
  pub producer : Bool
  pub outbox : Bool
  pub listener : Bool
  pub served : Bool

abbrev pub nothing_open : Resources
nothing_open = record {
  tracing = false;
  postgres = false;
  redis = false;
  producer = false;
  outbox = false;
  listener = false;
  served = false;
}

-- What the libraries answer; nil is `none`.
pub record Libraries : Type 0 where
  pub init_tracing : Option Error
  pub open_postgres : Option Error
  pub ping_postgres : Option Error
  pub ping_redis : Option Error
  pub listen : String → Option Error

-- grpcapp.App and httpapp.App by their addresses.
pub record GrpcApp : Type 0 where
  pub addr : String

pub record HttpApp : Type 0 where
  pub addr : String

-- httpapp.New; a server is its address.
pub new_http_app : Option Logger → Option String → Result HttpApp
new_http_app none server = err (plain "logger is nil")
new_http_app (some l) none = err (plain "http server is nil")
new_http_app (some l) (some addr) =
    if str_eq addr "" then err (plain "http server addr is empty") else ok (record { addr = addr })

-- What a call of net.Listen leaves.
abbrev listened : String → Option Error → Exec Resources GrpcApp
listened addr none st = (ok (record { addr = addr }), record st { listener = true })
listened addr (some e) st = (err (wrap "listen grpc: " e ""), st)

-- grpcapp.New; `server` says whether there is one.
pub new_grpc_app : (String → Option Error) → Option Logger → Bool → String → Exec Resources GrpcApp
new_grpc_app listen none server addr = fail (plain "logger is nil")
new_grpc_app listen (some l) false addr = fail (plain "grpc server is nil")
new_grpc_app listen (some l) true addr =
    if str_eq addr "" then fail (plain "grpc addr is empty") else listened addr (listen addr)

-- The closing calls of New, whose answers it ignores; they are taken to release what they close.
abbrev pub close_postgres : Exec Resources (Unit {0})
close_postgres st = (ok tt, record st { postgres = false })

abbrev pub close_redis : Exec Resources (Unit {0})
close_redis st = (ok tt, record st { redis = false })

-- The call of shutdownTracing; where it is nil, `has` is false.
abbrev pub shutdown_tracing : Bool → Exec Resources (Unit {0})
shutdown_tracing true st = (ok tt, record st { tracing = false })
shutdown_tracing false st = (panic, st)

-- The closures of the stores and of tracing, on the early error paths.
abbrev pub close_stores : Bool → Exec Resources (Unit {0})
close_stores has = close_redis >> close_postgres >> shutdown_tracing has

-- cleanup
pub cleanup : Bool → Exec Resources (Unit {0})
cleanup has st = (
  ok tt,
  record st {
    outbox = false;
    producer = false;
    redis = false;
    postgres = false;
    tracing = if has then false else st.tracing;
  },
)

-- `if err != nil { undo; return nil, fmt.Errorf(text, err) }`
abbrev pub give_up : {A : Type 0} → Exec Resources (Unit {0}) → String → Error → Exec Resources A
give_up undo text e = undo >> fail (wrap text e "")

-- A call that answers an error or nil.
abbrev attempt : Option Error → Exec Resources (Unit {0})
attempt none = pure tt
attempt (some e) = fail e

abbrev holding : (Resources → Resources) → Exec Resources (Unit {0})
holding f st = (ok tt, f st)

-- Each call with its error path, and what comes behind it.
abbrev guarded :
    {A B : Type 0}
    → Exec Resources A
    → Exec Resources (Unit {0})
    → String
    → (A → Exec Resources B)
    → Exec Resources B
guarded m undo text next = handle m (give_up undo text) next

-- App; `tracing` says whether shutdownTracing is set. Its stores, publisher and contexts are held as
-- Resources; its other fields are always set.
pub record App (S : Type 0) : Type 0 where
  pub grpc_app : GrpcApp
  pub http_app : HttpApp
  pub service : CatalogService S
  pub tracing : Bool

-- The state of the cached repository over PostgreSQL.
abbrev pub Served : Type 0 → Type 0 → Type 0
Served D R = CachedState R (PgState D)

module _ {D T R : Type 0} (libraries : Libraries) (logger : Logger) (sql : Sql D T)
    (client : RedisClient R) (json : Json) (fuel : ℕ) (world : World) where
  -- From the catalog service on: each error runs cleanup.
  pub start_servers :
      Config → Bool → CachedRepository R (PgState D) → Exec Resources (App (Served D R))
  unfolding cleanup new_catalog_service new_handler new_grpc_app new_http_app cached_repository
  start_servers cfg has repo =
      guarded (lift (new_catalog_service (some logger) (some (cached_repository json fuel repo))))
        (cleanup has) "create catalog service: "
        λ service.
          guarded (lift (new_handler (some service))) (cleanup has) "create grpc handler: " λ _.
            guarded (new_grpc_app libraries.listen (some logger) true (grpc_addr cfg)) (cleanup has)
              "create grpc app: "
              λ grpc.
                guarded (lift (new_http_app (some logger) (some (http_addr cfg)))) (cleanup has)
                  "create http app: "
                  λ http.
                    pure (record {
                      grpc_app = grpc;
                      http_app = http;
                      service = service;
                      tracing = has;
                    })

  -- From the PostgreSQL repository on: the errors close the stores.
  pub start_repositories : Config → Bool → Exec Resources (App (Served D R))
  unfolding start_servers new_postgres_repository new_cache new_cached_repository
      Postgres.repository
  start_repositories cfg has =
      guarded (lift (new_postgres_repository logger (some logger) (some sql))) (close_stores has)
        "create postgres repository: "
        λ postgres.
          guarded (lift (new_cache logger (some logger) (some client) cfg.redis.ttl))
            (close_stores has) "create redis cache: "
            λ cache.
              guarded
                (lift (
                  new_cached_repository logger (some logger) (some cache)
                    (some (Postgres.repository world postgres))))
                (close_stores has) "create cached repository: "
                λ repo.
                  holding (λ st. record st { producer = true; outbox = true })
                  >> start_servers cfg has repo

  -- From sql.Open on; `has` says whether tracing was started.
  pub start_stores : Config → Bool → Exec Resources (App (Served D R))
  unfolding start_repositories
  start_stores cfg has =
      guarded (attempt libraries.open_postgres) (shutdown_tracing has) "open postgres: " λ _.
        holding (λ st. record st { postgres = true })
        >> guarded (attempt libraries.ping_postgres) (close_postgres >> shutdown_tracing has)
            "ping postgres: "
            λ _.
              holding (λ st. record st { redis = true })
              >> guarded (attempt libraries.ping_redis) (close_stores has) "ping redis: "
                  λ _. start_repositories cfg has

  -- New, from a nil error of InitTracing, and from one that only disables tracing.
  abbrev pub traced : Config → Option Error → Exec Resources (App (Served D R))
  traced cfg none = holding (λ st. record st { tracing = true }) >> start_stores cfg true
  traced cfg (some e) = start_stores cfg false

  -- New; a nil configuration is `none`.
  unfoldable pub new_app : Option Config → Exec Resources (App (Served D R))
  unfolding start_stores
  new_app none = fail (plain "config is nil")
  new_app (some cfg) = traced cfg libraries.init_tracing
