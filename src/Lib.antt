-- ===== src/Lib.antt =====
-- The catalog service: products that are listed, read, created, updated and restocked.
--
-- The program is layered. A transport (gRPC for the reads, HTTP for the writes) calls the catalog
-- service, which validates the request, calls one method of a repository and counts the result. The
-- repository is an interface with three implementations: in memory, PostgreSQL, and a cache in Redis
-- in front of another repository.
--
-- Common, Common/*: shared names; Boolean tests, integers, int32 and int64 wrap-around, lists over
--   the native numbers, strings.TrimSpace, and the verb %d of fmt.Sprintf. No code of the service.
-- Errors: Go's error values, `errors.Is`, and the sentinels of internal/domain/product.go.
-- Exec: a method takes a state to a state and returns a value, returns an error, or panics.
--   Exec/Ensures: code that keeps an invariant, with a rule for each way of composing it.
-- Domain, Domain/Validation: internal/domain/product.go. `validate_product`, `validate_create` and
--   `validate_update` are the three Validate methods; a pointer field of the update command is an
--   Option.
-- Repository: the interface ProductRepository of internal/service/catalog/catalog.go, a record of
--   methods over any state, and the part of context.Context that is read.
-- Service, Service/*: internal/service/catalog/catalog.go. NewCatalogService is
--   `new_catalog_service`, the five methods are `list_products`, `get_product`, `create_product`,
--   `update_product` and `update_stock`; the state is the counter requests_total with that of the
--   repository. `Call` is a call as data, `serve` makes it of the service, `forward` of the
--   repository, `serve_all` makes several.
-- InMemory, InMemory/*: internal/repository/in_memory/product_repository.go. `Store` is the slice and
--   the map; NewProductRepository is `new_product_repository`, and `list`, `get_by_id`, `create`,
--   `update` and `update_stock` are the methods. The mutex makes each of them one step.
-- Redis, Redis/*: internal/repository/redis/cache.go and cache_models.go. The methods of Cache, with
--   `product_key` and `product_list_key`. The client of go-redis and encoding/json are parameters;
--   Redis/Server states what the cache relies on of them: any call may fail, any entry may expire.
-- Cached, Cached/*: internal/repository/cached/product_repository.go, over any cache and any next
--   repository; the state is the counter cache_requests_total, the server's and the repository's.
--   Cached/Steps cuts the five methods at their calls of the cache and of the next repository (`advance`
--   is the next step of a call, `Pc` where it stands), and Cached/Interleaving lets the steps of several
--   calls, also of several instances, come in any order on one server and one next repository.
--   Cached/Interleaving/Calm is a run in which the next repository is written only while no read holds a
--   product that it is yet to store; InMemory/Lawful, that the in-memory repository is what such a run
--   asks of the next repository.
-- Grpc, Grpc/*: internal/transport/grpc/v1/handlers/handler.go. `list_products`, `get_product` and
--   `stream_products` are the handlers over any service; the state is the counter grpc_requests_total
--   with the service's. The generated messages are records of the fields that are used; the stream's
--   Send and the float64 price are parameters. Grpc/Truncate is `truncate`, over the bytes of a string.
-- Http, Http/*: internal/transport/http/v1/handlers/catalog_admin.go. `create_product`,
--   `update_product` and `update_stock` are the handlers; a request comes with its decoded body, and
--   the reply is the status and the body that are written.
-- Http/Router, Http/Routes: internal/transport/http/v1/router.go with handlers/health.go and
--   handlers/admin.go. `serve_http` is the handler that NewRouter returns, over the state of the service
--   and of the logger; `route` is the choice of net/http's ServeMux among its patterns.
-- Observability, Observability/Levels: internal/observability/logger.go. SetLevel is `set_level`,
--   Level is `level_of`, parseLevel is `parse_level`. Observability/Metrics: metrics.go, MustMetrics is
--   `must_metrics`; Observability/Tracing: tracing.go, InitTracing is `init_tracing`.
-- Postgres, Postgres/*: internal/repository/postgres/product_repository.go. `list`, `get_by_id`,
--   `create`, `update` and `update_stock` are the methods, over a driver `Sql` and the identifiers,
--   times and JSON of a `World`. Postgres/Statement has the texts of the statements and the UPDATE
--   that Update puts together; Postgres/Transaction states what is relied on of PostgreSQL;
--   the column of an event's payload is JSONB, so `jsonb` stands for the text that it gives back;
--   Postgres/Source is about the reads, Postgres/Outcome and Postgres/Writes about the transactions,
--   Postgres/Update about the UPDATE.
-- Events: internal/events/producer.go. Publish is `publish` and PublishRaw is `publish_raw`.
-- Outbox, Outbox/*: internal/outbox/publisher.go. `run` is Run over a sequence of ticks that a done
--   context may end, `publish_batch` publishBatch, and so on. Outbox/Table is the table of events,
--   Outbox/Environment what is relied on of PostgreSQL and Kafka, Outbox/Interleaving the steps of
--   the publisher and of the PostgreSQL repository on one database in any order.
-- Config, Config/Valid: internal/config/config.go. Validate is `validate`, Load is `load`.
-- App, App/*: internal/app/app.go with grpcapp/app.go and httpapp/app.go. New is `new_app` and Shutdown
--   `shutdown`, over the resources that the process holds; App/Ready is readinessChecker, App/Serving the
--   goroutines of Run and the channel of their errors. App/Wiring is about the service that New puts
--   together, App/Reads about the reads through all its layers.
-- Command: cmd/catalog/main.go, from the path of the configuration to the exit status.
-- Migrator, Migrator/Status: cmd/migrator/main.go. Client, Client/Log: cmd/catalog-client/main.go. Each
--   `main` goes from the parsed flags to the exit status and the lines that are written.
-- Fixtures, Fixtures/*, Tests/*: data, a server, a codec, a database and a broker that keep those
--   promises, and runs.
--
-- Integers: Go's int is read as int64. Limits, offsets, prices and stocks are integers; the sums
-- `offset + limit` (int) and `stock + delta` (int32) wrap around. The lengths of slices do not.
-- A panic is a result of its own, so that what does not panic is a theorem. Fuel is that of
-- the SCAN loop of InvalidateListCache, which ends when the server returns cursor 0, and that of the
-- client's loop over Recv, which ends with the stream; running out of it counts as a panic, and the
-- number of SCAN calls that the server's iteration takes, and more than the messages of the stream, is
-- enough.
--
-- Not modelled: logs of the service, spans and durations, which nothing reads back; inside a step of a
-- call of the cached repository, the SCAN and DEL calls of InvalidateListCache next to other calls;
-- sessions of PostgreSQL that overlap inside a transaction or a tick; what the gRPC and HTTP servers do
-- between their start and their end; the parsing of flags; and the stats handler of OpenTelemetry.
pub mod Command
pub mod Migrator
pub mod Client
pub mod Common
pub mod Config
pub mod Errors
pub mod Exec
pub mod Domain
pub mod Repository
pub mod Service
pub mod InMemory
pub mod Redis
pub mod App
pub mod Cached
pub mod Grpc
pub mod Http
pub mod Events
pub mod Observability
pub mod Outbox
pub mod Postgres
pub mod Fixtures
pub mod Tests
