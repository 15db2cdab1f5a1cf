-- ===== src/App/Reads.antt =====
-- The reads of the application of internal/app/app.go from end to end: gRPC handler, service, cache in
-- Redis, and PostgreSQL, as New puts them together.
use shop_catalog_service.Common.{ℕ, ◌≡◌, sym, String, Option, some, List}
use shop_catalog_service.Common.Int.{ℤ, pos}
use shop_catalog_service.Exec.{ok}
use shop_catalog_service.Exec.Ensures.{Post}
use shop_catalog_service.Config.{Config}
use shop_catalog_service.Domain.{Product}
use shop_catalog_service.Repository.{ProductRepository, Context}
use shop_catalog_service.Service.{Logger, CatalogService, effective_limit}
use shop_catalog_service.Service.Reads.{Kept, get_product-Ensures, list_products-Ensures}
use shop_catalog_service.Redis.{RedisClient, Json, Cache}
use shop_catalog_service.Redis.Server.{IsRedis, IsJson}
use shop_catalog_service.Cached.{CachedRepository, cached_repository}
use shop_catalog_service.Cached.Coherence.{IsSource, Stored, Paged, get_by_id-At, list-At}
use shop_catalog_service.Cached.Parts.{Keeping}
use shop_catalog_service.Postgres.{Sql, World, PgState}
use shop_catalog_service.Postgres.Source.{row_of, rows_of, IsProductTable, repository-IsSource}
use shop_catalog_service.Grpc
use shop_catalog_service.Grpc.{GrpcState, ListRequest}
use shop_catalog_service.Grpc.Reads.{Shows, ShowsPage, get_product-Shows, list_products-ShowsPage}
use shop_catalog_service.App.{App, Libraries, Served, nothing_open, new_app}
use shop_catalog_service.App.Wiring.{service_over, repository_over, IsWired, new_app-IsWired}
use mathlib.Core.Path.{subst}

module _ {D T R F : Type 0} (libraries : Libraries) (logger : Logger) (sql : Sql D T)
    (client : RedisClient R) (json : Json) (fuel : ℕ) (world : World)
    (entries : R → String → Option String) (laws : IsRedis entries client) (codec : IsJson json)
    (rows : D → List Product) (price_of : ℤ → F) where
  abbrev product_at : PgState D → String → Option Product
  product_at s = row_of (rows s.db)

  abbrev page_at : PgState D → ℤ → ℤ → Option (List Product)
  page_at s limit offset = some (rows_of (rows s.db) limit offset)

  -- PostgreSQL is at a state, and the cache has only what the state has.
  abbrev pub Serves : PgState D → Served D R → Type 0
  Serves s = Keeping entries json (Stored product_at s) (Paged page_at s) s

  module _ (s : PgState D) (table : IsProductTable sql rows s.db) (ctx : Context) where
    -- What the two handlers over a service come to.
    record Reads (svc : CatalogService (Served D R)) (id : String) (req : ListRequest)
        (st : GrpcState (Served D R)) : Type 0 where
      get :
          Serves s (Grpc.get_product price_of svc ctx (some id) st).1.inner.repo
          × Shows price_of
              (Stored product_at s id)
              (Grpc.get_product price_of svc ctx (some id) st).0
      list :
          Serves s (Grpc.list_products price_of svc ctx (some req) st).1.inner.repo
          × ShowsPage price_of
              (Paged page_at s (effective_limit (pos req.limit)) (pos req.offset))
              (Grpc.list_products price_of svc ctx (some req) st).0

    service_over-Reads :
        (cache : Cache R) (id : String) (req : ListRequest) (st : GrpcState (Served D R))
        → cache.client ≡ client
        → Serves s st.inner.repo
        → Reads (service_over libraries logger sql client json fuel world cache) id req st
    unfolding cached_repository
    service_over-Reads cache id req st same held = record {
      get =
          get_product-Shows price_of svc (Kept (Serves s) logger below ctx) ctx
            (Stored product_at s id) id st
            (get_product-Ensures (Serves s) logger below ctx (Stored product_at s id) id
              (get_by_id-At entries json repo product_at page_at laws' codec s source ctx id))
            held;
      list =
          list_products-ShowsPage price_of svc (Kept (Serves s) logger below ctx) ctx
            (Paged page_at s (effective_limit (pos req.limit)) (pos req.offset)) req st
            (list_products-Ensures (Serves s) logger below ctx
              (Paged page_at s (effective_limit (pos req.limit)) (pos req.offset)) (pos req.limit)
              (pos req.offset)
              (list-At entries json repo product_at page_at laws' codec s source ctx
                (effective_limit (pos req.limit)) (pos req.offset)))
            held;
    }
      where
        svc : CatalogService (Served D R)
        svc = service_over libraries logger sql client json fuel world cache

        repo : CachedRepository R (PgState D)
        repo = repository_over libraries logger sql client json fuel world cache

        below : ProductRepository (Served D R)
        below = cached_repository json fuel repo

        laws' : IsRedis entries cache.client
        laws' = subst (IsRedis entries) (sym same) laws

        source : IsSource repo.next product_at page_at s
        source = repository-IsSource world (record { logger = logger; db = sql }) rows s table

    -- In the application that New returns, gRPC's GetProduct and ListProducts, through the service, the
    -- cache and PostgreSQL, answer only with the product that the table has under the id and with the
    -- page that LIMIT and OFFSET choose of it, for the limit, defaulted and capped, and the offset, field by field in their
    -- messages and in their order, or with a status; they leave PostgreSQL as it was, and in the cache only what the table
    -- has, so that this holds again for the next call. PostgreSQL is at a state where the table answers
    -- as documented, the cache has only what the table has, and Redis and the JSON encoding keep their
    -- documented promises.
    pub reads_served :
        (cfg : Config) (app : App (Served D R))
        → (new_app libraries logger sql client json fuel world (some cfg) nothing_open).0 ≡ ok app
        → (id : String) (req : ListRequest) (st : GrpcState (Served D R)) → Serves s st.inner.repo
        → (Serves s (Grpc.get_product price_of app.service ctx (some id) st).1.inner.repo
            × Shows price_of
                (Stored product_at s id)
                (Grpc.get_product price_of app.service ctx (some id) st).0)
          × (Serves s (Grpc.list_products price_of app.service ctx (some req) st).1.inner.repo
              × ShowsPage price_of
                  (Paged page_at s (effective_limit (pos req.limit)) (pos req.offset))
                  (Grpc.list_products price_of app.service ctx (some req) st).0)
    reads_served cfg app built id req st held =
        let (cache, same, wired) =
          subst (Post (IsWired libraries logger sql client json fuel world)) built
            (new_app-IsWired libraries logger sql client json fuel world cfg nothing_open) in
        let reads =
          subst (λ svc. Reads svc id req st) (sym wired)
            (service_over-Reads cache id req st same held) in
        (reads.get, reads.list)
