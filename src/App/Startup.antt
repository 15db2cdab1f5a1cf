-- ===== src/App/Startup.antt =====
-- New of internal/app/app.go: what it leaves open.
use shop_catalog_service.Common.{
  ◌≡◌, refl, inl, inr, ◌≢◌, ℕ, String, Bool, true, false, Option, none, some, str_eq, eq_iff,
  Bool-cases, Option-cases, if◌then◌else◌,
}
use shop_catalog_service.Common.Int.{pos, leb_ℤ}
use shop_catalog_service.Config.{Config, grpc_addr, http_addr, addr, ServerConfig}
use shop_catalog_service.Exec.{Exec, ◌>>◌, Result, ok, err, panic}
use shop_catalog_service.App.{
  cleanup, Resources, nothing_open, Libraries, App, start_servers, start_repositories, start_stores,
  new_app, traced, new_grpc_app, new_http_app, give_up, close_stores, close_postgres,
  shutdown_tracing,
}
use shop_catalog_service.Service.{Logger, new_catalog_service}
use shop_catalog_service.Postgres.{World, Sql, PgState, new_postgres_repository}
use shop_catalog_service.Redis.{Json, RedisClient, new_cache}
use Prim.Native.String.{◌++◌}
use text.Mathlib.TextLemmas.{cons-ne-nil, append-eq-nil_iff}
use shop_catalog_service.Cached.{CachedRepository, new_cached_repository}
use shop_catalog_service.Grpc.{new_handler}
use shop_catalog_service.Common.Decimal.{int_text}
use shop_catalog_service.Errors.{plain, Error}

no_colon : (s : String) → (":" ++ s) ≢ ""
no_colon s e = cons-ne-nil ":" "" (append-eq-nil_iff.0 e).0

-- An address begins with a colon.
addr_given : (s : ServerConfig) → str_eq (addr s) "" ≡ false
unfolding addr
addr_given s = elim (Bool-cases (str_eq (":" ++ int_text s.port) "")) [
  | inl e ↦ absurd (no_colon (int_text s.port) ((eq_iff (":" ++ int_text s.port) "").0 e))
  | inr e ↦ e
]

-- What cleanup leaves, with tracing or without.
cleaned :
    (has : Bool)
    → ◌≡◌ {A = Resources}
        (record {
          tracing = if has then false else has;
          postgres = false;
          redis = false;
          producer = false;
          outbox = false;
          listener = false;
          served = false;
        })
        nothing_open
cleaned true = refl
cleaned false = refl

-- The state on the way, by what was opened.
abbrev opened : Bool → Bool → Bool → Resources
opened has postgres redis = record {
  tracing = has;
  postgres = postgres;
  redis = redis;
  producer = false;
  outbox = false;
  listener = false;
  served = false;
}

-- How New ends. `has` says whether tracing was started.
abbrev pub Starts : {S : Type 0} → Bool → Result (App S) → Resources → Type 0
Starts has (ok app) st =
    (app.tracing ≡ has)
    × (st ≡ record {
      tracing = has;
      postgres = true;
      redis = true;
      producer = true;
      outbox = true;
      listener = true;
      served = false;
    })
Starts has (err e) st = st ≡ nothing_open
Starts has panic st = has ≡ false

-- How closing ends, where tracing is or is not there to close.
abbrev Closes : Bool → Result (Unit {0}) × Resources → Type 0
Closes true x = x ≡ (ok tt, nothing_open)
Closes false x = x.0 ≡ panic

gave_up :
    (S : Type 0) (has : Bool) (st : Resources) (undo : Exec Resources (Unit {0})) (text : String)
    (e : Error)
    → Closes has (undo st)
    → Starts has (give_up {A = App S} undo text e st).0 (give_up {A = App S} undo text e st).1
gave_up S true st undo text e h = rw h refl
gave_up S false st undo text e h = rw h refl

closes : (has : Bool) → Closes has (shutdown_tracing has (opened has false false))
closes true = refl
closes false = refl

-- Whether InitTracing answered without an error.
abbrev pub has_tracing : Option Error → Bool
has_tracing none = true
has_tracing (some e) = false

module _ {D T R : Type 0} (libraries : Libraries) (logger : Logger) (sql : Sql D T)
    (client : RedisClient R) (json : Json) (fuel : ℕ) (world : World) where
  start_servers-Starts :
      (cfg : Config) (has : Bool) (repo : CachedRepository R (PgState D))
      → let (r, st) =
          start_servers libraries logger sql client json fuel world cfg has repo (record {
            tracing = has;
            postgres = true;
            redis = true;
            producer = true;
            outbox = true;
            listener = false;
            served = false;
          }) in
        Starts has r st
  unfolding start_servers cleanup new_catalog_service new_handler new_grpc_app new_http_app
      grpc_addr http_addr
  start_servers-Starts cfg has repo =
      rw (addr_given cfg.grpc) (elim (Option-cases (libraries.listen (grpc_addr cfg))) [
        | inl listening ↦ rw listening (rw (addr_given cfg.http) (refl, refl))
        | inr (e, fails) ↦ rw fails (cleaned has)
      ])

  start_repositories-Starts :
      (cfg : Config) (has : Bool)
      → let (r, st) =
          start_repositories libraries logger sql client json fuel world cfg has
            (opened has true true) in
        Starts has r st
  unfolding start_repositories new_postgres_repository new_cache new_cached_repository
  start_repositories-Starts cfg has = elim (Bool-cases (leb_ℤ cfg.redis.ttl (pos 0))) [
    | inl expired ↦ rw expired (
        gave_up _ has (opened has true true) (close_stores has) "create redis cache: "
          (plain "redis ttl must be > 0") (closes has))
    | inr lasting ↦ rw lasting (start_servers-Starts cfg has _)
  ]

  start_stores-Starts :
      (cfg : Config) (has : Bool)
      → let (r, st) =
          start_stores libraries logger sql client json fuel world cfg has
            (opened has false false) in
        Starts has r st
  unfolding start_stores
  start_stores-Starts cfg has = elim (Option-cases libraries.open_postgres) [
    | inr (e, fails) ↦ rw fails (
        gave_up _ has (opened has false false) (shutdown_tracing has) "open postgres: " e
          (closes has))
    | inl opens ↦ rw opens (elim (Option-cases libraries.ping_postgres) [
      | inr (e, fails) ↦ rw fails (
          gave_up _ has (opened has true false) (close_postgres >> shutdown_tracing has)
            "ping postgres: " e (closes has))
      | inl answers ↦ rw answers (elim (Option-cases libraries.ping_redis) [
        | inr (e, fails) ↦
            rw fails (
              gave_up _ has (opened has true true) (close_stores has) "ping redis: " e (closes has))
        | inl answers ↦ rw answers (start_repositories-Starts cfg has)
      ])
    ])
  ]

  traced-Starts :
      (cfg : Config) (init : Option Error)
      → let (r, st) = traced libraries logger sql client json fuel world cfg init nothing_open in
        Starts (has_tracing init) r st
  traced-Starts cfg none = start_stores-Starts cfg true
  traced-Starts cfg (some e) = start_stores-Starts cfg false

  -- New with a configuration, from a process that holds nothing: an application comes with all its
  -- resources held, an error leaves none of them held, and it panics only where InitTracing failed.
  pub new_app-Starts :
      (cfg : Config)
      → let (r, st) = new_app libraries logger sql client json fuel world (some cfg) nothing_open in
        Starts (has_tracing libraries.init_tracing) r st
  unfolding new_app
  new_app-Starts cfg = traced-Starts cfg libraries.init_tracing
