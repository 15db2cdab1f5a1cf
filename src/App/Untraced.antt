-- ===== src/App/Untraced.antt =====
-- New of internal/app/app.go, where tracing could not be started.
use shop_catalog_service.Common.{
  ◌≡◌, refl, ◌⊎◌, inl, inr, ℕ, true, false, Option, none, some, Bool-cases, Option-cases,
}
use shop_catalog_service.Common.Int.{pos, leb_ℤ}
use shop_catalog_service.Config.{Config}
use shop_catalog_service.Exec.{panic}
use shop_catalog_service.App.{
  nothing_open, Libraries, start_repositories, start_stores, new_app, traced,
}
use shop_catalog_service.Service.{Logger}
use shop_catalog_service.Postgres.{World, Sql, new_postgres_repository}
use shop_catalog_service.Redis.{Json, RedisClient, new_cache}
use shop_catalog_service.Errors.{Error}

-- What can fail before the publisher is made.
abbrev FailsEarly : Libraries → Config → Type 0
FailsEarly libraries cfg =
    ((x : Error) × (libraries.open_postgres ≡ some x))
    ⊎ (((x : Error) × (libraries.ping_postgres ≡ some x))
        ⊎ (((x : Error) × (libraries.ping_redis ≡ some x)) ⊎ (leb_ℤ cfg.redis.ttl (pos 0) ≡ true)))

module _ {D T R : Type 0} (libraries : Libraries) (logger : Logger) (sql : Sql D T)
    (client : RedisClient R) (json : Json) (fuel : ℕ) (world : World) where
  no_failure :
      (cfg : Config)
      → FailsEarly libraries cfg
      → libraries.open_postgres ≡ none
      → libraries.ping_postgres ≡ none
      → libraries.ping_redis ≡ none
      → leb_ℤ cfg.redis.ttl (pos 0) ≡ false
      → ⊥
  no_failure cfg (inl (x, h)) a b c d = cc
  no_failure cfg (inr (inl (x, h))) a b c d = cc
  no_failure cfg (inr (inr (inl (x, h)))) a b c d = cc
  no_failure cfg (inr (inr (inr h))) a b c d = cc

  untraced_stores :
      (cfg : Config)
      → FailsEarly libraries cfg
      → (start_stores libraries logger sql client json fuel world cfg false nothing_open).0 ≡ panic
  unfolding start_stores start_repositories new_postgres_repository new_cache
  untraced_stores cfg h = elim (Option-cases libraries.open_postgres) [
    | inr (e, fails) ↦ rw fails refl
    | inl opens ↦ elim (Option-cases libraries.ping_postgres) [
      | inr (e, fails) ↦ rw opens (rw fails refl)
      | inl postgres ↦ elim (Option-cases libraries.ping_redis) [
        | inr (e, fails) ↦ rw opens (rw postgres (rw fails refl))
        | inl redis ↦ elim (Bool-cases (leb_ℤ cfg.redis.ttl (pos 0))) [
          | inl expired ↦ rw opens (rw postgres (rw redis (rw expired refl)))
          | inr lasting ↦ absurd (no_failure cfg h opens postgres redis lasting)
        ]
      ]
    ]
  ]

  untraced :
      (cfg : Config) (init : Option Error) (e : Error)
      → init ≡ some e
      → FailsEarly libraries cfg
      → (traced libraries logger sql client json fuel world cfg init nothing_open).0 ≡ panic
  untraced cfg none e absent h = cc
  untraced cfg (some _) e failed h = untraced_stores cfg h

  -- Where InitTracing failed, which New means to survive, and PostgreSQL or Redis cannot be reached or the TTL
  -- of the cache is not positive, New does not return its error: it calls the nil shutdownTracing
  -- and panics.
  pub new_app-panics :
      (cfg : Config) (e : Error)
      → libraries.init_tracing ≡ some e
      → FailsEarly libraries cfg
      → (new_app libraries logger sql client json fuel world (some cfg) nothing_open).0 ≡ panic
  unfolding new_app
  new_app-panics cfg e failed h = untraced cfg libraries.init_tracing e failed h
