-- ===== src/Command.antt =====
-- src/cmd/catalog/main.go: the process, from its configuration to its exit status.
use shop_catalog_service.Common.{
  true, false, ℕ, ◌≡◌, refl, arith, String, Bool, some, List, [], ◌∷◌, str_eq, if◌then◌else◌,
}
use shop_catalog_service.Errors.{Error}
use shop_catalog_service.Exec.{Result, ok, err, panic}
use shop_catalog_service.Config.{Config, Files, load}
use shop_catalog_service.Config.Valid.{IsValid, LoadOutcome, load-LoadOutcome}
use shop_catalog_service.Service.{Logger}
use shop_catalog_service.Redis.{RedisClient, Json}
use shop_catalog_service.Postgres.{Sql, World}
use shop_catalog_service.App.{App, Libraries, Resources, Served, nothing_open, new_app}
use shop_catalog_service.App.Startup.{Starts, has_tracing, new_app-Starts}
use shop_catalog_service.App.Stop.{Closing, serving, shutdown, shutdown-nothing_open}

-- fetchConfigPath, with the flag and the environment's CONFIG_PATH.
unfoldable pub fetch_config_path : String → String → String
fetch_config_path given env = if str_eq given "" then env else given

-- The exit status of `os.Exit(1)` after a failed Shutdown.
abbrev status_of : List Error → ℕ
status_of [] = 0
status_of (e ∷ errors) = 1

no_status : (errors : List Error) → status_of errors ≡ 0 → errors ≡ []
no_status [] zero = refl
no_status (e ∷ errors) zero = absurd (omega (arith, zero))

module _ {D T R : Type 0} (libraries : Libraries) (logger : Logger) (sql : Sql D T)
    (client : RedisClient R) (json : Json) (fuel : ℕ) (world : World) (files : Files)
    (closing : Closing) where
  -- From New on: log.Fatalf exits with 1, a panic with 2. Run answers nil, and the wait for a signal
  -- or an error ends in Shutdown.
  unfoldable pub after_new : Result (App (Served D R)) × Resources → ℕ × Resources
  unfolding shutdown
  after_new (ok app, st) =
      let (errors, st') = shutdown closing (some app) (serving st) in (status_of errors, st')
  after_new (err e, st) = (1, st)
  after_new (panic, st) = (2, st)

  unfoldable pub after_load : Result Config → ℕ × Resources
  unfolding after_new new_app
  after_load (ok cfg) =
      after_new (new_app libraries logger sql client json fuel world (some cfg) nothing_open)
  after_load (err e) = (1, nothing_open)
  after_load panic = (2, nothing_open)

  -- main, with the flag; it comes to its exit status and to what the process holds.
  unfoldable pub main : String → ℕ × Resources
  unfolding fetch_config_path after_load load
  main given =
      let path = fetch_config_path given (files.getenv "CONFIG_PATH") in
      if str_eq path "" then (1, nothing_open) else after_load (load files path)

  after_new-released :
      (has : Bool) (r : Result (App (Served D R))) (st : Resources)
      → Starts has r st
      → (after_new (r, st)).0 ≡ 0
      → (after_new (r, st)).1 ≡ nothing_open
  unfolding after_new
  after_new-released has (ok app) st h zero =
      shutdown-nothing_open libraries logger sql client json fuel world closing has app st h
        (no_status _ zero)
  after_new-released has (err e) st h zero = h
  after_new-released has panic st h zero = absurd (omega (arith, zero))

  after_load-released :
      (path : String) (r : Result Config)
      → LoadOutcome files path r
      → (after_load r).0 ≡ 0
      → ((cfg : Config) × (files.read_config path ≡ ok cfg) × IsValid cfg)
        × ((after_load r).1 ≡ nothing_open)
  unfolding after_load
  after_load-released path (ok cfg) (_, _, read, valid) zero = (
    (cfg, read, valid),
    after_new-released (has_tracing libraries.init_tracing) _ _
        (new_app-Starts libraries logger sql client json fuel world cfg) zero,
  )
  after_load-released path (err e) h zero = absurd (omega (arith, zero))
  after_load-released path panic h zero = absurd (omega (arith, zero))

  path_released :
      (path : String) (missing : Bool)
      → (if missing then (1, nothing_open) else after_load (load files path)).0 ≡ 0
      → ((cfg : Config) × (files.read_config path ≡ ok cfg) × IsValid cfg)
        × ((if missing then (1, nothing_open) else after_load (load files path)).1 ≡ nothing_open)
  path_released path true zero = absurd (omega (arith, zero))
  path_released path false zero =
      after_load-released path (load files path) (load-LoadOutcome files path) zero

  -- The process exits with 0 only where it read a valid configuration from the path that the flag or
  -- the environment gives, and then it holds nothing: each store, server and client that New opened is
  -- closed, and tracing is shut down.
  pub main_released :
      (given : String)
      → (main given).0 ≡ 0
      → ((cfg : Config) × (files.read_config (fetch_config_path given (files.getenv "CONFIG_PATH"))
            ≡ ok cfg)
          × IsValid cfg)
        × ((main given).1 ≡ nothing_open)
  unfolding main
  main_released given zero =
      let path = fetch_config_path given (files.getenv "CONFIG_PATH") in
      path_released path (str_eq path "") zero
