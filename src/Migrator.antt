-- ===== src/Migrator.antt =====
-- cmd/migrator/main.go: the command that migrates the database, as its exit status and the line that it
-- writes. The flags come parsed; net/url and golang-migrate are parameters.
pub mod Status
use Prim.Native.String.{◌++◌ as str_append}
use shop_catalog_service.Common.{
  ℕ, ◌≡◌, ◌↔◌, refl, sym, ◌∙◌, ap, String, Bool, true, false, List, [], ◌∷◌, str_eq, eq_iff, inl,
  inr, Bool-cases, arith, if◌then◌else◌,
}
use shop_catalog_service.Common.Int.{pos}
use shop_catalog_service.Common.Decimal.{int_text}
use shop_catalog_service.Errors.{Error, Sentinel, error_is, message, no_change, nil_version}
use shop_catalog_service.Exec.{Result, ok, err, panic, Exec}

-- The four flags.
pub record Flags : Type 0 where
  pub dsn : String
  pub migrations_path : String
  pub migrations_table : String
  pub command : String

-- Their values where the command line gives none.
abbrev pub default_flags : Flags
default_flags = record {
  dsn = "";
  migrations_path = "./migrations";
  migrations_table = "schema_migrations";
  command = "up";
}

-- url.Parse, with the URL's text once Query has been set at a key; migrate.New from a source and a
-- database, and the three calls of *migrate.Migrate.
pub record Migrations (U M D : Type 0) : Type 0 where
  pub parse : String → Result U
  pub with_query : U → String → String → String
  pub open_at : String → String → Exec D M
  pub up : M → Exec D (Unit {0})
  pub down : M → Exec D (Unit {0})
  pub version : M → Exec D (ℕ × Bool)

-- A line of the log, on the standard error, or one on the standard output.
pub data Line : Type 0 where
  logged printed : String → Line

pub record Outcome (D : Type 0) : Type 0 where
  pub status : ℕ
  pub lines : List Line
  pub db : D

abbrev bool_text : Bool → String
bool_text true = "true"
bool_text false = "false"

module _ {D : Type 0} where
  -- fmt.Println or Printf and return; log.Println or Printf and os.Exit(1); a panic.
  abbrev succeed : String → D → Outcome D
  succeed text d = record { status = 0; lines = printed text ∷ []; db = d }

  abbrev give_up : String → D → Outcome D
  give_up text d = record { status = 1; lines = logged text ∷ []; db = d }

  abbrev crashed : D → Outcome D
  crashed d = record { status = 2; lines = []; db = d }

  -- The cases "up" and "down" behind their call, with their three texts.
  pub migrated : String → String → String → Result (Unit {0}) × D → Outcome D
  migrated failed unchanged done (ok _, d) = succeed done d
  migrated failed unchanged done (err e, d) =
      if error_is e no_change
      then succeed unchanged d
      else give_up (str_append failed (message e)) d
  migrated failed unchanged done (panic, d) = crashed d

  -- The case "version" behind its call.
  pub version_shown : Result (ℕ × Bool) × D → Outcome D
  unfolding int_text
  version_shown (ok (version, dirty), d) =
      succeed
        (str_append "version="
          (str_append (int_text (pos version)) (str_append " dirty=" (bool_text dirty))))
        d
  version_shown (err e, d) =
      if error_is e nil_version
      then succeed "no migrations applied yet" d
      else give_up (str_append "get version: " (message e)) d
  version_shown (panic, d) = crashed d

module _ {U M D : Type 0} (lib : Migrations U M D) where
  abbrev pub set_table : String → Result U → Result String
  set_table table (ok u) = ok (lib.with_query u "x-migrations-table" table)
  set_table table (err e) = err e
  set_table table panic = panic

  -- withMigrationsTable
  pub with_migrations_table : String → String → Result String
  with_migrations_table dsn table = set_table table (lib.parse dsn)

  -- The switch over the command.
  pub run_command : String → M → D → Outcome D
  unfolding migrated version_shown
  run_command command m d =
      if str_eq command "up"
      then migrated "apply up migrations: " "no migrations to apply"
          "migrations applied successfully" (lib.up m d)
      else if str_eq command "down"
      then migrated "apply down migrations: " "no migrations to rollback"
          "migrations rolled back successfully" (lib.down m d)
      else if str_eq command "version"
      then version_shown (lib.version m d)
      else give_up (str_append "unknown command: " command) d

  pub after_open : String → Result M × D → Outcome D
  unfolding run_command
  after_open command (ok m, d) = run_command command m d
  after_open command (err e, d) = give_up (str_append "create migrator: " (message e)) d
  after_open command (panic, d) = crashed d

  pub after_url : Flags → Result String → D → Outcome D
  unfolding after_open
  after_url flags (ok url) d =
      after_open flags.command (lib.open_at (str_append "file://" flags.migrations_path) url d)
  after_url flags (err e) d = give_up (str_append "build database url: " (message e)) d
  after_url flags panic d = crashed d

  -- main
  unfoldable pub main : Flags → D → Outcome D
  unfolding after_url with_migrations_table
  main flags d =
      if str_eq flags.dsn ""
      then give_up "dsn is required" d
      else after_url flags (with_migrations_table flags.dsn flags.migrations_table) d

-- A call that did its work, or said by this error that there is none.
abbrev pub IsDone : {A : Type 0} → Sentinel → Result A → Type 0
IsDone s (ok _) = Unit
IsDone s (err e) = error_is e s ≡ true
IsDone s panic = ⊥

module _ {U M D : Type 0} (lib : Migrations U M D) where
  -- A command that is known, and whose call does its work.
  pub data Ran (command : String) (m : M) (d : D) : Type 0 where
    upped : command ≡ "up" → IsDone no_change (lib.up m d).0 → Ran command m d
    downed : command ≡ "down" → IsDone no_change (lib.down m d).0 → Ran command m d
    shown : command ≡ "version" → IsDone nil_version (lib.version m d).0 → Ran command m d

  pub record Succeeds (flags : Flags) (d : D) : Type 0 where
    pub given : str_eq flags.dsn "" ≡ false
    pub url : U
    pub parsed : lib.parse flags.dsn ≡ ok url
    pub m : M
    pub opened : D
    pub open_done :
        lib.open_at
          (str_append "file://" flags.migrations_path)
          (lib.with_query url "x-migrations-table" flags.migrations_table)
          d
        ≡ (ok m, opened)
    pub ran : Ran flags.command m opened
