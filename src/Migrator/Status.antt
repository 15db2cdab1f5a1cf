-- ===== src/Migrator/Status.antt =====
-- The exit status of cmd/migrator/main.go.
use shop_catalog_service.Common.{
  ◌≡◌, ◌↔◌, refl, String, Bool, false, str_eq, eq_iff, inl, inr, Bool-cases, arith,
}
use shop_catalog_service.Errors.{no_change, nil_version}
use shop_catalog_service.Exec.{Result, ok, err, panic}
use shop_catalog_service.Migrator.{
  set_table, Flags, Migrations, migrated, version_shown, run_command, after_open, after_url, main,
  with_migrations_table, IsDone, Ran, upped, downed, shown, Succeeds,
}

module _ {U M D : Type 0} (lib : Migrations U M D) where
  migrated_status :
      (failed unchanged done : String) (x : Result (Unit {0}) × D)
      → (migrated failed unchanged done x).status ≡ 0 ↔ IsDone no_change x.0
  unfolding migrated
  migrated_status failed unchanged done (ok _, d) = (λ _. tt, λ _. refl)
  migrated_status failed unchanged done (err e, d) = ground arith
  migrated_status failed unchanged done (panic, d) = (λ e. omega (arith, e), λ h. absurd h)

  version_shown_status :
      (x : Result (_ × Bool) × D) → (version_shown x).status ≡ 0 ↔ IsDone nil_version x.0
  unfolding version_shown
  version_shown_status (ok _, d) = (λ _. tt, λ _. refl)
  version_shown_status (err e, d) = ground arith
  version_shown_status (panic, d) = (λ e. omega (arith, e), λ h. absurd h)

  run_command-Ran :
      (command : String) (m : M) (d : D)
      → (run_command lib command m d).status ≡ 0
      → Ran lib command m d
  unfolding run_command
  run_command-Ran command m d = elim (Bool-cases (str_eq command "up")) [
    | inl up ↦
        rw up (λ e. upped ((eq_iff command "up").0 up) ((migrated_status _ _ _ (lib.up m d)).0 e))
    | inr not_up ↦ rw not_up (elim (Bool-cases (str_eq command "down")) [
      | inl down ↦ rw down (λ e.
          downed ((eq_iff command "down").0 down) ((migrated_status _ _ _ (lib.down m d)).0 e))
      | inr not_down ↦ rw not_down (elim (Bool-cases (str_eq command "version")) [
        | inl version ↦ rw version (λ e.
            shown ((eq_iff command "version").0 version)
              ((version_shown_status (lib.version m d)).0 e))
        | inr unknown ↦ rw unknown (λ e. absurd (omega (arith, e)))
      ])
    ])
  ]

  Ran-status :
      (command : String) (m : M) (d : D)
      → Ran lib command m d
      → (run_command lib command m d).status ≡ 0
  unfolding run_command
  Ran-status command m d (upped c h) = rw c ((migrated_status _ _ _ (lib.up m d)).1 h)
  Ran-status command m d (downed c h) = rw c ((migrated_status _ _ _ (lib.down m d)).1 h)
  Ran-status command m d (shown c h) = rw c ((version_shown_status (lib.version m d)).1 h)

  opened-Ran :
      (command : String) (x : Result M × D)
      → (after_open lib command x).status ≡ 0
      → (m : M) × (d : D) × (x ≡ (ok m, d)) × Ran lib command m d
  unfolding after_open
  opened-Ran command (ok m, d) e = (m, d, refl, run_command-Ran command m d e)
  opened-Ran command (err x, d) e = absurd (omega (arith, e))
  opened-Ran command (panic, d) e = absurd (omega (arith, e))

  parsed-Succeeds :
      (flags : Flags) (d : D)
      → str_eq flags.dsn "" ≡ false
      → (after_url lib flags (with_migrations_table lib flags.dsn flags.migrations_table) d).status
        ≡ 0
      → Succeeds lib flags d
  unfolding after_url with_migrations_table
  parsed-Succeeds flags d given = go (lib.parse flags.dsn) refl
    where
      go :
          (x : Result U)
          → lib.parse flags.dsn ≡ x
          → (after_url lib flags (set_table lib flags.migrations_table x) d).status ≡ 0
          → Succeeds lib flags d
      go (ok url) parsed e =
          let (m, opened, open_done, ran) = opened-Ran flags.command _ e in
          record {
            given = given;
            url = url;
            parsed = parsed;
            m = m;
            opened = opened;
            open_done = open_done;
            ran = ran;
          }
      go (err x) parsed e = absurd (omega (arith, e))
      go panic parsed e = absurd (omega (arith, e))

  -- The command exits with 0 exactly where a DSN is given and read, the migrator opens for it and for
  -- the directory and the table of the flags, the command is up, down or version, and its call does
  -- its work or says that there is none: nothing to migrate for up and down, no version for version.
  pub main_status : (flags : Flags) (d : D) → (main lib flags d).status ≡ 0 ↔ Succeeds lib flags d
  unfolding main after_url with_migrations_table after_open
  main_status flags d = (to, from)
    where
      to : (main lib flags d).status ≡ 0 → Succeeds lib flags d
      to = elim (Bool-cases (str_eq flags.dsn "")) [
        | inl empty ↦ rw empty (λ e. absurd (omega (arith, e)))
        | inr given ↦ rw given (parsed-Succeeds flags d given)
      ]

      from : Succeeds lib flags d → (main lib flags d).status ≡ 0
      from s = rw (s.given, s.parsed, s.open_done) (Ran-status flags.command s.m s.opened s.ran)
