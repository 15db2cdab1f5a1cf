-- ===== src/Observability/Levels.antt =====
-- SetLevel and Level of internal/observability/logger.go.
use shop_catalog_service.Common.{◌≡◌, refl, String, some}
use shop_catalog_service.Exec.{ok}
use shop_catalog_service.Observability.{
  Level, debug, info, warn, error, level_text, parse_level, set_level, level_of,
}

-- The text of a level is read back as the level.
parse_level-level_text : (l : Level) → parse_level (level_text l) ≡ l
unfolding parse_level shop_catalog_service.Common.Text.is_space
parse_level-level_text debug = refl
parse_level-level_text info = refl
parse_level-level_text warn = refl
parse_level-level_text error = refl

-- On a logger that is set up, SetLevel with the text of a level succeeds, and Level returns that level.
level_of-set_level :
    (old new : Level)
    → ((set_level (level_text new) (some (record { level = some old }))).0 ≡ ok tt)
      × (level_of (set_level (level_text new) (some (record { level = some old }))).1 ≡ new)
unfolding set_level level_of
level_of-set_level old new = (refl, parse_level-level_text new)
