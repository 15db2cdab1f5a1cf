-- ===== src/Observability.antt =====
-- internal/observability/logger.go: the level of the log. What slog writes is left out.
pub mod Levels
pub mod Metrics
pub mod Tracing
use Prim.Native.Char.{code}
use Prim.Native.String.{[], ◌∷◌}
use shop_catalog_service.Common.{
  ℕ, ◌+◌, String, Bool, true, false, ◌&&◌, ◌||◌, Option, none, some, ◌==◌, leb, if◌then◌else◌,
}
use shop_catalog_service.Common.Text.{trim_space}
use shop_catalog_service.Errors.{plain}
use shop_catalog_service.Exec.{Result, ok, err}

-- slog.Level, as far as the service sets it.
pub data Level : Type 0 where
  debug info warn error : Level

-- Level.String
abbrev pub level_text : Level → String
level_text debug = "DEBUG"
level_text info = "INFO"
level_text warn = "WARN"
level_text error = "ERROR"

-- unicode.ToLower, on the characters that it takes to an ASCII letter; another character is left as
-- it is, and is no letter of the words below.
lower : ℕ → ℕ
lower c =
    if leb 65 c && leb c 90 then c + 32 else if c == 304 then 105 else if c == 8490 then 107 else c

-- `strings.ToLower(s) == word`, for a word in lower-case ASCII.
lower_is : String → String → Bool
unfolding lower
lower_is [] [] = true
lower_is [] (d ∷ w) = false
lower_is (c ∷ s) [] = false
lower_is (c ∷ s) (d ∷ w) = lower (code c) == code d && lower_is s w

-- The switch of parseLevel.
word_level : String → Level
unfolding lower_is
word_level s =
    if lower_is s "debug"
    then debug
    else if lower_is s "warn" || lower_is s "warning"
    then warn
    else if lower_is s "error"
    then error
    else info

unfoldable pub parse_level : String → Level
unfolding word_level trim_space
parse_level v = word_level (trim_space v)

-- RuntimeLogger; a nil LevelVar is `none`.
pub record RuntimeLogger : Type 0 where
  pub level : Option Level

-- NewLogger, with the level of its options.
pub new_logger : String → RuntimeLogger
unfolding parse_level
new_logger level = record { level = some (parse_level level) }

-- SetLevel; a nil logger is `none`.
unfoldable pub set_level : String → Option RuntimeLogger → Result (Unit {0}) × Option RuntimeLogger
unfolding parse_level
set_level text none = (err (plain "logger is not initialized"), none)
set_level text (some r) = elim r.level [
  | none ↦ (err (plain "logger is not initialized"), some r)
  | some _ ↦ (ok tt, some (record { level = some (parse_level text) }))
]

-- Level
unfoldable pub level_of : Option RuntimeLogger → Level
level_of none = info
level_of (some r) = elim r.level [ none ↦ info | some l ↦ l ]
