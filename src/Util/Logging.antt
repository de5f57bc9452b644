-- ===== src/Util/Logging.antt =====
-- mockgo/util/log.go. What it uses of package zap is a parameter.
use mockgo_server.Prelude.{String, ◌==◌, ◌||◌, Result, ◌>>=◌, if◌then◌else◌}

-- The two configurations that zap offers.
pub data Preset : Type 0 where
  production : Preset
  development : Preset

pub record Zap : Type 1 where
  pub Level : Type 0
  pub Logger : Type 0
  pub parse_level : String → Result Level
  -- Config.Build of a preset with this level
  pub build : Preset → Level → Result Logger

abbrev pub preset_of : String → Preset
preset_of log_type =
    if log_type == "prod" || log_type == "production" then production else development

-- CreateLogger, with the value of LOGTYPE in the environment; the error is that of log.Fatal
unfoldable pub create_logger : (zap : Zap) → String → String → Result zap.Logger
create_logger zap log_type level_text =
    zap.parse_level level_text >>= λ level. zap.build (preset_of log_type) level
