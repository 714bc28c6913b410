-- ===== src/Settings.antt =====
-- internal/config/config.go: the settings that the environment may change. `getenv` is `os.Getenv`,
-- which gives the empty text for a variable that is not set.
use temporalops.Base.{String, str_eq, if◌then◌else◌}

module _ (getenv : String → String) where
  unfoldable pub env : String → String → String
  env key fallback = if str_eq (getenv key) "" then fallback else getenv key

  unfoldable pub temporal_address : String
  unfolding env
  temporal_address = env "TEMPORAL_ADDRESS" "127.0.0.1:7233"

  unfoldable pub audit_db_path : String
  unfolding env
  audit_db_path = env "AUDIT_DB" "audit/audit.db"

  unfoldable pub metrics_addr : String
  unfolding env
  metrics_addr = env "METRICS_ADDR" ":9090"
