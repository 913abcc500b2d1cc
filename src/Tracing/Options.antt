-- ===== src/Tracing/Options.antt =====
-- Configuration by options (internal/adapter/outbound/sink/options/options.go): each option sets one
-- field, one after the other, over the defaults.
use obs_brutal.Prelude.{ℕ, String, Bool, false, not, ◌||◌, List, [], ◌∷◌, is_empty, codes}
use obs_brutal.Domain.Level.{Level, info_level}

-- A map of labels is a list of pairs.
pub record ConfigOptions : Type 0 where
  pub service_name : List ℕ
  pub version : List ℕ
  pub environment : List ℕ
  pub metric_endpoint : List ℕ
  pub otel_endpoint : List ℕ
  pub promtail_endpoint : List ℕ
  pub prometheus_endpoint : List ℕ
  pub loki_endpoint : List ℕ
  pub loki_labels : List (String × List ℕ)
  pub otel_resource : List (String × List ℕ)
  pub masking_enabled : Bool
  pub async_enabled : Bool
  pub log_level : Level
  pub use_zerolog : Bool

unfoldable pub new_config_options : ConfigOptions
new_config_options = record {
  service_name = codes "obs-brutal-service";
  version = codes "1.0.0";
  environment = codes "production";
  metric_endpoint = [];
  otel_endpoint = [];
  promtail_endpoint = [];
  prometheus_endpoint = [];
  loki_endpoint = [];
  loki_labels = [];
  otel_resource = [];
  masking_enabled = false;
  async_enabled = false;
  log_level = info_level;
  use_zerolog = false;
}

-- The builders of options.
pub data ConfigOption : Type 0 where
  srv_name : List ℕ → ConfigOption
  version : List ℕ → ConfigOption
  env : List ℕ → ConfigOption
  metric_endpoint : List ℕ → ConfigOption
  otel : List ℕ → ConfigOption
  promtail : List ℕ → ConfigOption
  prometheus : List ℕ → ConfigOption
  loki : List ℕ → ConfigOption
  loki_labels : List (String × List ℕ) → ConfigOption
  masking : Bool → ConfigOption
  async : Bool → ConfigOption
  log_level : Level → ConfigOption
  zerolog : Bool → ConfigOption
  otel_resource : List (String × List ℕ) → ConfigOption

unfoldable pub apply_option : ConfigOption → ConfigOptions → ConfigOptions
apply_option (srv_name s) c = record c { service_name = s }
apply_option (ConfigOption.version s) c = record c { version = s }
apply_option (env s) c = record c { environment = s }
apply_option (ConfigOption.metric_endpoint s) c = record c { metric_endpoint = s }
apply_option (otel s) c = record c { otel_endpoint = s }
apply_option (promtail s) c = record c { promtail_endpoint = s }
apply_option (prometheus s) c = record c { prometheus_endpoint = s }
apply_option (loki s) c = record c { loki_endpoint = s }
apply_option (ConfigOption.loki_labels ls) c = record c { loki_labels = ls }
apply_option (masking b) c = record c { masking_enabled = b }
apply_option (async b) c = record c { async_enabled = b }
apply_option (ConfigOption.log_level l) c = record c { log_level = l }
apply_option (zerolog b) c = record c { use_zerolog = b }
apply_option (ConfigOption.otel_resource r) c = record c { otel_resource = r }

-- `NewSmartConfig`, and the questions that it answers.
unfoldable pub apply_options : List ConfigOption → ConfigOptions → ConfigOptions
unfolding apply_option
apply_options [] c = c
apply_options (o ∷ os) c = apply_options os (apply_option o c)

unfoldable pub new_smart_config : List ConfigOption → ConfigOptions
unfolding apply_options new_config_options
new_smart_config os = apply_options os new_config_options

unfoldable pub has_otel : ConfigOptions → Bool
has_otel c = not (is_empty c.otel_endpoint)

unfoldable pub has_security : ConfigOptions → Bool
has_security c = c.masking_enabled

unfoldable pub has_async : ConfigOptions → Bool
has_async c = c.async_enabled

unfoldable pub has_metrics : ConfigOptions → Bool
has_metrics c = not (is_empty c.metric_endpoint) || not (is_empty c.prometheus_endpoint)
