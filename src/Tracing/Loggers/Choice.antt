-- ===== src/Tracing/Loggers/Choice.antt =====
-- Which logger `New` of internal/logtrc/api.go makes of a sequence of options.
use obs_brutal.Prelude.{
  ℕ, ◌≡◌, refl, ap, ◌∙◌, Bool, true, false, not, Option, none, some, List, [], ◌∷◌, if◌then◌else◌,
  is_empty, prefer, codes,
}
use obs_brutal.Domain.Level.{Level, info_level}
use obs_brutal.Base.Unified.{new_unified}
use obs_brutal.Base.AsyncLog.{new_async}
use obs_brutal.Otel.{OtelLog}
use obs_brutal.Boeng.Start.{RootLogger, telemetry, asynchronous, synchronous}
use obs_brutal.Tracing.Options.{
  ConfigOptions, ConfigOption, new_config_options, apply_option, apply_options, new_smart_config,
  has_otel, has_async, srv_name, env, otel, async,
}
use obs_brutal.Tracing.Loggers.{OtelMaker, new_logger, otel_or, configured_logger}

-- What an option says of a setting that `New` reads.
abbrev pub service_of : ConfigOption → Option (List ℕ)
service_of (srv_name s) = some s
service_of _ = none

abbrev pub version_of : ConfigOption → Option (List ℕ)
version_of (ConfigOption.version s) = some s
version_of _ = none

abbrev pub environment_of : ConfigOption → Option (List ℕ)
environment_of (env s) = some s
environment_of _ = none

abbrev pub endpoint_of : ConfigOption → Option (List ℕ)
endpoint_of (otel s) = some s
endpoint_of _ = none

abbrev pub level_of : ConfigOption → Option Level
level_of (ConfigOption.log_level l) = some l
level_of _ = none

abbrev pub async_of : ConfigOption → Option Bool
async_of (async b) = some b
async_of _ = none

abbrev pub or_default {ℓ} : {A : Type ℓ} → A → Option A → A
or_default d none = d
or_default d (some a) = a

-- The last option that says something.
abbrev pub last_said : {A : Type 0} → (ConfigOption → Option A) → List ConfigOption → Option A
last_said says [] = none
last_said says (o ∷ os) = prefer (last_said says os) (says o)

setting :
    {A : Type 0} (get : ConfigOptions → A) (says : ConfigOption → Option A)
    → ((o : ConfigOption) (c : ConfigOptions)
        → get (apply_option o c) ≡ or_default (get c) (says o))
    → (os : List ConfigOption) (c : ConfigOptions)
    → get (apply_options os c) ≡ or_default (get c) (last_said says os)
unfolding apply_options
setting get says step [] c = refl
setting {A} get says step (o ∷ os) c =
    setting get says step os (apply_option o c)
    ∙ ap (λ d. or_default d (last_said says os)) (step o c)
    ∙ later (last_said says os) (says o)
  where
    later : (l e : Option A) → or_default (or_default (get c) e) l ≡ or_default (get c) (prefer l e)
    later none e = refl
    later (some a) e = refl

service_step :
    (o : ConfigOption) (c : ConfigOptions)
    → (apply_option o c).service_name ≡ or_default c.service_name (service_of o)
unfolding apply_option
service_step (srv_name s) c = refl
service_step _ c = refl

version_step :
    (o : ConfigOption) (c : ConfigOptions)
    → (apply_option o c).version ≡ or_default c.version (version_of o)
unfolding apply_option
version_step (ConfigOption.version s) c = refl
version_step _ c = refl

environment_step :
    (o : ConfigOption) (c : ConfigOptions)
    → (apply_option o c).environment ≡ or_default c.environment (environment_of o)
unfolding apply_option
environment_step (env s) c = refl
environment_step _ c = refl

endpoint_step :
    (o : ConfigOption) (c : ConfigOptions)
    → (apply_option o c).otel_endpoint ≡ or_default c.otel_endpoint (endpoint_of o)
unfolding apply_option
endpoint_step (otel s) c = refl
endpoint_step _ c = refl

level_step :
    (o : ConfigOption) (c : ConfigOptions)
    → (apply_option o c).log_level ≡ or_default c.log_level (level_of o)
unfolding apply_option
level_step (ConfigOption.log_level s) c = refl
level_step _ c = refl

async_step :
    (o : ConfigOption) (c : ConfigOptions)
    → (apply_option o c).async_enabled ≡ or_default c.async_enabled (async_of o)
unfolding apply_option
async_step (async s) c = refl
async_step _ c = refl

-- The six settings that the options leave.
record IsSettled (os : List ConfigOption) (c : ConfigOptions) : Type 0 where
  service_lem : c.service_name ≡ or_default (codes "obs-brutal-service") (last_said service_of os)
  version_lem : c.version ≡ or_default (codes "1.0.0") (last_said version_of os)
  environment_lem : c.environment ≡ or_default (codes "production") (last_said environment_of os)
  endpoint_lem : c.otel_endpoint ≡ or_default [] (last_said endpoint_of os)
  level_lem : c.log_level ≡ or_default info_level (last_said level_of os)
  async_lem : c.async_enabled ≡ or_default false (last_said async_of os)

new_smart_config-IsSettled : (os : List ConfigOption) → IsSettled os (new_smart_config os)
unfolding new_smart_config new_config_options
new_smart_config-IsSettled os = record {
  service_lem = setting (λ c. c.service_name) service_of service_step os new_config_options;
  version_lem = setting (λ c. c.version) version_of version_step os new_config_options;
  environment_lem =
      setting (λ c. c.environment) environment_of environment_step os new_config_options;
  endpoint_lem = setting (λ c. c.otel_endpoint) endpoint_of endpoint_step os new_config_options;
  level_lem = setting (λ c. c.log_level) level_of level_step os new_config_options;
  async_lem = setting (λ c. c.async_enabled) async_of async_step os new_config_options;
}

module _ (make : OtelMaker) (stdout counter : ℕ) where
  -- The logger by the settings.
  abbrev pub chosen : Option OtelLog → Bool → Level → RootLogger
  chosen (some l) is_async lvl = telemetry l
  chosen none true lvl = asynchronous (new_async stdout counter lvl [])
  chosen none false lvl = synchronous (new_unified stdout counter lvl [])

  abbrev pub exporting_to : List ConfigOption → List ℕ → Option OtelLog
  exporting_to os [] = none
  exporting_to os (c ∷ endpoint) =
      make (or_default (codes "obs-brutal-service") (last_said service_of os))
        (or_default (codes "1.0.0") (last_said version_of os))
        (or_default (codes "production") (last_said environment_of os)) (c ∷ endpoint)
        (or_default info_level (last_said level_of os))

  otel_or-chosen :
      (c : ConfigOptions) (o : Option OtelLog)
      → otel_or make stdout counter c o ≡ chosen o c.async_enabled c.log_level
  unfolding otel_or has_async
  otel_or-chosen c none = by_async c.async_enabled
    where
      by_async :
          (b : Bool)
          → (if b
              then asynchronous (new_async stdout counter c.log_level [])
              else synchronous (new_unified stdout counter c.log_level []))
            ≡ chosen none b c.log_level
      by_async true = refl
      by_async false = refl
  otel_or-chosen c (some l) = refl

  -- `New` makes a logger with telemetry when the last endpoint that was given is not empty and
  -- OpenTelemetry makes one, with the last service, version, environment and level or their defaults;
  -- else an asynchronous one when async was switched on last, else a synchronous one, at the last
  -- level. No other option has a part in it, masking and the endpoints of Loki among them.
  pub new_logger-chosen :
      (os : List ConfigOption)
      → new_logger make stdout counter os
        ≡ chosen
            (exporting_to os (or_default [] (last_said endpoint_of os)))
            (or_default false (last_said async_of os))
            (or_default info_level (last_said level_of os))
  unfolding new_logger configured_logger has_otel
  new_logger-chosen os =
      let c = new_smart_config os in
      let i = new_smart_config-IsSettled os in
      otel_or-chosen c _
      ∙ simp (
        i.service_lem,
        i.version_lem,
        i.environment_lem,
        i.endpoint_lem,
        i.level_lem,
        i.async_lem,
        tested (or_default [] (last_said endpoint_of os)),
      )
    where
      tested :
          (e : List ℕ)
          → (if not (is_empty e)
              then make
                  (or_default (codes "obs-brutal-service") (last_said service_of os))
                  (or_default (codes "1.0.0") (last_said version_of os))
                  (or_default (codes "production") (last_said environment_of os))
                  e
                  (or_default info_level (last_said level_of os))
              else none)
            ≡ exporting_to os e
      tested [] = refl
      tested (x ∷ e) = refl
