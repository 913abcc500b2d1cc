-- ===== src/Tracing/Loggers.antt =====
-- The loggers of the tracing log interface (internal/logtrc/api.go): `New` with its options, and the
-- others that put one construction over another. What OpenTelemetry makes is a parameter.
pub mod Choice
use obs_brutal.Prelude.{
  ℕ, zero, suc, ◌+◌, ◌-◌, ◌*◌, ◌/◌, ◌%◌, ◌^◌, ◌≤◌, ◌<◌, min, max, String, ◌≡◌, refl, sym, ap, ◌∙◌,
  subst, ◌≢◌, ◌↔◌, ◌⊎◌, inl, inr, Bool, true, false, not, ◌&&◌, ◌||◌, Option, none, some, List, [],
  ◌∷◌, ◌++◌, map, append_assoc, append-nil, zero-add, suc-add, arith, ltb, leb, nat_eq,
  if◌then◌else◌, ltb→lt, lt→ltb, leb→le, le→leb, ltb_of_le, nat_eq_iff, tests, Bool-cases,
  Option-cases, is_some, length, is_empty, take, drop, replicate, get_elem?, keep, all, any, concat,
  All, length-append, length-snoc, snoc-ne-nil, length-drop, length-take, take-append-drop,
  length-replicate, length-keep-le, concat-append, concat-snoc, drop-append, All-append, All-drop,
  last_n, drop-nil, drop-drop, length-last_n, last_n_all, last_n-append, tally, tally-append,
  tally-concat-append, Key, bytes_eq, bytes_eq_iff, ◌==◌, eq_refl, prefer, lookup, erase, insert,
  insert_all, IsMap, lookup-insert, lookup-erase, length-insert-le, length-insert_present,
  length-insert_absent, lookup-insert_all, insert-IsMap, insert_all-IsMap, erase_absent,
  length-erase_present, erase-IsMap, erase-All, lookup-All, insert-All, range_into, ranged,
  lookup-range_into, range_into-IsMap, codes, as_string, is_upper, is_lower, is_digit, to_lower,
  has_prefix, contains,
}
use obs_brutal.Domain.Level.{Level}
use obs_brutal.Domain.Value.{Value, text}
use obs_brutal.Base.Unified.{new_unified}
use obs_brutal.Base.AsyncLog.{new_async}
use obs_brutal.Otel.{OtelLog, otel_field}
use obs_brutal.Boeng.Start.{RootLogger, telemetry, asynchronous, synchronous}
use obs_brutal.Tracing.Options.{
  ConfigOptions, ConfigOption, new_config_options, apply_option, apply_options, new_smart_config,
  has_otel, has_async, srv_name, env, otel, promtail, prometheus, loki, masking, async, zerolog,
}

-- `NewOTelLogBrt` of the outbound adapter, by service, version, environment, endpoint and level.
abbrev pub OtelMaker : Type 0
OtelMaker = List ℕ → List ℕ → List ℕ → List ℕ → Level → Option OtelLog

module _ (make : OtelMaker) (stdout counter : ℕ) where
  -- `New`, from the configuration.
  without_otel : ConfigOptions → RootLogger
  unfolding has_async
  without_otel c =
      if has_async c
      then asynchronous (new_async stdout counter c.log_level [])
      else synchronous (new_unified stdout counter c.log_level [])

  otel_or : ConfigOptions → Option OtelLog → RootLogger
  unfolding without_otel
  otel_or c none = without_otel c
  otel_or c (some l) = telemetry l

  configured_logger : ConfigOptions → RootLogger
  unfolding otel_or has_otel
  configured_logger c = otel_or c (
      if has_otel c
      then make c.service_name c.version c.environment c.otel_endpoint c.log_level
      else none)

  -- `New` and `NewDefault`.
  unfoldable pub new_logger : List ConfigOption → RootLogger
  unfolding configured_logger
  new_logger os = configured_logger (new_smart_config os)

  unfoldable pub new_default : RootLogger
  unfolding new_logger
  new_default = new_logger []

-- `NewOTelWithService`: the logger under which the service is a field.
unfoldable pub otel_with_service : List ℕ → Option OtelLog → Option OtelLog
otel_with_service service none = none
otel_with_service service (some l) = some (otel_field "service" (text service) l)
