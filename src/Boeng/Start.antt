-- ===== src/Boeng/Start.antt =====
-- The start of boeng and its registry (boeng/boeng.go): what `Init` builds from a configuration, the
-- package default that it replaces, and `Close`. What the process and OpenTelemetry have is in the
-- `Environment`.
pub mod Accounts
pub mod Handler
pub mod Lifecycle
pub mod Providers
pub mod Root
use obs_brutal.Prelude.{
  ℕ, ◌+◌, String, Bool, true, false, not, ◌&&◌, ◌||◌, Option, none, some, List, [], ◌∷◌, ◌++◌,
  if◌then◌else◌, is_some, is_empty, bytes_keys, string_keys, nat_keys, lookup, insert, as_string,
}
use obs_brutal.Domain.Level.{Level}
use obs_brutal.Domain.Value.{Value, text}
use obs_brutal.Base.Unified.{UnifiedLog, new_unified, with_field}
use obs_brutal.Base.AsyncLog.{AsyncLog, new_async}
use obs_brutal.Otel.{OtelLog, otel_field}
use obs_brutal.Boeng.Metrics.{MetricSchema, configure_metrics}
use obs_brutal.Boeng.Run.{Process, configure_levels}

pub record Config : Type 0 where
  pub service : List ℕ
  pub version : List ℕ
  pub env : List ℕ
  pub otel : List ℕ
  pub loki : List ℕ
  pub level : Level
  pub async : Bool
  pub quiet_ops : Bool
  pub emit_level : Level
  pub include_zero_fields : Bool
  pub metric_schema : MetricSchema
  pub metric_labels : List String

-- Whether the process has a tracer provider that can be adopted, whether its environment configures
-- an export, what comes of the three ways to make a provider, the identities of the sinks and the
-- address of the counter of a new logger, and the sink that tests put in place of all others. A logger
-- that exports comes with its provider.
pub record Environment : Type 0 where
  pub adoptable : Bool
  pub export_configured : Bool
  pub exporting_made : Option OtelLog
  pub adopting_made : Bool
  pub no_export_made : Bool
  pub stdout : ℕ
  pub loki_sink : ℕ
  pub counter : ℕ
  pub test_sink : Option ℕ

pub data Provider : Type 0 where
  exporting : Provider
  adopting : Provider
  no_export : Provider

-- The loggers that an `Obs` can have.
pub data RootLogger : Type 0 where
  telemetry : OtelLog → RootLogger
  asynchronous : AsyncLog → RootLogger
  synchronous : UnifiedLog → RootLogger

-- The method `F` of each: that of the asynchronous logger is the one of the logger it embeds, and
-- returns a synchronous one.
unfoldable pub root_field : String → Value → RootLogger → RootLogger
root_field k v (telemetry l) = telemetry (otel_field k v l)
root_field k v (asynchronous l) = synchronous (with_field k v l.base)
root_field k v (synchronous l) = synchronous (with_field k v l)

-- Whether the logger has a method `Stop`.
unfoldable pub has_stop : RootLogger → Bool
has_stop (telemetry l) = true
has_stop (asynchronous l) = true
has_stop (synchronous l) = false

-- `buildSinks`.
unfoldable pub build_sinks : Environment → Config → List (Option ℕ)
build_sinks e cfg = elim e.test_sink [
  | some s ↦ some s ∷ []
  | none ↦ if is_empty cfg.loki then some e.stdout ∷ [] else some e.stdout ∷ some e.loki_sink ∷ []
]

unfoldable pub export_via_boeng : Environment → Config → Bool
export_via_boeng e cfg =
    not (is_empty cfg.service)
    && (not (is_empty cfg.otel) || (not e.adoptable && e.export_configured))

-- The provider and the logger with telemetry that the two attempts of `Init` leave.
fallback_provider : Environment → Option Provider
fallback_provider e =
    if e.adoptable
    then (if e.adopting_made then some adopting else none)
    else if e.no_export_made
    then some no_export
    else none

exported_or : Environment → Option OtelLog → Option Provider × Option OtelLog
unfolding fallback_provider
exported_or e none = (fallback_provider e, none)
exported_or e (some l) = (some exporting, some l)

unfoldable pub choose_provider : Environment → Config → Option Provider × Option OtelLog
unfolding exported_or
choose_provider e cfg = exported_or e (if export_via_boeng e cfg then e.exporting_made else none)

unfoldable pub root_of : Environment → Config → Option OtelLog → RootLogger
root_of e cfg (some l) = telemetry l
root_of e cfg none =
    let sinks = build_sinks e cfg in
    if cfg.async
    then asynchronous (new_async e.stdout e.counter cfg.level sinks)
    else synchronous (new_unified e.stdout e.counter cfg.level sinks)

-- `if v != "" { o.log = o.log.F(k, v) }`.
unfoldable pub field_if : String → List ℕ → RootLogger → RootLogger
unfolding root_field
field_if k v l = if is_empty v then l else root_field k (text v) l

unfoldable pub root_logger : Environment → Config → RootLogger
unfolding choose_provider root_of field_if build_sinks
root_logger e cfg =
    field_if "env" cfg.env
      (field_if "service" cfg.service (root_of e cfg (choose_provider e cfg).1))

pub record Obs : Type 0 where
  pub log : RootLogger
  pub provider : Option Provider
  pub closed : Bool

-- The `Obs` that were made, by their identities, the default, and the calls of `Stop` on a logger and
-- of `Shutdown` on a provider, by the `Obs` that made them.
pub record Registry : Type 0 where
  pub made : List (ℕ × Obs)
  pub next : ℕ
  pub default : Option ℕ
  pub stopped : List ℕ
  pub shut : List ℕ

abbrev pub no_registry : Registry
no_registry = record { made = []; next = 0; default = none; stopped = []; shut = [] }

-- `Close` of an `Obs` that is not nil.
unfoldable pub close_open : ℕ → Obs → Registry → Registry
unfolding has_stop
close_open id o r = record r {
  made = insert id (record o { closed = true }) r.made;
  stopped = if has_stop o.log then r.stopped ++ id ∷ [] else r.stopped;
  shut = if is_some o.provider then r.shut ++ id ∷ [] else r.shut;
}

unfoldable pub close_found : ℕ → Option Obs → Registry → Registry
unfolding close_open
close_found id none r = r
close_found id (some o) r = if o.closed then r else close_open id o r

unfoldable pub close_obs : ℕ → Registry → Registry
unfolding close_found
close_obs id r = close_found id (lookup id r.made) r

-- `prev != nil && prev != o`; the new one is never the previous one.
unfoldable pub close_previous : Option ℕ → Registry → Registry
unfolding close_obs
close_previous none r = r
close_previous (some id) r = close_obs id r

-- What `Init` makes, and how it becomes the default.
unfoldable pub new_obs : Environment → Config → Obs
unfolding root_logger
new_obs e cfg = record {
  log = root_logger e cfg;
  provider = (choose_provider e cfg).0;
  closed = false;
}

unfoldable pub register : Obs → Registry → Registry
register o r = record r { made = insert r.next o r.made; next = r.next + 1; default = some r.next }

-- `Init`.
unfoldable pub init : Environment → Config → Registry → Registry
unfolding close_previous
init e cfg r = close_previous r.default (register (new_obs e cfg) r)

-- What `Init` sets in the package before it builds anything.
unfoldable pub configure : Config → Process → Process
unfolding configure_levels configure_metrics
configure cfg p =
    let q = record p {
      include_zero = cfg.include_zero_fields;
      metrics =
          configure_metrics cfg.metric_labels cfg.metric_schema (as_string cfg.service)
            (as_string cfg.env) p.metrics;
    } in
    configure_levels cfg.quiet_ops cfg.emit_level q
