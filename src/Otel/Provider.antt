-- ===== src/Otel/Provider.antt =====
-- The provider of traces and metrics (internal/adapter/outbound/otel/provider.go) and what it does to
-- the globals of OpenTelemetry: its construction, the installation of its meter provider, and its
-- shutdown. Providers of the SDK are pointers, here numbers. What the SDK answers while a provider is
-- made is a parameter, and so are the identities of what it makes.
pub mod Construction
pub mod Ownership
pub mod Telemetry
use obs_brutal.Prelude.{
  ℕ, zero, suc, ◌+◌, ◌-◌, ◌*◌, ◌/◌, ◌%◌, ◌^◌, ◌≤◌, ◌<◌, min, max, String, ◌≡◌, refl, sym, ap, ◌∙◌,
  subst, ◌≢◌, ◌↔◌, ◌⊎◌, inl, inr, Bool, true, false, not, ◌&&◌, ◌||◌, Option, none, some, List, [],
  ◌∷◌, ◌++◌, map, append_assoc, append-nil, zero-add, suc-add, arith, ltb, leb, nat_eq,
  if◌then◌else◌, ltb→lt, lt→ltb, leb→le, le→leb, ltb_of_le, nat_eq_iff, tests, Bool-cases,
  Option-cases, is_some, length, is_empty, take, drop, replicate, get_elem?, keep, all, any, concat,
  All, length-append, length-snoc, snoc-ne-nil, length-drop, length-take, take-append-drop,
  length-replicate, length-keep-le, concat-append, concat-snoc, drop-append, All-append, All-drop,
  last_n, drop-nil, drop-drop, length-last_n, last_n_all, last_n-append, tally, tally-append,
  tally-concat-append, Key, bytes_eq, bytes_eq_iff, ◌==◌, eq_refl, prefer, lookup, erase, insert,
  insert_all, IsMap, lookup-insert, lookup-erase, length-insert-le, length-insert_present,
  length-insert_absent, lookup-insert_all, insert-IsMap, insert_all-IsMap, range_into, ranged,
  lookup-range_into, range_into-IsMap, codes, as_string, is_upper, is_lower, is_digit, to_lower,
  has_prefix, contains,
}
use obs_brutal.Otel.Endpoint.{resolve_endpoint, export_configured}
pub use obs_brutal.Otel.Globals.{
  Global, standard, sdk, foreign, Globals, >>=-Keeps, require-Keeps, >>=-eq-some,
}
unfoldable pub use obs_brutal.Otel.Globals.{
  Action, pure, ◌>>=◌, ◌>>◌, require, Keeps, is_sdk, is_owned, foreign_sdk, foreign_meter_installed,
  adoptable_tracer, ensure_propagator,
}

pub data ExporterOption : Type 0 where
  with_endpoint : List ℕ → ExporterOption
  with_insecure : ExporterOption

-- The answers of the SDK to one construction: whether the resources merge, the registry takes the
-- exporter of metrics, the exporters can be made and the instruments can; the fields of the composite
-- of W3C propagators; and the identities of the new providers.
pub record Sdk : Type 0 where
  pub merges : Bool
  pub registers : Bool
  pub exports_traces : List ExporterOption → Bool
  pub exports_metrics : List ExporterOption → Bool
  pub instrument : List ℕ → Bool
  pub composite : List String
  pub tracer_id : ℕ
  pub meter_id : ℕ

-- A tracer provider: whether it samples always or never, and the options of the exporter of its
-- batches. A meter provider: the options of the exporter that reads it beside the registry.
pub record SdkTracer : Type 0 where
  pub id : ℕ
  pub samples : Bool
  pub batcher : Option (List ExporterOption)

pub record SdkMeter : Type 0 where
  pub id : ℕ
  pub periodic : Option (List ExporterOption)

-- `opener` is the provider whose tracer opens the spans.
pub record OtelProvider : Type 0 where
  pub service : List ℕ
  pub version : List ℕ
  pub environment : List ℕ
  pub trace_provider : Option SdkTracer
  pub metric_provider : Option SdkMeter
  pub opener : Global
  pub meter_installed : Bool

-- `MeterInstall`.
pub data MeterInstall : Type 0 where
  meter_installed meter_already_installed meter_foreign : MeterInstall

-- `InstallMeterProvider` of a provider that is not nil.
pub install_found : Option SdkMeter → OtelProvider → Globals → MeterInstall × OtelProvider × Globals
unfolding foreign_meter_installed
install_found none p g = (meter_foreign, p, g)
install_found (some m) p g =
    if foreign_meter_installed g
    then (meter_foreign, p, g)
    else if p.meter_installed
    then (meter_already_installed, p, g)
    else (
      meter_installed,
      record p { meter_installed = true },
      record g { meter = sdk m.id; owned_meter = some m.id },
    )

unfoldable pub install_meter : OtelProvider → Globals → MeterInstall × OtelProvider × Globals
unfolding install_found
install_meter p g = install_found p.metric_provider p g

-- The options of both exporters.
unfoldable pub exporter_options : List ℕ → List ExporterOption
exporter_options endpoint =
    let target = resolve_endpoint endpoint in
    if is_empty target.0
    then []
    else if target.1
    then with_endpoint target.0 ∷ with_insecure ∷ []
    else with_endpoint target.0 ∷ []

-- The tracer: that of the adopted provider, or of the new one, which becomes the global one.
pub install_tracer : Option ℕ → SdkTracer → Action (Option SdkTracer × Global)
install_tracer (some adopt) t g = (some (none, sdk adopt), g)
install_tracer none t g =
    (some (some t, sdk t.id), record g { tracer = sdk t.id; owned_tracer = some t.id })

-- Only an exporting provider takes over the meter.
pub take_over_meter : Bool → OtelProvider → Action OtelProvider
unfolding install_meter
take_over_meter false p g = (some p, g)
take_over_meter true p g = let done = install_meter p g in (some done.1, done.2)

module _ (s : Sdk) where
  -- `initMetrics`.
  unfoldable pub init_metrics : Bool
  init_metrics =
      s.instrument (codes "logs_total")
      && s.instrument (codes "errors_total")
      && s.instrument (codes "log_duration_seconds")

  -- The exporters, one after the other; without export there are none.
  pub make_exporters : Bool → List ExporterOption → Action (Option (List ExporterOption))
  make_exporters false options = pure none
  make_exporters true options = do
    require (s.exports_traces options)
    require (s.exports_metrics options)
    pure (some options)

  pub own_tracer : Bool → Option (List ExporterOption) → SdkTracer
  own_tracer exporting batcher = record { id = s.tracer_id; samples = exporting; batcher = batcher }

  pub propagate : Action (Unit {0})
  unfolding ensure_propagator
  propagate g = (some tt, ensure_propagator s.composite g)

  -- `newProvider`.
  unfoldable pub new_provider :
      List ℕ → List ℕ → List ℕ → List ℕ → Bool → Option ℕ → Action OtelProvider
  unfolding init_metrics make_exporters own_tracer install_tracer propagate take_over_meter
      exporter_options
  new_provider service version environment endpoint exporting adopt = do
    require s.merges
    require s.registers
    exporter ← make_exporters exporting (exporter_options endpoint)
    opened ← install_tracer adopt (own_tracer exporting exporter)
    propagate
    p ← take_over_meter exporting (record {
      service = service;
      version = version;
      environment = environment;
      trace_provider = opened.0;
      metric_provider = some (record { id = s.meter_id; periodic = exporter });
      opener = opened.1;
      meter_installed = false;
    })
    require init_metrics
    pure p

  -- `NewOTelProvider`, `NewOTelProviderNoExport` and `NewOTelProviderAdopting`.
  unfoldable pub new_otel_provider :
      (String → List ℕ) → List ℕ → List ℕ → List ℕ → List ℕ → Action OtelProvider
  unfolding new_provider
  new_otel_provider getenv service version environment endpoint =
      new_provider service version environment endpoint (export_configured getenv endpoint) none

  unfoldable pub new_no_export : List ℕ → List ℕ → List ℕ → Action OtelProvider
  unfolding new_provider
  new_no_export service version environment = new_provider service version environment [] false none

  unfoldable pub new_adopting : List ℕ → List ℕ → List ℕ → ℕ → Action OtelProvider
  unfolding new_provider
  new_adopting service version environment tp =
      new_provider service version environment [] false (some tp)

-- What is told of a line to the instruments: the level on the counter of lines only.
pub data Instrument : Type 0 where
  log_counter : List ℕ → Instrument
  error_counter : Instrument
  duration : ℕ → Instrument

-- `RecordLogMetric`, without the attributes of the caller.
unfoldable pub record_log_metric : ℕ → List ℕ → List Instrument
record_log_metric took level =
    log_counter level
    ∷ ((if bytes_eq level (codes "ERROR") || bytes_eq level (codes "FATAL")
          then error_counter ∷ []
          else [])
        ++ duration took ∷ [])

-- The providers that `Shutdown` stops, in order, when stopping a tracer provider may fail.
pub shutdown_meter : Option SdkMeter → List Global
shutdown_meter none = []
shutdown_meter (some m) = sdk m.id ∷ []

unfoldable pub shutdown_from : (ℕ → Bool) → Option SdkTracer → Option SdkMeter → List Global
unfolding shutdown_meter
shutdown_from stops none m = shutdown_meter m
shutdown_from stops (some t) m = sdk t.id ∷ (if stops t.id then shutdown_meter m else [])

unfoldable pub shutdown : (ℕ → Bool) → OtelProvider → List Global
unfolding shutdown_from
shutdown stops p = shutdown_from stops p.trace_provider p.metric_provider
