-- ===== src/Boeng/Start/Handler.antt =====
-- `MetricsHandler` (boeng/boeng.go, with the calls that boeng/otel_shim.go passes on) over the globals
-- of OpenTelemetry and the instruments that boeng keeps.
use obs_brutal.Prelude.{
  ℕ, String, ◌≡◌, refl, ◌∙◌, inl, inr, Bool, true, false, ◌||◌, Option, none, some, List, arith,
  if◌then◌else◌, Bool-cases,
}
use obs_brutal.Otel.Provider.{
  sdk, Globals, Sdk, SdkMeter, OtelProvider, MeterInstall, meter_installed, meter_already_installed,
  meter_foreign, install_meter, install_found, foreign_meter_installed, is_owned,
}
use obs_brutal.Otel.Endpoint.{export_configured}
use obs_brutal.Otel.Provider.Telemetry.{OtelTelemetry, new_otel, IsInstalled, new_otel-IsInstalled}
use obs_brutal.Boeng.Metrics.{Metrics, reset_metric_instruments}

-- The handlers that are returned: one with an empty page, one that answers 503, and the one of the
-- registry.
pub data Handler : Type 0 where
  empty_page unavailable registry : Handler

-- What the call leaves, and whether it logged its warning.
pub record Served : Type 0 where
  pub handler : Handler
  pub provider : Option OtelProvider
  pub globals : Globals
  pub metrics : Metrics
  pub warned : Bool

served_by : MeterInstall → OtelProvider → Globals → Metrics → Served
unfolding reset_metric_instruments
served_by meter_installed p g m = record {
  handler = registry;
  provider = some p;
  globals = g;
  metrics = reset_metric_instruments m;
  warned = false;
}
served_by meter_already_installed p g m = record {
  handler = registry;
  provider = some p;
  globals = g;
  metrics = m;
  warned = false;
}
served_by meter_foreign p g m = record {
  handler = unavailable;
  provider = some p;
  globals = g;
  metrics = m;
  warned = true;
}

-- `MetricsHandler` of an `Obs` that is not nil, by its provider.
unfoldable pub metrics_handler : Option OtelProvider → Globals → Metrics → Served
unfolding served_by
metrics_handler none g m = record {
  handler = empty_page;
  provider = none;
  globals = g;
  metrics = m;
  warned = false;
}
metrics_handler (some p) g m = let done = install_meter p g in served_by done.0 done.1 done.2 m

-- The handler of an `Obs` with a provider that has a meter: it serves the registry, unless the
-- application owns the global meter provider, and a second call changes nothing any more.
pub record IsServed (p : OtelProvider) (g : Globals) (m : Metrics) : Type 0 where
  pub page :
      (metrics_handler (some p) g m).handler
      ≡ (if foreign_meter_installed g then unavailable else registry)
  pub metrics_lem :
      (metrics_handler (some p) g m).metrics
      ≡ (if foreign_meter_installed g || p.meter_installed then m else reset_metric_instruments m)
  pub settled :
      let first = metrics_handler (some p) g m in
      metrics_handler first.provider first.globals first.metrics ≡ first

found-settled :
    (k : SdkMeter) (p : OtelProvider) (g : Globals) (m : Metrics)
    → p.metric_provider ≡ some k
    → (let first = metrics_handler (some p) g m in
        metrics_handler first.provider first.globals first.metrics)
      ≡ metrics_handler (some p) g m
unfolding metrics_handler install_meter foreign_meter_installed
found-settled k p g m h = ground arith

-- A provider with a meter serves the registry unless the application owns the global meter provider;
-- the instruments are dropped exactly where this call installs the meter; and the same call on what it
-- leaves returns the same and leaves the same.
pub metrics_handler-IsServed :
    (k : SdkMeter) (p : OtelProvider) (g : Globals) (m : Metrics)
    → p.metric_provider ≡ some k
    → IsServed p g m
unfolding metrics_handler install_meter foreign_meter_installed
metrics_handler-IsServed k p g m h = record {
  page = ground arith;
  metrics_lem = ground arith;
  settled = found-settled k p g m h;
}

handler-foreign :
    (p : OtelProvider) (g : Globals) (m : Metrics)
    → foreign_meter_installed g ≡ true
    → (metrics_handler (some p) g m).handler ≡ unavailable
unfolding metrics_handler install_meter
handler-foreign p g m h = found p.metric_provider
  where
    found :
        (k : Option SdkMeter)
        → (served_by
            (install_found k p g).0
            (install_found k p g).1
            (install_found k p g).2
            m).handler
          ≡ unavailable
    found none = refl
    found (some k) = simp h

still_foreign :
    (s : Sdk) (exporting : Bool) (g : Globals) (t : OtelTelemetry) (g' : Globals)
    → foreign_meter_installed g ≡ true
    → is_owned g.owned_meter s.meter_id ≡ false
    → IsInstalled s exporting g t g'
    → foreign_meter_installed g' ≡ true
unfolding foreign_meter_installed
still_foreign s exporting g t g' foreign fresh i =
    let owned : g'.owned_meter ≡ g.owned_meter =
      i.owned_meter_lem
      ∙ (elim (Bool-cases exporting) [ inl e ↦ simp (e, foreign) | inr e ↦ simp e ]) in
    simp (i.meter_lem, owned, fresh)

-- A logger with telemetry that was made while the application's meter provider was the global one has
-- put its own in the place of that, and yet the handler of its metrics answers that the application
-- owns the global one.
pub metrics_handler-new_otel :
    (s s' : Sdk) (getenv : String → List ℕ) (service version environment endpoint : List ℕ)
    (g : Globals) (t : OtelTelemetry) (p : OtelProvider) (g' : Globals) (m : Metrics)
    → foreign_meter_installed g ≡ true
    → is_owned g.owned_meter s.meter_id ≡ false
    → new_otel s s' getenv service version environment endpoint g ≡ (some (t, p), g')
    → (g'.meter ≡ sdk s.meter_id) × ((metrics_handler (some p) g' m).handler ≡ unavailable)
metrics_handler-new_otel s s' getenv service version environment endpoint g t p g' m foreign fresh
      h =
    let i : IsInstalled s (export_configured getenv endpoint) g t g' =
      new_otel-IsInstalled s service version environment endpoint s' getenv g t p g' h in
    (i.meter_lem, handler-foreign p g' m (still_foreign s _ g t g' foreign fresh i))
