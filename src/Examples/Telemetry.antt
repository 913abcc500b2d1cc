-- ===== src/Examples/Telemetry.antt =====
-- Concrete inputs for the theorems about the providers of OpenTelemetry: a process whose application
-- has its own, and one that has none.
use obs_brutal.Prelude.{ℕ, ◌+◌, String, ◌≡◌, refl, true, false, none, some, List, [], ◌∷◌, codes}
use obs_brutal.Otel.Provider.{
  ExporterOption, Globals, standard, sdk, Sdk, OtelProvider, with_endpoint, with_insecure,
  new_provider, new_otel_provider, ◌>>=◌, adoptable_tracer, foreign_meter_installed,
}
use obs_brutal.Otel.Endpoint.{export_configured, resolve_endpoint}
use obs_brutal.Otel.Provider.Ownership.{
  OtelState, OtelCall, make, install, set_tracer, IsRespected, otel_calls, otel_calls-IsRespected,
}
use obs_brutal.Otel.Provider.Telemetry.{OtelTelemetry, new_otel, new_telemetry, with_telemetry}
use obs_brutal.Boeng.Start.Handler.{unavailable, metrics_handler, metrics_handler-new_otel}
use obs_brutal.Boeng.Start.Providers.{Answers, open_provider}
use obs_brutal.Boeng.Start.Providers.Adoption.{IsAdopted, open_provider-IsAdopted}
use obs_brutal.Examples.Operations.{fresh, shop}

resolve_endpoint_values :
    (resolve_endpoint (codes "https://otel:4317/v1") ≡ (codes "otel:4317", false))
    × (resolve_endpoint (codes "otel:4317") ≡ (codes "otel:4317", true))
unfolding resolve_endpoint
resolve_endpoint_values = (refl, refl)

abbrev answers : ℕ → Sdk
answers n = record {
  merges = true;
  registers = true;
  exports_traces = λ options. true;
  exports_metrics = λ options. true;
  instrument = λ name. true;
  composite = "traceparent" ∷ "tracestate" ∷ "baggage" ∷ [];
  tracer_id = n;
  meter_id = n + 1;
}

-- The application has the tracer provider 1, the meter provider 2 and a propagator.
abbrev application : Globals
application = record {
  tracer = sdk 1;
  meter = sdk 2;
  propagator = "traceparent" ∷ [];
  owned_tracer = none;
  owned_meter = none;
}

abbrev application_state : OtelState
application_state = record { globals = application; made = [] }

abbrev some_calls : List OtelCall
some_calls =
    make (answers 10) (codes "shop") [] [] (codes "otel:4317") true none
    ∷ install 0
    ∷ make (answers 20) (codes "shop") [] [] [] false (some 1)
    ∷ set_tracer standard
    ∷ install 1
    ∷ []

otel_calls-IsRespected_example :
    IsRespected 2 "traceparent" [] (otel_calls some_calls application_state).globals
otel_calls-IsRespected_example =
    otel_calls-IsRespected 2 "traceparent" [] some_calls application_state
      (tt, (tt, (tt, (tt, (tt, tt)))))
      (record { meter_lem = refl; not_owned = refl; propagator_lem = refl })

-- The instruments are refused when the globals are set.
abbrev no_instruments : Sdk
no_instruments = record (answers 10) { instrument = λ name. false }

abbrev no_env : String → List ℕ
no_env k = []

abbrev shop_telemetry : OtelTelemetry
shop_telemetry = record { tracer_provider = 10; meter_provider = 11 }

abbrev shop_target : List ExporterOption
shop_target = with_endpoint (codes "otel:4317") ∷ with_insecure ∷ []

abbrev shop_provider : OtelProvider
shop_provider = record {
  service = codes "shop";
  version = [];
  environment = [];
  trace_provider = some (record { id = 10; samples = true; batcher = some shop_target });
  metric_provider = some (record { id = 11; periodic = some shop_target });
  opener = sdk 10;
  meter_installed = false;
}

-- The application's meter provider is gone, and boeng does not own the one in its place.
abbrev taken_over : Globals
taken_over = record application { tracer = sdk 10; meter = sdk 11; owned_tracer = some 10 }

metrics_handler-new_otel_example :
    (taken_over.meter ≡ sdk 11)
    × ((metrics_handler (some shop_provider) taken_over fresh).handler ≡ unavailable)
unfolding new_otel_provider new_otel with_telemetry new_telemetry new_provider ◌>>=◌
    resolve_endpoint export_configured foreign_meter_installed
metrics_handler-new_otel_example =
    metrics_handler-new_otel (answers 10) (answers 30) no_env (codes "shop") [] []
      (codes "otel:4317") application shop_telemetry shop_provider taken_over fresh refl refl refl

abbrev all_answers : Answers
all_answers = record { first = answers 10; telemetry = answers 30; second = answers 20 }

open_provider-IsAdopted_example :
    IsAdopted all_answers no_env shop
      (λ t. true)
      1
      application
      (open_provider all_answers no_env shop application)
unfolding adoptable_tracer
open_provider-IsAdopted_example =
    open_provider-IsAdopted all_answers no_env shop (λ t. true) 1 application refl refl
