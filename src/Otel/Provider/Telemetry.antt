-- ===== src/Otel/Provider/Telemetry.antt =====
-- The telemetry of a logger over the OpenTelemetry SDK (internal/adapter/outbound/telemetry/otel.go)
-- and the constructors that put it over a provider (internal/adapter/outbound/otel/otel.go and
-- `NewOTelWithService` of internal/logtrc/api.go), as far as the globals of OpenTelemetry see them.
use obs_brutal.Prelude.{
  ℕ, String, ◌≡◌, Bool, not, ◌&&◌, Option, none, some, List, arith, if◌then◌else◌,
}
use obs_brutal.Otel.Endpoint.{export_configured}
use obs_brutal.Otel.Provider.{
  sdk, Globals, Sdk, SdkTracer, SdkMeter, OtelProvider, Action, pure, ◌>>=◌, ◌>>◌, >>=-eq-some,
  require, foreign_meter_installed, new_provider, new_otel_provider, init_metrics,
}

-- The two providers behind the telemetry.
pub record OtelTelemetry : Type 0 where
  pub tracer_provider : ℕ
  pub meter_provider : ℕ

abbrev pub tracer_or : Option SdkTracer → ℕ → ℕ
tracer_or none fresh = fresh
tracer_or (some t) fresh = t.id

abbrev pub meter_or : Option SdkMeter → ℕ → ℕ
meter_or none fresh = fresh
meter_or (some m) fresh = m.id

set_globals : ℕ → ℕ → Action (Unit {0})
set_globals t m g = (some tt, record g { tracer = sdk t; meter = sdk m })

-- `NewOTelTelemetry`; `s` answers for the SDK and has the providers that are made for those missing.
unfoldable pub new_telemetry : Sdk → Option SdkTracer → Option SdkMeter → Action OtelTelemetry
unfolding set_globals
new_telemetry s tp mp = do
  set_globals (tracer_or tp s.tracer_id) (meter_or mp s.meter_id)
  require (init_metrics s)
  pure (record {
    tracer_provider = tracer_or tp s.tracer_id;
    meter_provider = meter_or mp s.meter_id;
  })

unfoldable pub with_telemetry : Sdk → OtelProvider → Action (OtelTelemetry × OtelProvider)
with_telemetry s p = do t ← new_telemetry s p.trace_provider p.metric_provider; pure (t, p)

-- `NewOTel`: the answers to the two constructions may differ.
unfoldable pub new_otel :
    Sdk
    → Sdk
    → (String → List ℕ)
    → List ℕ
    → List ℕ
    → List ℕ
    → List ℕ
    → Action (OtelTelemetry × OtelProvider)
new_otel s s' getenv service version environment endpoint =
    new_otel_provider s getenv service version environment endpoint >>= with_telemetry s'

-- What a new logger with telemetry leaves: its providers are the globals, and which meter provider
-- boeng holds for its own follows from what was the global one before.
pub record IsInstalled (s : Sdk) (exporting : Bool) (g : Globals) (t : OtelTelemetry) (g' : Globals)
    : Type 0 where
  pub tracer_lem : g'.tracer ≡ sdk s.tracer_id
  pub meter_lem : g'.meter ≡ sdk s.meter_id
  pub telemetry_lem : (t.tracer_provider ≡ s.tracer_id) × (t.meter_provider ≡ s.meter_id)
  pub owned_tracer_lem : g'.owned_tracer ≡ some s.tracer_id
  pub owned_meter_lem :
      g'.owned_meter
      ≡ (if exporting && not (foreign_meter_installed g) then some s.meter_id else g.owned_meter)

module _ (s : Sdk) (service version environment endpoint : List ℕ) where
  own-IsMade :
      (i j : ℕ) (exporting : Bool) (g : Globals) (p : OtelProvider) (g' : Globals)
      → new_provider s service version environment endpoint exporting none g ≡ (some p, g')
      → (tracer_or p.trace_provider i ≡ s.tracer_id)
        × (g'.owned_tracer ≡ some s.tracer_id)
        × (meter_or p.metric_provider j ≡ s.meter_id)
        × (g'.owned_meter ≡ (
            if exporting && not (foreign_meter_installed g)
            then some s.meter_id
            else g.owned_meter))
  unfolding new_provider ◌>>=◌ foreign_meter_installed
  own-IsMade i j exporting g p g' h = ground arith

  telemetry-IsInstalled :
      (s' : Sdk) (exporting : Bool) (g g₁ : Globals) (p : OtelProvider) (t : OtelTelemetry)
      (q : OtelProvider) (g' : Globals)
      → new_provider s service version environment endpoint exporting none g ≡ (some p, g₁)
      → with_telemetry s' p g₁ ≡ (some (t, q), g')
      → IsInstalled s exporting g t g'
  unfolding with_telemetry new_telemetry ◌>>=◌
  telemetry-IsInstalled s' exporting g g₁ p t q g' made h =
      let facts = own-IsMade s'.tracer_id s'.meter_id exporting g p g₁ made in ground arith

  pub new_otel-IsInstalled :
      (s' : Sdk) (getenv : String → List ℕ) (g : Globals) (t : OtelTelemetry) (p : OtelProvider)
      (g' : Globals)
      → new_otel s s' getenv service version environment endpoint g ≡ (some (t, p), g')
      → IsInstalled s (export_configured getenv endpoint) g t g'
  unfolding new_otel new_otel_provider
  new_otel-IsInstalled s' getenv g t p g' h =
      let (q, g₁, made, rest) =
        >>=-eq-some (new_otel_provider s getenv service version environment endpoint)
          (with_telemetry s') g h in
      telemetry-IsInstalled s' (export_configured getenv endpoint) g g₁ q t p g' made rest
