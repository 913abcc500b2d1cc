-- ===== src/Otel/Provider/Construction.antt =====
-- How the construction of a provider ends (`newProvider` of
-- internal/adapter/outbound/otel/provider.go), and what the shutdown of what it made stops.
use obs_brutal.Prelude.{
  ℕ, ◌≡◌, refl, ◌⊎◌, inl, inr, Bool, true, false, not, ◌&&◌, ◌||◌, Option, none, some, List, [],
  ◌∷◌, arith, if◌then◌else◌, Bool-cases, is_some, is_empty,
}
use obs_brutal.Otel.Provider.{
  Global, sdk, Globals, Sdk, SdkTracer, SdkMeter, OtelProvider, ExporterOption, exporter_options,
  init_metrics, foreign_meter_installed, new_provider, shutdown, ◌>>=◌,
}

-- Whether the SDK gives what is needed before any global is touched.
abbrev pub is_answered : Sdk → Bool → List ℕ → Bool
is_answered s exporting endpoint =
    s.merges
    && s.registers
    && (not exporting
        || (s.exports_traces (exporter_options endpoint)
            && s.exports_metrics (exporter_options endpoint)))

abbrev pub tracer_after : Sdk → Option ℕ → Global → Global
tracer_after s none g = sdk s.tracer_id
tracer_after s (some adopted) g = g

abbrev pub opener_of : Sdk → Option ℕ → Global
opener_of s none = sdk s.tracer_id
opener_of s (some adopted) = sdk adopted

abbrev pub batcher_of : Option SdkTracer → Option (List ExporterOption)
batcher_of none = none
batcher_of (some t) = t.batcher

abbrev pub periodic_of : Option SdkMeter → Option (List ExporterOption)
periodic_of none = none
periodic_of (some m) = m.periodic

-- What is set after the SDK gave all that: the tracer is the adopted one or new and global, the meter
-- is taken over where boeng exports and the application has none, a missing propagator is put in.
pub record IsOpened (s : Sdk) (exporting : Bool) (adopt : Option ℕ) (g g' : Globals) : Type 0 where
  pub tracer_lem : g'.tracer ≡ tracer_after s adopt g.tracer
  pub meter_lem :
      g'.meter ≡ (if exporting && not (foreign_meter_installed g) then sdk s.meter_id else g.meter)
  pub propagator_lem : g'.propagator ≡ (if is_empty g.propagator then s.composite else g.propagator)

-- A provider: traces and metrics leave the process by the same exporter options, or not at all. Its
-- shutdown stops what was made for it, and never what was adopted.
pub record IsMade (s : Sdk) (exporting : Bool) (endpoint : List ℕ) (adopt : Option ℕ)
    (stops : ℕ → Bool) (p : OtelProvider) : Type 0 where
  pub opener_lem : p.opener ≡ opener_of s adopt
  pub metrics_lem :
      periodic_of p.metric_provider ≡ (if exporting then some (exporter_options endpoint) else none)
  pub traces_lem :
      batcher_of p.trace_provider ≡ (if is_some adopt then none else periodic_of p.metric_provider)
  pub shutdown_lem : shutdown stops p ≡ (
      if is_some adopt
      then sdk s.meter_id ∷ []
      else if stops s.tracer_id
      then sdk s.tracer_id ∷ sdk s.meter_id ∷ []
      else sdk s.tracer_id ∷ [])

-- Refused before it touched a global, refused after it set them, or made.
pub record IsUntouched (answered : Bool) (g : Globals) (r : Option OtelProvider × Globals)
    : Type 0 where
  pub missing : answered ≡ false
  pub refused : r.0 ≡ none
  pub same : r.1 ≡ g

pub record IsLeft (s : Sdk) (answered exporting : Bool) (adopt : Option ℕ) (g : Globals)
    (r : Option OtelProvider × Globals) : Type 0 where
  pub answered_lem : answered ≡ true
  pub no_instruments : init_metrics s ≡ false
  pub refused : r.0 ≡ none
  pub opened : IsOpened s exporting adopt g r.1

module _ (s : Sdk) (service version environment endpoint : List ℕ) (exporting : Bool)
    (stops : ℕ → Bool) where
  abbrev pub Outcome : Option ℕ → Globals → Option OtelProvider × Globals → Type 0
  Outcome adopt g r =
      IsUntouched (is_answered s exporting endpoint) g r
      ⊎ IsLeft s (is_answered s exporting endpoint) exporting adopt g r
      ⊎ ((p : OtelProvider) × (r.0 ≡ some p)
          × (is_answered s exporting endpoint ≡ true)
          × (init_metrics s ≡ true)
          × IsMade s exporting endpoint adopt stops p
          × IsOpened s exporting adopt g r.1)

  new_provider-IsMade :
      (adopt : Option ℕ) (g : Globals) (p : OtelProvider) (g' : Globals)
      → new_provider s service version environment endpoint exporting adopt g ≡ (some p, g')
      → IsMade s exporting endpoint adopt stops p × IsOpened s exporting adopt g g'
  unfolding new_provider ◌>>=◌ foreign_meter_installed shutdown
  new_provider-IsMade none g p g' h = ground arith
  new_provider-IsMade (some a) g p g' h = ground arith

  new_provider-IsLeft :
      (adopt : Option ℕ) (g g' : Globals)
      → new_provider s service version environment endpoint exporting adopt g ≡ (none, g')
      → is_answered s exporting endpoint ≡ true
      → IsLeft s true exporting adopt g (none, g')
  unfolding new_provider ◌>>=◌ foreign_meter_installed
  new_provider-IsLeft none g g' h answered = ground arith
  new_provider-IsLeft (some a) g g' h answered = ground arith

  new_provider-answered :
      (adopt : Option ℕ) (g : Globals) (p : OtelProvider) (g' : Globals)
      → new_provider s service version environment endpoint exporting adopt g ≡ (some p, g')
      → (is_answered s exporting endpoint ≡ true) × (init_metrics s ≡ true)
  unfolding new_provider ◌>>=◌
  new_provider-answered none g p g' h = ground arith
  new_provider-answered (some a) g p g' h = ground arith

  refused-same :
      (adopt : Option ℕ) (g g' : Globals)
      → new_provider s service version environment endpoint exporting adopt g ≡ (none, g')
      → is_answered s exporting endpoint ≡ false
      → g' ≡ g
  unfolding new_provider ◌>>=◌
  refused-same adopt g g' h missing = ground arith

  pub new_provider-Outcome :
      (adopt : Option ℕ) (g : Globals)
      → Outcome adopt g (new_provider s service version environment endpoint exporting adopt g)
  new_provider-Outcome adopt g =
      ended (new_provider s service version environment endpoint exporting adopt g).0
        (new_provider s service version environment endpoint exporting adopt g).1 refl
    where
      ended :
          (r : Option OtelProvider) (g' : Globals)
          → new_provider s service version environment endpoint exporting adopt g ≡ (r, g')
          → Outcome adopt g (r, g')
      ended (some p) g' e = inr (
          inr (
            p,
            refl,
            (new_provider-answered adopt g p g' e).0,
            (new_provider-answered adopt g p g' e).1,
            (new_provider-IsMade adopt g p g' e).0,
            (new_provider-IsMade adopt g p g' e).1,
          ))
      ended none g' e = elim (Bool-cases (is_answered s exporting endpoint)) [
        | inl answered ↦ inr (inl (rw answered (new_provider-IsLeft adopt g g' e answered)))
        | inr missing ↦
            inl (record {
              missing = missing;
              refused = refl;
              same = refused-same adopt g g' e missing;
            })
      ]
