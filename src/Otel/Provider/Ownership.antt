-- ===== src/Otel/Provider/Ownership.antt =====
-- Who owns the globals of OpenTelemetry: what boeng does to them when providers are made and
-- installed, and the application sets them in between.
use obs_brutal.Prelude.{
  ℕ, zero, suc, String, ◌≡◌, refl, Bool, true, false, Option, none, some, List, [], ◌∷◌, ◌++◌,
  arith, All,
}
use obs_brutal.Otel.Provider.{
  Global, sdk, Globals, ExporterOption, Sdk, OtelProvider, SdkTracer, SdkMeter, is_owned,
  ensure_propagator, install_meter, exporter_options, Keeps, >>=-Keeps, require-Keeps, init_metrics,
  install_found, install_tracer, take_over_meter, make_exporters, own_tracer, propagate,
  new_provider, pure, ◌>>◌, require,
}

-- The globals, and the providers that were made and not refused.
pub record OtelState : Type 0 where
  pub globals : Globals
  pub made : List OtelProvider

-- The application sets a global, boeng makes a provider by one of its constructors, or installs the
-- meter provider of the provider at an index.
pub data OtelCall : Type 0 where
  set_tracer : Global → OtelCall
  set_meter : Global → OtelCall
  set_propagator : List String → OtelCall
  make : Sdk → List ℕ → List ℕ → List ℕ → List ℕ → Bool → Option ℕ → OtelCall
  install : ℕ → OtelCall

install_at : ℕ → List OtelProvider → Globals → List OtelProvider × Globals
unfolding install_meter
install_at n [] g = ([], g)
install_at zero (p ∷ ps) g = let done = install_meter p g in (done.1 ∷ ps, done.2)
install_at (suc n) (p ∷ ps) g = let done = install_at n ps g in (p ∷ done.0, done.1)

keep_made : Option OtelProvider → List OtelProvider → List OtelProvider
keep_made none ps = ps
keep_made (some p) ps = ps ++ p ∷ []

unfoldable pub otel_call : OtelCall → OtelState → OtelState
unfolding install_at keep_made
otel_call (set_tracer t) s = record s { globals = record s.globals { tracer = t } }
otel_call (set_meter m) s = record s { globals = record s.globals { meter = m } }
otel_call (set_propagator fs) s = record s { globals = record s.globals { propagator = fs } }
otel_call (make k service version environment endpoint exporting adopt) s =
    let done = new_provider k service version environment endpoint exporting adopt s.globals in
    record { globals = done.1; made = keep_made done.0 s.made }
otel_call (install n) s =
    let done = install_at n s.made s.globals in record { globals = done.1; made = done.0 }

unfoldable pub otel_calls : List OtelCall → OtelState → OtelState
unfolding otel_call
otel_calls [] s = s
otel_calls (c ∷ cs) s = otel_calls cs (otel_call c s)

-- The application leaves its meter provider and its propagator as they are.
abbrev pub IsSettled : OtelCall → Type 0
IsSettled (set_meter m) = ⊥
IsSettled (set_propagator fs) = ⊥
IsSettled c = Unit

-- The provider `m` of the SDK is the global meter provider and not one that boeng installed; there is a propagator with the
-- fields `fs`.
pub record IsRespected (m : ℕ) (f : String) (fs : List String) (g : Globals) : Type 0 where
  pub meter_lem : g.meter ≡ sdk m
  pub not_owned : is_owned g.owned_meter m ≡ false
  pub propagator_lem : g.propagator ≡ f ∷ fs

module _ (m : ℕ) (f : String) (fs : List String) where
  install_meter-settled :
      (p : OtelProvider) (g : Globals) → IsRespected m f fs g → (install_meter p g).2 ≡ g
  unfolding install_meter
  install_meter-settled p g h = settled p.metric_provider
    where
      settled : (mp : Option SdkMeter) → (install_found mp p g).2 ≡ g
      settled none = refl
      settled (some k) = simp (h.meter_lem, h.not_owned)

  ensure_propagator-settled :
      (composite : List String) (g : Globals)
      → IsRespected m f fs g
      → ensure_propagator composite g ≡ g
  unfolding ensure_propagator
  ensure_propagator-settled composite g h = simp h.propagator_lem

  install_at-settled :
      (n : ℕ) (ps : List OtelProvider) (g : Globals)
      → IsRespected m f fs g
      → (install_at n ps g).1 ≡ g
  unfolding install_at
  install_at-settled n [] g h = refl
  install_at-settled zero (p ∷ ps) g h = install_meter-settled p g h
  install_at-settled (suc n) (p ∷ ps) g h = install_at-settled n ps g h

  install_tracer-IsRespected :
      (adopt : Option ℕ) (t : SdkTracer) (g : Globals)
      → IsRespected m f fs g
      → IsRespected m f fs (install_tracer adopt t g).1
  unfolding install_tracer
  install_tracer-IsRespected none t g h = ground arith
  install_tracer-IsRespected (some a) t g h = h

  take_over_meter-settled :
      (exporting : Bool) (p : OtelProvider) (g : Globals)
      → IsRespected m f fs g
      → (take_over_meter exporting p g).1 ≡ g
  unfolding take_over_meter
  take_over_meter-settled false p g h = refl
  take_over_meter-settled true p g h = install_meter-settled p g h

  make_exporters-Keeps :
      (s : Sdk) (exporting : Bool) (options : List ExporterOption)
      → Keeps (IsRespected m f fs) (make_exporters s exporting options)
  unfolding make_exporters
  make_exporters-Keeps s false options = λ g h. h
  make_exporters-Keeps s true options =
      let P = IsRespected m f fs in
      >>=-Keeps P (require (s.exports_traces options))
        (λ _. require (s.exports_metrics options) >> pure (some options))
        (require-Keeps P (s.exports_traces options))
        (λ _.
          >>=-Keeps P (require (s.exports_metrics options)) (λ _. pure (some options))
            (require-Keeps P (s.exports_metrics options)) (λ _ g h. h))

  propagate-Keeps : (s : Sdk) → Keeps (IsRespected m f fs) (propagate s)
  unfolding propagate
  propagate-Keeps s g h = rw (ensure_propagator-settled s.composite g h) h

  take_over_meter-Keeps :
      (exporting : Bool) (p : OtelProvider)
      → Keeps (IsRespected m f fs) (take_over_meter exporting p)
  take_over_meter-Keeps exporting p g h = rw (take_over_meter-settled exporting p g h) h

  new_provider-Keeps :
      (s : Sdk) (service version environment endpoint : List ℕ) (exporting : Bool)
      (adopt : Option ℕ)
      → Keeps
          (IsRespected m f fs)
          (new_provider s service version environment endpoint exporting adopt)
  unfolding new_provider
  new_provider-Keeps s service version environment endpoint exporting adopt =
      let P = IsRespected m f fs in
      >>=-Keeps P _ _ (require-Keeps P s.merges) λ _.
        >>=-Keeps P _ _ (require-Keeps P s.registers) λ _.
          >>=-Keeps P _ _ (make_exporters-Keeps s exporting (exporter_options endpoint)) λ exporter.
            >>=-Keeps P _ _ (install_tracer-IsRespected adopt (own_tracer s exporting exporter))
              λ opened. >>=-Keeps P _ _ (propagate-Keeps s) λ _.
                >>=-Keeps P _ _ (take_over_meter-Keeps exporting _)
                  λ p. >>=-Keeps P _ _ (require-Keeps P (init_metrics s)) (λ _ g h. h)

  otel_call-IsRespected :
      (c : OtelCall) (s : OtelState)
      → IsSettled c
      → IsRespected m f fs s.globals
      → IsRespected m f fs (otel_call c s).globals
  unfolding otel_call
  otel_call-IsRespected (set_tracer t) s settled h = ground arith
  otel_call-IsRespected (set_meter k) s settled h = absurd settled
  otel_call-IsRespected (set_propagator k) s settled h = absurd settled
  otel_call-IsRespected (make k service version environment endpoint exporting adopt) s settled h =
      new_provider-Keeps k service version environment endpoint exporting adopt s.globals h
  otel_call-IsRespected (install n) s settled h = rw (install_at-settled n s.made s.globals h) h

  -- Where the global meter provider is one of the SDK that boeng did not install, and there is a
  -- propagator, and the application sets neither of them again: no construction of a provider by
  -- `newProvider`, exporting or adopting or not, refused or not, and no `InstallMeterProvider` replaces
  -- them, and boeng never holds that meter provider for its own. (`NewOTelTelemetry`, which sets the
  -- globals again, is not one of these calls.)
  pub otel_calls-IsRespected :
      (cs : List OtelCall) (s : OtelState)
      → All IsSettled cs
      → IsRespected m f fs s.globals
      → IsRespected m f fs (otel_calls cs s).globals
  unfolding otel_calls
  otel_calls-IsRespected [] s settled h = h
  otel_calls-IsRespected (c ∷ cs) s settled h =
      otel_calls-IsRespected cs (otel_call c s) settled.1 (otel_call-IsRespected c s settled.0 h)
