-- ===== src/Boeng/Start/Providers/Adoption.antt =====
-- What `Init` (boeng/boeng.go) leaves of an application's own OpenTelemetry when it has a tracer
-- provider and the configuration no endpoint.
use obs_brutal.Prelude.{
  ℕ, String, ◌≡◌, refl, ap, ◌∙◌, subst, inl, inr, Bool, true, false, Option, none, some, List, [],
  ◌∷◌, arith, is_empty,
}
use obs_brutal.Otel.Provider.{
  sdk, Globals, OtelProvider, adoptable_tracer, ensure_propagator, new_adopting, new_provider,
  shutdown,
}
use obs_brutal.Otel.Provider.Construction.{Outcome, new_provider-Outcome}
use obs_brutal.Boeng.Start.{Config}
use obs_brutal.Boeng.Start.Providers.{
  Answers, Opened, exports_itself, fall_back_provider, opened_or, open_provider,
}

adoptable_tracer-ensure :
    (composite : List String) (g : Globals)
    → adoptable_tracer (ensure_propagator composite g) ≡ adoptable_tracer g
unfolding adoptable_tracer ensure_propagator
adoptable_tracer-ensure composite g = ground arith

tracer-ensure :
    (composite : List String) (g : Globals) → (ensure_propagator composite g).tracer ≡ g.tracer
unfolding ensure_propagator
tracer-ensure composite g = ground arith

meter-ensure :
    (composite : List String) (g : Globals) → (ensure_propagator composite g).meter ≡ g.meter
unfolding ensure_propagator
meter-ensure composite g = ground arith

module _ (a : Answers) (getenv : String → List ℕ) where
  -- The tracer provider `tp` of the application is the one that operations use.
  pub record IsAdopted (cfg : Config) (stops : ℕ → Bool) (tp : ℕ) (g : Globals) (o : Opened)
      : Type 0 where
    pub tracer_lem : o.globals.tracer ≡ g.tracer
    pub meter_lem : o.globals.meter ≡ g.meter
    pub no_logger : o.telemetry ≡ none
    pub made :
        (p : OtelProvider)
        → o.provider ≡ some p
        → (p.opener ≡ sdk tp) × (shutdown stops p ≡ sdk a.second.meter_id ∷ [])

  outcome-IsAdopted :
      (cfg : Config) (stops : ℕ → Bool) (tp : ℕ) (g ready : Globals)
      (r : Option OtelProvider × Globals)
      → ready.tracer ≡ g.tracer
      → ready.meter ≡ g.meter
      → Outcome a.second cfg.service cfg.version cfg.env [] false stops (some tp) ready r
      → IsAdopted cfg stops tp g (record { provider = r.0; telemetry = none; globals = r.1 })
  outcome-IsAdopted cfg stops tp g ready r t m (inl u) = record {
    tracer_lem = ap (λ k. k.tracer) u.same ∙ t;
    meter_lem = ap (λ k. k.meter) u.same ∙ m;
    no_logger = refl;
    made = λ p e. absurd (cc (u.refused));
  }
  outcome-IsAdopted cfg stops tp g ready r t m (inr (inl l)) = record {
    tracer_lem = l.opened.tracer_lem ∙ t;
    meter_lem = l.opened.meter_lem ∙ m;
    no_logger = refl;
    made = λ p e. absurd (cc (l.refused));
  }
  outcome-IsAdopted cfg stops tp g ready r t m (inr (inr (p, e, _, _, made, opened))) = record {
    tracer_lem = opened.tracer_lem ∙ t;
    meter_lem = opened.meter_lem ∙ m;
    no_logger = refl;
    made = λ q h.
        subst (λ x. (x.opener ≡ sdk tp) × (shutdown stops x ≡ sdk a.second.meter_id ∷ []))
          (cc (e, h)) (made.opener_lem, made.shutdown_lem);
  }

  fall_back-IsAdopted :
      (cfg : Config) (stops : ℕ → Bool) (tp : ℕ) (g ready : Globals)
      → ready.tracer ≡ g.tracer
      → ready.meter ≡ g.meter
      → IsAdopted cfg stops tp g (opened_or a getenv cfg (some tp) none ready)
  unfolding opened_or fall_back_provider new_adopting
  fall_back-IsAdopted cfg stops tp g ready t m =
      outcome-IsAdopted cfg stops tp g ready
        (new_provider a.second cfg.service cfg.version cfg.env [] false (some tp) ready) t m
        (new_provider-Outcome a.second cfg.service cfg.version cfg.env [] false stops (some tp)
          ready)

  exports_itself-adopted :
      (cfg : Config) (g : Globals) (tp : ℕ)
      → is_empty cfg.otel ≡ true
      → adoptable_tracer g ≡ some tp
      → exports_itself a getenv cfg g ≡ false
  unfolding exports_itself
  exports_itself-adopted cfg g tp plain adoptable = ground arith

  -- Where the global tracer provider is one of the SDK that boeng did not install, and the configuration
  -- has no endpoint: `Init` leaves the global tracer provider and the global meter provider as they are
  -- and makes no logger with telemetry, and a provider that it makes opens its spans on that tracer
  -- provider and does not stop it.
  pub open_provider-IsAdopted :
      (cfg : Config) (stops : ℕ → Bool) (tp : ℕ) (g : Globals)
      → is_empty cfg.otel ≡ true
      → adoptable_tracer g ≡ some tp
      → IsAdopted cfg stops tp g (open_provider a getenv cfg g)
  unfolding open_provider
  open_provider-IsAdopted cfg stops tp g plain adoptable =
      let ready = ensure_propagator a.first.composite g in
      let same : adoptable_tracer ready ≡ some tp =
        adoptable_tracer-ensure a.first.composite g ∙ adoptable in
      rw (exports_itself-adopted cfg ready tp plain same, same)
        (fall_back-IsAdopted cfg stops tp g ready (tracer-ensure a.first.composite g)
          (meter-ensure a.first.composite g))
