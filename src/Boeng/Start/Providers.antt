-- ===== src/Boeng/Start/Providers.antt =====
-- How `Init` (boeng/boeng.go) comes to its provider over the globals of OpenTelemetry, in place of the
-- answers that the `Environment` gives.
pub mod Adoption
use obs_brutal.Prelude.{
  ℕ, zero, suc, ◌+◌, ◌-◌, ◌*◌, ◌/◌, ◌%◌, ◌^◌, ◌≤◌, ◌<◌, min, max, String, ◌≡◌, refl, sym, ap, ◌∙◌,
  subst, ◌≢◌, ◌↔◌, ◌⊎◌, inl, inr, Bool, true, false, not, ◌&&◌, ◌||◌, Option, none, some, List, [],
  ◌∷◌, ◌++◌, map, append_assoc, append-nil, zero-add, suc-add, arith, ltb, leb, nat_eq,
  if◌then◌else◌, ltb→lt, lt→ltb, leb→le, le→leb, ltb_of_le, nat_eq_iff, tests, Bool-cases,
  Option-cases, is_some, length, is_empty, take, drop, replicate, get_elem?, keep, all, any, concat,
  All, length-append, length-snoc, snoc-ne-nil, length-drop, length-take, take-append-drop,
  length-replicate, length-keep-le, concat-append, concat-snoc, drop-append, All-append, All-drop,
  last_n, drop-nil, drop-drop, length-last_n, last_n_all, last_n-append, tally, tally-append,
  tally-concat-append, Key, bytes_eq, bytes_eq_iff, ◌==◌, eq_refl, prefer, lookup, erase, insert,
  insert_all, IsMap, lookup-insert, lookup-erase, length-insert-le, length-insert_present,
  length-insert_absent, lookup-insert_all, insert-IsMap, insert_all-IsMap, range_into, ranged,
  lookup-range_into, range_into-IsMap, codes, as_string, is_upper, is_lower, is_digit, to_lower,
  has_prefix, contains,
}
use mathlib.Core.Option
use obs_brutal.Otel.{OtelLog}
use obs_brutal.Otel.Endpoint.{export_configured}
use obs_brutal.Otel.Provider.{
  Global, sdk, Globals, Sdk, OtelProvider, SdkTracer, init_metrics, ◌>>=◌, Action, adoptable_tracer,
  foreign_sdk, is_sdk, is_owned, ensure_propagator, new_no_export, new_adopting, new_provider,
  shutdown,
}
use obs_brutal.Otel.Provider.Construction.{
  IsMade, IsOpened, IsLeft, IsUntouched, Outcome, new_provider-Outcome,
}
use obs_brutal.Otel.Provider.Telemetry.{OtelTelemetry, new_otel}
use obs_brutal.Boeng.Start.{
  Config, Environment, Provider, exporting, adopting, no_export, export_via_boeng, choose_provider,
  exported_or, fallback_provider,
}

-- The SDK's answers to the constructions of one call of `Init`: the exporting provider, its telemetry
-- and the provider that is made when there is none.
pub record Answers : Type 0 where
  pub first : Sdk
  pub telemetry : Sdk
  pub second : Sdk

-- What `Init` holds afterwards: the provider, and the telemetry of the exporting logger.
pub record Opened : Type 0 where
  pub provider : Option OtelProvider
  pub telemetry : Option OtelTelemetry
  pub globals : Globals

module _ (a : Answers) (getenv : String → List ℕ) where
  -- The condition `exportViaBoeng`.
  unfoldable pub exports_itself : Config → Globals → Bool
  exports_itself cfg g =
      not (is_empty cfg.service)
      && (not (is_empty cfg.otel)
          || (not (is_some (adoptable_tracer g)) && export_configured getenv []))

  -- The first attempt.
  export_provider : Config → Action (OtelTelemetry × OtelProvider)
  unfolding exports_itself
  export_provider cfg g =
      if exports_itself cfg g
      then new_otel a.first a.telemetry getenv cfg.service cfg.version cfg.env cfg.otel g
      else (none, g)

  -- The second one, with what the process had before the first.
  pub fall_back_provider : Config → Option ℕ → Action OtelProvider
  fall_back_provider cfg none = new_no_export a.second cfg.service cfg.version cfg.env
  fall_back_provider cfg (some tp) = new_adopting a.second cfg.service cfg.version cfg.env tp

  pub opened_or : Config → Option ℕ → Option (OtelTelemetry × OtelProvider) → Globals → Opened
  unfolding fall_back_provider
  opened_or cfg adopt (some (t, p)) g = record {
    provider = some p;
    telemetry = some t;
    globals = g;
  }
  opened_or cfg adopt none g =
      let done = fall_back_provider cfg adopt g in
      record { provider = done.0; telemetry = none; globals = done.1 }

  -- The part of `Init` that comes to a provider.
  unfoldable pub open_provider : Config → Globals → Opened
  unfolding export_provider opened_or
  open_provider cfg g =
      let ready = ensure_propagator a.first.composite g in
      let tried = export_provider cfg ready in
      opened_or cfg (adoptable_tracer ready) tried.0 tried.1
