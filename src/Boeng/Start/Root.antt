-- ===== src/Boeng/Start/Root.antt =====
-- The logger that `Init` leaves (boeng/boeng.go).
use obs_brutal.Prelude.{ℕ, String, ◌≡◌, refl, ◌≢◌, inl, inr, false, none, List, [], ◌∷◌, Bool-cases}
use obs_brutal.Boeng.Start.{
  Environment, Config, RootLogger, telemetry, asynchronous, synchronous, root_field, has_stop,
  choose_provider, root_of, field_if, root_logger,
}

-- A named logger without telemetry is synchronous.
field_if-has_stop :
    (k : String) (v : List ℕ) (l : RootLogger)
    → has_stop l ≡ false
    → has_stop (field_if k v l) ≡ false
unfolding field_if root_field has_stop
field_if-has_stop k [] l h = h
field_if-has_stop k (c ∷ v) (telemetry l) h = h
field_if-has_stop k (c ∷ v) (asynchronous l) h = refl
field_if-has_stop k (c ∷ v) (synchronous l) h = refl

named-has_stop :
    (e : Environment) (cfg : Config) (k : String) (v : List ℕ)
    → v ≢ []
    → has_stop (field_if k v (root_of e cfg none)) ≡ false
unfolding field_if root_field has_stop root_of
named-has_stop e cfg k [] h = absurd (h refl)
named-has_stop e cfg k (c ∷ v) h = elim (Bool-cases cfg.async) [
  | inl async ↦ simp async refl
  | inr sync ↦ simp sync refl
]

-- Where no exporting provider was made, a configuration with a service name leaves a logger without
-- `Stop`, one that writes at once, whether or not it asks for an asynchronous one.
pub root_logger-has_stop :
    (e : Environment) (cfg : Config)
    → (choose_provider e cfg).1 ≡ none
    → cfg.service ≢ []
    → has_stop (root_logger e cfg) ≡ false
unfolding root_logger
root_logger-has_stop e cfg plain named =
    field_if-has_stop "env" cfg.env _ (rw plain (named-has_stop e cfg "service" cfg.service named))
