-- ===== src/Otel/Globals.antt =====
-- The globals of OpenTelemetry that boeng reads and sets
-- (internal/adapter/outbound/otel/provider.go): the tracer provider, the meter provider and the
-- propagator, who owns them, and steps on them that may fail.
use obs_brutal.Prelude.{
  ℕ, String, ◌≡◌, refl, Bool, true, false, not, Option, none, some, List, nat_eq, if◌then◌else◌,
  is_some, is_empty,
}

-- What is behind a global of OpenTelemetry: its own default, a provider of the SDK, or any other
-- implementation.
pub data Global : Type 0 where
  standard : Global
  sdk : ℕ → Global
  foreign : ℕ → Global

-- The globals of the process, with the fields of its propagator, and the providers that boeng has
-- installed itself.
pub record Globals : Type 0 where
  pub tracer : Global
  pub meter : Global
  pub propagator : List String
  pub owned_tracer : Option ℕ
  pub owned_meter : Option ℕ

-- A step on the globals, which may fail.
abbrev pub Action : Type 0 → Type 0
Action A = Globals → Option A × Globals

abbrev pub pure : {A : Type 0} → A → Action A
pure a g = (some a, g)

infixl 5 ◌>>=◌ ◌>>◌
unfoldable pub ◌>>=◌ : {A B : Type 0} → Action A → (A → Action B) → Action B
◌>>=◌ m f g = let done = m g in elim done.0 [ none ↦ (none, done.1) | some a ↦ f a done.1 ]

abbrev pub ◌>>◌ : {B : Type 0} → Action (Unit {0}) → Action B → Action B
m >> k = m >>= λ _. k

-- `if err != nil { return nil, err }`.
abbrev pub require : Bool → Action (Unit {0})
require true g = (some tt, g)
require false g = (none, g)

-- What every step of a chain keeps, the chain keeps.
abbrev pub Keeps : (Globals → Type 0) → {A : Type 0} → Action A → Type 0
Keeps P m = (g : Globals) → P g → P (m g).1

pub >>=-Keeps :
    (P : Globals → Type 0) {A B : Type 0} (m : Action A) (f : A → Action B)
    → Keeps P m
    → ((a : A) → Keeps P (f a))
    → Keeps P (m >>= f)
unfolding ◌>>=◌
>>=-Keeps P {A} {B} m f first rest g h = after (m g).0 (m g).1 (first g h)
  where
    after :
        (r : Option A) (g' : Globals)
        → P g'
        → P
            (let done : Option B × Globals = elim r [ none ↦ (none, g') | some a ↦ f a g' ] in
              done).1
    after none g' k = k
    after (some a) g' k = rest a g' k

pub require-Keeps : (P : Globals → Type 0) (b : Bool) → Keeps P (require b)
require-Keeps P true g h = h
require-Keeps P false g h = h

-- Inversion of a chain that succeeds.
pub >>=-eq-some :
    {A B : Type 0} (m : Action A) (f : A → Action B) (g : Globals) {b : B} {g' : Globals}
    → (m >>= f) g ≡ (some b, g')
    → (a : A) × (g₁ : Globals) × (m g ≡ (some a, g₁)) × (f a g₁ ≡ (some b, g'))
unfolding ◌>>=◌
>>=-eq-some {A} {B} m f g {b} {g'} h = inverted (m g).0 (m g).1 refl h
  where
    inverted :
        (r : Option A) (g₁ : Globals)
        → (m g ≡ (r, g₁))
        → (let done : Option B × Globals = elim r [ none ↦ (none, g₁) | some a ↦ f a g₁ ] in done)
          ≡ (some b, g')
        → (a : A) × (g₂ : Globals) × (m g ≡ (some a, g₂)) × (f a g₂ ≡ (some b, g'))
    inverted none g₁ e k = absurd (cc)
    inverted (some a) g₁ e k = (a, g₁, e, k)

abbrev pub is_sdk : Global → Option ℕ
is_sdk standard = none
is_sdk (sdk n) = some n
is_sdk (foreign n) = none

abbrev pub is_owned : Option ℕ → ℕ → Bool
is_owned none n = false
is_owned (some k) n = nat_eq n k

-- A provider of the SDK that boeng did not install itself.
abbrev pub foreign_sdk : Option ℕ → Option ℕ → Option ℕ
foreign_sdk none owned = none
foreign_sdk (some n) owned = if is_owned owned n then none else some n

-- `ForeignMeterProviderInstalled`.
unfoldable pub foreign_meter_installed : Globals → Bool
foreign_meter_installed g = is_some (foreign_sdk (is_sdk g.meter) g.owned_meter)

-- `AdoptableGlobalTracerProvider`.
unfoldable pub adoptable_tracer : Globals → Option ℕ
adoptable_tracer g = foreign_sdk (is_sdk g.tracer) g.owned_tracer

-- `EnsurePropagator`.
unfoldable pub ensure_propagator : List String → Globals → Globals
ensure_propagator composite g =
    if not (is_empty g.propagator) then g else record g { propagator = composite }
