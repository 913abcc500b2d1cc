-- ===== src/Strategy/Strategies.antt =====
-- The strategies of internal/core/service/strategy/strategies.go. A `Configure` method takes what
-- the type assertions on its map give.
use obs_brutal.Prelude.{
  ℕ, ◌≡◌, inl, inr, Bool, true, false, ◌&&◌, ◌||◌, Option, none, some, List, [], ◌∷◌, leb,
  if◌then◌else◌, Bool-cases, is_empty, nat_keys, string_keys, bytes_keys, insert,
}
use obs_brutal.Domain.Level.{Level}
use obs_brutal.Domain.Value.{Value, FieldMap, text}
use obs_brutal.Domain.Entry.{LogEntry}

pub record LevelFilter : Type 0 where
  pub min_level : Level
  pub max_level : Level

unfoldable pub should_log : LevelFilter → Option LogEntry → Bool
should_log lf none = false
should_log lf (some e) = leb lf.min_level e.level && leb e.level lf.max_level

abbrev or_else {ℓ} : {A : Type ℓ} → Option A → A → A
or_else none a = a
or_else (some b) a = b

unfoldable pub configure_levels : Option Level → Option Level → LevelFilter → LevelFilter
configure_levels lo hi lf = record {
  min_level = or_else lo lf.min_level;
  max_level = or_else hi lf.max_level;
}

-- What the samplers need of `float64`: the order and two numbers. NaN is below nothing.
pub record Floats : Type 1 where
  pub Float : Type 0
  pub lt : Float → Float → Bool
  pub le : Float → Float → Bool
  pub zero_float : Float
  pub one_float : Float
  pub lt_irrefl : (x : Float) → lt x x ≡ false
  pub one_not_negative : lt one_float zero_float ≡ false

module _ (f : Floats) where
  open f use {Float, lt, le, zero_float, one_float, lt_irrefl, one_not_negative}

  -- The clamping of `NewRateSampler`, `NewAdaptiveSampler` and `RateSampler.Configure`.
  unfoldable pub clamp_rate : Float → Float
  clamp_rate r = if lt r zero_float then zero_float else if lt one_float r then one_float else r

  -- `RateSampler.ShouldSample`, at the number that the generator would draw.
  unfoldable pub rate_should_sample : Float → Float → Bool
  rate_should_sample rate drawn =
      if le one_float rate then true else if le rate zero_float then false else lt drawn rate

  -- `AdaptiveSampler.ShouldSample`.
  unfoldable pub adaptive_should_sample : Float → Float → Float → Float → Bool
  adaptive_should_sample base lo hi drawn =
      let r = if lt base lo then lo else base in lt drawn (if lt hi r then hi else r)

  -- A clamped rate is not below 0 and not above 1, whatever was asked for.
  pub clamp_rate_bounds :
      (r : Float) → (lt (clamp_rate r) zero_float ≡ false) × (lt one_float (clamp_rate r) ≡ false)
  unfolding clamp_rate
  clamp_rate_bounds r = elim (Bool-cases (lt r zero_float)) [
    | inl low ↦ rw low (lt_irrefl zero_float, one_not_negative)
    | inr ok_ ↦ elim (Bool-cases (lt one_float r)) [
      | inl high ↦ rw (ok_, high) (one_not_negative, lt_irrefl one_float)
      | inr fine ↦ rw (ok_, fine) (ok_, fine)
    ]
  ]

-- `RegexMaskingStrategy`: each pattern is what `ReplaceAllString(_, "***")` does.
pub record RegexMasking : Type 0 where
  pub patterns : List (List ℕ → List ℕ)

abbrev apply_all : List (List ℕ → List ℕ) → List ℕ → List ℕ
apply_all [] s = s
apply_all (r ∷ rs) s = apply_all rs (r s)

mask_text : List (List ℕ → List ℕ) → Value → Value
mask_text rs (text s) = text (apply_all rs s)
mask_text rs v = v

mask_each : List (List ℕ → List ℕ) → FieldMap → FieldMap → FieldMap
mask_each rs [] out = out
mask_each rs ((k, v) ∷ m) out = mask_each rs m (insert k (mask_text rs v) out)

unfoldable pub regex_mask_fields : RegexMasking → FieldMap → FieldMap
unfolding mask_each mask_text
regex_mask_fields rm m =
    if is_empty rm.patterns || is_empty m then m else mask_each rm.patterns m []
