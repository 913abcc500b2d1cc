-- ===== src/Examples/Loggers.antt =====
-- Lines of the synchronous logger and of the logger with strategies.
use obs_brutal.Prelude.{
  ℕ, ◌%◌, ◌≡◌, refl, false, none, some, List, [], ◌∷◌, map, arith, ltb, leb, nat_eq, codes,
}
use obs_brutal.Domain.Level.{debug_level, info_level, warn_level}
use obs_brutal.Domain.Entry.{LogEntry, bare_entry}
use obs_brutal.Base.Unified.{World, UnifiedLog, new_unified, write_all, log}
use obs_brutal.Base.Pipeline.{Fails, new_pipeline}
use obs_brutal.Strategy.Manager.{Manager, FilterStrategy, process_entry}
use obs_brutal.Strategy.Manager.Processing.{Processed, process_entry-Processed}
use obs_brutal.Strategy.Logger.{Shared}
use obs_brutal.Strategy.Strategies.{Floats, clamp_rate}

abbrev empty_world : World
empty_world = record { writes = []; counts = λ _. 0 }

abbrev logger : UnifiedLog
logger = new_unified 0 1 info_level (some 4 ∷ none ∷ some 5 ∷ [])

abbrev hello : List ℕ
hello = codes "hello"

-- Both sinks that are there get the line, and a debug line is not logged.
log-logger :
    (map (λ w. w.0) (log logger info_level hello 9 empty_world).writes ≡ 4 ∷ 5 ∷ [])
    × (log logger debug_level hello 9 empty_world ≡ empty_world)
unfolding log new_unified write_all
log-logger = (refl, refl)

abbrev only_warnings : FilterStrategy
only_warnings = record { name = "level"; should_log = λ e. leb warn_level e.level }

abbrev hiding : Manager
hiding = record {
  filters = only_warnings ∷ [];
  samplers = record { name = "even"; should_sample = λ n e. nat_eq (n % 2) 0 } ∷ [];
  maskers = record { name = "none_left"; mask_fields = λ m. [] } ∷ [];
}

process_entry-Processed_example :
    Processed hiding 2
      (bare_entry warn_level hello 9)
      (process_entry hiding 2 (some (bare_entry warn_level hello 9)))
process_entry-Processed_example = process_entry-Processed hiding 2 (bare_entry warn_level hello 9)

abbrev never : Fails LogEntry
never s n x = false

abbrev shared : Shared
shared = record { manager = hiding; pipeline = new_pipeline 2 1 (some 4 ∷ []); counts = λ _. 0 }

ltb_irrefl : (x : ℕ) → ltb x x ≡ false
ltb_irrefl x = ground arith

-- Tenths from minus 10 stand for the numbers: 10 is zero and 20 is one.
abbrev tenths : Floats
tenths = record {
  Float = ℕ;
  lt = ltb;
  le = leb;
  zero_float = 10;
  one_float = 20;
  lt_irrefl = ltb_irrefl;
  one_not_negative = refl;
}

clamp_rate_value : (clamp_rate tenths 35 ≡ 20) × (clamp_rate tenths 13 ≡ 13)
unfolding clamp_rate
clamp_rate_value = (refl, refl)
