-- ===== src/Otel.antt =====
-- The logger with telemetry (internal/core/service/otel_logger.go) over the logger with strategies:
-- what it tells the telemetry provider of each line, and the hook that exports the counters of the
-- pipeline. The provider is a parameter: what it is told is recorded.
pub mod Endpoint
pub mod Globals
pub mod Provider
pub mod Totals
use obs_brutal.Prelude.{
  ℕ, ◌-◌, String, Bool, Option, none, some, List, [], ◌∷◌, ◌++◌, ltb, leb, if◌then◌else◌, length,
  replicate, bytes_keys, string_keys, nat_keys, lookup, codes,
}
use obs_brutal.Domain.Level.{Level}
use obs_brutal.Domain.Value.{Value, FieldMap, text, context, as_text}
use obs_brutal.Domain.Entry.{LogEntry}
use obs_brutal.Util.Context.{Context}
use obs_brutal.Base.Unified.{UnifiedLog, fields_copy, with_only_fields}
use obs_brutal.Base.Pipeline.{Pipeline, Fails, Interference, Waiting}
use obs_brutal.Strategy.Logger.{
  Shared, StrategyLog, strategy_log, strategy_field, strategy_fields, strategy_context,
}

-- A call of `RecordLog`: the context by its identity, `none` for the background.
pub record Recorded : Type 0 where
  pub ctx : Option ℕ
  pub level : Level
  pub took : ℕ
  pub service : Option (List ℕ)

-- What lines leave behind: the state of the logger with strategies, and the calls of the provider.
pub record OtelWorld : Type 0 where
  pub shared : Shared
  pub recorded : List Recorded

-- `has_provider` is whether `tp` is not nil.
pub record OtelLog : Type 0 where
  pub strategy : StrategyLog
  pub has_provider : Bool

-- The assertions `v.(context.Context)`, and `v.(string)` with the test against the empty string.
abbrev pub as_context : Option Value → Option ℕ
as_context (some (context c)) = some c
as_context (some v) = none
as_context none = none

abbrev pub named_text : Option Value → Option (List ℕ)
named_text (some (text (c ∷ s))) = some (c ∷ s)
named_text (some v) = none
named_text none = none

-- `Context`.
unfoldable pub otel_context : OtelLog → Option ℕ
otel_context ol = as_context (lookup "context" (fields_copy ol.strategy.base))

-- `record`, when the line took `took`.
unfoldable pub record_line : Level → ℕ → OtelLog → OtelWorld → OtelWorld
unfolding otel_context
record_line lvl took ol w =
    let line : Recorded = record {
      ctx = otel_context ol;
      level = lvl;
      took = took;
      service = named_text (lookup "service" (fields_copy ol.strategy.base));
    } in
    if ol.has_provider then record w { recorded = w.recorded ++ line ∷ [] } else w

module _ (fails : Fails LogEntry) (after_test : Interference LogEntry) (i : Waiting LogEntry)
    (j : Interference LogEntry) where
  -- `Debug` to `Fatalf`, by the level.
  unfoldable pub otel_log : Level → List ℕ → ℕ → ℕ → ℕ → OtelLog → OtelWorld → OtelWorld
  unfolding record_line
  otel_log lvl msg now drawn took ol w = record_line lvl took ol (record w {
    shared = strategy_log fails after_test i j lvl msg now drawn ol.strategy w.shared;
  })

-- `F`, `Fs`, `Ctx`, `WithError`.
unfoldable pub otel_field : String → Value → OtelLog → OtelLog
otel_field k v ol = record ol { strategy = strategy_field k v ol.strategy }

unfoldable pub otel_fields : FieldMap → OtelLog → OtelLog
otel_fields m ol = record ol { strategy = strategy_fields m ol.strategy }

unfoldable pub otel_ctx : Option Context → OtelLog → OtelLog
otel_ctx ctx ol = record ol { strategy = strategy_context ctx ol.strategy }

unfoldable pub otel_error : Option (List ℕ) → OtelLog → OtelLog
unfolding otel_field
otel_error none ol = ol
otel_error (some msg) ol = otel_field "error" (text msg) ol

-- `WithOnlyFields`: it replaces the fields of the receiver itself.
unfoldable pub otel_only_fields : FieldMap → OtelLog → OtelLog
otel_only_fields m ol = record ol {
  strategy = record { base = with_only_fields m ol.strategy.base };
}

-- `AsyncStats` and `Stats`.
pub record AsyncStats : Type 0 where
  pub processed : ℕ
  pub dropped : ℕ
  pub batches : ℕ
  pub errors : ℕ
  pub queue_size : ℕ

unfoldable pub stats : {E : Type 0} → Pipeline E → AsyncStats
stats p = record {
  processed = p.processed;
  dropped = p.dropped;
  batches = p.batches;
  errors = p.errors;
  queue_size = length p.log_chan;
}

-- What the hook tells the meter: one more on a counter, or a value for a histogram. The labels are
-- those of the hook, always the same.
pub data MeterCall : Type 0 where
  increment : List ℕ → MeterCall
  observe : List ℕ → ℕ → MeterCall

-- `incN`.
unfoldable pub inc_n : List ℕ → ℕ → List MeterCall
inc_n name n =
    if ltb 1000 n then observe (name ++ codes "_delta") n ∷ [] else replicate n (increment name)

unfoldable pub inc_since : List ℕ → ℕ → ℕ → List MeterCall
unfolding inc_n
inc_since name prev now = if leb prev now then inc_n name (now - prev) else []

abbrev pub processed_total : List ℕ
processed_total = codes "obs_async_processed_total"

abbrev pub dropped_total : List ℕ
dropped_total = codes "obs_async_dropped_total"

abbrev pub batches_total : List ℕ
batches_total = codes "obs_async_batches_total"

abbrev pub errors_total : List ℕ
errors_total = codes "obs_async_errors_total"

-- One call of the hook that `installPipelineMetricsHook` installs; `prev` is the variable that it
-- keeps, which is `s` afterwards.
unfoldable pub hook : AsyncStats → AsyncStats → List MeterCall
unfolding inc_since
hook prev s =
    inc_since processed_total prev.processed s.processed
    ++ inc_since dropped_total prev.dropped s.dropped
    ++ inc_since batches_total prev.batches s.batches
    ++ inc_since errors_total prev.errors s.errors
    ++ observe (codes "obs_async_queue_size") s.queue_size ∷ []

-- The hook called with one reading after the other.
unfoldable pub hook_calls : AsyncStats → List AsyncStats → List MeterCall
unfolding hook
hook_calls prev [] = []
hook_calls prev (s ∷ ss) = hook prev s ++ hook_calls s ss
