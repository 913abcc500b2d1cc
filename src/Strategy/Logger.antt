-- ===== src/Strategy/Logger.antt =====
-- The logger with strategies (internal/core/service/strategy/logger.go). Its copies share the
-- manager, the pipeline and the counters, which are in `Shared`.
use obs_brutal.Prelude.{
  ℕ, ◌≤◌, String, ◌≡◌, refl, Option, none, some, List, [], ◌∷◌, ltb, if◌then◌else◌, ltb_of_le,
}
use obs_brutal.Domain.Level.{Level}
use obs_brutal.Domain.Value.{Value, FieldMap, text}
use obs_brutal.Domain.Entry.{LogEntry, bare_entry}
use obs_brutal.Util.Context.{Context}
use obs_brutal.Base.Promote.{promote}
use obs_brutal.Base.Unified.{
  UnifiedLog, with_field, with_fields, with_context, fields_copy, inc_count,
}
use obs_brutal.Base.Pipeline.{Pipeline, Fails, Interference, Waiting}
use obs_brutal.Base.AsyncLog.{deliver}
use obs_brutal.Base.AsyncLog.Delivery.{Delivered, deliver-Delivered}
use obs_brutal.Strategy.Manager.{Manager, process_entry}

pub record Shared : Type 0 where
  pub manager : Manager
  pub pipeline : Pipeline LogEntry
  pub counts : ℕ → ℕ

pub record StrategyLog : Type 0 where
  pub base : UnifiedLog

-- The entry that `log` hands to the manager.
unfoldable pub strategy_entry : Level → List ℕ → ℕ → StrategyLog → LogEntry
strategy_entry lvl msg now sl =
    promote (record (bare_entry lvl msg now) { fields = some (fields_copy sl.base) })

module _ (fails : Fails LogEntry) (after_test : Interference LogEntry) (i : Waiting LogEntry)
    (j : Interference LogEntry) where
  -- What follows `ProcessEntry` in `log`.
  deliver_processed : StrategyLog → Option LogEntry → Shared → Shared
  deliver_processed sl none s = s
  deliver_processed sl (some e) s = record s {
    pipeline = deliver fails after_test i j e s.pipeline;
    counts = inc_count sl.base.log_count s.counts;
  }

  -- `StrategyLogBrt.log`; the number stands for what the samplers draw.
  unfoldable pub strategy_log : Level → List ℕ → ℕ → ℕ → StrategyLog → Shared → Shared
  unfolding deliver_processed
  strategy_log lvl msg now drawn sl s =
      if ltb lvl sl.base.level
      then s
      else deliver_processed sl
          (process_entry s.manager drawn (some (strategy_entry lvl msg now sl))) s

  -- What comes of the processed entry: dropped without a trace, or delivered and counted.
  abbrev pub Logged : StrategyLog → Option LogEntry → Shared → Shared → Type 0
  Logged sl none s q = q ≡ s
  Logged sl (some e) s q =
      (q.manager ≡ s.manager)
      × (q.counts ≡ inc_count sl.base.log_count s.counts)
      × Delivered fails after_test i j e s.pipeline q.pipeline

  deliver_processed-Logged :
      (sl : StrategyLog) (o : Option LogEntry) (s : Shared)
      → Logged sl o s (deliver_processed sl o s)
  unfolding deliver_processed
  deliver_processed-Logged sl none s = refl
  deliver_processed-Logged sl (some e) s =
      (refl, refl, deliver-Delivered fails after_test i j e s.pipeline)

  -- A call at or above the logger's level does what the manager decides: an entry that is filtered
  -- or sampled out leaves no trace, and one that passes is counted once and, as the manager masked
  -- it, put in the queue or written by the caller to every sink that is not nil.
  pub strategy_log-Logged :
      (lvl : Level) (msg : List ℕ) (now drawn : ℕ) (sl : StrategyLog) (s : Shared)
      → sl.base.level ≤ lvl
      → Logged sl
          (process_entry s.manager drawn (some (strategy_entry lvl msg now sl)))
          s
          (strategy_log lvl msg now drawn sl s)
  unfolding strategy_log
  strategy_log-Logged lvl msg now drawn sl s enough =
      rw (ltb_of_le lvl sl.base.level enough) (deliver_processed-Logged sl _ s)

-- `F`, `Fs`, `Ctx` and `WithError`, on a copy of the receiver.
unfoldable pub strategy_field : String → Value → StrategyLog → StrategyLog
strategy_field k v sl = record { base = with_field k v sl.base }

unfoldable pub strategy_fields : FieldMap → StrategyLog → StrategyLog
strategy_fields [] sl = sl
strategy_fields (f ∷ fs) sl = record { base = with_fields (f ∷ fs) sl.base }

unfoldable pub strategy_context : Option Context → StrategyLog → StrategyLog
strategy_context none sl = sl
strategy_context (some ctx) sl = record { base = with_context (some ctx) sl.base }

unfoldable pub strategy_error : Option (List ℕ) → StrategyLog → StrategyLog
unfolding strategy_field
strategy_error none sl = sl
strategy_error (some msg) sl = strategy_field "error" (text msg) sl
