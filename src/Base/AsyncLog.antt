-- ===== src/Base/AsyncLog.antt =====
-- The asynchronous logger (internal/core/service/base/async.go): a synchronous logger for the
-- chained calls, with a pipeline for its own.
pub mod Delivery
use obs_brutal.Prelude.{ℕ, Bool, true, false, Option, some, List, [], ◌∷◌, ltb, if◌then◌else◌}
use obs_brutal.Domain.Level.{Level}
use obs_brutal.Domain.Value.{FieldMap}
use obs_brutal.Domain.Entry.{LogEntry, bare_entry}
use obs_brutal.Base.Promote.{promote}
use obs_brutal.Base.Unified.{UnifiedLog, fields_copy, inc_count, new_unified}
use obs_brutal.Base.Pipeline.{
  Pipeline, Policy, Fails, Interference, Waiting, new_pipeline, write_async, write_sync, set_policy,
}

-- `if !pipeline.WriteAsync(entry) { pipeline.WriteSync(entry) }`.
module _ {E : Type 0} (fails : Fails E) (after_test : Interference E) (i : Waiting E)
    (j : Interference E) where
  fall_back : E → Pipeline E × Bool → Pipeline E
  fall_back x (p, true) = p
  fall_back x (p, false) = write_sync fails x p

  unfoldable pub deliver : E → Pipeline E → Pipeline E
  unfolding fall_back
  deliver x p = fall_back x (write_async after_test i j x p)

-- The pipeline and the counters stand for what loggers share by pointers.
pub record AsyncLog : Type 0 where
  pub base : UnifiedLog
  pub pipeline : Pipeline LogEntry
  pub counts : ℕ → ℕ

-- `NewAsyncLogBrtCfg`, and `NewAsyncLogBrt` with its sizes.
unfoldable pub new_async_cfg : ℕ → ℕ → ℕ → ℕ → Level → List (Option ℕ) → AsyncLog
new_async_cfg stdout counter batch_size worker_count level sinks = record {
  base = new_unified stdout counter level sinks;
  pipeline = new_pipeline batch_size worker_count sinks;
  counts = λ _. 0;
}

unfoldable pub new_async : ℕ → ℕ → Level → List (Option ℕ) → AsyncLog
unfolding new_async_cfg
new_async stdout counter level sinks = new_async_cfg stdout counter 1000 4 level sinks

-- The entry that `log` makes: without fields there is no map to promote from.
async_entry : Level → List ℕ → FieldMap → ℕ → LogEntry
async_entry lvl msg [] now = bare_entry lvl msg now
async_entry lvl msg (f ∷ fs) now =
    promote (record (bare_entry lvl msg now) { fields = some (f ∷ fs) })

-- `AsyncLogBrt.log`.
unfoldable pub async_log :
    Fails LogEntry
    → Interference LogEntry
    → Waiting LogEntry
    → Interference LogEntry
    → Level
    → List ℕ
    → ℕ
    → AsyncLog
    → AsyncLog
unfolding async_entry
async_log fails after_test i j lvl msg now al = if ltb lvl al.base.level then al else (record al {
  pipeline =
      deliver fails after_test i j (async_entry lvl msg (fields_copy al.base) now) al.pipeline;
  counts = inc_count al.base.log_count al.counts;
})

-- `SetBackpressurePolicy`.
unfoldable pub set_backpressure_policy : Policy → AsyncLog → AsyncLog
set_backpressure_policy policy al = record al { pipeline = set_policy policy al.pipeline }
