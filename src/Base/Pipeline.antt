-- ===== src/Base/Pipeline.antt =====
-- The asynchronous pipeline (internal/core/service/base/async.go). Producers send to `log_chan`,
-- one batch worker groups what it receives, and sink workers write the batches that they take from
-- `batch_chan`. The state is what all goroutines see together; the operations below are what one
-- goroutine does between two points where another can come in.
pub mod Schedule
pub mod Accounting
pub mod Serial
pub mod Order
pub mod Draining
pub mod Shutdown
pub mod Producer
pub mod LateSend
pub mod Bounds
use obs_brutal.Prelude.{
  ℕ, ◌+◌, ◌*◌, Bool, true, false, Option, none, some, List, [], ◌∷◌, ◌++◌, ltb, leb, if◌then◌else◌,
  length, is_empty,
}

pub data Policy : Type 0 where
  drop_latest drop_oldest block_short : Policy

-- How far the batch worker is: at a `select` of its main loop or of the drain loop, in `flushBatch`
-- before it goes on with its loop, in the last `flushBatch` before it returns, or after that.
pub data Phase : Type 0 where
  running flushing leaving returned : Phase

unfoldable pub is_flushing : Phase → Bool
is_flushing flushing = true
is_flushing leaving = true
is_flushing _ = false

-- Where the batch worker is after `flushBatch`.
unfoldable pub after_flush : Phase → Phase
after_flush leaving = returned
after_flush returned = returned
after_flush _ = running

-- `busy` holds, for each sink worker that has a batch, what it has still to write. `finished` lists
-- the entries that the counter `processed` counted, in order. `log` and `direct` record the calls of
-- `Write`, by the workers and by `WriteSync` for a caller.
pub record Pipeline (E : Type 0) : Type 0 where
  pub log_chan : List E
  pub log_cap : ℕ
  pub batch : List E
  pub batch_chan : List (List E)
  pub chan_cap : ℕ
  pub busy : List (List E)
  pub batch_size : ℕ
  pub worker_count : ℕ
  pub sinks : List (Option ℕ)
  pub processed : ℕ
  pub dropped : ℕ
  pub batches : ℕ
  pub errors : ℕ
  pub policy : Policy
  pub stopped : Bool
  pub phase : Phase
  pub chan_closed : Bool
  pub finished : List E
  pub log : List (ℕ × E)
  pub direct : List (ℕ × E)

-- What the other goroutines do between two operations of one of them.
abbrev pub Interference : Type 0 → Type 0
Interference E = Pipeline E → Pipeline E

-- What they do between the first look at a full queue and the next step, and whether the timer of
-- `BlockShort` is chosen although the queue has room then.
pub record Waiting (E : Type 0) : Type 0 where
  pub others : Interference E
  pub fires : Bool

module _ {E : Type 0} where
  -- `NewAsyncPipeline`.
  unfoldable pub new_pipeline : ℕ → ℕ → List (Option ℕ) → Pipeline E
  new_pipeline batch_size worker_count sinks = record {
    log_chan = [];
    log_cap = batch_size * 4;
    batch = [];
    batch_chan = [];
    chan_cap = worker_count * 2;
    busy = [];
    batch_size = batch_size;
    worker_count = worker_count;
    sinks = sinks;
    processed = 0;
    dropped = 0;
    batches = 0;
    errors = 0;
    policy = drop_latest;
    stopped = false;
    phase = running;
    chan_closed = false;
    finished = [];
    log = [];
    direct = [];
  }

  -- The `select` with `logChan <- entry` and a default.
  unfoldable pub try_send : E → Pipeline E → Pipeline E × Bool
  try_send x p =
      if ltb (length p.log_chan) p.log_cap
      then (record p { log_chan = p.log_chan ++ x ∷ [] }, true)
      else (p, false)

  -- `ap.dropped.Add(1)`; the `uint64` counters are taken not to wrap.
  unfoldable pub count_drop : Pipeline E → Pipeline E
  count_drop p = record p { dropped = p.dropped + 1 }

  -- The `select` with `<-logChan` and a default.
  unfoldable pub receive : List E → Pipeline E → Pipeline E × Bool
  receive [] p = (p, false)
  receive (x ∷ rest) p = (record p { log_chan = rest }, true)

  unfoldable pub try_receive : Pipeline E → Pipeline E × Bool
  unfolding receive
  try_receive p = receive p.log_chan p

  -- A send that succeeds is accepted; one that fails drops the incoming entry.
  unfoldable pub send_or_drop : E → Pipeline E → Pipeline E × Bool
  unfolding try_send count_drop
  send_or_drop x p =
      let (q, sent) = try_send x p in if sent then (q, true) else (count_drop q, false)

  -- The `DropOldest` case: send, or else drop one pending entry and send again.
  unfoldable pub write_drop_oldest :
      Interference E → Interference E → E → Pipeline E → Pipeline E × Bool
  unfolding try_send try_receive count_drop send_or_drop
  write_drop_oldest before_drop before_send x p =
      let (p1, sent) = try_send x p in
      let (p2, received) = try_receive (before_drop p1) in
      if sent
      then (p1, true)
      else if received
      then send_or_drop x (before_send (count_drop p2))
      else (count_drop p2, false)

  -- The `BlockShort` case: what happens while the goroutine waits makes room, or the timer fires; where
  -- both are so, either may be chosen.
  unfoldable pub write_block_short : Waiting E → E → Pipeline E → Pipeline E × Bool
  unfolding try_send count_drop send_or_drop
  write_block_short waiting x p =
      let (p1, sent) = try_send x p in
      if sent
      then (p1, true)
      else if waiting.fires
      then (count_drop (waiting.others p), false)
      else send_or_drop x (waiting.others p)

  unfoldable pub by_policy :
      Policy → Waiting E → Interference E → E → Pipeline E → Pipeline E × Bool
  unfolding write_drop_oldest write_block_short send_or_drop
  by_policy drop_oldest i j x p = write_drop_oldest i.others j x p
  by_policy block_short i j x p = write_block_short i x p
  by_policy drop_latest i j x p = send_or_drop x p

  -- `WriteAsync`: others come in after the test of `stopped` and between the channel operations.
  unfoldable pub write_async :
      Interference E → Waiting E → Interference E → E → Pipeline E → Pipeline E × Bool
  unfolding by_policy
  write_async after_test i j x p =
      if p.stopped then (p, false) else let q = after_test p in by_policy q.policy i j x q

  -- `SetBackpressurePolicy`, without the time of `BlockShort`.
  unfoldable pub set_policy : Policy → Pipeline E → Pipeline E
  set_policy policy p = record p { policy = policy }

-- A sink's answer to its n-th call: whether `Write` returns an error.
abbrev pub Fails : Type 0 → Type 0
Fails E = ℕ → ℕ → E → Bool

module _ {E : Type 0} (fails : Fails E) where
  -- The loop over the sinks, with the calls made so far and the errors counted so far.
  unfoldable pub write_sinks : List (Option ℕ) → E → List (ℕ × E) → ℕ → List (ℕ × E) × ℕ
  write_sinks [] x w errors = (w, errors)
  write_sinks (none ∷ ss) x w errors = write_sinks ss x w errors
  write_sinks (some s ∷ ss) x w errors =
      write_sinks ss x (w ++ (s, x) ∷ []) (if fails s (length w) x then errors + 1 else errors)

  -- `WriteSync`, for a caller whose entry was refused.
  unfoldable pub write_sync : E → Pipeline E → Pipeline E
  unfolding write_sinks
  write_sync x p =
      let (w, errors) = write_sinks p.sinks x p.direct p.errors in
      record p { direct = w; errors = errors }

  -- One entry written to the sinks by a worker, and counted.
  unfoldable pub write_one : E → Pipeline E → Pipeline E
  unfolding write_sinks
  write_one x p =
      let (w, errors) = write_sinks p.sinks x p.log p.errors in
      record p {
        log = w;
        errors = errors;
        processed = p.processed + 1;
        finished = p.finished ++ x ∷ [];
      }

  -- The loop of `flushBatch` where there are no sink workers: the batch worker writes the next entry
  -- itself, and after the last one counts the batch.
  unfoldable pub write_inline : E → List E → Pipeline E → Pipeline E
  unfolding write_one
  write_inline x xs p = record (write_one x p) { batch = xs }

module _ {E : Type 0} where
  unfoldable pub end_inline : Pipeline E → Pipeline E
  unfolding after_flush
  end_inline p = record p { batches = p.batches + 1; phase = after_flush p.phase }

  -- The send of `flushBatch` once it goes through, and the `batch[:0]` behind the flush.
  unfoldable pub send_batch : Pipeline E → Pipeline E
  unfolding after_flush
  send_batch p = record p {
    batch_chan = p.batch_chan ++ p.batch ∷ [];
    batches = p.batches + 1;
    batch = [];
    phase = after_flush p.phase;
  }

  -- `batch = append(batch, entry)`: a batch that is full is flushed.
  unfoldable pub collect : E → Pipeline E → Pipeline E
  collect x p =
      let batch = p.batch ++ x ∷ [] in
      record p {
        batch = batch;
        phase = if leb p.batch_size (length batch) then flushing else p.phase;
      }

  -- The case of the ticker: a batch with anything in it is flushed.
  unfoldable pub tick : Pipeline E → Pipeline E
  tick p = if is_empty p.batch then p else record p { phase = flushing }

  -- The end of the drain loop: the queue is empty, and what there is in the batch is flushed before
  -- the worker returns.
  unfoldable pub finish_drain : Pipeline E → Pipeline E
  finish_drain p = record p { phase = if is_empty p.batch then returned else leaving }
