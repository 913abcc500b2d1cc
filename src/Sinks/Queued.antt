-- ===== src/Sinks/Queued.antt =====
-- The asynchronous sink (internal/adapter/outbound/sink/async/async.go): a bounded queue with
-- workers before an inner sink. A function is what one goroutine does at once.
pub mod Closing
use obs_brutal.Prelude.{
  ℕ, ◌-◌, Bool, true, false, ◌&&◌, List, [], ◌∷◌, ◌++◌, ltb, leb, nat_eq, if◌then◌else◌, length,
  is_empty, take, drop,
}

-- `live` counts the workers that have not returned and `busy` holds the entries in their hands.
-- `finished` lists the entries that went through `writeInner`, `dropped` those that `Write` dropped
-- and `late` those that were sent to the queue after `closed` was set.
pub record QueuedSink (E : Type 0) : Type 0 where
  pub queue : List E
  pub queue_size : ℕ
  pub live : ℕ
  pub busy : List E
  pub closed : Bool
  pub inner_closed : Bool
  pub finished : List E
  pub dropped : List E
  pub late : List E

module _ {E : Type 0} where
  -- `New`; a size or a number of workers that is not positive is replaced.
  unfoldable pub new_queued : ℕ → ℕ → QueuedSink E
  new_queued queue_size workers = record {
    queue = [];
    queue_size = if leb queue_size 0 then 1000 else queue_size;
    live = if leb workers 0 then 4 else workers;
    busy = [];
    closed = false;
    inner_closed = false;
    finished = [];
    dropped = [];
    late = [];
  }

  -- The `select` of `Write`, which `Close` may come before.
  unfoldable pub offer : E → QueuedSink E → QueuedSink E
  offer e s =
      if ltb (length s.queue) s.queue_size
      then record s {
        queue = s.queue ++ e ∷ [];
        late = if s.closed then s.late ++ e ∷ [] else s.late;
      }
      else record s { dropped = s.dropped ++ e ∷ [] }

  -- `Write`, where nothing comes in between.
  unfoldable pub write_queued : E → QueuedSink E → QueuedSink E
  unfolding offer
  write_queued e s = if s.closed then record s { dropped = s.dropped ++ e ∷ [] } else offer e s

  -- A worker that is idle receives the next entry, in its loop or while it drains.
  unfoldable pub receive_queued : QueuedSink E → QueuedSink E
  receive_queued s =
      if ltb (length s.busy) s.live
      then record s { queue = drop 1 s.queue; busy = s.busy ++ take 1 s.queue }
      else s

  -- `writeInner` of the worker that holds the `k`-th entry.
  unfoldable pub write_inner : ℕ → QueuedSink E → QueuedSink E
  write_inner k s = record s {
    busy = take k s.busy ++ drop 1 (drop k s.busy);
    finished = s.finished ++ take 1 (drop k s.busy);
  }

  -- A worker that is idle finds the stop channel closed and the queue empty, and returns.
  unfoldable pub worker_exit : QueuedSink E → QueuedSink E
  worker_exit s =
      if s.closed && is_empty s.queue && ltb (length s.busy) s.live
      then record s { live = s.live - 1 }
      else s

  -- `Close`: the flag and the stop channel; and after all workers have returned the inner sink.
  unfoldable pub begin_close : QueuedSink E → QueuedSink E
  begin_close s = record s { closed = true }

  unfoldable pub end_close : QueuedSink E → QueuedSink E
  end_close s = if s.closed && nat_eq s.live 0 then record s { inner_closed = true } else s
