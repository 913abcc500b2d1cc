-- ===== src/Sinks/Buffered.antt =====
-- The buffered sink (internal/adapter/outbound/sink/buffered/buffered.go). Each operation holds the
-- lock, so it is one function on the state.
pub mod Retention
use obs_brutal.Prelude.{
  ℕ, ◌+◌, ◌-◌, ◌*◌, Bool, true, false, not, ◌||◌, Option, none, some, List, [], ◌∷◌, ◌++◌, ltb, leb,
  if◌then◌else◌, length, is_empty, take, drop,
}

-- `delivered` are the entries whose write by the inner sink succeeded and `trimmed` those that were
-- given up for want of room, both in order; `attempts` counts the calls of the inner sink.
-- `last_flush` is `none` for the zero time. A duration is in the unit of the clock.
pub record BufferedSink (E : Type 0) : Type 0 where
  pub buffer : List E
  pub max_size : ℕ
  pub timeout : ℕ
  pub last_flush : Option ℕ
  pub has_inner : Bool
  pub closed : Bool
  pub delivered : List E
  pub trimmed : List E
  pub attempts : ℕ

-- The inner sink: whether its n-th call fails.
abbrev pub Failing : Type 0 → Type 0
Failing E = ℕ → E → Bool

module _ {E : Type 0} where
  -- `NewBuf`, `NewBufferedSinkWith`: a nil inner sink is replaced by the standard output's.
  unfoldable pub new_buffered : ℕ → ℕ → BufferedSink E
  new_buffered size timeout = record {
    buffer = [];
    max_size = size;
    timeout = timeout;
    last_flush = none;
    has_inner = true;
    closed = false;
    delivered = [];
    trimmed = [];
    attempts = 0;
  }

  -- `retainCap`.
  unfoldable pub retain_cap : BufferedSink E → ℕ
  retain_cap s = if ltb 0 s.max_size then s.max_size * 10 else 10000

-- The second half of the test in `Write`: a flush was made, and the timeout has passed since.
unfoldable pub overdue : ℕ → ℕ → Option ℕ → Bool
overdue now timeout none = false
overdue now timeout (some last) = leb timeout (now - last)

module _ {E : Type 0} (fails : Failing E) where
  -- The loop of `flushLocked`: what was written and what remains.
  unfoldable pub attempt_all : ℕ → List E → List E × List E
  attempt_all n [] = ([], [])
  attempt_all n (e ∷ es) =
      let (done, remaining) = attempt_all (n + 1) es in
      if fails n e then (done, e ∷ remaining) else (e ∷ done, remaining)

  -- The buffer after the loop, the oldest of what remains given up beyond the limit.
  unfoldable pub flush_inner : BufferedSink E → BufferedSink E
  unfolding attempt_all retain_cap
  flush_inner s =
      let (done, remaining) = attempt_all s.attempts s.buffer in
      let surplus = length remaining - retain_cap s in
      record s {
        buffer = drop surplus remaining;
        delivered = s.delivered ++ done;
        trimmed = s.trimmed ++ take surplus remaining;
        attempts = s.attempts + length s.buffer;
      }

  -- `flushLocked`, with whether it returns an error.
  unfoldable pub flush_locked : ℕ → BufferedSink E → BufferedSink E × Bool
  unfolding flush_inner
  flush_locked now s =
      if s.has_inner
      then (
        record (flush_inner s) { last_flush = some now },
        not (is_empty (attempt_all s.attempts s.buffer).1),
      )
      else (record s { buffer = []; last_flush = some now; trimmed = s.trimmed ++ s.buffer }, false)

  -- `Write`, for an entry that is not nil.
  unfoldable pub write : ℕ → E → BufferedSink E → BufferedSink E × Bool
  unfolding flush_locked overdue
  write now e s =
      let grown = record s { buffer = s.buffer ++ e ∷ [] } in
      if leb s.max_size (length grown.buffer) || overdue now s.timeout s.last_flush
      then flush_locked now grown
      else (grown, false)

  -- A tick of the flusher.
  unfoldable pub tick : ℕ → BufferedSink E → BufferedSink E
  unfolding flush_locked
  tick now s = if is_empty s.buffer then s else (flush_locked now s).0

  -- `Close`: once; the flusher has stopped, and the rest is flushed. The result of closing the
  -- inner sink is left out.
  unfoldable pub close : ℕ → BufferedSink E → BufferedSink E × Bool
  unfolding flush_locked
  close now s =
      if s.closed
      then (s, false)
      else (let (q, failed) = flush_locked now s in (record q { closed = true }, failed))
