-- ===== src/Sinks/Loki.antt =====
-- The Loki sink (internal/adapter/outbound/sink/network/loki.go). An `E` is what is pushed of an
-- entry: its time and its encoding. Every function but the last three is what one goroutine does
-- while it has the lock, so that another can come in between two of them.
pub mod Retries
pub mod Outage
use obs_brutal.Prelude.{
  ℕ, zero, suc, ◌+◌, ◌-◌, ◌*◌, max, Bool, true, false, not, ◌&&◌, ◌||◌, Option, none, some, List,
  [], ◌∷◌, ◌++◌, ltb, leb, nat_eq, if◌then◌else◌, length, is_empty, take, drop,
}

-- `endpoint_set` tells whether the endpoint is not empty, and `retry_after` is `none` for the zero
-- time; times and the backoff are in milliseconds. `in_flight` holds the batches of the flushes
-- that were begun, `pushed` what was accepted and `trimmed` what was given up, in order.
pub record LokiSink (E : Type 0) : Type 0 where
  pub endpoint_set : Bool
  pub values : List E
  pub max : ℕ
  pub retries : ℕ
  pub backoff : ℕ
  pub retry_after : Option ℕ
  pub dropped_old : ℕ
  pub in_flight : List (List E)
  pub pushed : List E
  pub trimmed : List E

-- What one attempt gives: a status, an error of the client, or a request that cannot be made.
pub data Answer : Type 0 where
  status : ℕ → Answer
  no_answer bad_request : Answer

unfoldable pub succeeded : Answer → Bool
succeeded (status code) = ltb code 300
succeeded no_answer = false
succeeded bad_request = false

unfoldable pub retriable : Answer → Bool
retriable (status code) = leb 300 code && (nat_eq code 429 || leb 500 code)
retriable no_answer = true
retriable bad_request = false

-- The loop of `post` from its `i`-th attempt, with how many may follow: whether the push succeeds,
-- and how often it was tried again.
unfoldable pub post_from : (ℕ → Answer) → ℕ → ℕ → Bool × ℕ
unfolding succeeded retriable
post_from answers i zero = (succeeded (answers i), 0)
post_from answers i (suc left) =
    let (ok, again) = post_from answers (i + 1) left in
    if retriable (answers i) then (ok, suc again) else (succeeded (answers i), 0)

-- `if !s.retryAfter.IsZero() && time.Now().Before(s.retryAfter)`.
unfoldable pub gated : ℕ → Option ℕ → Bool
gated now none = false
gated now (some opens) = ltb now opens

module _ {E : Type 0} where
  -- `NewLokiPushSink`.
  unfoldable pub new_loki : Bool → LokiSink E
  new_loki endpoint_set = record {
    endpoint_set = endpoint_set;
    values = [];
    max = 100;
    retries = 3;
    backoff = 100;
    retry_after = none;
    dropped_old = 0;
    in_flight = [];
    pushed = [];
    trimmed = [];
  }

  -- `retryBufferCap`.
  unfoldable pub retry_buffer_cap : LokiSink E → ℕ
  retry_buffer_cap s = if ltb 0 s.max then s.max * 10 else 1000

  -- `if limit := s.retryBufferCap(); len(s.values) > limit`: the oldest beyond the limit go. The
  -- `uint64` counter is taken not to wrap.
  unfoldable pub trim : LokiSink E → LokiSink E
  unfolding retry_buffer_cap
  trim s =
      let surplus = length s.values - retry_buffer_cap s in
      record s {
        values = drop surplus s.values;
        trimmed = s.trimmed ++ take surplus s.values;
        dropped_old = s.dropped_old + surplus;
      }

  -- The part of `Write` that has the lock, for an entry that is not nil and could be encoded: with
  -- whether a flush is needed.
  unfoldable pub enqueue : E → LokiSink E → LokiSink E × Bool
  unfolding trim
  enqueue e s =
      let q = trim (record s { values = s.values ++ e ∷ [] }) in
      if s.endpoint_set then (q, ltb 0 q.max && leb q.max (length q.values)) else (s, false)

  -- The first part of `flush`: with whether there is a batch to push.
  unfoldable pub take_values : ℕ → LokiSink E → LokiSink E × Bool
  unfolding gated
  take_values now s =
      if not s.endpoint_set || is_empty s.values || gated now s.retry_after
      then (s, false)
      else (record s { values = []; in_flight = s.in_flight ++ s.values ∷ [] }, true)

  -- `requeue`.
  unfoldable pub requeue : ℕ → List E → LokiSink E → LokiSink E
  unfolding trim
  requeue now vals s =
      let wait = if leb s.backoff 0 then 100 else s.backoff in
      record (trim (record s { values = vals ++ s.values })) {
        retry_after = some (now + wait * (s.retries + 1));
      }

  -- The last part of `flush`: the batch failed or was pushed.
  unfoldable pub settle : ℕ → Bool → List E → LokiSink E → LokiSink E
  unfolding requeue
  settle now ok vals s =
      if ok then record s { retry_after = none; pushed = s.pushed ++ vals } else requeue now vals s

  -- The `k`-th batch of those in flight, and the others.
  extract_more : List E → Option (List E × List (List E)) → Option (List E × List (List E))
  extract_more xs none = none
  extract_more xs (some (ys, rest)) = some (ys, xs ∷ rest)

  unfoldable pub extract : ℕ → List (List E) → Option (List E × List (List E))
  unfolding extract_more
  extract k [] = none
  extract zero (xs ∷ xss) = some (xs, xss)
  extract (suc k) (xs ∷ xss) = extract_more xs (extract k xss)

  settle_extracted : ℕ → Bool → Option (List E × List (List E)) → LokiSink E → LokiSink E
  unfolding settle
  settle_extracted now ok none s = s
  settle_extracted now ok (some (vals, rest)) s = settle now ok vals (record s { in_flight = rest })

  unfoldable pub finish : ℕ → ℕ → Bool → LokiSink E → LokiSink E
  unfolding settle_extracted extract
  finish now k ok s = settle_extracted now ok (extract k s.in_flight) s

  -- `post` with the retries of the sink.
  unfoldable pub post : (ℕ → Answer) → LokiSink E → Bool
  unfolding post_from
  post answers s = (post_from answers 0 s.retries).0

  -- `flush` where no other goroutine comes in, from `now` to `later`.
  unfoldable pub flush : (ℕ → Answer) → ℕ → ℕ → LokiSink E → LokiSink E
  unfolding take_values post finish
  flush answers now later s =
      let (q, taken) = take_values now s in
      if taken then finish later (length s.in_flight) (post answers s) q else q

  -- `Write`.
  unfoldable pub write : (ℕ → Answer) → ℕ → ℕ → E → LokiSink E → LokiSink E
  unfolding enqueue flush
  write answers now later e s =
      let (q, needed) = enqueue e s in if needed then flush answers now later q else q

  -- `Close`: the gate is opened for the last flush.
  unfoldable pub close : (ℕ → Answer) → ℕ → ℕ → LokiSink E → LokiSink E
  unfolding flush
  close answers now later s = flush answers now later (record s { retry_after = none })
