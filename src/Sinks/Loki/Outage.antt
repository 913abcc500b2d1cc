-- ===== src/Sinks/Loki/Outage.antt =====
-- What the Loki sink keeps, pushes and gives up, whatever its endpoint answers.
use obs_brutal.Prelude.{
  ℕ, zero, suc, ◌+◌, ◌-◌, ◌≤◌, ◌≡◌, refl, ap, ◌∙◌, Bool, true, false, not, ◌||◌, Option, none, some,
  List, [], ◌∷◌, ◌++◌, arith, if◌then◌else◌, length, is_empty, take, drop, concat, length-append,
  length-drop, length-take, take-append-drop, concat-snoc, tally, tally-append,
}
use obs_brutal.Sinks.Loki.{
  LokiSink, new_loki, retry_buffer_cap, trim, enqueue, take_values, gated, requeue, settle, extract,
  extract_more, settle_extracted, finish,
}

-- What the goroutines do under the lock, at their times: a write, the begin of a flush, the end of
-- the flush of one batch in flight with its result, and the reset of the gate by `Close`.
pub data LokiCall (E : Type 0) : Type 0 where
  enqueues : E → LokiCall E
  takes : ℕ → LokiCall E
  finishes : ℕ → ℕ → Bool → LokiCall E
  reopens : LokiCall E

module _ {E : Type 0} where
  unfoldable pub loki_call : LokiCall E → LokiSink E → LokiSink E
  loki_call (enqueues e) s = (enqueue e s).0
  loki_call (takes now) s = (take_values now s).0
  loki_call (finishes now k ok) s = finish now k ok s
  loki_call reopens s = record s { retry_after = none }

  -- Everything that the sink was given, counted by a test.
  abbrev pub held : (E → Bool) → LokiSink E → ℕ
  held t s = tally t s.pushed + tally t (concat s.in_flight) + tally t s.values + tally t s.trimmed

  -- The sink has an endpoint, its buffer is within its cap, and the counter counts what it gave up.
  pub record IsCapped (s : LokiSink E) : Type 0 where
    pub reachable : s.endpoint_set ≡ true
    pub capped : length s.values ≤ retry_buffer_cap s
    pub counted : s.dropped_old ≡ length s.trimmed

  trim-IsCapped :
      (s : LokiSink E)
      → s.endpoint_set ≡ true
      → s.dropped_old ≡ length s.trimmed
      → IsCapped (trim s)
  unfolding trim
  trim-IsCapped s h c =
      let surplus = length s.values - retry_buffer_cap s in
      record {
        reachable = h;
        capped = omega (arith, length-drop surplus s.values);
        counted = omega (
          arith,
          c,
          length-append s.trimmed (take surplus s.values),
          length-take surplus s.values,
        );
      }

  held-trim : (t : E → Bool) (s : LokiSink E) → held t (trim s) ≡ held t s
  unfolding trim
  held-trim t s =
      let surplus = length s.values - retry_buffer_cap s in
      omega (
        arith,
        tally-append t s.trimmed (take surplus s.values),
        tally-append t (take surplus s.values) (drop surplus s.values),
        ap (tally t) (take-append-drop surplus s.values),
      )

  -- Of a batch in flight and the others nothing is lost.
  abbrev Parts : (E → Bool) → List (List E) → Option (List E × List (List E)) → Type 0
  Parts t xss none = Unit
  Parts t xss (some (xs, rest)) = tally t (concat xss) ≡ tally t xs + tally t (concat rest)

  extract_more-Parts :
      (t : E → Bool) (ys : List E) (yss : List (List E)) (o : Option (List E × List (List E)))
      → Parts t yss o
      → Parts t (ys ∷ yss) (extract_more ys o)
  unfolding extract_more
  extract_more-Parts t ys yss none h = tt
  extract_more-Parts t ys yss (some (xs, rest)) h =
      omega (arith, h, tally-append t ys (concat yss), tally-append t ys (concat rest))

  extract-Parts : (t : E → Bool) (k : ℕ) (xss : List (List E)) → Parts t xss (extract k xss)
  unfolding extract
  extract-Parts t k [] = tt
  extract-Parts t zero (ys ∷ yss) = tally-append t ys (concat yss)
  extract-Parts t (suc k) (ys ∷ yss) = extract_more-Parts t ys yss _ (extract-Parts t k yss)

  held-settle :
      (t : E → Bool) (now : ℕ) (ok : Bool) (vals : List E) (s : LokiSink E)
      → held t (settle now ok vals s) ≡ held t s + tally t vals
  unfolding settle requeue
  held-settle t now true vals s = omega (arith, tally-append t s.pushed vals)
  held-settle t now false vals s =
      omega
        (arith, held-trim t (record s { values = vals ++ s.values }), tally-append t vals s.values)

  held-finish :
      (t : E → Bool) (now : ℕ) (ok : Bool) (s : LokiSink E) (o : Option (List E × List (List E)))
      → Parts t s.in_flight o
      → held t (settle_extracted now ok o s) ≡ held t s
  unfolding settle_extracted
  held-finish t now ok s none h = refl
  held-finish t now ok s (some (vals, rest)) h =
      omega (arith, h, held-settle t now ok vals (record s { in_flight = rest }))

  settle-IsCapped :
      (now : ℕ) (ok : Bool) (vals : List E) (s : LokiSink E)
      → IsCapped s
      → IsCapped (settle now ok vals s)
  unfolding settle requeue retry_buffer_cap
  settle-IsCapped now true vals s c = record {
    reachable = c.reachable;
    capped = c.capped;
    counted = c.counted;
  }
  settle-IsCapped now false vals s c =
      let i = trim-IsCapped (record s { values = vals ++ s.values }) c.reachable c.counted in
      record { reachable = i.reachable; capped = i.capped; counted = i.counted }

  finish-IsCapped :
      (now : ℕ) (ok : Bool) (s : LokiSink E) (o : Option (List E × List (List E)))
      → IsCapped s
      → IsCapped (settle_extracted now ok o s)
  unfolding settle_extracted retry_buffer_cap
  finish-IsCapped now ok s none c = c
  finish-IsCapped now ok s (some (vals, rest)) c =
      settle-IsCapped now ok vals (record s { in_flight = rest })
        (record { reachable = c.reachable; capped = c.capped; counted = c.counted })

  -- What a call gives to the sink.
  abbrev pub handed : (E → Bool) → LokiCall E → ℕ
  handed t (enqueues e) = tally t (e ∷ [])
  handed t _ = 0

  held-enqueue :
      (t : E → Bool) (e : E) (s : LokiSink E)
      → s.endpoint_set ≡ true
      → held t (enqueue e s).0 ≡ held t s + tally t (e ∷ [])
  unfolding enqueue
  held-enqueue t e s h = rw h (
      omega (
        arith,
        held-trim t (record s { values = s.values ++ e ∷ [] }),
        tally-append t s.values (e ∷ []),
      ))

  either-IsCapped :
      (b : Bool) (x y : LokiSink E × Bool)
      → IsCapped x.0
      → IsCapped y.0
      → IsCapped (if◌then◌else◌ {A = LokiSink E × Bool} b x y).0
  either-IsCapped true x y c d = c
  either-IsCapped false x y c d = d

  enqueue-IsCapped : (e : E) (s : LokiSink E) → IsCapped s → IsCapped (enqueue e s).0
  unfolding enqueue
  enqueue-IsCapped e s c =
      either-IsCapped s.endpoint_set _ (s, false)
        (trim-IsCapped (record s { values = s.values ++ e ∷ [] }) c.reachable c.counted) c

  concat-in_flight :
      (t : E → Bool) (xss : List (List E)) (xs : List E)
      → tally t (concat (xss ++ xs ∷ [])) ≡ tally t (concat xss) + tally t xs
  concat-in_flight t xss xs = rw (concat-snoc xss xs) (tally-append t (concat xss) xs)

  held-take_values :
      (t : E → Bool) (now : ℕ) (s : LokiSink E) → held t (take_values now s).0 ≡ held t s
  unfolding take_values
  held-take_values t now s = ground (arith, concat-in_flight t s.in_flight s.values)

  take_values-IsCapped : (now : ℕ) (s : LokiSink E) → IsCapped s → IsCapped (take_values now s).0
  unfolding take_values retry_buffer_cap
  take_values-IsCapped now s c =
      either-IsCapped (not s.endpoint_set || is_empty s.values || gated now s.retry_after)
        (s, false) _ c
        (record { reachable = c.reachable; capped = omega arith; counted = c.counted })

  loki_call-IsCapped : (c : LokiCall E) (s : LokiSink E) → IsCapped s → IsCapped (loki_call c s)
  unfolding loki_call finish retry_buffer_cap
  loki_call-IsCapped (enqueues e) s i = enqueue-IsCapped e s i
  loki_call-IsCapped (takes now) s i = take_values-IsCapped now s i
  loki_call-IsCapped (finishes now k ok) s i = finish-IsCapped now ok s (extract k s.in_flight) i
  loki_call-IsCapped reopens s i = record {
    reachable = i.reachable;
    capped = i.capped;
    counted = i.counted;
  }

  held-loki_call :
      (t : E → Bool) (c : LokiCall E) (s : LokiSink E)
      → IsCapped s
      → held t (loki_call c s) ≡ held t s + handed t c
  unfolding loki_call finish
  held-loki_call t (enqueues e) s i = held-enqueue t e s i.reachable
  held-loki_call t (takes now) s i = omega (arith, held-take_values t now s)
  held-loki_call t (finishes now k ok) s i =
      omega (arith, held-finish t now ok s (extract k s.in_flight) (extract-Parts t k s.in_flight))
  held-loki_call t reopens s i = omega arith

  unfoldable pub loki_calls : List (LokiCall E) → LokiSink E → LokiSink E
  loki_calls [] s = s
  loki_calls (c ∷ cs) s = loki_calls cs (loki_call c s)

  abbrev pub handed_all : (E → Bool) → List (LokiCall E) → ℕ
  handed_all t [] = 0
  handed_all t (c ∷ cs) = handed t c + handed_all t cs

  loki_calls-kept :
      (cs : List (LokiCall E)) (s : LokiSink E) (t : E → Bool)
      → IsCapped s
      → IsCapped (loki_calls cs s) × (held t (loki_calls cs s) ≡ held t s + handed_all t cs)
  unfolding loki_calls
  loki_calls-kept [] s t i = (i, omega arith)
  loki_calls-kept (c ∷ cs) s t i =
      let (q, k) = loki_calls-kept cs (loki_call c s) t (loki_call-IsCapped c s i) in
      (q, omega (arith, k, held-loki_call t c s i))

  -- After any interleaving of writes, flushes and their results on a new sink with an endpoint: each
  -- entry is pushed, in flight, buffered or given up, as often as it was written; the buffer is
  -- within its cap; and the counter of drops is the number of entries given up.
  pub loki_calls-IsCapped :
      (cs : List (LokiCall E)) (t : E → Bool)
      → let s = loki_calls cs (new_loki true) in
        (length s.values ≤ retry_buffer_cap s)
        × (s.dropped_old ≡ length s.trimmed)
        × (held t s ≡ handed_all t cs)
  unfolding new_loki
  loki_calls-IsCapped cs t =
      let (i, k) =
        loki_calls-kept cs (new_loki true) t
          (record { reachable = refl; capped = omega arith; counted = refl }) in
      (i.capped, i.counted, k ∙ omega arith)
