-- ===== src/Sinks/Buffered/Retention.antt =====
-- The buffered sink keeps what its inner sink refuses, within a bound.
use obs_brutal.Prelude.{
  ℕ, ◌+◌, ◌-◌, ◌≤◌, ◌≡◌, refl, ap, ◌∙◌, Bool, true, false, ◌||◌, List, [], ◌∷◌, ◌++◌, arith, leb,
  if◌then◌else◌, length, is_empty, take, drop, length-drop, take-append-drop, tally, tally-append,
}
use obs_brutal.Sinks.Buffered.{
  BufferedSink, Failing, new_buffered, retain_cap, attempt_all, flush_locked, overdue, write, tick,
  close,
}

module _ {E : Type 0} (fails : Failing E) where
  -- The calls on a sink, at their times.
  pub data Call : Type 0 where
    writes : ℕ → E → Call
    ticks : ℕ → Call
    closes : ℕ → Call

  unfoldable pub call : Call → BufferedSink E → BufferedSink E
  call (writes now e) s = (write fails now e s).0
  call (ticks now) s = tick fails now s
  call (closes now) s = (close fails now s).0

  -- An open sink gets an inner sink when it is made, and keeps it.
  pub record IsRetained (s : BufferedSink E) : Type 0 where
    pub bounded : length s.buffer ≤ retain_cap s
    pub inner_there : s.has_inner ≡ true

  length-attempt_all :
      (n : ℕ) (es : List E)
      → length (attempt_all fails n es).0 + length (attempt_all fails n es).1 ≡ length es
  unfolding attempt_all
  length-attempt_all n [] = refl
  length-attempt_all n (e ∷ es) = ground (arith, length-attempt_all (n + 1) es)

  tally-attempt_all :
      (t : E → Bool) (n : ℕ) (es : List E)
      → tally t (attempt_all fails n es).0 + tally t (attempt_all fails n es).1 ≡ tally t es
  unfolding attempt_all
  tally-attempt_all t n [] = refl
  tally-attempt_all t n (e ∷ es) = ground (arith, tally-attempt_all t (n + 1) es)

  -- Everything that the sink was given, counted by a test.
  abbrev pub known : (E → Bool) → BufferedSink E → ℕ
  known t s = tally t s.delivered + tally t s.buffer + tally t s.trimmed

  abbrev pub given : (E → Bool) → Call → ℕ
  given t (writes now e) = tally t (e ∷ [])
  given t (ticks now) = 0
  given t (closes now) = 0

  known-flush_locked :
      (t : E → Bool) (now : ℕ) (s : BufferedSink E)
      → known t (flush_locked fails now s).0 ≡ known t s
  unfolding flush_locked
  known-flush_locked t now s =
      let rest = (attempt_all fails s.attempts s.buffer).1 in
      let n = length rest - retain_cap s in
      ground (
        arith,
        tally-append t s.delivered (attempt_all fails s.attempts s.buffer).0,
        tally-append t s.trimmed (take n rest),
        tally-append t s.trimmed s.buffer,
        tally-append t (take n rest) (drop n rest),
        ap (tally t) (take-append-drop n rest),
        tally-attempt_all t s.attempts s.buffer,
      )

  flush_locked-IsRetained :
      (now : ℕ) (s : BufferedSink E)
      → s.has_inner ≡ true
      → (length (flush_locked fails now s).0.buffer ≤ retain_cap s)
        × ((flush_locked fails now s).0.has_inner ≡ true)
        × ((flush_locked fails now s).0.max_size ≡ s.max_size)
  unfolding flush_locked
  flush_locked-IsRetained now s h =
      let rest = (attempt_all fails s.attempts s.buffer).1 in
      ground (arith, length-drop (length rest - retain_cap s) rest)

  -- A call accounts for every entry: what is delivered, kept and trimmed afterwards is what was
  -- before, and the entry that was written.
  known-call :
      (t : E → Bool) (c : Call) (s : BufferedSink E) → known t (call c s) ≡ known t s + given t c
  unfolding call write tick close
  known-call t (writes now e) s =
      let grown = record s { buffer = s.buffer ++ e ∷ [] } in
      ground (arith, known-flush_locked t now grown, tally-append t s.buffer (e ∷ []))
  known-call t (ticks now) s = ground (arith, known-flush_locked t now s)
  known-call t (closes now) s = ground (arith, known-flush_locked t now s)

  cap_of_size : (s : BufferedSink E) → s.max_size ≤ retain_cap s
  unfolding retain_cap
  cap_of_size s = ground arith

  retain_cap-same : (s q : BufferedSink E) → q.max_size ≡ s.max_size → retain_cap q ≡ retain_cap s
  unfolding retain_cap
  retain_cap-same s q h = ground arith

  flushed-IsRetained :
      (now : ℕ) (s : BufferedSink E) → s.has_inner ≡ true → IsRetained (flush_locked fails now s).0
  flushed-IsRetained now s h =
      let (b, i, m) = flush_locked-IsRetained now s h in
      record {
        bounded = omega (arith, b, retain_cap-same s (flush_locked fails now s).0 m);
        inner_there = i;
      }

  after_write :
      (b : Bool) (now : ℕ) (grown : BufferedSink E)
      → grown.has_inner ≡ true
      → (b ≡ false → length grown.buffer ≤ retain_cap grown)
      → IsRetained (if b then flush_locked fails now grown else (grown, false)).0
  after_write true now grown h small = flushed-IsRetained now grown h
  after_write false now grown h small = record { bounded = small refl; inner_there = h }

  after_tick :
      (b : Bool) (now : ℕ) (s : BufferedSink E)
      → IsRetained s
      → IsRetained (if b then s else (flush_locked fails now s).0)
  after_tick true now s r = r
  after_tick false now s r = flushed-IsRetained now s r.inner_there

  -- The flush that `Close` makes.
  abbrev flush_and_close : ℕ → BufferedSink E → BufferedSink E × Bool
  flush_and_close now s =
      let (q, failed) = flush_locked fails now s in (record q { closed = true }, failed)

  after_close :
      (b : Bool) (now : ℕ) (s : BufferedSink E)
      → IsRetained s
      → IsRetained
          (if◌then◌else◌ {A = BufferedSink E × Bool} b (s, false) (flush_and_close now s)).0
  unfolding retain_cap
  after_close true now s r = r
  after_close false now s r =
      let f = flushed-IsRetained now s r.inner_there in
      record { bounded = f.bounded; inner_there = f.inner_there }

  -- Every call keeps the buffer within the cap on retained entries, during an outage of the inner
  -- sink of any length too.
  pub call-IsRetained : (c : Call) (s : BufferedSink E) → IsRetained s → IsRetained (call c s)
  unfolding call write tick close
  call-IsRetained (writes now e) s r =
      let grown = record s { buffer = s.buffer ++ e ∷ [] } in
      after_write
        (leb s.max_size (length (s.buffer ++ e ∷ [])) || overdue now s.timeout s.last_flush) now
        grown r.inner_there (λ wait. ground (arith, cap_of_size s, retain_cap-same s grown refl))
  call-IsRetained (ticks now) s r = after_tick (is_empty s.buffer) now s r
  call-IsRetained (closes now) s r = after_close s.closed now s r

  unfoldable pub calls : List Call → BufferedSink E → BufferedSink E
  calls [] s = s
  calls (c ∷ cs) s = calls cs (call c s)

  abbrev pub given_all : (E → Bool) → List Call → ℕ
  given_all t [] = 0
  given_all t (c ∷ cs) = given t c + given_all t cs

  calls-kept :
      (cs : List Call) (s : BufferedSink E) (t : E → Bool)
      → IsRetained s
      → IsRetained (calls cs s) × (known t (calls cs s) ≡ known t s + given_all t cs)
  unfolding calls
  calls-kept [] s t r = (r, omega arith)
  calls-kept (c ∷ cs) s t r =
      let (q, k) = calls-kept cs (call c s) t (call-IsRetained c s r) in
      (q, omega (arith, k, known-call t c s))

  -- After any calls on a new sink, whatever its inner sink refuses and when: every entry written is
  -- delivered, still in the buffer or trimmed, as often as it was written, and the buffer holds at
  -- most the cap on retained entries.
  pub calls-IsRetained :
      (size timeout : ℕ) (cs : List Call) (t : E → Bool)
      → let s = calls cs (new_buffered size timeout) in
        (length s.buffer ≤ retain_cap s) × (known t s ≡ given_all t cs)
  unfolding new_buffered
  calls-IsRetained size timeout cs t =
      let (r, k) =
        calls-kept cs (new_buffered size timeout) t
          (record { bounded = omega arith; inner_there = refl }) in
      (r.bounded, k ∙ omega arith)
