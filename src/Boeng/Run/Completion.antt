-- ===== src/Boeng/Run/Completion.antt =====
-- What an operation leaves behind when it ends (boeng/run.go): a line, samples and calls on its span.
use obs_brutal.Prelude.{
  ℕ, ◌-◌, ◌/◌, String, ◌≡◌, refl, ap, Bool, true, false, Option, none, some, List, [], ◌∷◌, ◌++◌,
  ltb, if◌then◌else◌, is_some, bytes_keys, string_keys, nat_keys, insert, insert_all, codes,
}
use obs_brutal.Domain.Level.{Level, debug_level, info_level, error_level}
use obs_brutal.Domain.Value.{Value, FieldMap, text, number}
use obs_brutal.Base.Unified.{UnifiedLog, World, with_field, with_error, log, new_entry, inc_count}
use obs_brutal.Base.Unified.Logging.{live, to_each, log_lem}
use obs_brutal.Boeng.Fields.{Subject}
use obs_brutal.Boeng.Metrics.{Metrics, Sample}
use obs_brutal.Boeng.Metrics.Cache.{IsValid, IsNext}
use obs_brutal.Boeng.Metrics.Samples.{OpRecorded, record_op-OpRecorded}
use obs_brutal.Boeng.Op.{Outcome, error_of, is_panic}
use obs_brutal.Boeng.Run.{
  Span, SpanCall, record_error, set_error_status, end_span, Process, OpState, start_op, completion,
  span_errors, finish, run,
}

-- The level and the end of the message of the line.
abbrev pub line_level : Bool → Option (List ℕ) → Level
line_level quiet none = if quiet then debug_level else info_level
line_level quiet (some e) = error_level

abbrev pub line_message : List ℕ → Option (List ℕ) → List ℕ
line_message name none = name ++ codes " completed"
line_message name (some e) = name ++ codes " failed"

-- Its fields: those of the operation, the duration and the error.
abbrev pub with_duration : ℕ → FieldMap → FieldMap
with_duration dur m = insert "duration_ms" (number (dur / 1000000)) (insert_all m [])

abbrev pub line_fields : ℕ → Option (List ℕ) → FieldMap → FieldMap
line_fields dur none m = with_duration dur m
line_fields dur (some e) m = insert "error" (text e) (insert_all (with_duration dur m) [])

abbrev pub span_end : Span → Option (List ℕ) → List SpanCall
span_end span none = end_span span ∷ []
span_end span (some e) = record_error span e ∷ set_error_status span e ∷ end_span span ∷ []

-- The world after one line.
abbrev pub line_written : UnifiedLog → Level → List ℕ → FieldMap → ℕ → World → World
line_written l lvl msg m now w = if ltb lvl l.level then w else record {
  writes = w.writes ++ to_each (live l.sinks) (new_entry lvl msg m now);
  counts = inc_count l.log_count w.counts;
}

completion_lem :
    (err : Option (List ℕ)) (quiet : Bool) (name : List ℕ) (dur : ℕ) (l : UnifiedLog) (now : ℕ)
    (w : World)
    → (let line = completion err quiet name (with_field "duration_ms" (number (dur / 1000000)) l) in
        log line.0 line.1 line.2 now w)
      ≡ line_written l
          (line_level quiet err)
          (line_message name err)
          (line_fields dur err l.fields)
          now
          w
unfolding completion with_field with_error
completion_lem none false name dur l now w =
    log_lem (with_field "duration_ms" (number (dur / 1000000)) l) _ _ now w
completion_lem none true name dur l now w =
    log_lem (with_field "duration_ms" (number (dur / 1000000)) l) _ _ now w
completion_lem (some e) quiet name dur l now w =
    log_lem (with_error (some e) (with_field "duration_ms" (number (dur / 1000000)) l)) _ _ now w

span_errors_lem :
    (err : Option (List ℕ)) (span : Span)
    → span_errors err span ++ end_span span ∷ [] ≡ span_end span err
unfolding span_errors
span_errors_lem none span = refl
span_errors_lem (some e) span = refl

module _ (makes : List ℕ → Bool) (between : Metrics → Metrics)
    (kept : (m : Metrics) → IsValid makes m → IsNext makes m (between m))
    (every : (n : List ℕ) → makes n ≡ true) where
  -- The completion at `now` of an operation that ended with `out`, from the process `p` to `q`.
  pub record IsCompletion (st : OpState) (now : ℕ) (out : Outcome) (p q : Process) : Type 0 where
    pub line :
        q.world
        ≡ line_written st.log
            (line_level p.quiet_ops (error_of out))
            (line_message st.name (error_of out))
            (line_fields (now - st.start) (error_of out) st.log.fields)
            now
            p.world
    pub spanned : q.spans ≡ p.spans ++ span_end st.span (error_of out)
    pub sent : List Sample
    pub samples : q.samples ≡ p.samples ++ sent
    pub recorded :
        OpRecorded makes between kept every st.name
          (now - st.start)
          (is_some (error_of out))
          (is_panic out)
          st.labels
          p.metrics
          (q.metrics, sent)

  finish-IsCompletion :
      (st : OpState) (now : ℕ) (out : Outcome) (p : Process)
      → IsValid makes p.metrics
      → IsCompletion st now out p (finish makes between st now (error_of out) (is_panic out) p)
  unfolding finish
  finish-IsCompletion st now out p v = record {
    line = completion_lem (error_of out) p.quiet_ops st.name (now - st.start) st.log now p.world;
    spanned = ap (λ cs. p.spans ++ cs) (span_errors_lem (error_of out) st.span);
    sent = _;
    samples = refl;
    recorded = record_op-OpRecorded makes between kept every _ _ _ _ _ _ v;
  }

  -- When the meter makes every instrument, the caches are valid after the function, and other
  -- goroutines keep them so: `Run` gives the function's outcome back, a panic raised again included,
  -- and completes the operation exactly once, in the state in which the function left it, whichever
  -- way the function ended. It logs one line, `failed` at ERROR with the error when there was an
  -- error or a panic, else `completed` at INFO, or at DEBUG under `QuietOps`, always with the
  -- duration, to each sink unless the logger's level is higher; it records an error on the span
  -- before it ends it; and it sends the samples of the operation, an error for a failure and a panic
  -- for a panic.
  pub run-IsCompletion :
      (show : Value → String) (name : List ℕ) (subject : Subject) (span : Span)
      (parent : Option OpState) (now later : ℕ)
      (fn : OpState → Process → OpState × Process × Outcome) (p : Process) (st : OpState)
      (q : Process) (out : Outcome)
      → (let started = start_op show name subject span parent now p in
          fn started.1 started.0 ≡ (st, q, out))
      → IsValid makes q.metrics
      → ((run makes between show name subject span parent now later fn p).1 ≡ out)
        × IsCompletion st later out q
            (run makes between show name subject span parent now later fn p).0
  unfolding run
  run-IsCompletion show name subject span parent now later fn p st q out h v =
      rw h (refl, finish-IsCompletion st later out q v)
