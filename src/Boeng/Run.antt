-- ===== src/Boeng/Run.antt =====
-- Operations of boeng (boeng/run.go, boeng/level.go, `Step` of boeng/enter.go): the start of an
-- operation, its completion, and the functions that run under one, on the synchronous logger and the
-- metrics. The tracer is OpenTelemetry's: the span that it returns and the readings of the clock are
-- arguments, and what is called on the span is recorded. What an instrument of the meter does is
-- that of Boeng/Metrics.
pub mod Completion
pub mod Events
use obs_brutal.Prelude.{
  ℕ, ◌-◌, ◌/◌, String, Bool, true, false, ◌||◌, Option, none, some, List, [], ◌∷◌, ◌++◌, ltb,
  nat_eq, if◌then◌else◌, is_some, bytes_keys, string_keys, nat_keys, insert, insert_all, codes,
}
use obs_brutal.Domain.Level.{Level, debug_level, info_level, warn_level, error_level, fatal_level}
use obs_brutal.Domain.Value.{Value, FieldMap, text, number}
use obs_brutal.Base.Unified.{UnifiedLog, World, with_field, with_fields, with_error, log}
use obs_brutal.Boeng.Fields.{Subject, nothing, loggable, fields, extract_fields}
use obs_brutal.Boeng.Metrics.{Metrics, Sample, Labels, metric_labels}
use obs_brutal.Boeng.Metrics.Record.{record_op, record_event}
use obs_brutal.Boeng.Op.{Outcome, returns, panics, exits, error_of, is_panic, Op, note_step}

-- A span as the tracer hands it out, with the ids of its context when that is valid.
pub record Span : Type 0 where
  pub id : ℕ
  pub is_recording : Bool
  pub ids : Option (List ℕ × List ℕ)

pub data SpanCall : Type 0 where
  set_attributes : Span → Labels → SpanCall
  add_event : Span → List ℕ → Labels → SpanCall
  record_error : Span → List ℕ → SpanCall
  set_error_status : Span → List ℕ → SpanCall
  end_span : Span → SpanCall

-- What operations share: the logger's world, the metrics with the samples that were sent, the calls
-- on spans, the root logger and what `Init` sets: `IncludeZeroFields`, `quietOps`, `emitLevel`.
pub record Process : Type 0 where
  pub world : World
  pub metrics : Metrics
  pub samples : List Sample
  pub spans : List SpanCall
  pub root : UnifiedLog
  pub include_zero : Bool
  pub quiet_ops : Bool
  pub emit_level : Level

-- `opState`, with the labels that the completion closes over.
pub record OpState : Type 0 where
  pub log : UnifiedLog
  pub span : Span
  pub start : ℕ
  pub name : List ℕ
  pub labels : Labels

-- `configureLevels`.
unfoldable pub configure_levels : Bool → Level → Process → Process
configure_levels quiet emit p = record p {
  quiet_ops = quiet;
  emit_level = if ltb info_level emit then emit else info_level;
}

-- `logAt`.
unfoldable pub method_level : Level → Level
method_level l =
    if nat_eq l debug_level || nat_eq l warn_level || nat_eq l error_level || nat_eq l fatal_level
    then l
    else info_level

unfoldable pub log_at : UnifiedLog → Level → List ℕ → ℕ → Process → Process
unfolding method_level
log_at l lvl msg now p = record p { world = log l (method_level lvl) msg now p.world }

-- `setField`, for the operation of the context.
unfoldable pub set_field : String → Value → OpState → OpState
set_field k v st = record st { log = with_field k v st.log }

-- `L`: the logger of the operation, else the root logger with the ids of a foreign span.
unfoldable pub with_ids : Option (List ℕ × List ℕ) → UnifiedLog → UnifiedLog
with_ids none l = l
with_ids (some (trace, span)) l =
    with_fields (("trace_id", text trace) ∷ ("span_id", text span) ∷ []) l

unfoldable pub scoped_logger : Option OpState → Option (List ℕ × List ℕ) → Process → UnifiedLog
unfolding with_ids
scoped_logger (some st) foreign p = st.log
scoped_logger none foreign p = with_ids foreign p.root

-- The logger under which an operation starts.
unfoldable pub parent_logger : Option OpState → Process → UnifiedLog
parent_logger none p = p.root
parent_logger (some st) p = st.log

-- `logInScope`.
unfoldable pub with_subjects : Bool → List Subject → UnifiedLog → UnifiedLog
with_subjects include_zero [] l = l
with_subjects include_zero (s ∷ ss) l =
    with_subjects include_zero ss (with_fields (extract_fields include_zero s) l)

unfoldable pub log_in_scope :
    Option OpState → Option (List ℕ × List ℕ) → List ℕ → List Subject → ℕ → Process → Process
unfolding with_subjects scoped_logger
log_in_scope st foreign msg subjects now p = record p {
  world =
      log (with_subjects p.include_zero subjects (scoped_logger st foreign p)) info_level msg now
        p.world;
}

-- The fields of an event, and the subject afterwards: `Emit` writes into the map that it is given.
-- Into a nil map it panics, `none`.
unfoldable pub event_fields : Bool → List ℕ → Subject → Option (FieldMap × Subject)
event_fields include_zero name (fields none) = none
event_fields include_zero name (fields (some m)) =
    let out = insert "event" (text name) m in some (out, fields (some out))
event_fields include_zero name (loggable (some m)) =
    let out = insert "event" (text name) m in some (out, loggable (some m))
event_fields include_zero name s =
    some (insert "event" (text name) (extract_fields include_zero s), s)

-- `mapToAttrs`; `show` is the format `%v`.
unfoldable pub map_to_attrs : (Value → String) → FieldMap → Labels
map_to_attrs show [] = []
map_to_attrs show ((k, v) ∷ m) = (k, show v) ∷ map_to_attrs show m

-- What the loop over a subject's own map finds: `maps.Copy` over the name of the operation.
unfoldable pub op_fields : Bool → List ℕ → Subject → FieldMap
op_fields include_zero name subject =
    insert_all (extract_fields include_zero subject) (insert "op" (text name) [])

unfoldable pub attributes_of : (Value → String) → Span → FieldMap → List SpanCall
unfolding map_to_attrs
attributes_of show span m =
    if span.is_recording then set_attributes span (map_to_attrs show m) ∷ [] else []

module _ (show : Value → String) where
  -- `startOp` at the time `now`, with the span that the tracer returns.
  unfoldable pub start_op :
      List ℕ → Subject → Span → Option OpState → ℕ → Process → Process × OpState
  unfolding op_fields attributes_of with_ids parent_logger
  start_op name subject span parent now p =
      let m = op_fields p.include_zero name subject in
      let base = with_ids span.ids (with_fields m (parent_logger parent p)) in
      (
        record p {
          spans = p.spans ++ attributes_of show span m;
          world = log base debug_level (name ++ codes " started") now p.world;
        },
        record {
          log = base;
          span = span;
          start = now;
          name = name;
          labels = metric_labels show p.include_zero subject p.metrics;
        },
      )

-- The line that completes an operation: its logger, its level and its message.
unfoldable pub completion :
    Option (List ℕ) → Bool → List ℕ → UnifiedLog → UnifiedLog × Level × List ℕ
completion (some e) quiet name l = (with_error (some e) l, error_level, name ++ codes " failed")
completion none true name l = (l, debug_level, name ++ codes " completed")
completion none false name l = (l, info_level, name ++ codes " completed")

unfoldable pub span_errors : Option (List ℕ) → Span → List SpanCall
span_errors none span = []
span_errors (some e) span = record_error span e ∷ set_error_status span e ∷ []

-- `makes` and `between` as in Boeng/Metrics.
module _ (makes : List ℕ → Bool) (between : Metrics → Metrics) where
  -- What `startOp` returns to complete the operation, at the time `now`.
  unfoldable pub finish : OpState → ℕ → Option (List ℕ) → Bool → Process → Process
  unfolding completion span_errors
  finish st now err panicked p =
      let dur = now - st.start in
      let l = with_field "duration_ms" (number (dur / 1000000)) st.log in
      let line = completion err p.quiet_ops st.name l in
      let recorded =
        record_op makes between st.name dur (is_some err) panicked st.labels p.metrics in
      record p {
        world = log line.0 line.1 line.2 now p.world;
        metrics = recorded.0;
        samples = p.samples ++ recorded.1;
        spans = p.spans ++ (span_errors err st.span ++ end_span st.span ∷ []);
      }

  module _ (show : Value → String) where
    -- `Run` and `RunR`: the function has the operation's state, which it may change through its
    -- context, and the process. The outcome is that of the function, a panic raised again included.
    unfoldable pub run :
        List ℕ
        → Subject
        → Span
        → Option OpState
        → ℕ
        → ℕ
        → (OpState → Process → OpState × Process × Outcome)
        → Process
        → Process × Outcome
    run name subject span parent now later fn p =
        let started = start_op show name subject span parent now p in
        let done = fn started.1 started.0 in
        let out = done.2 in (finish done.0 later (error_of out) (is_panic out) done.1, out)

    -- `Step` of the handle `o` of the operation `parent`.
    unfoldable pub step :
        List ℕ
        → Span
        → OpState
        → ℕ
        → ℕ
        → (OpState → Process → OpState × Process × Outcome)
        → Op
        → Process
        → Op × Process × Outcome
    unfolding run
    step name span parent now later fn o p =
        let done = run name nothing span (some parent) now later fn p in
        (note_step done.1 o, done.0, done.1)

    -- `Emit`; `none` is its panic.
    unfoldable pub emit_fields :
        Option OpState
        → Option (List ℕ × List ℕ)
        → List ℕ
        → ℕ
        → Option (FieldMap × Subject)
        → Process
        → Option (Process × Subject)
    unfolding scoped_logger
    emit_fields st foreign name now none p = none
    emit_fields st foreign name now (some (m, subject)) p =
        let labels = metric_labels show p.include_zero subject p.metrics in
        let recorded = record_event makes between name labels p.metrics in
        let marks : List SpanCall = elim st [
          | none ↦ []
          | some s ↦ add_event s.span name (map_to_attrs show m) ∷ []
        ] in
        let l = with_fields m (scoped_logger st foreign p) in
        let r = record p {
          metrics = recorded.0;
          samples = p.samples ++ recorded.1;
          spans = p.spans ++ marks;
        } in
        some (log_at l p.emit_level name now r, subject)

    unfoldable pub emit :
        Option OpState
        → Option (List ℕ × List ℕ)
        → List ℕ
        → Subject
        → ℕ
        → Process
        → Option (Process × Subject)
    unfolding emit_fields event_fields
    emit st foreign name subject now p =
        emit_fields st foreign name now (event_fields p.include_zero name subject) p
