-- ===== src/Boeng/Metrics.antt =====
-- The metrics of operations and events (boeng/metrics.go): the instruments that are made on first
-- use and kept by name, the two caps on how many names there are, the labels that an allowlist lets
-- through, and the samples that one operation or event sends. What OpenTelemetry's meter does is a
-- parameter: whether it makes an instrument of a name.
pub mod Record
pub mod Cache
pub mod Labeled
pub mod Samples
pub mod Allowed
use obs_brutal.Prelude.{
  ℕ, String, Bool, true, false, not, ◌&&◌, ◌||◌, Option, none, some, List, [], ◌∷◌, ◌++◌, ltb, leb,
  if◌then◌else◌, is_some, length, is_empty, any, bytes_keys, string_keys, nat_keys, ◌==◌, lookup,
  insert, codes,
}
use obs_brutal.Domain.Value.{Value, FieldMap}
use obs_brutal.Boeng.Names.{sanitize_metric_name}
use obs_brutal.Boeng.Fields.{Subject, extract_fields}

pub data MetricSchema : Type 0 where
  per_op_metrics : MetricSchema
  labeled_metrics : MetricSchema
  both_metrics : MetricSchema

unfoldable pub is_per_op : MetricSchema → Bool
is_per_op labeled_metrics = false
is_per_op _ = true

unfoldable pub is_labeled : MetricSchema → Bool
is_labeled per_op_metrics = false
is_labeled _ = true

-- An instrument: the provider that it writes to, and its name.
pub record Instrument : Type 0 where
  pub provider : ℕ
  pub name : List ℕ

pub record OpMetricSet : Type 0 where
  pub total : Option Instrument
  pub duration : Option Instrument
  pub errors : Option Instrument
  pub panics : Option Instrument

pub record EventMetricSet : Type 0 where
  pub total : Option Instrument

pub record LabeledMetricSet : Type 0 where
  pub duration : Option Instrument
  pub events : Option Instrument

abbrev pub Labels : Type 0
Labels = List (String × String)

-- What an instrument is given: one more, a duration in milliseconds, or a duration for a histogram
-- in seconds, here in nanoseconds.
pub data Sample : Type 0 where
  count : Instrument → Labels → Sample
  milliseconds : Instrument → ℕ → Labels → Sample
  seconds : Instrument → ℕ → Labels → Sample

-- The variables of the package, with the global provider of meters.
pub record Metrics : Type 0 where
  pub provider : ℕ
  pub shape : MetricSchema
  pub label_allowed : List String
  pub statics : Labels
  pub ops : List (List ℕ × OpMetricSet)
  pub events : List (List ℕ × EventMetricSet)
  pub op_overflow : Option OpMetricSet
  pub event_overflow : Option EventMetricSet
  pub labeled_set : Option LabeledMetricSet
  pub labeled_ops : List (List ℕ × Unit {0})

abbrev pub max_distinct_metric_names : ℕ
max_distinct_metric_names = 512

abbrev pub overflow_name : List ℕ
overflow_name = codes "overflow"

-- `resetMetricInstruments`.
unfoldable pub reset_metric_instruments : Metrics → Metrics
reset_metric_instruments m = record m {
  ops = [];
  events = [];
  op_overflow = none;
  event_overflow = none;
  labeled_set = none;
}

abbrev pub static_label : String → String → Labels
static_label key value = if value == "" then [] else (key, value) ∷ []

-- `configureMetrics`, with the fields of the configuration that it reads.
unfoldable pub configure_metrics : List String → MetricSchema → String → String → Metrics → Metrics
unfolding reset_metric_instruments
configure_metrics metric_labels schema service env m =
    let reset = reset_metric_instruments (record m {
      label_allowed = "service" ∷ "env" ∷ metric_labels;
      shape = schema;
      labeled_ops = [];
    }) in
    record reset { statics = static_label "service" service ++ static_label "env" env }

-- `metricLabels`, for the fields that the subject has.
unfoldable pub is_label : Metrics → String → Bool
is_label m k = any (λ a. a == k) m.label_allowed && not (is_some (lookup k m.statics))

unfoldable pub take_labels : (Value → String) → Metrics → FieldMap → Labels
unfolding is_label
take_labels show m [] = []
take_labels show m ((k, v) ∷ fields) =
    let rest = take_labels show m fields in if is_label m k then (k, show v) ∷ rest else rest

unfoldable pub metric_labels : (Value → String) → Bool → Subject → Metrics → Labels
unfolding take_labels
metric_labels show include_zero subject m =
    let fields = extract_fields include_zero subject in
    if is_empty m.label_allowed || is_empty fields
    then m.statics
    else m.statics ++ take_labels show m fields

-- `labeledOpValue`: under the write lock it counts the names again, and does not look the name up
-- again.
unfoldable pub claim_op_value : List ℕ → Metrics → Metrics × List ℕ
claim_op_value safe m =
    if ltb (length m.labeled_ops) max_distinct_metric_names
    then (record m { labeled_ops = insert safe tt m.labeled_ops }, safe)
    else (m, overflow_name)

unfoldable pub labeled_op_value : (Metrics → Metrics) → List ℕ → Metrics → Metrics × List ℕ
unfolding claim_op_value
labeled_op_value between name m =
    let safe = sanitize_metric_name name in
    if is_some (lookup safe m.labeled_ops)
    then (m, safe)
    else if leb max_distinct_metric_names (length m.labeled_ops)
    then (m, overflow_name)
    else claim_op_value safe (between m)

-- `makes` says of which names the meter makes an instrument.
module _ (makes : List ℕ → Bool) where
  unfoldable pub instrument : ℕ → List ℕ → Option Instrument
  instrument provider name =
      if makes name then some record { provider = provider; name = name } else none

  -- `newOpMetricSet`.
  unfoldable pub new_op_metric_set : ℕ → List ℕ → OpMetricSet
  unfolding instrument
  new_op_metric_set provider safe =
      let total = safe ++ codes "_total" in
      let duration = safe ++ codes "_duration_ms" in
      let errors = safe ++ codes "_error_total" in
      let panics = safe ++ codes "_panic_total" in
      if makes total && makes duration && makes errors && makes panics
      then record {
        total = instrument provider total;
        duration = instrument provider duration;
        errors = instrument provider errors;
        panics = instrument provider panics;
      }
      else record { total = none; duration = none; errors = none; panics = none }

  unfoldable pub overflow_op : Option OpMetricSet → Metrics → Metrics × OpMetricSet
  unfolding new_op_metric_set
  overflow_op (some s) m = (m, s)
  overflow_op none m =
      let s = new_op_metric_set m.provider overflow_name in (record m { op_overflow = some s }, s)

  -- `opMetricsFor` under the write lock.
  unfoldable pub mint_op : Option OpMetricSet → List ℕ → Metrics → Metrics × OpMetricSet
  unfolding overflow_op
  mint_op (some s) safe m = (m, s)
  mint_op none safe m =
      let s = new_op_metric_set m.provider safe in
      if leb max_distinct_metric_names (length m.ops)
      then overflow_op m.op_overflow m
      else (record m { ops = insert safe s m.ops }, s)

  -- `newEventMetricSet`, and `eventMetricsFor` in the same steps.
  unfoldable pub new_event_metric_set : ℕ → List ℕ → EventMetricSet
  unfolding instrument
  new_event_metric_set provider safe = record {
    total = instrument provider (safe ++ codes "_total");
  }

  unfoldable pub overflow_event : Option EventMetricSet → Metrics → Metrics × EventMetricSet
  unfolding new_event_metric_set
  overflow_event (some s) m = (m, s)
  overflow_event none m =
      let s = new_event_metric_set m.provider overflow_name in
      (record m { event_overflow = some s }, s)

  unfoldable pub mint_event : Option EventMetricSet → List ℕ → Metrics → Metrics × EventMetricSet
  unfolding overflow_event
  mint_event (some s) safe m = (m, s)
  mint_event none safe m =
      let s = new_event_metric_set m.provider safe in
      if leb max_distinct_metric_names (length m.events)
      then overflow_event m.event_overflow m
      else (record m { events = insert safe s m.events }, s)

  -- `labeledMetrics`.
  unfoldable pub new_labeled_metric_set : ℕ → LabeledMetricSet
  unfolding instrument
  new_labeled_metric_set provider = record {
    duration = instrument provider (codes "boeng.operation.duration");
    events = instrument provider (codes "boeng.events");
  }

  unfoldable pub make_labeled : Option LabeledMetricSet → Metrics → Metrics × LabeledMetricSet
  unfolding new_labeled_metric_set
  make_labeled (some s) m = (m, s)
  make_labeled none m =
      let s = new_labeled_metric_set m.provider in (record m { labeled_set = some s }, s)

  -- `between` is what other goroutines do to the variables between a look under the read lock and
  -- the write lock.
  module _ (between : Metrics → Metrics) where
    -- `opMetricsFor` after the look under the read lock.
    unfoldable pub find_op : Option OpMetricSet → List ℕ → Metrics → Metrics × OpMetricSet
    unfolding mint_op
    find_op (some s) safe m = (m, s)
    find_op none safe m = let n = between m in mint_op (lookup safe n.ops) safe n

    unfoldable pub op_metrics_for : List ℕ → Metrics → Metrics × OpMetricSet
    unfolding find_op
    op_metrics_for name m =
        let safe = sanitize_metric_name name in find_op (lookup safe m.ops) safe m

    unfoldable pub find_event : Option EventMetricSet → List ℕ → Metrics → Metrics × EventMetricSet
    unfolding mint_event
    find_event (some s) safe m = (m, s)
    find_event none safe m = let n = between m in mint_event (lookup safe n.events) safe n

    unfoldable pub event_metrics_for : List ℕ → Metrics → Metrics × EventMetricSet
    unfolding find_event
    event_metrics_for name m =
        let safe = sanitize_metric_name name in find_event (lookup safe m.events) safe m

    unfoldable pub find_labeled : Option LabeledMetricSet → Metrics → Metrics × LabeledMetricSet
    unfolding make_labeled
    find_labeled (some s) m = (m, s)
    find_labeled none m = let n = between m in make_labeled n.labeled_set n
