-- ===== src/Boeng/Metrics/Record.antt =====
-- What `recordOp` and `recordEvent` (boeng/metrics.go) send to the instruments.
use obs_brutal.Prelude.{
  ℕ, ◌/◌, String, Bool, Option, none, some, List, [], ◌∷◌, ◌++◌, if◌then◌else◌, as_string,
}
use obs_brutal.Boeng.Metrics.{
  Metrics, Instrument, OpMetricSet, Labels, Sample, count, milliseconds, seconds, is_labeled,
  is_per_op, labeled_op_value, find_labeled, op_metrics_for, event_metrics_for,
}

-- A sample for an instrument that there is.
unfoldable pub sampled : (Instrument → Sample) → Option Instrument → List Sample
sampled f none = []
sampled f (some i) = f i ∷ []

abbrev pub outcome_of : Bool → Bool → String
outcome_of errored panicked = if panicked then "panic" else if errored then "error" else "ok"

-- The other half: what the set of the operation is given.
unfoldable pub op_samples : OpMetricSet → ℕ → Bool → Bool → Labels → List Sample
unfolding sampled
op_samples s dur errored panicked labels =
    sampled (λ i. count i labels) s.total
    ++ sampled (λ i. milliseconds i (dur / 1000000) labels) s.duration
    ++ (if errored then sampled (λ i. count i labels) s.errors else [])
    ++ (if panicked then sampled (λ i. count i labels) s.panics else [])

-- `makes` and `between` are those of the caches.
module _ (makes : List ℕ → Bool) (between : Metrics → Metrics) where
  -- The labeled half of `recordOp`.
  unfoldable pub record_labeled_op : List ℕ → ℕ → String → Labels → Metrics → Metrics × List Sample
  unfolding labeled_op_value find_labeled sampled
  record_labeled_op name dur outcome labels m =
      let named = labeled_op_value between name m in
      let attrs = ("op", as_string named.1) ∷ ("outcome", outcome) ∷ labels in
      let found = find_labeled makes between named.0.labeled_set named.0 in
      (found.0, sampled (λ i. seconds i dur attrs) found.1.duration)

  unfoldable pub record_per_op : List ℕ → ℕ → Bool → Bool → Labels → Metrics → Metrics × List Sample
  unfolding op_metrics_for op_samples
  record_per_op name dur errored panicked labels m =
      let found = op_metrics_for makes between name m in
      (found.0, op_samples found.1 dur errored panicked labels)

  -- The half of the schema with one family per name, after the labeled half.
  unfoldable pub then_per_op :
      Bool → List ℕ → ℕ → Bool → Bool → Labels → Metrics × List Sample → Metrics × List Sample
  unfolding record_per_op
  then_per_op per_op name dur errored panicked labels first =
      let second = record_per_op name dur errored panicked labels first.0 in
      if per_op then (second.0, first.1 ++ second.1) else first

  -- `recordOp`, and the samples that it sends.
  unfoldable pub record_op : List ℕ → ℕ → Bool → Bool → Labels → Metrics → Metrics × List Sample
  record_op name dur errored panicked labels m =
      let first =
        if is_labeled m.shape
        then record_labeled_op name dur (outcome_of errored panicked) labels m
        else (m, []) in
      then_per_op (is_per_op m.shape) name dur errored panicked labels first

  unfoldable pub record_labeled_event : List ℕ → Labels → Metrics → Metrics × List Sample
  unfolding labeled_op_value find_labeled sampled
  record_labeled_event name labels m =
      let named = labeled_op_value between name m in
      let found = find_labeled makes between named.0.labeled_set named.0 in
      (found.0, sampled (λ i. count i (("event", as_string named.1) ∷ labels)) found.1.events)

  unfoldable pub record_per_event : List ℕ → Labels → Metrics → Metrics × List Sample
  unfolding event_metrics_for sampled
  record_per_event name labels m =
      let found = event_metrics_for makes between name m in
      (found.0, sampled (λ i. count i labels) found.1.total)

  -- `recordEvent`.
  unfoldable pub record_event : List ℕ → Labels → Metrics → Metrics × List Sample
  unfolding record_labeled_event record_per_event
  record_event name labels m =
      let first = if is_labeled m.shape then record_labeled_event name labels m else (m, []) in
      if is_per_op m.shape
      then (let second = record_per_event name labels first.0 in (second.0, first.1 ++ second.1))
      else first
