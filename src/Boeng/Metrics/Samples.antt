-- ===== src/Boeng/Metrics/Samples.antt =====
-- What one operation sends (boeng/metrics.go, `recordOp`), whatever the caches hold already.
use obs_brutal.Prelude.{
  ℕ, ◌/◌, String, ◌≡◌, refl, sym, ap, ◌∙◌, inl, inr, Bool, true, false, List, [], ◌∷◌, ◌++◌,
  append-nil, if◌then◌else◌, Bool-cases, codes, as_string,
}
use obs_brutal.Boeng.Metrics.{
  Metrics, Labels, Sample, count, milliseconds, seconds, overflow_name, instrument,
  new_op_metric_set, labeled_op_value, new_labeled_metric_set, is_labeled, is_per_op,
}
use obs_brutal.Boeng.Metrics.Record.{
  outcome_of, sampled, record_labeled_op, op_samples, record_per_op, then_per_op, record_op,
}
use obs_brutal.Boeng.Metrics.Cache.{
  IsValid, IsNext, IsNext_refl, IsNext_trans, op_metrics_for-OpFound,
}
use obs_brutal.Boeng.Metrics.Labeled.{IsStem, labeled_op_value-Valued, find_labeled-LabeledFound}

-- The samples of the labeled schema under one name.
unfoldable pub labeled_expected : ℕ → List ℕ → ℕ → String → Labels → List Sample
labeled_expected provider stem dur outcome labels =
    seconds record { provider = provider; name = codes "boeng.operation.duration" } dur
      (("op", as_string stem) ∷ ("outcome", outcome) ∷ labels)
    ∷ []

-- The samples of the other schema: the total and the duration always, the two counters of failures
-- when there was one.
unfoldable pub per_op_expected : ℕ → List ℕ → ℕ → Bool → Bool → Labels → List Sample
per_op_expected provider stem dur errored panicked labels =
    count record { provider = provider; name = stem ++ codes "_total" } labels
      ∷ milliseconds record { provider = provider; name = stem ++ codes "_duration_ms" }
          (dur / 1000000) labels
      ∷ (if errored
          then count record { provider = provider; name = stem ++ codes "_error_total" } labels ∷ []
          else [])
    ++ (if panicked
        then count record { provider = provider; name = stem ++ codes "_panic_total" } labels ∷ []
        else [])

module _ (makes : List ℕ → Bool) (between : Metrics → Metrics)
    (kept : (m : Metrics) → IsValid makes m → IsNext makes m (between m))
    (every : (n : List ℕ) → makes n ≡ true) where
  -- What the labeled half does.
  record LabeledDone (name : List ℕ) (dur : ℕ) (outcome : String) (labels : Labels) (m : Metrics)
      (r : Metrics × List Sample) : Type 0 where
    next : IsNext makes m r.0
    stem : List ℕ
    named : IsStem name stem
    sent : r.1 ≡ labeled_expected m.provider stem dur outcome labels

  record_labeled_op-LabeledDone :
      (name : List ℕ) (dur : ℕ) (outcome : String) (labels : Labels) (m : Metrics)
      → IsValid makes m
      → LabeledDone name dur outcome labels m
          (record_labeled_op makes between name dur outcome labels m)
  unfolding record_labeled_op labeled_expected sampled new_labeled_metric_set instrument
  record_labeled_op-LabeledDone name dur outcome labels m v =
      let value = labeled_op_value-Valued makes between kept name m v in
      let n = (labeled_op_value between name m).0 in
      let stem = (labeled_op_value between name m).1 in
      let found = find_labeled-LabeledFound makes between kept n _ value.next.valid refl in
      let attrs = ("op", as_string stem) ∷ ("outcome", outcome) ∷ labels in
      let made = found.made ∙ ap (new_labeled_metric_set makes) value.next.same_provider in
      record {
        next = IsNext_trans makes m n _ value.next found.next;
        stem = stem;
        named = value.named;
        sent =
            ap (λ s. sampled (λ i. seconds i dur attrs) s.duration) made
            ∙ rw (every (codes "boeng.operation.duration")) refl;
      }

  op_samples_made :
      (provider : ℕ) (stem : List ℕ) (dur : ℕ) (errored panicked : Bool) (labels : Labels)
      → op_samples (new_op_metric_set makes provider stem) dur errored panicked labels
        ≡ per_op_expected provider stem dur errored panicked labels
  unfolding op_samples new_op_metric_set instrument sampled per_op_expected
  op_samples_made provider stem dur errored panicked labels =
      rw
        (
          every (stem ++ codes "_total"),
          every (stem ++ codes "_duration_ms"),
          every (stem ++ codes "_error_total"),
          every (stem ++ codes "_panic_total"),
        )
        refl

  -- `opMetricsFor` under the other schema.
  record_per_op-sent :
      (name : List ℕ) (dur : ℕ) (errored panicked : Bool) (labels : Labels) (m : Metrics)
      (v : IsValid makes m)
      → (record_per_op makes between name dur errored panicked labels m).1
        ≡ per_op_expected m.provider
            (op_metrics_for-OpFound makes between kept name m v).stem
            dur
            errored
            panicked
            labels
  unfolding record_per_op
  record_per_op-sent name dur errored panicked labels m v =
      let found = op_metrics_for-OpFound makes between kept name m v in
      ap (λ s. op_samples s dur errored panicked labels) found.made
      ∙ op_samples_made m.provider found.stem dur errored panicked labels

  -- What the second half does: the next state, a name for the samples of the second half, and these
  -- samples behind those of the first.
  record PerOpDone (per_op : Bool) (name : List ℕ) (dur : ℕ) (errored panicked : Bool)
      (labels : Labels) (m : Metrics) (sent_first : List Sample) (r : Metrics × List Sample)
      : Type 0 where
    next : IsNext makes m r.0
    stem : List ℕ
    stem_named : IsStem name stem
    sent :
        r.1
        ≡ sent_first
          ++ (if per_op then per_op_expected m.provider stem dur errored panicked labels else [])

  then_per_op-PerOpDone :
      (per_op : Bool) (name : List ℕ) (dur : ℕ) (errored panicked : Bool) (labels : Labels)
      (m : Metrics) (first : Metrics × List Sample)
      → IsNext makes m first.0
      → PerOpDone per_op name dur errored panicked labels m first.1
          (then_per_op makes between per_op name dur errored panicked labels first)
  unfolding then_per_op
  then_per_op-PerOpDone false name dur errored panicked labels m first h = record {
    next = h;
    stem = overflow_name;
    stem_named = inr refl;
    sent = sym (append-nil first.1);
  }
  then_per_op-PerOpDone true name dur errored panicked labels m first h =
      let found = op_metrics_for-OpFound makes between kept name first.0 h.valid in
      record {
        next = IsNext_trans makes m first.0 _ h found.next;
        stem = found.stem;
        stem_named = elim found.named [ inl e ↦ inl e | inr e ↦ inr e.0 ];
        sent =
            ap (λ t. first.1 ++ t)
              (record_per_op-sent name dur errored panicked labels first.0 h.valid
                ∙ ap (λ p. per_op_expected p found.stem dur errored panicked labels)
                    h.same_provider);
      }

  -- What `recordOp` does: the next state, a name for the samples of each schema, and these
  -- samples, those of the labeled schema first.
  pub record OpRecorded (name : List ℕ) (dur : ℕ) (errored panicked : Bool) (labels : Labels)
      (m : Metrics) (r : Metrics × List Sample) : Type 0 where
    pub next : IsNext makes m r.0
    pub op : List ℕ
    pub op_named : IsStem name op
    pub stem : List ℕ
    pub stem_named : IsStem name stem
    pub sent :
        r.1
        ≡ (if is_labeled m.shape
            then labeled_expected m.provider op dur (outcome_of errored panicked) labels
            else [])
          ++ (if is_per_op m.shape
              then per_op_expected m.provider stem dur errored panicked labels
              else [])

  -- When the meter makes every instrument and other goroutines keep the caches valid, one
  -- completed operation keeps them valid and bound to the current provider, and sends exactly
  -- the samples of the schemas that are on, under its sanitized name or `overflow`: one duration
  -- with its outcome in the labeled schema, and one total, one duration, an error when it
  -- failed and a panic when it panicked in the other, in this order, whatever is cached.
  pub record_op-OpRecorded :
      (name : List ℕ) (dur : ℕ) (errored panicked : Bool) (labels : Labels) (m : Metrics)
      → IsValid makes m
      → OpRecorded name dur errored panicked labels m
          (record_op makes between name dur errored panicked labels m)
  unfolding record_op
  record_op-OpRecorded name dur errored panicked labels m v =
      elim (Bool-cases (is_labeled m.shape)) [
        | inl on ↦
            let outcome = outcome_of errored panicked in
            let first = record_labeled_op-LabeledDone name dur outcome labels m v in
            let second =
              then_per_op-PerOpDone (is_per_op m.shape) name dur errored panicked labels m
                (record_labeled_op makes between name dur outcome labels m) first.next in
            rw on record {
              next = second.next;
              op = first.stem;
              op_named = first.named;
              stem = second.stem;
              stem_named = second.stem_named;
              sent = rw on (
                  second.sent
                  ∙ ap
                      (λ t.
                        t
                        ++ (if is_per_op m.shape
                            then per_op_expected m.provider second.stem dur errored panicked labels
                            else []))
                      first.sent);
            }
        | inr off ↦
            let second =
              then_per_op-PerOpDone (is_per_op m.shape) name dur errored panicked labels m (m, [])
                (IsNext_refl makes m v) in
            rw off record {
              next = second.next;
              op = overflow_name;
              op_named = inr refl;
              stem = second.stem;
              stem_named = second.stem_named;
              sent = rw off second.sent;
            }
      ]
