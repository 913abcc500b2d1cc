-- ===== src/Boeng/Metrics/Allowed.antt =====
-- The labels that leave the process (boeng/metrics.go, `configureMetrics` and `metricLabels`): which
-- keys have a label, and its value.
use mathlib.Core.Option
use obs_brutal.Prelude.{
  String, ◌≡◌, refl, ap, ◌∙◌, subst, inl, inr, Bool, true, false, ◌||◌, none, List, [], ◌∷◌, ◌++◌,
  append-nil, arith, if◌then◌else◌, Bool-cases, Option-cases, is_some, is_empty, any, bytes_keys,
  string_keys, nat_keys, ◌==◌, prefer, lookup, IsMap, lookup-append, append-IsMap,
}
use obs_brutal.Domain.Value.{Value, FieldMap}
use obs_brutal.Boeng.Fields.{Subject, extract_fields}
use obs_brutal.Boeng.Metrics.{
  Labels, Metrics, MetricSchema, static_label, configure_metrics, is_label, take_labels,
  metric_labels,
}

-- The labels that the configuration gives every metric.
abbrev pub configured_statics : String → String → Labels
configured_statics service env = static_label "service" service ++ static_label "env" env

configured_statics-IsMap : (service env : String) → IsMap (configured_statics service env)
unfolding lookup
configured_statics-IsMap service env = elim (Bool-cases (service == "")) [
  | inl e ↦ elim (Bool-cases (env == "")) [
    | inl e' ↦ rw (e, e') tt
    | inr e' ↦ rw (e, e') (refl, tt)
  ]
  | inr e ↦ elim (Bool-cases (env == "")) [
    | inl e' ↦ rw (e, e') (refl, tt)
    | inr e' ↦ rw (e, e') (refl, (refl, tt))
  ]
]

module _ (show : Value → String) where
  lookup-take_labels :
      (k : String) (m : Metrics) (fs : FieldMap)
      → lookup k (take_labels show m fs)
        ≡ (if is_label m k then Option.map show (lookup k fs) else none)
  unfolding take_labels lookup
  lookup-take_labels k m [] = ground arith
  lookup-take_labels k m ((j, v) ∷ fs) = elim (Bool-cases (j == k)) [
    | inl e ↦
        ground (
          arith,
          e,
          lookup-take_labels k m fs,
          ap (is_label m) ((string_keys.same_key_iff j k).0 e),
        )
    | inr e ↦ ground (arith, lookup-take_labels k m fs)
  ]

  take_labels-IsMap : (m : Metrics) (fs : FieldMap) → IsMap fs → IsMap (take_labels show m fs)
  unfolding take_labels lookup
  take_labels-IsMap m [] h = tt
  take_labels-IsMap m ((j, v) ∷ fs) h = elim (Bool-cases (is_label m j)) [
    | inl e ↦ rw e (rw (lookup-take_labels j m fs, h.0, e) refl, take_labels-IsMap m fs h.1)
    | inr e ↦ rw e (take_labels-IsMap m fs h.1)
  ]

  -- What the labels say of a key: a label of the configuration comes first, and a field of the
  -- subject has one only when its key is on the list.
  pub record IsAllowed (allowed : List String) (statics : Labels) (fs : FieldMap) (labels : Labels)
      : Type 0 where
    pub once : IsMap labels
    pub label_of :
        (k : String)
        → lookup k labels
          ≡ prefer
              (lookup k statics)
              (if any (λ a. a == k) allowed then Option.map show (lookup k fs) else none)

  -- What follows the labels of the configuration.
  take_labels-apart :
      (k : String) (m : Metrics) (fs : FieldMap)
      → is_some (lookup k m.statics) ≡ true
      → lookup k (take_labels show m fs) ≡ none
  unfolding is_label
  take_labels-apart k m fs h = ground (arith, lookup-take_labels k m fs, h)

  appended-IsAllowed :
      (m : Metrics) (fs : FieldMap)
      → IsMap m.statics
      → IsMap fs
      → IsAllowed m.label_allowed m.statics fs (m.statics ++ take_labels show m fs)
  unfolding is_label
  appended-IsAllowed m fs h h' = record {
    once =
        append-IsMap m.statics (take_labels show m fs) h (take_labels-IsMap m fs h')
          (λ k e. take_labels-apart k m fs e);
    label_of = λ k.
        lookup-append k m.statics (take_labels show m fs)
        ∙ (elim (Option-cases (lookup k m.statics)) [
          | inl e ↦ ground (arith, e, lookup-take_labels k m fs)
          | inr e ↦ simp e.1
        ]);
  }

  guarded-IsAllowed :
      (m : Metrics) (fs : FieldMap)
      → IsMap m.statics
      → IsMap fs
      → is_empty m.label_allowed ≡ false
      → IsAllowed m.label_allowed m.statics fs (
          if is_empty m.label_allowed || is_empty fs
          then m.statics
          else m.statics ++ take_labels show m fs)
  unfolding take_labels
  guarded-IsAllowed m [] h h' some_allowed = rw some_allowed (
      subst (IsAllowed m.label_allowed m.statics []) (append-nil m.statics)
        (appended-IsAllowed m [] h h'))
  guarded-IsAllowed m (f ∷ fs) h h' some_allowed =
      rw some_allowed (appended-IsAllowed m (f ∷ fs) h h')

  -- After any configuration, the labels of any subject whose fields are a map have each key once: the
  -- service and the environment of the configuration under their names, where these are not empty,
  -- whatever fields of these names the subject has, and of the subject exactly the fields whose key is
  -- on the list of the configuration, or is one of these two names.
  pub metric_labels-IsAllowed :
      (include_zero : Bool) (extra : List String) (schema : MetricSchema) (service env : String)
      (m : Metrics) (subject : Subject)
      → IsMap (extract_fields include_zero subject)
      → IsAllowed
          ("service" ∷ "env" ∷ extra)
          (configured_statics service env)
          (extract_fields include_zero subject)
          (metric_labels show include_zero subject (configure_metrics extra schema service env m))
  unfolding metric_labels configure_metrics
  metric_labels-IsAllowed include_zero extra schema service env m subject h =
      guarded-IsAllowed (configure_metrics extra schema service env m)
        (extract_fields include_zero subject) (configured_statics-IsMap service env) h refl
