-- ===== src/Boeng/Metrics/Labeled.antt =====
-- The names and the instruments of the labeled schema (boeng/metrics.go).
use obs_brutal.Prelude.{
  ℕ, ◌≡◌, refl, ap, ◌∙◌, ◌⊎◌, inl, inr, Bool, Option, none, some, List, arith, ltb, leb, ltb→lt,
  Bool-cases, is_some, length, bytes_keys, string_keys, nat_keys, lookup, length-insert-le,
}
use obs_brutal.Boeng.Names.{sanitize_metric_name}
use obs_brutal.Boeng.Metrics.{
  Metrics, LabeledMetricSet, max_distinct_metric_names, overflow_name, claim_op_value,
  labeled_op_value, new_labeled_metric_set, make_labeled, find_labeled,
}
use obs_brutal.Boeng.Metrics.Cache.{IsValid, IsNext, IsNext_refl, IsNext_trans}

-- A name for metrics: that of the operation, or the one for all beyond the cap.
abbrev pub IsStem : List ℕ → List ℕ → Type 0
IsStem name stem = (stem ≡ sanitize_metric_name name) ⊎ (stem ≡ overflow_name)

module _ (makes : List ℕ → Bool) where
  -- A state after, and a name that the labeled schema gives the operation.
  pub record Valued (name : List ℕ) (m : Metrics) (r : Metrics × List ℕ) : Type 0 where
    pub next : IsNext makes m r.0
    pub named : IsStem name r.1

  pub record LabeledFound (m : Metrics) (r : Metrics × LabeledMetricSet) : Type 0 where
    pub next : IsNext makes m r.0
    pub made : r.1 ≡ new_labeled_metric_set makes m.provider

  claim_op_value-Valued :
      (name : List ℕ) (m : Metrics)
      → IsValid makes m
      → Valued name m (claim_op_value (sanitize_metric_name name) m)
  unfolding claim_op_value
  claim_op_value-Valued name m v =
      let safe = sanitize_metric_name name in
      elim (Bool-cases (ltb (length m.labeled_ops) max_distinct_metric_names)) [
        | inl room ↦ rw room record {
          next = record {
            valid = record {
              ops_capped = v.ops_capped;
              events_capped = v.events_capped;
              labels_capped =
                  omega (arith, length-insert-le safe tt m.labeled_ops, ltb→lt _ _ room);
              ops_made = v.ops_made;
              events_made = v.events_made;
              op_overflow_made = v.op_overflow_made;
              event_overflow_made = v.event_overflow_made;
              labeled_made = v.labeled_made;
            };
            same_provider = refl;
          };
          named = inl refl;
        }
        | inr full ↦ rw full record { next = IsNext_refl makes m v; named = inr refl }
      ]

  make_labeled-LabeledFound :
      (m : Metrics) (known : Option LabeledMetricSet)
      → IsValid makes m
      → m.labeled_set ≡ known
      → LabeledFound m (make_labeled makes known m)
  unfolding make_labeled
  make_labeled-LabeledFound m (some s) v e = record {
    next = IsNext_refl makes m v;
    made = v.labeled_made s e;
  }
  make_labeled-LabeledFound m none v e = record {
    next = record {
      valid = record {
        ops_capped = v.ops_capped;
        events_capped = v.events_capped;
        labels_capped = v.labels_capped;
        ops_made = v.ops_made;
        events_made = v.events_made;
        op_overflow_made = v.op_overflow_made;
        event_overflow_made = v.event_overflow_made;
        labeled_made = λ s h. cc;
      };
      same_provider = refl;
    };
    made = refl;
  }

  module _ (between : Metrics → Metrics)
      (kept : (m : Metrics) → IsValid makes m → IsNext makes m (between m)) where
    pub labeled_op_value-Valued :
        (name : List ℕ) (m : Metrics)
        → IsValid makes m
        → Valued name m (labeled_op_value between name m)
    unfolding labeled_op_value
    labeled_op_value-Valued name m v =
        let safe = sanitize_metric_name name in
        elim (Bool-cases (is_some (lookup safe m.labeled_ops))) [
          | inl seen ↦ rw seen record { next = IsNext_refl makes m v; named = inl refl }
          | inr new ↦ elim (Bool-cases (leb max_distinct_metric_names (length m.labeled_ops))) [
            | inl full ↦ rw (new, full) record { next = IsNext_refl makes m v; named = inr refl }
            | inr room ↦
                let n = kept m v in
                let claimed = claim_op_value-Valued name (between m) n.valid in
                rw (new, room)
                  record {
                    next = IsNext_trans makes m (between m) _ n claimed.next;
                    named = claimed.named;
                  }
          ]
        ]

    pub find_labeled-LabeledFound :
        (m : Metrics) (known : Option LabeledMetricSet)
        → IsValid makes m
        → m.labeled_set ≡ known
        → LabeledFound m (find_labeled makes between known m)
    unfolding find_labeled
    find_labeled-LabeledFound m (some s) v e = record {
      next = IsNext_refl makes m v;
      made = v.labeled_made s e;
    }
    find_labeled-LabeledFound m none v e =
        let n = kept m v in
        let found = make_labeled-LabeledFound (between m) _ n.valid refl in
        record {
          next = IsNext_trans makes m (between m) _ n found.next;
          made = found.made ∙ ap (new_labeled_metric_set makes) n.same_provider;
        }
