-- ===== src/Boeng/Metrics/Cache.antt =====
-- What the caches of boeng's instruments promise (boeng/metrics.go): a cache only saves the work of
-- making an instrument again, and holds at most 512 names.
use obs_brutal.Prelude.{
  ℕ, ◌≤◌, ◌<◌, String, ◌≡◌, refl, ap, ◌∙◌, ◌⊎◌, inl, inr, Bool, Option, none, some, List, arith,
  leb, leb→le, Bool-cases, length, bytes_eq_iff, bytes_keys, string_keys, nat_keys, lookup, insert,
  lookup-insert, length-insert-le,
}
use obs_brutal.Boeng.Names.{sanitize_metric_name}
use obs_brutal.Boeng.Metrics.{
  MetricSchema, configure_metrics, Metrics, OpMetricSet, EventMetricSet, LabeledMetricSet,
  max_distinct_metric_names, overflow_name, new_op_metric_set, overflow_op, mint_op, find_op,
  op_metrics_for, new_event_metric_set, new_labeled_metric_set,
}

module _ (makes : List ℕ → Bool) where
  -- Each cache is within its cap, and what it holds is what would be made now.
  pub record IsValid (m : Metrics) : Type 0 where
    pub ops_capped : length m.ops ≤ 512
    pub events_capped : length m.events ≤ 512
    pub labels_capped : length m.labeled_ops ≤ 512
    pub ops_made :
        (k : List ℕ) (s : OpMetricSet)
        → lookup k m.ops ≡ some s
        → s ≡ new_op_metric_set makes m.provider k
    pub events_made :
        (k : List ℕ) (s : EventMetricSet)
        → lookup k m.events ≡ some s
        → s ≡ new_event_metric_set makes m.provider k
    pub op_overflow_made :
        (s : OpMetricSet)
        → m.op_overflow ≡ some s
        → s ≡ new_op_metric_set makes m.provider overflow_name
    pub event_overflow_made :
        (s : EventMetricSet)
        → m.event_overflow ≡ some s
        → s ≡ new_event_metric_set makes m.provider overflow_name
    pub labeled_made :
        (s : LabeledMetricSet)
        → m.labeled_set ≡ some s
        → s ≡ new_labeled_metric_set makes m.provider

  -- A state with the meters that it had, and caches that are valid.
  pub record IsNext (m n : Metrics) : Type 0 where
    pub valid : IsValid n
    pub same_provider : n.provider ≡ m.provider

  -- What a cache of at most 512 names gives for `safe`: a set made for this name, or for `overflow`
  -- when the cache is full.
  pub record OpFound (safe : List ℕ) (m : Metrics) (r : Metrics × OpMetricSet) : Type 0 where
    pub next : IsNext m r.0
    pub stem : List ℕ
    pub named : (stem ≡ safe) ⊎ ((stem ≡ overflow_name) × 512 ≤ length r.0.ops)
    pub made : r.1 ≡ new_op_metric_set makes m.provider stem

  pub IsNext_refl : (m : Metrics) → IsValid m → IsNext m m
  IsNext_refl m v = record { valid = v; same_provider = refl }

  pub IsNext_trans : (m n o : Metrics) → IsNext m n → IsNext n o → IsNext m o
  IsNext_trans m n o a b = record {
    valid = b.valid;
    same_provider = b.same_provider ∙ a.same_provider;
  }

  -- A configuration leaves valid caches, whatever was there.
  pub configure_metrics-IsValid :
      (labels : List String) (schema : MetricSchema) (service env : String) (m : Metrics)
      → IsValid (configure_metrics labels schema service env m)
  unfolding configure_metrics lookup
  configure_metrics-IsValid labels schema service env m = record {
    ops_capped = omega arith;
    events_capped = omega arith;
    labels_capped = omega arith;
    ops_made = λ k s e. absurd cc;
    events_made = λ k s e. absurd cc;
    op_overflow_made = λ s e. absurd cc;
    event_overflow_made = λ s e. absurd cc;
    labeled_made = λ s e. absurd cc;
  }

  insert_op-IsValid :
      (safe : List ℕ) (m : Metrics)
      → IsValid m
      → length m.ops < 512
      → IsValid (record m { ops = insert safe (new_op_metric_set makes m.provider safe) m.ops })
  insert_op-IsValid safe m v room =
      let s = new_op_metric_set makes m.provider safe in
      record {
        ops_capped = omega (arith, length-insert-le safe s m.ops);
        events_capped = v.events_capped;
        labels_capped = v.labels_capped;
        ops_made = λ k t h.
            grind (arith, lookup-insert safe k s m.ops, bytes_eq_iff safe k, v.ops_made k t);
        events_made = v.events_made;
        op_overflow_made = v.op_overflow_made;
        event_overflow_made = v.event_overflow_made;
        labeled_made = v.labeled_made;
      }

  overflow_op-OpFound :
      (safe : List ℕ) (m : Metrics) (spare : Option OpMetricSet)
      → IsValid m
      → m.op_overflow ≡ spare
      → 512 ≤ length m.ops
      → OpFound safe m (overflow_op makes spare m)
  unfolding overflow_op
  overflow_op-OpFound safe m (some s) v e full = record {
    next = IsNext_refl m v;
    stem = overflow_name;
    named = inr (refl, full);
    made = v.op_overflow_made s e;
  }
  overflow_op-OpFound safe m none v e full = record {
    next = record {
      valid = record {
        ops_capped = v.ops_capped;
        events_capped = v.events_capped;
        labels_capped = v.labels_capped;
        ops_made = v.ops_made;
        events_made = v.events_made;
        op_overflow_made = λ s h. cc;
        event_overflow_made = v.event_overflow_made;
        labeled_made = v.labeled_made;
      };
      same_provider = refl;
    };
    stem = overflow_name;
    named = inr (refl, full);
    made = refl;
  }

  mint_op-OpFound :
      (safe : List ℕ) (m : Metrics) (known : Option OpMetricSet)
      → IsValid m
      → lookup safe m.ops ≡ known
      → OpFound safe m (mint_op makes known safe m)
  unfolding mint_op
  mint_op-OpFound safe m (some s) v e = record {
    next = IsNext_refl m v;
    stem = safe;
    named = inl refl;
    made = v.ops_made safe s e;
  }
  mint_op-OpFound safe m none v e =
      elim (Bool-cases (leb max_distinct_metric_names (length m.ops))) [
        | inl full ↦ rw full (overflow_op-OpFound safe m m.op_overflow v refl (leb→le _ _ full))
        | inr room ↦ rw room record {
          next = record { valid = insert_op-IsValid safe m v (ground arith); same_provider = refl };
          stem = safe;
          named = inl refl;
          made = refl;
        }
      ]

  module _ (between : Metrics → Metrics)
      (kept : (m : Metrics) → IsValid m → IsNext m (between m)) where
    find_op-OpFound :
        (safe : List ℕ) (m : Metrics) (known : Option OpMetricSet)
        → IsValid m
        → lookup safe m.ops ≡ known
        → OpFound safe m (find_op makes between known safe m)
    unfolding find_op
    find_op-OpFound safe m (some s) v e = record {
      next = IsNext_refl m v;
      stem = safe;
      named = inl refl;
      made = v.ops_made safe s e;
    }
    find_op-OpFound safe m none v e =
        let n = kept m v in
        let found = mint_op-OpFound safe (between m) _ n.valid refl in
        record {
          next = IsNext_trans m (between m) _ n found.next;
          stem = found.stem;
          named = found.named;
          made = found.made ∙ ap (λ p. new_op_metric_set makes p found.stem) n.same_provider;
        }

    -- `opMetricsFor` keeps the caches valid, and gives the set that would be made now for the
    -- sanitized name or, only when 512 names are cached, for `overflow`.
    pub op_metrics_for-OpFound :
        (name : List ℕ) (m : Metrics)
        → IsValid m
        → OpFound (sanitize_metric_name name) m (op_metrics_for makes between name m)
    unfolding op_metrics_for
    op_metrics_for-OpFound name m v = find_op-OpFound _ m _ v refl
