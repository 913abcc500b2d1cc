-- ===== src/Otel/Totals.antt =====
-- What the exported metrics of the pipeline add up to (internal/core/service/otel_logger.go).
use obs_brutal.Prelude.{
  ℕ, zero, suc, ◌+◌, ◌-◌, ◌≤◌, ◌≡◌, refl, ◌∙◌, inl, inr, Bool, true, false, List, [], ◌∷◌, ◌++◌,
  arith, ltb, leb, if◌then◌else◌, Bool-cases, replicate, bytes_eq, codes,
}
use obs_brutal.Otel.{
  AsyncStats, MeterCall, increment, observe, inc_n, inc_since, processed_total, dropped_total,
  batches_total, errors_total, hook, hook_calls,
}

-- What one call adds to the counter `name` or to its histogram of large differences.
unfoldable pub exported_by : List ℕ → MeterCall → ℕ
exported_by name (increment n) = if bytes_eq n name then 1 else 0
exported_by name (observe n v) = if bytes_eq n (name ++ codes "_delta") then v else 0

unfoldable pub exported : List ℕ → List MeterCall → ℕ
unfolding exported_by
exported name [] = 0
exported name (c ∷ cs) = exported_by name c + exported name cs

exported-append :
    (name : List ℕ) (cs ds : List MeterCall)
    → exported name (cs ++ ds) ≡ exported name cs + exported name ds
unfolding exported
exported-append name [] ds = omega arith
exported-append name (c ∷ cs) ds = omega (arith, exported-append name cs ds)

-- Whether the calls for the counter `other` add to `name`.
record IsApart (name other : List ℕ) (same : Bool) : Type 0 where
  counted : bytes_eq other name ≡ same
  observed : bytes_eq (other ++ codes "_delta") (name ++ codes "_delta") ≡ same

exported-replicate :
    (name other : List ℕ) (same : Bool) (n : ℕ)
    → bytes_eq other name ≡ same
    → exported name (replicate n (increment other)) ≡ (if same then n else 0)
unfolding exported exported_by
exported-replicate name other same zero h = ground arith
exported-replicate name other same (suc n) h =
    rw h (ground (arith, exported-replicate name other same n h))

exported-inc_n :
    (name other : List ℕ) (same : Bool) (n : ℕ)
    → IsApart name other same
    → exported name (inc_n other n) ≡ (if same then n else 0)
unfolding inc_n exported exported_by
exported-inc_n name other same n h = elim (Bool-cases (ltb 1000 n)) [
  | inl large ↦ rw (large, h.observed) (ground arith)
  | inr small ↦ rw small (exported-replicate name other same n h.counted)
]

exported-inc_since :
    (name other : List ℕ) (same : Bool) (prev now : ℕ)
    → IsApart name other same
    → exported name (inc_since other prev now) ≡ (if same then now - prev else 0)
unfolding inc_since exported
exported-inc_since name other same prev now h = elim (Bool-cases (leb prev now)) [
  | inl up ↦ rw up (exported-inc_n name other same (now - prev) h)
  | inr down ↦ rw down (ground arith)
]

-- What one call of the hook adds to the counter `name`, by which of the four it is.
hook_adds :
    (name : List ℕ) (a b c d : Bool) (prev s : AsyncStats)
    → IsApart name processed_total a
    → IsApart name dropped_total b
    → IsApart name batches_total c
    → IsApart name errors_total d
    → bytes_eq (codes "obs_async_queue_size") (name ++ codes "_delta") ≡ false
    → exported name (hook prev s)
      ≡ (if a then s.processed - prev.processed else 0)
        + (if b then s.dropped - prev.dropped else 0)
        + (if c then s.batches - prev.batches else 0)
        + (if d then s.errors - prev.errors else 0)
unfolding hook exported exported_by
hook_adds name a b c d prev s ha hb hc hd hq =
    let one = inc_since processed_total prev.processed s.processed in
    let two = inc_since dropped_total prev.dropped s.dropped in
    let three = inc_since batches_total prev.batches s.batches in
    let four = inc_since errors_total prev.errors s.errors in
    let size = observe (codes "obs_async_queue_size") s.queue_size ∷ [] in
    exported-append name (one ++ two ++ three ++ four) size
    ∙ rw
        (
          exported-append name (one ++ two ++ three) four,
          exported-append name (one ++ two) three,
          exported-append name one two,
          hq,
          exported-inc_since name processed_total a prev.processed s.processed ha,
          exported-inc_since name dropped_total b prev.dropped s.dropped hb,
          exported-inc_since name batches_total c prev.batches s.batches hc,
          exported-inc_since name errors_total d prev.errors s.errors hd,
        )
        (omega arith)

-- Readings of counters that do not fall.
abbrev pub IsRising : AsyncStats → List AsyncStats → Type 0
IsRising prev [] = Unit
IsRising prev (s ∷ ss) =
    (prev.processed ≤ s.processed)
    × (prev.dropped ≤ s.dropped)
    × (prev.batches ≤ s.batches)
    × (prev.errors ≤ s.errors)
    × IsRising s ss

abbrev pub latest : AsyncStats → List AsyncStats → AsyncStats
latest prev [] = prev
latest prev (s ∷ ss) = latest s ss

-- What the exporter has of each counter, above the reading with which the hook began.
pub record IsExported (prev last : AsyncStats) (cs : List MeterCall) : Type 0 where
  pub processed : exported processed_total cs + prev.processed ≡ last.processed
  pub dropped : exported dropped_total cs + prev.dropped ≡ last.dropped
  pub batches : exported batches_total cs + prev.batches ≡ last.batches
  pub errors : exported errors_total cs + prev.errors ≡ last.errors

-- As long as the counters of the pipeline do not fall, the calls of the meter add up to them after
-- any number of readings: for each of the four, what was counted on it and what was observed on its
-- `_delta` histogram are together what it grew by, and only together, since a growth by more than
-- 1000 at once is not counted.
pub hook_calls-IsExported :
    (prev : AsyncStats) (ss : List AsyncStats)
    → IsRising prev ss
    → IsExported prev (latest prev ss) (hook_calls prev ss)
unfolding hook_calls exported
hook_calls-IsExported prev [] h = record {
  processed = omega arith;
  dropped = omega arith;
  batches = omega arith;
  errors = omega arith;
}
hook_calls-IsExported prev (s ∷ ss) (h1, h2, h3, h4, h) =
    let rest = hook_calls-IsExported s ss h in
    record {
      processed = omega (
        arith,
        rest.processed,
        exported-append processed_total (hook prev s) (hook_calls s ss),
        hook_adds processed_total true false false false prev s
            record { counted = refl; observed = refl } record { counted = refl; observed = refl }
            record { counted = refl; observed = refl } record { counted = refl; observed = refl }
            refl,
      );
      dropped = omega (
        arith,
        rest.dropped,
        exported-append dropped_total (hook prev s) (hook_calls s ss),
        hook_adds dropped_total false true false false prev s
            record { counted = refl; observed = refl } record { counted = refl; observed = refl }
            record { counted = refl; observed = refl } record { counted = refl; observed = refl }
            refl,
      );
      batches = omega (
        arith,
        rest.batches,
        exported-append batches_total (hook prev s) (hook_calls s ss),
        hook_adds batches_total false false true false prev s
            record { counted = refl; observed = refl } record { counted = refl; observed = refl }
            record { counted = refl; observed = refl } record { counted = refl; observed = refl }
            refl,
      );
      errors = omega (
        arith,
        rest.errors,
        exported-append errors_total (hook prev s) (hook_calls s ss),
        hook_adds errors_total false false false true prev s
            record { counted = refl; observed = refl } record { counted = refl; observed = refl }
            record { counted = refl; observed = refl } record { counted = refl; observed = refl }
            refl,
      );
    }
