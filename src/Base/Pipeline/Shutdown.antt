-- ===== src/Base/Pipeline/Shutdown.antt =====
-- `Stop` drains the pipeline: its goroutines always have a step to make until everything is
-- written and the batch worker has returned, and they get there.
use obs_brutal.Prelude.{
  ℕ, zero, suc, ◌≤◌, ◌<◌, ◌≡◌, refl, sym, ap, ◌∙◌, ◌≢◌, ◌⊎◌, inl, inr, Bool, true, List, [], ◌∷◌,
  ◌++◌, arith, leb, nat_eq, if◌then◌else◌, Bool-cases, length, is_empty, length-snoc, tally,
  tally-append,
}
use obs_brutal.Base.Pipeline.{
  Pipeline, Phase, running, flushing, leaving, returned, Fails, is_flushing, write_one, collect,
  finish_drain, send_batch, write_inline, end_inline,
}
use obs_brutal.Base.Pipeline.Schedule.{returned-not_flushing, Step, Run, internal, pending, stream}
use obs_brutal.Base.Pipeline.Draining.{
  IsStopping, IsDrained, weigh, phase_weight, measure, weigh-append, phase_weight-after_flush,
  after_flush_returned, after_flush_leaves,
}
use obs_brutal.Base.Pipeline.Accounting.{tally-stream-Run}

module _ {E : Type 0} (fails : Fails E) where
  -- One step of a worker that brings the end nearer.
  abbrev Advance : Pipeline E → Type 0
  Advance p = (q : Pipeline E) × Step fails p q internal × IsStopping q × (measure q < measure p)

  -- What a worker can do, by what it finds.
  with_busy :
      (p : Pipeline E) (xs : List E) (rest : List (List E))
      → IsStopping p
      → p.busy ≡ xs ∷ rest
      → Advance p
  unfolding write_one
  with_busy p [] rest s h = (
    record p { busy = rest },
    Step.batch_done [] rest h refl,
    record {
      quit_closed = s.quit_closed;
      room = s.room;
      none_sent = s.none_sent;
      received = s.received;
      gathered = s.gathered;
    },
    unfold measure in omega (arith, ap (weigh 1 1) h),
  )
  with_busy p (x ∷ xs) rest s h = (
    write_one fails x (record p { busy = xs ∷ rest }),
    Step.write_next [] rest x xs h refl,
    record {
      quit_closed = s.quit_closed;
      room = s.room;
      none_sent = s.none_sent;
      received = s.received;
      gathered = s.gathered;
    },
    unfold measure in omega (arith, ap (weigh 1 1) h),
  )

  with_chan :
      (p : Pipeline E) (xs : List E) (rest : List (List E))
      → IsStopping p
      → p.busy ≡ []
      → p.batch_chan ≡ xs ∷ rest
      → Advance p
  with_chan p xs rest s idle h = (
    record p { batch_chan = rest; busy = p.busy ++ xs ∷ [] },
    Step.take_batch xs rest has_worker h refl,
    record {
      quit_closed = s.quit_closed;
      room = s.room;
      none_sent = λ z. absurd (omega (arith, has_worker));
      received = s.received;
      gathered = s.gathered;
    },
    unfold measure in omega (arith, ap (weigh 3 2) h, weigh-append 1 1 p.busy (xs ∷ [])),
  )
    where
      workers : p.worker_count ≢ 0
      workers z = cons_nil (sym h ∙ s.none_sent z)
        where
          cons_nil : xs ∷ rest ≡ [] → ⊥
          cons_nil e = cc

      has_worker : length p.busy < p.worker_count
      has_worker = omega (arith, workers, ap length idle)

  -- A flush of the batch worker goes through, when the channel of batches is empty.
  with_flush :
      (p : Pipeline E) (b : List E)
      → IsStopping p
      → is_flushing p.phase ≡ true
      → p.batch_chan ≡ []
      → p.batch ≡ b
      → Advance p
  unfolding send_batch end_inline write_inline write_one
  with_flush p b s f c h = elim (Bool-cases (nat_eq p.worker_count 0)) [
    | inl none_ ↦ inline b (ground arith) h
    | inr some_ ↦ sending (ground arith)
  ]
    where
      sending : p.worker_count ≢ 0 → Advance p
      sending w = (
        send_batch p,
        Step.sends f w (omega (arith, ap length c, s.room w)) refl,
        record {
          quit_closed = s.quit_closed;
          room = s.room;
          none_sent = λ z. absurd (w z);
          received = λ r. absurd (after_flush_leaves p.phase r);
          gathered = λ r. (refl, s.received (after_flush_returned p.phase f r));
        },
        unfold measure in
            omega (
              arith,
              weigh-append 3 2 p.batch_chan (p.batch ∷ []),
              phase_weight-after_flush p.phase f,
            ),
      )

      inline : (b' : List E) → p.worker_count ≡ 0 → p.batch ≡ b' → Advance p
      inline [] z e = (
        end_inline p,
        Step.ends_inline f z e refl,
        record {
          quit_closed = s.quit_closed;
          room = s.room;
          none_sent = s.none_sent;
          received = λ r. absurd (after_flush_leaves p.phase r);
          gathered = λ r. (e, s.received (after_flush_returned p.phase f r));
        },
        unfold measure in omega (arith, phase_weight-after_flush p.phase f),
      )
      inline (x ∷ xs) z e = (
        write_inline fails x xs p,
        Step.writes_inline x xs f z e refl,
        record {
          quit_closed = s.quit_closed;
          room = s.room;
          none_sent = s.none_sent;
          received = s.received;
          gathered = λ r. absurd (returned-not_flushing r f);
        },
        unfold measure in omega (arith, ap length e),
      )

  finish_drain-IsStopping :
      (p : Pipeline E) (b : List E)
      → IsStopping p
      → p.log_chan ≡ []
      → p.batch ≡ b
      → IsStopping (finish_drain p)
  unfolding finish_drain
  finish_drain-IsStopping p b s h e = record {
    quit_closed = s.quit_closed;
    room = s.room;
    none_sent = s.none_sent;
    received = λ _. h;
    gathered = all_gathered b e;
  }
    where
      all_gathered :
          (b' : List E)
          → p.batch ≡ b'
          → (finish_drain p).phase ≡ returned
          → (p.batch ≡ []) × (p.log_chan ≡ [])
      all_gathered [] e' r = (e', h)
      all_gathered (x ∷ xs) e' r = absurd (distinct (sym (ap phase_of e') ∙ r))
        where
          phase_of : List E → Phase
          phase_of l = if is_empty l then returned else leaving

          distinct : leaving ≡ returned → ⊥
          distinct z = cc

  collect-IsStopping :
      (x : E) (rest : List E) (p : Pipeline E)
      → IsStopping p
      → p.phase ≡ running
      → IsStopping (collect x (record p { log_chan = rest }))
  unfolding collect
  collect-IsStopping x rest p s ph =
      elim (Bool-cases (leb p.batch_size (length (p.batch ++ x ∷ [])))) [
        | inl full ↦ rw full (record {
          quit_closed = s.quit_closed;
          room = s.room;
          none_sent = s.none_sent;
          received = λ r. absurd cc;
          gathered = λ r. absurd cc;
        })
        | inr room ↦ rw room (record {
          quit_closed = s.quit_closed;
          room = s.room;
          none_sent = s.none_sent;
          received = λ r. absurd cc;
          gathered = λ r. absurd cc;
        })
      ]

  with_queue :
      (p : Pipeline E) (l : List E) → IsStopping p → p.phase ≡ running → p.log_chan ≡ l → Advance p
  unfolding collect finish_drain
  with_queue p [] s ph h = (
    finish_drain p,
    Step.drained ph s.quit_closed h refl,
    finish_drain-IsStopping p p.batch s h refl,
    unfold measure in ground (arith, ap phase_weight ph),
  )
  with_queue p (x ∷ rest) s ph h = (
    collect x (record p { log_chan = rest }),
    Step.gather x rest ph h refl,
    collect-IsStopping x rest p s ph,
    unfold measure in ground (arith, ap phase_weight ph, ap length h, length-snoc p.batch x),
  )

  -- Unless everything is written and the batch worker has returned, some goroutine has a step to
  -- make; it brings the end nearer.
  progress : (p : Pipeline E) → IsStopping p → IsDrained p ⊎ Advance p
  unfolding is_flushing
  progress p s = by_parts p.busy p.batch_chan p.phase refl refl refl
    where
      by_parts :
          (b : List (List E)) (c : List (List E)) (ph : Phase)
          → p.busy ≡ b
          → p.batch_chan ≡ c
          → p.phase ≡ ph
          → IsDrained p ⊎ Advance p
      by_parts (xs ∷ rest) c ph hb hc hp = inr (with_busy p xs rest s hb)
      by_parts [] (xs ∷ rest) ph hb hc hp = inr (with_chan p xs rest s hb hc)
      by_parts [] [] running hb hc hp = inr (with_queue p p.log_chan s hp refl)
      by_parts [] [] flushing hb hc hp = inr (with_flush p p.batch s (ap is_flushing hp) hc refl)
      by_parts [] [] leaving hb hc hp = inr (with_flush p p.batch s (ap is_flushing hp) hc refl)
      by_parts [] [] returned hb hc hp =
          let (g, l) = s.gathered hp in
          inl (record { worker_returned = hp; nothing_pending = rw (hb, hc, g, l) refl })

  drains_within :
      (n : ℕ) {p₀ : Pipeline E} (p : Pipeline E)
      → Run fails p₀ [] [] p
      → IsStopping p
      → measure p ≤ n
      → (q : Pipeline E) × Run fails p₀ [] [] q × IsDrained q
  drains_within zero p r s h = elim (progress p s) [
    | inl done ↦ (p, r, done)
    | inr (q, _, _, m) ↦ absurd (omega (arith, m))
  ]
  drains_within (suc n) p r s h = elim (progress p s) [
    | inl done ↦ (p, r, done)
    | inr (q, st, i, m) ↦ drains_within n q (Run.then_internal r st) i (omega (arith, m))
  ]

  -- From any state in which `Stop` has closed `quit`, in which the channel of batches can hold one if
  -- there are workers, and in which nothing is left to gather if the batch worker has returned: the
  -- goroutines can go on without a producer until the batch worker has returned, nothing is pending,
  -- and every entry that was pending is written, as often as it was there and beside what was
  -- written before.
  pub stop-drains :
      (p : Pipeline E)
      → IsStopping p
      → (q : Pipeline E) × Run fails p [] [] q
        × IsDrained q
        × ((t : E → Bool) → tally t q.finished ≡ tally t (stream p))
  stop-drains p s =
      let (q, r, d) = drains_within (measure p) p Run.here s (omega arith) in
      (q, r, d, λ t. all_written q r d t)
    where
      all_written :
          (q : Pipeline E)
          → Run fails p [] [] q
          → IsDrained q
          → (t : E → Bool) → tally t q.finished ≡ tally t (stream p)
      all_written q r d t = omega (
        arith,
        tally-stream-Run fails t r,
        tally-append t q.finished (pending q),
        ap (tally t) d.nothing_pending,
      )
