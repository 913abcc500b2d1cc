-- ===== src/Base/Pipeline/Bounds.antt =====
-- The capacities of the pipeline's channels, the sizes of its batches, and how much it can hold.
use obs_brutal.Prelude.{
  ℕ, ◌+◌, ◌*◌, ◌≤◌, ◌<◌, max, ◌≡◌, refl, sym, ap, ◌∙◌, subst, ◌≢◌, inl, inr, true, false, Option,
  List, [], ◌∷◌, ◌++◌, arith, leb, Bool-cases, length, is_empty, concat, All, length-append,
  length-snoc, All-append,
}
use obs_brutal.Base.Pipeline.{
  Pipeline, Phase, running, flushing, leaving, returned, is_flushing, after_flush, Fails,
  new_pipeline, write_sync, write_one, collect, tick, finish_drain, count_drop, set_policy,
  send_batch, write_inline, end_inline,
}
use obs_brutal.Base.Pipeline.Schedule.{returned-not_flushing, Step, Run, Effect, pending}

-- A batch that is sent on has an entry, and at most `batch_size` of them, but one if that is 0.
abbrev pub IsSized : {E : Type 0} → ℕ → List E → Type 0
IsSized n xs = (1 ≤ length xs) × (length xs ≤ max 1 n)

-- The batch of the worker is short of full while it receives, and is not empty when it is sent.
pub record IsOpen {E : Type 0} (n w : ℕ) (ph : Phase) (batch : List E) : Type 0 where
  pub fits : length batch ≤ max 1 n
  pub short : ph ≡ running → length batch < max 1 n
  pub filled : w ≢ 0 → is_flushing ph ≡ true → 1 ≤ length batch

abbrev pub AreSized : {E : Type 0} → ℕ → ℕ → (List E → Type 0) → List (List E) → Type 0
AreSized n most P xss = (length xss ≤ most) × All P xss

pub record Limits {E : Type 0} (n w log_cap chan_cap batch_size worker_count : ℕ) (ph : Phase)
    (log_chan batch : List E) (chan busy : List (List E)) : Type 0 where
  pub caps : (log_cap ≡ n * 4) × (chan_cap ≡ w * 2) × (batch_size ≡ n) × (worker_count ≡ w)
  pub queue : length log_chan ≤ n * 4
  pub open_batch : IsOpen n w ph batch
  pub sent : AreSized n (w * 2) (IsSized n) chan
  pub in_hand : AreSized n w (λ xs. length xs ≤ max 1 n) busy

-- The pipeline was made for batches of `n` and `w` workers, and is within its limits.
abbrev pub IsBounded : {E : Type 0} → ℕ → ℕ → Pipeline E → Type 0
IsBounded n w p =
    Limits n w p.log_cap p.chan_cap p.batch_size p.worker_count p.phase p.log_chan p.batch
      p.batch_chan p.busy

module _ {E : Type 0} (n w : ℕ) where
  after_flush_running : (ph : Phase) → IsOpen {E = E} n w (after_flush ph) []
  unfolding after_flush is_flushing
  after_flush_running running = record {
    fits = omega arith;
    short = λ e. omega arith;
    filled = λ z f. cc;
  }
  after_flush_running flushing = record {
    fits = omega arith;
    short = λ e. omega arith;
    filled = λ z f. cc;
  }
  after_flush_running leaving = record {
    fits = omega arith;
    short = λ e. omega arith;
    filled = λ z f. cc;
  }
  after_flush_running returned = record {
    fits = omega arith;
    short = λ e. omega arith;
    filled = λ z f. cc;
  }

  -- A batch with something in it that is being flushed.
  flushing_IsOpen :
      (ph : Phase) (batch : List E)
      → is_empty batch ≡ false
      → length batch ≤ max 1 n
      → (ph ≡ running → ⊥)
      → IsOpen n w ph batch
  flushing_IsOpen ph [] h k r = cc
  flushing_IsOpen ph (x ∷ xs) h k r = record {
    fits = k;
    short = λ e. absurd (r e);
    filled = λ z f. omega arith;
  }

  collect-IsBounded :
      (x : E) (rest : List E) (p : Pipeline E)
      → IsBounded n w p
      → p.phase ≡ running
      → p.log_chan ≡ x ∷ rest
      → IsBounded n w (collect x (record p { log_chan = rest }))
  unfolding collect
  collect-IsBounded x rest p b ph h = record {
    caps = b.caps;
    queue = omega (arith, b.queue, ap length h);
    open_batch = elim (Bool-cases (leb p.batch_size (length (p.batch ++ x ∷ [])))) [
      | inl full ↦ rw full (record {
        fits = omega (arith, b.open_batch.short ph, length-snoc p.batch x);
        short = λ e. absurd cc;
        filled = λ z f. omega (arith, length-snoc p.batch x);
      })
      | inr room ↦ rw room (record {
        fits = omega (arith, b.open_batch.short ph, length-snoc p.batch x);
        short = λ e. ground (arith, length-snoc p.batch x, b.caps);
        filled = λ z f. omega (arith, length-snoc p.batch x);
      })
    ];
    sent = b.sent;
    in_hand = b.in_hand;
  }

  tick-IsBounded : (p : Pipeline E) → IsBounded n w p → IsBounded n w (tick p)
  unfolding tick
  tick-IsBounded p b = elim (Bool-cases (is_empty p.batch)) [
    | inl none_ ↦ rw none_ b
    | inr some_ ↦ rw some_ (record {
      caps = b.caps;
      queue = b.queue;
      open_batch = flushing_IsOpen flushing p.batch some_ b.open_batch.fits (λ e. cc);
      sent = b.sent;
      in_hand = b.in_hand;
    })
  ]

  finish_drain-IsBounded : (p : Pipeline E) → IsBounded n w p → IsBounded n w (finish_drain p)
  unfolding finish_drain
  finish_drain-IsBounded p b = elim (Bool-cases (is_empty p.batch)) [
    | inl none_ ↦ rw none_ (record {
      caps = b.caps;
      queue = b.queue;
      open_batch = record {
        fits = b.open_batch.fits;
        short = λ e. absurd cc;
        filled = λ z f. absurd (returned-not_flushing refl f);
      };
      sent = b.sent;
      in_hand = b.in_hand;
    })
    | inr some_ ↦ rw some_ (record {
      caps = b.caps;
      queue = b.queue;
      open_batch = flushing_IsOpen leaving p.batch some_ b.open_batch.fits (λ e. cc);
      sent = b.sent;
      in_hand = b.in_hand;
    })
  ]

  send_batch-IsBounded :
      (p : Pipeline E)
      → IsBounded n w p
      → is_flushing p.phase ≡ true
      → p.worker_count ≢ 0
      → length p.batch_chan < p.chan_cap
      → IsBounded n w (send_batch p)
  unfolding send_batch
  send_batch-IsBounded p b f z room = record {
    caps = b.caps;
    queue = b.queue;
    open_batch = after_flush_running p.phase;
    sent = (
      omega (arith, length-snoc p.batch_chan p.batch, b.caps.1),
      All-append (IsSized n) p.batch_chan (p.batch ∷ []) b.sent.1
          ((b.open_batch.filled (λ e. z (b.caps.3 ∙ e)) f, b.open_batch.fits), tt),
    );
    in_hand = b.in_hand;
  }

-- A worker that has written an entry of its batch, and one that is done with it.
All-shorter :
    {E : Type 0} (m : ℕ) (before : List (List E)) (x : E) (xs : List E) (after : List (List E))
    → All (λ ys. length ys ≤ m) (before ++ (x ∷ xs) ∷ after)
    → All (λ ys. length ys ≤ m) (before ++ xs ∷ after)
All-shorter m [] x xs after h = (omega (arith, h.0), h.1)
All-shorter m (ys ∷ before) x xs after h = (h.0, All-shorter m before x xs after h.1)

All-without :
    {E : Type 0} (m : ℕ) (before after : List (List E))
    → All (λ ys. length ys ≤ m) (before ++ [] ∷ after)
    → All (λ ys. length ys ≤ m) (before ++ after)
All-without m [] after h = h.1
All-without m (ys ∷ before) after h = (h.0, All-without m before after h.1)

length-concat-le :
    {E : Type 0} (m : ℕ) (xss : List (List E))
    → All (λ xs. length xs ≤ m) xss
    → length (concat xss) ≤ length xss * m
length-concat-le m [] h = omega arith
length-concat-le m (xs ∷ xss) h =
    grind (arith, length-concat-le m xss h.1, length-append xs (concat xss), h.0)

within :
    {E : Type 0} (m k : ℕ) (xss : List (List E))
    → length xss ≤ k
    → All (λ xs. length xs ≤ m) xss
    → length (concat xss) ≤ k * m
within m k xss h a = grind (arith, length-concat-le m xss a, h)

module _ {E : Type 0} (fails : Fails E) (n w : ℕ) where
  Step-IsBounded :
      {p q : Pipeline E} {f : Effect E} → Step fails p q f → IsBounded n w p → IsBounded n w q
  unfolding count_drop set_policy write_sync write_one write_inline end_inline
  Step-IsBounded {p} (Step.enqueue x room e) b = rw e (record {
    caps = b.caps;
    queue = omega (arith, length-snoc p.log_chan x, b.caps.0);
    open_batch = b.open_batch;
    sent = b.sent;
    in_hand = b.in_hand;
  })
  Step-IsBounded {p} (Step.evict x rest h e) b = rw e (record {
    caps = b.caps;
    queue = omega (arith, b.queue, ap length h);
    open_batch = b.open_batch;
    sent = b.sent;
    in_hand = b.in_hand;
  })
  Step-IsBounded (Step.refuse e) b = rw e b
  Step-IsBounded (Step.direct x e) b = rw e b
  Step-IsBounded (Step.configure policy e) b = rw e b
  Step-IsBounded {p} (Step.gather x rest ph h e) b = rw e (collect-IsBounded n w x rest p b ph h)
  Step-IsBounded {p} (Step.ticks ph e) b = rw e (tick-IsBounded n w p b)
  Step-IsBounded {p} (Step.drained ph s h e) b = rw e (finish_drain-IsBounded n w p b)
  Step-IsBounded {p} (Step.sends f z room e) b = rw e (send_batch-IsBounded n w p b f z room)
  Step-IsBounded {p} (Step.writes_inline x xs f z h e) b = rw e (record {
    caps = b.caps;
    queue = b.queue;
    open_batch = record {
      fits = omega (arith, b.open_batch.fits, ap length h);
      short = λ r. omega (arith, b.open_batch.fits, ap length h);
      filled = λ some_. absurd (some_ (sym b.caps.3 ∙ z));
    };
    sent = b.sent;
    in_hand = b.in_hand;
  })
  Step-IsBounded {p} (Step.ends_inline f z h e) b = rw e (record {
    caps = b.caps;
    queue = b.queue;
    open_batch = subst (IsOpen n w (after_flush p.phase)) (sym h) (after_flush_running n w p.phase);
    sent = b.sent;
    in_hand = b.in_hand;
  })
  Step-IsBounded {p} (Step.take_batch xs rest room h e) b =
      let sized = subst (All (IsSized n)) h b.sent.1 in
      rw e (record {
        caps = b.caps;
        queue = b.queue;
        open_batch = b.open_batch;
        sent = (omega (arith, b.sent.0, ap length h), sized.1);
        in_hand = (
          omega (arith, length-snoc p.busy xs, b.caps.3),
          All-append (λ ys. length ys ≤ max 1 n) p.busy (xs ∷ []) b.in_hand.1 (sized.0.1, tt),
        );
      })
  Step-IsBounded {p} (Step.write_next before after x xs h e) b = rw e (record {
    caps = b.caps;
    queue = b.queue;
    open_batch = b.open_batch;
    sent = b.sent;
    in_hand = (
      omega (
        arith,
        b.in_hand.0,
        ap length h,
        length-append before ((x ∷ xs) ∷ after),
        length-append before (xs ∷ after),
      ),
      All-shorter (max 1 n) before x xs after
          (subst (All (λ ys. length ys ≤ max 1 n)) h b.in_hand.1),
    );
  })
  Step-IsBounded {p} (Step.batch_done before after h e) b = rw e (record {
    caps = b.caps;
    queue = b.queue;
    open_batch = b.open_batch;
    sent = b.sent;
    in_hand = (
      omega (
        arith,
        b.in_hand.0,
        ap length h,
        length-append before ([] ∷ after),
        length-append before after,
      ),
      All-without (max 1 n) before after (subst (All (λ ys. length ys ≤ max 1 n)) h b.in_hand.1),
    );
  })
  Step-IsBounded (Step.stop e) b = rw e b
  Step-IsBounded (Step.close ph e) b = rw e b

  Run-IsBounded :
      {p : Pipeline E} {acc ev : List E} {q : Pipeline E}
      → Run fails p acc ev q
      → IsBounded n w p
      → IsBounded n w q
  Run-IsBounded Run.here b = b
  Run-IsBounded (Run.then_accept x r st) b = Step-IsBounded st (Run-IsBounded r b)
  Run-IsBounded (Run.then_evict x r st) b = Step-IsBounded st (Run-IsBounded r b)
  Run-IsBounded (Run.then_internal r st) b = Step-IsBounded st (Run-IsBounded r b)

  new_pipeline-IsBounded :
      (sinks : List (Option ℕ)) → IsBounded n w (new_pipeline {E = E} n w sinks)
  unfolding new_pipeline is_flushing
  new_pipeline-IsBounded sinks = record {
    caps = (refl, refl, refl, refl);
    queue = omega arith;
    open_batch = record { fits = omega arith; short = λ e. omega arith; filled = λ z f. cc };
    sent = (omega arith, tt);
    in_hand = (omega arith, tt);
  }

  length-pending :
      (p : Pipeline E)
      → IsBounded n w p
      → length (pending p) ≤ w * max 1 n + w * 2 * max 1 n + max 1 n + n * 4
  length-pending p b = omega (
    arith,
    b.queue,
    b.open_batch.fits,
    within (max 1 n) w p.busy b.in_hand.0 b.in_hand.1,
    within (max 1 n) (w * 2) p.batch_chan b.sent.0 (each_fits p.batch_chan b.sent.1),
    length-append (concat p.busy ++ concat p.batch_chan ++ p.batch) p.log_chan,
    length-append (concat p.busy ++ concat p.batch_chan) p.batch,
    length-append (concat p.busy) (concat p.batch_chan),
  )
    where
      each_fits : (xss : List (List E)) → All (IsSized n) xss → All (λ xs. length xs ≤ max 1 n) xss
      each_fits [] h = tt
      each_fits (xs ∷ xss) h = (h.0.1, each_fits xss h.1)

  -- In every schedule of a pipeline that was made for batches of `n` and `w` sink workers: the queue
  -- holds at most `4 n` entries, the channel of batches at most `2 w` batches and the workers at most
  -- `w`, each batch that was sent has an entry and none has more than `n` (a size of 0 counts as 1),
  -- the batch worker receives only while its batch is short of that, and all that was accepted and is
  -- neither written nor evicted is within the sum of these.
  pub new_pipeline-pending :
      (sinks : List (Option ℕ)) {acc ev : List E} {q : Pipeline E}
      → Run fails (new_pipeline n w sinks) acc ev q
      → IsBounded n w q × (length (pending q) ≤ w * max 1 n + w * 2 * max 1 n + max 1 n + n * 4)
  new_pipeline-pending sinks {q} r =
      let b = Run-IsBounded r (new_pipeline-IsBounded sinks) in (b, length-pending q b)
