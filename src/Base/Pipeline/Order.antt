-- ===== src/Base/Pipeline/Order.antt =====
-- With one sink worker, or with none, the pipeline writes in the order in which it accepted.
use obs_brutal.Prelude.{
  ◌≤◌, ◌<◌, ◌≡◌, refl, sym, ap, ◌∙◌, inl, inr, Bool, true, false, List, [], ◌∷◌, ◌++◌, append_assoc,
  append-nil, arith, Bool-cases, length, is_empty, length-append, length-snoc, snoc-ne-nil,
  concat-append,
}
use obs_brutal.Base.Pipeline.{
  Pipeline, Fails, write_sync, write_one, collect, tick, finish_drain, count_drop, set_policy,
  send_batch, write_inline, end_inline,
}
use obs_brutal.Base.Pipeline.Schedule.{Step, Run, Effect, accepts, evicts, internal, stream}
use obs_brutal.Base.Pipeline.Serial.{
  IsSerial, empty_of_length, singleton_sides, stream-send_batch, stream-collect,
}

module _ {E : Type 0} (fails : Fails E) where
  -- What an accepted entry adds to the stream; a run that evicts is not looked at.
  abbrev added : Effect E → List E
  added (accepts x) = x ∷ []
  added (evicts x) = []
  added internal = []

  abbrev Ordered : Pipeline E → Effect E → Pipeline E → Type 0
  Ordered p f q = IsSerial q × (stream q ≡ stream p ++ added f)

  take_batch-Ordered :
      (p : Pipeline E) (xs : List E) (rest : List (List E))
      → IsSerial p
      → length p.busy < p.worker_count
      → p.batch_chan ≡ xs ∷ rest
      → Ordered p internal (record p { batch_chan = rest; busy = p.busy ++ xs ∷ [] })
  take_batch-Ordered p xs rest s room h =
      let idle = empty_of_length p.busy (omega (arith, s.one_worker)) in
      (
        record {
          one_worker = s.one_worker;
          one_batch = omega (arith, length-snoc p.busy xs);
          none_sent = λ z. absurd (omega arith);
        },
        simp (idle, h, append-nil, append_assoc),
      )

  write_next-Ordered :
      (p : Pipeline E) (before after : List (List E)) (x : E) (xs : List E)
      → IsSerial p
      → p.busy ≡ before ++ (x ∷ xs) ∷ after
      → Ordered p internal (write_one fails x (record p { busy = before ++ xs ∷ after }))
  unfolding write_one
  write_next-Ordered p before after x xs s h =
      let n : length (before ++ (x ∷ xs) ∷ after) ≤ 1 =
        omega (arith, s.one_batch, s.one_worker, ap length h) in
      let (b, a) = singleton_sides before (x ∷ xs) after n in
      (
        record {
          one_worker = s.one_worker;
          one_batch = omega (
            arith,
            s.one_batch,
            ap length h,
            length-append before ((x ∷ xs) ∷ after),
            length-append before (xs ∷ after),
          );
          none_sent = s.none_sent;
        },
        simp (h, b, a, append-nil, append_assoc),
      )

  batch_done-Ordered :
      (p : Pipeline E) (before after : List (List E))
      → IsSerial p
      → p.busy ≡ before ++ [] ∷ after
      → Ordered p internal (record p { busy = before ++ after })
  batch_done-Ordered p before after s h = (
    record {
      one_worker = s.one_worker;
      one_batch = omega (
        arith,
        s.one_batch,
        ap length h,
        length-append before ([] ∷ after),
        length-append before after,
      );
      none_sent = s.none_sent;
    },
    simp (h, concat-append, append-nil, append_assoc),
  )

  abbrev is_eviction : Effect E → Bool
  is_eviction (evicts x) = true
  is_eviction _ = false

  as_before : (p : Pipeline E) → IsSerial p → Ordered p internal p
  as_before p s = (s, sym (append-nil (stream p)))

  tick-Ordered : (p : Pipeline E) → IsSerial p → Ordered p internal (tick p)
  unfolding tick
  tick-Ordered p s = elim (Bool-cases (is_empty p.batch)) [
    | inl none_ ↦ rw none_ (as_before p s)
    | inr some_ ↦ rw some_ (
      record { one_worker = s.one_worker; one_batch = s.one_batch; none_sent = s.none_sent },
      sym (append-nil (stream p)),
    )
  ]

  -- A step that changes none of the parts of the stream.
  Step-Ordered :
      {p q : Pipeline E} {f : Effect E}
      → Step fails p q f
      → IsSerial p
      → is_eviction f ≡ false
      → Ordered p f q
  unfolding count_drop set_policy write_sync collect finish_drain send_batch write_inline write_one
      end_inline
  Step-Ordered {p} (Step.enqueue x room e) s n = rw e (
    record { one_worker = s.one_worker; one_batch = s.one_batch; none_sent = s.none_sent },
    simp append_assoc,
  )
  Step-Ordered (Step.evict x rest h e) s n = cc
  Step-Ordered {p} (Step.refuse e) s n = rw e (
    record { one_worker = s.one_worker; one_batch = s.one_batch; none_sent = s.none_sent },
    sym (append-nil (stream p)),
  )
  Step-Ordered {p} (Step.direct x e) s n = rw e (
    record { one_worker = s.one_worker; one_batch = s.one_batch; none_sent = s.none_sent },
    sym (append-nil (stream p)),
  )
  Step-Ordered {p} (Step.configure policy e) s n = rw e (
    record { one_worker = s.one_worker; one_batch = s.one_batch; none_sent = s.none_sent },
    sym (append-nil (stream p)),
  )
  Step-Ordered {p} (Step.gather x rest ph h e) s n = rw e (
    record { one_worker = s.one_worker; one_batch = s.one_batch; none_sent = s.none_sent },
    stream-collect x rest p h ∙ sym (append-nil (stream p)),
  )
  Step-Ordered {p} (Step.ticks ph e) s n = rw e (tick-Ordered p s)
  Step-Ordered {p} (Step.drained ph s' h e) s n = rw e (
    record { one_worker = s.one_worker; one_batch = s.one_batch; none_sent = s.none_sent },
    sym (append-nil (stream p)),
  )
  Step-Ordered {p} (Step.sends f w room e) s n = rw e (
    record { one_worker = s.one_worker; one_batch = s.one_batch; none_sent = λ z. absurd (w z) },
    stream-send_batch p ∙ sym (append-nil (stream p)),
  )
  Step-Ordered {p} (Step.writes_inline x xs f w h e) s n = rw e (
    record { one_worker = s.one_worker; one_batch = s.one_batch; none_sent = s.none_sent },
    simp (
      empty_of_length p.busy (omega (arith, s.one_batch)),
      s.none_sent w,
      h,
      append-nil,
      append_assoc,
    ),
  )
  Step-Ordered {p} (Step.ends_inline f w h e) s n = rw e (
    record { one_worker = s.one_worker; one_batch = s.one_batch; none_sent = s.none_sent },
    sym (append-nil (stream p)),
  )
  Step-Ordered {p} (Step.take_batch xs rest room h e) s n =
      rw e (take_batch-Ordered p xs rest s room h)
  Step-Ordered {p} (Step.write_next before after x xs h e) s n =
      rw e (write_next-Ordered p before after x xs s h)
  Step-Ordered {p} (Step.batch_done before after h e) s n =
      rw e (batch_done-Ordered p before after s h)
  Step-Ordered {p} (Step.stop e) s n = rw e (
    record { one_worker = s.one_worker; one_batch = s.one_batch; none_sent = s.none_sent },
    sym (append-nil (stream p)),
  )
  Step-Ordered {p} (Step.close ph e) s n = rw e (
    record { one_worker = s.one_worker; one_batch = s.one_batch; none_sent = s.none_sent },
    sym (append-nil (stream p)),
  )

  Run-Ordered :
      {p : Pipeline E} {acc ev : List E} {q : Pipeline E}
      → Run fails p acc ev q
      → ev ≡ []
      → IsSerial p
      → IsSerial q × (stream q ≡ stream p ++ acc)
  Run-Ordered {p} Run.here n s = (s, sym (append-nil (stream p)))
  Run-Ordered {p} (Run.then_accept {acc} x r st) n s =
      let (i, o) = Run-Ordered r n s in
      let (j, w) = Step-Ordered st i refl in
      (j, w ∙ ap (λ l. l ++ x ∷ []) o ∙ append_assoc (stream p) acc (x ∷ []))
  Run-Ordered (Run.then_evict {ev} x r st) n s = absurd (snoc-ne-nil ev x n)
  Run-Ordered {p} (Run.then_internal {acc} r st) n s =
      let (i, o) = Run-Ordered r n s in
      let (j, w) = Step-Ordered st i refl in (j, w ∙ append-nil _ ∙ o)

  -- With at most one sink worker, a schedule that evicts nothing keeps the order: what was written,
  -- followed by what is still in the pipeline, is what was there before followed by the accepted
  -- entries in the order in which they were accepted.
  pub stream-Run :
      {p : Pipeline E} {acc : List E} {q : Pipeline E}
      → IsSerial p
      → Run fails p acc [] q
      → stream q ≡ stream p ++ acc
  stream-Run s r = (Run-Ordered r refl s).1
