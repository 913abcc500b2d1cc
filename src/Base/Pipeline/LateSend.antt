-- ===== src/Base/Pipeline/LateSend.antt =====
-- A producer that has passed the test of `stopped` when `Stop` runs.
use obs_brutal.Prelude.{
  ◌<◌, ◌≡◌, refl, sym, ap, ◌∙◌, Bool, true, false, List, [], ◌∷◌, ◌++◌, append_assoc, append-nil,
  arith, length, snoc-ne-nil,
}
use obs_brutal.Base.Pipeline.{
  Pipeline, drop_latest, returned, running, Fails, Interference, Waiting, count_drop, send_or_drop,
  write_async, set_policy, write_sync, write_one,
}
use obs_brutal.Base.Pipeline.Schedule.{
  returned-not_flushing, Step, Run, Effect, accepts, evicts, internal,
}

distinct : returned ≡ running → ⊥
distinct h = cc

module _ {E : Type 0} (fails : Fails E) where
  abbrev sent_by : Effect E → List E
  sent_by (accepts x) = x ∷ []
  sent_by (evicts x) = []
  sent_by internal = []

  abbrev Stays : Pipeline E → Effect E → Pipeline E → Type 0
  Stays p (evicts x) q = Unit
  Stays p (accepts x) q = (q.phase ≡ returned) × (q.log_chan ≡ p.log_chan ++ x ∷ [])
  Stays p internal q = (q.phase ≡ returned) × (q.log_chan ≡ p.log_chan)

  -- Once the batch worker has returned nobody but `DropOldest` takes anything from the queue.
  Step-Stays :
      {p q : Pipeline E} {f : Effect E} → Step fails p q f → p.phase ≡ returned → Stays p f q
  unfolding count_drop set_policy write_sync write_one
  Step-Stays (Step.enqueue x room e) ph = rw e (ph, refl)
  Step-Stays (Step.evict x rest h e) ph = tt
  Step-Stays (Step.refuse e) ph = rw e (ph, refl)
  Step-Stays (Step.direct x e) ph = rw e (ph, refl)
  Step-Stays (Step.configure policy e) ph = rw e (ph, refl)
  Step-Stays (Step.gather x rest h l e) ph = absurd (distinct (sym ph ∙ h))
  Step-Stays (Step.ticks h e) ph = absurd (distinct (sym ph ∙ h))
  Step-Stays (Step.drained h s l e) ph = absurd (distinct (sym ph ∙ h))
  Step-Stays (Step.sends f w room e) ph = absurd (returned-not_flushing ph f)
  Step-Stays (Step.writes_inline x xs f w h e) ph = absurd (returned-not_flushing ph f)
  Step-Stays (Step.ends_inline f w h e) ph = absurd (returned-not_flushing ph f)
  Step-Stays (Step.take_batch xs rest room h e) ph = rw e (ph, refl)
  Step-Stays (Step.write_next before after x xs h e) ph = rw e (ph, refl)
  Step-Stays (Step.batch_done before after h e) ph = rw e (ph, refl)
  Step-Stays (Step.stop e) ph = rw e (ph, refl)
  Step-Stays (Step.close h e) ph = rw e (ph, refl)

  Run-Stays :
      {p : Pipeline E} {acc ev : List E} {q : Pipeline E}
      → Run fails p acc ev q
      → ev ≡ []
      → p.phase ≡ returned
      → (q.phase ≡ returned) × (q.log_chan ≡ p.log_chan ++ acc)
  Run-Stays {p} Run.here n ph = (ph, sym (append-nil p.log_chan))
  Run-Stays {p} (Run.then_accept {acc} x r st) n ph =
      let (i, l) = Run-Stays r n ph in
      let (j, m) = Step-Stays st i in
      (j, m ∙ ap (λ q. q ++ x ∷ []) l ∙ append_assoc p.log_chan acc (x ∷ []))
  Run-Stays (Run.then_evict {ev} x r st) n ph = absurd (snoc-ne-nil ev x n)
  Run-Stays (Run.then_internal r st) n ph =
      let (i, l) = Run-Stays r n ph in let (j, m) = Step-Stays st i in (j, m ∙ l)

  -- Where a producer passes the test of `stopped`, and the pipeline stops and its batch worker
  -- returns before the send, under the policy `DropLatest` and with room in the queue: `WriteAsync`
  -- answers true, and in every schedule that follows without evictions the entry stays in the queue.
  pub write_async-never_written :
      (i : Waiting E) (j : Interference E) (x : E) (p stopped_ : Pipeline E) (acc : List E)
      (r : Pipeline E)
      → p.stopped ≡ false
      → stopped_.phase ≡ returned
      → stopped_.policy ≡ drop_latest
      → length stopped_.log_chan < stopped_.log_cap
      → Run fails (write_async (λ _. stopped_) i j x p).0 acc [] r
      → ((write_async (λ _. stopped_) i j x p).1 ≡ true)
        × (r.log_chan ≡ stopped_.log_chan ++ (x ∷ []) ++ acc)
  unfolding write_async send_or_drop
  write_async-never_written i j x p stopped_ acc r open_ ph pol room run =
      let sends : write_async (λ _. stopped_) i j x p
          ≡ (record stopped_ { log_chan = stopped_.log_chan ++ x ∷ [] }, true) =
        ground arith in
      (
        ap (λ o. o.1) sends,
        (Run-Stays run refl (ap (λ (o : Pipeline E × Bool). o.0.phase) sends ∙ ph)).1
            ∙ ap (λ (o : Pipeline E × Bool). o.0.log_chan ++ acc) sends,
      )
