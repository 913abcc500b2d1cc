-- ===== src/Base/Pipeline/Accounting.antt =====
-- No schedule of the pipeline loses an entry or makes one up.
use obs_brutal.Prelude.{
  ℕ, ◌+◌, ◌≡◌, refl, ap, Bool, List, [], ◌∷◌, ◌++◌, arith, concat, tally, tally-append,
  tally-concat-append,
}
use obs_brutal.Base.Pipeline.{
  Pipeline, Fails, write_sync, write_one, collect, tick, finish_drain, count_drop, set_policy,
  send_batch, write_inline, end_inline,
}
use obs_brutal.Base.Pipeline.Schedule.{Step, Run, Effect, accepts, evicts, internal, stream}
use obs_brutal.Base.Pipeline.Schedule

module _ {E : Type 0} (fails : Fails E) (t : E → Bool) where
  -- The parts of the stream, counted one by one.
  abbrev parts : Pipeline E → ℕ
  parts p =
      tally t p.finished
      + tally t (concat p.busy)
      + tally t (concat p.batch_chan)
      + tally t p.batch
      + tally t p.log_chan

  stream-parts : (p : Pipeline E) → tally t (stream p) ≡ parts p
  stream-parts p = omega (
    arith,
    tally-append t p.finished (concat p.busy ++ concat p.batch_chan ++ p.batch ++ p.log_chan),
    tally-append t (concat p.busy ++ concat p.batch_chan ++ p.batch) p.log_chan,
    tally-append t (concat p.busy ++ concat p.batch_chan) p.batch,
    tally-append t (concat p.busy) (concat p.batch_chan),
  )

  parts-send_batch : (p : Pipeline E) → parts (send_batch p) ≡ parts p
  unfolding send_batch
  parts-send_batch p =
      omega (arith, tally-concat-append t p.batch_chan (p.batch ∷ []), tally-append t p.batch [])

  -- What an effect adds and takes away.
  abbrev gained : Effect E → ℕ
  gained (accepts x) = tally t (x ∷ [])
  gained (evicts x) = 0
  gained internal = 0

  abbrev lost : Effect E → ℕ
  lost (accepts x) = 0
  lost (evicts x) = tally t (x ∷ [])
  lost internal = 0

  parts-Step :
      {p q : Pipeline E} {f : Effect E} → Step fails p q f → parts q + lost f ≡ parts p + gained f
  unfolding count_drop set_policy write_sync write_one write_inline end_inline collect tick
      finish_drain
  parts-Step {p} (Schedule.Step.enqueue x room e) =
      rw e (omega (arith, tally-append t p.log_chan (x ∷ [])))
  parts-Step {p} (Schedule.Step.evict x rest h e) = rw e (omega (arith, ap (tally t) h))
  parts-Step (Schedule.Step.refuse e) = rw e (omega arith)
  parts-Step (Schedule.Step.direct x e) = rw e (omega arith)
  parts-Step (Schedule.Step.configure policy e) = rw e (omega arith)
  parts-Step {p} (Schedule.Step.gather x rest ph h e) =
      rw e (omega (arith, tally-append t p.batch (x ∷ []), ap (tally t) h))
  parts-Step {p} (Schedule.Step.ticks ph e) = rw e (ground arith)
  parts-Step {p} (Schedule.Step.drained ph s h e) = rw e (omega arith)
  parts-Step {p} (Schedule.Step.sends f w room e) = rw e (omega (arith, parts-send_batch p))
  parts-Step {p} (Schedule.Step.writes_inline x xs f w h e) =
      rw e (omega (arith, tally-append t p.finished (x ∷ []), ap (tally t) h))
  parts-Step {p} (Schedule.Step.ends_inline f w h e) = rw e (omega arith)
  parts-Step {p} (Schedule.Step.take_batch xs rest room h e) = rw e (
      omega (
        arith,
        tally-concat-append t p.busy (xs ∷ []),
        tally-append t xs (concat rest),
        tally-append t xs [],
        ap (λ b. tally t (concat b)) h,
      ))
  parts-Step {p} (Schedule.Step.write_next before after x xs h e) = rw e (
      omega (
        arith,
        ap (λ b. tally t (concat b)) h,
        tally-concat-append t before ((x ∷ xs) ∷ after),
        tally-concat-append t before (xs ∷ after),
        tally-append t (x ∷ xs) (concat after),
        tally-append t xs (concat after),
        tally-append t p.finished (x ∷ []),
      ))
  parts-Step (Schedule.Step.batch_done before after h e) = rw e (
      omega (
        arith,
        ap (λ b. tally t (concat b)) h,
        tally-concat-append t before ([] ∷ after),
        tally-concat-append t before after,
      ))
  parts-Step (Schedule.Step.stop e) = rw e (omega arith)
  parts-Step (Schedule.Step.close ph e) = rw e (omega arith)

  parts-Run :
      {p : Pipeline E} {acc ev : List E} {q : Pipeline E}
      → Run fails p acc ev q
      → parts q + tally t ev ≡ parts p + tally t acc
  parts-Run Run.here = refl
  parts-Run (Run.then_accept {acc} x r s) =
      omega (arith, parts-Run r, parts-Step s, tally-append t acc (x ∷ []))
  parts-Run (Run.then_evict {ev} x r s) =
      omega (arith, parts-Run r, parts-Step s, tally-append t ev (x ∷ []))
  parts-Run (Run.then_internal r s) = omega (arith, parts-Run r, parts-Step s)

  -- Whatever the goroutines do and in whatever order: what was written together with what is still
  -- in the pipeline and what `DropOldest` evicted is what there was before together with what was
  -- accepted, every entry as often. (The entries are counted by an arbitrary test.)
  pub tally-stream-Run :
      {p : Pipeline E} {acc ev : List E} {q : Pipeline E}
      → Run fails p acc ev q
      → tally t (stream q) + tally t ev ≡ tally t (stream p) + tally t acc
  tally-stream-Run {p} {q} r = omega (arith, parts-Run r, stream-parts p, stream-parts q)
