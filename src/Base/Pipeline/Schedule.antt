-- ===== src/Base/Pipeline/Schedule.antt =====
-- The interleavings of the pipeline's goroutines: one step is what one goroutine does at once.
use obs_brutal.Prelude.{
  ◌<◌, ◌≡◌, sym, ap, ◌∙◌, ◌≢◌, true, false, List, [], ◌∷◌, ◌++◌, length, concat,
}
use obs_brutal.Base.Pipeline.{
  Pipeline, Phase, running, returned, Policy, Fails, is_flushing, write_sync, write_one, collect,
  tick, finish_drain, count_drop, set_policy, send_batch, write_inline, end_inline,
}

module _ {E : Type 0} where
  -- What is in the pipeline and not yet written, the next to be written first.
  abbrev pub pending : Pipeline E → List E
  pending p = concat p.busy ++ concat p.batch_chan ++ p.batch ++ p.log_chan

  -- Everything that was written or is to be written.
  abbrev pub stream : Pipeline E → List E
  stream p = p.finished ++ pending p

pub returned-not_flushing : {ph : Phase} → ph ≡ returned → is_flushing ph ≡ true → ⊥
unfolding is_flushing
returned-not_flushing {ph} h f = distinct (sym (ap is_flushing h) ∙ f)
  where
    distinct : false ≡ true → ⊥
    distinct e = cc

-- What a step does as seen from outside: it accepts an entry, evicts one, or neither.
pub data Effect (E : Type 0) : Type 0 where
  accepts : E → Effect E
  evicts : E → Effect E
  internal : Effect E

-- The parameters `p` and `q` are the states before and after. The equations say what the step finds.
pub data Step {E : Type 0} (fails : Fails E) (p q : Pipeline E) : Effect E → Type 0 where
  -- a send to the queue, which has room
  enqueue :
      (x : E)
      → length p.log_chan < p.log_cap
      → q ≡ record p { log_chan = p.log_chan ++ x ∷ [] }
      → Step fails p q (accepts x)
  -- `DropOldest` receives the oldest entry and counts it as dropped
  evict :
      (x : E) (rest : List E)
      → p.log_chan ≡ x ∷ rest
      → q ≡ count_drop (record p { log_chan = rest })
      → Step fails p q (evicts x)
  -- an incoming entry is refused and counted
  refuse : q ≡ count_drop p → Step fails p q internal
  -- a caller writes its refused entry itself
  direct : (x : E) → q ≡ write_sync fails x p → Step fails p q internal
  configure : (policy : Policy) → q ≡ set_policy policy p → Step fails p q internal
  -- the batch worker receives an entry, in its loop or while it drains
  gather :
      (x : E) (rest : List E)
      → p.phase ≡ running
      → p.log_chan ≡ x ∷ rest
      → q ≡ collect x (record p { log_chan = rest })
      → Step fails p q internal
  ticks : p.phase ≡ running → q ≡ tick p → Step fails p q internal
  -- after `quit`, with nothing left to receive
  drained :
      p.phase ≡ running
      → p.stopped ≡ true
      → p.log_chan ≡ []
      → q ≡ finish_drain p
      → Step fails p q internal
  -- the send of `flushBatch`, which blocks until the channel of batches has room
  sends :
      is_flushing p.phase ≡ true
      → p.worker_count ≢ 0
      → length p.batch_chan < p.chan_cap
      → q ≡ send_batch p
      → Step fails p q internal
  -- without sink workers `flushBatch` writes the entries itself
  writes_inline :
      (x : E) (xs : List E)
      → is_flushing p.phase ≡ true
      → p.worker_count ≡ 0
      → p.batch ≡ x ∷ xs
      → q ≡ write_inline fails x xs p
      → Step fails p q internal
  ends_inline :
      is_flushing p.phase ≡ true
      → p.worker_count ≡ 0
      → p.batch ≡ []
      → q ≡ end_inline p
      → Step fails p q internal
  -- a sink worker that has no batch takes the next one
  take_batch :
      (xs : List E) (rest : List (List E))
      → length p.busy < p.worker_count
      → p.batch_chan ≡ xs ∷ rest
      → q ≡ record p { batch_chan = rest; busy = p.busy ++ xs ∷ [] }
      → Step fails p q internal
  -- a sink worker writes the next entry of its batch
  write_next :
      (before after : List (List E)) (x : E) (xs : List E)
      → p.busy ≡ before ++ (x ∷ xs) ∷ after
      → q ≡ write_one fails x (record p { busy = before ++ xs ∷ after })
      → Step fails p q internal
  -- a sink worker is done with its batch
  batch_done :
      (before after : List (List E))
      → p.busy ≡ before ++ [] ∷ after
      → q ≡ record p { busy = before ++ after }
      → Step fails p q internal
  -- `Stop`: the flag and `quit`, and later the close of `batchChan`
  stop : q ≡ record p { stopped = true } → Step fails p q internal
  close : p.phase ≡ returned → q ≡ record p { chan_closed = true } → Step fails p q internal

-- A schedule, with the entries that it accepts and those that it evicts, in order.
pub data Run {E : Type 0} (fails : Fails E) (p : Pipeline E)
    : List E → List E → Pipeline E → Type 0 where
  here : Run fails p [] [] p
  then_accept :
      {acc ev : List E} {q r : Pipeline E} (x : E)
      → Run fails p acc ev q
      → Step fails q r (accepts x)
      → Run fails p (acc ++ x ∷ []) ev r
  then_evict :
      {acc ev : List E} {q r : Pipeline E} (x : E)
      → Run fails p acc ev q
      → Step fails q r (evicts x)
      → Run fails p acc (ev ++ x ∷ []) r
  then_internal :
      {acc ev : List E} {q r : Pipeline E}
      → Run fails p acc ev q
      → Step fails q r internal
      → Run fails p acc ev r
