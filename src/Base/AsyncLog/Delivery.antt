-- ===== src/Base/AsyncLog/Delivery.antt =====
-- A line that passes the level of an asynchronous logger is queued or written.
use obs_brutal.Prelude.{
  ℕ, ◌+◌, ◌≡◌, refl, sym, ◌∙◌, subst, ◌⊎◌, inl, inr, Bool, true, false, Option, none, some, List,
  [], ◌∷◌, ◌++◌, map, append_assoc, append-nil, if◌then◌else◌, length,
}
use obs_brutal.Base.Pipeline.{Pipeline, Fails, Interference, Waiting, write_sinks, write_sync}
use obs_brutal.Base.Pipeline.Producer.{Outcome, Written, write_async-Outcome}
use obs_brutal.Base.Unified.Logging.{live}
use obs_brutal.Base.AsyncLog.{fall_back, deliver}

module _ {E : Type 0} (fails : Fails E) where
  write_sinks_log :
      (ss : List (Option ℕ)) (x : E) (w : List (ℕ × E)) (n : ℕ)
      → (write_sinks fails ss x w n).0 ≡ w ++ map (λ s. (s, x)) (live ss)
  unfolding write_sinks
  write_sinks_log [] x w n = sym (append-nil w)
  write_sinks_log (none ∷ ss) x w n = write_sinks_log ss x w n
  write_sinks_log (some s ∷ ss) x w n =
      write_sinks_log ss x (w ++ (s, x) ∷ []) (if fails s (length w) x then n + 1 else n)
      ∙ append_assoc w ((s, x) ∷ []) (map (λ r. (r, x)) (live ss))

  -- The caller itself has written the entry to every sink that is not nil, in their order, and
  -- changed nothing else but the count of errors.
  abbrev pub WrittenBy : E → Pipeline E → Pipeline E → Type 0
  WrittenBy x p q =
      (q.direct ≡ p.direct ++ map (λ s. (s, x)) (live p.sinks))
      × (q ≡ record p { direct = q.direct; errors = q.errors })

  write_sync-WrittenBy : (x : E) (p : Pipeline E) → WrittenBy x p (write_sync fails x p)
  unfolding write_sync
  write_sync-WrittenBy x p = (write_sinks_log p.sinks x p.direct p.errors, refl)

module _ {E : Type 0} (fails : Fails E) (after_test : Interference E) (i : Waiting E)
    (j : Interference E) where
  -- What becomes of an entry that a logger hands to the pipeline: accepted by one end of `WriteAsync`,
  -- or refused by one and then written by the caller, from the state that `WriteAsync` left.
  abbrev pub Delivered : E → Pipeline E → Pipeline E → Type 0
  Delivered x p q =
      ((p.stopped ≡ false) × Written i j x (after_test p) (after_test p).policy q true)
      ⊎ ((p.stopped ≡ true) × WrittenBy fails x p q)
      ⊎ ((p.stopped ≡ false)
          × ((r : Pipeline E) × Written i j x (after_test p) (after_test p).policy r false
              × WrittenBy fails x r q))

  fall_back-Delivered :
      (x : E) (p : Pipeline E) (o : Pipeline E × Bool)
      → Outcome after_test i j x p o
      → Delivered x p (fall_back fails after_test i j x o)
  unfolding fall_back
  fall_back-Delivered x p (q, true) (inl (stopped_, same)) = absurd cc
  fall_back-Delivered x p (q, true) (inr o) = inl o
  fall_back-Delivered x p (q, false) (inl (stopped_, same)) = inr (
      inl (
        stopped_,
        subst (λ r. WrittenBy fails x p (write_sync fails x r.0)) (sym same)
            (write_sync-WrittenBy fails x p),
      ))
  fall_back-Delivered x p (q, false) (inr (open_, w)) =
      inr (inr (open_, (q, w, write_sync-WrittenBy fails x q)))

  -- Under every policy and every interference of other goroutines, an entry that a logger hands to a
  -- pipeline is appended to the queue by one of the ends of `WriteAsync` that accept it, or the caller
  -- writes it to every sink that is not nil, from the state in which `WriteAsync` left the pipeline:
  -- untouched where it was stopped, and else by one of the ends that refuse the entry and count it as
  -- dropped.
  pub deliver-Delivered :
      (x : E) (p : Pipeline E) → Delivered x p (deliver fails after_test i j x p)
  unfolding deliver
  deliver-Delivered x p = fall_back-Delivered x p _ (write_async-Outcome after_test i j x p)
