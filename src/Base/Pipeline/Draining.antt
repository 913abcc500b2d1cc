-- ===== src/Base/Pipeline/Draining.antt =====
-- A pipeline that is stopping, and how far it is from its end.
use obs_brutal.Prelude.{
  ℕ, ◌+◌, ◌*◌, ◌≤◌, ◌<◌, ◌≡◌, refl, ◌≢◌, true, List, [], ◌∷◌, ◌++◌, arith, length,
}
use obs_brutal.Base.Pipeline.{
  Pipeline, Phase, running, flushing, leaving, returned, is_flushing, after_flush,
}
use obs_brutal.Base.Pipeline.Schedule.{pending}

-- A pipeline in which `Stop` has closed `quit`: `batch_chan` has room for a batch if there are
-- workers to take it, and nothing is left to receive once the batch worker is in its last flush, and
-- nothing to flush once it has returned.
pub record IsStopping {E : Type 0} (p : Pipeline E) : Type 0 where
  pub quit_closed : p.stopped ≡ true
  pub room : p.worker_count ≢ 0 → 0 < p.chan_cap
  pub none_sent : p.worker_count ≡ 0 → p.batch_chan ≡ []
  pub received : p.phase ≡ leaving → p.log_chan ≡ []
  pub gathered : p.phase ≡ returned → (p.batch ≡ []) × (p.log_chan ≡ [])

pub record IsDrained {E : Type 0} (p : Pipeline E) : Type 0 where
  pub worker_returned : p.phase ≡ returned
  pub nothing_pending : pending p ≡ []

-- What a list of batches still costs, with `k` for each batch and `j` for each of its entries.
abbrev pub weigh : {E : Type 0} → ℕ → ℕ → List (List E) → ℕ
weigh k j [] = 0
weigh k j (xs ∷ xss) = k + j * length xs + weigh k j xss

abbrev pub phase_weight : Phase → ℕ
phase_weight running = 5
phase_weight flushing = 9
phase_weight leaving = 4
phase_weight returned = 0

-- The steps that the goroutines can still make are at most this many.
unfoldable pub measure : {E : Type 0} → Pipeline E → ℕ
measure p =
    7 * length p.log_chan
    + 2 * length p.batch
    + weigh 3 2 p.batch_chan
    + weigh 1 1 p.busy
    + phase_weight p.phase

pub weigh-append :
    {E : Type 0} (k j : ℕ) (xss yss : List (List E))
    → weigh k j (xss ++ yss) ≡ weigh k j xss + weigh k j yss
weigh-append k j [] yss = omega arith
weigh-append k j (xs ∷ xss) yss = omega (arith, weigh-append k j xss yss)

-- A flush leads back to the loop of the batch worker, or to its end where it was the last one.
pub phase_weight-after_flush :
    (ph : Phase) → is_flushing ph ≡ true → phase_weight (after_flush ph) + 4 ≤ phase_weight ph
unfolding is_flushing after_flush
phase_weight-after_flush running f = cc
phase_weight-after_flush flushing f = omega arith
phase_weight-after_flush leaving f = omega arith
phase_weight-after_flush returned f = cc

pub after_flush_returned :
    (ph : Phase) → is_flushing ph ≡ true → after_flush ph ≡ returned → ph ≡ leaving
unfolding is_flushing after_flush
after_flush_returned running f e = cc
after_flush_returned flushing f e = cc
after_flush_returned leaving f e = refl
after_flush_returned returned f e = cc

pub after_flush_leaves : (ph : Phase) → after_flush ph ≢ leaving
unfolding after_flush
after_flush_leaves running e = cc
after_flush_leaves flushing e = cc
after_flush_leaves leaving e = cc
after_flush_leaves returned e = cc
