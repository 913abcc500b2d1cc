-- ===== src/Base/Pipeline/Serial.antt =====
-- A pipeline with one sink worker or none, and what the batch worker does to its order.
use obs_brutal.Prelude.{
  ◌≤◌, ◌≡◌, refl, List, [], ◌∷◌, ◌++◌, append_assoc, append-nil, arith, length, length-append,
  concat-append,
}
use obs_brutal.Base.Pipeline.{Pipeline, collect, send_batch}
use obs_brutal.Base.Pipeline.Schedule.{stream}

-- At most one sink worker, which has at most one batch; without workers nothing is sent on.
pub record IsSerial {E : Type 0} (p : Pipeline E) : Type 0 where
  pub one_worker : p.worker_count ≤ 1
  pub one_batch : length p.busy ≤ p.worker_count
  pub none_sent : p.worker_count ≡ 0 → p.batch_chan ≡ []

pub empty_of_length {ℓ} : {A : Type ℓ} (xs : List A) → length xs ≤ 0 → xs ≡ []
empty_of_length [] h = refl
empty_of_length (x ∷ xs) h = absurd (omega arith)

-- A list of at most one element with one in the middle.
pub singleton_sides {ℓ} :
    {A : Type ℓ} (before : List A) (x : A) (after : List A)
    → length (before ++ x ∷ after) ≤ 1
    → (before ≡ []) × (after ≡ [])
singleton_sides before x after h =
    let n = length-append before (x ∷ after) in
    (empty_of_length before (omega arith), empty_of_length after (omega arith))

module _ {E : Type 0} where
  pub stream-send_batch : (p : Pipeline E) → stream (send_batch p) ≡ stream p
  unfolding send_batch
  stream-send_batch p = simp (concat-append, append-nil, append_assoc)

  pub stream-collect :
      (x : E) (rest : List E) (p : Pipeline E)
      → p.log_chan ≡ x ∷ rest
      → stream (collect x (record p { log_chan = rest })) ≡ stream p
  unfolding collect
  stream-collect x rest p h = simp (h, append_assoc)
