-- ===== src/Examples/Pipelines.antt =====
-- Schedules of a small pipeline: batches of two, one sink worker, one sink that is not nil.
use obs_brutal.Prelude.{
  ℕ, ◌+◌, ◌*◌, ◌%◌, ◌≤◌, max, ◌≡◌, refl, Bool, true, false, none, some, [], ◌∷◌, ◌++◌, arith, leb,
  nat_eq, length, tally,
}
use obs_brutal.Base.Pipeline.{
  Pipeline, drop_oldest, returned, new_pipeline, write_async, collect, write_one, Fails,
  Interference, Waiting, try_send, by_policy, send_or_drop, send_batch, is_flushing, write_sinks,
}
use obs_brutal.Base.Pipeline.Schedule.{Step, Run, stream, pending}
use obs_brutal.Base.Pipeline.Accounting.{tally-stream-Run}
use obs_brutal.Base.Pipeline.Order.{stream-Run}
use obs_brutal.Base.Pipeline.Serial.{IsSerial}
use obs_brutal.Base.Pipeline.Shutdown.{stop-drains}
use obs_brutal.Base.Pipeline.Draining.{IsStopping, IsDrained}
use obs_brutal.Base.Pipeline.Producer.{Outcome, write_async-Outcome}
use obs_brutal.Base.Pipeline.LateSend.{write_async-never_written}
use obs_brutal.Base.Pipeline.Bounds.{IsBounded, new_pipeline-pending}
use obs_brutal.Base.AsyncLog.{deliver}
use obs_brutal.Base.AsyncLog.Delivery.{Delivered, deliver-Delivered}

-- The first sink fails at every second call.
abbrev flaky : Fails ℕ
flaky s n x = nat_eq (n % 2) 1

abbrev idle : Interference ℕ
idle p = p

abbrev waiting : Waiting ℕ
waiting = record { others = idle; fires = false }

abbrev small : Pipeline ℕ
small = new_pipeline 2 1 (some 7 ∷ none ∷ [])

abbrev with_one : Pipeline ℕ
with_one = record small { log_chan = 5 ∷ [] }

abbrev with_two : Pipeline ℕ
with_two = record small { log_chan = 5 ∷ 6 ∷ [] }

abbrev gathered_one : Pipeline ℕ
gathered_one = collect 5 (record with_two { log_chan = 6 ∷ [] })

abbrev gathered_two : Pipeline ℕ
gathered_two = collect 6 (record gathered_one { log_chan = [] })

-- The batch is sent when it is full.
abbrev flushed : Pipeline ℕ
flushed = send_batch gathered_two

abbrev in_hand : Pipeline ℕ
in_hand = record flushed { batch_chan = []; busy = (5 ∷ 6 ∷ []) ∷ [] }

abbrev half_written : Pipeline ℕ
half_written = write_one flaky 5 (record in_hand { busy = (6 ∷ []) ∷ [] })

two_entries : Run flaky small (5 ∷ 6 ∷ []) [] half_written
unfolding new_pipeline collect send_batch write_one write_sinks is_flushing
two_entries =
    let queued : Run flaky small (5 ∷ 6 ∷ []) [] with_two =
      Run.then_accept 6
        (Run.then_accept {r = with_one} 5 Run.here (Step.enqueue 5 (omega arith) refl))
        (Step.enqueue 6 (omega arith) refl) in
    let gathered : Run flaky small (5 ∷ 6 ∷ []) [] gathered_two =
      Run.then_internal
        (Run.then_internal {r = gathered_one} queued (Step.gather 5 (6 ∷ []) refl refl refl))
        (Step.gather 6 [] refl refl refl) in
    Run.then_internal
      (Run.then_internal {r = in_hand}
        (Run.then_internal {r = flushed} gathered (Step.sends refl (λ z. cc) (omega arith) refl))
        (Step.take_batch (5 ∷ 6 ∷ []) [] (omega arith) refl refl))
      (Step.write_next [] [] 5 (6 ∷ []) refl refl)

-- While the send waits, a producer can still put an entry in the queue.
waiting_send : Run flaky gathered_two (7 ∷ []) [] (record gathered_two { log_chan = 7 ∷ [] })
unfolding new_pipeline collect
waiting_send = Run.then_accept 7 Run.here (Step.enqueue 7 (omega arith) refl)

-- One entry is written to sink 7, and the other is still in the worker's hands.
half_written-state :
    (half_written.finished ≡ 5 ∷ [])
    × (half_written.log ≡ (7, 5) ∷ [])
    × (stream half_written ≡ 5 ∷ 6 ∷ [])
    × (half_written.batches ≡ 1)
unfolding new_pipeline collect send_batch write_one write_sinks
half_written-state = (refl, refl, refl, refl)

tally-stream-Run_example :
    tally (λ n. leb n 5) (stream half_written) + 0
    ≡ tally (λ n. leb n 5) (stream small) + tally (λ n. leb n 5) (5 ∷ 6 ∷ [])
tally-stream-Run_example = tally-stream-Run flaky (λ n. leb n 5) two_entries

small-IsSerial : IsSerial small
unfolding new_pipeline
small-IsSerial = record { one_worker = omega arith; one_batch = omega arith; none_sent = λ h. cc }

stream-Run_example : stream half_written ≡ stream small ++ 5 ∷ 6 ∷ []
stream-Run_example = stream-Run flaky small-IsSerial two_entries

abbrev stopping : Pipeline ℕ
stopping = record half_written { stopped = true; log_chan = 8 ∷ 9 ∷ 10 ∷ [] }

stopping-IsStopping : IsStopping stopping
unfolding new_pipeline collect send_batch write_one write_sinks
stopping-IsStopping = record {
  quit_closed = refl;
  room = λ h. omega arith;
  none_sent = λ h. refl;
  received = λ h. cc;
  gathered = λ h. cc;
}

stop-drains_example :
    (q : Pipeline ℕ) × Run flaky stopping [] [] q
    × IsDrained q
    × ((t : ℕ → Bool) → tally t q.finished ≡ tally t (stream stopping))
stop-drains_example = stop-drains flaky stopping stopping-IsStopping

abbrev full : Pipeline ℕ
full = record small { log_chan = 1 ∷ 2 ∷ 3 ∷ 4 ∷ 5 ∷ 6 ∷ 7 ∷ 8 ∷ []; policy = drop_oldest }

write_async-Outcome_example :
    Outcome idle waiting idle 9 full (write_async idle waiting idle 9 full)
write_async-Outcome_example = write_async-Outcome idle waiting idle 9 full

abbrev over : Pipeline ℕ
over = record small { stopped = true; phase = returned }

abbrev late : Pipeline ℕ
late = (write_async (λ _. over) waiting idle 3 small).0

write_async-never_written_example :
    ((write_async (λ _. over) waiting idle 3 small).1 ≡ true)
    × ((record late { chan_closed = true }).log_chan ≡ over.log_chan ++ (3 ∷ []) ++ [])
unfolding new_pipeline write_async by_policy send_or_drop try_send
write_async-never_written_example =
    write_async-never_written flaky waiting idle 3 small over []
      (record late { chan_closed = true }) refl refl refl (omega arith)
      (Run.then_internal Run.here (Step.close refl refl))

new_pipeline-pending_example :
    IsBounded 2 1 half_written
    × (length (pending half_written) ≤ 1 * max 1 2 + 1 * 2 * max 1 2 + max 1 2 + 2 * 4)
new_pipeline-pending_example = new_pipeline-pending flaky 2 1 (some 7 ∷ none ∷ []) two_entries

deliver-Delivered_example :
    Delivered flaky idle waiting idle 9 full (deliver flaky idle waiting idle 9 full)
deliver-Delivered_example = deliver-Delivered flaky idle waiting idle 9 full
