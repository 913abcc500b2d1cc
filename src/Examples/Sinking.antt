-- ===== src/Examples/Sinking.antt =====
-- The sinks before an inner sink that fails at first, an endpoint in an outage, and a shutdown.
use obs_brutal.Prelude.{
  ℕ, ◌+◌, ◌≤◌, ◌≡◌, refl, true, false, none, some, List, [], ◌∷◌, ltb, leb, nat_eq, if◌then◌else◌,
  length, All, tally,
}
use obs_brutal.Sinks.Files.{
  FileState, FileEvents, new_file_sink, configure_rotation, put, rename, shift_backups,
  rotate_files, open_locked, append_entry, rotated, opened_file, file_size, is_full, write_open,
  write_file, close_file,
}
use obs_brutal.Sinks.Files.Retained.{
  IsKept, CanRename, FileCall, writes_entry, closes_file, file_call, file_calls, file_calls-IsKept,
}
use obs_brutal.Sinks.Buffered.{Failing, new_buffered, retain_cap}
use obs_brutal.Sinks.Buffered.Retention.{
  Call, writes, ticks, closes, calls, known, given_all, calls-IsRetained,
}
use obs_brutal.Sinks.Loki.{
  Answer, status, new_loki, retry_buffer_cap, trim, enqueue, take_values, finish, settle, requeue,
  gated, extract, post_from, succeeded, retriable,
}
use obs_brutal.Sinks.Queued.{
  new_queued, offer, write_queued, receive_queued, write_inner, worker_exit, begin_close, end_close,
}
use obs_brutal.Sinks.Queued.Closing.{
  QueuedCall, offers, asks, receives, hands_on, exits, begins_close, ends_close, queued_call,
  queued_calls, asked_all, queued_calls-closed,
}
use obs_brutal.Sinks.Loki.Retries.{IsPosted, post_from-IsPosted}
use obs_brutal.Sinks.Loki.Outage.{
  LokiCall, enqueues, takes, finishes, reopens, loki_call, loki_calls, held, handed_all,
  loki_calls-IsCapped,
}

abbrev failing_start : Failing ℕ
failing_start n e = ltb n 3

abbrev day : List (Call failing_start)
day = writes 1 5 ∷ writes 2 6 ∷ ticks 3 ∷ writes 4 7 ∷ closes 5 ∷ []

calls-IsRetained_example :
    let s = calls failing_start day (new_buffered 2 100) in
    (length s.buffer ≤ retain_cap s)
    × (known failing_start (λ e. leb e 6) s ≡ given_all failing_start (λ e. leb e 6) day)
calls-IsRetained_example = calls-IsRetained failing_start 2 100 day (λ e. leb e 6)

-- Two entries are pushed together and fail, a third comes in meanwhile, and all are pushed again.
abbrev outage : List (LokiCall ℕ)
outage =
    enqueues 5
    ∷ enqueues 6
    ∷ takes 10
    ∷ enqueues 7
    ∷ finishes 20 0 false
    ∷ takes 30
    ∷ reopens
    ∷ takes 40
    ∷ finishes 50 0 true
    ∷ []

-- The flush at time 30 finds the gate closed; in the end the order is the order of the writes.
outage-pushed : (loki_calls outage (new_loki true)).pushed ≡ 5 ∷ 6 ∷ 7 ∷ []
unfolding loki_calls loki_call new_loki enqueue take_values finish settle requeue trim
    retry_buffer_cap gated extract
outage-pushed = refl

loki_calls-IsCapped_example :
    let s = loki_calls outage (new_loki true) in
    (length s.values ≤ retry_buffer_cap s)
    × (s.dropped_old ≡ length s.trimmed)
    × (held (λ e. leb e 6) s ≡ handed_all (λ e. leb e 6) outage)
loki_calls-IsCapped_example = loki_calls-IsCapped outage (λ e. leb e 6)

-- The endpoint is busy twice.
abbrev busy_twice : ℕ → Answer
busy_twice n = if ltb n 2 then status 429 else status 204

post_from-IsPosted_example :
    let (ok, again) = post_from busy_twice 0 3 in IsPosted busy_twice 0 3 ok again
post_from-IsPosted_example = post_from-IsPosted busy_twice 0 3

busy_twice-again : post_from busy_twice 0 3 ≡ (true, 2)
unfolding post_from succeeded retriable
busy_twice-again = refl

-- One worker: an entry before `Close`, one dropped for want of room, one that passed the test of the
-- flag and is sent when the worker has returned, and one after that.
abbrev shutdown : List (QueuedCall ℕ)
shutdown =
    asks 5
    ∷ asks 6
    ∷ begins_close
    ∷ receives
    ∷ hands_on 0
    ∷ exits
    ∷ ends_close
    ∷ offers 7
    ∷ asks 8
    ∷ []

shutdown-left :
    let s = queued_calls shutdown (new_queued 1 1) in
    (s.finished ≡ 5 ∷ []) × (s.dropped ≡ 6 ∷ 8 ∷ []) × (s.queue ≡ 7 ∷ [])
unfolding queued_calls queued_call new_queued write_queued offer begin_close receive_queued
    write_inner worker_exit end_close
shutdown-left = (refl, refl, refl)

queued_calls-closed_example :
    let s = queued_calls shutdown (new_queued 1 1) in
    (tally (λ e. leb e 6) s.finished + tally (λ e. leb e 6) s.dropped + tally (λ e. leb e 6) s.queue
      ≡ asked_all (λ e. leb e 6) shutdown)
    × (tally (λ e. leb e 6) s.queue ≤ tally (λ e. leb e 6) s.late)
unfolding queued_calls queued_call new_queued write_queued offer begin_close receive_queued
    write_inner worker_exit end_close
queued_calls-closed_example = queued_calls-closed 1 1 shutdown (λ e. leb e 6) refl

-- A rotating file with two backups that is full after two entries of one byte.
abbrev rotating : FileState ℕ
rotating = record { sink = configure_rotation 2 2 new_file_sink; files = λ i. none }

abbrev all_well : FileEvents
all_well = record { opens = true; reopens = true; writes = true; renames = λ i. true }

abbrev cannot_reopen : FileEvents
cannot_reopen = record { opens = true; reopens = false; writes = true; renames = λ i. true }

abbrev file_story : List (FileCall ℕ)
file_story =
    writes_entry all_well 1
    ∷ writes_entry all_well 2
    ∷ writes_entry cannot_reopen 3
    ∷ writes_entry all_well 4
    ∷ closes_file
    ∷ writes_entry all_well 5
    ∷ writes_entry all_well 6
    ∷ []

-- The third entry is refused, and the others are in two backups and the file.
file_calls_value :
    let r = file_calls (λ x. 1) file_story (rotating, []) in
    (r.0.files 1 ≡ some (4 ∷ 5 ∷ []))
    × (r.0.files 0 ≡ some (6 ∷ []))
    × (r.1 ≡ 1 ∷ 2 ∷ 4 ∷ 5 ∷ 6 ∷ [])
unfolding file_calls file_call write_file write_open is_full file_size rotated rotate_files
    shift_backups rename opened_file open_locked append_entry put close_file configure_rotation
    new_file_sink
file_calls_value = (refl, refl, refl)

abbrev all_renamed : All CanRename file_story
all_renamed = (
  (λ i. refl),
  ((λ i. refl), ((λ i. refl), ((λ i. refl), (tt, ((λ i. refl), ((λ i. refl), tt)))))),
)

-- A backup that cannot be renamed is overwritten by the next one: of three full files the middle one
-- is lost.
abbrev cannot_rename : FileEvents
cannot_rename = record { opens = true; reopens = true; writes = true; renames = λ i. nat_eq i 0 }

file_calls_lost :
    let r =
      file_calls
        (λ x. 1)
        (writes_entry all_well 1
          ∷ writes_entry all_well 2
          ∷ writes_entry all_well 3
          ∷ writes_entry all_well 4
          ∷ writes_entry cannot_rename 5
          ∷ [])
        (rotating, []) in
    (r.0.files 2 ≡ none) × (r.0.files 1 ≡ some (3 ∷ 4 ∷ [])) × (r.0.files 0 ≡ some (5 ∷ []))
unfolding file_calls file_call write_file write_open is_full file_size rotated rotate_files
    shift_backups rename opened_file open_locked append_entry put close_file configure_rotation
    new_file_sink
file_calls_lost = (refl, refl, refl)

file_calls-IsKept_example :
    let r = file_calls (λ x. 1) file_story (rotating, []) in IsKept 1 r.1 r.0
unfolding configure_rotation new_file_sink
file_calls-IsKept_example =
    file_calls-IsKept (λ x. 1) file_story 1 [] rotating all_renamed
      record { same_backups = refl; gapless = λ i low gone. refl; rotated_out = []; held = refl }
