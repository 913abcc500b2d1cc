-- ===== src/Sinks/Queued/Closing.antt =====
-- What the asynchronous sink has written when its `Close` is done.
use obs_brutal.Prelude.{
  ℕ, ◌+◌, ◌-◌, ◌≤◌, ◌<◌, ◌≡◌, refl, ap, ◌⊎◌, inl, inr, Bool, true, false, ◌&&◌, List, [], ◌∷◌, ◌++◌,
  arith, ltb, nat_eq, if◌then◌else◌, ltb→lt, Bool-cases, length, is_empty, take, drop,
  length-append, length-snoc, length-drop, take-append-drop, tally, tally-append,
}
use obs_brutal.Sinks.Queued.{
  QueuedSink, new_queued, offer, write_queued, receive_queued, write_inner, worker_exit,
  begin_close, end_close,
}

-- What the goroutines do; `offers` is a write that had passed the test of `closed`.
pub data QueuedCall (E : Type 0) : Type 0 where
  offers : E → QueuedCall E
  asks : E → QueuedCall E
  receives : QueuedCall E
  hands_on : ℕ → QueuedCall E
  exits : QueuedCall E
  begins_close : QueuedCall E
  ends_close : QueuedCall E

module _ {E : Type 0} where
  unfoldable pub queued_call : QueuedCall E → QueuedSink E → QueuedSink E
  queued_call (offers e) s = offer e s
  queued_call (asks e) s = write_queued e s
  queued_call receives s = receive_queued s
  queued_call (hands_on k) s = write_inner k s
  queued_call exits s = worker_exit s
  queued_call begins_close s = begin_close s
  queued_call ends_close s = end_close s

module _ {E : Type 0} (t : E → Bool) where
  abbrev pub asked : QueuedCall E → ℕ
  asked (offers e) = tally t (e ∷ [])
  asked (asks e) = tally t (e ∷ [])
  asked _ = 0

  -- Everything that the sink was asked to write.
  abbrev pub kept : QueuedSink E → ℕ
  kept s = tally t s.finished + tally t s.busy + tally t s.queue + tally t s.dropped

  -- Once all workers have returned, `Close` was called, no worker holds an entry, and what is still
  -- in the queue came late.
  pub record IsAttended (s : QueuedSink E) : Type 0 where
    pub hands : length s.busy ≤ s.live
    pub fits : length s.queue ≤ s.queue_size
    pub deserted : (0 < s.live) ⊎ ((s.closed ≡ true) × (tally t s.queue ≤ tally t s.late))
    pub joined : (s.inner_closed ≡ false) ⊎ (s.live ≡ 0)

  split_first : (xs : List E) → tally t (take 1 xs) + tally t (drop 1 xs) ≡ tally t xs
  split_first [] = refl
  split_first (x ∷ xs) = omega arith

  length-split_first : (xs : List E) → length (take 1 xs) ≤ 1
  length-split_first [] = omega arith
  length-split_first (x ∷ xs) = omega arith

  kept-queued_call :
      (c : QueuedCall E) (s : QueuedSink E) → kept (queued_call c s) ≡ kept s + asked c
  unfolding queued_call offer write_queued receive_queued write_inner worker_exit begin_close
      end_close
  kept-queued_call (offers e) s =
      ground (arith, tally-append t s.queue (e ∷ []), tally-append t s.dropped (e ∷ []))
  kept-queued_call (asks e) s =
      ground (arith, tally-append t s.queue (e ∷ []), tally-append t s.dropped (e ∷ []))
  kept-queued_call receives s =
      ground (arith, tally-append t s.busy (take 1 s.queue), split_first s.queue)
  kept-queued_call (hands_on k) s = omega (
    arith,
    tally-append t s.finished (take 1 (drop k s.busy)),
    tally-append t (take k s.busy) (drop 1 (drop k s.busy)),
    tally-append t (take k s.busy) (drop k s.busy),
    ap (tally t) (take-append-drop k s.busy),
    split_first (drop k s.busy),
  )
  kept-queued_call exits s = ground arith
  kept-queued_call begins_close s = omega arith
  kept-queued_call ends_close s = ground arith

  late_sent :
      (e : E) (s : QueuedSink E)
      → (s.closed ≡ true) × (tally t s.queue ≤ tally t s.late)
      → tally t (s.queue ++ e ∷ [])
        ≤ tally t (if◌then◌else◌ {A = List E} s.closed (s.late ++ e ∷ []) s.late)
  late_sent e s (c, h) =
      rw c (omega (arith, h, tally-append t s.queue (e ∷ []), tally-append t s.late (e ∷ [])))

  offer-IsAttended : (e : E) (s : QueuedSink E) → IsAttended s → IsAttended (offer e s)
  unfolding offer
  offer-IsAttended e s i = elim (Bool-cases (ltb (length s.queue) s.queue_size)) [
    | inl room ↦ rw room (record {
      hands = i.hands;
      fits = omega (arith, length-snoc s.queue e, ltb→lt _ _ room);
      deserted = elim i.deserted [ inl some_ ↦ inl some_ | inr h ↦ inr (h.0, late_sent e s h) ];
      joined = i.joined;
    })
    | inr full ↦
        rw full
          (record { hands = i.hands; fits = i.fits; deserted = i.deserted; joined = i.joined })
  ]

  write_queued-IsAttended :
      (e : E) (s : QueuedSink E) → IsAttended s → IsAttended (write_queued e s)
  unfolding write_queued
  write_queued-IsAttended e s i = from_either s.closed
    where
      from_either :
          (c : Bool)
          → IsAttended (
              if◌then◌else◌ {A = QueuedSink E} c
                (record s { dropped = s.dropped ++ e ∷ [] })
                (offer e s))
      from_either true = record {
        hands = i.hands;
        fits = i.fits;
        deserted = i.deserted;
        joined = i.joined;
      }
      from_either false = offer-IsAttended e s i

  receive_queued-IsAttended : (s : QueuedSink E) → IsAttended s → IsAttended (receive_queued s)
  unfolding receive_queued
  receive_queued-IsAttended s i = elim (Bool-cases (ltb (length s.busy) s.live)) [
    | inl idle ↦
        let n : length s.busy < s.live = ltb→lt _ _ idle in
        rw idle (record {
          hands =
              omega (arith, n, length-append s.busy (take 1 s.queue), length-split_first s.queue);
          fits = omega (arith, i.fits, length-drop 1 s.queue);
          deserted = inl (omega (arith, n));
          joined = i.joined;
        })
    | inr none_ ↦ rw none_ i
  ]

  write_inner-IsAttended : (k : ℕ) (s : QueuedSink E) → IsAttended s → IsAttended (write_inner k s)
  unfolding write_inner
  write_inner-IsAttended k s i = record {
    hands = omega (
      arith,
      i.hands,
      length-append (take k s.busy) (drop 1 (drop k s.busy)),
      length-append (take k s.busy) (drop k s.busy),
      ap length (take-append-drop k s.busy),
      length-drop 1 (drop k s.busy),
    );
    fits = i.fits;
    deserted = i.deserted;
    joined = i.joined;
  }

  worker_exit-IsAttended : (s : QueuedSink E) → IsAttended s → IsAttended (worker_exit s)
  unfolding worker_exit
  worker_exit-IsAttended s i = by_queue s.queue refl
    where
      by_queue :
          (q : List E)
          → s.queue ≡ q
          → IsAttended (
              if s.closed && is_empty s.queue && ltb (length s.busy) s.live
              then record s { live = s.live - 1 }
              else s)
      by_queue (x ∷ q) h =
          elim (Bool-cases (s.closed && is_empty s.queue && ltb (length s.busy) s.live)) [
            | inl leaves ↦ absurd (ground (arith, ap is_empty h))
            | inr stays ↦ rw stays i
          ]
      by_queue [] h =
          elim (Bool-cases (s.closed && is_empty s.queue && ltb (length s.busy) s.live)) [
            | inl leaves ↦ rw leaves (record {
              hands = ground arith;
              fits = i.fits;
              deserted = inr (ground arith, omega (arith, ap (tally t) h));
              joined = elim i.joined [ inl n ↦ inl n | inr z ↦ inr (omega arith) ];
            })
            | inr stays ↦ rw stays i
          ]

  end_close-IsAttended : (s : QueuedSink E) → IsAttended s → IsAttended (end_close s)
  unfolding end_close
  end_close-IsAttended s i = elim (Bool-cases (s.closed && nat_eq s.live 0)) [
    | inl over ↦ rw over (record {
      hands = i.hands;
      fits = i.fits;
      deserted = i.deserted;
      joined = inr (ground arith);
    })
    | inr not_ ↦ rw not_ i
  ]

  queued_call-IsAttended :
      (c : QueuedCall E) (s : QueuedSink E) → IsAttended s → IsAttended (queued_call c s)
  unfolding queued_call begin_close
  queued_call-IsAttended (offers e) s i = offer-IsAttended e s i
  queued_call-IsAttended (asks e) s i = write_queued-IsAttended e s i
  queued_call-IsAttended receives s i = receive_queued-IsAttended s i
  queued_call-IsAttended (hands_on k) s i = write_inner-IsAttended k s i
  queued_call-IsAttended exits s i = worker_exit-IsAttended s i
  queued_call-IsAttended begins_close s i = record {
    hands = i.hands;
    fits = i.fits;
    deserted = elim i.deserted [ inl some_ ↦ inl some_ | inr h ↦ inr (refl, h.1) ];
    joined = i.joined;
  }
  queued_call-IsAttended ends_close s i = end_close-IsAttended s i

module _ {E : Type 0} where
  unfoldable pub queued_calls : List (QueuedCall E) → QueuedSink E → QueuedSink E
  queued_calls [] s = s
  queued_calls (c ∷ cs) s = queued_calls cs (queued_call c s)

  abbrev pub asked_all : (E → Bool) → List (QueuedCall E) → ℕ
  asked_all t [] = 0
  asked_all t (c ∷ cs) = asked t c + asked_all t cs

  queued_calls-kept :
      (cs : List (QueuedCall E)) (s : QueuedSink E) (t : E → Bool)
      → IsAttended t s
      → IsAttended t (queued_calls cs s) × (kept t (queued_calls cs s) ≡ kept t s + asked_all t cs)
  unfolding queued_calls
  queued_calls-kept [] s t i = (i, omega arith)
  queued_calls-kept (c ∷ cs) s t i =
      let (q, k) = queued_calls-kept cs (queued_call c s) t (queued_call-IsAttended t c s i) in
      (q, omega (arith, k, kept-queued_call t c s))

  new_queued-IsAttended :
      (queue_size workers : ℕ) (t : E → Bool) → IsAttended t (new_queued queue_size workers)
  unfolding new_queued
  new_queued-IsAttended queue_size workers t = record {
    hands = omega arith;
    fits = omega arith;
    deserted = inl (ground arith);
    joined = inl refl;
  }

  tally-nothing : (t : E → Bool) (xs : List E) → length xs ≤ 0 → tally t xs ≡ 0
  tally-nothing t [] h = refl
  tally-nothing t (x ∷ xs) h = absurd (omega arith)

  -- After any calls on a new sink that end with its inner sink closed, each entry that it was asked
  -- to write went to the inner sink, was dropped, or is left in the queue, as often as it was asked
  -- for; and what is left in the queue was sent after `Close` had begun.
  pub queued_calls-closed :
      (queue_size workers : ℕ) (cs : List (QueuedCall E)) (t : E → Bool)
      → (queued_calls cs (new_queued queue_size workers)).inner_closed ≡ true
      → let s = queued_calls cs (new_queued queue_size workers) in
        (tally t s.finished + tally t s.dropped + tally t s.queue ≡ asked_all t cs)
        × (tally t s.queue ≤ tally t s.late)
  queued_calls-closed queue_size workers cs t over =
      let (i, k) =
        queued_calls-kept cs (new_queued queue_size workers) t
          (new_queued-IsAttended queue_size workers t) in
      let s = queued_calls cs (new_queued queue_size workers) in
      let gone : s.live ≡ 0 = elim i.joined [ inl n ↦ absurd (cc (over, n)) | inr z ↦ z ] in
      let idle = tally-nothing t s.busy (omega (arith, gone, i.hands)) in
      (
        unfold new_queued in omega (arith, k, idle),
        elim i.deserted [ inl some_ ↦ absurd (omega (arith, gone)) | inr h ↦ h.1 ],
      )
