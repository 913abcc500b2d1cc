-- ===== src/Base/Pipeline/Producer.antt =====
-- What `WriteAsync` does, whatever other goroutines do in between, and a send that comes too late.
use obs_brutal.Prelude.{
  ◌+◌, ◌≤◌, ◌<◌, ◌≡◌, refl, ◌⊎◌, inl, inr, Bool, true, false, List, [], ◌∷◌, ◌++◌, arith, ltb,
  if◌then◌else◌, ltb→lt, Bool-cases, length,
}
use obs_brutal.Base.Pipeline.{
  Pipeline, Policy, drop_latest, drop_oldest, block_short, Interference, Waiting, try_send,
  try_receive, receive, count_drop, send_or_drop, write_drop_oldest, write_block_short, by_policy,
  write_async,
}

abbrev pub HasRoom : {E : Type 0} → Pipeline E → Type 0
HasRoom p = length p.log_chan < p.log_cap

abbrev pub IsFull : {E : Type 0} → Pipeline E → Type 0
IsFull p = p.log_cap ≤ length p.log_chan

abbrev pub appended : {E : Type 0} → E → Pipeline E → Pipeline E
appended x p = record p { log_chan = p.log_chan ++ x ∷ [] }

abbrev pub dropped_one : {E : Type 0} → Pipeline E → Pipeline E
dropped_one p = record p { dropped = p.dropped + 1 }

-- The state in which a producer that found the queue full, and then took its oldest entry, tries
-- again: the rest of the queue and one drop more, and what others did to these.
abbrev pub after_eviction :
    {E : Type 0} → Waiting E → Interference E → List E → Pipeline E → Pipeline E
after_eviction i j rest p = j (dropped_one (record (i.others p) { log_chan = rest }))

-- The ends of one call, by the policy: the state that it leaves and its answer, when others do `i`
-- after the first attempt and `j` after an eviction.
pub data Written {E : Type 0} (i : Waiting E) (j : Interference E) (x : E) (p : Pipeline E)
    : Policy → Pipeline E → Bool → Type 0 where
  sends : {policy : Policy} → HasRoom p → Written i j x p policy (appended x p) true
  refuses : IsFull p → Written i j x p drop_latest (dropped_one p) false
  finds_empty :
      IsFull p
      → (i.others p).log_chan ≡ []
      → Written i j x p drop_oldest (dropped_one (i.others p)) false
  evicts :
      (y : E) (rest : List E)
      → IsFull p
      → (i.others p).log_chan ≡ y ∷ rest
      → HasRoom (after_eviction i j rest p)
      → Written i j x p drop_oldest (appended x (after_eviction i j rest p)) true
  evicts_in_vain :
      (y : E) (rest : List E)
      → IsFull p
      → (i.others p).log_chan ≡ y ∷ rest
      → IsFull (after_eviction i j rest p)
      → Written i j x p drop_oldest (dropped_one (after_eviction i j rest p)) false
  waits :
      IsFull p
      → HasRoom (i.others p)
      → i.fires ≡ false
      → Written i j x p block_short (appended x (i.others p)) true
  waits_in_vain :
      IsFull p
      → IsFull (i.others p) ⊎ (i.fires ≡ true)
      → Written i j x p block_short (dropped_one (i.others p)) false

module _ {E : Type 0} where
  -- What there is to say of a call: it found the pipeline stopped and left it alone, or it went
  -- through with the policy that it found after its test.
  abbrev pub Outcome :
      Interference E → Waiting E → Interference E → E → Pipeline E → Pipeline E × Bool → Type 0
  Outcome after_test i j x p r =
      ((p.stopped ≡ true) × (r ≡ (p, false)))
      ⊎ ((p.stopped ≡ false) × Written i j x (after_test p) (after_test p).policy r.0 r.1)

  room_or_full :
      (p : Pipeline E)
      → (ltb (length p.log_chan) p.log_cap ≡ true) ⊎ (ltb (length p.log_chan) p.log_cap ≡ false)
  room_or_full p = Bool-cases (ltb (length p.log_chan) p.log_cap)

  evicting :
      (i : Waiting E) (j : Interference E) (x : E) (p : Pipeline E) (l : List E)
      → (i.others p).log_chan ≡ l
      → IsFull p
      → let taken = receive l (i.others p) in
        let r =
          if taken.1
          then send_or_drop x (j (count_drop taken.0))
          else (count_drop taken.0, false) in
        Written i j x p drop_oldest r.0 r.1
  unfolding receive send_or_drop try_send count_drop
  evicting i j x p [] e full = Written.finds_empty full e
  evicting i j x p (y ∷ rest) e full = elim (room_or_full (after_eviction i j rest p)) [
    | inl room ↦ rw room (Written.evicts y rest full e (ltb→lt _ _ room))
    | inr full' ↦ rw full' (Written.evicts_in_vain y rest full e (ground arith))
  ]

  by_policy-Written :
      (policy : Policy) (i : Waiting E) (j : Interference E) (x : E) (p : Pipeline E)
      → let r = by_policy policy i j x p in Written i j x p policy r.0 r.1
  unfolding by_policy send_or_drop try_send count_drop write_block_short write_drop_oldest
      try_receive
  by_policy-Written drop_latest i j x p = elim (room_or_full p) [
    | inl room ↦ rw room (Written.sends (ltb→lt _ _ room))
    | inr full ↦ rw full (Written.refuses (ground arith))
  ]
  by_policy-Written block_short i j x p = elim (room_or_full p) [
    | inl room ↦ rw room (Written.sends (ltb→lt _ _ room))
    | inr full ↦ elim (Bool-cases i.fires) [
      | inl fires ↦ rw (full, fires) (Written.waits_in_vain (ground arith) (inr refl))
      | inr quiet ↦ elim (room_or_full (i.others p)) [
        | inl room' ↦ rw (full, quiet, room') (Written.waits (ground arith) (ltb→lt _ _ room') refl)
        | inr full' ↦
            rw (full, quiet, full') (Written.waits_in_vain (ground arith) (inl (ground arith)))
      ]
    ]
  ]
  by_policy-Written drop_oldest i j x p = elim (room_or_full p) [
    | inl room ↦ rw room (Written.sends (ltb→lt _ _ room))
    | inr full ↦ rw full (evicting i j x p (i.others p).log_chan refl (ground arith))
  ]

  unless_stopped :
      (b : Bool) (after_test : Interference E) (i : Waiting E) (j : Interference E) (x : E)
      (p : Pipeline E)
      → p.stopped ≡ b
      → Outcome after_test i j x p
          (if b then (p, false) else (let q = after_test p in by_policy q.policy i j x q))
  unless_stopped true after_test i j x p h = inl (h, refl)
  unless_stopped false after_test i j x p h =
      inr (h, by_policy-Written (after_test p).policy i j x (after_test p))

  -- Where the pipeline was stopped `WriteAsync` answers false and changes nothing. Otherwise, with the
  -- policy that it finds after its test, and whatever others do there, after its first attempt and
  -- after an eviction: it appends the entry to a queue that has room and answers true, and changes
  -- nothing else; or it counts one drop and answers false, and then the queue was full, was full again
  -- after the time to wait or the timer was chosen, was empty when it looked for an entry to evict, or was full again after an
  -- eviction, which takes the oldest entry and counts one drop more.
  pub write_async-Outcome :
      (after_test : Interference E) (i : Waiting E) (j : Interference E) (x : E) (p : Pipeline E)
      → Outcome after_test i j x p (write_async after_test i j x p)
  unfolding write_async
  write_async-Outcome after_test i j x p = unless_stopped p.stopped after_test i j x p refl
