-- ===== src/Boeng/Op.antt =====
-- The handle of an operation (boeng/enter.go, `Op`): the error that was recorded last and whether
-- the operation is closed. `finish` is what `startOp` gives to complete the operation, on any state.
-- An error is its message, a panic the text of its value. The methods do nothing on a nil handle,
-- which is no value here.
use obs_brutal.Prelude.{
  ℕ, ◌≡◌, refl, Bool, true, false, Option, none, some, List, [], ◌∷◌, ◌++◌, if◌then◌else◌, codes,
}

-- How a function ends: it returns, with an error or none, it panics, or it ends its goroutine.
pub data Outcome : Type 0 where
  returns : Option (List ℕ) → Outcome
  panics : List ℕ → Outcome
  exits : Outcome

-- `panicErr`.
unfoldable pub panic_err : List ℕ → List ℕ
panic_err r = codes "panic: " ++ r

-- What the deferred function of `Run` and `Step` makes of the end: the error, and whether it was a
-- panic.
unfoldable pub error_of : Outcome → Option (List ℕ)
unfolding panic_err
error_of (returns e) = e
error_of (panics r) = some (panic_err r)
error_of exits = none

unfoldable pub is_panic : Outcome → Bool
is_panic (panics r) = true
is_panic _ = false

pub record Op : Type 0 where
  pub err : Option (List ℕ)
  pub closed : Bool

abbrev pub new_op : Op
new_op = record { err = none; closed = false }

-- `Fail`.
unfoldable pub fail : Option (List ℕ) → Op → Op
fail none o = o
fail (some e) o = record o { err = some e }

-- `Success`.
unfoldable pub success : Op → Op
success o = o

-- What `Step` records of the end of its function.
unfoldable pub note_step : Outcome → Op → Op
unfolding fail error_of
note_step out o = fail (error_of out) o

module _ {S : Type 0} (finish : Option (List ℕ) → Bool → S → S) where
  -- `Close`, with the panic in flight.
  close_open : Option (List ℕ) → Op → S → S
  unfolding panic_err
  close_open none o s = finish o.err false s
  close_open (some r) o s = finish (some (panic_err r)) true s

  unfoldable pub close : Option (List ℕ) → Op → S → Op × S
  unfolding close_open
  close flight o s =
      if o.closed then (o, s) else (record o { closed = true }, close_open flight o s)

  -- `CloseWith`: the error that the pointer has, `none` when it or the pointer is nil, and the panic
  -- in flight.
  close_with_open : Option (List ℕ) → Option (List ℕ) → Op → S → S
  unfolding close_open
  close_with_open none (some e) o s = finish (some e) false s
  close_with_open none none o s = close_open none o s
  close_with_open (some r) e o s = close_open (some r) o s

  unfoldable pub close_with : Option (List ℕ) → Option (List ℕ) → Op → S → Op × S
  unfolding close_with_open
  close_with flight e o s =
      if o.closed then (o, s) else (record o { closed = true }, close_with_open flight e o s)

-- The error that `CloseWith` leaves under its pointer.
unfoldable pub pointed : Option (List ℕ) → Option (List ℕ) → Op → Option (List ℕ)
unfolding panic_err
pointed none e o = e
pointed (some r) e o = if o.closed then e else some (panic_err r)

-- The calls that change the handle.
pub data OpCall : Type 0 where
  failed : Option (List ℕ) → OpCall
  succeeded : OpCall
  stepped : Outcome → OpCall
  closes : Option (List ℕ) → OpCall
  closes_with : Option (List ℕ) → Option (List ℕ) → OpCall

module _ {S : Type 0} (finish : Option (List ℕ) → Bool → S → S) where
  unfoldable pub call : OpCall → Op → S → Op × S
  unfolding fail success note_step close close_with
  call (failed e) o s = (fail e o, s)
  call succeeded o s = (success o, s)
  call (stepped out) o s = (note_step out o, s)
  call (closes flight) o s = close finish flight o s
  call (closes_with flight e) o s = close_with finish flight e o s

  unfoldable pub calls : List OpCall → Op → S → Op × S
  unfolding call
  calls [] o s = (o, s)
  calls (c ∷ cs) o s = let next = call c o s in calls cs next.0 next.1

-- What the first closing call reports, when there is one: the panic in flight, else the error given
-- to it, else the last error that was recorded before it.
abbrev or_else : {A : Type 0} → Option A → Option A → Option A
or_else (some a) b = some a
or_else none b = b

abbrev reported : Option (List ℕ) → Option (List ℕ) → Option (List ℕ) × Bool
reported (some r) e = (some (codes "panic: " ++ r), true)
reported none e = (e, false)

abbrev pub first_close : Option (List ℕ) → List OpCall → Option (Option (List ℕ) × Bool)
first_close last [] = none
first_close last (failed e ∷ cs) = first_close (or_else e last) cs
first_close last (succeeded ∷ cs) = first_close last cs
first_close last (stepped (returns e) ∷ cs) = first_close (or_else e last) cs
first_close last (stepped (panics r) ∷ cs) = first_close (some (codes "panic: " ++ r)) cs
first_close last (stepped exits ∷ cs) = first_close last cs
first_close last (closes flight ∷ cs) = some (reported flight last)
first_close last (closes_with flight e ∷ cs) = some (reported flight (or_else e last))

module _ {S : Type 0} (finish : Option (List ℕ) → Bool → S → S) where
  abbrev pub finished : Option (Option (List ℕ) × Bool) → S → S
  finished none s = s
  finished (some (e, p)) s = finish e p s

  -- A closed handle stays closed, and its state is left alone.
  calls_closed : (cs : List OpCall) (o : Op) (s : S) → o.closed ≡ true → (calls finish cs o s).1 ≡ s
  unfolding calls
  calls_closed [] o s h = refl
  calls_closed (failed none ∷ cs) o s h = calls_closed cs o s h
  calls_closed (failed (some e) ∷ cs) o s h = calls_closed cs _ s h
  calls_closed (succeeded ∷ cs) o s h = calls_closed cs o s h
  calls_closed (stepped (returns none) ∷ cs) o s h = calls_closed cs o s h
  calls_closed (stepped (returns (some e)) ∷ cs) o s h = calls_closed cs _ s h
  calls_closed (stepped (panics r) ∷ cs) o s h = calls_closed cs _ s h
  calls_closed (stepped exits ∷ cs) o s h = calls_closed cs o s h
  calls_closed (closes flight ∷ cs) o s h = rw h (calls_closed cs _ s refl)
  calls_closed (closes_with flight e ∷ cs) o s h = rw h (calls_closed cs _ s refl)

  calls_open :
      (cs : List OpCall) (o : Op) (s : S)
      → o.closed ≡ false
      → (calls finish cs o s).1 ≡ finished (first_close o.err cs) s
  unfolding calls
  calls_open [] o s h = refl
  calls_open (failed none ∷ cs) o s h = calls_open cs o s h
  calls_open (failed (some e) ∷ cs) o s h = calls_open cs _ s h
  calls_open (succeeded ∷ cs) o s h = calls_open cs o s h
  calls_open (stepped (returns none) ∷ cs) o s h = calls_open cs o s h
  calls_open (stepped (returns (some e)) ∷ cs) o s h = calls_open cs _ s h
  calls_open (stepped (panics r) ∷ cs) o s h = calls_open cs _ s h
  calls_open (stepped exits ∷ cs) o s h = calls_open cs o s h
  calls_open (closes none ∷ cs) o s h = rw h (calls_closed cs _ _ refl)
  calls_open (closes (some r) ∷ cs) o s h = rw h (calls_closed cs _ _ refl)
  calls_open (closes_with none none ∷ cs) o s h = rw h (calls_closed cs _ _ refl)
  calls_open (closes_with none (some e) ∷ cs) o s h = rw h (calls_closed cs _ _ refl)
  calls_open (closes_with (some r) e ∷ cs) o s h = rw h (calls_closed cs _ _ refl)

  -- Whatever calls are made on a new handle, in whatever order, the operation is completed at most
  -- once: by the first closing call, with the panic in flight, else the error given to the call,
  -- else the last error recorded before it, whether by `Fail` or by a step; and not at all without a
  -- closing call.
  pub calls_once :
      (cs : List OpCall) (s : S) → (calls finish cs new_op s).1 ≡ finished (first_close none cs) s
  calls_once cs s = calls_open cs new_op s refl
