-- ===== src/Boeng/Mongo.antt =====
-- The monitor of MongoDB commands (boeng/mongo/mongo.go): the operations in flight by the driver's
-- request ids, and the three events. The lock makes an event one step. A command is its name, its
-- database and what a lookup of its name in the command's document gives.
pub mod Flights
use obs_brutal.Prelude.{
  ℕ, zero, suc, ◌+◌, ◌-◌, ◌*◌, ◌/◌, ◌%◌, ◌^◌, ◌≤◌, ◌<◌, min, max, String, ◌≡◌, refl, sym, ap, ◌∙◌,
  subst, ◌≢◌, ◌↔◌, ◌⊎◌, inl, inr, Bool, true, false, not, ◌&&◌, ◌||◌, Option, none, some, List, [],
  ◌∷◌, ◌++◌, map, append_assoc, append-nil, zero-add, suc-add, arith, ltb, leb, nat_eq,
  if◌then◌else◌, ltb→lt, lt→ltb, leb→le, le→leb, ltb_of_le, nat_eq_iff, tests, Bool-cases,
  Option-cases, is_some, length, is_empty, take, drop, replicate, get_elem?, keep, all, any, concat,
  All, length-append, length-snoc, snoc-ne-nil, length-drop, length-take, take-append-drop,
  length-replicate, length-keep-le, concat-append, concat-snoc, drop-append, All-append, All-drop,
  last_n, drop-nil, drop-drop, length-last_n, last_n_all, last_n-append, tally, tally-append,
  tally-concat-append, Key, bytes_eq, bytes_eq_iff, bytes_keys, string_keys, nat_keys, ◌==◌,
  eq_refl, prefer, lookup, erase, insert, insert_all, IsMap, lookup-insert, lookup-erase,
  length-insert-le, length-insert_present, length-insert_absent, lookup-insert_all, insert-IsMap,
  insert_all-IsMap, range_into, ranged, lookup-range_into, range_into-IsMap, codes, as_string,
  is_upper, is_lower, is_digit, to_lower, has_prefix, contains,
}
use obs_brutal.Domain.Value.{Value, text}
use obs_brutal.Boeng.Fields.{Subject, loggable}
use obs_brutal.Boeng.Metrics.{Metrics}
use obs_brutal.Boeng.Op.{Op, new_op, fail, close}
use obs_brutal.Boeng.Run.{Span, Process, OpState, start_op, finish}

-- `collection` is the text under the command's name: `none` without a document, where the lookup
-- fails and where it gives no text.
pub record Command : Type 0 where
  pub name : List ℕ
  pub database : List ℕ
  pub collection : Option (List ℕ)

-- `collectionFrom`.
unfoldable pub collection_from : Option (List ℕ) → List ℕ
collection_from none = []
collection_from (some s) = s

unfoldable pub mongo_subject : Command → Subject
unfolding collection_from
mongo_subject c = loggable (
    some (
      ("db.system", text (codes "mongodb"))
      ∷ ("db.command", text c.name)
      ∷ ("db.collection", text (collection_from c.collection))
      ∷ ("db.name", text c.database)
      ∷ []))

-- An operation in flight: its handle, and its state.
pub record Inflight : Type 0 where
  pub op : Op
  pub state : OpState

abbrev pub Monitor : Type 0
Monitor = List (ℕ × Inflight)

-- The events, each with the time; the span of a start is the tracer's.
pub data CommandEvent : Type 0 where
  command_started : ℕ → Command → Span → Option OpState → ℕ → CommandEvent
  command_succeeded : ℕ → ℕ → CommandEvent
  command_failed : ℕ → List ℕ → ℕ → CommandEvent

module _ (makes : List ℕ → Bool) (between : Metrics → Metrics) where
  -- `close`, of what was found under the request and is taken out.
  close_inflight : ℕ → Option (List ℕ) → Option Inflight → Process → Process
  close_inflight now err none p = p
  close_inflight now err (some f) p =
      (close (finish makes between f.state now) none (fail err f.op) p).1

  unfoldable pub close_request : ℕ → ℕ → Option (List ℕ) → Monitor → Process → Monitor × Process
  unfolding close_inflight
  close_request id now err m p = (erase id m, close_inflight now err (lookup id m) p)

  -- `started`, `succeeded` and `failed`.
  unfoldable pub command_event :
      (Value → String) → CommandEvent → Monitor × Process → Monitor × Process
  unfolding close_request start_op
  command_event show (command_started id c span parent now) (m, p) =
      let started = start_op show (codes "mongo." ++ c.name) (mongo_subject c) span parent now p in
      (insert id (record { op = new_op; state = started.1 }) m, started.0)
  command_event show (command_succeeded id now) (m, p) = close_request id now none m p
  command_event show (command_failed id failure now) (m, p) =
      close_request id now (some failure) m p

  unfoldable pub command_events :
      (Value → String) → List CommandEvent → Monitor × Process → Monitor × Process
  unfolding command_event
  command_events show [] s = s
  command_events show (e ∷ es) s = command_events show es (command_event show e s)
