-- ===== src/Sinks/Lumberjack/Loggers.antt =====
-- The loggers that a lumberjack sink makes (internal/adapter/outbound/sink/file/lumberjack.go), in any
-- interleaving of writes, closes and changes of the settings.
use obs_brutal.Prelude.{
  ℕ, ◌+◌, ◌≡◌, refl, sym, ap, subst, inl, inr, Bool, Option, none, some, List, [], ◌∷◌, arith, ltb,
  nat_eq, if◌then◌else◌, Bool-cases, tally, tally-append, bytes_keys, string_keys, nat_keys, lookup,
}
use obs_brutal.Domain.Value.{FieldMap}
use obs_brutal.Domain.Entry.{LogEntry}
use obs_brutal.Sinks.Lumberjack.{
  LumberSettings, LumberjackSink, new_lumberjack_sink, ensure, ensure_found, write_taken,
  close_lumberjack, close_found, configure_lumberjack,
}

-- A write takes its logger and later ends with the one it took; both halves are steps.
pub data LumberCall : Type 0 where
  takes : LumberCall
  ends : ℕ → LogEntry → LumberCall
  closes : LumberCall
  configures : FieldMap → LumberCall

module _ (encodes : LogEntry → Bool) where
  unfoldable pub lumber_call : LumberCall → LumberjackSink → LumberjackSink
  unfolding ensure write_taken close_lumberjack configure_lumberjack
  lumber_call takes s = (ensure s).1
  lumber_call (ends n e) s = write_taken encodes n e s
  lumber_call closes s = close_lumberjack s
  lumber_call (configures cfg) s = configure_lumberjack cfg s

  unfoldable pub lumber_calls : List LumberCall → LumberjackSink → LumberjackSink
  unfolding lumber_call
  lumber_calls [] s = s
  lumber_calls (c ∷ cs) s = lumber_calls cs (lumber_call c s)

abbrev pub open_once : Option ℕ → ℕ → ℕ
open_once none a = 0
open_once (some n) a = if nat_eq a n then 1 else 0

abbrev pub SettledFor : Option ℕ → List (ℕ × LumberSettings) → LumberSettings → Type 0
SettledFor none made settings = Unit
SettledFor (some n) made settings = lookup n made ≡ some settings

-- The open logger has the settings of the sink, and each logger is open or was closed, once.
pub record IsOrderly (s : LumberjackSink) : Type 0 where
  pub current : SettledFor s.lj s.made s.settings
  pub once :
      (a : ℕ) → open_once s.lj a + tally (nat_eq a) s.closed ≡ (if ltb a s.next then 1 else 0)

ensure-IsOrderly : (s : LumberjackSink) → IsOrderly s → IsOrderly (ensure s).1
unfolding ensure lookup
ensure-IsOrderly s i = by s.lj refl
  where
    by : (o : Option ℕ) → s.lj ≡ o → IsOrderly (ensure_found o s).1
    by (some n) e = i
    by none e = record {
      current = ground arith;
      once = λ a. ground (arith, i.once a, ap (λ o. open_once o a) e);
    }

closed-IsOrderly :
    (s : LumberjackSink)
    → ((a : ℕ) → open_once s.lj a + tally (nat_eq a) s.closed ≡ (if ltb a s.next then 1 else 0))
    → IsOrderly (close_lumberjack s)
unfolding close_lumberjack
closed-IsOrderly s once = by s.lj refl
  where
    by : (o : Option ℕ) → s.lj ≡ o → IsOrderly (close_found o s)
    by none e = record {
      current = subst (λ o. SettledFor o s.made s.settings) (sym e) tt;
      once = once;
    }
    by (some n) e = record {
      current = tt;
      once = λ a.
          ground
            (arith, once a, ap (λ o. open_once o a) e, tally-append (nat_eq a) s.closed (n ∷ []));
    }

write_taken-IsOrderly :
    (encodes : LogEntry → Bool) (n : ℕ) (e : LogEntry) (s : LumberjackSink)
    → IsOrderly s
    → IsOrderly (write_taken encodes n e s)
unfolding write_taken
write_taken-IsOrderly encodes n e s i = elim (Bool-cases (encodes e)) [
  | inl fine ↦ simp fine (record { current = i.current; once = i.once })
  | inr bad ↦ simp bad i
]

new_lumberjack_sink-IsOrderly : IsOrderly new_lumberjack_sink
unfolding new_lumberjack_sink
new_lumberjack_sink-IsOrderly = record { current = tt; once = λ a. ground arith }

module _ (encodes : LogEntry → Bool) where
  lumber_call-IsOrderly :
      (c : LumberCall) (s : LumberjackSink) → IsOrderly s → IsOrderly (lumber_call encodes c s)
  unfolding lumber_call configure_lumberjack
  lumber_call-IsOrderly takes s i = ensure-IsOrderly s i
  lumber_call-IsOrderly (ends n e) s i = write_taken-IsOrderly encodes n e s i
  lumber_call-IsOrderly closes s i = closed-IsOrderly s i.once
  lumber_call-IsOrderly (configures cfg) s i = closed-IsOrderly _ i.once

  lumber_calls-from :
      (cs : List LumberCall) (s : LumberjackSink)
      → IsOrderly s
      → IsOrderly (lumber_calls encodes cs s)
  unfolding lumber_calls
  lumber_calls-from [] s i = i
  lumber_calls-from (c ∷ cs) s i =
      lumber_calls-from cs (lumber_call encodes c s) (lumber_call-IsOrderly c s i)

  -- In any interleaving of writes, closes and changes of the settings on a new sink, an open logger
  -- has the settings of the sink, and every logger that was made is open or was closed once.
  pub lumber_calls-IsOrderly :
      (cs : List LumberCall) → IsOrderly (lumber_calls encodes cs new_lumberjack_sink)
  lumber_calls-IsOrderly cs = lumber_calls-from cs new_lumberjack_sink new_lumberjack_sink-IsOrderly
