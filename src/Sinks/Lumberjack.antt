-- ===== src/Sinks/Lumberjack.antt =====
-- The sink over lumberjack (internal/adapter/outbound/sink/file/lumberjack.go), whose loggers are
-- pointers, here numbers, with the settings that they were made with. Opening, writing and closing are
-- the library's: what is asked of it is recorded. The lock makes each call one step, but for the end
-- of a write, which has the logger that it took.
pub mod Loggers
use obs_brutal.Prelude.{
  ℕ, zero, suc, ◌+◌, ◌-◌, ◌*◌, ◌/◌, ◌%◌, ◌^◌, ◌≤◌, ◌<◌, min, max, String, ◌≡◌, refl, sym, ap, ◌∙◌,
  subst, ◌≢◌, ◌↔◌, ◌⊎◌, inl, inr, Bool, true, false, not, ◌&&◌, ◌||◌, Option, none, some, List, [],
  ◌∷◌, ◌++◌, map, append_assoc, append-nil, zero-add, suc-add, arith, ltb, leb, nat_eq,
  if◌then◌else◌, ltb→lt, lt→ltb, leb→le, le→leb, ltb_of_le, nat_eq_iff, tests, Bool-cases,
  Option-cases, is_some, length, is_empty, take, drop, replicate, get_elem?, keep, all, any, concat,
  All, length-append, length-snoc, snoc-ne-nil, length-drop, length-take, take-append-drop,
  length-replicate, length-keep-le, concat-append, concat-snoc, drop-append, All-append, All-drop,
  last_n, drop-nil, drop-drop, length-last_n, last_n_all, last_n-append, tally, tally-append,
  tally-concat-append, Key, bytes_eq, bytes_eq_iff, bytes_keys, string_keys, nat_keys, ◌==◌,
  eq_refl, prefer, lookup, erase, insert, insert_all, IsMap, lookup-insert, lookup-erase,
  length-insert-le, length-insert_present, length-insert_absent, lookup-insert_all, insert-IsMap,
  insert_all-IsMap, erase_absent, length-erase_present, erase-IsMap, erase-All, lookup-All,
  insert-All, range_into, ranged, lookup-range_into, range_into-IsMap, codes, as_string, is_upper,
  is_lower, is_digit, to_lower, has_prefix, contains,
}
use obs_brutal.Domain.Value.{Value, FieldMap, text, number, boolean}
use obs_brutal.Domain.Entry.{LogEntry, string_of}

pub record LumberSettings : Type 0 where
  pub filename : List ℕ
  pub max_size_mb : ℕ
  pub max_backups : ℕ
  pub max_age_days : ℕ
  pub compress : Bool

-- `made` are the loggers by their numbers, `lj` the one that is open, `closed` and `written` the calls
-- of `Close` and `Write`, by the logger.
pub record LumberjackSink : Type 0 where
  pub settings : LumberSettings
  pub lj : Option ℕ
  pub made : List (ℕ × LumberSettings)
  pub next : ℕ
  pub closed : List ℕ
  pub written : List (ℕ × LogEntry)

unfoldable pub new_lumberjack_sink : LumberjackSink
new_lumberjack_sink = record {
  settings = record {
    filename = codes "logs/app.log";
    max_size_mb = 50;
    max_backups = 7;
    max_age_days = 7;
    compress = true;
  };
  lj = none;
  made = [];
  next = 0;
  closed = [];
  written = [];
}

-- `ensure`, and the logger that there is then.
ensure_found : Option ℕ → LumberjackSink → ℕ × LumberjackSink
ensure_found (some n) s = (n, s)
ensure_found none s =
    (s.next, record s { lj = some s.next; made = (s.next, s.settings) ∷ s.made; next = s.next + 1 })

unfoldable pub ensure : LumberjackSink → ℕ × LumberjackSink
unfolding ensure_found
ensure s = ensure_found s.lj s

-- The two halves of `Write` of an entry: under the lock, and after the entry was encoded, when that
-- succeeds.
unfoldable pub write_taken : (LogEntry → Bool) → ℕ → LogEntry → LumberjackSink → LumberjackSink
write_taken encodes n e s = if encodes e then record s { written = s.written ++ (n, e) ∷ [] } else s

unfoldable pub write_lumberjack :
    (LogEntry → Bool) → Option LogEntry → LumberjackSink → LumberjackSink
unfolding ensure write_taken
write_lumberjack encodes none s = s
write_lumberjack encodes (some e) s = let taken = ensure s in write_taken encodes taken.0 e taken.1

-- `Close`, and the end of `Configure`.
close_found : Option ℕ → LumberjackSink → LumberjackSink
close_found none s = s
close_found (some n) s = record s { lj = none; closed = s.closed ++ n ∷ [] }

unfoldable pub close_lumberjack : LumberjackSink → LumberjackSink
unfolding close_found
close_lumberjack s = close_found s.lj s

-- The settings of `Configure`; a negative number is no value here.
name_setting : Option (List ℕ) → List ℕ → List ℕ
name_setting (some (c ∷ s)) old = c ∷ s
name_setting _ old = old

number_setting : Option Value → ℕ → ℕ
number_setting (some (number n)) old = n
number_setting _ old = old

positive_setting : Option Value → ℕ → ℕ
positive_setting (some (number n)) old = if ltb 0 n then n else old
positive_setting _ old = old

boolean_setting : Option Value → Bool → Bool
boolean_setting (some (boolean b)) old = b
boolean_setting _ old = old

unfoldable pub configured : FieldMap → LumberSettings → LumberSettings
unfolding name_setting number_setting positive_setting boolean_setting
configured cfg s = record {
  filename = name_setting (string_of (lookup "filename" cfg)) s.filename;
  max_size_mb = positive_setting (lookup "max_size_mb" cfg) s.max_size_mb;
  max_backups = number_setting (lookup "max_backups" cfg) s.max_backups;
  max_age_days = number_setting (lookup "max_age_days" cfg) s.max_age_days;
  compress = boolean_setting (lookup "compress" cfg) s.compress;
}

unfoldable pub configure_lumberjack : FieldMap → LumberjackSink → LumberjackSink
unfolding close_lumberjack
configure_lumberjack cfg s = close_lumberjack (record s { settings = configured cfg s.settings })
