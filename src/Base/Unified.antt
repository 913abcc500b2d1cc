-- ===== src/Base/Unified.antt =====
-- The synchronous logger (internal/core/service/base/unified.go). Loggers are values: a chained
-- call returns a new one. What they share, the sinks and the counters behind `logCount`, is in the
-- `World`.
pub mod Logging
use obs_brutal.Prelude.{
  ℕ, ◌+◌, String, Bool, true, false, Option, none, some, List, [], ◌∷◌, ◌++◌, ltb, nat_eq,
  if◌then◌else◌, is_empty, nat_keys, string_keys, bytes_keys, insert, insert_all,
}
use obs_brutal.Domain.Level.{Level, debug_level, info_level, warn_level, error_level, fatal_level}
use obs_brutal.Domain.Value.{Value, FieldMap, text, context}
use obs_brutal.Domain.Entry.{LogEntry, bare_entry}
use obs_brutal.Util.Context.{Context, get_trace_id, get_user_id, get_request_id}
use obs_brutal.Base.Promote.{promote}

-- What was written, oldest first, with the sink that was called; and the counters by address.
pub record World : Type 0 where
  pub writes : List (ℕ × LogEntry)
  pub counts : ℕ → ℕ

-- A sink is its identity, and `none` a nil one; `log_count` is the address of the shared counter.
pub record UnifiedLog : Type 0 where
  pub level : Level
  pub sinks : List (Option ℕ)
  pub fields : FieldMap
  pub log_count : Option ℕ
  pub is_clone : Bool

-- `NewUnifiedLogBrt`: without sinks the entries go to the default one, on the standard output.
default_sinks : ℕ → List (Option ℕ) → List (Option ℕ)
default_sinks stdout [] = some stdout ∷ []
default_sinks stdout (s ∷ ss) = s ∷ ss

unfoldable pub new_unified : ℕ → ℕ → Level → List (Option ℕ) → UnifiedLog
unfolding default_sinks
new_unified stdout counter level sinks = record {
  level = level;
  sinks = default_sinks stdout sinks;
  fields = [];
  log_count = some counter;
  is_clone = false;
}

unfoldable pub clone : UnifiedLog → UnifiedLog
clone l = record {
  level = l.level;
  sinks = l.sinks;
  fields = insert_all l.fields [];
  log_count = l.log_count;
  is_clone = true;
}

-- `F` and `Fs`.
unfoldable pub with_field : String → Value → UnifiedLog → UnifiedLog
unfolding clone
with_field k v l = let c = clone l in record c { fields = insert k v c.fields }

unfoldable pub with_fields : FieldMap → UnifiedLog → UnifiedLog
unfolding clone
with_fields [] l = l
with_fields (f ∷ fs) l = let c = clone l in record c { fields = insert_all (f ∷ fs) c.fields }

-- `if v := …; v != "" { c.fields[k] = v }`.
insert_text : String → List ℕ → FieldMap → FieldMap
insert_text k [] m = m
insert_text k (c ∷ s) m = insert k (text (c ∷ s)) m

-- `Ctx`.
unfoldable pub with_context : Option Context → UnifiedLog → UnifiedLog
unfolding clone insert_text
with_context none l = l
with_context (some ctx) l =
    let c = clone l in
    let m0 = insert "context" (context ctx.id) c.fields in
    let m1 = insert_text "trace_id" (get_trace_id (some ctx)) m0 in
    let m2 = insert_text "user_id" (get_user_id (some ctx)) m1 in
    let m3 = insert_text "request_id" (get_request_id (some ctx)) m2 in record c { fields = m3 }

-- `WithError`; an error is its message.
unfoldable pub with_error : Option (List ℕ) → UnifiedLog → UnifiedLog
unfolding with_field
with_error none l = l
with_error (some msg) l = with_field "error" (text msg) l

-- `for _, s := range l.sinks { if s != nil { _ = s.Write(entry) } }`.
unfoldable pub write_all : List (Option ℕ) → LogEntry → List (ℕ × LogEntry) → List (ℕ × LogEntry)
write_all [] e w = w
write_all (none ∷ ss) e w = write_all ss e w
write_all (some s ∷ ss) e w = write_all ss e (w ++ (s, e) ∷ [])

-- `IncCount`: `logCount.Add(1)`, an `int64` that is taken not to wrap.
unfoldable pub inc_count : Option ℕ → (ℕ → ℕ) → ℕ → ℕ
inc_count none c a = c a
inc_count (some b) c a = if nat_eq a b then c a + 1 else c a

unfoldable pub log_count : UnifiedLog → World → ℕ
log_count l w = elim l.log_count [ none ↦ 0 | some a ↦ w.counts a ]

-- `newLogEntry`.
unfoldable pub new_entry : Level → List ℕ → FieldMap → ℕ → LogEntry
new_entry lvl msg [] now = bare_entry lvl msg now
new_entry lvl msg (f ∷ fs) now =
    promote (record (bare_entry lvl msg now) { fields = some (insert_all (f ∷ fs) []) })

-- The two ends of `log`: the path without fields makes its entry itself.
log_entry : List (Option ℕ) → Option ℕ → LogEntry → World → World
log_entry ss counter e w = record {
  writes = write_all ss e w.writes;
  counts = inc_count counter w.counts;
}

unfoldable pub log : UnifiedLog → Level → List ℕ → ℕ → World → World
unfolding log_entry
log l lvl msg now w =
    if ltb lvl l.level
    then w
    else if is_empty l.fields
    then log_entry l.sinks l.log_count (bare_entry lvl msg now) w
    else log_entry l.sinks l.log_count (new_entry lvl msg l.fields now) w

-- `FieldsCopy`, `WithOnlyFields`, `WriteEntry`.
unfoldable pub fields_copy : UnifiedLog → FieldMap
fields_copy l = insert_all l.fields []

unfoldable pub with_only_fields : FieldMap → UnifiedLog → UnifiedLog
unfolding clone
with_only_fields m l = record (clone l) { fields = insert_all m [] }

unfoldable pub write_entry : UnifiedLog → LogEntry → World → World
write_entry l e w = record w { writes = write_all l.sinks e w.writes }
