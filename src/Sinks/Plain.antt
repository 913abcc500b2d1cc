-- ===== src/Sinks/Plain.antt =====
-- The sinks without a state of their own worth the name: those to the standard output
-- (internal/adapter/outbound/sink/stdout), the switch around another sink, and the one over zerolog
-- (internal/adapter/outbound/sink/zerolog/zerolog.go). What is written to the standard output, by an
-- inner sink and by zerolog is a parameter or recorded.
use obs_brutal.Prelude.{
  ℕ, String, ◌≡◌, refl, Bool, true, false, ◌&&◌, ◌||◌, Option, none, some, List, [], ◌∷◌, ◌++◌,
  nat_eq, if◌then◌else◌, bytes_keys, string_keys, nat_keys, lookup,
}
use obs_brutal.Domain.Level.{Level, debug_level, info_level, warn_level, error_level}
use obs_brutal.Domain.Value.{Value, FieldMap, boolean}
use obs_brutal.Domain.Entry.{LogEntry, entries_of}

-- `Write` of the two sinks for the standard output: the error of `WriteJSONToWriter`, and the bytes.
unfoldable pub write_stdout :
    (LogEntry → Option (List ℕ)) → Option LogEntry → List (List ℕ) → Bool × List (List ℕ)
write_stdout encode none out = (true, out)
write_stdout encode (some e) out = elim (encode e) [
  | none ↦ (false, out)
  | some line ↦ (true, out ++ line ∷ [])
]

-- `ToggleSink`, with whether there is an inner sink.
pub record ToggleSink : Type 0 where
  pub has_inner : Bool
  pub enabled : Bool

unfoldable pub new_toggle_sink : Bool → Bool → ToggleSink
new_toggle_sink has_inner enabled = record { has_inner = has_inner; enabled = enabled }

switched : Option Value → Bool → Bool
switched (some (boolean b)) old = b
switched _ old = old

-- `Configure`: an inner sink, of any state, is configured too, and its error is thrown away.
unfoldable pub configure_toggle :
    {I : Type 0} → (FieldMap → I → I) → FieldMap → ToggleSink → I → ToggleSink × I
unfolding switched
configure_toggle inner cfg t i = (
  record t { enabled = switched (lookup "enabled" cfg) t.enabled },
  if t.has_inner then inner cfg i else i,
)

-- `Write`: what the inner sink returns, or no error.
unfoldable pub write_toggle :
    {I : Type 0} → (LogEntry → I → Bool × I) → Option LogEntry → ToggleSink → I → Bool × I
write_toggle inner none t i = (true, i)
write_toggle inner (some e) t i = if t.enabled && t.has_inner then inner e i else (true, i)

-- An event of zerolog: its level, `none` for one without, and its fields in the order in which they
-- are set.
pub record ZerologEvent : Type 0 where
  pub level : Option Level
  pub texts : List (String × List ℕ)
  pub interfaces : FieldMap

zerolog_level : Level → Option Level
zerolog_level l =
    if nat_eq l debug_level || nat_eq l info_level || nat_eq l warn_level || nat_eq l error_level
    then some l
    else none

text_if : String → List ℕ → List (String × List ℕ)
text_if k [] = []
text_if k (c ∷ s) = (k, c ∷ s) ∷ []

-- `Write` of an entry.
unfoldable pub zerolog_event : LogEntry → ZerologEvent
unfolding zerolog_level text_if
zerolog_event e = record {
  level = zerolog_level e.level;
  texts =
      ("msg", e.msg)
      ∷ (text_if "trace_id" e.trace_id
          ++ (text_if "span_id" e.span_id ++ text_if "request_id" e.request_id));
  interfaces = entries_of e.fields;
}

unfoldable pub write_zerolog : Option LogEntry → List ZerologEvent → List ZerologEvent
unfolding zerolog_event
write_zerolog none out = out
write_zerolog (some e) out = out ++ zerolog_event e ∷ []

-- A sink behind a switch that was set last to off does nothing to the inner sink, and one that was
-- set last to on is the inner sink.
pub write_toggle-configure_toggle :
    {I : Type 0} (inner : LogEntry → I → Bool × I) (configure : FieldMap → I → I) (cfg : FieldMap)
    (b : Bool) (e : LogEntry) (t : ToggleSink) (i : I)
    → lookup "enabled" cfg ≡ some (boolean b)
    → t.has_inner ≡ true
    → let set = configure_toggle configure cfg t i in
      write_toggle inner (some e) set.0 set.1
      ≡ (if b then inner e (configure cfg i) else (true, configure cfg i))
unfolding write_toggle configure_toggle
write_toggle-configure_toggle inner configure cfg b e t i h found = simp (h, found) (by b)
  where
    by :
        (x : Bool)
        → (if x && true then inner e (configure cfg i) else (true, configure cfg i))
          ≡ (if x then inner e (configure cfg i) else (true, configure cfg i))
    by true = refl
    by false = refl
