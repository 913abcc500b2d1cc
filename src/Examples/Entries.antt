-- ===== src/Examples/Entries.antt =====
-- Levels, entries and their pool at concrete values.
use obs_brutal.Prelude.{some, [], ◌∷◌, codes}
use obs_brutal.Domain.Level.{warn_level}
use obs_brutal.Domain.Value.{text, number, context}
use obs_brutal.Domain.Entry.{LogEntry, bare_entry, entries_of}
use obs_brutal.Base.Promote.{promote}
use obs_brutal.Base.Promote.Laws.{IsPromoted, promote-IsPromoted}

-- A line of one user, with the identifier of another in the fields.
abbrev line : LogEntry
line = record (bare_entry warn_level (codes "late") 9) {
  user_id = codes "ann";
  fields = some (
      ("trace_id", text (codes "t1"))
      ∷ ("user_id", text (codes "bob"))
      ∷ ("context", context 3)
      ∷ ("span_id", number 4)
      ∷ []);
}

promote-IsPromoted_example : IsPromoted line (entries_of line.fields) (promote line)
promote-IsPromoted_example = promote-IsPromoted line
