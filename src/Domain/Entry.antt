-- ===== src/Domain/Entry.antt =====
-- Log entries and their methods (internal/core/domain/models.go). A method that changes the entry
-- returns the new entry.
use obs_brutal.Prelude.{
  ℕ, String, ◌≡◌, Bool, Option, none, some, List, [], arith, if◌then◌else◌, is_some, ◌==◌, nat_keys,
  string_keys, bytes_keys, lookup, insert, insert_all, lookup-insert,
}
use obs_brutal.Domain.Level.{Level, debug_level, info_level}
use obs_brutal.Domain.Value.{Value, FieldMap, as_text}

-- `fields` is the map `F`, `none` where it is nil; `err` is the message of the error; a timestamp
-- is in nanoseconds, and the zero time is 0.
pub record LogEntry : Type 0 where
  pub level : Level
  pub msg : List ℕ
  pub fields : Option FieldMap
  pub timestamp : ℕ
  pub mod_name : List ℕ
  pub tenant_id : List ℕ
  pub user_id : List ℕ
  pub trace_id : List ℕ
  pub span_id : List ℕ
  pub request_id : List ℕ
  pub err : Option (List ℕ)

-- Reading a nil map is reading an empty one.
abbrev pub entries_of : Option FieldMap → FieldMap
entries_of none = []
entries_of (some m) = m

-- An entry with the fields of the literal `&LogEntry{Level: …, Msg: …, Timestamp: …}` set.
unfoldable pub bare_entry : Level → List ℕ → ℕ → LogEntry
bare_entry l msg now = record {
  level = l;
  msg = msg;
  fields = none;
  timestamp = now;
  mod_name = [];
  tenant_id = [];
  user_id = [];
  trace_id = [];
  span_id = [];
  request_id = [];
  err = none;
}

-- `NewLogEntry`.
unfoldable pub new_log_entry : ℕ → LogEntry
unfolding bare_entry
new_log_entry now = record (bare_entry debug_level [] now) { fields = some [] }

-- `Clone`: the fields are copied one by one into a new map.
unfoldable pub clone_entry : LogEntry → LogEntry
clone_entry le = record le { fields = some (insert_all (entries_of le.fields) []) }

-- `clear(m)` leaves a nil map nil.
abbrev clear_map : Option FieldMap → Option FieldMap
clear_map none = none
clear_map (some m) = some []

-- `Reset`.
unfoldable pub reset : LogEntry → LogEntry
reset le = record {
  level = info_level;
  msg = [];
  fields = clear_map le.fields;
  timestamp = 0;
  mod_name = [];
  tenant_id = [];
  user_id = [];
  trace_id = [];
  span_id = [];
  request_id = [];
  err = none;
}

-- `AddField`, `AddFields`: a nil map is made first.
unfoldable pub add_field : String → Value → LogEntry → LogEntry
add_field k v le = record le { fields = some (insert k v (entries_of le.fields)) }

unfoldable pub add_fields : FieldMap → LogEntry → LogEntry
add_fields m le = record le { fields = some (insert_all m (entries_of le.fields)) }

unfoldable pub get_field : String → LogEntry → Option Value
get_field k le = lookup k (entries_of le.fields)

unfoldable pub has_field : String → LogEntry → Bool
has_field k le = is_some (lookup k (entries_of le.fields))

-- The inner assertion of `GetStringField`.
abbrev pub string_of : Option Value → Option (List ℕ)
string_of none = none
string_of (some v) = as_text v

unfoldable pub get_string_field : String → LogEntry → Option (List ℕ)
get_string_field k le = string_of (lookup k (entries_of le.fields))

-- A blank entry carries nothing of the entry that was logged before.
pub record IsBlank (le : LogEntry) : Type 0 where
  pub no_msg : le.msg ≡ []
  pub no_fields : entries_of le.fields ≡ []
  pub no_mod : le.mod_name ≡ []
  pub no_tenant : le.tenant_id ≡ []
  pub no_user : le.user_id ≡ []
  pub no_trace : le.trace_id ≡ []
  pub no_span : le.span_id ≡ []
  pub no_request : le.request_id ≡ []
  pub no_err : le.err ≡ none

pub new_log_entry-IsBlank : (now : ℕ) → IsBlank (new_log_entry now)
unfolding new_log_entry
new_log_entry-IsBlank now = ground arith

pub reset-IsBlank : (le : LogEntry) → IsBlank (reset le)
unfolding reset
reset-IsBlank le = ground arith

-- A field that was added is the one that is read back, and the other fields are as before.
pub get_field-add_field :
    (k j : String) (v : Value) (le : LogEntry)
    → get_field j (add_field k v le) ≡ (if k == j then some v else get_field j le)
unfolding get_field add_field
get_field-add_field k j v le = lookup-insert k j v (entries_of le.fields)
