-- ===== src/Util/Json.antt =====
-- An entry as a line of JSON (internal/util/json.go). `json.Marshal`, which may fail,
-- `strconv.Quote`, `sort.Strings` and the format of the time are parameters.
pub mod Members
use obs_brutal.Prelude.{
  ℕ, String, Bool, true, false, Option, none, some, List, [], ◌∷◌, ◌++◌, if◌then◌else◌, is_empty,
  any, bytes_keys, string_keys, nat_keys, ◌==◌, lookup, codes,
}
use obs_brutal.Domain.Level.{level_string}
use obs_brutal.Domain.Value.{Value, FieldMap, text, null}
use obs_brutal.Domain.Entry.{LogEntry, entries_of}

-- `reserved`.
abbrev pub reserved : List String
reserved =
    "datetime" ∷ "level" ∷ "msg" ∷ "trace_id" ∷ "span_id" ∷ "request_id" ∷ "user_id" ∷ "module"
    ∷ "tenant_id" ∷ "context" ∷ []

unfoldable pub is_reserved : String → Bool
is_reserved k = any (λ r. r == k) reserved

-- `if v != "" { writeKV(k, v) }`.
unfoldable pub member_if : String → List ℕ → List (String × Value)
member_if k v = if is_empty v then [] else (k, text v) ∷ []

-- The keys of the fields that are written.
unfoldable pub free_keys : FieldMap → List String
free_keys [] = []
free_keys ((k, v) ∷ m) = let rest = free_keys m in if is_reserved k then rest else k ∷ rest

-- `m[k]`, nil where the key is missing.
abbrev pub read : Option Value → Value
read none = null
read (some v) = v

unfoldable pub rows_of : FieldMap → List String → List (String × Value)
rows_of m [] = []
rows_of m (k ∷ ks) = (k, read (lookup k m)) ∷ rows_of m ks

-- The members that the entry itself has.
unfoldable pub own_members : (ℕ → List ℕ) → LogEntry → List (String × Value)
own_members format e =
    ("datetime", text (format e.timestamp))
      ∷ ("level", text (level_string e.level))
      ∷ ("msg", text e.msg)
      ∷ member_if "trace_id" e.trace_id
    ++ member_if "span_id" e.span_id
    ++ member_if "request_id" e.request_id
    ++ member_if "user_id" e.user_id
    ++ member_if "module" e.mod_name
    ++ member_if "tenant_id" e.tenant_id

module _ (format : ℕ → List ℕ) (sort : List String → List String) where
  -- All that is written, in order.
  unfoldable pub json_members : LogEntry → List (String × Value)
  json_members e =
      own_members format e ++ rows_of (entries_of e.fields) (sort (free_keys (entries_of e.fields)))

module _ (marshal : Value → Option (List ℕ)) (quote : String → List ℕ) where
  -- `writeKV`, for each member; the first one has no comma before it.
  append_kv : Bool → String → Option (List ℕ) → List ℕ → Option (List ℕ)
  append_kv first k none buf = none
  append_kv first k (some b) buf =
      some (buf ++ (if first then [] else codes ",") ++ quote k ++ codes ":" ++ b)

  unfoldable pub write_members : Bool → List (String × Value) → Option (List ℕ) → Option (List ℕ)
  unfolding append_kv
  write_members first ms none = none
  write_members first [] (some buf) = some buf
  write_members first ((k, v) ∷ ms) (some buf) =
      write_members false ms (append_kv first k (marshal v) buf)

  close_line : Option (List ℕ) → Option (List ℕ)
  close_line none = none
  close_line (some buf) = some (buf ++ codes "}" ++ 10 ∷ [])

  -- `EncodeEntryToJSON`.
  module _ (format : ℕ → List ℕ) (sort : List String → List String) where
    unfoldable pub encode_entry_to_json : LogEntry → Option (List ℕ)
    unfolding write_members close_line
    encode_entry_to_json e =
        close_line (write_members true (json_members format sort e) (some (codes "{")))
