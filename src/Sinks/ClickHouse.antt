-- ===== src/Sinks/ClickHouse.antt =====
-- The sink for ClickHouse (internal/adapter/outbound/sink/network/clickhouse.go): its settings, the
-- row that it makes of an entry and the requests that it sends. What the server answers is an
-- argument, and so are the format of a time, `json.Marshal` of the fields, which gives nothing on an
-- error, and that of a row of texts, which has none. An endpoint that does not parse is outside.
pub mod Rows
use obs_brutal.Prelude.{
  ℕ, zero, suc, ◌+◌, ◌-◌, ◌*◌, ◌/◌, ◌%◌, ◌^◌, ◌≤◌, ◌<◌, min, max, String, ◌≡◌, refl, sym, ap, ◌∙◌,
  subst, ◌≢◌, ◌↔◌, ◌⊎◌, inl, inr, Bool, true, false, not, ◌&&◌, ◌||◌, Option, none, some, List, [],
  ◌∷◌, ◌++◌, map, append_assoc, append-nil, zero-add, suc-add, arith, ltb, leb, nat_eq,
  if◌then◌else◌, ltb→lt, lt→ltb, leb→le, le→leb, ltb_of_le, nat_eq_iff, tests, Bool-cases,
  Option-cases, is_some, length, is_empty, take, drop, replicate, get_elem?, keep, all, any, concat,
  All, length-append, length-snoc, snoc-ne-nil, length-drop, length-take, take-append-drop,
  length-replicate, length-keep-le, concat-append, concat-snoc, drop-append, All-append, All-drop,
  last_n, drop-nil, drop-drop, length-last_n, last_n_all, last_n-append, tally, tally-append,
  tally-concat-append, Key, bytes_eq, bytes_eq_iff, bytes_keys, string_keys, nat_keys, ◌==◌,
  eq_refl, prefer, lookup, erase, insert, insert_all, IsMap, lookup-insert, lookup-erase,
  length-insert-le, length-insert_present, length-insert_absent, lookup-insert_all, insert-IsMap,
  insert_all-IsMap, erase_absent, length-erase_present, erase-IsMap, erase-All, lookup-All,
  insert-All, range_into, ranged, lookup-range_into, range_into-IsMap, codes, as_string, is_upper,
  is_lower, is_digit, to_lower, has_prefix, contains,
}
use obs_brutal.Domain.Level.{level_string}
use obs_brutal.Domain.Value.{Value, FieldMap, text, boolean, as_text}
use obs_brutal.Domain.Entry.{LogEntry, entries_of, string_of}

pub record ClickHouseSink : Type 0 where
  pub endpoint : List ℕ
  pub database : List ℕ
  pub table : List ℕ
  pub username : List ℕ
  pub password : List ℕ
  pub auto_create : Bool

unfoldable pub new_clickhouse_sink : ClickHouseSink
new_clickhouse_sink = record {
  endpoint = codes "http://localhost:8123";
  database = codes "default";
  table = codes "logs";
  username = [];
  password = [];
  auto_create = true;
}

-- `if v, ok := cfg[k].(string); ok && v != ""`, `ok` alone, and the one for a Boolean.
text_setting : Option (List ℕ) → List ℕ → List ℕ
text_setting none old = old
text_setting (some []) old = old
text_setting (some (c ∷ s)) old = c ∷ s

unfoldable pub any_text_setting : Option (List ℕ) → List ℕ → List ℕ
any_text_setting none old = old
any_text_setting (some s) old = s

boolean_setting : Option Value → Bool → Bool
boolean_setting (some (boolean b)) old = b
boolean_setting _ old = old

-- `Configure`.
unfoldable pub configure_clickhouse : FieldMap → ClickHouseSink → ClickHouseSink
unfolding text_setting any_text_setting boolean_setting
configure_clickhouse cfg s = record {
  endpoint = text_setting (string_of (lookup "endpoint" cfg)) s.endpoint;
  database = text_setting (string_of (lookup "database" cfg)) s.database;
  table = text_setting (string_of (lookup "table" cfg)) s.table;
  username = any_text_setting (string_of (lookup "username" cfg)) s.username;
  password = any_text_setting (string_of (lookup "password" cfg)) s.password;
  auto_create = boolean_setting (lookup "auto_create" cfg) s.auto_create;
}

-- `firstStr` and `errorStr`.
unfoldable pub first_str : List ℕ → Option Value → List ℕ
first_str (c ∷ s) alt = c ∷ s
first_str [] alt = any_text_setting (string_of alt) []

unfoldable pub error_of_fields : Option (List ℕ) → FieldMap → List ℕ
error_of_fields (some e) m = e
error_of_fields none m = any_text_setting (string_of (lookup "error" m)) []

unfoldable pub error_str : LogEntry → List ℕ
unfolding error_of_fields
error_str e = error_of_fields e.err (entries_of e.fields)

-- A cell of the row is a text under the name of its column.
abbrev pub Row : Type 0
Row = List (String × List ℕ)

unfoldable pub row_of : (ℕ → List ℕ) → (Option FieldMap → List ℕ) → LogEntry → Row
row_of format marshal e =
    let m = entries_of e.fields in
    ("datetime", format e.timestamp)
    ∷ ("level", level_string e.level)
    ∷ ("msg", e.msg)
    ∷ ("trace_id", first_str e.trace_id (lookup "trace_id" m))
    ∷ ("span_id", first_str e.span_id (lookup "span_id" m))
    ∷ ("request_id", first_str e.request_id (lookup "request_id" m))
    ∷ ("user_id", first_str e.user_id (lookup "user_id" m))
    ∷ ("module", first_str e.mod_name (lookup "module" m))
    ∷ ("tenant_id", first_str e.tenant_id (lookup "tenant_id" m))
    ∷ ("error", error_str e)
    ∷ ("fields", marshal e.fields)
    ∷ []

-- A request: where it goes, its query, the row of its body, and the credentials that it has.
pub data Query : Type 0 where
  create_table : List ℕ → List ℕ → Query
  insert_into : List ℕ → List ℕ → Query

pub record Request : Type 0 where
  pub endpoint : List ℕ
  pub query : Query
  pub body : Option Row
  pub credentials : Option (List ℕ × List ℕ)

credentials_of : ClickHouseSink → Option (List ℕ × List ℕ)
credentials_of s = if is_empty s.username then none else some (s.username, s.password)

request_of : ClickHouseSink → Query → Option Row → Request
unfolding credentials_of
request_of s q body = record {
  endpoint = s.endpoint;
  query = q;
  body = body;
  credentials = credentials_of s;
}

-- `ensureTable`: the error of the query is thrown away.
unfoldable pub ensure_table : ClickHouseSink → List Request
unfolding request_of
ensure_table s =
    if not s.auto_create then [] else request_of s (create_table s.database s.table) none ∷ []

-- The end of `Write` and of `execQuery`, by the status of the answer, `none` where there is none.
pub data SendError : Type 0 where
  not_sent : SendError
  refused_status : ℕ → SendError

unfoldable pub answer_error : Option ℕ → Option SendError
answer_error none = some not_sent
answer_error (some status) = if leb 300 status then some (refused_status status) else none

-- `Write`: the requests, in order, and its error. `answer` is what the server gives to a request.
unfoldable pub write_clickhouse :
    (ℕ → List ℕ)
    → (Option FieldMap → List ℕ)
    → (Request → Option ℕ)
    → Option LogEntry
    → ClickHouseSink
    → List Request × Option SendError
unfolding row_of ensure_table request_of answer_error
write_clickhouse format marshal answer none s = ([], none)
write_clickhouse format marshal answer (some e) s =
    let insertion =
      request_of s (insert_into s.database s.table) (some (row_of format marshal e)) in
    (ensure_table s ++ insertion ∷ [], answer_error (answer insertion))
