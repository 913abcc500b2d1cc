-- ===== src/Domain/FieldMaps.antt =====
-- The pool of field maps and the errors of HTTP (internal/core/domain/models.go). Maps are shared by
-- pointers, so the pool is over a store: a map is its address.
pub mod Sharing
use obs_brutal.Prelude.{
  ℕ, zero, suc, ◌+◌, ◌-◌, ◌*◌, ◌/◌, ◌%◌, ◌^◌, ◌≤◌, ◌<◌, min, max, String, ◌≡◌, refl, sym, ap, ◌∙◌,
  subst, ◌≢◌, ◌↔◌, ◌⊎◌, inl, inr, Bool, true, false, not, ◌&&◌, ◌||◌, Option, none, some, List, [],
  ◌∷◌, ◌++◌, map, append_assoc, append-nil, zero-add, suc-add, arith, ltb, leb, nat_eq,
  if◌then◌else◌, ltb→lt, lt→ltb, leb→le, le→leb, ltb_of_le, nat_eq_iff, tests, Bool-cases,
  Option-cases, is_some, length, is_empty, take, drop, replicate, get_elem?, keep, all, any, concat,
  All, length-append, length-snoc, snoc-ne-nil, length-drop, length-take, take-append-drop,
  length-replicate, length-keep-le, concat-append, concat-snoc, drop-append, All-append, All-drop,
  last_n, drop-nil, drop-drop, length-last_n, last_n_all, last_n-append, tally, tally-append,
  tally-concat-append, Key, bytes_eq, bytes_eq_iff, bytes_keys, string_keys, nat_keys, ◌==◌,
  eq_refl, prefer, lookup, erase, insert, insert_all, IsMap, lookup-insert, lookup-erase,
  length-insert-le, length-insert_present, length-insert_absent, lookup-insert_all, insert-IsMap,
  insert_all-IsMap, erase_absent, length-erase_present, erase-IsMap, erase-All, lookup-All,
  insert-All, range_into, ranged, lookup-range_into, range_into-IsMap, codes, as_string, is_upper,
  is_lower, is_digit, to_lower, has_prefix, contains,
}
use obs_brutal.Domain.Value.{Value, FieldMap}

-- The channel, what the maps hold, and the next free address.
pub record FieldMaps : Type 0 where
  pub pool : List ℕ
  pub cells : ℕ → FieldMap
  pub next : ℕ

abbrev pub field_map_capacity : ℕ
field_map_capacity = 100

abbrev pub no_field_maps : FieldMaps
no_field_maps = record { pool = []; cells = λ a. []; next = 0 }

abbrev pub update : (ℕ → FieldMap) → ℕ → FieldMap → ℕ → FieldMap
update cells a m b = if nat_eq b a then m else cells b

-- `GetFieldMap`.
take_map : List ℕ → FieldMaps → ℕ × FieldMaps
take_map [] s = (s.next, record s { cells = update s.cells s.next []; next = s.next + 1 })
take_map (a ∷ rest) s = (a, record s { pool = rest })

unfoldable pub get_field_map : FieldMaps → ℕ × FieldMaps
unfolding take_map
get_field_map s = take_map s.pool s

-- `PutFieldMap`: nil is ignored; a map is cleared, and dropped where the channel is full.
unfoldable pub put_field_map : Option ℕ → FieldMaps → FieldMaps
put_field_map none s = s
put_field_map (some a) s = record s {
  cells = update s.cells a [];
  pool = if ltb (length s.pool) field_map_capacity then s.pool ++ a ∷ [] else s.pool;
}

-- What the holder of a map does with it: `m[k] = v`.
unfoldable pub fill_map : ℕ → String → Value → FieldMaps → FieldMaps
fill_map a k v s = record s { cells = update s.cells a (insert k v (s.cells a)) }

-- `HTTPError` and its `Error`, with the decimal digits of a number.
pub record HttpError : Type 0 where
  pub status_code : ℕ
  pub message : List ℕ

unfoldable pub new_http_error : ℕ → List ℕ → HttpError
new_http_error code message = record { status_code = code; message = message }

unfoldable pub http_error_text : (ℕ → List ℕ) → HttpError → List ℕ
http_error_text decimal e = codes "HTTP " ++ (decimal e.status_code ++ (codes ": " ++ e.message))
