-- ===== src/Tracing/Extract.antt =====
-- The fields of a value for one line (internal/adapter/outbound/sink/options/options.go, `Fs` of
-- internal/logtrc/api.go): they are taken out by reflection and masked by a new masker.
pub mod Hiding
use obs_brutal.Prelude.{
  ℕ, zero, suc, ◌+◌, ◌-◌, ◌*◌, ◌/◌, ◌%◌, ◌^◌, ◌≤◌, ◌<◌, min, max, String, ◌≡◌, refl, sym, ap, ◌∙◌,
  subst, ◌≢◌, ◌↔◌, ◌⊎◌, inl, inr, Bool, true, false, not, ◌&&◌, ◌||◌, Option, none, some, List, [],
  ◌∷◌, ◌++◌, map, append_assoc, append-nil, zero-add, suc-add, arith, ltb, leb, nat_eq,
  if◌then◌else◌, ltb→lt, lt→ltb, leb→le, le→leb, ltb_of_le, nat_eq_iff, tests, Bool-cases,
  Option-cases, is_some, length, is_empty, take, drop, replicate, get_elem?, keep, all, any, concat,
  All, length-append, length-snoc, snoc-ne-nil, length-drop, length-take, take-append-drop,
  length-replicate, length-keep-le, concat-append, concat-snoc, drop-append, All-append, All-drop,
  last_n, drop-nil, drop-drop, length-last_n, last_n_all, last_n-append, tally, tally-append,
  tally-concat-append, Key, bytes_eq, bytes_eq_iff, bytes_keys, string_keys, nat_keys, ◌==◌,
  eq_refl, prefer, lookup, erase, insert, insert_all, IsMap, lookup-insert, lookup-erase,
  length-insert-le, length-insert_present, length-insert_absent, lookup-insert_all, insert-IsMap,
  insert_all-IsMap, erase_absent, length-erase_present, erase-IsMap, erase-All, lookup-All,
  insert-All, range_into, ranged, lookup-range_into, range_into-IsMap, codes, as_string, is_upper,
  is_lower, is_digit, to_lower, has_prefix, contains,
}
use obs_brutal.Domain.Value.{Value, FieldMap, text}
use obs_brutal.Security.Masking.Fields.{
  PiiMasker, MaskingPattern, new_pii_masker, mask_fields, mask_value, masked_option,
  lookup-mask_fields,
}

-- What reflection shows of a field of a struct.
pub record TaggedField : Type 0 where
  pub name : List ℕ
  pub json : List ℕ
  pub is_exported : Bool
  pub value : Value

-- A value by what the switch and reflection let the program see: nil, a map that may be nil, a struct
-- or a pointer to one, and anything else with its format `%+v`.
pub data Extractable : Type 0 where
  absent : Extractable
  string_map : Option FieldMap → Extractable
  struct : List TaggedField → Extractable
  printed : List ℕ → Extractable

-- `tok[:idx]`, with `indexComma`.
unfoldable pub until_comma : List ℕ → List ℕ
until_comma [] = []
until_comma (c ∷ s) = let rest = until_comma s in if nat_eq c b',' then [] else c ∷ rest

unfoldable pub extracted_name : TaggedField → List ℕ
extracted_name f =
    let token = until_comma f.json in
    if is_empty f.json || is_empty token || bytes_eq token (codes "-") then f.name else token

-- `extractFromStruct`.
unfoldable pub extract_from_struct : List TaggedField → FieldMap → FieldMap
unfolding extracted_name
extract_from_struct [] out = out
extract_from_struct (f ∷ fs) out =
    extract_from_struct fs
      (if f.is_exported then insert (as_string (extracted_name f)) f.value out else out)

-- `extractStructFieldsAdvanced`.
unfoldable pub extract_struct_fields : Extractable → FieldMap
unfolding extract_from_struct
extract_struct_fields absent = []
extract_struct_fields (string_map none) = []
extract_struct_fields (string_map (some m)) = m
extract_struct_fields (struct fs) = extract_from_struct fs []
extract_struct_fields (printed s) = ("data", text s) ∷ []

-- `Fs` and `ExtractOptions.Fields`, with what the masker's expressions do and its digest.
unfoldable pub extracted_fields : (List ℕ → List ℕ) → List MaskingPattern → Extractable → FieldMap
unfolding extract_struct_fields
extracted_fields sum256 patterns v =
    mask_fields sum256 (new_pii_masker patterns) (extract_struct_fields v)
