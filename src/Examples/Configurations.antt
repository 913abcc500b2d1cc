-- ===== src/Examples/Configurations.antt =====
-- Concrete inputs for the theorems about configuration by options, the fields of a struct, the rows of
-- ClickHouse and the pool of field maps.
use obs_brutal.Prelude.{
  ℕ, ◌≤◌, ◌≡◌, refl, inl, true, false, none, some, List, [], ◌∷◌, arith, length, bytes_keys,
  string_keys, nat_keys, lookup, erase, codes, as_string,
}
use obs_brutal.Domain.Level.{warn_level, info_level}
use obs_brutal.Domain.Value.{text, number}
use obs_brutal.Domain.Entry.{LogEntry, bare_entry}
use obs_brutal.Domain.FieldMaps.{
  field_map_capacity, get_field_map, no_field_maps, put_field_map, fill_map,
}
use obs_brutal.Domain.FieldMaps.Sharing.{
  MapCall, takes, fills, returns, map_call, map_calls, times, get_field_map-map_calls,
}
use obs_brutal.Base.Promote.{promote}
use obs_brutal.Boeng.Start.{asynchronous}
use obs_brutal.Base.AsyncLog.{new_async}
use obs_brutal.Sinks.ClickHouse.{row_of}
use obs_brutal.Sinks.ClickHouse.Rows.{row_of-promote}
use obs_brutal.Tracing.Options.{ConfigOption, otel, async, masking}
use obs_brutal.Tracing.Loggers.{OtelMaker, new_logger}
use obs_brutal.Tracing.Loggers.Choice.{new_logger-chosen}
use obs_brutal.Tracing.Extract.{TaggedField, struct, until_comma, extracted_name, extracted_fields}
use obs_brutal.Tracing.Extract.Hiding.{extracted_fields-hides}

abbrev no_otel : OtelMaker
no_otel service version environment endpoint lvl = none

-- The last word on async counts, and masking has none.
abbrev some_options : List ConfigOption
some_options =
    async false
    ∷ otel (codes "jaeger:4317")
    ∷ masking true
    ∷ ConfigOption.log_level warn_level
    ∷ async true
    ∷ []

new_logger-chosen_example :
    new_logger no_otel 1 2 some_options ≡ asynchronous (new_async 1 2 warn_level [])
new_logger-chosen_example = new_logger-chosen no_otel 1 2 some_options

abbrev password_field : TaggedField
password_field = record {
  name = codes "Pwd";
  json = codes "Password,omitempty";
  is_exported = true;
  value = text [];
}

abbrev user_field : TaggedField
user_field = record { name = codes "User"; json = []; is_exported = true; value = number 7 }

abbrev identity : List ℕ → List ℕ
identity s = s

extracted_fields-hides_example :
    lookup "Password" (
      extracted_fields identity []
        (struct (user_field ∷ record password_field { value = text (codes "hunter2") } ∷ [])))
    ≡ lookup "Password" (
        extracted_fields identity []
          (struct (user_field ∷ record password_field { value = text (codes "letmein") } ∷ [])))
unfolding extracted_name until_comma as_string
extracted_fields-hides_example =
    extracted_fields-hides identity [] password_field (codes "hunter2") (codes "letmein") (inl refl)
      refl (user_field ∷ []) [] "Password"

-- An entry whose identifiers were logged as fields.
abbrev unpromoted : LogEntry
unpromoted = record (bare_entry info_level (codes "paid") 5) {
  fields = some (
      ("trace_id", text (codes "4bf9"))
      ∷ ("error", text (codes "late"))
      ∷ ("amount", number 7)
      ∷ []);
}

row_of-promote_example :
    erase "fields" (row_of (λ n. codes "now") (λ m. []) (promote unpromoted))
    ≡ erase "fields" (row_of (λ n. codes "now") (λ m. []) unpromoted)
row_of-promote_example = row_of-promote (λ n. codes "now") (λ m. []) unpromoted

-- Two holders, of whom one writes and gives back.
abbrev borrowing : List MapCall
borrowing = takes ∷ takes ∷ fills 0 "user" (number 7) ∷ returns 0 ∷ takes ∷ []

get_field_map-map_calls_example :
    let (s, held) = map_calls borrowing (no_field_maps, []) in
    (times (get_field_map s).0 held ≡ 0)
    × ((get_field_map s).1.cells (get_field_map s).0 ≡ [])
    × (length s.pool ≤ field_map_capacity)
unfolding map_call get_field_map put_field_map fill_map
get_field_map-map_calls_example =
    get_field_map-map_calls borrowing (tt, (tt, (omega arith, (omega arith, (tt, tt)))))
