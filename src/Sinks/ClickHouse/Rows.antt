-- ===== src/Sinks/ClickHouse/Rows.antt =====
-- The rows of internal/adapter/outbound/sink/network/clickhouse.go beside promotion, and what a write sends.
use obs_brutal.Prelude.{
  ℕ, String, ◌≡◌, refl, sym, ap, ◌∙◌, inl, inr, Option, none, some, List, [], ◌∷◌, bytes_keys,
  string_keys, nat_keys, lookup, erase,
}
use obs_brutal.Domain.Value.{Value, FieldMap}
use obs_brutal.Domain.Entry.{LogEntry, entries_of, string_of}
use obs_brutal.Base.Promote.{promote}
use obs_brutal.Base.Promote.Idempotence.{promote_idem}
use obs_brutal.Base.Promote.Laws.{resolved, promote-IsPromoted, promote-err}
use obs_brutal.Sinks.ClickHouse.{row_of, first_str, error_str, any_text_setting, error_of_fields}

first_str-resolved : (id : List ℕ) (o : Option Value) → first_str id o ≡ resolved id (string_of o)
unfolding first_str any_text_setting
first_str-resolved (c ∷ id) o = refl
first_str-resolved [] o = by (string_of o)
  where
    by : (s : Option (List ℕ)) → any_text_setting s [] ≡ resolved [] s
    by none = refl
    by (some s) = refl

-- One identifier, by the field of the entry and the key of its field map.
cell-promote :
    (k : String) (get : LogEntry → List ℕ) (e : LogEntry)
    → ((d : LogEntry)
        → get (promote d) ≡ resolved (get d) (string_of (lookup k (entries_of d.fields))))
    → first_str (get (promote e)) (lookup k (entries_of (promote e).fields))
      ≡ first_str (get e) (lookup k (entries_of e.fields))
cell-promote k get e law =
    first_str-resolved (get (promote e)) (lookup k (entries_of (promote e).fields))
    ∙ sym (law (promote e))
    ∙ ap get (promote_idem e)
    ∙ law e
    ∙ sym (first_str-resolved (get e) (lookup k (entries_of e.fields)))

error_str-promote : (e : LogEntry) → error_str (promote e) ≡ error_str e
unfolding error_str error_of_fields
error_str-promote e =
    let kept : lookup "error" (entries_of (promote e).fields)
        ≡ lookup "error" (entries_of e.fields) =
      elim ((promote-IsPromoted e).others_kept "error") [ inl h ↦ absurd (cc) | inr same ↦ same ] in
    ap (λ x. error_of_fields x (entries_of (promote e).fields)) (promote-err e) ∙ by e.err kept
  where
    by :
        (x : Option (List ℕ))
        → lookup "error" (entries_of (promote e).fields) ≡ lookup "error" (entries_of e.fields)
        → error_of_fields x (entries_of (promote e).fields)
          ≡ error_of_fields x (entries_of e.fields)
    by none same = ap (λ v. any_text_setting (string_of v) []) same
    by (some m) same = refl

-- A row is the same for an entry and for what promotion makes of it, but for the column of the fields:
-- the sink finds an identifier and an error where promotion would have put them.
pub row_of-promote :
    (format : ℕ → List ℕ) (marshal : Option FieldMap → List ℕ) (e : LogEntry)
    → erase "fields" (row_of format marshal (promote e)) ≡ erase "fields" (row_of format marshal e)
unfolding row_of erase
row_of-promote format marshal e =
    let i = promote-IsPromoted e in
    simp (
      i.level_kept,
      i.msg_kept,
      i.time_kept,
      error_str-promote e,
      cell-promote "trace_id" (λ d. d.trace_id) e (λ d. (promote-IsPromoted d).trace),
      cell-promote "span_id" (λ d. d.span_id) e (λ d. (promote-IsPromoted d).span),
      cell-promote "request_id" (λ d. d.request_id) e (λ d. (promote-IsPromoted d).request),
      cell-promote "user_id" (λ d. d.user_id) e (λ d. (promote-IsPromoted d).user),
      cell-promote "module" (λ d. d.mod_name) e (λ d. (promote-IsPromoted d).module_name),
      cell-promote "tenant_id" (λ d. d.tenant_id) e (λ d. (promote-IsPromoted d).tenant),
    )
