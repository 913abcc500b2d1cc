-- ===== src/Util/Json/Members.antt =====
-- What the line of an entry shows under each name (internal/util/json.go).
use obs_brutal.Prelude.{
  ℕ, String, ◌≡◌, refl, sym, ap, ◌∙◌, inl, inr, Bool, true, false, not, ◌&&◌, Option, none, some,
  List, [], ◌∷◌, ◌++◌, arith, if◌then◌else◌, Bool-cases, is_some, any, bytes_keys, string_keys,
  nat_keys, ◌==◌, prefer, lookup, lookup-append,
}
use obs_brutal.Domain.Level.{level_string}
use obs_brutal.Domain.Value.{Value, FieldMap, text}
use obs_brutal.Domain.Entry.{LogEntry, entries_of}
use obs_brutal.Util.Json.{
  is_reserved, member_if, free_keys, read, rows_of, own_members, json_members,
}

lookup-member_if : (k j : String) (v : List ℕ) → (j == k) ≡ false → lookup k (member_if j v) ≡ none
unfolding lookup member_if
lookup-member_if k j [] h = refl
lookup-member_if k j (c ∷ v) h = rw h

lookup-rows_of :
    (m : FieldMap) (k : String) (ks : List String)
    → lookup k (rows_of m ks) ≡ (if any (λ j. j == k) ks then some (read (lookup k m)) else none)
unfolding lookup rows_of
lookup-rows_of m k [] = refl
lookup-rows_of m k (j ∷ ks) = elim (Bool-cases (j == k)) [
  | inl same ↦ rw same (ap (λ i. some (read (lookup i m))) ((string_keys.same_key_iff j k).0 same))
  | inr other ↦ rw other (lookup-rows_of m k ks)
]

free_keys_lem :
    (m : FieldMap) (k : String)
    → any (λ j. j == k) (free_keys m) ≡ (not (is_reserved k) && is_some (lookup k m))
unfolding lookup free_keys
free_keys_lem [] k = ground arith
free_keys_lem ((j, v) ∷ m) k = elim (Bool-cases (j == k)) [
  | inl same ↦
      let e = (string_keys.same_key_iff j k).0 same in
      elim (Bool-cases (is_reserved j)) [
        | inl taken ↦ rw (taken, same, free_keys_lem m k, ap is_reserved (sym e) ∙ taken) refl
        | inr free ↦ rw (free, same, ap is_reserved (sym e) ∙ free) refl
      ]
  | inr other ↦ elim (Bool-cases (is_reserved j)) [
    | inl taken ↦ rw (taken, other) (free_keys_lem m k)
    | inr free ↦ rw (free, other) (free_keys_lem m k)
  ]
]

-- What an entry itself has under a name: its time, its level and its message always, an identifier
-- where it is not empty.
abbrev pub under : String → Option Value → String → Option Value
under j v k = if j == k then v else none

abbrev pub non_empty : List ℕ → Option Value
non_empty [] = none
non_empty (c ∷ id) = some (text (c ∷ id))

abbrev pub identifier_value : LogEntry → String → Option Value
identifier_value e k =
    prefer
      (prefer
        (prefer
          (prefer
            (prefer (under "trace_id" (non_empty e.trace_id) k)
              (under "span_id" (non_empty e.span_id) k))
            (under "request_id" (non_empty e.request_id) k))
          (under "user_id" (non_empty e.user_id) k))
        (under "module" (non_empty e.mod_name) k))
      (under "tenant_id" (non_empty e.tenant_id) k)

pub own_value : (ℕ → List ℕ) → LogEntry → String → Option Value
own_value format e k =
    if "datetime" == k
    then some (text (format e.timestamp))
    else if "level" == k
    then some (text (level_string e.level))
    else if "msg" == k
    then some (text e.msg)
    else identifier_value e k

lookup-member_if_same :
    (j k : String) (v : List ℕ) → lookup k (member_if j v) ≡ under j (non_empty v) k
unfolding lookup member_if
lookup-member_if_same j k [] = ground arith
lookup-member_if_same j k (c ∷ v) = refl

lookup-own_members_value :
    (format : ℕ → List ℕ) (e : LogEntry) (k : String)
    → lookup k (own_members format e) ≡ own_value format e k
unfolding own_members own_value lookup
lookup-own_members_value format e k =
    let a = member_if "trace_id" e.trace_id in
    let b = member_if "span_id" e.span_id in
    let c = member_if "request_id" e.request_id in
    let d = member_if "user_id" e.user_id in
    let g = member_if "module" e.mod_name in
    rw
      (
        lookup-append k (a ++ b ++ c ++ d ++ g) (member_if "tenant_id" e.tenant_id),
        lookup-append k (a ++ b ++ c ++ d) g,
        lookup-append k (a ++ b ++ c) d,
        lookup-append k (a ++ b) c,
        lookup-append k a b,
        lookup-member_if_same "trace_id" k e.trace_id,
        lookup-member_if_same "span_id" k e.span_id,
        lookup-member_if_same "request_id" k e.request_id,
        lookup-member_if_same "user_id" k e.user_id,
        lookup-member_if_same "module" k e.mod_name,
        lookup-member_if_same "tenant_id" k e.tenant_id,
      )
      refl

-- The names of the entry's own members are reserved.
abbrev Foreign : String → Type 0
Foreign k =
    (("datetime" == k) ≡ false)
    × (("level" == k) ≡ false)
    × (("msg" == k) ≡ false)
    × (("trace_id" == k) ≡ false)
    × (("span_id" == k) ≡ false)
    × (("request_id" == k) ≡ false)
    × (("user_id" == k) ≡ false)
    × (("module" == k) ≡ false)
    × ("tenant_id" == k) ≡ false

not_reserved-Foreign : (k : String) → is_reserved k ≡ false → Foreign k
unfolding is_reserved
not_reserved-Foreign k h = ground (arith, h)

-- A name that is not reserved is none of the entry's own.
lookup-own_members :
    (format : ℕ → List ℕ) (e : LogEntry) (k : String)
    → is_reserved k ≡ false
    → lookup k (own_members format e) ≡ none
unfolding own_members lookup
lookup-own_members format e k h =
    let f = not_reserved-Foreign k h in
    let a = member_if "trace_id" e.trace_id in
    let b = member_if "span_id" e.span_id in
    let c = member_if "request_id" e.request_id in
    let d = member_if "user_id" e.user_id in
    let g = member_if "module" e.mod_name in
    rw
      (
        f.0,
        f.1,
        f.2,
        lookup-append k (a ++ b ++ c ++ d ++ g) (member_if "tenant_id" e.tenant_id),
        lookup-append k (a ++ b ++ c ++ d) g,
        lookup-append k (a ++ b ++ c) d,
        lookup-append k (a ++ b) c,
        lookup-append k a b,
        lookup-member_if k "trace_id" e.trace_id f.3,
        lookup-member_if k "span_id" e.span_id f.4,
        lookup-member_if k "request_id" e.request_id f.5,
        lookup-member_if k "user_id" e.user_id f.6,
        lookup-member_if k "module" e.mod_name f.7,
        lookup-member_if k "tenant_id" e.tenant_id f.8,
      )
      refl

own_or_field :
    (taken : Bool) (own field : Option Value)
    → (taken ≡ false → own ≡ none)
    → prefer own (if not taken && is_some field then some (read field) else none)
      ≡ (if taken then own else field)
own_or_field true none field h = refl
own_or_field true (some v) field h = refl
own_or_field false own none h = rw (h refl) refl
own_or_field false own (some v) h = rw (h refl) refl

-- When sorting keeps which keys there are, the line of an entry has under a reserved name what the
-- entry itself has there, whatever its fields say: the time, the level and the message, and each of
-- the six identifiers under its name where it is not empty; and under every other name exactly the
-- field of that name.
pub lookup-json_members :
    (format : ℕ → List ℕ) (sort : List String → List String) (e : LogEntry) (k : String)
    → ((ks : List String) → any (λ j. j == k) (sort ks) ≡ any (λ j. j == k) ks)
    → lookup k (json_members format sort e)
      ≡ (if is_reserved k then own_value format e k else lookup k (entries_of e.fields))
unfolding json_members
lookup-json_members format sort e k kept =
    let m = entries_of e.fields in
    let own = own_members format e in
    lookup-append k own (rows_of m (sort (free_keys m)))
    ∙ rw
        (
          lookup-own_members_value format e k,
          lookup-rows_of m k (sort (free_keys m)),
          kept (free_keys m),
          free_keys_lem m k,
        )
        (own_or_field (is_reserved k) (own_value format e k) (lookup k m)
          (λ f. sym (lookup-own_members_value format e k) ∙ lookup-own_members format e k f))
