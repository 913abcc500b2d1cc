-- ===== src/Base/Promote/Laws.antt =====
-- What `Promote` does to the identifiers and to the other fields of an entry.
use obs_brutal.Prelude.{
  ℕ, String, ◌≡◌, refl, sym, ap, ◌∙◌, subst, ◌⊎◌, inl, inr, true, false, ◌&&◌, Option, none, some,
  List, [], ◌∷◌, arith, if◌then◌else◌, Bool-cases, Option-cases, is_some, is_empty, any, bytes_keys,
  string_keys, nat_keys, ◌==◌, eq_refl, lookup, erase, lookup-erase,
}
use obs_brutal.Domain.Value.{Value, FieldMap}
use obs_brutal.Domain.Entry.{LogEntry, string_of, entries_of}
use obs_brutal.Base.Promote.{promote_id, promote_map, promote_fields, promote}

-- What an identifier becomes: the entry's own, or the string under the key, or none.
abbrev pub resolved : List ℕ → Option (List ℕ) → List ℕ
resolved [] none = []
resolved [] (some s) = s
resolved (c ∷ id) o = c ∷ id

-- The keys that `Promote` looks at.
abbrev pub known_keys : List String
known_keys =
    "trace_id" ∷ "span_id" ∷ "request_id" ∷ "user_id" ∷ "module" ∷ "tenant_id" ∷ "context" ∷ []

pub promote_id-resolved :
    (k : String) (id : List ℕ) (m : FieldMap)
    → (promote_id k id m).0 ≡ resolved id (string_of (lookup k m))
unfolding promote_id
promote_id-resolved k [] m = ground arith
promote_id-resolved k (c ∷ id) m = refl

pub lookup-promote_id :
    (k j : String) (id : List ℕ) (m : FieldMap)
    → (k == j) ≡ false
    → lookup j (promote_id k id m).1 ≡ lookup j m
unfolding promote_id
lookup-promote_id k j [] m h = ground (arith, lookup-erase k j m)
lookup-promote_id k j (c ∷ id) m h = refl

-- What is left under the key of an identifier: nothing where the string there was taken, which it is
-- where the entry has no identifier of its own.
abbrev pub left_of : List ℕ → Option Value → Option Value
left_of id v = if is_empty id && is_some (string_of v) then none else v

lookup-promote_id_same :
    (k : String) (id : List ℕ) (m : FieldMap)
    → lookup k (promote_id k id m).1 ≡ left_of id (lookup k m)
unfolding promote_id
lookup-promote_id_same k [] m = ground (arith, lookup-erase k k m, eq_refl k)
lookup-promote_id_same k (c ∷ id) m = refl

-- Three identifiers of the result and the map, with the earlier steps skipped by their keys.
module _ (e : LogEntry) (m0 : FieldMap) where
  abbrev pub m1 : FieldMap
  m1 = (promote_id "trace_id" e.trace_id m0).1

  abbrev pub m2 : FieldMap
  m2 = (promote_id "span_id" e.span_id m1).1

  abbrev pub m3 : FieldMap
  m3 = (promote_id "request_id" e.request_id m2).1

  abbrev pub m4 : FieldMap
  m4 = (promote_id "user_id" e.user_id m3).1

  abbrev pub m5 : FieldMap
  m5 = (promote_id "module" e.mod_name m4).1

  abbrev pub m6 : FieldMap
  m6 = (promote_id "tenant_id" e.tenant_id m5).1

  lookup-m6 :
      (j : String)
      → any (λ k. k == j) known_keys ≡ false
      → lookup j (erase "context" m6) ≡ lookup j m0
  lookup-m6 j h = ground (
    arith,
    lookup-erase "context" j m6,
    lookup-promote_id "tenant_id" j e.tenant_id m5,
    lookup-promote_id "module" j e.mod_name m4,
    lookup-promote_id "user_id" j e.user_id m3,
    lookup-promote_id "request_id" j e.request_id m2,
    lookup-promote_id "span_id" j e.span_id m1,
    lookup-promote_id "trace_id" j e.trace_id m0,
  )

  lookup-m1 : (j : String) → ("trace_id" == j) ≡ false → lookup j m1 ≡ lookup j m0
  lookup-m1 j h = lookup-promote_id "trace_id" j e.trace_id m0 h

  lookup-m2 :
      (j : String)
      → ("trace_id" == j) ≡ false
      → ("span_id" == j) ≡ false
      → lookup j m2 ≡ lookup j m0
  lookup-m2 j h i = lookup-promote_id "span_id" j e.span_id m1 i ∙ lookup-m1 j h

  lookup-m3 :
      (j : String)
      → ("trace_id" == j) ≡ false
      → ("span_id" == j) ≡ false
      → ("request_id" == j) ≡ false
      → lookup j m3 ≡ lookup j m0
  lookup-m3 j h i k = lookup-promote_id "request_id" j e.request_id m2 k ∙ lookup-m2 j h i

  lookup-m4 :
      (j : String)
      → ("trace_id" == j) ≡ false
      → ("span_id" == j) ≡ false
      → ("request_id" == j) ≡ false
      → ("user_id" == j) ≡ false
      → lookup j m4 ≡ lookup j m0
  lookup-m4 j h i k l = lookup-promote_id "user_id" j e.user_id m3 l ∙ lookup-m3 j h i k

  lookup-m5 :
      (j : String)
      → ("trace_id" == j) ≡ false
      → ("span_id" == j) ≡ false
      → ("request_id" == j) ≡ false
      → ("user_id" == j) ≡ false
      → ("module" == j) ≡ false
      → lookup j m5 ≡ lookup j m0
  lookup-m5 j h i k l n = lookup-promote_id "module" j e.mod_name m4 n ∙ lookup-m4 j h i k l

  trace_left_lem :
      lookup "trace_id" (erase "context" m6) ≡ left_of e.trace_id (lookup "trace_id" m0)
  trace_left_lem =
      lookup-erase "context" "trace_id" m6
      ∙ lookup-promote_id "tenant_id" "trace_id" e.tenant_id m5 refl
      ∙ lookup-promote_id "module" "trace_id" e.mod_name m4 refl
      ∙ lookup-promote_id "user_id" "trace_id" e.user_id m3 refl
      ∙ lookup-promote_id "request_id" "trace_id" e.request_id m2 refl
      ∙ lookup-promote_id "span_id" "trace_id" e.span_id m1 refl
      ∙ lookup-promote_id_same "trace_id" e.trace_id m0

  span_left_lem : lookup "span_id" (erase "context" m6) ≡ left_of e.span_id (lookup "span_id" m0)
  span_left_lem =
      lookup-erase "context" "span_id" m6
      ∙ lookup-promote_id "tenant_id" "span_id" e.tenant_id m5 refl
      ∙ lookup-promote_id "module" "span_id" e.mod_name m4 refl
      ∙ lookup-promote_id "user_id" "span_id" e.user_id m3 refl
      ∙ lookup-promote_id "request_id" "span_id" e.request_id m2 refl
      ∙ lookup-promote_id_same "span_id" e.span_id m1
      ∙ ap (left_of e.span_id) (lookup-m1 "span_id" refl)

  request_left_lem :
      lookup "request_id" (erase "context" m6) ≡ left_of e.request_id (lookup "request_id" m0)
  request_left_lem =
      lookup-erase "context" "request_id" m6
      ∙ lookup-promote_id "tenant_id" "request_id" e.tenant_id m5 refl
      ∙ lookup-promote_id "module" "request_id" e.mod_name m4 refl
      ∙ lookup-promote_id "user_id" "request_id" e.user_id m3 refl
      ∙ lookup-promote_id_same "request_id" e.request_id m2
      ∙ ap (left_of e.request_id) (lookup-m2 "request_id" refl refl)

  user_left_lem : lookup "user_id" (erase "context" m6) ≡ left_of e.user_id (lookup "user_id" m0)
  user_left_lem =
      lookup-erase "context" "user_id" m6
      ∙ lookup-promote_id "tenant_id" "user_id" e.tenant_id m5 refl
      ∙ lookup-promote_id "module" "user_id" e.mod_name m4 refl
      ∙ lookup-promote_id_same "user_id" e.user_id m3
      ∙ ap (left_of e.user_id) (lookup-m3 "user_id" refl refl refl)

  module_left_lem : lookup "module" (erase "context" m6) ≡ left_of e.mod_name (lookup "module" m0)
  module_left_lem =
      lookup-erase "context" "module" m6
      ∙ lookup-promote_id "tenant_id" "module" e.tenant_id m5 refl
      ∙ lookup-promote_id_same "module" e.mod_name m4
      ∙ ap (left_of e.mod_name) (lookup-m4 "module" refl refl refl refl)

  tenant_left_lem :
      lookup "tenant_id" (erase "context" m6) ≡ left_of e.tenant_id (lookup "tenant_id" m0)
  tenant_left_lem =
      lookup-erase "context" "tenant_id" m6
      ∙ lookup-promote_id_same "tenant_id" e.tenant_id m5
      ∙ ap (left_of e.tenant_id) (lookup-m5 "tenant_id" refl refl refl refl refl)

-- Each identifier of the promoted entry is the entry's own, or else the string under its key in
-- the map, from which it is then gone; the other fields keep their values, and the context is gone.
pub record IsPromoted (e : LogEntry) (m : FieldMap) (p : LogEntry) : Type 0 where
  pub trace : p.trace_id ≡ resolved e.trace_id (string_of (lookup "trace_id" m))
  pub span : p.span_id ≡ resolved e.span_id (string_of (lookup "span_id" m))
  pub request : p.request_id ≡ resolved e.request_id (string_of (lookup "request_id" m))
  pub user : p.user_id ≡ resolved e.user_id (string_of (lookup "user_id" m))
  pub module_name : p.mod_name ≡ resolved e.mod_name (string_of (lookup "module" m))
  pub tenant : p.tenant_id ≡ resolved e.tenant_id (string_of (lookup "tenant_id" m))
  pub level_kept : p.level ≡ e.level
  pub msg_kept : p.msg ≡ e.msg
  pub time_kept : p.timestamp ≡ e.timestamp
  pub no_context : lookup "context" (entries_of p.fields) ≡ none
  pub err_kept : p.err ≡ e.err
  pub trace_left :
      lookup "trace_id" (entries_of p.fields) ≡ left_of e.trace_id (lookup "trace_id" m)
  pub span_left : lookup "span_id" (entries_of p.fields) ≡ left_of e.span_id (lookup "span_id" m)
  pub request_left :
      lookup "request_id" (entries_of p.fields) ≡ left_of e.request_id (lookup "request_id" m)
  pub user_left : lookup "user_id" (entries_of p.fields) ≡ left_of e.user_id (lookup "user_id" m)
  pub module_left : lookup "module" (entries_of p.fields) ≡ left_of e.mod_name (lookup "module" m)
  pub tenant_left :
      lookup "tenant_id" (entries_of p.fields) ≡ left_of e.tenant_id (lookup "tenant_id" m)
  pub others_kept :
      (j : String)
      → (any (λ k. k == j) known_keys ≡ true) ⊎ (lookup j (entries_of p.fields) ≡ lookup j m)

resolved_from :
    (k : String) (id : List ℕ) (m m' : FieldMap)
    → lookup k m' ≡ lookup k m
    → (promote_id k id m').0 ≡ resolved id (string_of (lookup k m))
resolved_from k id m m' h = promote_id-resolved k id m' ∙ ap (λ o. resolved id (string_of o)) h

promote_map-IsPromoted : (e : LogEntry) (m : FieldMap) → IsPromoted e m (promote_map e m)
unfolding promote_map
promote_map-IsPromoted e m = record {
  trace = promote_id-resolved "trace_id" e.trace_id m;
  span = resolved_from "span_id" e.span_id m (m1 e m) (lookup-m1 e m "span_id" refl);
  request =
      resolved_from "request_id" e.request_id m (m2 e m) (lookup-m2 e m "request_id" refl refl);
  user = resolved_from "user_id" e.user_id m (m3 e m) (lookup-m3 e m "user_id" refl refl refl);
  module_name =
      resolved_from "module" e.mod_name m (m4 e m) (lookup-m4 e m "module" refl refl refl refl);
  tenant =
      resolved_from "tenant_id" e.tenant_id m (m5 e m)
        (lookup-m5 e m "tenant_id" refl refl refl refl refl);
  level_kept = refl;
  msg_kept = refl;
  time_kept = refl;
  no_context = lookup-erase "context" "context" (m6 e m);
  err_kept = refl;
  trace_left = trace_left_lem e m;
  span_left = span_left_lem e m;
  request_left = request_left_lem e m;
  user_left = user_left_lem e m;
  module_left = module_left_lem e m;
  tenant_left = tenant_left_lem e m;
  others_kept = λ j. elim (Bool-cases (any (λ k. k == j) known_keys)) [
    | inl known ↦ inl known
    | inr other ↦ inr (lookup-m6 e m j other)
  ];
}

resolved-none : (id : List ℕ) → id ≡ resolved id none
resolved-none [] = refl
resolved-none (c ∷ id) = refl

left_of-none : (id : List ℕ) → none ≡ left_of id none
left_of-none [] = refl
left_of-none (c ∷ id) = refl

promote_nil-IsPromoted : (e : LogEntry) → e.fields ≡ none → IsPromoted e [] e
unfolding lookup
promote_nil-IsPromoted e h = record {
  trace = resolved-none e.trace_id;
  span = resolved-none e.span_id;
  request = resolved-none e.request_id;
  user = resolved-none e.user_id;
  module_name = resolved-none e.mod_name;
  tenant = resolved-none e.tenant_id;
  level_kept = refl;
  msg_kept = refl;
  time_kept = refl;
  no_context = ap (λ o. lookup "context" (entries_of o)) h;
  err_kept = refl;
  trace_left = ap (λ o. lookup "trace_id" (entries_of o)) h ∙ left_of-none e.trace_id;
  span_left = ap (λ o. lookup "span_id" (entries_of o)) h ∙ left_of-none e.span_id;
  request_left = ap (λ o. lookup "request_id" (entries_of o)) h ∙ left_of-none e.request_id;
  user_left = ap (λ o. lookup "user_id" (entries_of o)) h ∙ left_of-none e.user_id;
  module_left = ap (λ o. lookup "module" (entries_of o)) h ∙ left_of-none e.mod_name;
  tenant_left = ap (λ o. lookup "tenant_id" (entries_of o)) h ∙ left_of-none e.tenant_id;
  others_kept = λ j. inr (ap (λ o. lookup j (entries_of o)) h);
}

-- Promotion gives each identifier of the entry the entry's own value or else the string field of
-- its key, drops the context, takes the field under the key of an identifier exactly where it took its
-- string, and keeps the level, the message, the time, the error and every other field.
pub promote-IsPromoted : (e : LogEntry) → IsPromoted e (entries_of e.fields) (promote e)
unfolding promote promote_fields
promote-IsPromoted e = elim (Option-cases e.fields) [
  | inl h ↦
      subst (λ o. IsPromoted e (entries_of o) (promote_fields e o)) (sym h)
        (promote_nil-IsPromoted e h)
  | inr (m, h) ↦
      subst (λ o. IsPromoted e (entries_of o) (promote_fields e o)) (sym h)
        (promote_map-IsPromoted e m)
]

pub promote-err : (e : LogEntry) → (promote e).err ≡ e.err
unfolding promote promote_fields promote_map
promote-err e = by e.fields
  where
    by : (m : Option FieldMap) → (promote_fields e m).err ≡ e.err
    by none = refl
    by (some m) = refl
