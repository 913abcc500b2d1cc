-- ===== src/Util/Context.antt =====
-- internal/util/context.go: identifiers kept in a `context.Context`, under keys of a private type
-- and, for older code, under plain strings.
use obs_brutal.Prelude.{
  ℕ, String, ◌≡◌, refl, Option, none, some, List, [], if◌then◌else◌, ◌==◌, nat_keys, string_keys,
  bytes_keys,
}
use obs_brutal.Domain.Value.{Value, text, as_text}

-- A context by its identity, with what `ctx.Value` answers for a key of type `ctxKey` and for a
-- plain string; nil, `null` here, where the key is not set.
pub record Context : Type 0 where
  pub id : ℕ
  pub typed : String → Value
  pub plain : String → Value

-- `context.WithValue` under a typed key, as a new context.
unfoldable pub with_string : ℕ → String → List ℕ → Context → Context
with_string id key s ctx = record {
  id = id;
  typed = λ k. if key == k then text s else ctx.typed k;
  plain = ctx.plain;
}

-- `WithTraceID`, `WithUserID`, `WithRequestID`.
unfoldable pub with_trace_id : ℕ → List ℕ → Context → Context
unfolding with_string
with_trace_id id s ctx = with_string id "trace_id" s ctx

unfoldable pub with_user_id : ℕ → List ℕ → Context → Context
unfolding with_string
with_user_id id s ctx = with_string id "user_id" s ctx

unfoldable pub with_request_id : ℕ → List ℕ → Context → Context
unfolding with_string
with_request_id id s ctx = with_string id "request_id" s ctx

-- The end of `getString`: an answer that is no string counts as none.
abbrev text_or : List ℕ → Option (List ℕ) → List ℕ
text_or d none = d
text_or d (some s) = s

-- `getString`: the typed key first, then the legacy one; the context may be nil.
unfoldable pub get_string : Option Context → String → String → List ℕ
get_string none key legacy = []
get_string (some ctx) key legacy =
    text_or (text_or [] (as_text (ctx.plain legacy))) (as_text (ctx.typed key))

unfoldable pub get_trace_id : Option Context → List ℕ
unfolding get_string
get_trace_id ctx = get_string ctx "trace_id" "trace_id"

unfoldable pub get_user_id : Option Context → List ℕ
unfolding get_string
get_user_id ctx = get_string ctx "user_id" "user_id"

unfoldable pub get_request_id : Option Context → List ℕ
unfolding get_string
get_request_id ctx = get_string ctx "request_id" "request_id"

-- `ExtractFromContext`: the legacy key alone.
unfoldable pub extract_from_context : Option Context → String → List ℕ
extract_from_context none key = []
extract_from_context (some ctx) key = text_or [] (as_text (ctx.plain key))

-- An identifier that was set is read back, the empty one too, whatever a legacy key of that name
-- holds, and the other two identifiers and the legacy reading are as before.
pub get_trace_id-with_trace_id :
    (id : ℕ) (s : List ℕ) (ctx : Context) (legacy : String)
    → let c = with_trace_id id s ctx in
      (get_trace_id (some c) ≡ s)
      × (get_user_id (some c) ≡ get_user_id (some ctx))
      × (get_request_id (some c) ≡ get_request_id (some ctx))
      × (extract_from_context (some c) legacy ≡ extract_from_context (some ctx) legacy)
unfolding get_trace_id get_user_id get_request_id with_trace_id extract_from_context
get_trace_id-with_trace_id id s ctx legacy = (refl, refl, refl, refl)
