-- ===== src/Base/Promote.antt =====
-- `Promote` (internal/core/service/base/unified.go): identifiers that were logged as fields move
-- to the fields of the entry that have their names.
pub mod Laws
pub mod Idempotence
use obs_brutal.Prelude.{
  ℕ, String, Option, none, some, List, [], ◌∷◌, nat_keys, string_keys, bytes_keys, lookup, erase,
}
use obs_brutal.Domain.Value.{FieldMap}
use obs_brutal.Domain.Entry.{LogEntry, string_of}

-- The body of one `if`: where the assertion to string succeeds, the string is taken and the key
-- deleted.
abbrev pub taken : String → FieldMap → Option (List ℕ) → List ℕ × FieldMap
taken k m none = ([], m)
taken k m (some s) = (s, erase k m)

-- One of the six `if` statements: `id` is the entry's own identifier.
pub promote_id : String → List ℕ → FieldMap → List ℕ × FieldMap
promote_id k [] m = taken k m (string_of (lookup k m))
promote_id k (c ∷ id) m = (c ∷ id, m)

promote_map : LogEntry → FieldMap → LogEntry
unfolding promote_id
promote_map e m0 =
    let (trace, m1) = promote_id "trace_id" e.trace_id m0 in
    let (span, m2) = promote_id "span_id" e.span_id m1 in
    let (request, m3) = promote_id "request_id" e.request_id m2 in
    let (user, m4) = promote_id "user_id" e.user_id m3 in
    let (module_name, m5) = promote_id "module" e.mod_name m4 in
    let (tenant, m6) = promote_id "tenant_id" e.tenant_id m5 in
    record e {
      trace_id = trace;
      span_id = span;
      request_id = request;
      user_id = user;
      mod_name = module_name;
      tenant_id = tenant;
      fields = some (erase "context" m6);
    }

promote_fields : LogEntry → Option FieldMap → LogEntry
unfolding promote_map
promote_fields e none = e
promote_fields e (some m) = promote_map e m

-- `Promote` on an entry that is not nil.
unfoldable pub promote : LogEntry → LogEntry
unfolding promote_fields
promote e = promote_fields e e.fields
