-- ===== src/Security/Access.antt =====
-- Field access control (internal/core/service/security/security.go).
pub mod Decisions
use obs_brutal.Prelude.{
  ℕ, String, Bool, true, false, not, ◌&&◌, Option, none, some, List, [], ◌∷◌, if◌then◌else◌,
  is_empty, any, ◌==◌, nat_keys, string_keys, bytes_keys, lookup, insert, range_into, codes,
  contains,
}
use obs_brutal.Domain.Value.{Value, FieldMap, text, opaque}
use obs_brutal.Security.Masking.Fields.{lower_key}
use obs_brutal.Security.Audit.{AuditTrail, AuditEntry, audit_success, record_audit}

pub record AccessRule : Type 0 where
  pub allowed_roles : List String
  pub denied_roles : List String
  pub required_auth : Bool
  pub log_access : Bool

pub record AccessControl : Type 0 where
  pub rules : List (String × AccessRule)

unfoldable pub new_access_control : AccessControl
new_access_control = record { rules = [] }

unfoldable pub set_field_access : String → AccessRule → AccessControl → AccessControl
set_field_access field rule acm = record { rules = insert field rule acm.rules }

-- `CheckFieldAccess`: a denied role comes before an allowed one, and without a list of allowed
-- roles every other role is allowed.
check_rule : Option AccessRule → String → Bool → Bool
check_rule none role authed = true
check_rule (some r) role authed =
    if r.required_auth && not authed
    then false
    else if any (λ d. d == role) r.denied_roles
    then false
    else if is_empty r.allowed_roles
    then true
    else any (λ a. a == role) r.allowed_roles

unfoldable pub check_field_access : AccessControl → String → String → Bool → Bool
unfolding check_rule
check_field_access acm field role authed = check_rule (lookup field acm.rules) role authed

abbrev pub pii_words : List (List ℕ)
pii_words =
    codes "email"
    ∷ codes "phone"
    ∷ codes "id"
    ∷ codes "card"
    ∷ codes "passport"
    ∷ codes "ssn"
    ∷ codes "address"
    ∷ codes "birth"
    ∷ codes "name"
    ∷ codes "personal"
    ∷ []

-- `isPIIField`.
unfoldable pub is_pii_field : String → Bool
is_pii_field k = any (contains (lower_key k)) pii_words

-- The names that `FilterFieldsByAccess` collects.
unfoldable pub pii_names : AccessControl → String → Bool → FieldMap → List String
unfolding is_pii_field
pii_names acm role authed [] = []
pii_names acm role authed ((k, v) ∷ m) =
    if check_field_access acm k role authed && is_pii_field k
    then k ∷ pii_names acm role authed m
    else pii_names acm role authed m

-- The `details` of its audit entry; the slice of names is a value of another type.
unfoldable pub access_details : String → FieldMap
access_details role =
    insert "user_role" (text (codes role)) (insert "accessed_fields" (opaque 0) [])

audit_access :
    ℕ → List ℕ → List ℕ → List ℕ → String → List String → Option AuditTrail → Option AuditTrail
audit_access now user trace span role names none = none
audit_access now user trace span role [] (some at) = some at
audit_access now user trace span role (n ∷ ns) (some at) = some (
    record_audit now user "FIELD_ACCESS" "LOG_FIELDS" audit_success (access_details role) trace span
      at)

-- `FilterFieldsByAccess`: the fields that may be seen, and the trail, which may be nil.
unfoldable pub filter_fields_by_access :
    AccessControl
    → FieldMap
    → String
    → Bool
    → Option AuditTrail
    → ℕ
    → List ℕ
    → List ℕ
    → List ℕ
    → FieldMap × Option AuditTrail
unfolding pii_names audit_access
filter_fields_by_access acm m role authed audit now user trace span = (
  range_into (λ k _. check_field_access acm k role authed) (λ _ v. v) m [],
  audit_access now user trace span role (pii_names acm role authed m) audit,
)
