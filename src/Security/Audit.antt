-- ===== src/Security/Audit.antt =====
-- The audit trail (internal/core/service/security/security.go): the latest entries, oldest first.
pub mod History
use obs_brutal.Prelude.{
  ℕ, ◌-◌, String, ◌||◌, List, [], ◌∷◌, ◌++◌, ltb, leb, if◌then◌else◌, length, is_empty, drop, any,
  codes, contains,
}
use obs_brutal.Domain.Value.{Value, FieldMap}
use obs_brutal.Security.Masking.Fields.{lower_key}

pub data Severity : Type 0 where
  pii_low pii_medium pii_high pii_critical : Severity

pub data AuditResult : Type 0 where
  audit_success audit_failure audit_denied : AuditResult

pub record AuditEntry : Type 0 where
  pub timestamp : ℕ
  pub user_id : List ℕ
  pub action : String
  pub resource : String
  pub result : AuditResult
  pub details : FieldMap
  pub trace_id : List ℕ
  pub span_id : List ℕ
  pub pii_accessed : List String
  pub severity : Severity

pub record AuditTrail : Type 0 where
  pub entries : List AuditEntry
  pub max_size : ℕ

unfoldable pub new_audit_trail : ℕ → AuditTrail
new_audit_trail max_size = record { entries = []; max_size = max_size }

abbrev pub audited_words : List (List ℕ)
audited_words =
    codes "email"
    ∷ codes "phone"
    ∷ codes "id_card"
    ∷ codes "passport"
    ∷ codes "ssn"
    ∷ codes "credit_card"
    ∷ codes "bank_account"
    ∷ codes "address"
    ∷ codes "birth_date"
    ∷ []

-- `detectPIIAccess`: the keys that contain one of the words, in any case.
unfoldable pub detect_pii_access : FieldMap → List String
detect_pii_access [] = []
detect_pii_access ((k, v) ∷ m) =
    if any (contains (lower_key k)) audited_words
    then k ∷ detect_pii_access m
    else detect_pii_access m

-- The entry that `RecordAudit` makes at the time `now`.
unfoldable pub make_audit :
    ℕ → List ℕ → String → String → AuditResult → FieldMap → List ℕ → List ℕ → AuditEntry
unfolding detect_pii_access
make_audit now user action resource result details trace span = record {
  timestamp = now;
  user_id = user;
  action = action;
  resource = resource;
  result = result;
  details = details;
  trace_id = trace;
  span_id = span;
  pii_accessed = detect_pii_access details;
  severity = if is_empty (detect_pii_access details) then pii_low else pii_high;
}

-- The end of `RecordAudit`: an append, and where the trail is then too long the oldest entry goes.
unfoldable pub append_audit : AuditEntry → AuditTrail → AuditTrail
append_audit e at =
    let entries = at.entries ++ e ∷ [] in
    if ltb at.max_size (length entries)
    then record at { entries = drop 1 entries }
    else record at { entries = entries }

unfoldable pub record_audit :
    ℕ
    → List ℕ
    → String
    → String
    → AuditResult
    → FieldMap
    → List ℕ
    → List ℕ
    → AuditTrail
    → AuditTrail
record_audit now user action resource result details trace span at =
    append_audit (make_audit now user action resource result details trace span) at

-- `GetAuditTrail`; a limit that is 0 (or, in the source, negative) is none.
unfoldable pub get_audit_trail : ℕ → AuditTrail → List AuditEntry
get_audit_trail limit at =
    let n = length at.entries in
    let k = if leb limit 0 || ltb n limit then n else limit in drop (n - k) at.entries
