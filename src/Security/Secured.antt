-- ===== src/Security/Secured.antt =====
-- The security logger (internal/core/service/security/security.go, `SecurityLogBrt`) over the logger
-- with telemetry, access control and the audit trail.
use obs_brutal.Prelude.{
  ℕ, String, ◌≡◌, refl, ap, ◌∙◌, Bool, true, ◌&&◌, Option, none, some, List, [], ◌∷◌, arith,
  if◌then◌else◌, bytes_keys, string_keys, nat_keys, prefer, lookup, insert_all, IsMap,
  lookup-insert_all, insert_all-IsMap, range_into-IsMap,
}
use obs_brutal.Domain.Level.{Level, info_level}
use obs_brutal.Domain.Value.{FieldMap}
use obs_brutal.Domain.Entry.{LogEntry}
use obs_brutal.Base.Unified.{fields_copy, with_only_fields, clone}
use obs_brutal.Base.Pipeline.{Fails, Interference, Waiting}
use obs_brutal.Strategy.Manager.{MaskingStrategy, add_masker}
use obs_brutal.Otel.{OtelLog, OtelWorld, otel_log, otel_context, otel_only_fields}
use obs_brutal.Security.Audit.{AuditTrail, new_audit_trail}
use obs_brutal.Security.Access.{
  AccessControl, new_access_control, check_field_access, filter_fields_by_access,
}
use obs_brutal.Security.Access.Decisions.{lookup-filter_fields_by_access}

-- The logger with what its lines leave behind. `otel` is the logger behind the embedded pointer: a
-- call that changes it is seen by the next one.
pub record SecurityLog : Type 0 where
  pub otel : OtelLog
  pub access_control : AccessControl
  pub audit_trail : Option AuditTrail
  pub security_enabled : Bool
  pub world : OtelWorld

-- `NewSecurityLogBrtWithOTel`, on a logger that is not nil; `masker` is the adapter of the new
-- `PIIMasker`.
unfoldable pub new_security_log : MaskingStrategy → OtelLog → OtelWorld → SecurityLog
new_security_log masker ol w = record {
  otel = ol;
  access_control = new_access_control;
  audit_trail = some (new_audit_trail 10000);
  security_enabled = true;
  world = record w { shared = record w.shared { manager = add_masker masker w.shared.manager } };
}

-- The fields that are left for a role; `extract` is `ExtractTraceInfo` of the provider.
unfoldable pub trace_info : (ℕ → List ℕ × List ℕ) → Option ℕ → Bool → List ℕ × List ℕ
trace_info extract none provided = ([], [])
trace_info extract (some c) provided = if provided then extract c else ([], [])

unfoldable pub filter_own :
    (ℕ → List ℕ × List ℕ) → List ℕ → String → Bool → ℕ → SecurityLog → FieldMap × Option AuditTrail
unfolding trace_info
filter_own extract user role authed now el =
    let ids = trace_info extract (otel_context el.otel) el.otel.has_provider in
    filter_fields_by_access el.access_control (fields_copy el.otel.strategy.base) role authed
      el.audit_trail now user ids.0 ids.1

-- A call by its arguments.
pub record SecureCall : Type 0 where
  pub level : Level
  pub msg : List ℕ
  pub user : List ℕ
  pub role : String
  pub authed : Bool
  pub now : ℕ
  pub drawn : ℕ
  pub took : ℕ

-- Whether each of the calls was made for a role that may see the field.
abbrev pub seen_by_all : AccessControl → String → List SecureCall → Bool
seen_by_all acm k [] = true
seen_by_all acm k (c ∷ cs) = check_field_access acm k c.role c.authed && seen_by_all acm k cs

prefer-none : {V : Type 0} → (o : Option V) → prefer o none ≡ o
prefer-none none = refl
prefer-none (some v) = refl

lookup-insert_all_nil :
    (k : String) (m : FieldMap) → IsMap m → lookup k (insert_all m []) ≡ lookup k m
unfolding lookup
lookup-insert_all_nil k m h = lookup-insert_all k m [] h ∙ prefer-none (lookup k m)

filter_own-IsMap :
    (extract : ℕ → List ℕ × List ℕ) (user : List ℕ) (role : String) (authed : Bool) (now : ℕ)
    (el : SecurityLog)
    → IsMap (filter_own extract user role authed now el).0
unfolding filter_own filter_fields_by_access
filter_own-IsMap extract user role authed now el =
    range_into-IsMap (λ k _. check_field_access el.access_control k role authed) (λ _ v. v) _ [] tt

lookup-filter_own :
    (extract : ℕ → List ℕ × List ℕ) (user : List ℕ) (role : String) (authed : Bool) (now : ℕ)
    (el : SecurityLog) (k : String)
    → IsMap el.otel.strategy.base.fields
    → lookup k (filter_own extract user role authed now el).0 ≡ (
        if check_field_access el.access_control k role authed
        then lookup k el.otel.strategy.base.fields
        else none)
unfolding filter_own fields_copy
lookup-filter_own extract user role authed now el k h =
    let copy = insert_all el.otel.strategy.base.fields [] in
    lookup-filter_fields_by_access el.access_control copy role authed el.audit_trail now user _ _ k
      (insert_all-IsMap el.otel.strategy.base.fields [] tt)
    ∙ ap (λ o. if check_field_access el.access_control k role authed then o else none)
        (lookup-insert_all_nil k el.otel.strategy.base.fields h)

module _ (extract : ℕ → List ℕ × List ℕ) (fails : Fails LogEntry)
    (after_test : Interference LogEntry) (i : Waiting LogEntry) (j : Interference LogEntry) where
  -- `LogWithSecurity`: the level that it is given is not used.
  unfoldable pub log_with_security :
      Level → List ℕ → List ℕ → String → Bool → ℕ → ℕ → ℕ → SecurityLog → SecurityLog
  log_with_security lvl msg user role authed now drawn took el =
      let filtered = filter_own extract user role authed now el in
      let sec = otel_only_fields filtered.0 el.otel in
      if el.security_enabled
      then record el {
        otel = sec;
        audit_trail = filtered.1;
        world = otel_log fails after_test i j info_level msg now drawn took sec el.world;
      }
      else record el {
        world = otel_log fails after_test i j info_level msg now drawn took el.otel el.world;
      }

  unfoldable pub secure_calls : List SecureCall → SecurityLog → SecurityLog
  unfolding log_with_security
  secure_calls [] el = el
  secure_calls (c ∷ cs) el =
      secure_calls cs
        (log_with_security c.level c.msg c.user c.role c.authed c.now c.drawn c.took el)

  -- What a call under security leaves of the logger.
  record IsFiltered (c : SecureCall) (el n : SecurityLog) : Type 0 where
    enabled : n.security_enabled ≡ true
    same_rules : n.access_control ≡ el.access_control
    fields-IsMap : IsMap n.otel.strategy.base.fields
    fields :
        (k : String)
        → lookup k n.otel.strategy.base.fields ≡ (
            if check_field_access el.access_control k c.role c.authed
            then lookup k el.otel.strategy.base.fields
            else none)

  log_with_security-IsFiltered :
      (c : SecureCall) (el : SecurityLog)
      → el.security_enabled ≡ true
      → IsMap el.otel.strategy.base.fields
      → IsFiltered c el
          (log_with_security c.level c.msg c.user c.role c.authed c.now c.drawn c.took el)
  unfolding log_with_security otel_only_fields with_only_fields clone
  log_with_security-IsFiltered c el on h =
      let filtered = (filter_own extract c.user c.role c.authed c.now el).0 in
      simp on record {
        enabled = refl;
        same_rules = refl;
        fields-IsMap = insert_all-IsMap filtered [] tt;
        fields = λ k.
            lookup-insert_all_nil k filtered
              (filter_own-IsMap extract c.user c.role c.authed c.now el)
            ∙ lookup-filter_own extract c.user c.role c.authed c.now el k h;
      }

  -- A logger with security enabled forgets what a role may not see: after any calls it has exactly
  -- those of its fields that the role of every one of them could see, so what was hidden from one
  -- caller is missing from all later lines of the logger, whoever they are for.
  pub lookup-secure_calls :
      (cs : List SecureCall) (el : SecurityLog) (k : String)
      → el.security_enabled ≡ true
      → IsMap el.otel.strategy.base.fields
      → lookup k (secure_calls cs el).otel.strategy.base.fields ≡ (
          if seen_by_all el.access_control k cs
          then lookup k el.otel.strategy.base.fields
          else none)
  unfolding secure_calls
  lookup-secure_calls [] el k on h = refl
  lookup-secure_calls (c ∷ cs) el k on h =
      let step = log_with_security-IsFiltered c el on h in
      let n = log_with_security c.level c.msg c.user c.role c.authed c.now c.drawn c.took el in
      lookup-secure_calls cs n k step.enabled step.fields-IsMap
      ∙ rw (step.same_rules, step.fields k) (ground arith)
