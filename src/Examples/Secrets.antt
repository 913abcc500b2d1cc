-- ===== src/Examples/Secrets.antt =====
-- Masking, access and audit at concrete values.
use obs_brutal.Prelude.{
  ℕ, min, ◌≡◌, refl, ◌↔◌, true, false, List, [], ◌∷◌, leb, if◌then◌else◌, replicate, last_n,
  bytes_keys, string_keys, nat_keys, lookup, insert, codes,
}
use obs_brutal.Domain.Value.{FieldMap, text, number}
use obs_brutal.Security.Masking.Text.{mask_partially}
use obs_brutal.Security.Audit.{
  AuditTrail, AuditEntry, audit_success, make_audit, new_audit_trail, get_audit_trail,
}
use obs_brutal.Security.Audit.History.{append_audits, get_audit_trail-append_audits}
use obs_brutal.Security.Access.{
  AccessControl, AccessRule, new_access_control, set_field_access, check_field_access,
}
use obs_brutal.Security.Access.Decisions.{Permits, check_field_access-Permits}

-- A digest of 32 bytes that does not look at its input.
abbrev digest : List ℕ → List ℕ
digest s = replicate 32 7

mask_partially_value : mask_partially (codes "alice@home") ≡ codes "al******me"
unfolding mask_partially
mask_partially_value = refl

abbrev visit : FieldMap
visit =
    ("email", text (codes "ann@home")) ∷ ("password", text (codes "pw")) ∷ ("age", number 4) ∷ []

abbrev admins_only : AccessRule
admins_only = record {
  allowed_roles = "admin" ∷ "root" ∷ [];
  denied_roles = "root" ∷ [];
  required_auth = true;
  log_access = false;
}

abbrev guarded : AccessControl
guarded = set_field_access "email" admins_only new_access_control

check_field_access-Permits_example :
    (check_field_access guarded "email" "admin" true ≡ true) ↔ Permits guarded "email" "admin" true
check_field_access-Permits_example = check_field_access-Permits guarded "email" "admin" true

-- The role that is both allowed and denied is refused, and so is one without a login.
guarded_answers :
    (check_field_access guarded "email" "admin" true ≡ true)
    × (check_field_access guarded "email" "admin" false ≡ false)
    × (check_field_access guarded "email" "root" true ≡ false)
unfolding check_field_access set_field_access new_access_control lookup insert
guarded_answers = (refl, refl, refl)

abbrev trail : AuditTrail
trail = new_audit_trail 2

abbrev login : ℕ → AuditEntry
login now = make_audit now (codes "ann") "LOGIN" "SESSION" audit_success visit [] []

get_audit_trail-append_audits_example :
    let at = append_audits (login 1 ∷ login 2 ∷ login 3 ∷ []) (new_audit_trail 2) in
    (at.entries ≡ last_n 2 (login 1 ∷ login 2 ∷ login 3 ∷ []))
    × (get_audit_trail 1 at
        ≡ last_n (if leb 1 0 then 2 else min 1 2) (login 1 ∷ login 2 ∷ login 3 ∷ []))
get_audit_trail-append_audits_example =
    get_audit_trail-append_audits 2 1 (login 1 ∷ login 2 ∷ login 3 ∷ [])
