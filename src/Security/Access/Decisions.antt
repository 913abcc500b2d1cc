-- ===== src/Security/Access/Decisions.antt =====
-- Who may see a field, and what the audit trail says of it.
use obs_brutal.Prelude.{
  ℕ, String, ◌≡◌, refl, ap, ◌∙◌, ◌↔◌, ◌⊎◌, inl, inr, Bool, true, false, Option, none, some, List,
  [], ◌∷◌, arith, if◌then◌else◌, Bool-cases, is_empty, any, ◌==◌, nat_keys, string_keys, bytes_keys,
  lookup, IsMap, ranged, lookup-range_into,
}
use obs_brutal.Domain.Value.{Value, FieldMap}
use obs_brutal.Security.Audit.{AuditTrail, AuditEntry, pii_low, append_audit}
use obs_brutal.Security.Access.{
  AccessControl, AccessRule, check_rule, check_field_access, filter_fields_by_access,
}

abbrev pub Member : String → List String → Type 0
Member x [] = ⊥
Member x (y ∷ ys) = (y ≡ x) ⊎ Member x ys

-- The policy in words: a field without a rule is open; one with a rule wants the login where the
-- rule asks for it, a role that is not denied, and one that is allowed if any is named.
pub data Permits (acm : AccessControl) (field role : String) (authed : Bool) : Type 0 where
  no_rule : lookup field acm.rules ≡ none → Permits acm field role authed
  by_rule :
      (r : AccessRule)
      → lookup field acm.rules ≡ some r
      → (r.required_auth ≡ true → authed ≡ true)
      → ¬ Member role r.denied_roles
      → (r.allowed_roles ≡ []) ⊎ Member role r.allowed_roles
      → Permits acm field role authed

any-Member : (role : String) (xs : List String) → (any (λ d. d == role) xs ≡ true) ↔ Member role xs
any-Member role [] = ((λ h. cc), λ h. absurd h)
any-Member role (x ∷ xs) = elim (Bool-cases (x == role)) [
  | inl same ↦ ((λ _. inl ((string_keys.same_key_iff x role).0 same)), λ _. rw same)
  | inr other ↦ (
    (λ h. inr ((any-Member role xs).0 (rw other at h))),
    λ m. rw other (elim m [
      | inl e ↦ absurd (cc (other, (string_keys.same_key_iff x role).1 e))
      | inr n ↦ (any-Member role xs).1 n
    ]),
  )
]

nil_of_is_empty : (xs : List String) → is_empty xs ≡ true → xs ≡ []
nil_of_is_empty [] h = refl
nil_of_is_empty (x ∷ xs) h = cc

not_any : (role : String) (xs : List String) → ¬ Member role xs → any (λ d. d == role) xs ≡ false
not_any role xs h = elim (Bool-cases (any (λ d. d == role) xs)) [
  | inl e ↦ absurd (h ((any-Member role xs).0 e))
  | inr e ↦ e
]

check_rule_sound :
    (acm : AccessControl) (field role : String) (authed : Bool) (r : AccessRule)
    → lookup field acm.rules ≡ some r
    → check_rule (some r) role authed ≡ true
    → Permits acm field role authed
unfolding check_rule
check_rule_sound acm field role authed r e h =
    by_rule r e (ground arith) (λ m. denied ((any-Member role r.denied_roles).1 m)) allowed
  where
    denied : any (λ d. d == role) r.denied_roles ≡ true → ⊥
    denied d = ground arith

    allowed : (r.allowed_roles ≡ []) ⊎ Member role r.allowed_roles
    allowed = elim (Bool-cases (is_empty r.allowed_roles)) [
      | inl open_ ↦ inl (nil_of_is_empty r.allowed_roles open_)
      | inr named ↦ inr ((any-Member role r.allowed_roles).0 (ground arith))
    ]

check_rule_complete :
    (role : String) (authed : Bool) (r : AccessRule)
    → (r.required_auth ≡ true → authed ≡ true)
    → ¬ Member role r.denied_roles
    → (r.allowed_roles ≡ []) ⊎ Member role r.allowed_roles
    → check_rule (some r) role authed ≡ true
unfolding check_rule
check_rule_complete role authed r auth nd (inl e) =
    ground (arith, not_any role r.denied_roles nd, ap is_empty e)
check_rule_complete role authed r auth nd (inr m) =
    ground (arith, not_any role r.denied_roles nd, (any-Member role r.allowed_roles).1 m)

-- The check answers yes exactly to what the policy permits.
pub check_field_access-Permits :
    (acm : AccessControl) (field role : String) (authed : Bool)
    → (check_field_access acm field role authed ≡ true) ↔ Permits acm field role authed
unfolding check_field_access
check_field_access-Permits acm field role authed = (sound (lookup field acm.rules) refl, complete)
  where
    sound :
        (o : Option AccessRule)
        → lookup field acm.rules ≡ o
        → check_rule o role authed ≡ true
        → Permits acm field role authed
    sound none e h = no_rule e
    sound (some r) e h = check_rule_sound acm field role authed r e h

    complete :
        Permits acm field role authed → check_rule (lookup field acm.rules) role authed ≡ true
    complete (no_rule e) = rw e (unfold check_rule in refl)
    complete (by_rule r e auth nd al) = rw e (check_rule_complete role authed r auth nd al)

-- Of a map of fields exactly those are shown that the check allows, with their values.
pub lookup-filter_fields_by_access :
    (acm : AccessControl) (m : FieldMap) (role : String) (authed : Bool) (audit : Option AuditTrail)
    (now : ℕ) (user trace span : List ℕ) (k : String)
    → IsMap m
    → lookup k (filter_fields_by_access acm m role authed audit now user trace span).0
      ≡ (if check_field_access acm k role authed then lookup k m else none)
unfolding filter_fields_by_access lookup
lookup-filter_fields_by_access acm m role authed audit now user trace span k h =
    lookup-range_into (λ j _. check_field_access acm j role authed) (λ _ v. v) k m [] h
    ∙ by_option (lookup k m)
  where
    by_option :
        (o : Option Value)
        → ranged (λ j _. check_field_access acm j role authed) (λ _ v. v) k o none
          ≡ (if check_field_access acm k role authed then o else none)
    by_option none = ground arith
    by_option (some v) = refl

-- What becomes of the trail, by the names of the personal data that was shown.
abbrev pub Audited : List String → AuditTrail → Option AuditTrail → Type 0
Audited names at none = ⊥
Audited [] at (some after) = after ≡ at
Audited (n ∷ ns) at (some after) =
    (e : AuditEntry) × (after ≡ append_audit e at)
    × (e.action ≡ "FIELD_ACCESS")
    × (e.pii_accessed ≡ [])
    × (e.severity ≡ pii_low)
