-- ===== src/Security/Audit/History.antt =====
-- The audit trail against the whole history of what was recorded.
use obs_brutal.Prelude.{
  ℕ, ◌-◌, ◌≤◌, min, ◌≡◌, sym, ap, ◌∙◌, inl, inr, ◌||◌, List, [], ◌∷◌, ◌++◌, append_assoc,
  append-nil, arith, ltb, leb, if◌then◌else◌, Bool-cases, length, drop, length-snoc, length-drop,
  last_n, drop-drop, length-last_n, last_n_all, last_n-append,
}
use obs_brutal.Security.Audit.{
  AuditEntry, AuditTrail, new_audit_trail, append_audit, get_audit_trail,
}

unfoldable pub append_audits : List AuditEntry → AuditTrail → AuditTrail
append_audits [] at = at
append_audits (e ∷ es) at = append_audits es (append_audit e at)

append_audit_lem :
    (e : AuditEntry) (at : AuditTrail)
    → length at.entries ≤ at.max_size
    → append_audit e at ≡ record at { entries = last_n at.max_size (at.entries ++ e ∷ []) }
unfolding append_audit
append_audit_lem e at h = elim (Bool-cases (ltb at.max_size (length (at.entries ++ e ∷ [])))) [
  | inl long_ ↦ rw long_ (
      ap (λ n. record at { entries = drop n (at.entries ++ e ∷ []) }) {x = 1}
        (ground (arith, length-snoc at.entries e)))
  | inr fits ↦ rw fits (
      ap (λ n. record at { entries = drop n (at.entries ++ e ∷ []) }) {x = 0}
        (ground (arith, length-snoc at.entries e)))
]

append_audits_lem :
    (es : List AuditEntry) (at : AuditTrail)
    → length at.entries ≤ at.max_size
    → append_audits es at ≡ record at { entries = last_n at.max_size (at.entries ++ es) }
unfolding append_audits
append_audits_lem [] at h =
    ap (λ l. record at { entries = l })
      (sym (ap (last_n at.max_size) (append-nil at.entries) ∙ last_n_all at.max_size at.entries h))
append_audits_lem (e ∷ es) at h =
    let grown = at.entries ++ e ∷ [] in
    let trimmed = record at { entries = last_n at.max_size grown } in
    ap (append_audits es) (append_audit_lem e at h)
    ∙ append_audits_lem es trimmed (length-last_n at.max_size grown)
    ∙ ap (λ l. record at { entries = l })
        (last_n-append at.max_size grown es
          ∙ ap (last_n at.max_size) (append_assoc at.entries (e ∷ []) es))

-- After any history a trail of size `n` holds the last `n` entries of it in order, and asking for
-- the latest `k` of them, where 0 asks for all, gives the last entries of the history: `k` of them,
-- or as many as the trail has where that is fewer.
pub get_audit_trail-append_audits :
    (n k : ℕ) (es : List AuditEntry)
    → let at = append_audits es (new_audit_trail n) in
      (at.entries ≡ last_n n es)
      × (get_audit_trail k at ≡ last_n (if leb k 0 then n else min k n) es)
unfolding new_audit_trail get_audit_trail
get_audit_trail-append_audits n k es =
    let held : (append_audits es (new_audit_trail n)).entries ≡ last_n n es =
      ap (λ (at : AuditTrail). at.entries)
        (append_audits_lem es (new_audit_trail n) (omega arith)) in
    (
      held,
      ap (λ (l : List AuditEntry). drop (length l - shown (length l)) l) held
          ∙ drop-drop (length (last_n n es) - shown (length (last_n n es))) (length es - n) es
          ∙ ap (λ d. drop d es) (ground (arith, length-drop (length es - n) es)),
    )
  where
    shown : ℕ → ℕ
    shown m = if leb k 0 || ltb m k then m else k
