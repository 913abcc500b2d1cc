-- ===== src/Boeng/Names.antt =====
-- Names of metrics (boeng/metrics.go, `sanitizeMetricName`). A name is a list of bytes: a character
-- that is not ASCII is a run of bytes that are all disallowed, and a run collapses.
use obs_brutal.Prelude.{
  ℕ, ◌+◌, ◌≡◌, refl, ap, ◌≢◌, inl, inr, Bool, true, false, not, ◌&&◌, ◌||◌, List, [], ◌∷◌, arith,
  nat_eq, if◌then◌else◌, Bool-cases, is_empty, All, codes, is_upper, is_lower, is_digit, to_lower,
}

-- The characters that are written as they are.
abbrev pub is_plain : ℕ → Bool
is_plain c = nat_eq c b'_' || is_digit c || is_lower c

abbrev pub is_disallowed : ℕ → Bool
is_disallowed c = not (is_plain c || is_upper c)

-- One round of the loop, with `prevUnderscore` and what the later rounds write.
write_char : Bool → ℕ → List ℕ → List ℕ
write_char prev c rest =
    if is_plain c
    then c ∷ rest
    else if is_upper c
    then to_lower c ∷ rest
    else if prev
    then rest
    else b'_' ∷ rest

scan_name : Bool → List ℕ → List ℕ
unfolding write_char
scan_name prev [] = []
scan_name prev (c ∷ s) = write_char prev c (scan_name (is_disallowed c) s)

-- `strings.TrimRight(out, "_")`.
unfoldable pub trim_right : List ℕ → List ℕ
trim_right [] = []
trim_right (c ∷ s) =
    let rest = trim_right s in if is_empty rest && nat_eq c b'_' then [] else c ∷ rest

or_unnamed : List ℕ → List ℕ
or_unnamed [] = codes "unnamed"
or_unnamed (c ∷ s) = c ∷ s

unfoldable pub sanitize_metric_name : List ℕ → List ℕ
unfolding scan_name trim_right or_unnamed
sanitize_metric_name s = or_unnamed (trim_right (scan_name true s))

-- A name that a metric may have: of plain characters, not empty, and without an underscore at its
-- end.
pub record IsMetricName (s : List ℕ) : Type 0 where
  pub plain : All (λ c. is_plain c ≡ true) s
  pub named : s ≢ []
  pub trimmed : trim_right s ≡ s

plain_to_lower : (c : ℕ) → is_upper c ≡ true → is_plain (c + 32) ≡ true
plain_to_lower c h = ground arith

abbrev pub IsPlain : ℕ → Type 0
IsPlain c = is_plain c ≡ true

write_char-IsPlain :
    (prev : Bool) (c : ℕ) (rest : List ℕ) → All IsPlain rest → All IsPlain (write_char prev c rest)
unfolding write_char
write_char-IsPlain prev c rest h = elim (Bool-cases (is_plain c)) [
  | inl p ↦ rw p (p, h)
  | inr np ↦ elim (Bool-cases (is_upper c)) [
    | inl u ↦ rw (np, u) (plain_to_lower c u, h)
    | inr nu ↦ rw (np, nu) (if_skipped prev)
  ]
]
  where
    if_skipped : (b : Bool) → All IsPlain (if◌then◌else◌ {A = List ℕ} b rest (b'_' ∷ rest))
    if_skipped true = h
    if_skipped false = (refl, h)

scan_name-IsPlain : (prev : Bool) (s : List ℕ) → All IsPlain (scan_name prev s)
unfolding scan_name
scan_name-IsPlain prev [] = tt
scan_name-IsPlain prev (c ∷ s) = write_char-IsPlain prev c _ (scan_name-IsPlain (is_disallowed c) s)

trim_right-IsPlain : (s : List ℕ) → All IsPlain s → All IsPlain (trim_right s)
unfolding trim_right
trim_right-IsPlain [] h = tt
trim_right-IsPlain (c ∷ s) h = elim (Bool-cases (is_empty (trim_right s) && nat_eq c b'_')) [
  | inl e ↦ rw e tt
  | inr e ↦ rw e (h.0, trim_right-IsPlain s h.1)
]

trim_right_idem : (s : List ℕ) → trim_right (trim_right s) ≡ trim_right s
unfolding trim_right
trim_right_idem [] = refl
trim_right_idem (c ∷ s) = elim (Bool-cases (is_empty (trim_right s) && nat_eq c b'_')) [
  | inl e ↦ rw e
  | inr e ↦ rw (e, trim_right, trim_right_idem s, e)
]

or_unnamed-IsMetricName :
    (s : List ℕ) → All IsPlain s → trim_right s ≡ s → IsMetricName (or_unnamed s)
unfolding or_unnamed
or_unnamed-IsMetricName [] h t = record {
  plain = (refl, (refl, (refl, (refl, (refl, (refl, (refl, tt)))))));
  named = λ e. cc;
  trimmed = unfold trim_right in refl;
}
or_unnamed-IsMetricName (c ∷ s) h t = record { plain = h; named = λ e. cc; trimmed = t }

scan_name_plain : (prev : Bool) (s : List ℕ) → All IsPlain s → scan_name prev s ≡ s
unfolding scan_name write_char
scan_name_plain prev [] h = refl
scan_name_plain prev (c ∷ s) h = rw h.0 (ap (λ r. c ∷ r) (scan_name_plain false s h.1))

or_unnamed_named : (s : List ℕ) → s ≢ [] → or_unnamed s ≡ s
unfolding or_unnamed
or_unnamed_named [] h = absurd (h refl)
or_unnamed_named (c ∷ s) h = refl

sanitize_plain : (s : List ℕ) → IsMetricName s → sanitize_metric_name s ≡ s
unfolding sanitize_metric_name
sanitize_plain s h = rw (scan_name_plain true s h.plain, h.trimmed) (or_unnamed_named s h.named)

-- Every name becomes one that a metric may have: plain characters, at least one, and no underscore
-- at the end; and to sanitize twice is to do it once.
pub sanitize_metric_name-IsMetricName :
    (s : List ℕ)
    → IsMetricName (sanitize_metric_name s)
      × (sanitize_metric_name (sanitize_metric_name s) ≡ sanitize_metric_name s)
unfolding sanitize_metric_name
sanitize_metric_name-IsMetricName s =
    let valid =
      or_unnamed-IsMetricName _ (trim_right-IsPlain _ (scan_name-IsPlain true s))
        (trim_right_idem (scan_name true s)) in
    (valid, sanitize_plain _ valid)
