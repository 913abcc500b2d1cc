-- ===== src/Strategy/Manager/Processing.antt =====
-- What the manager does to an entry, and how a change of its strategies changes that.
use obs_brutal.Prelude.{
  ℕ, ◌≡◌, refl, sym, ◌∙◌, ◌≢◌, ◌⊎◌, inl, inr, true, false, ◌&&◌, Option, none, some, List, [], ◌∷◌,
  ◌++◌, arith, if◌then◌else◌, Bool-cases, all, bytes_keys, string_keys, nat_keys, insert_all,
}
use obs_brutal.Domain.Value.{FieldMap}
use obs_brutal.Domain.Entry.{LogEntry, entries_of}
use obs_brutal.Strategy.Manager.{
  Manager, FilterStrategy, SamplerStrategy, MaskingStrategy, add_filter, pass_filters,
  pass_samplers, mask_all, masked_entry, process_entry,
}

pass_filters-append :
    (e : LogEntry) (fs gs : List FilterStrategy)
    → pass_filters e (fs ++ gs) ≡ pass_filters e fs && pass_filters e gs
unfolding pass_filters
pass_filters-append e [] gs = refl
pass_filters-append e (f ∷ fs) gs = ground (arith, pass_filters-append e fs gs)

-- A filter that is added decides last of the filters: what passes it is treated as before, and what
-- it refuses is dropped.
pub process_entry-add_filter :
    (f : FilterStrategy) (m : Manager) (n : ℕ) (e : LogEntry)
    → process_entry (add_filter f m) n (some e)
      ≡ (if f.should_log e then process_entry m n (some e) else none)
unfolding process_entry add_filter pass_filters
process_entry-add_filter f m n e = ground (arith, pass_filters-append e m.filters (f ∷ []))

mask_all-append :
    (xs ys : List MaskingStrategy) (m : FieldMap)
    → mask_all (xs ++ ys) m ≡ mask_all ys (mask_all xs m)
unfolding mask_all
mask_all-append [] ys m = refl
mask_all-append (x ∷ xs) ys m = mask_all-append xs ys (x.mask_fields m)

-- The fields that come out when each masker, from the first to the last, is given what the one before
-- it returned.
pub data Masked : List MaskingStrategy → FieldMap → FieldMap → Type 0 where
  unmasked : (m : FieldMap) → Masked [] m m
  masked :
      (x : MaskingStrategy) {xs : List MaskingStrategy} {m out : FieldMap}
      → Masked xs (x.mask_fields m) out
      → Masked (x ∷ xs) m out

mask_all-Masked : (xs : List MaskingStrategy) (m : FieldMap) → Masked xs m (mask_all xs m)
unfolding mask_all
mask_all-Masked [] m = Masked.unmasked m
mask_all-Masked (x ∷ xs) m = Masked.masked x (mask_all-Masked xs (x.mask_fields m))

-- What the manager promises of its result, in terms of all filters, all samplers and all maskers.
abbrev pub Processed : Manager → ℕ → LogEntry → Option LogEntry → Type 0
Processed m n e none =
    (all (λ f. f.should_log e) m.filters ≡ false)
    ⊎ (all (λ s. s.should_sample n e) m.samplers ≡ false)
Processed m n e (some p) =
    (all (λ f. f.should_log e) m.filters ≡ true)
    × (all (λ s. s.should_sample n e) m.samplers ≡ true)
    × (((m.maskers ≡ []) × (p ≡ e))
        ⊎ ((m.maskers ≢ [])
            × ((out : FieldMap) × (p ≡ record e { fields = some out })
                × Masked m.maskers (insert_all (entries_of e.fields) []) out)))

pass_filters-all :
    (e : LogEntry) (fs : List FilterStrategy) → pass_filters e fs ≡ all (λ f. f.should_log e) fs
unfolding pass_filters
pass_filters-all e [] = refl
pass_filters-all e (f ∷ fs) = ground (arith, pass_filters-all e fs)

pass_samplers-all :
    (n : ℕ) (e : LogEntry) (ss : List SamplerStrategy)
    → pass_samplers n e ss ≡ all (λ s. s.should_sample n e) ss
unfolding pass_samplers
pass_samplers-all n e [] = refl
pass_samplers-all n e (s ∷ ss) = ground (arith, pass_samplers-all n e ss)

passed :
    (m : Manager) (n : ℕ) (e : LogEntry) (ms : List MaskingStrategy)
    → m.maskers ≡ ms
    → all (λ f. f.should_log e) m.filters ≡ true
    → all (λ s. s.should_sample n e) m.samplers ≡ true
    → Processed m n e (some (masked_entry m.maskers e))
unfolding masked_entry
passed m n e [] h fs ss = rw h (fs, ss, inl (refl, refl))
passed m n e (x ∷ xs) h fs ss = rw h (
  fs,
  ss,
  inr (
    (λ z. cc),
    (
      mask_all (x ∷ xs) (insert_all (entries_of e.fields) []),
      refl,
      mask_all-Masked (x ∷ xs) (insert_all (entries_of e.fields) []),
    ),
  ),
)

-- An entry is dropped exactly where a filter refuses it or, past the filters, a sampler does. One
-- that passes keeps all but its fields; those are put through the maskers in order, as a copy; and
-- without maskers the entry itself is passed on.
pub process_entry-Processed :
    (m : Manager) (n : ℕ) (e : LogEntry) → Processed m n e (process_entry m n (some e))
unfolding process_entry
process_entry-Processed m n e = elim (Bool-cases (pass_filters e m.filters)) [
  | inr refused ↦ rw refused (inl (sym (pass_filters-all e m.filters) ∙ refused))
  | inl ok_ ↦ elim (Bool-cases (pass_samplers n e m.samplers)) [
    | inr out ↦ rw (ok_, out) (inr (sym (pass_samplers-all n e m.samplers) ∙ out))
    | inl in_ ↦
        rw (ok_, in_)
          (passed m n e m.maskers refl (sym (pass_filters-all e m.filters) ∙ ok_)
            (sym (pass_samplers-all n e m.samplers) ∙ in_))
  ]
]
