-- ===== src/Tracing/Extract/Hiding.antt =====
-- Which field of a struct a line shows under a name (internal/adapter/outbound/sink/options/options.go),
-- and that a secret in a struct stays one.
use obs_brutal.Prelude.{
  ℕ, String, ◌≡◌, refl, sym, ap, ◌∙◌, subst, ◌⊎◌, inl, inr, Bool, true, false, Option, none, some,
  List, [], ◌∷◌, ◌++◌, arith, if◌then◌else◌, Bool-cases, length, bytes_keys, string_keys, nat_keys,
  ◌==◌, prefer, lookup, insert, IsMap, lookup-insert, insert-IsMap, codes, as_string,
}
use obs_brutal.Domain.Value.{Value, FieldMap, text}
use obs_brutal.Security.Masking.Fields.{
  MaskingPattern, new_pii_masker, masked_option, lookup-mask_fields, lower_key,
}
use obs_brutal.Security.Masking.Secrecy.{mask_value-hides}
use obs_brutal.Tracing.Extract.{
  TaggedField, struct, extracted_name, extract_from_struct, extracted_fields,
}

-- The last exported field that goes by a name.
abbrev named_value : String → TaggedField → Option Value
named_value k f =
    if f.is_exported
    then (if as_string (extracted_name f) == k then some f.value else none)
    else none

abbrev pub last_named : String → List TaggedField → Option Value
last_named k [] = none
last_named k (f ∷ fs) = prefer (last_named k fs) (named_value k f)

prefer_assoc : (a b c : Option Value) → prefer (prefer a b) c ≡ prefer a (prefer b c)
prefer_assoc none b c = refl
prefer_assoc (some v) b c = refl

lookup-extract_from_struct :
    (k : String) (fs : List TaggedField) (out : FieldMap)
    → lookup k (extract_from_struct fs out) ≡ prefer (last_named k fs) (lookup k out)
unfolding extract_from_struct
lookup-extract_from_struct k [] out = refl
lookup-extract_from_struct k (f ∷ fs) out =
    lookup-extract_from_struct k fs _
    ∙ ap (prefer (last_named k fs)) (one f.is_exported)
    ∙ sym (prefer_assoc (last_named k fs) (named_value k f) (lookup k out))
  where
    one :
        (b : Bool)
        → lookup k (if b then insert (as_string (extracted_name f)) f.value out else out)
          ≡ prefer
              (if b
                then (if as_string (extracted_name f) == k then some f.value else none)
                else none)
              (lookup k out)
    one false = refl
    one true = lookup-insert (as_string (extracted_name f)) k f.value out ∙ ground arith

extract_from_struct-IsMap :
    (fs : List TaggedField) (out : FieldMap) → IsMap out → IsMap (extract_from_struct fs out)
unfolding extract_from_struct
extract_from_struct-IsMap [] out h = h
extract_from_struct-IsMap (f ∷ fs) out h = elim (Bool-cases f.is_exported) [
  | inl e ↦
      simp e
        (extract_from_struct-IsMap fs _ (insert-IsMap (as_string (extracted_name f)) f.value out h))
  | inr e ↦ simp e (extract_from_struct-IsMap fs out h)
]

prefer-none : (a : Option Value) → prefer a none ≡ a
prefer-none none = refl
prefer-none (some v) = refl

module _ (sum256 : List ℕ → List ℕ) (patterns : List MaskingPattern) where
  abbrev masked : String → Option Value → Option Value
  masked k o = masked_option sum256 (new_pii_masker patterns) k o

  -- Under a name stands the last exported field that goes by it, masked.
  lookup-extracted_fields :
      (k : String) (fs : List TaggedField)
      → lookup k (extracted_fields sum256 patterns (struct fs)) ≡ masked k (last_named k fs)
  unfolding extracted_fields new_pii_masker lookup
  lookup-extracted_fields k fs =
      lookup-mask_fields sum256 (new_pii_masker patterns) k (extract_from_struct fs [])
        (extract_from_struct-IsMap fs [] tt)
      ∙ ap (masked k) (lookup-extract_from_struct k fs [] ∙ prefer-none (last_named k fs))

  masked-prefer :
      (k : String) (a b : Option Value) → masked k (prefer a b) ≡ prefer (masked k a) (masked k b)
  masked-prefer k none b = refl
  masked-prefer k (some v) b = refl

  module _ (f : TaggedField) (s t : List ℕ)
      (is_secret : (lower_key (as_string (extracted_name f)) ≡ codes "password")
        ⊎ (lower_key (as_string (extracted_name f)) ≡ codes "secret")
        ⊎ (lower_key (as_string (extracted_name f)) ≡ codes "private_key"))
      (same : length s ≡ length t) where
    named-hides :
        (k : String)
        → masked k (named_value k (record f { value = text s }))
          ≡ masked k (named_value k (record f { value = text t }))
    unfolding extracted_name
    named-hides k = by f.is_exported (name == k) (string_keys.same_key_iff name k).0
      where
        name : String
        name = as_string (extracted_name f)

        by :
            (x y : Bool)
            → (y ≡ true → name ≡ k)
            → masked k (if x then (if y then some (text s) else none) else none)
              ≡ masked k (if x then (if y then some (text t) else none) else none)
        by false y h = refl
        by true false h = refl
        by true true h = ap some (
            mask_value-hides sum256 patterns k s t
              (subst
                (λ n.
                  (lower_key n ≡ codes "password")
                  ⊎ (lower_key n ≡ codes "secret")
                  ⊎ (lower_key n ≡ codes "private_key"))
                (h refl) is_secret)
              same)

    last-hides :
        (k : String) (before after : List TaggedField)
        → masked k (last_named k (before ++ record f { value = text s } ∷ after))
          ≡ masked k (last_named k (before ++ record f { value = text t } ∷ after))
    last-hides k [] after =
        masked-prefer k (last_named k after) _
        ∙ ap (prefer (masked k (last_named k after))) (named-hides k)
        ∙ sym (masked-prefer k (last_named k after) _)
    last-hides k (b ∷ before) after =
        masked-prefer k (last_named k (before ++ record f { value = text s } ∷ after)) _
        ∙ ap (λ x. prefer x (masked k (named_value k b))) (last-hides k before after)
        ∙ sym (masked-prefer k (last_named k (before ++ record f { value = text t } ∷ after)) _)

    -- Two structs that differ only in the text of a field that goes by the name of a password, a
    -- secret or a private key in any case, with texts of one length, have the same fields for a line.
    pub extracted_fields-hides :
        (before after : List TaggedField) (k : String)
        → lookup k (
            extracted_fields sum256 patterns
              (struct (before ++ record f { value = text s } ∷ after)))
          ≡ lookup k (
              extracted_fields sum256 patterns
                (struct (before ++ record f { value = text t } ∷ after)))
    extracted_fields-hides before after k =
        lookup-extracted_fields k (before ++ record f { value = text s } ∷ after)
        ∙ last-hides k before after
        ∙ sym (lookup-extracted_fields k (before ++ record f { value = text t } ∷ after))
