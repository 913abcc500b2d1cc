-- ===== src/Security/Masking/Fields.antt =====
-- The masker's tables and `MaskFields`.
use obs_brutal.Prelude.{
  ℕ, String, ◌≡◌, refl, ◌∙◌, inl, inr, Bool, true, false, ◌&&◌, Option, none, some, List, [], ◌∷◌,
  map, if◌then◌else◌, Bool-cases, nat_keys, string_keys, bytes_keys, lookup, insert, IsMap,
  range_into, ranged, lookup-range_into, codes, to_lower,
}
use obs_brutal.Domain.Value.{Value, text, structure, FieldMap}
use obs_brutal.Security.Masking.Text.{
  MaskingAction, mask_full, mask_hash, mask_remove, apply_masking_action,
}
use obs_brutal.Security.Masking.Structs.{mask_struct_fields}

-- A pattern, a global rule: what their regular expressions do.
pub record MaskingPattern : Type 0 where
  pub found_in : List ℕ → Bool
  pub replace_in : List ℕ → List ℕ

pub record GlobalMaskingRule : Type 0 where
  pub field_matches : String → Bool
  pub value_matches : List ℕ → Bool
  pub action : MaskingAction

pub record PiiMasker : Type 0 where
  pub patterns : List MaskingPattern
  pub field_rules : List (List ℕ × MaskingAction)
  pub global_rules : List GlobalMaskingRule
  pub enabled : Bool

-- The field rules of `addDefaultPatterns`.
unfoldable pub default_rules : List (List ℕ × MaskingAction)
default_rules = insert (codes "refresh_token") mask_hash (
    insert (codes "access_token") mask_hash (
      insert (codes "private_key") mask_remove
        (insert (codes "secret") mask_full (insert (codes "password") mask_full []))))

-- `NewPIIMasker`, with what the nine default expressions do.
unfoldable pub new_pii_masker : List MaskingPattern → PiiMasker
unfolding default_rules
new_pii_masker patterns = record {
  patterns = patterns;
  field_rules = default_rules;
  global_rules = [];
  enabled = true;
}

-- `maskStringPatterns`, in the order in which the map of patterns is ranged over.
unfoldable pub mask_string_patterns : List MaskingPattern → List ℕ → List ℕ
mask_string_patterns [] s = s
mask_string_patterns (p ∷ ps) s =
    mask_string_patterns ps (if p.found_in s then p.replace_in s else s)

-- `strings.ToLower(fieldName)`.
abbrev pub lower_key : String → List ℕ
lower_key k = map to_lower (codes k)

module _ (sum256 : List ℕ → List ℕ) (pm : PiiMasker) where
  -- The end of `maskValue`: no rule decides.
  mask_unruled : Value → Value
  unfolding mask_string_patterns
  mask_unruled (text s) = text (mask_string_patterns pm.patterns s)
  mask_unruled (structure ms) = mask_struct_fields sum256 (mask_string_patterns pm.patterns) ms
  mask_unruled v = v

  -- The first global rule that matches the field and its string decides.
  global_match : GlobalMaskingRule → String → Value → Bool
  global_match r k (text s) = r.field_matches k && r.value_matches s
  global_match r k v = false

  mask_by_globals : List GlobalMaskingRule → String → Value → Value
  unfolding mask_unruled global_match
  mask_by_globals [] k v = mask_unruled v
  mask_by_globals (r ∷ rs) k v =
      if global_match r k v then apply_masking_action sum256 r.action v else mask_by_globals rs k v

  unfoldable pub mask_by_rule : Option MaskingAction → String → Value → Value
  unfolding mask_by_globals
  mask_by_rule none k v = mask_by_globals pm.global_rules k v
  mask_by_rule (some a) k v = apply_masking_action sum256 a v

  -- `maskValue`.
  unfoldable pub mask_value : String → Value → Value
  unfolding mask_by_rule
  mask_value k v = mask_by_rule (lookup (lower_key k) pm.field_rules) k v

  -- `MaskFields`.
  unfoldable pub mask_fields : FieldMap → FieldMap
  mask_fields m = if pm.enabled then range_into (λ _ _. true) mask_value m [] else m

  abbrev pub masked_option : String → Option Value → Option Value
  masked_option k none = none
  masked_option k (some v) = some (mask_value k v)

  -- Masking keeps every key and makes up none: under each key of a map stands its masked value; a
  -- masker that is switched off changes nothing.
  pub lookup-mask_fields :
      (k : String) (m : FieldMap)
      → IsMap m
      → lookup k (mask_fields m) ≡ (if pm.enabled then masked_option k (lookup k m) else lookup k m)
  unfolding mask_fields lookup mask_value
  lookup-mask_fields k m h = elim (Bool-cases pm.enabled) [
    | inl on_ ↦
        rw on_ (lookup-range_into (λ _ _. true) mask_value k m [] h ∙ by_option (lookup k m))
    | inr off_ ↦ rw off_
  ]
    where
      by_option : (o : Option Value) → ranged (λ _ _. true) mask_value k o none ≡ masked_option k o
      by_option none = refl
      by_option (some v) = refl
