-- ===== src/Security/Masking/Structs.antt =====
-- How the masker takes a struct apart by its tags.
use obs_brutal.Prelude.{
  ℕ, ◌≡◌, refl, ap, ◌∙◌, not, List, [], ◌∷◌, map, arith, nat_eq, if◌then◌else◌, length, is_empty,
  drop, nat_keys, string_keys, bytes_eq, bytes_keys, codes, to_lower, has_prefix,
}
use obs_brutal.Domain.Value.{
  Value, text, table, Members, no_members, member, Rows, no_rows, row, FieldTag,
}
use obs_brutal.Security.Masking.Text.{
  mask_full, mask_encrypt, stars, mask_partially, apply_masking_action, apply_custom_mask,
}

-- `strings.Split(s, ",")`, first part and the others.
split_comma : List ℕ → List ℕ × List (List ℕ)
split_comma [] = ([], [])
split_comma (c ∷ s) =
    let (first, rest) = split_comma s in
    if nat_eq c b',' then ([], first ∷ rest) else (c ∷ first, rest)

insert_row : List ℕ → Value → Rows → Rows
insert_row k v no_rows = row k v no_rows
insert_row k v (row j w rs) = if bytes_eq j k then row k v rs else row j w (insert_row k v rs)

-- `strings.TrimPrefix(o, "mask=")` where the prefix is there.
abbrev mask_prefix : List ℕ
mask_prefix = codes "mask="

-- The masker's regular expressions act through `mask_patterns`, its `maskStringPatterns`.
module _ (sum256 : List ℕ → List ℕ) (mask_patterns : List ℕ → List ℕ) where
  -- `applyTagMasking`: the first option that is known decides.
  apply_tag_masking : List (List ℕ) → Value → Value
  apply_tag_masking [] v = v
  apply_tag_masking (o ∷ os) v =
      if bytes_eq o (codes "sensitive=true")
      then apply_masking_action sum256 mask_full v
      else if has_prefix o mask_prefix
      then apply_custom_mask (drop 5 o) v
      else if bytes_eq o (codes "hash=true")
      then apply_masking_action sum256 mask_encrypt v
      else if bytes_eq o (codes "encrypt=true")
      then apply_masking_action sum256 mask_encrypt v
      else apply_tag_masking os v

  pii_text : List ℕ → List ℕ → List ℕ
  pii_text tag s =
      if bytes_eq tag (codes "email")
      then mask_patterns s
      else if bytes_eq tag (codes "phone")
      then mask_patterns s
      else if bytes_eq tag (codes "password")
      then stars (length s)
      else mask_partially s

  -- `applyPIITag`.
  apply_pii_tag : List ℕ → Value → Value
  unfolding pii_text
  apply_pii_tag tag (text s) = text (pii_text (map to_lower tag) s)
  apply_pii_tag tag v = v

  -- The name under which a field is logged: the json tag's up to a comma, or the field's own.
  field_name : FieldTag → List ℕ
  unfolding split_comma
  field_name t = if is_empty t.json then t.name else (split_comma t.json).0

  -- The name that the log tag gives, or the field's.
  base_name : List ℕ → List ℕ → List ℕ
  base_name [] name = name
  base_name (c ∷ s) name = c ∷ s

  -- One round of the loop of `maskStructFields`.
  mask_member : FieldTag → Value → Rows → Rows
  unfolding insert_row apply_tag_masking apply_pii_tag field_name base_name split_comma
  mask_member t v out =
      if not (is_empty t.pii)
      then insert_row (field_name t) (apply_pii_tag t.pii v) out
      else if is_empty t.log
      then out
      else if bytes_eq t.log (codes "-")
      then out
      else (let (base, opts) = split_comma t.log in
          insert_row (base_name base (field_name t)) (apply_tag_masking opts v) out)

  mask_members : Members → Rows → Rows
  unfolding mask_member
  mask_members no_members out = out
  mask_members (member t v ms) out = mask_members ms (mask_member t v out)

  -- `maskStructFields`: only fields with a `pii` or a `log` tag are in the result.
  unfoldable pub mask_struct_fields : Members → Value
  unfolding mask_members
  mask_struct_fields ms = table (mask_members ms no_rows)

  -- No field has either tag.
  abbrev pub IsUntagged : Members → Type 0
  IsUntagged no_members = Unit
  IsUntagged (member t v ms) = (t.pii ≡ []) × (t.log ≡ []) × IsUntagged ms

  mask_members_untagged : (ms : Members) (out : Rows) → IsUntagged ms → mask_members ms out ≡ out
  unfolding mask_members
  mask_members_untagged no_members out h = refl
  mask_members_untagged (member t v ms) out (p, l, u) =
      ap (mask_members ms) untouched ∙ mask_members_untagged ms out u
    where
      untouched : mask_member t v out ≡ out
      untouched = ground (arith, ap is_empty p, ap is_empty l)

  -- A struct of which no field has a `pii` or a `log` tag is masked to an empty map.
  pub mask_struct_fields_untagged :
      (ms : Members) → IsUntagged ms → mask_struct_fields ms ≡ table no_rows
  unfolding mask_struct_fields
  mask_struct_fields_untagged ms h = ap table (mask_members_untagged ms no_rows h)
