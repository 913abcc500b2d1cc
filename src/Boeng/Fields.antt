-- ===== src/Boeng/Fields.antt =====
-- The fields of a subject (boeng/fields.go): what its type says, or what reflection shows, with
-- sensitive values masked.
pub mod Secrecy
use obs_brutal.Prelude.{
  ℕ, ◌-◌, Bool, false, not, ◌&&◌, ◌||◌, Option, none, some, List, [], ◌∷◌, ◌++◌, map, leb, nat_eq,
  if◌then◌else◌, length, is_empty, take, drop, replicate, any, bytes_eq, bytes_keys, string_keys,
  nat_keys, insert, codes, as_string, is_upper, is_lower, is_digit, to_lower, contains,
}
use obs_brutal.Domain.Value.{Value, FieldMap, text}

-- `camelToSnake` on ASCII identifiers: whether an underscore goes before the character `c`, that
-- has `prev` before it and `next` after it.
is_boundary : Option ℕ → ℕ → List ℕ → Bool
is_boundary none c next = false
is_boundary (some prev) c [] = is_upper c && (is_lower prev || is_digit prev)
is_boundary (some prev) c (n ∷ next) =
    is_upper c && (is_lower prev || is_digit prev || (is_upper prev && is_lower n))

snake_from : Option ℕ → List ℕ → List ℕ
unfolding is_boundary
snake_from prev [] = []
snake_from prev (c ∷ s) =
    let rest = to_lower c ∷ snake_from (some c) s in
    if is_boundary prev c s then b'_' ∷ rest else rest

unfoldable pub camel_to_snake : List ℕ → List ℕ
unfolding snake_from
camel_to_snake s = snake_from none s

abbrev pub asterisks : ℕ → List ℕ
asterisks n = replicate n b'*'

-- `maskString`.
unfoldable pub mask_string : List ℕ → List ℕ
mask_string s =
    if leb (length s) 2
    then asterisks (length s)
    else take 1 s ++ asterisks (length s - 2) ++ drop (length s - 1) s

-- `strings.LastIndex(s, "@")`: what is before the last one and what is after it.
unfoldable pub extend_local : ℕ → List ℕ → Option (List ℕ × List ℕ) → Option (List ℕ × List ℕ)
extend_local c s none = if nat_eq c b'@' then some ([], s) else none
extend_local c s (some (l, d)) = some (c ∷ l, d)

unfoldable pub split_last_at : List ℕ → Option (List ℕ × List ℕ)
unfolding extend_local
split_last_at [] = none
split_last_at (c ∷ s) = extend_local c s (split_last_at s)

unfoldable pub mask_local : List ℕ → List ℕ
mask_local s =
    if leb (length s) 1
    then asterisks 1
    else if leb (length s) 2
    then take 1 s ++ asterisks 1
    else take 1 s ++ asterisks (length s - 2) ++ drop (length s - 1) s

unfoldable pub mask_split : List ℕ → Option (List ℕ × List ℕ) → List ℕ
unfolding mask_local
mask_split s none = asterisks (length s)
mask_split s (some (l, d)) =
    if is_empty l || is_empty d then asterisks (length s) else mask_local l ++ b'@' ∷ d

-- `MaskEmail`, on the code points of a text.
unfoldable pub mask_email : List ℕ → List ℕ
unfolding mask_split split_last_at
mask_email s = mask_split s (split_last_at s)

abbrev pub sensitive_words : List (List ℕ)
sensitive_words =
    codes "password"
    ∷ codes "passwd"
    ∷ codes "secret"
    ∷ codes "token"
    ∷ codes "apikey"
    ∷ codes "api_key"
    ∷ codes "authorization"
    ∷ codes "auth"
    ∷ codes "email"
    ∷ codes "phone"
    ∷ codes "ssn"
    ∷ codes "credit_card"
    ∷ codes "card_number"
    ∷ []

unfoldable pub is_sensitive_key : List ℕ → Bool
is_sensitive_key k = any (contains (map to_lower k)) sensitive_words

mask_sensitive : List ℕ → Value → Value
mask_sensitive k (text s) =
    text (if contains k (codes "email") then mask_email s else mask_string s)
mask_sensitive k v = text (codes "***")

unfoldable pub maybe_mask : List ℕ → Value → Value
unfolding is_sensitive_key mask_sensitive
maybe_mask k v = if is_sensitive_key k then mask_sensitive k v else v

-- What reflection shows of one field of a struct.
pub record StructField : Type 0 where
  pub name : List ℕ
  pub json : List ℕ
  pub is_exported : Bool
  pub is_zero : Bool
  pub value : Value

-- The tag up to its first comma.
before_comma : List ℕ → List ℕ
before_comma [] = []
before_comma (c ∷ s) = let rest = before_comma s in if nat_eq c b',' then [] else c ∷ rest

-- `fieldName`.
unfoldable pub tag_or_snake : StructField → List ℕ
unfolding before_comma camel_to_snake
tag_or_snake f =
    let tag = before_comma f.json in
    if bytes_eq f.json (codes "-") || is_empty tag then camel_to_snake f.name else tag

-- One round of the loop over the fields.
take_field : Bool → StructField → FieldMap → FieldMap
unfolding tag_or_snake maybe_mask
take_field include_zero f out =
    if not f.is_exported || (not include_zero && f.is_zero)
    then out
    else insert (as_string (tag_or_snake f)) (maybe_mask (tag_or_snake f) f.value) out

take_fields : Bool → List StructField → FieldMap → FieldMap
unfolding take_field
take_fields include_zero [] out = out
take_fields include_zero (f ∷ fs) out = take_fields include_zero fs (take_field include_zero f out)

-- A subject by what its dynamic type lets boeng see: nil, a `Loggable` with the map that it returns,
-- a map that may be nil, a struct or a pointer to one, a nil pointer, or anything else.
pub data Subject : Type 0 where
  nothing : Subject
  loggable : Option FieldMap → Subject
  fields : Option FieldMap → Subject
  structure : List StructField → Subject
  nil_pointer : Subject
  other : Subject

unfoldable pub extract_fields : Bool → Subject → FieldMap
unfolding take_fields
extract_fields include_zero nothing = []
extract_fields include_zero (loggable none) = []
extract_fields include_zero (loggable (some m)) = m
extract_fields include_zero (fields none) = []
extract_fields include_zero (fields (some m)) = m
extract_fields include_zero (structure fs) = take_fields include_zero fs []
extract_fields include_zero nil_pointer = []
extract_fields include_zero other = []
