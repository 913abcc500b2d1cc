-- ===== src/Domain/Value.antt =====
-- Go's `interface{}` as far as the library looks into it: the dynamic types that a type switch, an
-- assertion or reflection of the source asks for.
use obs_brutal.Prelude.{
  ℕ, String, Bool, Option, none, some, List, nat_keys, string_keys, bytes_keys,
}

-- What reflection shows of one field of a struct: its name, its tags and whether it is exported.
pub record FieldTag : Type 0 where
  pub name : List ℕ
  pub pii : List ℕ
  pub log : List ℕ
  pub json : List ℕ

-- `structure` is a struct or a pointer to one, `table` a `map[string]interface{}`, `context` a
-- `context.Context` known by its identity, and `opaque` a value of any other dynamic type.
mutual
  pub data Value : Type 0 where
    null : Value
    text : List ℕ → Value
    number : ℕ → Value
    boolean : Bool → Value
    context : ℕ → Value
    opaque : ℕ → Value
    structure : Members → Value
    table : Rows → Value

  pub data Members : Type 0 where
    no_members : Members
    member : FieldTag → Value → Members → Members

  pub data Rows : Type 0 where
    no_rows : Rows
    row : List ℕ → Value → Rows → Rows

-- The assertion `v.(string)`.
abbrev pub as_text : Value → Option (List ℕ)
as_text (text s) = some s
as_text _ = none

abbrev pub FieldMap : Type 0
FieldMap = List (String × Value)
