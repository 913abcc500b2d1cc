-- ===== src/Boeng/Rabbit/Carrier.antt =====
-- What a consumer reads of the trace context that a publisher put into the headers
-- (boeng/rabbit/rabbit.go).
use obs_brutal.Prelude.{
  ℕ, String, ◌≡◌, refl, sym, ap, ◌∙◌, inl, inr, Option, none, some, List, [], ◌∷◌, if◌then◌else◌,
  Bool-cases, is_some, bytes_keys, string_keys, nat_keys, ◌==◌, lookup, IsMap, lookup-insert,
}
use obs_brutal.Domain.Value.{FieldMap}
use obs_brutal.Boeng.Rabbit.{carrier_get, carrier_set, inject}

-- The pairs of a context under the keys that are asked for, with nothing for a key that has none.
abbrev pub value_or_empty : Option (List ℕ) → List ℕ
value_or_empty none = []
value_or_empty (some v) = v

carrier_get-carrier_set :
    (j k : String) (v : List ℕ) (c : FieldMap)
    → carrier_get j (carrier_set k v c) ≡ (if k == j then v else carrier_get j c)
unfolding carrier_get carrier_set
carrier_get-carrier_set j k v c = elim (Bool-cases (k == j)) [
  | inl e ↦ simp (lookup-insert, e)
  | inr e ↦ simp (lookup-insert, e)
]

-- A consumer reads from the headers each pair of the context that the publisher injected, whatever a
-- header of that name was before, and every other header as it was.
carrier_get-inject :
    (j : String) (pairs : List (String × List ℕ)) (c : FieldMap)
    → IsMap pairs
    → carrier_get j (inject pairs c)
      ≡ (if is_some (lookup j pairs) then value_or_empty (lookup j pairs) else carrier_get j c)
unfolding inject lookup
carrier_get-inject j [] c h = refl
carrier_get-inject j ((k, v) ∷ pairs) c h =
    carrier_get-inject j pairs (carrier_set k v c) h.1 ∙ (elim (Bool-cases (k == j)) [
      | inl e ↦
          let none_later : lookup j pairs ≡ none =
            ap (λ i. lookup i pairs) (sym ((string_keys.same_key_iff k j).0 e)) ∙ h.0 in
          simp (none_later, carrier_get-carrier_set, e)
      | inr e ↦ simp (carrier_get-carrier_set, e)
    ])
