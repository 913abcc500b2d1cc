-- ===== src/Domain/FieldMaps/Sharing.antt =====
-- Who holds which map of the pool (internal/core/domain/models.go).
use obs_brutal.Prelude.{
  ℕ, ◌+◌, ◌≤◌, ◌<◌, String, ◌≡◌, refl, ap, inl, inr, some, List, [], ◌∷◌, arith, ltb, nat_eq,
  if◌then◌else◌, ltb→lt, Bool-cases, length, length-snoc, tally, tally-append,
}
use obs_brutal.Domain.Value.{Value}
use obs_brutal.Domain.FieldMaps.{
  FieldMaps, field_map_capacity, no_field_maps, take_map, get_field_map, put_field_map, fill_map,
}

-- A caller takes a map, writes into one, or gives one back.
pub data MapCall : Type 0 where
  takes : MapCall
  fills : ℕ → String → Value → MapCall
  returns : ℕ → MapCall

-- The pool, and the maps that callers hold.
abbrev pub Held : Type 0
Held = FieldMaps × List ℕ

-- One occurrence less.
abbrev pub let_go : ℕ → List ℕ → List ℕ
let_go a [] = []
let_go a (b ∷ held) = if nat_eq a b then held else b ∷ let_go a held

unfoldable pub map_call : MapCall → Held → Held
unfolding get_field_map put_field_map fill_map
map_call takes (s, held) = let got = get_field_map s in (got.1, got.0 ∷ held)
map_call (fills a k v) (s, held) = (fill_map a k v s, held)
map_call (returns a) (s, held) = (put_field_map (some a) s, let_go a held)

unfoldable pub map_calls : List MapCall → Held → Held
unfolding map_call
map_calls [] h = h
map_calls (c ∷ cs) h = map_calls cs (map_call c h)

abbrev pub times : ℕ → List ℕ → ℕ
times a held = tally (nat_eq a) held

-- A map is written and given back by who holds it.
abbrev pub IsHolder : MapCall → List ℕ → Type 0
IsHolder takes held = Unit
IsHolder (fills a k v) held = 1 ≤ times a held
IsHolder (returns a) held = 1 ≤ times a held

abbrev pub IsDisciplined : List MapCall → Held → Type 0
IsDisciplined [] h = Unit
IsDisciplined (c ∷ cs) h = IsHolder c h.1 × IsDisciplined cs (map_call c h)

-- Each address is held or pooled at most once, and only after it was made; a pooled map is empty.
pub record IsApart (h : Held) : Type 0 where
  pub once : (a : ℕ) → times a h.1 + times a h.0.pool ≤ 1
  pub made : (a : ℕ) → 1 ≤ times a h.1 + times a h.0.pool → a < h.0.next
  pub cleared : (a : ℕ) → 1 ≤ times a h.0.pool → h.0.cells a ≡ []
  pub fits : length h.0.pool ≤ field_map_capacity

times-let_go :
    (a b : ℕ) (held : List ℕ)
    → 1 ≤ times a held
    → times b (let_go a held) + (if nat_eq b a then 1 else 0) ≡ times b held
times-let_go a b [] h = absurd (omega arith)
times-let_go a b (c ∷ held) h = ground (arith, times-let_go a b held)

takes-IsApart : (h : Held) → IsApart h → IsApart (map_call takes h)
unfolding map_call get_field_map take_map
takes-IsApart (s, held) i = by s.pool refl
  where
    by : (p : List ℕ) → s.pool ≡ p → IsApart (let got = take_map p s in (got.1, got.0 ∷ held))
    by [] e = record {
      once = λ b. ground (arith, i.once b, i.made b);
      made = λ b h. ground (arith, i.made b);
      cleared = λ b h. ground (arith, i.cleared b);
      fits = i.fits;
    }
    by (a ∷ p) e = record {
      once = λ b. ground (arith, i.once b, ap (times b) e);
      made = λ b h. ground (arith, i.made b, ap (times b) e);
      cleared = λ b h. ground (arith, i.cleared b, ap (times b) e);
      fits = omega (arith, i.fits, ap length e);
    }

-- A map that is taken is held by nobody else, and is empty.
takes-fresh :
    (s : FieldMaps) (held : List ℕ)
    → IsApart (s, held)
    → (times (get_field_map s).0 held ≡ 0) × ((get_field_map s).1.cells (get_field_map s).0 ≡ [])
unfolding get_field_map take_map
takes-fresh s held i = by s.pool refl
  where
    by :
        (p : List ℕ)
        → s.pool ≡ p
        → (times (take_map p s).0 held ≡ 0) × ((take_map p s).1.cells (take_map p s).0 ≡ [])
    by [] e = (ground (arith, i.made s.next), ground arith)
    by (a ∷ p) e =
        (ground (arith, i.once a, ap (times a) e), ground (arith, i.cleared a, ap (times a) e))

fills-IsApart :
    (a : ℕ) (k : String) (v : Value) (s : FieldMaps) (held : List ℕ)
    → 1 ≤ times a held
    → IsApart (s, held)
    → IsApart (map_call (fills a k v) (s, held))
unfolding map_call fill_map
fills-IsApart a k v s held h i = record {
  once = i.once;
  made = i.made;
  cleared = λ b p. ground (arith, i.cleared b, i.once b);
  fits = i.fits;
}

returns-IsApart :
    (a : ℕ) (s : FieldMaps) (held : List ℕ)
    → 1 ≤ times a held
    → IsApart (s, held)
    → IsApart (map_call (returns a) (s, held))
unfolding map_call put_field_map
returns-IsApart a s held h i = elim (Bool-cases (ltb (length s.pool) field_map_capacity)) [
  | inl room ↦ simp room (record {
    once = λ b.
        ground (arith, i.once b, times-let_go a b held h, tally-append (nat_eq b) s.pool (a ∷ []));
    made = λ b p.
        ground (arith, i.made b, times-let_go a b held h, tally-append (nat_eq b) s.pool (a ∷ []));
    cleared = λ b p. ground (arith, i.cleared b, tally-append (nat_eq b) s.pool (a ∷ []));
    fits = ground (arith, length-snoc s.pool a, ltb→lt _ _ room);
  })
  | inr full ↦ simp full (record {
    once = λ b. ground (arith, i.once b, times-let_go a b held h);
    made = λ b p. ground (arith, i.made b, times-let_go a b held h);
    cleared = λ b p. ground (arith, i.cleared b);
    fits = i.fits;
  })
]

map_call-IsApart : (c : MapCall) (h : Held) → IsHolder c h.1 → IsApart h → IsApart (map_call c h)
map_call-IsApart takes h d i = takes-IsApart h i
map_call-IsApart (fills a k v) (s, held) d i = fills-IsApart a k v s held d i
map_call-IsApart (returns a) (s, held) d i = returns-IsApart a s held d i

map_calls-IsApart :
    (cs : List MapCall) (h : Held) → IsDisciplined cs h → IsApart h → IsApart (map_calls cs h)
unfolding map_calls
map_calls-IsApart [] h d i = i
map_calls-IsApart (c ∷ cs) h d i =
    map_calls-IsApart cs (map_call c h) d.1 (map_call-IsApart c h d.0 i)

no_field_maps-IsApart : IsApart (no_field_maps, [])
no_field_maps-IsApart = record {
  once = λ a. omega arith;
  made = λ a h. omega arith;
  cleared = λ a h. refl;
  fits = omega arith;
}

-- As long as a map is written and given back only by who holds it, `GetFieldMap` hands out an empty
-- map that nobody else holds, after any calls on the empty pool, and the pool keeps at most 100.
pub get_field_map-map_calls :
    (cs : List MapCall)
    → IsDisciplined cs (no_field_maps, [])
    → let (s, held) = map_calls cs (no_field_maps, []) in
      (times (get_field_map s).0 held ≡ 0)
      × ((get_field_map s).1.cells (get_field_map s).0 ≡ [])
      × (length s.pool ≤ field_map_capacity)
get_field_map-map_calls cs d =
    let i = map_calls-IsApart cs (no_field_maps, []) d no_field_maps-IsApart in
    let fresh = takes-fresh _ _ i in (fresh.0, fresh.1, i.fits)
