-- ===== src/Boeng/Start/Accounts.antt =====
-- How often what an `Obs` has is stopped and shut down (boeng/boeng.go).
use obs_brutal.Prelude.{
  ℕ, ◌+◌, ◌≤◌, ◌≡◌, refl, sym, ap, ◌∙◌, inl, inr, Bool, true, false, ◌&&◌, Option, none, some, List,
  [], ◌∷◌, ◌++◌, arith, nat_eq, if◌then◌else◌, nat_eq_iff, Bool-cases, is_some, tally, tally-append,
  bytes_keys, string_keys, nat_keys, lookup, insert, lookup-insert,
}
use obs_brutal.Boeng.Start.{Obs, Registry, has_stop, close_open, close_found, close_obs, register}

abbrev pub times : ℕ → List ℕ → ℕ
times id ids = tally (nat_eq id) ids

-- How often the provider and the logger of an `Obs` have been ended.
abbrev pub shut_count : Option Obs → ℕ
shut_count none = 0
shut_count (some o) = if o.closed && is_some o.provider then 1 else 0

abbrev pub stop_count : Option Obs → ℕ
stop_count none = 0
stop_count (some o) = if o.closed && has_stop o.log then 1 else 0

pub record IsAccounted (r : Registry) : Type 0 where
  pub fresh : (id : ℕ) → r.next ≤ id → lookup id r.made ≡ none
  pub shut : (id : ℕ) → times id r.shut ≡ shut_count (lookup id r.made)
  pub stopped : (id : ℕ) → times id r.stopped ≡ stop_count (lookup id r.made)

times-snoc :
    (id j : ℕ) (ids : List ℕ)
    → times j (ids ++ id ∷ []) ≡ times j ids + (if nat_eq j id then 1 else 0)
times-snoc id j ids = omega (arith, tally-append (nat_eq j) ids (id ∷ []))

times_extended :
    (b : Bool) (id j : ℕ) (ids : List ℕ)
    → times j (if b then ids ++ id ∷ [] else ids)
      ≡ times j ids + (if b && nat_eq j id then 1 else 0)
times_extended true id j ids = times-snoc id j ids
times_extended false id j ids = omega arith

pub lookup-insert_same :
    (id j : ℕ) (o : Obs) (m : List (ℕ × Obs))
    → nat_eq j id ≡ true
    → lookup j (insert id o m) ≡ some o
lookup-insert_same id j o m h = ground (arith, lookup-insert id j o m)

pub lookup-insert_other :
    (id j : ℕ) (o : Obs) (m : List (ℕ × Obs))
    → nat_eq j id ≡ false
    → lookup j (insert id o m) ≡ lookup j m
lookup-insert_other id j o m h = ground (arith, lookup-insert id j o m)

-- A count that is kept by closing `id`: `b` is whether there is something to end.
count_extended :
    (count : Option Obs → ℕ) (b : Bool) (id j : ℕ) (o : Obs) (m : List (ℕ × Obs)) (ids : List ℕ)
    → lookup id m ≡ some o
    → count (some o) ≡ 0
    → count (some (record o { closed = true })) ≡ (if b then 1 else 0)
    → times j ids ≡ count (lookup j m)
    → times j (if b then ids ++ id ∷ [] else ids)
      ≡ count (lookup j (insert id (record o { closed = true }) m))
count_extended count b id j o m ids h before after kept = elim (Bool-cases (nat_eq j id)) [
  | inl same ↦
      let none_yet : times j ids ≡ 0 =
        kept ∙ ap count (ap (λ i. lookup i m) ((nat_eq_iff j id).0 same) ∙ h) ∙ before in
      times_extended b id j ids
      ∙ rw (same, none_yet) (ground arith)
      ∙ sym after
      ∙ sym (ap count (lookup-insert_same id j (record o { closed = true }) m same))
  | inr other ↦
      times_extended b id j ids
      ∙ rw other (ground arith)
      ∙ kept
      ∙ sym (ap count (lookup-insert_other id j (record o { closed = true }) m other))
]

close_open-IsAccounted :
    (id : ℕ) (o : Obs) (r : Registry)
    → lookup id r.made ≡ some o
    → o.closed ≡ false
    → IsAccounted r
    → IsAccounted (close_open id o r)
unfolding close_open
close_open-IsAccounted id o r h unclosed a = record {
  fresh = λ j late. grind (
    arith,
    lookup-insert id j (record o { closed = true }) r.made,
    a.fresh j late,
    nat_eq_iff id j,
  );
  shut = λ j.
      count_extended shut_count (is_some o.provider) id j o r.made r.shut h (ground arith) refl
        (a.shut j);
  stopped = λ j.
      count_extended stop_count (has_stop o.log) id j o r.made r.stopped h (ground arith) refl
        (a.stopped j);
}

pub close_obs-IsAccounted : (id : ℕ) (r : Registry) → IsAccounted r → IsAccounted (close_obs id r)
unfolding close_obs close_found
close_obs-IsAccounted id r a = found (lookup id r.made) refl
  where
    found : (known : Option Obs) → lookup id r.made ≡ known → IsAccounted (close_found id known r)
    found none h = a
    found (some o) h = elim (Bool-cases o.closed) [
      | inl closed ↦ simp closed a
      | inr unclosed ↦ simp unclosed (close_open-IsAccounted id o r h unclosed a)
    ]

-- A count is not changed by a new `Obs`.
count_registered :
    (count : Option Obs → ℕ) (id j : ℕ) (o : Obs) (m : List (ℕ × Obs)) (ids : List ℕ)
    → lookup id m ≡ none
    → count (some o) ≡ count none
    → times j ids ≡ count (lookup j m)
    → times j ids ≡ count (lookup j (insert id o m))
count_registered count id j o m ids new same_count kept = elim (Bool-cases (nat_eq j id)) [
  | inl same ↦
      kept
      ∙ ap count (ap (λ i. lookup i m) ((nat_eq_iff j id).0 same) ∙ new)
      ∙ sym same_count
      ∙ sym (ap count (lookup-insert_same id j o m same))
  | inr other ↦ kept ∙ sym (ap count (lookup-insert_other id j o m other))
]

pub register-IsAccounted :
    (o : Obs) (r : Registry) → o.closed ≡ false → IsAccounted r → IsAccounted (register o r)
unfolding register
register-IsAccounted o r unclosed a =
    let new = a.fresh r.next (omega arith) in
    record {
      fresh = λ j late.
          lookup-insert_other r.next j o r.made (ground (arith, late))
          ∙ a.fresh j (omega (arith, late));
      shut =
          λ j. count_registered shut_count r.next j o r.made r.shut new (ground arith) (a.shut j);
      stopped = λ j.
          count_registered stop_count r.next j o r.made r.stopped new (ground arith) (a.stopped j);
    }
