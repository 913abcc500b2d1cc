-- ===== src/Prelude/Maps.antt =====
-- Go's maps as association lists: the order of the list is the order of a `range` over the map,
-- which Go leaves open, so a theorem for every list is one for every order.
use Prim.Native.Nat.{suc, ◌≤◌}
use mathlib.Core.Path.{◌≡◌, refl, sym, ap, subst, ◌∙◌}
use mathlib.Core.Bool.{Bool, true}
use mathlib.Core.List.{List, [], ◌∷◌, ◌++◌}
use mathlib.Core.Option.{Option, none, some}
use native.Mathlib.Omega.{arith}
use obs_brutal.Prelude.Tests.{if◌then◌else◌, is_some, Bool-cases}
use mathlib.Core.Logic.{inl, inr}
use obs_brutal.Prelude.Lists.{length, All}
use obs_brutal.Prelude.Keys.{Key, ◌==◌, eq_refl}

-- The first value, if there is one.
abbrev pub prefer {κ} : {V : Type κ} → Option V → Option V → Option V
prefer none old = old
prefer (some v) old = some v

module _ {ℓ κ} {K : Type ℓ} {V : Type κ} ⦃key : Key K⦄ where
  -- `m[k]` with its `ok`.
  unfoldable pub lookup : K → List (K × V) → Option V
  lookup k [] = none
  lookup k ((first, v) ∷ rest) = if first == k then some v else lookup k rest

  -- `delete(m, k)`.
  unfoldable pub erase : K → List (K × V) → List (K × V)
  erase k [] = []
  erase k ((first, v) ∷ rest) = if first == k then erase k rest else (first, v) ∷ erase k rest

  -- `m[k] = v`.
  unfoldable pub insert : K → V → List (K × V) → List (K × V)
  insert k v [] = (k, v) ∷ []
  insert k v ((first, old) ∷ rest) =
      if first == k then (k, v) ∷ rest else (first, old) ∷ insert k v rest

  -- `for k, v := range src { dst[k] = v }`.
  unfoldable pub insert_all : List (K × V) → List (K × V) → List (K × V)
  insert_all [] dst = dst
  insert_all ((k, v) ∷ src) dst = insert_all src (insert k v dst)

  -- Each key stands once, as in every map.
  abbrev pub IsMap : List (K × V) → Type κ
  IsMap [] = Unit
  IsMap ((k, v) ∷ m) = (lookup k m ≡ none) × IsMap m

  pub lookup-insert :
      (k j : K) (v : V) (m : List (K × V))
      → lookup j (insert k v m) ≡ (if k == j then some v else lookup j m)
  unfolding insert lookup
  lookup-insert k j new [] = refl
  lookup-insert k j new ((first, old) ∷ rest) =
      let behind = lookup-insert k j new rest in
      ground
        (arith, behind, key.same_key_iff first j, key.same_key_iff first k, key.same_key_iff k j)

  pub lookup-append :
      (k : K) (xs ys : List (K × V)) → lookup k (xs ++ ys) ≡ prefer (lookup k xs) (lookup k ys)
  unfolding lookup
  lookup-append k [] ys = refl
  lookup-append k ((j, v) ∷ xs) ys = ground (arith, lookup-append k xs ys)

  -- Two maps without a common key are one map behind each other.
  pub append-IsMap :
      (xs ys : List (K × V))
      → IsMap xs
      → IsMap ys
      → ((k : K) → is_some (lookup k xs) ≡ true → lookup k ys ≡ none)
      → IsMap (xs ++ ys)
  unfolding lookup
  append-IsMap [] ys h h' apart = h'
  append-IsMap ((k, v) ∷ xs) ys h h' apart = (
    ground (arith, lookup-append k xs ys, h.0, apart k, eq_refl k),
    append-IsMap xs ys h.1 h' (λ j e. ground (arith, apart j, e)),
  )

  pub lookup-erase :
      (k j : K) (m : List (K × V)) → lookup j (erase k m) ≡ (if k == j then none else lookup j m)
  unfolding lookup erase
  lookup-erase k j [] = ground arith
  lookup-erase k j ((i, w) ∷ m) =
      ground (
        arith,
        key.same_key_iff k j,
        key.same_key_iff i k,
        key.same_key_iff i j,
        lookup-erase k j m,
      )

  pub length-insert-le : (k : K) (v : V) (m : List (K × V)) → length (insert k v m) ≤ suc (length m)
  unfolding insert
  length-insert-le k v [] = omega arith
  length-insert-le k v ((j, w) ∷ m) = ground (arith, length-insert-le k v m)

  -- A key that is there is overwritten in place.
  pub length-insert_present :
      (k : K) (v : V) (m : List (K × V))
      → is_some (lookup k m) ≡ true
      → length (insert k v m) ≡ length m
  unfolding insert lookup
  length-insert_present k v [] h = ground arith
  length-insert_present k v ((j, w) ∷ m) h = ground (arith, length-insert_present k v m)

  pub length-insert_absent :
      (k : K) (v : V) (m : List (K × V))
      → lookup k m ≡ none
      → length (insert k v m) ≡ suc (length m)
  unfolding insert lookup
  length-insert_absent k v [] h = refl
  length-insert_absent k v ((j, w) ∷ m) h = ground (arith, length-insert_absent k v m)

  pub lookup-insert_all :
      (j : K) (src dst : List (K × V))
      → IsMap src
      → lookup j (insert_all src dst) ≡ prefer (lookup j src) (lookup j dst)
  unfolding insert_all lookup
  lookup-insert_all j [] dst h = refl
  lookup-insert_all j ((k, v) ∷ src) dst h = ground (
    arith,
    key.same_key_iff k j,
    lookup-insert_all j src (insert k v dst) h.1,
    lookup-insert k j v dst,
    h.0,
  )

  pub insert-IsMap : (k : K) (v : V) (m : List (K × V)) → IsMap m → IsMap (insert k v m)
  unfolding insert lookup
  insert-IsMap k v [] h = (refl, tt)
  insert-IsMap k v ((j, w) ∷ m) h = elim (Bool-cases (j == k)) [
    | inl e ↦ rw e (ap (λ i. lookup i m) (sym ((key.same_key_iff j k).0 e)) ∙ h.0, h.1)
    | inr e ↦ rw e (
      ground (arith, lookup-insert k j v m, key.same_key_iff j k, key.same_key_iff k j, h.0),
      insert-IsMap k v m h.1,
    )
  ]

  pub insert_all-IsMap : (src dst : List (K × V)) → IsMap dst → IsMap (insert_all src dst)
  unfolding insert_all
  insert_all-IsMap [] dst h = h
  insert_all-IsMap ((k, v) ∷ src) dst h =
      insert_all-IsMap src (insert k v dst) (insert-IsMap k v dst h)

  pub erase_absent : (k : K) (m : List (K × V)) → lookup k m ≡ none → erase k m ≡ m
  unfolding erase lookup
  erase_absent k [] h = refl
  erase_absent k ((j, w) ∷ m) h = ground (arith, erase_absent k m)

  -- What is erased is one entry, since a key stands once.
  pub length-erase_present :
      (k : K) (m : List (K × V))
      → IsMap m
      → is_some (lookup k m) ≡ true
      → suc (length (erase k m)) ≡ length m
  unfolding erase lookup
  length-erase_present k [] h s = cc
  length-erase_present k ((j, w) ∷ m) h s = elim (Bool-cases (j == k)) [
    | inl e ↦ rw e (
        ap (λ l. suc (length l))
          (erase_absent k m (ap (λ i. lookup i m) (sym ((key.same_key_iff j k).0 e)) ∙ h.0)))
    | inr e ↦ rw e (ap suc (length-erase_present k m h.1 (rw e at s)))
  ]

  pub erase-IsMap : (k : K) (m : List (K × V)) → IsMap m → IsMap (erase k m)
  unfolding erase
  erase-IsMap k [] h = tt
  erase-IsMap k ((j, w) ∷ m) h = elim (Bool-cases (j == k)) [
    | inl e ↦ rw e (erase-IsMap k m h.1)
    | inr e ↦ rw e (ground (arith, lookup-erase k j m, h.0), erase-IsMap k m h.1)
  ]

  pub erase-All {ι} : (P : K × V → Type ι) (k : K) (m : List (K × V)) → All P m → All P (erase k m)
  unfolding erase
  erase-All P k [] h = h
  erase-All P k ((j, w) ∷ m) h = elim (Bool-cases (j == k)) [
    | inl e ↦ rw e (erase-All P k m h.1)
    | inr e ↦ rw e (h.0, erase-All P k m h.1)
  ]

  pub lookup-All {ι} :
      (P : V → Type ι) (k : K) (m : List (K × V)) (v : V)
      → All (λ e. P e.1) m
      → lookup k m ≡ some v
      → P v
  unfolding lookup
  lookup-All P k [] v h e = absurd (cc)
  lookup-All P k ((j, w) ∷ m) v h e = elim (Bool-cases (j == k)) [
    | inl same ↦ subst P (ground (arith, same)) h.0
    | inr other ↦ lookup-All P k m v h.1 (rw other at e)
  ]

  pub insert-All {ι} :
      (P : K × V → Type ι) (k : K) (v : V) (m : List (K × V))
      → P (k, v)
      → All P m
      → All P (insert k v m)
  unfolding insert
  insert-All P k v [] new h = (new, tt)
  insert-All P k v ((j, w) ∷ m) new h = elim (Bool-cases (j == k)) [
    | inl e ↦ rw e (new, h.1)
    | inr e ↦ rw e (h.0, insert-All P k v m new h.1)
  ]

-- `for k, v := range m { if p(k, v) { out[k] = g(k, v) } }`.
module _ {ℓ κ ι} {K : Type ℓ} {V : Type κ} {W : Type ι} ⦃key : Key K⦄ (p : K → V → Bool)
    (g : K → V → W) where
  unfoldable pub range_into : List (K × V) → List (K × W) → List (K × W)
  range_into [] out = out
  range_into ((k, v) ∷ m) out = range_into m (if p k v then insert k (g k v) out else out)

  -- What the loop leaves under a key.
  abbrev pub ranged : K → Option V → Option W → Option W
  ranged k none old = old
  ranged k (some v) old = if p k v then some (g k v) else old

  pub lookup-range_into :
      (j : K) (m : List (K × V)) (out : List (K × W))
      → IsMap m
      → lookup j (range_into m out) ≡ ranged j (lookup j m) (lookup j out)
  unfolding range_into lookup
  lookup-range_into j [] out h = refl
  lookup-range_into j ((k, v) ∷ m) out h = ground (
    arith,
    key.same_key_iff k j,
    lookup-range_into j m (if p k v then insert k (g k v) out else out) h.1,
    lookup-insert k j (g k v) out,
    h.0,
  )

  pub range_into-IsMap :
      (m : List (K × V)) (out : List (K × W)) → IsMap out → IsMap (range_into m out)
  unfolding range_into
  range_into-IsMap [] out h = h
  range_into-IsMap ((k, v) ∷ m) out h = elim (Bool-cases (p k v)) [
    | inl kept ↦ rw kept (range_into-IsMap m (insert k (g k v) out) (insert-IsMap k (g k v) out h))
    | inr left ↦ rw left (range_into-IsMap m out h)
  ]
