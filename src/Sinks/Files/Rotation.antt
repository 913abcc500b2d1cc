-- ===== src/Sinks/Files/Rotation.antt =====
-- What a rotation does to the files (internal/adapter/outbound/sink/file/optimal.go).
use obs_brutal.Prelude.{
  ℕ, zero, suc, ◌-◌, ◌≤◌, ◌<◌, ◌≡◌, refl, sym, ap, ◌∙◌, ◌≢◌, inl, inr, Bool, true, Option, none,
  some, List, arith, nat_eq, nat_eq_iff, Bool-cases,
}
use obs_brutal.Sinks.Files.{Files, put, rename, rename_found, shift_backups, rotate_files}

-- Every file can be renamed.
abbrev pub always : ℕ → Bool
always i = true

module _ {E : Type 0} where
  -- Of the first `k` backups none is there without the one before it.
  abbrev pub IsGapless : ℕ → Files E → Type 0
  IsGapless k fs = (i : ℕ) → i < k → fs (suc i) ≡ none → fs (suc (suc i)) ≡ none

  pub put-same : (i : ℕ) (c : Option (List E)) (fs : Files E) → put i c fs i ≡ c
  unfolding put
  put-same i c fs = ground arith

  pub put-other : (i j : ℕ) (c : Option (List E)) (fs : Files E) → j ≢ i → put i c fs j ≡ fs j
  unfolding put
  put-other i j c fs h = ground (arith, h)

  pub rename-from : (from to : ℕ) (fs : Files E) → from ≢ to → rename true from to fs from ≡ none
  unfolding rename rename_found
  rename-from from to fs apart = found (fs from) refl
    where
      found : (c : Option (List E)) → fs from ≡ c → rename_found c from to fs from ≡ none
      found none e = e
      found (some c) e = put-other to from (some c) (put from none fs) apart ∙ put-same from none fs

  pub rename-to :
      (from to : ℕ) (fs : Files E)
      → (fs from ≡ none → fs to ≡ none)
      → rename true from to fs to ≡ fs from
  unfolding rename rename_found
  rename-to from to fs gapless = found (fs from) refl
    where
      found : (c : Option (List E)) → fs from ≡ c → rename_found c from to fs to ≡ c
      found none e = gapless e
      found (some c) e = put-same to (some c) (put from none fs)

  pub rename-other :
      (from to j : ℕ) (fs : Files E) → j ≢ from → j ≢ to → rename true from to fs j ≡ fs j
  unfolding rename rename_found
  rename-other from to j fs a b = found (fs from)
    where
      found : (c : Option (List E)) → rename_found c from to fs j ≡ fs j
      found none = refl
      found (some c) = put-other to j (some c) (put from none fs) b ∙ put-other from j none fs a

  -- What the loop from `k` on makes of the files.
  pub record IsShifted (k : ℕ) (fs gs : Files E) : Type 0 where
    pub live : gs 0 ≡ fs 0
    pub same : k ≡ 0 → gs 1 ≡ fs 1
    pub freed : 1 ≤ k → gs 1 ≡ none
    pub moved : (i : ℕ) → i < k → gs (suc (suc i)) ≡ fs (suc i)
    pub kept : (i : ℕ) → k < i → gs (suc i) ≡ fs (suc i)

  rename-IsGapless :
      (k : ℕ) (fs : Files E)
      → IsGapless (suc k) fs
      → IsGapless k (rename true (suc k) (suc (suc k)) fs)
  rename-IsGapless k fs h i low none_here =
      let before =
        rename-other (suc k) (suc (suc k)) (suc i) fs (λ e. omega (arith, e))
          (λ e. omega (arith, e)) in
      elim (Bool-cases (nat_eq (suc i) k)) [
        | inl top ↦
            ap (λ n. rename true (suc k) (suc (suc k)) fs (suc n)) ((nat_eq_iff (suc i) k).0 top)
            ∙ rename-from (suc k) (suc (suc k)) fs (λ e. omega (arith, e))
        | inr under ↦
            rename-other (suc k) (suc (suc k)) (suc (suc i)) fs (λ e. ground (arith, under, e))
              (λ e. omega (arith, e, low))
            ∙ h i (omega arith) (sym before ∙ none_here)
      ]

  pub shift_backups-IsShifted :
      (k : ℕ) (fs : Files E) → IsGapless k fs → IsShifted k fs (shift_backups always k fs)
  unfolding shift_backups
  shift_backups-IsShifted zero fs h = record {
    live = refl;
    same = λ e. refl;
    freed = λ e. absurd (omega (arith, e));
    moved = λ i e. absurd (omega (arith, e));
    kept = λ i e. refl;
  }
  shift_backups-IsShifted (suc k) fs h =
      let top = rename true (suc k) (suc (suc k)) fs in
      let below = shift_backups-IsShifted k top (rename-IsGapless k fs h) in
      record {
        live =
            below.live
            ∙ rename-other (suc k) (suc (suc k)) 0 fs (λ e. omega (arith, e))
                (λ e. omega (arith, e));
        same = λ e. absurd (omega (arith, e));
        freed = λ e. elim (Bool-cases (nat_eq k 0)) [
          | inl none_below ↦
              let z = (nat_eq_iff k 0).0 none_below in
              below.same z
              ∙ ap (λ n. top (suc n)) (sym z)
              ∙ rename-from (suc k) (suc (suc k)) fs (λ q. omega (arith, q))
          | inr some_below ↦ below.freed (ground (arith, some_below))
        ];
        moved = λ i e. elim (Bool-cases (nat_eq i k)) [
          | inl last ↦
              let z = (nat_eq_iff i k).0 last in
              ap (λ n. shift_backups always k top (suc (suc n))) z
              ∙ below.kept (suc k) (omega arith)
              ∙ rename-to (suc k) (suc (suc k)) fs (h k (omega arith))
              ∙ ap (λ n. fs (suc n)) (sym z)
          | inr under ↦
              below.moved i (ground (arith, under, e))
              ∙ rename-other (suc k) (suc (suc k)) (suc i) fs (λ q. ground (arith, under, q))
                  (λ q. omega (arith, q, e))
        ];
        kept = λ i e.
            below.kept i (omega (arith, e))
            ∙ rename-other (suc k) (suc (suc k)) (suc i) fs (λ q. omega (arith, q, e))
                (λ q. omega (arith, q, e));
      }

  -- What the loop does depends on the files that it renames only.
  shift_backups-always :
      (renames : ℕ → Bool) (k : ℕ) (fs : Files E)
      → ((i : ℕ) → renames i ≡ true)
      → shift_backups renames k fs ≡ shift_backups always k fs
  unfolding shift_backups
  shift_backups-always renames zero fs h = refl
  shift_backups-always renames (suc k) fs h =
      shift_backups-always renames k (rename (renames (suc k)) (suc k) (suc (suc k)) fs) h
      ∙ ap (λ b. shift_backups always k (rename b (suc k) (suc (suc k)) fs)) (h (suc k))

  pub rotate_files-always :
      (renames : ℕ → Bool) (n : ℕ) (fs : Files E)
      → ((i : ℕ) → renames i ≡ true)
      → rotate_files renames n fs ≡ rotate_files always n fs
  unfolding rotate_files
  rotate_files-always renames n fs h =
      ap (λ b. rename b 0 1 (shift_backups renames (n - 1) fs)) (h 0)
      ∙ ap (rename true 0 1) (shift_backups-always renames (n - 1) fs h)
