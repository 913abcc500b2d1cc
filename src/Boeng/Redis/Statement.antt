-- ===== src/Boeng/Redis/Statement.antt =====
-- What of a command's arguments the statement of boeng/redis/redis.go shows.
use obs_brutal.Prelude.{
  ℕ, ◌≤◌, ◌<◌, ◌≡◌, refl, sym, ap, ◌∙◌, subst, ◌⊎◌, inl, inr, List, [], ◌∷◌, ◌++◌, append_assoc,
  append-nil, arith, ltb, ltb→lt, Bool-cases, length, codes,
}
use obs_brutal.Boeng.Redis.{Argument, argument_text, ellipsis, arguments_from, args_as_string}

-- The arguments with a space between two of them.
abbrev pub spaced : List Argument → List ℕ
spaced [] = []
spaced (a ∷ args) = codes " " ++ (argument_text a ++ spaced args)

abbrev pub joined : List Argument → List ℕ
joined [] = []
joined (a ∷ args) = argument_text a ++ spaced args

-- Which arguments a statement shows: all of them in at most 256 bytes, or those up to the first one
-- that passes this bound, whole, and the ellipsis.
pub record IsComplete (args : List Argument) (s : List ℕ) : Type 0 where
  pub all_shown : s ≡ joined args
  pub short : length s ≤ 256

pub record IsCut (args : List Argument) (s : List ℕ) : Type 0 where
  pub before : List Argument
  pub last : Argument
  pub after : List Argument
  pub parts : args ≡ before ++ last ∷ after
  pub shown : s ≡ joined (before ++ last ∷ []) ++ ellipsis
  pub fits_before : length (joined before) ≤ 256
  pub too_long : 256 < length (joined (before ++ last ∷ []))

abbrev pub IsStatement : List Argument → List ℕ → Type 0
IsStatement args s = IsComplete args s ⊎ IsCut args s

-- The same behind what is written already.
record CutBehind (b : List ℕ) (args : List Argument) (s : List ℕ) : Type 0 where
  before : List Argument
  last : Argument
  after : List Argument
  parts : args ≡ before ++ last ∷ after
  shown : s ≡ (b ++ spaced (before ++ last ∷ [])) ++ ellipsis
  fits_before : length (b ++ spaced before) ≤ 256
  too_long : 256 < length (b ++ spaced (before ++ last ∷ []))

abbrev FilledBehind : List ℕ → List Argument → List ℕ → Type 0
FilledBehind b args s = ((s ≡ b ++ spaced args) × (length s ≤ 256)) ⊎ CutBehind b args s

spaced_step :
    (b : List ℕ) (a : Argument) (args : List Argument)
    → (b ++ (codes " " ++ argument_text a)) ++ spaced args ≡ b ++ spaced (a ∷ args)
spaced_step b a args = simp append_assoc

cut_now :
    (b : List ℕ) (a : Argument) (args : List Argument)
    → length b ≤ 256
    → 256 < length (b ++ (codes " " ++ argument_text a))
    → CutBehind b (a ∷ args) ((b ++ (codes " " ++ argument_text a)) ++ ellipsis)
cut_now b a args fits long =
    let same : b ++ (codes " " ++ argument_text a) ≡ b ++ spaced (a ∷ []) =
      sym (append-nil _) ∙ spaced_step b a [] in
    record {
      before = [];
      last = a;
      after = args;
      parts = refl;
      shown = ap (λ x. x ++ ellipsis) same;
      fits_before = subst (λ x. length x ≤ 256) (sym (append-nil b)) fits;
      too_long = subst (λ x. 256 < length x) same long;
    }

cut_later :
    (b : List ℕ) (a : Argument) (args : List Argument) (s : List ℕ)
    → CutBehind (b ++ (codes " " ++ argument_text a)) args s
    → CutBehind b (a ∷ args) s
cut_later b a args s c = record {
  before = a ∷ c.before;
  last = c.last;
  after = c.after;
  parts = ap (◌∷◌ a) c.parts;
  shown = c.shown ∙ ap (λ x. x ++ ellipsis) (spaced_step b a (c.before ++ c.last ∷ []));
  fits_before = subst (λ x. length x ≤ 256) (spaced_step b a c.before) c.fits_before;
  too_long = subst (λ x. 256 < length x) (spaced_step b a (c.before ++ c.last ∷ [])) c.too_long;
}

fill_later :
    (b : List ℕ) (a : Argument) (args : List Argument) (s : List ℕ)
    → FilledBehind (b ++ (codes " " ++ argument_text a)) args s
    → FilledBehind b (a ∷ args) s
fill_later b a args s (inl whole) = inl (whole.0 ∙ spaced_step b a args, whole.1)
fill_later b a args s (inr c) = inr (cut_later b a args s c)

arguments_from-FilledBehind :
    (b : List ℕ) (args : List Argument)
    → length b ≤ 256
    → FilledBehind b args (arguments_from (codes " ") b args)
unfolding arguments_from
arguments_from-FilledBehind b [] fits = inl (sym (append-nil b), fits)
arguments_from-FilledBehind b (a ∷ args) fits =
    let b' = b ++ (codes " " ++ argument_text a) in
    elim (Bool-cases (ltb 256 (length b'))) [
      | inl long ↦ rw long (inr (cut_now b a args fits (ltb→lt _ _ long)))
      | inr short ↦
          rw short (fill_later b a args _ (arguments_from-FilledBehind b' args (ground arith)))
    ]

first_filled :
    (a : Argument) (args : List Argument) (s : List ℕ)
    → length (argument_text a) ≤ 256
    → FilledBehind (argument_text a) args s
    → IsStatement (a ∷ args) s
first_filled a args s fits (inl whole) = inl (record { all_shown = whole.0; short = whole.1 })
first_filled a args s fits (inr c) = inr (record {
  before = a ∷ c.before;
  last = c.last;
  after = c.after;
  parts = ap (◌∷◌ a) c.parts;
  shown = c.shown;
  fits_before = c.fits_before;
  too_long = c.too_long;
})

-- The statement of a command shows its arguments but the name, with a space between two of them: all
-- of them where that takes at most 256 bytes, and else those up to the one that passes this bound, of
-- whatever length it is, followed by an ellipsis.
pub args_as_string-IsStatement :
    (name : Argument) (args : List Argument) → IsStatement args (args_as_string (name ∷ args))
unfolding args_as_string arguments_from
args_as_string-IsStatement name [] = inl (record { all_shown = refl; short = omega arith })
args_as_string-IsStatement name (a ∷ args) =
    elim (Bool-cases (ltb 256 (length (argument_text a)))) [
      | inl long ↦ rw long (
          inr (record {
            before = [];
            last = a;
            after = args;
            parts = refl;
            shown = ap (λ x. x ++ ellipsis) (sym (append-nil (argument_text a)));
            fits_before = omega arith;
            too_long =
                subst (λ x. 256 < length x) (sym (append-nil (argument_text a))) (ltb→lt _ _ long);
          }))
      | inr short ↦ rw short (
          first_filled a args _ (ground arith)
            (arguments_from-FilledBehind (argument_text a) args (ground arith)))
    ]
