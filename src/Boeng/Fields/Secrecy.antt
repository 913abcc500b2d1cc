-- ===== src/Boeng/Fields/Secrecy.antt =====
-- What the masks of boeng hide, and what its names keep.
use obs_brutal.Prelude.{
  ℕ, ◌-◌, ◌≡◌, refl, sym, ap, ◌∙◌, ◌≢◌, false, none, some, List, [], ◌∷◌, ◌++◌, arith, leb, nat_eq,
  length, take, drop, All, length-append, length-drop, length-replicate,
}
use obs_brutal.Boeng.Fields.{
  extend_local, split_last_at, mask_local, mask_split, mask_email, asterisks,
}

abbrev pub IsNoAt : ℕ → Type 0
IsNoAt c = nat_eq c b'@' ≡ false

split_last_at-none : (d : List ℕ) → All IsNoAt d → split_last_at d ≡ none
unfolding split_last_at extend_local
split_last_at-none [] h = refl
split_last_at-none (c ∷ d) h = rw (split_last_at-none d h.1, h.0)

-- The last `@` of an address is the one before a domain that has none.
split_last_at-domain : (l d : List ℕ) → All IsNoAt d → split_last_at (l ++ b'@' ∷ d) ≡ some (l, d)
unfolding split_last_at extend_local
split_last_at-domain [] d h = rw (split_last_at-none d h)
split_last_at-domain (c ∷ l) d h = rw (split_last_at-domain l d h)

length-mask_local : (s : List ℕ) → s ≢ [] → length (mask_local s) ≡ length s
unfolding mask_local
length-mask_local [] h = absurd (h refl)
length-mask_local (a ∷ []) h = refl
length-mask_local (a ∷ b ∷ []) h = refl
length-mask_local (a ∷ b ∷ c ∷ s) h =
    let t = a ∷ b ∷ c ∷ s in
    let e₁ : leb (length t) 1 ≡ false = ground arith in
    let e₂ : leb (length t) 2 ≡ false = ground arith in
    let stars : length (asterisks (length t - 2)) ≡ length t - 2 =
      length-replicate (length t - 2) _ in
    rw (e₁, e₂) omega
      (
        arith,
        length-append (asterisks (length t - 2)) (drop (length t - 1) t),
        stars,
        length-drop (length t - 1) t,
      )

-- Two texts of one length that begin and end alike.
pub record SameEnds (s t : List ℕ) : Type 0 where
  pub same_length : length s ≡ length t
  pub same_first : take 1 s ≡ take 1 t
  pub same_last : drop (length s - 1) s ≡ drop (length t - 1) t

mask_local-SameEnds : (s t : List ℕ) → SameEnds s t → mask_local s ≡ mask_local t
unfolding mask_local
mask_local-SameEnds s t h = rw (h.same_last, h.same_first, h.same_length)

mask_split-some :
    (s l d : List ℕ) → l ≢ [] → d ≢ [] → mask_split s (some (l, d)) ≡ mask_local l ++ b'@' ∷ d
unfolding mask_split
mask_split-some s [] d h k = absurd (h refl)
mask_split-some s (a ∷ l) [] h k = absurd (k refl)
mask_split-some s (a ∷ l) (b ∷ d) h k = refl

-- What the mask makes of an address.
mask_email_split :
    (l d : List ℕ)
    → All IsNoAt d
    → l ≢ []
    → d ≢ []
    → mask_email (l ++ b'@' ∷ d) ≡ mask_local l ++ b'@' ∷ d
unfolding mask_email
mask_email_split l d h named host =
    rw (split_last_at-domain l d h) (mask_split-some (l ++ b'@' ∷ d) l d named host)

drop-length-append : {A : Type 0} → (xs ys : List A) → drop (length xs) (xs ++ ys) ≡ ys
drop-length-append [] ys = refl
drop-length-append (x ∷ xs) ys = drop-length-append xs ys

ends-ne-nil : (l k : List ℕ) → SameEnds l k → l ≢ [] → k ≢ []
ends-ne-nil [] k h n = absurd (n refl)
ends-ne-nil (a ∷ l) [] h n = absurd (omega (arith, h.same_length))
ends-ne-nil (a ∷ l) (b ∷ k) h n = λ e. cc

-- `MaskEmail` hides all of the part before the last `@` but its length and its first and last
-- character: two addresses at one domain whose local parts have these in common are masked alike;
-- and the domain stays as it is, at its place.
pub mask_email-hides :
    (l k d : List ℕ)
    → All IsNoAt d
    → l ≢ []
    → d ≢ []
    → SameEnds l k
    → (mask_email (l ++ b'@' ∷ d) ≡ mask_email (k ++ b'@' ∷ d))
      × (drop (length l) (mask_email (l ++ b'@' ∷ d)) ≡ b'@' ∷ d)
mask_email-hides l k d h named host same =
    let masked = mask_email_split l d h named host in
    (
      masked
          ∙ ap (λ m. m ++ b'@' ∷ d) (mask_local-SameEnds l k same)
          ∙ sym (mask_email_split k d h (ends-ne-nil l k same named) host),
      ap (drop (length l)) masked
          ∙ ap (λ n. drop n (mask_local l ++ b'@' ∷ d)) (sym (length-mask_local l named))
          ∙ drop-length-append (mask_local l) (b'@' ∷ d),
    )
