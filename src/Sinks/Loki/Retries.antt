-- ===== src/Sinks/Loki/Retries.antt =====
-- How often `post` tries, and what decides its result.
use obs_brutal.Prelude.{
  ℕ, zero, suc, ◌+◌, ◌≤◌, ◌≡◌, refl, ap, subst, ◌⊎◌, inl, inr, Bool, true, false, ◌&&◌, arith,
  Bool-cases,
}
use obs_brutal.Sinks.Loki.{Answer, succeeded, retriable, post_from}

-- The answers from the `i`-th on, as many as there were further attempts, all asked for another.
abbrev pub all_retriable : (ℕ → Answer) → ℕ → ℕ → Bool
all_retriable answers i zero = true
all_retriable answers i (suc n) = retriable (answers i) && all_retriable answers (i + 1) n

-- What `post` may return when at most `left` attempts follow the `i`-th.
pub record IsPosted (answers : ℕ → Answer) (i left : ℕ) (ok : Bool) (again : ℕ) : Type 0 where
  pub bounded : again ≤ left
  pub retried : all_retriable answers i again ≡ true
  pub last_decides : ok ≡ succeeded (answers (i + again))
  pub gave_up : (retriable (answers (i + again)) ≡ false) ⊎ (again ≡ left)

post_once :
    (answers : ℕ → Answer) (i left : ℕ)
    → (retriable (answers i) ≡ false) ⊎ (0 ≡ left)
    → IsPosted answers i left (succeeded (answers i)) 0
post_once answers i left h =
    let here : i ≡ i + 0 = omega arith in
    record {
      bounded = omega arith;
      retried = refl;
      last_decides = ap (λ n. succeeded (answers n)) here;
      gave_up = subst (λ n. (retriable (answers n) ≡ false) ⊎ (0 ≡ left)) here h;
    }

post_again :
    (answers : ℕ → Answer) (i left : ℕ) (ok : Bool) (again : ℕ)
    → retriable (answers i) ≡ true
    → IsPosted answers (i + 1) left ok again
    → IsPosted answers i (suc left) ok (suc again)
post_again answers i left ok again h p =
    let shift : i + 1 + again ≡ i + suc again = omega arith in
    record {
      bounded = omega (arith, p.bounded);
      retried = ground (arith, p.retried);
      last_decides = subst (λ n. ok ≡ succeeded (answers n)) shift p.last_decides;
      gave_up = elim p.gave_up [
        | inl n ↦ inl (subst (λ n. retriable (answers n) ≡ false) shift n)
        | inr e ↦ inr (ap suc e)
      ];
    }

-- `post` tries again at most as often as it may, only after an answer that asks for it, and no more
-- after any other; the last answer decides whether it succeeds.
pub post_from-IsPosted :
    (answers : ℕ → Answer) (i left : ℕ)
    → let (ok, again) = post_from answers i left in IsPosted answers i left ok again
unfolding post_from
post_from-IsPosted answers i zero = post_once answers i zero (inr refl)
post_from-IsPosted answers i (suc left) = elim (Bool-cases (retriable (answers i))) [
  | inl h ↦ rw h (post_again answers i left _ _ h (post_from-IsPosted answers (i + 1) left))
  | inr h ↦ rw h (post_once answers i (suc left) (inl h))
]
