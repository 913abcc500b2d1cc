-- ===== src/Boeng/Start/Lifecycle.antt =====
-- What is closed over the life of the registry (boeng/boeng.go).
use obs_brutal.Prelude.{
  ℕ, ◌≡◌, refl, sym, ap, ◌∙◌, subst, ◌≢◌, ◌⊎◌, inl, inr, Bool, true, false, Option, none, some,
  List, [], ◌∷◌, arith, nat_eq, nat_eq_iff, Bool-cases, bytes_keys, string_keys, nat_keys, lookup,
  insert,
}
use obs_brutal.Boeng.Start.{
  Config, Environment, Obs, Registry, no_registry, close_open, close_found, close_obs,
  close_previous, new_obs, register, init,
}
use obs_brutal.Boeng.Start.Accounts.{
  IsAccounted, close_obs-IsAccounted, register-IsAccounted, lookup-insert_same, lookup-insert_other,
}

-- All but the default are closed.
pub IsRetired : Option ℕ → Registry → Type 0
IsRetired default r =
    (id : ℕ) (o : Obs) → lookup id r.made ≡ some o → default ≢ some id → o.closed ≡ true

closed_of : Option Obs → Bool
closed_of none = true
closed_of (some o) = o.closed

some-ne-none : {o : Obs} → some o ≢ none
some-ne-none e = cc

-- What closing `id` leaves unclosed is another `Obs`, as it was.
close_obs-unclosed :
    (id : ℕ) (r : Registry) (j : ℕ) (o : Obs)
    → lookup j (close_obs id r).made ≡ some o
    → (o.closed ≡ true) ⊎ ((j ≢ id) × (lookup j r.made ≡ some o))
unfolding close_obs close_found close_open closed_of
close_obs-unclosed id r j o = found (lookup id r.made) refl
  where
    found :
        (known : Option Obs)
        → lookup id r.made ≡ known
        → lookup j (close_found id known r).made ≡ some o
        → (o.closed ≡ true) ⊎ ((j ≢ id) × (lookup j r.made ≡ some o))
    found none h e = elim (Bool-cases (nat_eq j id)) [
      | inl same ↦
          absurd (some-ne-none (sym e ∙ ap (λ i. lookup i r.made) ((nat_eq_iff j id).0 same) ∙ h))
      | inr other ↦ inr (λ q. ground (arith, other, q), e)
    ]
    found (some p) h e = elim (Bool-cases p.closed) [
      | inl closed ↦
          let old : lookup j r.made ≡ some o = ap (lookup j) (sym (simp closed refl)) ∙ e in
          elim (Bool-cases (nat_eq j id)) [
            | inl same ↦ inl (
                ap closed_of (sym old ∙ ap (λ i. lookup i r.made) ((nat_eq_iff j id).0 same) ∙ h)
                ∙ closed)
            | inr other ↦ inr (λ q. ground (arith, other, q), old)
          ]
      | inr unclosed ↦
          let p_closed = record p { closed = true } in
          let new : lookup j (insert id p_closed r.made) ≡ some o =
            ap (lookup j) (sym (simp unclosed refl)) ∙ e in
          elim (Bool-cases (nat_eq j id)) [
            | inl same ↦ inl (ap closed_of (sym new ∙ lookup-insert_same id j p_closed r.made same))
            | inr other ↦ inr (
              λ q. ground (arith, other, q),
              sym (lookup-insert_other id j p_closed r.made other) ∙ new,
            )
          ]
    ]

close_obs-default : (id : ℕ) (r : Registry) → (close_obs id r).default ≡ r.default
unfolding close_obs close_found close_open
close_obs-default id r = found (lookup id r.made)
  where
    found : (known : Option Obs) → (close_found id known r).default ≡ r.default
    found none = refl
    found (some o) = elim (Bool-cases o.closed) [
      | inl closed ↦ simp closed refl
      | inr unclosed ↦ simp unclosed refl
    ]

close_obs-IsRetired :
    (default : Option ℕ) (id : ℕ) (r : Registry)
    → IsRetired default r
    → IsRetired default (close_obs id r)
unfolding IsRetired
close_obs-IsRetired default id r retired j o h other = elim (close_obs-unclosed id r j o h) [
  | inl closed ↦ closed
  | inr kept ↦ retired j o kept.1 other
]

-- Calls of `Init` and of `Close` on the `Obs` with an identity.
pub data RegistryCall : Type 0 where
  inits : Environment → Config → RegistryCall
  shuts : ℕ → RegistryCall

unfoldable pub registry_call : RegistryCall → Registry → Registry
registry_call (inits e cfg) r = init e cfg r
registry_call (shuts id) r = close_obs id r

unfoldable pub registry_calls : List RegistryCall → Registry → Registry
registry_calls [] r = r
registry_calls (c ∷ cs) r = registry_calls cs (registry_call c r)

pub record IsTidy (r : Registry) : Type 0 where
  pub accounted : IsAccounted r
  pub retired : IsRetired r.default r

-- An `Obs` that is neither the new one nor the old default was there before.
register-IsRetired :
    (o : Obs) (r : Registry) (j : ℕ) (p : Obs)
    → IsRetired r.default r
    → lookup j (register o r).made ≡ some p
    → some r.next ≢ some j
    → r.default ≢ some j
    → p.closed ≡ true
unfolding register IsRetired
register-IsRetired o r j p retired h new old =
    retired j p
      (sym (lookup-insert_other r.next j o r.made (not_next (Bool-cases (nat_eq j r.next)))) ∙ h)
      old
  where
    not_next : (nat_eq j r.next ≡ true) ⊎ (nat_eq j r.next ≡ false) → nat_eq j r.next ≡ false
    not_next (inl same) = absurd (new (ap some (sym ((nat_eq_iff j r.next).0 same))))
    not_next (inr other) = other

close_previous-IsTidy :
    (o : Obs) (r : Registry)
    → o.closed ≡ false
    → IsTidy r
    → IsTidy (close_previous r.default (register o r))
unfolding close_previous IsRetired register
close_previous-IsTidy o r unclosed t = found r.default refl
  where
    registered : IsAccounted (register o r)
    registered = register-IsAccounted o r unclosed t.accounted

    found : (d : Option ℕ) → r.default ≡ d → IsTidy (close_previous d (register o r))
    found none e = record {
      accounted = registered;
      retired = λ j p h new. register-IsRetired o r j p t.retired h new (λ q. cc);
    }
    found (some id) e = record {
      accounted = close_obs-IsAccounted id (register o r) registered;
      retired = λ j p h new. elim (close_obs-unclosed id (register o r) j p h) [
        | inl closed ↦ closed
        | inr kept ↦
            register-IsRetired o r j p t.retired kept.1
              (λ q. new (close_obs-default id (register o r) ∙ q)) (λ q. kept.0 cc)
      ];
    }

registry_call-IsTidy : (c : RegistryCall) (r : Registry) → IsTidy r → IsTidy (registry_call c r)
unfolding registry_call init new_obs
registry_call-IsTidy (inits e cfg) r t = close_previous-IsTidy (new_obs e cfg) r refl t
registry_call-IsTidy (shuts id) r t = record {
  accounted = close_obs-IsAccounted id r t.accounted;
  retired =
      subst (λ d. IsRetired d (close_obs id r)) (sym (close_obs-default id r))
        (close_obs-IsRetired r.default id r t.retired);
}

registry_calls_from :
    (cs : List RegistryCall) (r : Registry) → IsTidy r → IsTidy (registry_calls cs r)
unfolding registry_calls
registry_calls_from [] r t = t
registry_calls_from (c ∷ cs) r t =
    registry_calls_from cs (registry_call c r) (registry_call-IsTidy c r t)

-- After any calls of `Init` and `Close`, in any order and with any configurations, every `Obs` but
-- the current default is closed; an `Obs` that is closed had its provider, if it has one, shut down
-- exactly once, and its logger, if it can be stopped, stopped exactly once; and nothing else was
-- stopped or shut down.
pub registry_calls-IsTidy : (cs : List RegistryCall) → IsTidy (registry_calls cs no_registry)
unfolding lookup IsRetired
registry_calls-IsTidy cs = registry_calls_from cs no_registry record {
  accounted = record { fresh = λ j late. refl; shut = λ j. refl; stopped = λ j. refl };
  retired = λ j o h other. absurd cc;
}
