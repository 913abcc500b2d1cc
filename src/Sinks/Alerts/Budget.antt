-- ===== src/Sinks/Alerts/Budget.antt =====
-- How often and for how long an alert is tried (internal/adapter/outbound/sink/alerts/common.go).
use obs_brutal.Prelude.{
  ℕ, zero, suc, ◌+◌, ◌-◌, ◌*◌, ◌≤◌, ◌<◌, ◌≡◌, refl, ap, ◌∙◌, ◌≢◌, inl, inr, Bool, true, false,
  Option, none, some, List, arith, ltb, nat_eq, if◌then◌else◌, nat_eq_iff, Bool-cases, length,
}
use obs_brutal.Sinks.Alerts.{
  Response, post_once, Delivery, gives_up, deliver_from, deliver_alert, alert_max_attempts,
  alert_max_retry_gap,
}

-- What holds when the loop goes on.
goes_on :
    (posted : Bool × Option (List ℕ)) (attempt deadline next : ℕ)
    → gives_up posted attempt deadline next ≡ false
    → (posted.0 ≡ true) × (attempt ≢ 3) × next ≤ deadline
unfolding gives_up
goes_on (true, some e) attempt deadline next h = ground arith
goes_on (true, none) attempt deadline next h = ground arith
goes_on (false, some e) attempt deadline next h = ground arith
goes_on (false, none) attempt deadline next h = ground arith

module _ (answer : ℕ → Response) (took late : ℕ → ℕ) where
  -- A delivery of at most `left` posts, from the attempt `attempt` on: all but the last of its posts
  -- asked for another one, the last one decides the error, and it ends by `limit`.
  pub record IsDelivery (name : List ℕ) (left attempt limit : ℕ) (d : Delivery) : Type 0 where
    pub tried : 1 ≤ length d.posts
    pub capped : length d.posts ≤ left
    pub decided : d.error ≡ (post_once name (answer (attempt + length d.posts - 1))).1
    pub asked :
        (k : ℕ)
        → attempt ≤ k
        → k + 1 < attempt + length d.posts
        → (post_once name (answer k)).0 ≡ true
    pub timely : d.ended ≤ limit

  module _ (longest lag : ℕ) (bounded : (k : ℕ) → took k ≤ longest)
      (punctual : (k : ℕ) → late k ≤ lag) where
    deliver_from-IsDelivery :
        (left : ℕ) (name : List ℕ) (deadline attempt delay now : ℕ) (last : Option (List ℕ))
        → attempt + left ≡ alert_max_attempts
        → 1 ≤ left
        → now ≤ deadline + lag
        → IsDelivery name left attempt
            (deadline + lag + longest)
            (deliver_from answer took late left name deadline attempt delay now last)
    unfolding deliver_from
    deliver_from-IsDelivery zero name deadline attempt delay now last e h t = absurd (omega arith)
    deliver_from-IsDelivery (suc left) name deadline attempt delay now last e h t =
        let posted = post_once name (answer attempt) in
        let next = now + took attempt + delay in
        elim (Bool-cases (gives_up posted attempt deadline next)) [
          | inl stop ↦ rw stop record {
            tried = omega arith;
            capped = omega arith;
            decided = ap (λ k. (post_once name (answer k)).1) (omega arith);
            asked = λ k low high. absurd (omega arith);
            timely = omega (arith, bounded attempt);
          }
          | inr on ↦
              let go = goes_on posted attempt deadline next on in
              let gap = if ltb delay alert_max_retry_gap then delay * 2 else delay in
              let rest =
                deliver_from-IsDelivery left name deadline (attempt + 1) gap (next + late attempt)
                  posted.1 (omega arith) (grind (arith, go.1))
                  (omega (arith, go.2, punctual attempt)) in
              rw on record {
                tried = omega arith;
                capped = omega (arith, rest.capped);
                decided = rest.decided ∙ ap (λ k. (post_once name (answer k)).1) (omega arith);
                asked = λ k low high. elim (Bool-cases (nat_eq k attempt)) [
                  | inl same ↦
                      ap (λ n. (post_once name (answer n)).0) ((nat_eq_iff k attempt).0 same) ∙ go.0
                  | inr other ↦ rest.asked k (ground (arith, low, other)) (omega (arith, high))
                ];
                timely = rest.timely;
              }
        ]

    -- When no post takes longer than `longest` and no sleep is longer than asked by more than `lag`,
    -- an alert is posted at least once and at most four times and the delivery ends at most eight
    -- seconds, one `lag` and one post after it began; its error is that of the last post, and each
    -- post before that one asked for another.
    pub deliver_alert-IsDelivery :
        (name : List ℕ) (now : ℕ)
        → IsDelivery name 4 0 (now + 8000 + lag + longest) (deliver_alert answer took late name now)
    unfolding deliver_alert
    deliver_alert-IsDelivery name now =
        deliver_from-IsDelivery 4 name (now + 8000) 0 200 now none refl (omega arith) (omega arith)
