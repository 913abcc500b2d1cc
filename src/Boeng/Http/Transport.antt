-- ===== src/Boeng/Http/Transport.antt =====
-- What the transport of boeng/http/http.go gives back, and the operation that it leaves.
use obs_brutal.Prelude.{
  ℕ, String, ◌≡◌, refl, ap, ◌∙◌, Bool, true, false, not, Option, none, some, List, ◌++◌, arith, ltb,
  is_some, codes,
}
use obs_brutal.Domain.Value.{Value}
use obs_brutal.Boeng.Metrics.{Metrics}
use obs_brutal.Boeng.Metrics.Cache.{IsValid, IsNext}
use obs_brutal.Boeng.Op.{Outcome, error_of}
use obs_brutal.Boeng.Run.{Span, Process, OpState, start_op, run}
use obs_brutal.Boeng.Run.Completion.{IsCompletion, run-IsCompletion}
use obs_brutal.Boeng.Http.{
  Request, outgoing_subject, Trip, answered, trip_panics, trip_exits, trip_outcome, trip_body,
  trip_result, nil_dereference, round_trip,
}

-- The answer that the caller gets: the inner one, but where there is neither a response nor an error.
abbrev pub seen : Trip → Trip
seen (answered none none) = trip_panics nil_dereference
seen t = t

-- Whether the operation fails.
abbrev pub is_failure : Trip → Bool
is_failure (answered resp (some e)) = true
is_failure (answered none none) = true
is_failure (answered (some (code, status)) none) = not (ltb code 500)
is_failure (trip_panics r) = true
is_failure trip_exits = false

trip_result_lem : (t : Trip) → trip_result t (trip_outcome t) ≡ seen t
unfolding trip_result trip_outcome
trip_result_lem (answered none (some e)) = refl
trip_result_lem (answered (some r) (some e)) = refl
trip_result_lem (answered none none) = refl
trip_result_lem (answered (some (code, status)) none) = ground arith
trip_result_lem (trip_panics r) = refl
trip_result_lem trip_exits = refl

trip_outcome-is_failure : (t : Trip) → is_some (error_of (trip_outcome t)) ≡ is_failure t
unfolding trip_outcome error_of
trip_outcome-is_failure (answered none (some e)) = refl
trip_outcome-is_failure (answered (some r) (some e)) = refl
trip_outcome-is_failure (answered none none) = refl
trip_outcome-is_failure (answered (some (code, status)) none) = ground arith
trip_outcome-is_failure (trip_panics r) = refl
trip_outcome-is_failure trip_exits = refl

trip_body_lem :
    (inner : OpState → Process → OpState × Process × Trip) (st₀ : OpState) (p : Process)
    (st : OpState) (q : Process) (t : Trip)
    → inner st₀ p ≡ (st, q, t)
    → trip_body inner st₀ p ≡ (st, q, trip_outcome t)
unfolding trip_body
trip_body_lem inner st₀ p st q t h = rw h

module _ (makes : List ℕ → Bool) (between : Metrics → Metrics)
    (kept : (m : Metrics) → IsValid makes m → IsNext makes m (between m))
    (every : (n : List ℕ) → makes n ≡ true) (show : Value → String) where
  -- The operation of a round trip that ended at `now`, and what the caller got.
  pub record IsTripped (st : OpState) (now : ℕ) (t : Trip) (q : Process) (done : Process × Trip)
      : Type 0 where
    pub answer : done.1 ≡ seen t
    pub out : Outcome
    pub failure : is_some (error_of out) ≡ is_failure t
    pub completed : IsCompletion makes between kept every st now out q done.0

  -- The caller of a transport gets the response and the error of the inner transport as they are,
  -- answers with a status of 500 or more included, and its panic; only an answer with neither of the
  -- two becomes a panic. The operation is completed once, with a failure for an error, a panic, or a status of 500 or
  -- more, and without one for any other response.
  pub round_trip-IsTripped :
      (inner : OpState → Process → OpState × Process × Trip) (r : Request) (span : Span)
      (parent : Option OpState) (now later : ℕ) (p : Process) (st : OpState) (q : Process)
      (t : Trip)
      → (let started =
            start_op show
              (codes "HTTP " ++ (r.method ++ (codes " " ++ r.host)))
              (outgoing_subject r)
              span
              parent
              now
              p in
          inner started.1 started.0 ≡ (st, q, t))
      → IsValid makes q.metrics
      → IsTripped st later t q (round_trip makes between show inner r span parent now later p)
  unfolding round_trip
  round_trip-IsTripped inner r span parent now later p st q t h v =
      let name = codes "HTTP " ++ (r.method ++ (codes " " ++ r.host)) in
      let ran =
        run-IsCompletion makes between kept every show name (outgoing_subject r) span parent now
          later (trip_body inner) p st q (trip_outcome t) (trip_body_lem inner _ _ st q t h) v in
      record {
        answer =
            ap
              (λ d.
                trip_result d.2
                  (run makes between show name (outgoing_subject r) span parent now later
                    (trip_body inner) p).1)
              h
            ∙ ap (trip_result t) ran.0
            ∙ trip_result_lem t;
        out = trip_outcome t;
        failure = trip_outcome-is_failure t;
        completed = ran.1;
      }
