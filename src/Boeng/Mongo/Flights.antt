-- ===== src/Boeng/Mongo/Flights.antt =====
-- What becomes of the operations of a monitor (boeng/mongo/mongo.go): each is in flight or ended.
use mathlib.Core.Option
use obs_brutal.Prelude.{
  ℕ, ◌+◌, String, ◌≡◌, refl, sym, ap, ◌∙◌, subst, inl, inr, Bool, false, Option, none, some, List,
  [], ◌∷◌, ◌++◌, append-nil, arith, if◌then◌else◌, Bool-cases, All, tally, tally-append, bytes_keys,
  string_keys, nat_keys, ◌==◌, lookup, erase, insert, IsMap, lookup-insert, lookup-erase,
  insert-IsMap, erase_absent, erase-IsMap, erase-All, lookup-All, insert-All, codes,
}
use obs_brutal.Domain.Value.{Value}
use obs_brutal.Boeng.Fields.{Subject}
use obs_brutal.Boeng.Metrics.{Metrics}
use obs_brutal.Boeng.Op.{Op, new_op, fail, close}
use obs_brutal.Boeng.Run.{
  Span, SpanCall, end_span, Process, OpState, start_op, finish, attributes_of, span_errors,
}
use obs_brutal.Boeng.Mongo.{
  mongo_subject, Inflight, Monitor, CommandEvent, command_started, command_succeeded,
  command_failed, close_inflight, close_request, command_event, command_events,
}

-- `t` stands for any set of spans.
abbrev pub is_end : (Span → Bool) → SpanCall → Bool
is_end t (end_span s) = t s
is_end t c = false

-- How many spans of `t` were ended, are in flight, and are opened by a sequence of events.
abbrev pub ended : (Span → Bool) → Process → ℕ
ended t p = tally (is_end t) p.spans

abbrev pub in_flight : (Span → Bool) → Monitor → ℕ
in_flight t m = tally (λ e. t e.1.state.span) m

abbrev pub starts : (Span → Bool) → List CommandEvent → ℕ
starts t [] = 0
starts t (command_started id c span parent now ∷ es) = tally t (span ∷ []) + starts t es
starts t (command_succeeded id now ∷ es) = starts t es
starts t (command_failed id failure now ∷ es) = starts t es

-- The span under a request: that of the last start, when no end came after it.
abbrev pub span_under : ℕ → Monitor → Option Span
span_under j m = Option.map (λ f. f.state.span) (lookup j m)

abbrev pub span_after : List CommandEvent → ℕ → Option Span → Option Span
span_after [] j o = o
span_after (command_started id c span parent now ∷ es) j o =
    span_after es j (if id == j then some span else o)
span_after (command_succeeded id now ∷ es) j o = span_after es j (if id == j then none else o)
span_after (command_failed id failure now ∷ es) j o = span_after es j (if id == j then none else o)

in_flight-insert :
    (t : Span → Bool) (id : ℕ) (f : Inflight) (m : Monitor)
    → lookup id m ≡ none
    → in_flight t (insert id f m) ≡ in_flight t m + tally t (f.state.span ∷ [])
unfolding lookup insert
in_flight-insert t id f [] h = omega arith
in_flight-insert t id f ((j, g) ∷ m) h = elim (Bool-cases (j == id)) [
  | inl e ↦ absurd (ground (arith, e, h))
  | inr e ↦ rw e (ground (arith, e, h, in_flight-insert t id f m))
]

abbrev counted_in : (Span → Bool) → Option Inflight → ℕ
counted_in t none = 0
counted_in t (some f) = tally t (f.state.span ∷ [])

in_flight-erase :
    (t : Span → Bool) (id : ℕ) (f : Inflight) (m : Monitor)
    → IsMap m
    → lookup id m ≡ some f
    → in_flight t (erase id m) + tally t (f.state.span ∷ []) ≡ in_flight t m
unfolding lookup erase
in_flight-erase t id f [] h k = absurd cc
in_flight-erase t id f ((j, g) ∷ m) h k = elim (Bool-cases (j == id)) [
  | inl e ↦
      let gone : lookup id m ≡ none =
        subst (λ i. lookup i m ≡ none) ((nat_keys.same_key_iff j id).0 e) h.0 in
      let same : some g ≡ some f = ap (λ b. if b then some g else lookup id m) (sym e) ∙ k in
      rw (e, erase_absent id m gone) (omega (arith, ap (counted_in t) same))
  | inr e ↦ rw e (ground (arith, e, h.1, k, in_flight-erase t id f m h.1))
]

-- Each request is in flight once, with an operation that is not closed.
pub record IsFlying (m : Monitor) : Type 0 where
  pub once : IsMap m
  pub opened : All (λ e. e.1.op.closed ≡ false) m

start_op-ended :
    (show : Value → String) (name : List ℕ) (subject : Subject) (span : Span)
    (parent : Option OpState) (now : ℕ) (p : Process) (t : Span → Bool)
    → ended t (start_op show name subject span parent now p).0 ≡ ended t p
unfolding start_op attributes_of
start_op-ended show name subject span parent now p t = elim (Bool-cases span.is_recording) [
  | inl e ↦ simp e (tally-append (is_end t) p.spans _ ∙ omega arith)
  | inr e ↦ simp (e, append-nil)
]

module _ (makes : List ℕ → Bool) (between : Metrics → Metrics) where
  finish-ended :
      (t : Span → Bool) (st : OpState) (now : ℕ) (err : Option (List ℕ)) (panicked : Bool)
      (p : Process)
      → ended t (finish makes between st now err panicked p) ≡ ended t p + tally t (st.span ∷ [])
  unfolding finish span_errors
  finish-ended t st now none panicked p = tally-append (is_end t) p.spans _ ∙ omega arith
  finish-ended t st now (some e) panicked p = tally-append (is_end t) p.spans _ ∙ omega arith

  close-ended :
      (t : Span → Bool) (st : OpState) (now : ℕ) (o : Op) (p : Process)
      → o.closed ≡ false
      → ended t (close (finish makes between st now) none o p).1
        ≡ ended t p + tally t (st.span ∷ [])
  unfolding close
  close-ended t st now o p h = rw h (finish-ended t st now o.err false p)

  close_inflight-ended :
      (t : Span → Bool) (now : ℕ) (err : Option (List ℕ)) (f : Inflight) (p : Process)
      → f.op.closed ≡ false
      → ended t (close_inflight makes between now err (some f) p)
        ≡ ended t p + tally t (f.state.span ∷ [])
  unfolding close_inflight fail
  close_inflight-ended t now none f p h = close-ended t f.state now f.op p h
  close_inflight-ended t now (some e) f p h =
      close-ended t f.state now (record f.op { err = some e }) p h

  -- What the events leave of the requests in flight and of the ended spans: under each request the
  -- span that the events say, and each span in flight or ended as often as it was or is opened.
  pub record IsFlown (es : List CommandEvent) (m : Monitor) (p : Process)
      (after : Monitor × Process) : Type 0 where
    pub flying : IsFlying after.0
    pub under : (j : ℕ) → span_under j after.0 ≡ span_after es j (span_under j m)
    pub counted :
        (t : Span → Bool)
        → in_flight t after.0 + ended t after.1 ≡ in_flight t m + ended t p + starts t es

  -- What one end of a request does.
  record IsClosed (id : ℕ) (m : Monitor) (p : Process) (after : Monitor × Process) : Type 0 where
    flying : IsFlying after.0
    under : (j : ℕ) → span_under j after.0 ≡ (if id == j then none else span_under j m)
    counted : (t : Span → Bool) → in_flight t after.0 + ended t after.1 ≡ in_flight t m + ended t p

  span_under-erase :
      (id j : ℕ) (m : Monitor)
      → span_under j (erase id m) ≡ (if id == j then none else span_under j m)
  span_under-erase id j m = ground (arith, lookup-erase id j m)

  close_request-IsClosed :
      (id now : ℕ) (err : Option (List ℕ)) (m : Monitor) (p : Process)
      → IsFlying m
      → IsClosed id m p (close_request makes between id now err m p)
  unfolding close_request
  close_request-IsClosed id now err m p h = found (lookup id m) refl
    where
      found :
          (o : Option Inflight)
          → lookup id m ≡ o
          → IsClosed id m p (erase id m, close_inflight makes between now err o p)
      found none e = record {
        flying = rw (erase_absent id m e) h;
        under = λ j. span_under-erase id j m;
        counted = λ t. rw (erase_absent id m e) refl;
      }
      found (some f) e =
          let open_op = lookup-All (λ k. k.op.closed ≡ false) id m f h.opened e in
          record {
            flying = record {
              once = erase-IsMap id m h.once;
              opened = erase-All (λ k. k.1.op.closed ≡ false) id m h.opened;
            };
            under = λ j. span_under-erase id j m;
            counted = λ t. omega (
              arith,
              in_flight-erase t id f m h.once e,
              close_inflight-ended t now err f p open_op,
            );
          }

  module _ (show : Value → String) where
    -- The driver gives each request an id that is not in flight.
    abbrev pub IsFresh : List CommandEvent → Monitor × Process → Type 0
    IsFresh [] s = Unit
    IsFresh (command_started id c span parent now ∷ es) s =
        (lookup id s.0 ≡ none)
        × IsFresh es (command_event makes between show (command_started id c span parent now) s)
    IsFresh (command_succeeded id now ∷ es) s =
        IsFresh es (command_event makes between show (command_succeeded id now) s)
    IsFresh (command_failed id failure now ∷ es) s =
        IsFresh es (command_event makes between show (command_failed id failure now) s)

    -- Whatever a driver reports, when it starts no request under an id that is in flight: under each
    -- request that was started and not ended after that the operation of its last start is in flight,
    -- and under no other; and each span is in flight or was ended exactly as often as operations of
    -- that span were in flight or ended before and are started, so that each operation ends its own
    -- span, and once. (The spans are counted by an arbitrary test.)
    pub command_events-IsFlown :
        (es : List CommandEvent) (m : Monitor) (p : Process)
        → IsFlying m
        → IsFresh es (m, p)
        → IsFlown es m p (command_events makes between show es (m, p))
    unfolding command_events command_event start_op
    command_events-IsFlown [] m p h fresh = record {
      flying = h;
      under = λ j. refl;
      counted = λ t. omega arith;
    }
    command_events-IsFlown (command_started id c span parent now ∷ es) m p h fresh =
        let started =
          start_op show (codes "mongo." ++ c.name) (mongo_subject c) span parent now p in
        let f : Inflight = record { op = new_op; state = started.1 } in
        let flying : IsFlying (insert id f m) = record {
          once = insert-IsMap id f m h.once;
          opened = insert-All (λ k. k.1.op.closed ≡ false) id f m refl h.opened;
        } in
        let rest = command_events-IsFlown es (insert id f m) started.0 flying fresh.1 in
        record {
          flying = rest.flying;
          under = λ j. rest.under j ∙ ap (span_after es j) (ground (arith, lookup-insert id j f m));
          counted = λ t. omega (
            arith,
            rest.counted t,
            in_flight-insert t id f m fresh.0,
            start_op-ended show (codes "mongo." ++ c.name) (mongo_subject c) span parent now p t,
          );
        }
    command_events-IsFlown (command_succeeded id now ∷ es) m p h fresh =
        let first = close_request-IsClosed id now none m p h in
        let rest = command_events-IsFlown es _ _ first.flying fresh in
        record {
          flying = rest.flying;
          under = λ j. rest.under j ∙ ap (span_after es j) (first.under j);
          counted = λ t. omega (arith, first.counted t, rest.counted t);
        }
    command_events-IsFlown (command_failed id failure now ∷ es) m p h fresh =
        let first = close_request-IsClosed id now (some failure) m p h in
        let rest = command_events-IsFlown es _ _ first.flying fresh in
        record {
          flying = rest.flying;
          under = λ j. rest.under j ∙ ap (span_after es j) (first.under j);
          counted = λ t. omega (arith, first.counted t, rest.counted t);
        }
