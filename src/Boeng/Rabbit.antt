-- ===== src/Boeng/Rabbit.antt =====
-- The instrumentation of RabbitMQ (boeng/rabbit/rabbit.go): the carrier that puts trace context into
-- a message's headers and reads it back, and the operations around publishing and handling. The
-- propagator sets the pairs of the context that the tracer gives.
pub mod Carrier
use obs_brutal.Prelude.{
  ℕ, zero, suc, ◌+◌, ◌-◌, ◌*◌, ◌/◌, ◌%◌, ◌^◌, ◌≤◌, ◌<◌, min, max, String, ◌≡◌, refl, sym, ap, ◌∙◌,
  subst, ◌≢◌, ◌↔◌, ◌⊎◌, inl, inr, Bool, true, false, not, ◌&&◌, ◌||◌, Option, none, some, List, [],
  ◌∷◌, ◌++◌, map, append_assoc, append-nil, zero-add, suc-add, arith, ltb, leb, nat_eq,
  if◌then◌else◌, ltb→lt, lt→ltb, leb→le, le→leb, ltb_of_le, nat_eq_iff, tests, Bool-cases,
  Option-cases, is_some, length, is_empty, take, drop, replicate, get_elem?, keep, all, any, concat,
  All, length-append, length-snoc, snoc-ne-nil, length-drop, length-take, take-append-drop,
  length-replicate, length-keep-le, concat-append, concat-snoc, drop-append, All-append, All-drop,
  last_n, drop-nil, drop-drop, length-last_n, last_n_all, last_n-append, tally, tally-append,
  tally-concat-append, Key, bytes_eq, bytes_eq_iff, bytes_keys, string_keys, nat_keys, ◌==◌,
  eq_refl, prefer, lookup, erase, insert, insert_all, IsMap, lookup-insert, lookup-erase,
  length-insert-le, length-insert_present, length-insert_absent, lookup-insert_all, insert-IsMap,
  insert_all-IsMap, erase_absent, length-erase_present, erase-IsMap, erase-All, lookup-All,
  insert-All, range_into, ranged, lookup-range_into, range_into-IsMap, codes, as_string, is_upper,
  is_lower, is_digit, to_lower, has_prefix, contains,
}
use obs_brutal.Domain.Value.{Value, FieldMap, text, as_text}
use obs_brutal.Boeng.Fields.{Subject, loggable}
use obs_brutal.Boeng.Metrics.{Metrics}
use obs_brutal.Boeng.Op.{Outcome}
use obs_brutal.Boeng.Run.{Span, Process, OpState, run}

-- `tableCarrier`: `Get`, `Set` and `Keys`. A header may have a value of any type.
text_or_empty : Option (List ℕ) → List ℕ
text_or_empty none = []
text_or_empty (some s) = s

carried_text : Option Value → List ℕ
unfolding text_or_empty
carried_text none = []
carried_text (some v) = text_or_empty (as_text v)

unfoldable pub carrier_get : String → FieldMap → List ℕ
unfolding carried_text
carrier_get k c = carried_text (lookup k c)

unfoldable pub carrier_set : String → List ℕ → FieldMap → FieldMap
carrier_set k v c = insert k (text v) c

unfoldable pub carrier_keys : FieldMap → List String
carrier_keys [] = []
carrier_keys ((k, v) ∷ c) = k ∷ carrier_keys c

-- What the propagator does with a carrier: it sets the pairs of a context, and reads given keys.
unfoldable pub inject : List (String × List ℕ) → FieldMap → FieldMap
unfolding carrier_set
inject [] c = c
inject ((k, v) ∷ pairs) c = inject pairs (carrier_set k v c)

unfoldable pub extract : List String → FieldMap → List (String × List ℕ)
unfolding carrier_get
extract [] c = []
extract (k ∷ ks) c = (k, carrier_get k c) ∷ extract ks c

-- The maps that `LogFields` of the two subjects return.
unfoldable pub publish_subject : List ℕ → List ℕ → Subject
publish_subject exchange key = loggable (
    some (
      ("messaging.system", text (codes "rabbitmq"))
      ∷ ("messaging.destination", text exchange)
      ∷ ("messaging.rabbitmq.routing", text key)
      ∷ ("messaging.operation", text (codes "publish"))
      ∷ []))

unfoldable pub consume_subject : List ℕ → List ℕ → List ℕ → Subject
consume_subject queue exchange key = loggable (
    some (
      ("messaging.system", text (codes "rabbitmq"))
      ∷ ("messaging.source", text queue)
      ∷ ("messaging.destination", text exchange)
      ∷ ("messaging.rabbitmq.routing", text key)
      ∷ ("messaging.operation", text (codes "process"))
      ∷ []))

-- `if msg.Headers == nil`.
abbrev pub made_headers : Option FieldMap → FieldMap
made_headers none = []
made_headers (some h) = h

-- The function of `Publish`: the context's pairs are set before the channel takes the message.
unfoldable pub publish_body :
    (OpState → List (String × List ℕ))
    → (FieldMap → OpState → Process → OpState × Process × Outcome)
    → Option FieldMap
    → OpState
    → Process
    → OpState × Process × Outcome
unfolding inject
publish_body pairs send headers st p = send (inject (pairs st) (made_headers headers)) st p

module _ (makes : List ℕ → Bool) (between : Metrics → Metrics) (show : Value → String) (span : Span)
    (parent : Option OpState) (now later : ℕ) where
  -- `Publish`: `send` is the channel.
  unfoldable pub publish :
      (OpState → List (String × List ℕ))
      → (FieldMap → OpState → Process → OpState × Process × Outcome)
      → List ℕ
      → List ℕ
      → Option FieldMap
      → Process
      → Process × Outcome
  unfolding run publish_body
  publish pairs send exchange key headers p =
      run makes between show (codes "rabbit.publish " ++ (exchange ++ (codes "/" ++ key)))
        (publish_subject exchange key) span parent now later (publish_body pairs send headers) p

  -- The function that `Consume` returns; the error of the outcome is not looked at.
  unfoldable pub consume :
      (OpState → Process → OpState × Process × Outcome)
      → List ℕ
      → List ℕ
      → List ℕ
      → Process
      → Process × Outcome
  unfolding run
  consume fn name exchange key p =
      run makes between show (codes "rabbit.consume " ++ name) (consume_subject name exchange key)
        span parent now later fn p
