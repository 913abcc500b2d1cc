-- ===== src/Boeng/Http.antt =====
-- The instrumentation of net/http (boeng/http/http.go): the writer that remembers the status, the
-- middleware and the wrapper of a handler, and the transport. A request is its method, path, remote
-- address, host and URL as texts. What the propagator reads from the headers and writes into them goes
-- by the tracer, whose span is an argument.
pub mod Status
pub mod Transport
use obs_brutal.Prelude.{
  ℕ, zero, suc, ◌+◌, ◌-◌, ◌*◌, ◌/◌, ◌%◌, ◌^◌, ◌≤◌, ◌<◌, min, max, String, ◌≡◌, refl, sym, ap, ◌∙◌,
  subst, ◌≢◌, ◌↔◌, ◌⊎◌, inl, inr, Bool, true, false, not, ◌&&◌, ◌||◌, Option, none, some, List, [],
  ◌∷◌, ◌++◌, map, append_assoc, append-nil, zero-add, suc-add, arith, ltb, leb, nat_eq,
  if◌then◌else◌, ltb→lt, lt→ltb, leb→le, le→leb, ltb_of_le, nat_eq_iff, tests, Bool-cases,
  Option-cases, is_some, length, is_empty, take, drop, replicate, get_elem?, keep, all, any, concat,
  All, length-append, length-snoc, snoc-ne-nil, length-drop, length-take, take-append-drop,
  length-replicate, length-keep-le, concat-append, concat-snoc, drop-append, All-append, All-drop,
  last_n, drop-nil, drop-drop, length-last_n, last_n_all, last_n-append, tally, tally-append,
  tally-concat-append, Key, bytes_eq, bytes_eq_iff, ◌==◌, eq_refl, prefer, lookup, erase, insert,
  insert_all, IsMap, lookup-insert, lookup-erase, length-insert-le, length-insert_present,
  length-insert_absent, lookup-insert_all, insert-IsMap, insert_all-IsMap, range_into, ranged,
  lookup-range_into, range_into-IsMap, codes, as_string, is_upper, is_lower, is_digit, to_lower,
  has_prefix, contains,
}
use obs_brutal.Domain.Value.{Value, text}
use obs_brutal.Boeng.Fields.{Subject, loggable}
use obs_brutal.Boeng.Metrics.{Metrics}
use obs_brutal.Boeng.Op.{Outcome, returns, panics, exits}
use obs_brutal.Boeng.Run.{Span, Process, OpState, start_op, run}

-- What a handler does to its writer.
pub data WriterCall : Type 0 where
  write_header : ℕ → WriterCall
  write : List ℕ → WriterCall

-- `statusWriter`, with the calls that it has passed on to the writer it wraps.
pub record StatusWriter : Type 0 where
  pub status : ℕ
  pub wrote_header : Bool
  pub passed : List WriterCall

abbrev pub new_writer : StatusWriter
new_writer = record { status = 200; wrote_header = false; passed = [] }

-- `WriteHeader` and `Write`.
unfoldable pub writer_call : WriterCall → StatusWriter → StatusWriter
writer_call (write_header code) w = record {
  status = if w.wrote_header then w.status else code;
  wrote_header = true;
  passed = w.passed ++ write_header code ∷ [];
}
writer_call (write b) w = record w { wrote_header = true; passed = w.passed ++ write b ∷ [] }

unfoldable pub writer_calls : List WriterCall → StatusWriter → StatusWriter
unfolding writer_call
writer_calls [] w = w
writer_calls (c ∷ cs) w = writer_calls cs (writer_call c w)

pub record Request : Type 0 where
  pub method : List ℕ
  pub path : List ℕ
  pub remote : List ℕ
  pub host : List ℕ
  pub url : List ℕ

-- `requestSubject` and `outgoingSubject`, with the maps that their `LogFields` return.
unfoldable pub request_subject : Request → Subject
request_subject r = loggable (
    some (
      ("http.method", text r.method)
      ∷ ("http.path", text r.path)
      ∷ ("http.remote", text r.remote)
      ∷ []))

unfoldable pub outgoing_subject : Request → Subject
outgoing_subject r =
    loggable (some (("http.method", text r.method) ∷ ("http.url", text r.url) ∷ []))

-- How a handler ends.
pub data Ending : Type 0 where
  served : Ending
  panicked : List ℕ → Ending
  left : Ending

-- What a handler does: to the operation of its context and the process, the calls on its writer and
-- its end.
abbrev pub Serve : Type 0
Serve = OpState → Process → OpState × Process × List WriterCall × Ending

-- The end of the function that `Run` is given; `status_text` is `http.StatusText`.
unfoldable pub handler_outcome : (ℕ → List ℕ) → Ending → StatusWriter → Outcome
handler_outcome status_text served w =
    if leb 500 w.status then returns (some (status_text w.status)) else returns none
handler_outcome status_text (panicked r) w = panics r
handler_outcome status_text left w = exits

unfoldable pub handler_body : (ℕ → List ℕ) → Serve → OpState → Process → OpState × Process × Outcome
unfolding handler_outcome
handler_body status_text serve st p =
    let done = serve st p in
    (done.0, done.1, handler_outcome status_text done.3 (writer_calls done.2 new_writer))

-- The answer of an inner transport: a response with its status code and text, or none, and an error;
-- or it does not return.
pub data Trip : Type 0 where
  answered : Option (ℕ × List ℕ) → Option (List ℕ) → Trip
  trip_panics : List ℕ → Trip
  trip_exits : Trip

-- The text of the panic of a read through a nil response.
abbrev pub nil_dereference : List ℕ
nil_dereference = codes "runtime error: invalid memory address or nil pointer dereference"

unfoldable pub trip_outcome : Trip → Outcome
trip_outcome (answered resp (some e)) = returns (some e)
trip_outcome (answered none none) = panics nil_dereference
trip_outcome (answered (some (code, status)) none) =
    if leb 500 code then returns (some (codes "upstream " ++ status)) else returns none
trip_outcome (trip_panics r) = panics r
trip_outcome trip_exits = exits

-- The two variables that the function sets.
unfoldable pub trip_body :
    (OpState → Process → OpState × Process × Trip) → OpState → Process → OpState × Process × Outcome
unfolding trip_outcome
trip_body inner st p = let done = inner st p in (done.0, done.1, trip_outcome done.2)

-- What a transport gives back to its caller.
unfoldable pub trip_result : Trip → Outcome → Trip
trip_result t (panics r) = trip_panics r
trip_result t exits = trip_exits
trip_result t (returns e) = t

module _ (makes : List ℕ → Bool) (between : Metrics → Metrics) (show : Value → String) where
  -- `Wrap`: the process, the outcome, whose error is not looked at.
  unfoldable pub wrap :
      (ℕ → List ℕ)
      → List ℕ
      → Serve
      → Request
      → Span
      → Option OpState
      → ℕ
      → ℕ
      → Process
      → Process × Outcome
  unfolding run handler_body
  wrap status_text name serve r span parent now later p =
      run makes between show name (request_subject r) span parent now later
        (handler_body status_text serve) p

  -- `Middleware`.
  unfoldable pub middleware :
      (ℕ → List ℕ) → Serve → Request → Span → Option OpState → ℕ → ℕ → Process → Process × Outcome
  unfolding wrap
  middleware status_text serve r span parent now later p =
      wrap status_text (r.method ++ (codes " " ++ r.path)) serve r span parent now later p

  -- `RoundTrip`, of the transport over `inner`, whose answer the function leaves in the results.
  unfoldable pub round_trip :
      (OpState → Process → OpState × Process × Trip)
      → Request
      → Span
      → Option OpState
      → ℕ
      → ℕ
      → Process
      → Process × Trip
  unfolding run trip_body trip_result
  round_trip inner r span parent now later p =
      let name = codes "HTTP " ++ (r.method ++ (codes " " ++ r.host)) in
      let started = start_op show name (outgoing_subject r) span parent now p in
      let done =
        run makes between show name (outgoing_subject r) span parent now later (trip_body inner)
          p in
      (done.0, trip_result (inner started.1 started.0).2 done.1)
