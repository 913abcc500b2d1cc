-- ===== src/Boeng/Http/Status.antt =====
-- The status that the writer of boeng/http/http.go remembers, and what it makes of the operation of a
-- request.
use obs_brutal.Prelude.{
  ℕ, String, ◌≡◌, refl, sym, ap, ◌∙◌, Bool, true, Option, none, some, List, [], ◌∷◌, ◌++◌,
  append_assoc, append-nil, arith, ltb, if◌then◌else◌,
}
use obs_brutal.Domain.Value.{Value}
use obs_brutal.Boeng.Metrics.{Metrics}
use obs_brutal.Boeng.Metrics.Cache.{IsValid, IsNext}
use obs_brutal.Boeng.Op.{Outcome, returns, panics, exits}
use obs_brutal.Boeng.Run.{Span, Process, OpState, start_op}
use obs_brutal.Boeng.Run.Completion.{IsCompletion, run-IsCompletion}
use obs_brutal.Boeng.Http.{
  WriterCall, write_header, write, StatusWriter, new_writer, writer_call, writer_calls, Request,
  request_subject, Ending, served, panicked, left, Serve, handler_outcome, handler_body, wrap,
}

-- The status of a reply by the first call on its writer.
abbrev pub first_status : List WriterCall → ℕ
first_status [] = 200
first_status (write_header code ∷ cs) = code
first_status (write b ∷ cs) = 200

written :
    (cs : List WriterCall) (w : StatusWriter)
    → w.wrote_header ≡ true
    → ((writer_calls cs w).status ≡ w.status) × ((writer_calls cs w).passed ≡ w.passed ++ cs)
unfolding writer_calls
written [] w h = (refl, sym (append-nil w.passed))
written (write_header code ∷ cs) w h =
    let rest = written cs (writer_call (write_header code) w) refl in
    (rest.0 ∙ simp h, rest.1 ∙ append_assoc w.passed (write_header code ∷ []) cs)
written (write b ∷ cs) w h =
    let rest = written cs (writer_call (write b) w) refl in
    (rest.0, rest.1 ∙ append_assoc w.passed (write b ∷ []) cs)

-- The writer remembers what the first call decided and passes every call on.
writer_calls_lem :
    (cs : List WriterCall)
    → ((writer_calls cs new_writer).status ≡ first_status cs)
      × ((writer_calls cs new_writer).passed ≡ cs)
unfolding writer_calls
writer_calls_lem [] = (refl, refl)
writer_calls_lem (write_header code ∷ cs) =
    written cs (writer_call (write_header code) new_writer) refl
writer_calls_lem (write b ∷ cs) = written cs (writer_call (write b) new_writer) refl

-- The end of the operation, from the status of the reply.
abbrev pub reply_outcome : (ℕ → List ℕ) → Ending → ℕ → Outcome
reply_outcome status_text served code =
    returns (if ltb code 500 then none else some (status_text code))
reply_outcome status_text (panicked r) code = panics r
reply_outcome status_text left code = exits

handler_outcome_lem :
    (status_text : ℕ → List ℕ) (e : Ending) (cs : List WriterCall)
    → handler_outcome status_text e (writer_calls cs new_writer)
      ≡ reply_outcome status_text e (first_status cs)
unfolding handler_outcome
handler_outcome_lem status_text served cs = simp ((writer_calls_lem cs).0) (ground arith)
handler_outcome_lem status_text (panicked r) cs = refl
handler_outcome_lem status_text left cs = refl

handler_body_lem :
    (status_text : ℕ → List ℕ) (serve : Serve) (st₀ : OpState) (p : Process) (st : OpState)
    (q : Process) (cs : List WriterCall) (e : Ending)
    → serve st₀ p ≡ (st, q, cs, e)
    → handler_body status_text serve st₀ p ≡ (st, q, reply_outcome status_text e (first_status cs))
unfolding handler_body
handler_body_lem status_text serve st₀ p st q cs e h =
    rw h (ap (λ o. (st, q, o)) (handler_outcome_lem status_text e cs))

module _ (makes : List ℕ → Bool) (between : Metrics → Metrics)
    (kept : (m : Metrics) → IsValid makes m → IsNext makes m (between m))
    (every : (n : List ℕ) → makes n ≡ true) (show : Value → String) (status_text : ℕ → List ℕ) where
  -- A request is one operation: it is completed once, with a failure when the handler panicked or the
  -- first call on its writer gave a status of 500 or more, and without one when that was lower, when
  -- the first call wrote a body, or when there was none. The panic goes on to the caller.
  pub wrap-IsCompletion :
      (name : List ℕ) (serve : Serve) (r : Request) (span : Span) (parent : Option OpState)
      (now later : ℕ) (p : Process) (st : OpState) (q : Process) (cs : List WriterCall) (e : Ending)
      → (let started = start_op show name (request_subject r) span parent now p in
          serve started.1 started.0 ≡ (st, q, cs, e))
      → IsValid makes q.metrics
      → ((wrap makes between show status_text name serve r span parent now later p).1
          ≡ reply_outcome status_text e (first_status cs))
        × IsCompletion makes between kept every st later
            (reply_outcome status_text e (first_status cs))
            q
            (wrap makes between show status_text name serve r span parent now later p).0
  unfolding wrap
  wrap-IsCompletion name serve r span parent now later p st q cs e h v =
      run-IsCompletion makes between kept every show name (request_subject r) span parent now later
        (handler_body status_text serve) p st q (reply_outcome status_text e (first_status cs))
        (handler_body_lem status_text serve _ _ st q cs e h) v
