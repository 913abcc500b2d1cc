-- ===== src/Boeng/Redis.antt =====
-- The hooks on a redis client (boeng/redis/redis.go): the operations around dialling, commands and
-- pipelines, and the text of a command's arguments. What the client does is an argument.
pub mod Statement
use obs_brutal.Prelude.{
  ℕ, zero, suc, ◌+◌, ◌-◌, ◌*◌, ◌/◌, ◌%◌, ◌^◌, ◌≤◌, ◌<◌, min, max, String, ◌≡◌, refl, sym, ap, ◌∙◌,
  subst, ◌≢◌, ◌↔◌, ◌⊎◌, inl, inr, Bool, true, false, not, ◌&&◌, ◌||◌, Option, none, some, List, [],
  ◌∷◌, ◌++◌, map, append_assoc, append-nil, zero-add, suc-add, arith, ltb, leb, nat_eq,
  if◌then◌else◌, ltb→lt, lt→ltb, leb→le, le→leb, ltb_of_le, nat_eq_iff, tests, Bool-cases,
  Option-cases, is_some, length, is_empty, take, drop, replicate, get_elem?, keep, all, any, concat,
  All, length-append, length-snoc, snoc-ne-nil, length-drop, length-take, take-append-drop,
  length-replicate, length-keep-le, concat-append, concat-snoc, drop-append, All-append, All-drop,
  last_n, drop-nil, drop-drop, length-last_n, last_n_all, last_n-append, tally, tally-append,
  tally-concat-append, Key, bytes_eq, bytes_eq_iff, ◌==◌, eq_refl, prefer, lookup, erase, insert,
  insert_all, IsMap, lookup-insert, lookup-erase, length-insert-le, length-insert_present,
  length-insert_absent, lookup-insert_all, insert-IsMap, insert_all-IsMap, range_into, ranged,
  lookup-range_into, range_into-IsMap, codes, as_string, is_upper, is_lower, is_digit, to_lower,
  has_prefix, contains,
}
use obs_brutal.Domain.Value.{Value, text, number}
use obs_brutal.Boeng.Fields.{Subject, loggable}
use obs_brutal.Boeng.Metrics.{Metrics}
use obs_brutal.Boeng.Op.{Outcome, returns, panics, exits}
use obs_brutal.Boeng.Run.{Span, Process, OpState, run}

-- An argument of a command: a string, or a value of another type.
pub data Argument : Type 0 where
  string_argument : List ℕ → Argument
  other_argument : Argument

-- The switch in the loop, with `redisArgString` for what is no string.
unfoldable pub argument_text : Argument → List ℕ
argument_text (string_argument s) = s
argument_text other_argument = []

-- The bytes of `…`.
abbrev pub ellipsis : List ℕ
ellipsis = 226 ∷ 128 ∷ 166 ∷ []

-- The loop, with what is written before an argument and what the builder has.
unfoldable pub arguments_from : List ℕ → List ℕ → List Argument → List ℕ
unfolding argument_text
arguments_from separator b [] = b
arguments_from separator b (a ∷ args) =
    let b' = b ++ (separator ++ argument_text a) in
    let rest = arguments_from (codes " ") b' args in
    if ltb 256 (length b') then b' ++ ellipsis else rest

-- `argsAsString`.
unfoldable pub args_as_string : List Argument → List ℕ
unfolding arguments_from
args_as_string [] = []
args_as_string (name ∷ args) = arguments_from [] [] args

-- The maps that `LogFields` of the three subjects return.
unfoldable pub dial_subject : List ℕ → List ℕ → Subject
dial_subject network addr = loggable (
    some (
      ("db.system", text (codes "redis"))
      ∷ ("net.peer.name", text addr)
      ∷ ("net.transport", text network)
      ∷ []))

unfoldable pub command_subject : List ℕ → List Argument → Subject
unfolding args_as_string
command_subject command args = loggable (
    some (
      ("db.system", text (codes "redis"))
      ∷ ("db.command", text command)
      ∷ ("db.statement", text (args_as_string args))
      ∷ []))

unfoldable pub pipeline_subject : ℕ → Subject
pipeline_subject n =
    loggable (some (("db.system", text (codes "redis")) ∷ ("db.redis.pipeline.n", number n) ∷ []))

-- A dial: a connection or an error, or it does not return.
pub data Dialled : Type 0 where
  connected : ℕ → Dialled
  refused : List ℕ → Dialled
  dial_panics : List ℕ → Dialled
  dial_exits : Dialled

unfoldable pub dial_outcome : Dialled → Outcome
dial_outcome (connected c) = returns none
dial_outcome (refused e) = returns (some e)
dial_outcome (dial_panics r) = panics r
dial_outcome dial_exits = exits

unfoldable pub dial_body :
    (OpState → Process → OpState × Process × Dialled)
    → OpState
    → Process
    → OpState × Process × Outcome
unfolding dial_outcome
dial_body next st p = let done = next st p in (done.0, done.1, dial_outcome done.2)

module _ (makes : List ℕ → Bool) (between : Metrics → Metrics) (show : Value → String) (span : Span)
    (parent : Option OpState) (now later : ℕ) where
  -- `DialHook`, up to the connection, which is the one that the next hook gave.
  unfoldable pub dial_hook :
      (OpState → Process → OpState × Process × Dialled)
      → List ℕ
      → List ℕ
      → Process
      → Process × Outcome
  unfolding run dial_body
  dial_hook next network addr p =
      run makes between show (codes "redis.dial") (dial_subject network addr) span parent now later
        (dial_body next) p

  -- `ProcessHook` and `ProcessPipelineHook`.
  unfoldable pub process_hook :
      (OpState → Process → OpState × Process × Outcome)
      → List ℕ
      → List Argument
      → Process
      → Process × Outcome
  unfolding run
  process_hook next command args p =
      run makes between show (codes "redis." ++ command) (command_subject command args) span parent
        now later next p

  unfoldable pub process_pipeline_hook :
      (OpState → Process → OpState × Process × Outcome) → ℕ → Process → Process × Outcome
  unfolding run
  process_pipeline_hook next n p =
      run makes between show (codes "redis.pipeline") (pipeline_subject n) span parent now later
        next p
