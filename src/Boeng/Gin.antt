-- ===== src/Boeng/Gin.antt =====
-- The middleware for gin (boeng/gin/gin.go): the name and the subject of the operation of a request,
-- and the function that it runs. The rest of the chain is an argument, with the errors that it leaves
-- in gin's context, by their messages.
use obs_brutal.Prelude.{
  ℕ, String, Bool, Option, none, some, List, [], ◌∷◌, ◌++◌, if◌then◌else◌, is_empty, codes,
}
use obs_brutal.Domain.Value.{Value, text}
use obs_brutal.Boeng.Fields.{Subject, loggable}
use obs_brutal.Boeng.Metrics.{Metrics}
use obs_brutal.Boeng.Op.{Outcome, returns, panics, exits}
use obs_brutal.Boeng.Run.{Span, Process, OpState, run}
use obs_brutal.Boeng.Http.{Ending, served, panicked, left}

-- `route` is what `FullPath` gives, empty where no route matched.
pub record GinRequest : Type 0 where
  pub method : List ℕ
  pub route : List ℕ
  pub path : List ℕ
  pub client_ip : List ℕ

unfoldable pub gin_name : GinRequest → List ℕ
gin_name r = r.method ++ (codes " " ++ (if is_empty r.route then r.path else r.route))

unfoldable pub gin_subject : GinRequest → Subject
gin_subject r = loggable (
    some (
      ("http.method", text r.method)
      ∷ ("http.route", text r.route)
      ∷ ("http.path", text r.path)
      ∷ ("http.remote", text r.client_ip)
      ∷ []))

-- `c.Errors.Last()`.
last_error : List (List ℕ) → Option (List ℕ)
last_error [] = none
last_error (e ∷ []) = some e
last_error (e ∷ f ∷ es) = last_error (f ∷ es)

unfoldable pub chain_outcome : Ending → List (List ℕ) → Outcome
unfolding last_error
chain_outcome served errors = returns (last_error errors)
chain_outcome (panicked r) errors = panics r
chain_outcome left errors = exits

unfoldable pub chain_body :
    (OpState → Process → OpState × Process × List (List ℕ) × Ending)
    → OpState
    → Process
    → OpState × Process × Outcome
unfolding chain_outcome
chain_body next st p = let done = next st p in (done.0, done.1, chain_outcome done.3 done.2)

-- `Middleware`.
unfoldable pub gin_middleware :
    (List ℕ → Bool)
    → (Metrics → Metrics)
    → (Value → String)
    → (OpState → Process → OpState × Process × List (List ℕ) × Ending)
    → GinRequest
    → Span
    → Option OpState
    → ℕ
    → ℕ
    → Process
    → Process × Outcome
unfolding run chain_body
gin_middleware makes between show next r span parent now later p =
    run makes between show (gin_name r) (gin_subject r) span parent now later (chain_body next) p
