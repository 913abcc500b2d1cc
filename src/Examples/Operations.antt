-- ===== src/Examples/Operations.antt =====
-- The operations, names and metrics of boeng at concrete values.
use obs_brutal.Prelude.{
  ℕ, String, ◌≡◌, refl, Bool, true, false, Option, none, some, List, [], ◌∷◌, ◌++◌, arith, length,
  bytes_keys, string_keys, nat_keys, lookup, insert, codes,
}
use obs_brutal.Domain.Level.{info_level}
use obs_brutal.Domain.Value.{Value, FieldMap, text, number}
use obs_brutal.Base.Unified.{new_unified}
use obs_brutal.Boeng.Names.{sanitize_metric_name, IsMetricName, sanitize_metric_name-IsMetricName}
use obs_brutal.Boeng.Fields.{mask_email, camel_to_snake, Subject, nothing, fields, extract_fields}
use obs_brutal.Boeng.Metrics.{
  Metrics, both_metrics, is_per_op, is_labeled, configure_metrics, metric_labels,
}
use obs_brutal.Boeng.Metrics.Record.{record_op, then_per_op, record_labeled_op}
use obs_brutal.Boeng.Metrics.Allowed.{IsAllowed, configured_statics, metric_labels-IsAllowed}
use obs_brutal.Boeng.Metrics.Cache.{IsValid, IsNext_refl}
use obs_brutal.Boeng.Metrics.Samples.{OpRecorded, record_op-OpRecorded}
use obs_brutal.Boeng.Op.{
  Outcome, returns, panics, new_op, OpCall, failed, stepped, closes, closes_with, calls,
  first_close, finished, calls_once,
}
use obs_brutal.Boeng.Run.{Span, Process, OpState, start_op, run, op_fields, emit}
use obs_brutal.Boeng.Run.Completion.{IsCompletion, run-IsCompletion}
use obs_brutal.Boeng.Run.Events.{emit-op_fields}
use obs_brutal.Boeng.Start.{
  Config, Environment, no_registry, has_stop, choose_provider, export_via_boeng, root_logger,
  new_obs, register, init, close_previous, close_obs, close_found, close_open,
}
use obs_brutal.Boeng.Start.Lifecycle.{
  RegistryCall, inits, shuts, registry_call, registry_calls, IsTidy, registry_calls-IsTidy,
}
use obs_brutal.Boeng.Start.Root.{root_logger-has_stop}

-- The examples of the comment on the function.
sanitize_metric_name_values :
    (sanitize_metric_name (codes "create_user") ≡ codes "create_user")
    × (sanitize_metric_name (codes "GET /users/:id") ≡ codes "get_users_id")
    × (sanitize_metric_name (codes "  weird!!name ") ≡ codes "weird_name")
unfolding sanitize_metric_name
sanitize_metric_name_values = (refl, refl, refl)

-- An underscore that is written at the start stays.
sanitize_metric_name_leading : sanitize_metric_name (codes "__id") ≡ codes "__id"
unfolding sanitize_metric_name
sanitize_metric_name_leading = refl

sanitize_metric_name_example :
    IsMetricName (sanitize_metric_name (codes "GET /users/:id"))
    × (sanitize_metric_name (sanitize_metric_name (codes "GET /users/:id"))
        ≡ sanitize_metric_name (codes "GET /users/:id"))
sanitize_metric_name_example = sanitize_metric_name-IsMetricName (codes "GET /users/:id")

camel_to_snake_values :
    (camel_to_snake (codes "UserID") ≡ codes "user_id")
    × (camel_to_snake (codes "HTTPServer") ≡ codes "http_server")
unfolding camel_to_snake
camel_to_snake_values = (refl, refl)

mask_email_value : mask_email (codes "alice@example.com") ≡ codes "a***e@example.com"
unfolding mask_email
mask_email_value = refl

abbrev pub always : List ℕ → Bool
always n = true

abbrev pub quiet : Metrics → Metrics
quiet m = m

abbrev pub fresh : Metrics
fresh = record {
  provider = 1;
  shape = both_metrics;
  label_allowed = "service" ∷ "env" ∷ [];
  statics = ("service", "shop") ∷ [];
  ops = [];
  events = [];
  op_overflow = none;
  event_overflow = none;
  labeled_set = none;
  labeled_ops = [];
}

pub fresh-IsValid : IsValid always fresh
unfolding lookup
fresh-IsValid = record {
  ops_capped = omega arith;
  events_capped = omega arith;
  labels_capped = omega arith;
  ops_made = λ k s e. absurd cc;
  events_made = λ k s e. absurd cc;
  op_overflow_made = λ s e. absurd cc;
  event_overflow_made = λ s e. absurd cc;
  labeled_made = λ s e. absurd cc;
}

-- Both shapes of one operation that failed: four samples.
record_op_samples : length (record_op always quiet (codes "pay") 2000000 true false [] fresh).1 ≡ 4
unfolding record_op then_per_op is_per_op is_labeled record_labeled_op lookup
record_op_samples = refl

record_op-OpRecorded_example :
    OpRecorded always quiet
      (IsNext_refl always)
      (λ n. refl)
      (codes "pay")
      2000000
      true
      false
      []
      fresh
      (record_op always quiet (codes "pay") 2000000 true false [] fresh)
record_op-OpRecorded_example =
    record_op-OpRecorded always quiet (IsNext_refl always) (λ n. refl) (codes "pay") 2000000 true
      false [] fresh fresh-IsValid

abbrev reports :
    Option (List ℕ) → Bool → List (Option (List ℕ) × Bool) → List (Option (List ℕ) × Bool)
reports e p s = s ++ (e, p) ∷ []

-- A step fails, the caller closes with another error, and the deferred call closes again.
abbrev some_calls : List OpCall
some_calls =
    stepped (returns (some (codes "no stock")))
    ∷ closes_with none (some (codes "not paid"))
    ∷ failed (some (codes "late"))
    ∷ closes none
    ∷ []

calls_once_example :
    (calls reports some_calls new_op []).1 ≡ finished reports (first_close none some_calls) []
calls_once_example = calls_once reports some_calls []

calls_value : (calls reports some_calls new_op []).1 ≡ (some (codes "not paid"), false) ∷ []
unfolding calls
calls_value = refl

abbrev pub show : Value → String
show v = "v"

-- A subject with a field on the list, one that is not on it, and one that is named like a label of the
-- configuration.
abbrev customer : FieldMap
customer = ("service", text (codes "x")) ∷ ("user_id", number 7) ∷ ("plan", text (codes "pro")) ∷ []

metric_labels-IsAllowed_example :
    IsAllowed show ("service" ∷ "env" ∷ "plan" ∷ []) (configured_statics "shop" "") customer (
      metric_labels show false
        (fields (some customer))
        (configure_metrics ("plan" ∷ []) both_metrics "shop" "" fresh))
unfolding extract_fields lookup
metric_labels-IsAllowed_example =
    metric_labels-IsAllowed show false ("plan" ∷ []) both_metrics "shop" "" fresh
      (fields (some customer)) (refl, (refl, (refl, tt)))

metric_labels_value :
    metric_labels show false
      (fields (some customer))
      (configure_metrics ("plan" ∷ []) both_metrics "shop" "" fresh)
    ≡ ("service", "shop") ∷ ("plan", "v") ∷ []
unfolding metric_labels configure_metrics extract_fields lookup
metric_labels_value = refl

abbrev pub span : Span
span = record { id = 1; is_recording = true; ids = some (codes "4bf9", codes "00f0") }

abbrev pub process : Process
process = record {
  world = record { writes = []; counts = λ _. 0 };
  metrics = fresh;
  samples = [];
  spans = [];
  root = new_unified 0 1 info_level (some 4 ∷ []);
  include_zero = false;
  quiet_ops = false;
  emit_level = info_level;
}

-- A function that panics at once.
abbrev panicking : OpState → Process → OpState × Process × Outcome
panicking st p = (st, p, panics (codes "boom"))

abbrev pay_started : Process × OpState
pay_started = start_op show (codes "pay") nothing span none 1000000 process

run-IsCompletion_example :
    ((run always quiet show (codes "pay") nothing span none 1000000 5000000 panicking process).1
      ≡ panics (codes "boom"))
    × IsCompletion always quiet
        (IsNext_refl always)
        (λ n. refl)
        pay_started.1
        5000000
        (panics (codes "boom"))
        pay_started.0
        (run always quiet show (codes "pay") nothing span none 1000000 5000000 panicking process).0
unfolding start_op
run-IsCompletion_example =
    run-IsCompletion always quiet (IsNext_refl always) (λ n. refl) show (codes "pay") nothing span
      none 1000000 5000000 panicking process pay_started.1 pay_started.0 (panics (codes "boom"))
      refl fresh-IsValid

abbrev order : FieldMap
order = ("amount", number 7) ∷ []

abbrev after_event : Option (Process × Subject)
after_event = emit always quiet show none none (codes "validated") (fields (some order)) 9 process

emit-op_fields_example :
    lookup "event" (
      op_fields false
        (codes "pay")
        (fields (some (insert "event" (text (codes "validated")) order))))
    ≡ some (text (codes "validated"))
unfolding lookup emit insert
emit-op_fields_example =
    emit-op_fields always quiet show none none (codes "validated") (codes "pay") order 9 process _
      (fields (some (insert "event" (text (codes "validated")) order))) false (refl, tt) refl

-- A configuration that asks for an asynchronous logger, in a process without telemetry.
abbrev pub shop : Config
shop = record {
  service = codes "shop";
  version = [];
  env = [];
  otel = [];
  loki = [];
  level = info_level;
  async = true;
  quiet_ops = false;
  emit_level = info_level;
  include_zero_fields = false;
  metric_schema = both_metrics;
  metric_labels = [];
}

abbrev pub bare_process : Environment
bare_process = record {
  adoptable = false;
  export_configured = false;
  exporting_made = none;
  adopting_made = false;
  no_export_made = true;
  stdout = 1;
  loki_sink = 2;
  counter = 3;
  test_sink = none;
}

root_logger-has_stop_example : has_stop (root_logger bare_process shop) ≡ false
unfolding choose_provider export_via_boeng
root_logger-has_stop_example = root_logger-has_stop bare_process shop refl (λ e. cc)

-- Two starts, with a `Close` of the second one and of one that was never made.
abbrev restarts : List RegistryCall
restarts = inits bare_process shop ∷ inits bare_process shop ∷ shuts 1 ∷ shuts 7 ∷ []

registry_calls-IsTidy_example : IsTidy (registry_calls restarts no_registry)
registry_calls-IsTidy_example = registry_calls-IsTidy restarts

registry_calls_shut : (registry_calls restarts no_registry).shut ≡ 0 ∷ 1 ∷ []
unfolding registry_calls registry_call init register new_obs choose_provider close_previous
    close_obs close_found close_open insert lookup export_via_boeng
registry_calls_shut = refl
