-- ===== src/Examples/Reports.antt =====
-- The security logger, the logger with telemetry, alerts and JSON at concrete values.
use obs_brutal.Prelude.{
  ℕ, zero, suc, ◌+◌, String, ◌≡◌, refl, true, false, none, some, List, [], ◌∷◌, arith,
  if◌then◌else◌, bytes_keys, string_keys, nat_keys, lookup, codes,
}
use obs_brutal.Domain.Level.{warn_level, info_level}
use obs_brutal.Domain.Value.{text}
use obs_brutal.Domain.Entry.{LogEntry, bare_entry, entries_of}
use obs_brutal.Base.Unified.{new_unified}
use obs_brutal.Base.Pipeline.{Fails, Interference, Waiting, new_pipeline}
use obs_brutal.Strategy.Manager.{new_manager}
use obs_brutal.Otel.{AsyncStats, hook_calls}
use obs_brutal.Otel.Totals.{IsExported, latest, hook_calls-IsExported}
use obs_brutal.Security.Access.{new_access_control, set_field_access}
use obs_brutal.Security.Audit.{new_audit_trail}
use obs_brutal.Security.Secured.{
  SecurityLog, SecureCall, secure_calls, seen_by_all, lookup-secure_calls,
}
use obs_brutal.Sinks.Alerts.{
  Response, answered, transport_failed, post_once, gives_up, deliver_alert,
}
use obs_brutal.Sinks.Alerts.Budget.{IsDelivery, deliver_alert-IsDelivery}
use obs_brutal.Util.Json.{is_reserved, json_members}
use obs_brutal.Util.Json.Members.{own_value, lookup-json_members}

abbrev reading : ℕ → ℕ → AsyncStats
reading n q = record { processed = n; dropped = 1; batches = n; errors = 0; queue_size = q }

hook_calls-IsExported_example :
    IsExported
      (reading 0 0)
      (latest (reading 0 0) (reading 3 1 ∷ reading 1500 0 ∷ []))
      (hook_calls (reading 0 0) (reading 3 1 ∷ reading 1500 0 ∷ []))
hook_calls-IsExported_example =
    hook_calls-IsExported (reading 0 0) (reading 3 1 ∷ reading 1500 0 ∷ []) (
      omega arith,
      omega arith,
      omega arith,
      omega arith,
      (omega arith, omega arith, omega arith, omega arith, tt),
    )

abbrev never : Fails LogEntry
never s n x = false

abbrev alone : Interference LogEntry
alone p = p

abbrev waiting : Waiting LogEntry
waiting = record { others = alone; fires = false }

abbrev ids_of : ℕ → List ℕ × List ℕ
ids_of c = ([], [])

-- A logger with an e-mail address that only an administrator may see.
abbrev secured : SecurityLog
secured = record {
  otel = record {
    strategy = record {
      base = record (new_unified 0 1 info_level (some 4 ∷ [])) {
        fields = ("email", text (codes "a@b")) ∷ [];
      };
    };
    has_provider = true;
  };
  access_control =
      set_field_access "email"
        (record {
          allowed_roles = "admin" ∷ [];
          denied_roles = [];
          required_auth = true;
          log_access = false;
        })
        new_access_control;
  audit_trail = some (new_audit_trail 10000);
  security_enabled = true;
  world = record {
    shared = record {
      manager = new_manager;
      pipeline = new_pipeline 2 1 (some 4 ∷ []);
      counts = λ _. 0;
    };
    recorded = [];
  };
}

abbrev call_as : String → SecureCall
call_as role = record {
  level = warn_level;
  msg = codes "seen";
  user = codes "u1";
  role = role;
  authed = true;
  now = 9;
  drawn = 2;
  took = 1;
}

-- After a call for a guest the address is gone for the administrator too.
abbrev guest_then_admin : List SecureCall
guest_then_admin = call_as "guest" ∷ call_as "admin" ∷ []

lookup-secure_calls_example :
    lookup "email"
      (secure_calls ids_of never alone waiting alone guest_then_admin
        secured).otel.strategy.base.fields
    ≡ (if seen_by_all secured.access_control "email" guest_then_admin
        then lookup "email" secured.otel.strategy.base.fields
        else none)
unfolding lookup
lookup-secure_calls_example =
    lookup-secure_calls ids_of never alone waiting alone guest_then_admin secured "email" refl
      (refl, tt)

-- A remote end that is too busy, then unreachable, then refuses.
abbrev failing : ℕ → Response
failing zero = answered 503 (codes "503 busy")
failing (suc zero) = transport_failed (codes "Post https://hooks/secret") true
failing _ = answered 404 (codes "404 gone")

deliver_alert_value :
    (deliver_alert failing (λ k. 5000) (λ k. 0) (codes "slack") 0).posts ≡ 0 ∷ 5200 ∷ []
unfolding deliver_alert gives_up post_once
deliver_alert_value = refl

deliver_alert-IsDelivery_example :
    IsDelivery failing
      (λ k. 1000)
      (λ k. 0)
      (codes "slack")
      4
      0
      (0 + 8000 + 0 + 1000)
      (deliver_alert failing (λ k. 1000) (λ k. 0) (codes "slack") 0)
deliver_alert-IsDelivery_example =
    deliver_alert-IsDelivery failing (λ k. 1000) (λ k. 0) 1000 0 (λ k. omega arith)
      (λ k. omega arith) (codes "slack") 0

-- An entry whose fields have a name of the entry's own.
abbrev labelled : LogEntry
labelled = record (bare_entry info_level (codes "hello") 9) {
  fields = some (("level", text (codes "high")) ∷ ("amount", text (codes "7")) ∷ []);
}

abbrev as_date : ℕ → List ℕ
as_date t = codes "2024"

abbrev unsorted : List String → List String
unsorted ks = ks

lookup-json_members_example : lookup "level" (json_members as_date unsorted labelled) ≡ (
    if is_reserved "level"
    then own_value as_date labelled "level"
    else lookup "level" (entries_of labelled.fields))
lookup-json_members_example = lookup-json_members as_date unsorted labelled "level" (λ ks. refl)
