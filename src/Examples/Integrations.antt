-- ===== src/Examples/Integrations.antt =====
-- Concrete inputs for the theorems about the packages that instrument other libraries.
use obs_brutal.Prelude.{
  ℕ, String, ◌≡◌, refl, none, some, List, [], ◌∷◌, bytes_keys, string_keys, nat_keys, lookup,
  insert, codes,
}
use obs_brutal.Domain.Value.{FieldMap, text, number}
use obs_brutal.Boeng.Metrics.Cache.{IsNext_refl}
use obs_brutal.Boeng.Run.{Process, OpState, start_op}
use obs_brutal.Boeng.Http.{
  Request, Trip, answered, outgoing_subject, round_trip, write_header, writer_calls, new_writer,
}
use obs_brutal.Boeng.Http.Transport.{IsTripped, round_trip-IsTripped}
use obs_brutal.Boeng.Mongo.{
  Command, CommandEvent, command_started, command_succeeded, command_failed, command_event,
  command_events,
}
use obs_brutal.Boeng.Mongo.Flights.{IsFlown, command_events-IsFlown}
use obs_brutal.Boeng.Rabbit.{carrier_get, inject}
use obs_brutal.Boeng.Redis.{string_argument, other_argument, args_as_string}
use obs_brutal.Examples.Operations.{always, quiet, fresh-IsValid, show, span, process}

-- An informational status is the one that is remembered.
early_hints : (writer_calls (write_header 103 ∷ write_header 500 ∷ []) new_writer).status ≡ 103
unfolding writer_calls
early_hints = refl

abbrev order_request : Request
order_request = record {
  method = codes "POST";
  path = codes "/orders";
  remote = codes "10.0.0.1";
  host = codes "shop";
  url = codes "http://shop/orders";
}

-- An upstream that answers 503.
abbrev busy : Trip
busy = answered (some (503, codes "503 Service Unavailable")) none

abbrev busy_upstream : OpState → Process → OpState × Process × Trip
busy_upstream st p = (st, p, busy)

abbrev order_started : Process × OpState
order_started =
    start_op show (codes "HTTP POST shop") (outgoing_subject order_request) span none 1000000
      process

round_trip-IsTripped_example :
    IsTripped always quiet
      (IsNext_refl always)
      (λ n. refl)
      show
      order_started.1
      5000000
      busy
      order_started.0
      (round_trip always quiet show busy_upstream order_request span none 1000000 5000000 process)
unfolding start_op
round_trip-IsTripped_example =
    round_trip-IsTripped always quiet (IsNext_refl always) (λ n. refl) show busy_upstream
      order_request span none 1000000 5000000 process order_started.1 order_started.0 busy refl
      fresh-IsValid

abbrev find_orders : Command
find_orders = record {
  name = codes "find";
  database = codes "shop";
  collection = some (codes "orders");
}

-- Two commands at once, of which the first fails; a request that nobody started is reported too.
abbrev reports : List CommandEvent
reports =
    command_started 1 find_orders span none 1000000
    ∷ command_started 2 find_orders span none 2000000
    ∷ command_succeeded 9 2500000
    ∷ command_failed 1 (codes "timeout") 3000000
    ∷ []

command_events-IsFlown_example :
    IsFlown always quiet reports [] process (command_events always quiet show reports ([], process))
unfolding lookup command_event insert
command_events-IsFlown_example =
    command_events-IsFlown always quiet show reports [] process (record { once = tt; opened = tt })
      (refl, (refl, tt))

abbrev context_pairs : List (String × List ℕ)
context_pairs = ("traceparent", codes "00-4bf9-00f0-01") ∷ []

abbrev old_headers : FieldMap
old_headers = ("traceparent", number 7) ∷ ("x-retry", text (codes "2")) ∷ []

carrier_get_values :
    (carrier_get "traceparent" (inject context_pairs old_headers) ≡ codes "00-4bf9-00f0-01")
    × (carrier_get "baggage" (inject context_pairs old_headers) ≡ [])
unfolding inject carrier_get lookup insert
carrier_get_values = (refl, refl)

-- A number in a command is shown as nothing.
args_as_string_value :
    args_as_string
      (string_argument (codes "set") ∷ string_argument (codes "k") ∷ other_argument ∷ [])
    ≡ codes "k "
unfolding args_as_string
args_as_string_value = refl
