-- ===== src/Sinks/Alerts.antt =====
-- The alert sinks for Slack, Telegram and Opsgenie (internal/adapter/outbound/sink/alerts) and the
-- delivery that they share. Times are in milliseconds. What the remote end answers, how long a post
-- takes and how much longer than asked a sleep is are parameters, by the number of the attempt.
pub mod Budget
use obs_brutal.Prelude.{
  ℕ, zero, suc, ◌+◌, ◌-◌, ◌*◌, String, Bool, true, false, not, ◌||◌, Option, none, some, List, [],
  ◌∷◌, ◌++◌, ltb, leb, nat_eq, if◌then◌else◌, is_some, is_empty, codes,
}
use obs_brutal.Domain.Level.{level_string}
use obs_brutal.Domain.Entry.{LogEntry}

-- What becomes of a post: no request can be built, the transport fails with a text that has the URL
-- in it, or the remote end answers with a code and its text.
pub data Response : Type 0 where
  not_built : Response
  transport_failed : List ℕ → Bool → Response
  answered : ℕ → List ℕ → Response

-- `transportErrorKind`, by whether the error is a timeout.
abbrev pub transport_error_kind : Bool → List ℕ
transport_error_kind timeout = if timeout then codes "timeout" else codes "connection error"

-- `postOnce` for the sink `name`: whether to try again, and the error.
unfoldable pub post_once : List ℕ → Response → Bool × Option (List ℕ)
post_once name not_built = (false, some (name ++ codes ": build request failed"))
post_once name (transport_failed detail timeout) =
    (true, some (name ++ codes ": request failed: " ++ transport_error_kind timeout))
post_once name (answered code status) =
    if ltb code 300
    then (false, none)
    else if nat_eq code 429 || leb 500 code
    then (true, some (name ++ codes ": status " ++ status))
    else (false, some (name ++ codes ": status " ++ status ++ codes " (not retried)"))

abbrev pub alert_max_attempts : ℕ
alert_max_attempts = 4

abbrev pub alert_total_budget : ℕ
alert_total_budget = 8000

abbrev pub alert_max_retry_gap : ℕ
alert_max_retry_gap = 2000

-- Whether the loop returns after the attempt: it succeeded, is not to be tried again, was the last
-- one, or the next one would begin after the deadline.
unfoldable pub gives_up : Bool × Option (List ℕ) → ℕ → ℕ → ℕ → Bool
gives_up posted attempt deadline next =
    not (is_some posted.1)
    || not posted.0
    || nat_eq attempt (alert_max_attempts - 1)
    || ltb deadline next

-- What a delivery comes to: its error, when its posts began, and when it ended.
pub record Delivery : Type 0 where
  pub error : Option (List ℕ)
  pub posts : List ℕ
  pub ended : ℕ

module _ (answer : ℕ → Response) (took late : ℕ → ℕ) where
  -- The loop of `deliver` from the attempt `attempt` on, at the time `now`; `left` is how many
  -- rounds the loop has left.
  unfoldable pub deliver_from : ℕ → List ℕ → ℕ → ℕ → ℕ → ℕ → Option (List ℕ) → Delivery
  deliver_from zero name deadline attempt delay now last = record {
    error = last;
    posts = [];
    ended = now;
  }
  deliver_from (suc left) name deadline attempt delay now last =
      let posted = post_once name (answer attempt) in
      let after = now + took attempt in
      let next_delay = if ltb delay alert_max_retry_gap then delay * 2 else delay in
      let rest =
        deliver_from left name deadline (attempt + 1) next_delay (after + delay + late attempt)
          posted.1 in
      if gives_up posted attempt deadline (after + delay)
      then record { error = posted.1; posts = now ∷ []; ended = after }
      else record { error = rest.error; posts = now ∷ rest.posts; ended = rest.ended }

  unfoldable pub deliver_alert : List ℕ → ℕ → Delivery
  unfolding deliver_from
  deliver_alert name now =
      deliver_from alert_max_attempts name (now + alert_total_budget) 0 200 now none

-- A post: the URL, the headers and the body.
pub record PostConfig : Type 0 where
  pub name : List ℕ
  pub url : List ℕ
  pub headers : List (String × List ℕ)
  pub body : List ℕ

abbrev alert_text : LogEntry → List ℕ
alert_text e = codes "[" ++ level_string e.level ++ codes "] " ++ e.msg

pub record SlackSink : Type 0 where
  pub webhook_url : List ℕ

pub record TelegramSink : Type 0 where
  pub bot_token : List ℕ
  pub chat_id : List ℕ

pub record OpsgenieSink : Type 0 where
  pub api_key : List ℕ
  pub endpoint : List ℕ
  pub priority : List ℕ

-- `if v, ok := cfg[k].(string); ok && v != ""`, and the same without the second test.
abbrev or_kept : Option (List ℕ) → List ℕ → List ℕ
or_kept none old = old
or_kept (some v) old = if is_empty v then old else v

abbrev or_old : Option (List ℕ) → List ℕ → List ℕ
or_old none old = old
or_old (some v) old = v

-- The three `Configure`, by what the map has under their keys.
unfoldable pub configure_slack : Option (List ℕ) → SlackSink → SlackSink
configure_slack url s = record { webhook_url = or_kept url s.webhook_url }

unfoldable pub configure_telegram : Option (List ℕ) → Option (List ℕ) → TelegramSink → TelegramSink
configure_telegram token chat s = record {
  bot_token = or_old token s.bot_token;
  chat_id = or_old chat s.chat_id;
}

unfoldable pub configure_opsgenie :
    Option (List ℕ) → Option (List ℕ) → Option (List ℕ) → OpsgenieSink → OpsgenieSink
configure_opsgenie key endpoint priority s = record {
  api_key = or_old key s.api_key;
  endpoint = or_kept endpoint s.endpoint;
  priority = or_kept priority s.priority;
}

-- `marshal` is `json.Marshal` of a map of texts. The three `Write`, by the post that they deliver;
-- `none` is the end without one.
module _ (marshal : List (String × List ℕ) → List ℕ) where
  unfoldable pub slack_post : SlackSink → Option LogEntry → Option PostConfig
  slack_post s none = none
  slack_post s (some e) =
      if is_empty s.webhook_url
      then none
      else some record {
        name = codes "slack";
        url = s.webhook_url;
        headers = [];
        body = marshal (("text", alert_text e) ∷ []);
      }

  unfoldable pub telegram_post : TelegramSink → Option LogEntry → Option PostConfig
  telegram_post s none = none
  telegram_post s (some e) =
      if is_empty s.bot_token || is_empty s.chat_id
      then none
      else some record {
        name = codes "telegram";
        url = codes "https://api.telegram.org/bot" ++ s.bot_token ++ codes "/sendMessage";
        headers = [];
        body = marshal (("chat_id", s.chat_id) ∷ ("text", alert_text e) ∷ []);
      }

  unfoldable pub opsgenie_post : OpsgenieSink → Option LogEntry → Option PostConfig
  opsgenie_post s none = none
  opsgenie_post s (some e) =
      if is_empty s.api_key
      then none
      else some record {
        name = codes "opsgenie";
        url = s.endpoint;
        headers = ("Authorization", codes "GenieKey " ++ s.api_key) ∷ [];
        body = marshal (("message", alert_text e) ∷ ("priority", s.priority) ∷ []);
      }

-- The end of `Write`: nothing without a post, else the delivery.
module _ (answer : ℕ → Response) (took late : ℕ → ℕ) where
  unfoldable pub write_alert : Option PostConfig → ℕ → Delivery
  unfolding deliver_alert
  write_alert none now = record { error = none; posts = []; ended = now }
  write_alert (some cfg) now = deliver_alert answer took late cfg.name now
