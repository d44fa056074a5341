-- ===== src/Incident.antt =====
-- internal/incident/incident.go: the state machine that turns observations into incidents and
-- alerts. Parameters of one call, since they are answered elsewhere, are in `Turn`.
pub mod Observe
pub mod Run
use teploy_dash.Common.{
  ℕ, ◌+◌, ◌-◌, ◌/◌, String, Bool, true, false, not, ◌&&◌, Option, none, some, List, [], ◌∷◌, ltb,
  leb, if◌then◌else◌, ℤ, pos, pos_part, is_positive, ◌==◌, string_eq, join,
}
use teploy_dash.Alert.{Alert, AlertKind, opened, repeated, recovered, Audience, everyone}

pub record Policy : Type 0 where
  pub fail_after : ℤ
  pub recover_after : ℤ
  pub repeat_every : ℤ
  pub auto_resolve_after : ℤ

abbrev at_least_one : ℤ → ℤ
at_least_one n = if is_positive n then n else pos 1

-- Policy.normalized
unfoldable pub normalized : Policy → Policy
normalized p = record p {
  fail_after = at_least_one p.fail_after;
  recover_after = at_least_one p.recover_after;
}

pub record Rule : Type 0 where
  pub key : String
  pub source : String
  pub id : String
  pub name : String
  pub app : String
  pub server : String
  pub target : String
  pub severity : String
  pub path : String
  pub policy : Policy
  pub no_hold : Bool
  pub exclude_channels : List String

-- Rule.key
unfoldable pub key_of : Rule → String
key_of r = if not (r.key == "") then r.key else join (r.source ∷ ":" ∷ r.id ∷ [])

-- Times are nanoseconds since Go's zero time, so 0 is the zero time.
pub record Incident : Type 0 where
  pub key : String
  pub id : String
  pub source : String
  pub rule_id : String
  pub name : String
  pub app : String
  pub server : String
  pub target : String
  pub severity : String
  pub path : String
  pub message : String
  pub started_at : ℕ
  pub opened_at : ℕ
  pub notified : Bool
  pub last_notified_at : ℕ
  pub consecutive_failures : ℕ
  pub auto_resolve_at : ℕ
  pub exclude_channels : List String

pub record Held : Type 0 where
  pub key : String
  pub source : String
  pub rule_id : String
  pub name : String
  pub app : String
  pub reason : String
  pub since : ℕ
  pub consecutive_failures : ℕ

pub record Sample : Type 0 where
  pub ok : Bool
  pub at : ℕ

-- ruleState; `rule` is none before the first observation.
pub record RuleState : Type 0 where
  pub fails : ℕ
  pub oks : ℕ
  pub first_fail_at : ℕ
  pub held : Option Held
  pub rule : Option Rule
  pub last_message : String

-- `outgoing`; a held alert is journaled with a note and not sent.
pub data Outgoing : Type 0 where
  sent : Alert → Outgoing
  noted : Alert → String → Outgoing

-- The tracker, with the incidents that incidents.json holds.
pub record Tracker : Type 0 where
  pub states : List (String × RuleState)
  pub incidents : List (String × Incident)
  pub adopting : Bool
  pub disk : Option (List (String × Incident))

-- What the rest of the dashboard answers during one call: the clock, a new identifier for each
-- key, whether a write of incidents.json succeeds, whether a channel is configured, the hold and
-- the silence of a rule, and the trimmed public URL.
pub record Turn : Type 0 where
  pub now : ℕ
  pub new_id : String → String
  pub stored : Bool
  pub has_channels : Bool
  pub hold : Rule → ℕ → Option String
  pub silenced : Rule → ℕ → Option String
  pub base_url : String

abbrev is_recovered : AlertKind → Bool
is_recovered recovered = true
is_recovered _ = false

abbrev pub is_opened : AlertKind → Bool
is_opened opened = true
is_opened _ = false

-- Tracker.event
unfoldable pub alert_of : Turn → Incident → AlertKind → String → String → ℕ → Alert
alert_of w inc kind reason message at = record {
  monitor_id = inc.rule_id;
  monitor_name = inc.name;
  status = if is_recovered kind then "up" else "down";
  message = message;
  occurred_at = at;
  source = inc.source;
  delivery_id = "";
  version = 2;
  kind = kind;
  reason = reason;
  incident_id = inc.id;
  rule_id = inc.rule_id;
  service = if inc.app == "" then inc.name else inc.app;
  app = inc.app;
  server = inc.server;
  target = inc.target;
  severity = inc.severity;
  started_at = inc.started_at;
  duration_s =
      if not (is_opened kind) && ltb 0 inc.started_at && ltb inc.started_at at
      then (at - inc.started_at) / 1000000000
      else 0;
  consecutive_failures = inc.consecutive_failures;
  url =
      if not (inc.path == "") && not (w.base_url == "")
      then join (w.base_url ∷ inc.path ∷ [])
      else "";
  only_channels = [];
  exclude_channels = inc.exclude_channels;
  audience = everyone;
}

unfoldable pub describe : Rule → Incident → Incident
describe rule inc = record inc {
  source = rule.source;
  rule_id = rule.id;
  name = rule.name;
  app = rule.app;
  server = rule.server;
  target = rule.target;
  path = rule.path;
  severity = if rule.severity == "" then "critical" else rule.severity;
  exclude_channels = rule.exclude_channels;
}

unfoldable pub severity_rank : String → ℕ
severity_rank severity =
    if severity == "critical"
    then 3
    else if severity == "warning"
    then 2
    else if severity == "info"
    then 1
    else 0

-- holdFor: the part after the silence.
held_by : Turn → Rule → ℕ → Option String → Option String
held_by w rule at (some why) = some (join ("silenced: " ∷ why ∷ []))
held_by w rule at none =
    if rule.no_hold
    then none
    else (elim (w.hold rule at) [ none ↦ none | some why ↦ some (join ("held: " ∷ why ∷ [])) ])

-- holdFor; not held is `none`.
unfoldable pub hold_for : Turn → Rule → ℕ → Option String
unfolding held_by
hold_for w rule at = held_by w rule at (w.silenced rule at)

abbrev pub is_clear : Option String → Bool
is_clear none = true
is_clear (some why) = false

-- A new incident, described by its rule.
unfoldable pub new_incident : Turn → Rule → String → ℕ → ℕ → ℕ → String → Incident
new_incident w rule key started at fails message = describe rule (record {
  key = key;
  id = w.new_id key;
  source = "";
  rule_id = "";
  name = "";
  app = "";
  server = "";
  target = "";
  severity = "";
  path = "";
  message = message;
  started_at = started;
  opened_at = at;
  notified = false;
  last_notified_at = 0;
  consecutive_failures = fails;
  auto_resolve_at = 0;
  exclude_channels = [];
})

-- `count >= limit`
abbrev pub at_least : ℕ → ℤ → Bool
at_least count limit = leb (pos_part limit) count
