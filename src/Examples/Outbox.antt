-- ===== src/Examples/Outbox.antt =====
-- Runs of the alert outbox.
use mathlib.Core.Path.{subst}
use mathlib.Core.List.{Memᴰ}
use teploy_dash.Common.{
  String, true, false, none, some, List, [], ◌∷◌, refl, pos, lookup, insert, string_eq, ◌≡◌, ◌⊎◌,
  Unique, All, join, arith, ◌↔◌, ◌*◌, ◌-◌, ◌^◌, ◌==◌, Bool-cases, inl, inr, sym, ap, ◌∙◌,
}
use teploy_dash.Alert.{Alert, opened, recovered, everyone}
use teploy_dash.Alert.Channels.{Channel, Config, webhook, channels_for, migrate, contains}
use teploy_dash.Alert.Channels.Routing.{channels_for_iff, Wanted}
use teploy_dash.Outbox.{
  Record, Leg, Outbox, Options, pending, delivered, dead_lettered, superseded, is_pending,
  is_delivered, with_defaults, backoff,
}
use teploy_dash.Outbox.Backoff.{backoff-capped, capped}
use teploy_dash.Outbox.Send.{readable, unreadable, send, has_no_channel, enqueued, is_overtaken}
use teploy_dash.Outbox.Send.Superseded.{send-overtakes}
use teploy_dash.Outbox.Attempt.{Turn, attempt, settled, tried, updated}
use teploy_dash.Outbox.Attempt.Legs.{settled-leg, Unsent}
use teploy_dash.Outbox.Attempt.Exhausted.{rounds-end, rounds}
use teploy_dash.Outbox.Journal.{load, replay, persist, persist_all}
use teploy_dash.Outbox.Run.{Call, sends, tries, act, play, play-load, play-written}
use teploy_dash.Outbox.Run.Settled.{act-settled}
use teploy_dash.Outbox.Attempt.Delivered.{settled_iff}
use teploy_dash.Outbox.Attempt.Answered.{Acknowledges}
use teploy_dash.Outbox.Views.{latest, channel_health}
use teploy_dash.Outbox.Views.Latest.{latest-Shown, Shown}
use teploy_dash.Outbox.Views.Counts.{channel_health-counted, counted_in, delivered_count, legs_of}

abbrev defaults : Options
defaults = record {
  poll_interval = pos 0;
  max_attempts = pos 2;
  backoff_base = pos 1;
  backoff_max = pos 8;
  max_retained = pos 250;
  redact = λ s. s;
}

abbrev outage : Alert
outage = record {
  monitor_id = "1";
  monitor_name = "web";
  status = "down";
  message = "timeout";
  occurred_at = 5;
  source = "monitor";
  delivery_id = "";
  version = 2;
  kind = opened;
  reason = "";
  incident_id = "inc_1";
  rule_id = "1";
  service = "";
  app = "shop";
  server = "box";
  target = "";
  severity = "critical";
  started_at = 5;
  duration_s = 0;
  consecutive_failures = 1;
  url = "";
  only_channels = [];
  exclude_channels = [];
  audience = everyone;
}

abbrev recovery : Alert
recovery = record outage { status = "up"; kind = recovered; occurred_at = 9 }

abbrev blank : Config
blank = record {
  channels = [];
  public_url = "";
  heartbeats = [];
  heartbeat_interval_minutes = pos 0;
  webhook_url = "https://example.org/hook";
  webhook_secret = "";
  smtp_host = "";
  smtp_port = pos 0;
  smtp_user = "";
  smtp_pass = "";
  email_to = "";
  email_from = "";
  smtp_allow_insecure = false;
}

abbrev unreachable : Turn
unreachable = record {
  now = 7;
  config = unreadable "gone";
  per_channel = true;
  channel_answer = λ c. none;
  whole_answer = none;
}

abbrev legged : List (String × Leg)
legged =
    ("webhook", record { status = delivered; attempts = 1; last_error = ""; last_attempt_at = 6 })
    ∷ []

abbrev waiting : Record
waiting = record {
  id = "d1";
  event = outage;
  status = pending;
  attempts = 0;
  next_attempt_at = 5;
  last_error = "";
  last_attempt_at = 0;
  created_at = 5;
  channels = legged;
  note = "";
}

abbrev queue : Outbox
queue = record {
  records = ("d1", waiting) ∷ [];
  order = "d1" ∷ [];
  lines = 1;
  journal = waiting ∷ [];
  faults = [];
}

queue-only :
    (k : String) (r : Record) → lookup k queue.records ≡ some r → ("d1" ≡ k) × (waiting ≡ r)
unfolding lookup
queue-only k r h = elim (Bool-cases ("d1" == k)) [
  | inl y ↦ let one : some waiting ≡ some r = rw y at h in ((string_eq.beq_iff "d1" k).0 y, cc)
  | inr y ↦ let none_there : none ≡ some r = rw y at h in cc
]

queue-keyed : (k : String) (r : Record) → lookup k queue.records ≡ some r → r.id ≡ k
queue-keyed k r h = ap (λ (x : Record). x.id) (sym (queue-only k r h).1) ∙ (queue-only k r h).0

queue-Unique : (k : String) (r : Record) → lookup k queue.records ≡ some r → Unique r.channels
unfolding lookup
queue-Unique k r h = subst (λ (x : Record). Unique x.channels) (queue-only k r h).1 (refl, tt)

settled-leg_example :
    ((tried unreachable waiting).whole_send ≡ false)
    × Unsent "webhook" (tried unreachable waiting).outcomes
    × (lookup "webhook" (settled defaults unreachable (tried unreachable waiting) waiting).channels
        ≡ some (record { status = delivered; attempts = 1; last_error = ""; last_attempt_at = 6 }))
unfolding lookup is_delivered
settled-leg_example =
    settled-leg defaults unreachable waiting "webhook"
      (record { status = delivered; attempts = 1; last_error = ""; last_attempt_at = 6 }) refl refl
      refl

abbrev two_turns : List Turn
two_turns = unreachable ∷ unreachable ∷ []

abbrev given_up : Record
given_up = record waiting {
  status = dead_lettered;
  attempts = 2;
  next_attempt_at = 0;
  last_error = "config: gone";
  last_attempt_at = 7;
}

rounds-end_example : is_pending given_up.status ≡ false
unfolding rounds attempt settled tried updated lookup insert persist with_defaults is_pending
    is_delivered backoff join
rounds-end_example =
    rounds-end defaults two_turns "d1" queue (queue-keyed "d1") (omega arith) given_up refl

abbrev passed_over : Record
passed_over = record waiting {
  status = superseded;
  next_attempt_at = 0;
  note = "superseded: the incident recovered before this alert was delivered";
}

send-overtakes_example : is_pending passed_over.status ≡ false
unfolding send enqueued is_overtaken persist_all persist lookup insert has_no_channel is_pending
send-overtakes_example =
    send-overtakes defaults (unreadable "gone") "d2" recovery 9 queue queue-keyed refl refl refl
      refl "d1" passed_over refl (refl, refl)

abbrev calls : List Call
calls = sends (unreadable "gone") "d1" outage 5 ∷ []

abbrev fresh : Record
fresh = record waiting { channels = [] }

play-load_example :
    (lookup "d1" (play defaults calls (load [] [])).records ≡ some fresh)
    ↔ (lookup "d1" (load (play defaults calls (load [] [])).journal []).records ≡ some fresh)
unfolding is_pending
play-load_example = play-load defaults calls "d1" fresh refl

play-written_example :
    lookup "d1" (load (play defaults calls (load [] [])).journal []).records ≡ some fresh
unfolding play send enqueued persist_all persist lookup insert has_no_channel load replay
play-written_example = play-written defaults calls "d1" fresh refl

latest-Shown_example :
    Shown defaults
      (λ s. s == "monitor")
      "1"
      queue.records
      (latest defaults (λ s. s == "monitor") "1" queue)
latest-Shown_example = latest-Shown defaults (λ s. s == "monitor") "1" queue

channel_health-counted_example :
    counted_in delivered_count (lookup "webhook" (channel_health defaults queue))
    ≡ legs_of delivered_count "webhook" queue.records queue.order
channel_health-counted_example =
    channel_health-counted defaults queue delivered_count "webhook" queue-Unique

backoff-capped_example : backoff defaults 3 ≡ capped (1 * 2 ^ (3 - 1)) 8
backoff-capped_example = backoff-capped defaults 3

abbrev hook : Channel
hook = record {
  id = "webhook";
  type = webhook;
  name = "Webhook";
  url = "https://example.org/hook";
  secret = "";
  token = "";
  kinds = [];
  smtp_host = "";
  smtp_port = pos 0;
  smtp_user = "";
  smtp_pass = "";
  email_to = "";
  email_from = "";
  smtp_allow_insecure = false;
  allow_internal = false;
}

channels_for_iff_example :
    (contains (channels_for blank outage) "webhook" ≡ true)
    ↔ ((ch : Channel) × Memᴰ ch (migrate blank).channels × (ch.id ≡ "webhook") × Wanted outage ch)
channels_for_iff_example = channels_for_iff blank outage "webhook"

abbrev reachable : Turn
reachable = record unreachable { config = readable blank }

settled_iff_example :
    (is_delivered (settled defaults reachable (tried reachable fresh) fresh).status ≡ true)
    ↔ All (Acknowledges reachable []) (channels_for blank outage)
unfolding is_delivered
settled_iff_example = settled_iff defaults reachable fresh blank refl refl refl

abbrev ended_queue : Outbox
ended_queue = record queue { records = ("d1", passed_over) ∷ [] }

act-settled_example :
    (lookup "d1" (act defaults (tries reachable waiting) ended_queue).records ≡ none)
    ⊎ (lookup "d1" (act defaults (tries reachable waiting) ended_queue).records ≡ some passed_over)
unfolding lookup is_pending
act-settled_example =
    act-settled defaults (tries reachable waiting) ended_queue "d1" passed_over refl refl
