-- ===== src/Outbox/Views.antt =====
-- internal/outbox/outbox.go: what the queue shows: LatestForSource, History, ChannelHealth.
pub mod Counts
pub mod Latest
use teploy_dash.Common.{
  ℕ, zero, suc, ◌+◌, ◌-◌, String, Bool, true, false, not, ◌&&◌, ◌||◌, Option, none, some, List, [],
  ◌∷◌, ◌++◌, ltb, leb, if◌then◌else◌, ℤ, pos, negsuc, pos_part, is_positive, ◌==◌, string_eq,
  lookup, insert, length,
}
use teploy_dash.Alert.{Alert, AlertKind, wire, WireEvent}
use teploy_dash.Outbox.{
  Record, Leg, Outbox, Options, Status, pending, delivered, dead_lettered, suppressed, superseded,
}

-- DeliveryStatus, with its legs as ChannelStatus.
pub record DeliveryStatus : Type 0 where
  pub id : String
  pub status : Status
  pub attempts : ℕ
  pub last_error : String
  pub last_attempt_at : ℕ
  pub next_attempt_at : ℕ
  pub event_status : String
  pub occurred_at : ℕ
  pub channels : List (String × Leg)
  pub kind : AlertKind
  pub source : String
  pub rule_id : String
  pub rule_name : String
  pub incident_id : String
  pub note : String
  pub created_at : ℕ

-- recordSource
unfoldable pub record_source : Record → String
record_source r = if r.event.source == "" then "monitor" else r.event.source

redacted : Options → List (String × Leg) → List (String × Leg)
redacted o [] = []
redacted o ((c, l) ∷ rest) = (c, record l { last_error = o.redact l.last_error }) ∷ redacted o rest

-- statusOf
pub status_of : Options → Record → DeliveryStatus
unfolding redacted record_source
status_of o r = record {
  id = r.id;
  status = r.status;
  attempts = r.attempts;
  last_error = o.redact r.last_error;
  last_attempt_at = r.last_attempt_at;
  next_attempt_at = r.next_attempt_at;
  event_status = r.event.status;
  occurred_at = r.event.occurred_at;
  channels = redacted o r.channels;
  kind = (wire r.event).kind;
  source = record_source r;
  rule_id = r.event.monitor_id;
  rule_name = r.event.monitor_name;
  incident_id = r.event.incident_id;
  note = r.note;
  created_at = r.created_at;
}

unfoldable pub answers : (String → Bool) → String → Record → Bool
unfolding record_source
answers source_ok id r = source_ok (record_source r) && r.event.monitor_id == id

pub newer : Record → Option Record → Record
newer r none = r
newer r (some best) = if ltb best.created_at r.created_at then r else best

-- The loop of latest.
unfoldable pub newest :
    (String → Bool) → String → List (String × Record) → Option Record → Option Record
unfolding newer
newest source_ok id [] best = best
newest source_ok id ((k, r) ∷ rest) best =
    newest source_ok id rest (if answers source_ok id r then some (newer r best) else best)

shown_status : Options → Option Record → Option DeliveryStatus
shown_status o none = none
shown_status o (some r) = some (status_of o r)

unfoldable pub latest : Options → (String → Bool) → String → Outbox → Option DeliveryStatus
unfolding newest shown_status
latest o source_ok id b = shown_status o (newest source_ok id b.records none)

unfoldable pub latest_for_source : Options → String → String → Outbox → Option DeliveryStatus
unfolding latest
latest_for_source o source id b = latest o (λ s. s == source) id b

unfoldable pub latest_for_restore_test : Options → String → Outbox → Option DeliveryStatus
unfolding latest_for_source
latest_for_restore_test o id b = latest_for_source o "restore-test" id b

unfoldable pub latest_for_monitor : Options → String → Outbox → Option DeliveryStatus
unfolding latest
latest_for_monitor o id b = latest o (λ s. s == "monitor" || s == "heartbeat") id b

listed : Options → Option Record → List DeliveryStatus → List DeliveryStatus
listed o none rest = rest
listed o (some r) rest = status_of o r ∷ rest

abbrev pub backward {ℓ} : {A : Type ℓ} → List A → List A → List A
backward [] acc = acc
backward (x ∷ xs) acc = backward xs (x ∷ acc)

-- The loop of History over the order, the newest first; `n` statuses are out, and the limit is
-- tested after each step.
history_from : Options → ℤ → List (String × Record) → List String → ℕ → List DeliveryStatus
unfolding listed
history_from o limit records [] n = []
history_from o limit records (id ∷ ids) n =
    let found = listed o (lookup id records) [] in
    let rest = history_from o limit records ids (n + length found) in
    found ++ (if is_positive limit && leb (pos_part limit) (n + length found) then [] else rest)

unfoldable pub history : Options → ℤ → Outbox → List DeliveryStatus
unfolding history_from
history o limit b = history_from o limit b.records (backward b.order []) 0

-- ChannelHealth, of one channel
pub record Health : Type 0 where
  pub delivered_legs : ℕ
  pub pending_legs : ℕ
  pub dead_legs : ℕ
  pub last_delivered_at : ℕ
  pub last_dead_letter_at : ℕ
  pub last_error : String

abbrev pub health_or_none : Option Health → Health
health_or_none none = record {
  delivered_legs = 0;
  pending_legs = 0;
  dead_legs = 0;
  last_delivered_at = 0;
  last_dead_letter_at = 0;
  last_error = "";
}
health_or_none (some h) = h

with_leg : Options → Leg → Status → Health → Health
with_leg o l delivered h = record h {
  delivered_legs = h.delivered_legs + 1;
  last_delivered_at =
      if ltb h.last_delivered_at l.last_attempt_at then l.last_attempt_at else h.last_delivered_at;
}
with_leg o l dead_lettered h =
    if leb h.last_dead_letter_at l.last_attempt_at
    then record h {
      dead_legs = h.dead_legs + 1;
      last_dead_letter_at = l.last_attempt_at;
      last_error = o.redact l.last_error;
    }
    else record h { dead_legs = h.dead_legs + 1 }
with_leg o l other h = record h { pending_legs = h.pending_legs + 1 }

-- The loop over the legs of one record.
with_legs : Options → List (String × Leg) → List (String × Health) → List (String × Health)
unfolding with_leg
with_legs o [] out = out
with_legs o ((c, l) ∷ rest) out =
    with_legs o rest (insert c (with_leg o l l.status (health_or_none (lookup c out))) out)

with_record : Options → Option Record → List (String × Health) → List (String × Health)
unfolding with_legs
with_record o none out = out
with_record o (some r) out = with_legs o r.channels out

health_from :
    Options → List (String × Record) → List String → List (String × Health) → List (String × Health)
unfolding with_record
health_from o records [] out = out
health_from o records (id ∷ ids) out =
    health_from o records ids (with_record o (lookup id records) out)

unfoldable pub channel_health : Options → Outbox → List (String × Health)
unfolding health_from
channel_health o b = health_from o b.records b.order []
