-- ===== src/Outbox/Attempt.antt =====
-- internal/outbox/outbox.go: attempt and deliverDue.
pub mod Exhausted
pub mod Legs
pub mod Answered
pub mod Durable
pub mod Delivered
use teploy_dash.Common.{
  ℕ, suc, ◌+◌, String, Bool, true, false, not, ◌&&◌, ◌||◌, Option, none, some, List, [], ◌∷◌, ◌++◌,
  ltb, leb, if◌then◌else◌, pos_part, join, ◌==◌, string_eq, lookup, insert,
}
use teploy_dash.Alert.{Alert}
use teploy_dash.Alert.Channels.{Config, channels_for}
use teploy_dash.Outbox.{
  Record, Leg, Outbox, Options, Status, pending, delivered, dead_lettered, is_pending, is_delivered,
  backoff,
}
use teploy_dash.Outbox.Journal.{persist}
use teploy_dash.Outbox.Send.{Source, readable, unreadable}

-- A sender's error, with what alert.RetryAfter reads from it.
pub record Failure : Type 0 where
  pub text : String
  pub retry_after : ℕ

-- What the rest of the world answers during one attempt. `per_channel` says whether the sender
-- delivers one channel at a time.
pub record Turn : Type 0 where
  pub now : ℕ
  pub config : Source
  pub per_channel : Bool
  pub channel_answer : String → Option Failure
  pub whole_answer : Option Failure

-- `channels[c].Status == StatusDelivered`, false for a leg that is not there
unfoldable pub leg_delivered : Option Leg → Bool
leg_delivered none = false
leg_delivered (some l) = is_delivered l.status

-- The sends of one attempt, a channel at a time; a leg that has acknowledged is passed over.
unfoldable pub outcomes_of :
    Turn → List (String × Leg) → List String → List (String × Option Failure)
outcomes_of w legs [] = []
outcomes_of w legs (c ∷ cs) =
    let rest = outcomes_of w legs cs in
    if leg_delivered (lookup c legs) then rest else (c, w.channel_answer c) ∷ rest

-- What came of the sends: `failure` is deliveryErr, `routed` the channels that count. `whole_send`
-- says that the alert went to a plain sender, which sends it to every configured channel at once.
pub record Tried : Type 0 where
  pub outcomes : List (String × Option Failure)
  pub failure : Option Failure
  pub config_failed : Bool
  pub routed : List String
  pub whole_send : Bool

tried_with : Turn → Record → Source → Tried
tried_with w snap (unreadable why) = record {
  outcomes = [];
  failure = some (record { text = join ("config: " ∷ why ∷ []); retry_after = 0 });
  config_failed = true;
  routed = [];
  whole_send = false;
}
tried_with w snap (readable c) =
    let routed = channels_for c snap.event in
    if w.per_channel
    then record {
      outcomes = outcomes_of w snap.channels routed;
      failure = none;
      config_failed = false;
      routed = routed;
      whole_send = false;
    }
    else record {
      outcomes = [];
      failure = w.whole_answer;
      config_failed = false;
      routed = routed;
      whole_send = true;
    }

unfoldable pub tried : Turn → Record → Tried
unfolding tried_with
tried w snap = tried_with w snap w.config

wait_of : Option Failure → ℕ
wait_of none = 0
wait_of (some f) = f.retry_after

abbrev later : ℕ → ℕ → ℕ
later a b = if ltb a b then b else a

longest_wait : List (String × Option Failure) → ℕ → ℕ
unfolding wait_of
longest_wait [] most = most
longest_wait ((c, f) ∷ rest) most = longest_wait rest (later most (wait_of f))

leg_or_new : Option Leg → Leg
leg_or_new none = record { status = pending; attempts = 0; last_error = ""; last_attempt_at = 0 }
leg_or_new (some l) = l

-- One leg after its outcome.
answered : Options → ℕ → Leg → Option Failure → Leg
answered o now l none = record {
  status = delivered;
  attempts = l.attempts + 1;
  last_error = "";
  last_attempt_at = now;
}
answered o now l (some f) = record {
  status = pending;
  attempts = l.attempts + 1;
  last_error = o.redact f.text;
  last_attempt_at = now;
}

unfoldable pub updated :
    Options → ℕ → List (String × Option Failure) → List (String × Leg) → List (String × Leg)
unfolding leg_or_new answered
updated o now [] legs = legs
updated o now ((c, f) ∷ rest) legs =
    updated o now rest (insert c (answered o now (leg_or_new (lookup c legs)) f) legs)

leg_error : Option Leg → String
leg_error none = ""
leg_error (some l) = l.last_error

-- The first routed leg that is not delivered, as an error text.
first_error : List (String × Leg) → List String → Option String
unfolding leg_error
first_error legs [] = none
first_error legs (c ∷ cs) =
    let rest = first_error legs cs in
    if leg_delivered (lookup c legs)
    then rest
    else some (join (c ∷ ": " ∷ leg_error (lookup c legs) ∷ []))

no_legs : List (String × Leg) → Bool
no_legs [] = true
no_legs (x ∷ xs) = false

error_of : Options → Option Failure → Option String
error_of o none = none
error_of o (some f) = some (o.redact f.text)

-- The record-level error of the round; none means that the record is delivered.
verdict : Options → Tried → List (String × Leg) → Option String
unfolding error_of no_legs first_error
verdict o t legs =
    if t.config_failed
    then error_of o t.failure
    else if no_legs legs
    then error_of o t.failure
    else first_error legs t.routed

dead : Leg → Leg
dead l = if is_pending l.status then record l { status = dead_lettered } else l

all_dead : List (String × Leg) → List (String × Leg)
unfolding dead
all_dead [] = []
all_dead ((c, l) ∷ rest) = (c, dead l) ∷ all_dead rest

-- A round that failed: the record is exhausted, or waits for its next round.
failed_round : Options → ℕ → ℕ → String → Record → Record
unfolding all_dead
failed_round o now retry text r =
    if leb (pos_part o.max_attempts) r.attempts
    then record r {
      last_error = text;
      status = dead_lettered;
      next_attempt_at = 0;
      channels = all_dead r.channels;
    }
    else record r { last_error = text; next_attempt_at = now + later (backoff o r.attempts) retry }

concluded : Options → ℕ → ℕ → Record → Option String → Record
unfolding failed_round
concluded o now retry r none = record r { status = delivered; last_error = ""; next_attempt_at = 0 }
concluded o now retry r (some text) = failed_round o now retry text r

-- The record with the attempt counted and its legs updated.
abbrev counted : Options → Turn → Tried → Record → Record
counted o w t r = record r {
  attempts = r.attempts + 1;
  last_attempt_at = w.now;
  channels = updated o w.now t.outcomes r.channels;
}

-- A pending record after the round.
unfoldable pub settled : Options → Turn → Tried → Record → Record
unfolding concluded verdict longest_wait
settled o w t r =
    let r' = counted o w t r in
    concluded o w.now (longest_wait t.outcomes (wait_of t.failure)) r' (verdict o t r'.channels)

unfoldable pub settle_found : Options → Turn → Record → Outbox → Option Record → Outbox
settle_found o w snap b none = b
settle_found o w snap b (some r) =
    if is_pending r.status
    then (let r' = settled o w (tried w snap) r in
        (persist o r' (record b { records = insert snap.id r' b.records })).0)
    else b

-- attempt, with no other call between its parts
unfoldable pub attempt : Options → Turn → Record → Outbox → Outbox
unfolding settle_found
attempt o w snap b = settle_found o w snap b (lookup snap.id b.records)

is_due : ℕ → Record → Bool
is_due now r = is_pending r.status && leb r.next_attempt_at now

by_creation : Record → List Record → List Record
by_creation r [] = r ∷ []
by_creation r (q ∷ rest) =
    if leb r.created_at q.created_at then r ∷ q ∷ rest else q ∷ by_creation r rest

unfoldable pub due : ℕ → List (String × Record) → List Record
unfolding is_due by_creation
due now [] = []
due now ((id, r) ∷ rest) =
    let others = due now rest in if is_due now r then by_creation r others else others

unfoldable pub attempt_each : Options → (String → Turn) → List Record → Outbox → Outbox
attempt_each o world [] b = b
attempt_each o world (r ∷ rs) b = attempt_each o world rs (attempt o (world r.id) r b)

-- deliverDue; `world` answers for each record, and records created at one time go in the order of
-- the map.
unfoldable pub deliver_due : Options → ℕ → (String → Turn) → Outbox → Outbox
unfolding due attempt_each
deliver_due o now world b = attempt_each o world (due now b.records) b
