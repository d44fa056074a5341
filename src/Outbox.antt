-- ===== src/Outbox.antt =====
-- internal/outbox/outbox.go: the durable queue of alerts. This file has its records and options, the
-- delivery identifier and the backoff.
pub mod Backoff
pub mod Journal
pub mod Send
pub mod Attempt
pub mod Views
pub mod Run
use teploy_dash.Common.{
  ℕ, zero, suc, ◌+◌, ◌-◌, ◌*◌, String, Bool, true, false, Option, none, some, List, [], ◌∷◌, ltb,
  leb, if◌then◌else◌, ℤ, pos, pos_part, is_positive, join,
}
use teploy_dash.Alert.{Alert, AlertKind, kind_name, Audience, everyone, human, machine}

-- The state of a delivery, and of one channel's leg of it.
pub data Status : Type 0 where
  pending delivered dead_lettered suppressed superseded : Status

unfoldable pub is_pending : Status → Bool
is_pending pending = true
is_pending _ = false

unfoldable pub is_delivered : Status → Bool
is_delivered delivered = true
is_delivered _ = false

-- ChannelRecord
pub record Leg : Type 0 where
  pub status : Status
  pub attempts : ℕ
  pub last_error : String
  pub last_attempt_at : ℕ

-- A nil map of channels is the empty one. The zero time is 0.
pub record Record : Type 0 where
  pub id : String
  pub event : Alert
  pub status : Status
  pub attempts : ℕ
  pub next_attempt_at : ℕ
  pub last_error : String
  pub last_attempt_at : ℕ
  pub created_at : ℕ
  pub channels : List (String × Leg)
  pub note : String

-- How a write of the journal ends: it succeeds, it leaves the file as it was, or the file has the
-- new content and an error is returned all the same.
pub data Write : Type 0 where
  wrote lost visible : Write

-- The state, with the lines of the journal on disk and how the next writes end.
pub record Outbox : Type 0 where
  pub records : List (String × Record)
  pub order : List String
  pub lines : ℕ
  pub journal : List Record
  pub faults : List Write

pub record Options : Type 0 where
  pub poll_interval : ℤ
  pub max_attempts : ℤ
  pub backoff_base : ℤ
  pub backoff_max : ℤ
  pub max_retained : ℤ
  pub redact : String → String

abbrev or_default : ℤ → ℕ → ℤ
or_default n d = if is_positive n then n else pos d

-- withDefaults
unfoldable pub with_defaults : Options → Options
with_defaults o = record o {
  poll_interval = or_default o.poll_interval 5000000000;
  max_attempts = or_default o.max_attempts 5;
  backoff_base = or_default o.backoff_base 30000000000;
  backoff_max = or_default o.backoff_max 1800000000000;
  max_retained = or_default o.max_retained 250;
}

audience_name : Audience → String
audience_name everyone = ""
audience_name human = "human"
audience_name machine = "machine"

-- `%v` of a list of strings, without the brackets
spaced : List String → List String
spaced [] = []
spaced (x ∷ []) = x ∷ []
spaced (x ∷ y ∷ ys) = x ∷ " " ∷ spaced (y ∷ ys)

shown : List String → String
unfolding spaced
shown xs = join ("[" ∷ join (spaced xs) ∷ "]" ∷ [])

-- deliveryID. `digest` is the truncated SHA-256 in hexadecimal and `nanos` prints a time's
-- nanoseconds since 1970.
unfoldable pub delivery_id : (String → String) → (ℕ → String) → Alert → String
unfolding shown audience_name
delivery_id digest nanos e =
    if leb 2 e.version
    then digest (
        join (
          "v2|"
          ∷ e.source
          ∷ "|"
          ∷ e.monitor_id
          ∷ "|"
          ∷ kind_name e.kind
          ∷ "|"
          ∷ e.reason
          ∷ "|"
          ∷ e.incident_id
          ∷ "|"
          ∷ nanos e.occurred_at
          ∷ "|"
          ∷ shown e.only_channels
          ∷ "|"
          ∷ shown e.exclude_channels
          ∷ "|"
          ∷ audience_name e.audience
          ∷ []))
    else digest (join (e.monitor_id ∷ "|" ∷ e.status ∷ "|" ∷ nanos e.occurred_at ∷ []))

-- The loop of backoff, for so many rounds.
doubled : ℕ → ℕ → ℕ → ℕ
doubled zero d limit = d
doubled (suc k) d limit = let more = doubled k (d * 2) limit in if ltb d limit then more else d

-- backoff; the durations are below 2 ^ 62 nanoseconds (146 years), so doubling stays in an int64.
unfoldable pub backoff : Options → ℕ → ℕ
unfolding doubled
backoff o attempts =
    let limit = pos_part o.backoff_max in
    let d = doubled (attempts - 1) (pos_part o.backoff_base) limit in
    if ltb limit d then limit else d
