-- ===== src/Alert.antt =====
-- internal/alert/alert.go: the event that every alert is made of, and its view on the wire.
pub mod Channels
use teploy_dash.Common.{
  ℕ, String, Bool, true, false, List, [], ◌∷◌, leb, if◌then◌else◌, ◌==◌, string_eq,
}

-- The kinds of alerts; `unset` is the empty kind of an event from before kinds.
pub data AlertKind : Type 0 where
  opened repeated recovered test summary unset : AlertKind

unfoldable pub kind_name : AlertKind → String
kind_name opened = "incident_opened"
kind_name repeated = "incident_repeat"
kind_name recovered = "incident_recovered"
kind_name test = "test"
kind_name summary = "summary"
kind_name unset = ""

pub data Audience : Type 0 where
  everyone human machine : Audience

-- Event. Times are nanoseconds since Go's zero time, so 0 is the zero time.
pub record Alert : Type 0 where
  pub monitor_id : String
  pub monitor_name : String
  pub status : String
  pub message : String
  pub occurred_at : ℕ
  pub source : String
  pub delivery_id : String
  pub version : ℕ
  pub kind : AlertKind
  pub reason : String
  pub incident_id : String
  pub rule_id : String
  pub service : String
  pub app : String
  pub server : String
  pub target : String
  pub severity : String
  pub started_at : ℕ
  pub duration_s : ℕ
  pub consecutive_failures : ℕ
  pub url : String
  pub only_channels : List String
  pub exclude_channels : List String
  pub audience : Audience

derived_kind : String → AlertKind → AlertKind
derived_kind status unset = if status == "up" then recovered else opened
derived_kind status kind = kind

-- wireKind
unfoldable pub wire_kind : Alert → AlertKind
unfolding derived_kind
wire_kind e = derived_kind e.status e.kind

abbrev is_test : AlertKind → Bool
is_test test = true
is_test _ = false

-- WireEvent, with the times as they are before they are printed.
pub record WireEvent : Type 0 where
  pub monitor_id : String
  pub monitor_name : String
  pub status : String
  pub message : String
  pub occurred_at : ℕ
  pub source : String
  pub delivery_id : String
  pub version : ℕ
  pub kind : AlertKind
  pub reason : String
  pub incident_id : String
  pub rule_id : String
  pub service : String
  pub app : String
  pub server : String
  pub target : String
  pub severity : String
  pub started_at : ℕ
  pub duration_s : ℕ
  pub consecutive_failures : ℕ
  pub url : String

abbrev or_text : String → String → String
or_text a b = if a == "" then b else a

-- Wire
unfoldable pub wire : Alert → WireEvent
unfolding wire_kind
wire e = record {
  monitor_id = e.monitor_id;
  monitor_name = e.monitor_name;
  status = if e.status == "up" then "up" else "down";
  message = e.message;
  occurred_at = e.occurred_at;
  source = or_text e.source "monitor";
  delivery_id = e.delivery_id;
  version = 2;
  kind = wire_kind e;
  reason = e.reason;
  incident_id = e.incident_id;
  rule_id = or_text e.rule_id e.monitor_id;
  service = or_text (or_text e.service e.app) e.monitor_name;
  app = e.app;
  server = e.server;
  target = e.target;
  severity = or_text e.severity (if is_test (wire_kind e) then "info" else "critical");
  started_at = if leb e.started_at 0 then e.occurred_at else e.started_at;
  duration_s = e.duration_s;
  consecutive_failures = e.consecutive_failures;
  url = e.url;
}
