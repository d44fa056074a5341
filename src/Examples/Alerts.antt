-- ===== src/Examples/Alerts.antt =====
-- Runs of the incident tracker.
use teploy_dash.Common.{true, false, none, List, [], ◌∷◌, refl, pos, lookup, insert, All, string_eq}
use teploy_dash.Operation.Types.{idem_key_eq}
use teploy_dash.Incident.{
  Rule, Incident, Tracker, Turn, normalized, key_of, hold_for, new_incident, describe,
}
use teploy_dash.Incident.Observe.{observe, state_of, persist}
use teploy_dash.Incident.Observe.Answered.{Told}
use teploy_dash.Incident.Observe.Limit.{Opens, observe-Opens}
use teploy_dash.Incident.Run.{Call as TrackerCall, observes, act, play, play-Told}

abbrev quiet_turn : Turn
quiet_turn = record {
  now = 9;
  new_id = λ k. "inc_1";
  stored = true;
  has_channels = true;
  hold = λ r n. none;
  silenced = λ r n. none;
  base_url = "";
}

abbrev web_rule : Rule
web_rule = record {
  key = "monitor:1";
  source = "monitor";
  id = "1";
  name = "web";
  app = "shop";
  server = "box";
  target = "";
  severity = "critical";
  path = "";
  policy = record {
    fail_after = pos 2;
    recover_after = pos 1;
    repeat_every = pos 0;
    auto_resolve_after = pos 0;
  };
  no_hold = false;
  exclude_channels = [];
}

abbrev no_incidents : Tracker
no_incidents = record { states = []; incidents = []; adopting = false; disk = none }

abbrev outage : List TrackerCall
outage =
    observes quiet_turn web_rule false 5 "down" ∷ observes quiet_turn web_rule false 6 "down" ∷ []

play-Told_example :
    All
      (Told (play outage no_incidents []).1)
      (act (observes quiet_turn web_rule true 8 "") (play outage no_incidents []).0).1
play-Told_example = play-Told outage (observes quiet_turn web_rule true 8 "") no_incidents [] tt

abbrev failed_once : Tracker
failed_once = record no_incidents {
  states =
      (
        "monitor:1",
        record {
          fails = 1;
          oks = 0;
          first_fail_at = 5;
          held = none;
          rule = none;
          last_message = "down";
        },
      )
      ∷ [];
}

abbrev outage_incident : Incident
outage_incident = record {
  key = "monitor:1";
  id = "inc_1";
  source = "monitor";
  rule_id = "1";
  name = "web";
  app = "shop";
  server = "box";
  target = "";
  severity = "critical";
  path = "";
  message = "down";
  started_at = 5;
  opened_at = 6;
  notified = true;
  last_notified_at = 6;
  consecutive_failures = 2;
  auto_resolve_at = 0;
  exclude_channels = [];
}

observe-Opens_example : Opens quiet_turn web_rule false 6 failed_once
unfolding observe lookup normalized state_of key_of hold_for persist insert new_incident describe
observe-Opens_example =
    observe-Opens quiet_turn web_rule false 6 "down" failed_once refl (outage_incident, refl)
