-- ===== src/Incident/Observe.antt =====
-- internal/incident/incident.go: the operations of the tracker, each with the alerts it hands over
-- while it holds the lock.
pub mod Answered
pub mod Batch
pub mod Limit
use teploy_dash.Common.{
  ℕ, ◌+◌, String, Bool, true, false, not, ◌&&◌, ◌||◌, Option, none, some, List, [], ◌∷◌, ◌++◌, ltb,
  leb, if◌then◌else◌, ℤ, pos_part, is_positive, ◌==◌, string_eq, lookup, insert, remove,
}
use teploy_dash.Alert.{Alert, AlertKind, opened, repeated, recovered}
use teploy_dash.Incident.{
  Policy, Rule, Incident, Held, Sample, RuleState, Tracker, Turn, Outgoing, sent, noted, normalized,
  key_of, describe, severity_rank, hold_for, is_clear, alert_of, new_incident, at_least,
}

-- persistLocked
unfoldable pub persist : Turn → Tracker → Tracker
persist w t = if w.stored then record t { disk = some t.incidents } else t

state_or_new : Option RuleState → RuleState
state_or_new none = record {
  fails = 0;
  oks = 0;
  first_fail_at = 0;
  held = none;
  rule = none;
  last_message = "";
}
state_or_new (some st) = st

-- Tracker.state
unfoldable pub state_of : String → Tracker → RuleState
unfolding state_or_new
state_of key t = state_or_new (lookup key t.states)

set_state : String → RuleState → Tracker → Tracker
set_state key st t = record t { states = insert key st t.states }

-- `inc.AutoResolveAt = at.Add(...)` where the policy asks for it.
with_resolve : Policy → ℕ → Incident → Incident
with_resolve p at inc =
    if is_positive p.auto_resolve_after
    then record inc { auto_resolve_at = at + pos_part p.auto_resolve_after }
    else inc

-- An opened incident, announced unless it is adopted or no channel is configured.
open_incident : Turn → String → Incident → String → ℕ → Tracker → Tracker × List Outgoing
unfolding alert_of
open_incident w key inc message at t =
    if not t.adopting && w.has_channels
    then (
      persist w (record t {
        incidents = insert key (record inc { notified = true; last_notified_at = at }) t.incidents;
      }),
      sent (alert_of w (record inc { notified = true; last_notified_at = at }) opened "" message at)
          ∷ [],
    )
    else (persist w (record t { incidents = insert key inc t.incidents }), [])

-- The alert of an incident that is announced again.
repeat_incident : Turn → String → Incident → String → ℕ → Tracker → Tracker × List Outgoing
repeat_incident w key inc message at t = (
  persist w
      (record t { incidents = insert key (record inc { last_notified_at = at }) t.incidents }),
  sent (alert_of w (record inc { last_notified_at = at }) repeated "" message at) ∷ [],
)

-- A failure of a rule that has an incident. `st` is its state, counted already.
failed_open : Turn → Rule → ℕ → String → RuleState → Incident → Tracker → Tracker × List Outgoing
unfolding with_resolve repeat_incident
failed_open w rule at message st old t =
    let key = key_of rule in
    let inc = record (describe rule old) { consecutive_failures = st.fails; message = message } in
    let can_send = inc.notified && is_clear (hold_for w rule at) && w.has_channels in
    if ltb (severity_rank old.severity) (severity_rank inc.severity) && can_send
    then repeat_incident w key inc message at t
    else if is_positive rule.policy.repeat_every
        && can_send
        && leb (old.last_notified_at + pos_part rule.policy.repeat_every) at
    then repeat_incident w key (with_resolve rule.policy at inc) message at t
    else (let t' = record t {
      incidents = insert key (with_resolve rule.policy at inc) t.incidents;
    } in
        (if is_positive rule.policy.auto_resolve_after then persist w t' else t', []))

-- A rule that reaches its limit under a hold: noted at the start of the episode.
hold_rule :
    Turn → Rule → ℕ → String → String → RuleState → Option Held → Tracker → Tracker × List Outgoing
unfolding set_state
hold_rule w rule at message why st (some h) t = (
  set_state (key_of rule)
      (record st { held = some (record h { reason = why; consecutive_failures = st.fails }) }) t,
  [],
)
hold_rule w rule at message why st none t =
    let key = key_of rule in
    let h : Held = record {
      key = key;
      source = rule.source;
      rule_id = rule.id;
      name = rule.name;
      app = rule.app;
      reason = why;
      since = at;
      consecutive_failures = st.fails;
    } in
    let probe = new_incident w rule "" st.first_fail_at 0 st.fails "" in
    (
      set_state key (record st { held = some h }) t,
      noted (record (alert_of w probe opened "" message at) { incident_id = "" }) why ∷ [],
    )

failed_limit :
    Turn → Rule → ℕ → String → RuleState → Option String → Tracker → Tracker × List Outgoing
unfolding hold_rule open_incident
failed_limit w rule at message st (some why) t = hold_rule w rule at message why st st.held t
failed_limit w rule at message st none t =
    let key = key_of rule in
    let inc = new_incident w rule key st.first_fail_at at st.fails message in
    open_incident w key (with_resolve rule.policy at inc) message at
      (set_state key (record st { held = none }) t)

-- The switch on a failure.
failed_rule :
    Turn → Rule → ℕ → String → RuleState → Option Incident → Tracker → Tracker × List Outgoing
unfolding failed_open failed_limit
failed_rule w rule at message st (some inc) t = failed_open w rule at message st inc t
failed_rule w rule at message st none t =
    if at_least st.fails rule.policy.fail_after
    then failed_limit w rule at message st (hold_for w rule at) t
    else (t, [])

-- The recovery of an incident: told only where its opening was.
close_incident : Turn → String → Incident → String → String → ℕ → Tracker → Tracker × List Outgoing
close_incident w key inc reason message at t = (
  persist w (record t { incidents = remove key t.incidents }),
  if inc.notified then sent (alert_of w inc recovered reason message at) ∷ [] else [],
)

passed_rule :
    Turn → Rule → ℕ → String → RuleState → Option Incident → Tracker → Tracker × List Outgoing
unfolding close_incident
passed_rule w rule at message st none t = (t, [])
passed_rule w rule at message st (some inc) t =
    if at_least st.oks rule.policy.recover_after
    then close_incident w (key_of rule) (describe rule inc) ""
        (if message == "" then "recovered" else message) at t
    else (t, [])

counted : Bool → Rule → ℕ → String → RuleState → RuleState
counted true rule at message st = record st {
  fails = 0;
  first_fail_at = 0;
  held = none;
  oks = st.oks + 1;
  rule = some rule;
  last_message = message;
}
counted false rule at message st = record st {
  oks = 0;
  first_fail_at = if leb st.fails 0 then at else st.first_fail_at;
  fails = st.fails + 1;
  rule = some rule;
  last_message = message;
}

observed : Bool → Turn → Rule → ℕ → String → RuleState → Tracker → Tracker × List Outgoing
unfolding passed_rule failed_rule
observed true w rule at message st t =
    passed_rule w rule at message st (lookup (key_of rule) t.incidents) t
observed false w rule at message st t =
    failed_rule w rule at message st (lookup (key_of rule) t.incidents) t

-- Observe
unfoldable pub observe : Turn → Rule → Bool → ℕ → String → Tracker → Tracker × List Outgoing
unfolding observed counted set_state
observe w rule0 ok at message t =
    let rule = record rule0 { policy = normalized rule0.policy } in
    let st = counted ok rule at message (state_of (key_of rule) t) in
    observed ok w rule at message st (set_state (key_of rule) st t)

-- Retire
retire_found : Turn → String → String → Tracker → Option Incident → Tracker × List Outgoing
retire_found w key message t none = (t, [])
retire_found w key message t (some inc) =
    close_incident w key inc "retired" (if message == "" then "no longer monitored" else message)
      w.now t

unfoldable pub retire : Turn → String → String → Tracker → Tracker × List Outgoing
unfolding retire_found close_incident
retire w key message t =
    retire_found w key message (record t { states = remove key t.states }) (lookup key t.incidents)
