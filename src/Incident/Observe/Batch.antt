-- ===== src/Incident/Observe/Batch.antt =====
-- internal/incident/incident.go: the adoption of what fails already, Seed, and the operations over
-- all incidents or all held rules.
use teploy_dash.Common.{
  ℕ, ◌+◌, String, Bool, true, false, not, ◌&&◌, ◌||◌, Option, none, some, List, [], ◌∷◌, ◌++◌, ltb,
  leb, if◌then◌else◌, pos_part, string_eq, lookup, insert, remove,
}
use teploy_dash.Alert.{recovered}
use teploy_dash.Incident.{
  Rule, Incident, Held, Sample, RuleState, Tracker, Turn, Outgoing, sent, normalized, key_of,
  hold_for, is_clear, alert_of, new_incident, at_least,
}
use teploy_dash.Incident.Observe.{persist, state_of, set_state, with_resolve, open_incident}

abbrev has_incident : Option Incident → Bool
has_incident none = false
has_incident (some inc) = true

-- AdoptOpen
unfoldable pub adopt_open : Turn → Rule → ℕ → ℕ → String → Tracker → Tracker
adopt_open w rule0 started fails message t =
    let rule = record rule0 { policy = normalized rule0.policy } in
    let key = key_of rule in
    if not t.adopting
      || has_incident (lookup key t.incidents)
      || not (at_least fails rule.policy.fail_after)
    then t
    else persist w (record t {
      incidents = insert key (new_incident w rule key started w.now fails message) t.incidents;
    })

-- AdoptFailing
unfoldable pub adopt_failing : Turn → Rule → ℕ → String → Tracker → Tracker × Bool
unfolding set_state
adopt_failing w rule0 started message t =
    let rule = record rule0 { policy = normalized rule0.policy } in
    let key = key_of rule in
    let fails = pos_part rule.policy.fail_after in
    if has_incident (lookup key t.incidents) || not (is_clear (hold_for w rule w.now))
    then (t, false)
    else (let st = record (state_of key t) {
      rule = some rule;
      last_message = message;
      oks = 0;
      fails = fails;
      first_fail_at = started;
    } in
        let t' = set_state key st t in
        (
          persist w (record t' {
            incidents =
                insert key (new_incident w rule key started w.now fails message) t'.incidents;
          }),
          true,
        ))

abbrev same_outcome : Bool → Bool → Bool
same_outcome a b = if a then b else not b

streak : Bool → List Sample → ℕ × ℕ → ℕ × ℕ
streak first [] (n, oldest) = (n, oldest)
streak first (s ∷ rest) (n, oldest) =
    let more = streak first rest (n + 1, s.at) in
    if same_outcome s.ok first then more else (n, oldest)

seeded : List Sample → RuleState → RuleState
unfolding streak
seeded [] st = record st { fails = 0; oks = 0; first_fail_at = 0 }
seeded (s ∷ rest) st =
    let (n, oldest) = streak s.ok (s ∷ rest) (0, 0) in
    if s.ok
    then record st { fails = 0; oks = n; first_fail_at = 0 }
    else record st { fails = n; oks = 0; first_fail_at = oldest }

-- Seed; the newest sample is first.
unfoldable pub seed : Rule → List Sample → Tracker → Tracker
unfolding seeded set_state
seed rule history t = set_state (key_of rule) (seeded history (state_of (key_of rule) t)) t

-- CloseMatching; `p` is the selection.
unfoldable pub close_each :
    Turn
    → (Incident → Bool)
    → String
    → String
    → List (String × Incident)
    → List (String × Incident) × List Outgoing
close_each w p reason message [] = ([], [])
close_each w p reason message ((key, inc) ∷ rest) =
    let (kept, out) = close_each w p reason message rest in
    if p inc
    then (
      kept,
      if inc.notified then sent (alert_of w inc recovered reason message w.now) ∷ out else out,
    )
    else ((key, inc) ∷ kept, out)

unfoldable pub any_match : (Incident → Bool) → List (String × Incident) → Bool
any_match p [] = false
any_match p ((key, inc) ∷ rest) = if p inc then true else any_match p rest

unfoldable pub close_matching :
    Turn → (Incident → Bool) → String → String → Tracker → Tracker × List Outgoing
unfolding close_each any_match
close_matching w p reason message t =
    let (kept, out) = close_each w p reason message t.incidents in
    let t' = record t { incidents = kept } in
    (if any_match p t.incidents then persist w t' else t', out)

-- `!inc.AutoResolveAt.IsZero() && !now.Before(inc.AutoResolveAt)`
abbrev pub is_due : ℕ → Incident → Bool
is_due now inc = ltb 0 inc.auto_resolve_at && leb inc.auto_resolve_at now

unfoldable pub forget_due :
    ℕ → List (String × Incident) → List (String × RuleState) → List (String × RuleState)
forget_due now [] states = states
forget_due now ((key, inc) ∷ rest) states =
    let states' = if is_due now inc then remove key states else states in
    forget_due now rest states'

-- Sweep
unfoldable pub sweep : Turn → Tracker → Tracker × List Outgoing
unfolding close_each any_match forget_due
sweep w t =
    let (kept, out) =
      close_each w (is_due w.now) "retired"
        "closed automatically: no further attempt since the failure" t.incidents in
    let t' = record t { incidents = kept; states = forget_due w.now t.incidents t.states } in
    (if any_match (is_due w.now) t.incidents then persist w t' else t', out)

-- One turn of the loop of ReleaseHolds, for a held rule.
unfoldable pub release_rule : Turn → String → RuleState → Rule → Tracker → Tracker × List Outgoing
unfolding open_incident set_state with_resolve
release_rule w key st rule t =
    if has_incident (lookup key t.incidents)
      || not (at_least st.fails (normalized rule.policy).fail_after)
      || not (is_clear (hold_for w rule w.now))
    then (t, [])
    else open_incident w key
        (with_resolve rule.policy w.now
          (new_incident w rule key st.first_fail_at w.now st.fails st.last_message))
        st.last_message w.now (set_state key (record st { held = none }) t)

unfoldable pub release_one :
    Turn → String → RuleState → Option Held → Option Rule → Tracker → Tracker × List Outgoing
unfolding release_rule
release_one w key st none r t = (t, [])
release_one w key st (some h) none t = (t, [])
release_one w key st (some h) (some rule) t = release_rule w key st rule t

unfoldable pub release_each : Turn → List (String × RuleState) → Tracker → Tracker × List Outgoing
unfolding release_one
release_each w [] t = (t, [])
release_each w ((key, st) ∷ rest) t =
    let (t1, out) = release_one w key st st.held st.rule t in
    let (t2, more) = release_each w rest t1 in (t2, out ++ more)

-- ReleaseHolds. incidents.json is written after each opening, which leaves what the one write at
-- the end leaves; the number of openings that it returns is left out.
unfoldable pub release_holds : Turn → Tracker → Tracker × List Outgoing
unfolding release_each
release_holds w t = release_each w t.states t
