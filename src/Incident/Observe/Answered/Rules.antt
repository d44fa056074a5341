-- ===== src/Incident/Observe/Answered/Rules.antt =====
-- One rule's observation, and its retirement.
use teploy_dash.Common.{
  ℕ, ◌+◌, is_positive, pos_part, String, Bool, true, false, Option, none, some, List, [], ◌≡◌, refl,
  if◌then◌else◌, ◌==◌, string_eq, lookup, insert, remove, All, if_elim,
}
use teploy_dash.Incident.{
  Policy, Rule, Incident, Held, RuleState, Tracker, Turn, Outgoing, normalized, key_of, describe,
  hold_for, new_incident, at_least,
}
use teploy_dash.Incident.Observe.{
  persist, observe, retire, failed_open, hold_rule, failed_limit, failed_rule, passed_rule,
  observed, retire_found, with_resolve, set_state,
}
use teploy_dash.Incident.Observe.Answered.{
  Fair, IsAnswered, All-insert, Fair-lookup, Fair-append, Fair-persist, silent,
  open_incident-IsAnswered, repeat_incident-IsAnswered, close_incident-IsAnswered, announced,
}

module _ (w : Turn) (log : List Outgoing) where
  resolved-Fair :
      (p : Policy) (at : ℕ) (inc : Incident)
      → (inc.notified ≡ true → announced inc.id log ≡ true)
      → (with_resolve p at inc).notified ≡ true
      → announced (with_resolve p at inc).id log ≡ true
  unfolding with_resolve
  resolved-Fair p at inc n =
      if_elim (λ (x : Incident). x.notified ≡ true → announced x.id log ≡ true)
        (is_positive p.auto_resolve_after)
        (record inc { auto_resolve_at = at + pos_part p.auto_resolve_after }) inc n n

  failed_open-IsAnswered :
      (rule : Rule) (at : ℕ) (message : String) (st : RuleState) (old : Incident) (t : Tracker)
      → (old.notified ≡ true → announced old.id log ≡ true)
      → All (Fair log) t.incidents
      → IsAnswered log (failed_open w rule at message st old t)
  unfolding failed_open describe
  failed_open-IsAnswered rule at message st old t n h =
      let inc : Incident = record (describe rule old) {
        consecutive_failures = st.fails;
        message = message;
      } in
      let t' : Tracker = record t {
        incidents = insert (key_of rule) (with_resolve rule.policy at inc) t.incidents;
      } in
      let h' : All (Fair log) t'.incidents =
        All-insert (Fair log) (key_of rule) (with_resolve rule.policy at inc) t.incidents
          (resolved-Fair rule.policy at inc n) h in
      if_elim (IsAnswered log) _ _ _
        (repeat_incident-IsAnswered w log (key_of rule) inc message at t n h)
        (if_elim (IsAnswered log) _ _ _
          (repeat_incident-IsAnswered w log (key_of rule) (with_resolve rule.policy at inc) message
            at t (resolved-Fair rule.policy at inc n) h)
          (if_elim (λ x. IsAnswered log (x, [])) (is_positive rule.policy.auto_resolve_after)
            (persist w t') t' (silent (persist w t') log (Fair-persist w t' log h'))
            (silent t' log h')))

  hold_rule-IsAnswered :
      (rule : Rule) (at : ℕ) (message why : String) (st : RuleState) (x : Option Held) (t : Tracker)
      → All (Fair log) t.incidents
      → IsAnswered log (hold_rule w rule at message why st x t)
  unfolding hold_rule
  hold_rule-IsAnswered rule at message why st (some y) t h = record {
    fair = Fair-append log [] t.incidents h;
    told = tt;
  }
  hold_rule-IsAnswered rule at message why st none t h = record {
    fair = Fair-append log _ t.incidents h;
    told = (tt, tt);
  }

  failed_limit-IsAnswered :
      (rule : Rule) (at : ℕ) (message : String) (st : RuleState) (x : Option String) (t : Tracker)
      → All (Fair log) t.incidents
      → IsAnswered log (failed_limit w rule at message st x t)
  unfolding failed_limit set_state new_incident describe with_resolve
  failed_limit-IsAnswered rule at message st (some why) t h =
      hold_rule-IsAnswered rule at message why st st.held t h
  failed_limit-IsAnswered rule at message st none t h =
      open_incident-IsAnswered w log (key_of rule)
        (with_resolve rule.policy at
          (new_incident w rule (key_of rule) st.first_fail_at at st.fails message))
        message at (set_state (key_of rule) (record st { held = none }) t)
        (if_elim (λ (x : Incident). x.notified ≡ false) (is_positive rule.policy.auto_resolve_after)
          _ _ refl refl)
        h

  failed_rule-IsAnswered :
      (rule : Rule) (at : ℕ) (message : String) (st : RuleState) (x : Option Incident) (t : Tracker)
      → lookup (key_of rule) t.incidents ≡ x
      → All (Fair log) t.incidents
      → IsAnswered log (failed_rule w rule at message st x t)
  unfolding failed_rule
  failed_rule-IsAnswered rule at message st (some inc) t l h =
      failed_open-IsAnswered rule at message st inc t
        (Fair-lookup log (key_of rule) inc t.incidents l h) h
  failed_rule-IsAnswered rule at message st none t l h =
      if_elim (IsAnswered log) (at_least st.fails rule.policy.fail_after) _ _
        (failed_limit-IsAnswered rule at message st (hold_for w rule at) t h) (silent t log h)

  passed_rule-IsAnswered :
      (rule : Rule) (at : ℕ) (message : String) (st : RuleState) (x : Option Incident) (t : Tracker)
      → lookup (key_of rule) t.incidents ≡ x
      → All (Fair log) t.incidents
      → IsAnswered log (passed_rule w rule at message st x t)
  unfolding passed_rule describe
  passed_rule-IsAnswered rule at message st none t l h = silent t log h
  passed_rule-IsAnswered rule at message st (some inc) t l h =
      if_elim (IsAnswered log) (at_least st.oks rule.policy.recover_after) _ _
        (close_incident-IsAnswered w log (key_of rule) (describe rule inc) ""
          (if message == "" then "recovered" else message) at t
          (Fair-lookup log (key_of rule) inc t.incidents l h) h)
        (silent t log h)

  observed-IsAnswered :
      (ok : Bool) (rule : Rule) (at : ℕ) (message : String) (st : RuleState) (t : Tracker)
      → All (Fair log) t.incidents
      → IsAnswered log (observed ok w rule at message st t)
  unfolding observed
  observed-IsAnswered true rule at message st t h =
      passed_rule-IsAnswered rule at message st _ t refl h
  observed-IsAnswered false rule at message st t h =
      failed_rule-IsAnswered rule at message st _ t refl h

  -- An observation keeps the books: if every incident marked as announced was announced, that is
  -- so afterwards, and a recovery that the observation sends answers an opening sent before.
  pub observe-IsAnswered :
      (rule : Rule) (ok : Bool) (at : ℕ) (message : String) (t : Tracker)
      → All (Fair log) t.incidents
      → IsAnswered log (observe w rule ok at message t)
  unfolding observe set_state
  observe-IsAnswered rule ok at message t h =
      observed-IsAnswered ok (record rule { policy = normalized rule.policy }) at message _ _ h

  retire_found-IsAnswered :
      (key message : String) (t : Tracker) (x : Option Incident)
      → lookup key t.incidents ≡ x
      → All (Fair log) t.incidents
      → IsAnswered log (retire_found w key message t x)
  unfolding retire_found
  retire_found-IsAnswered key message t none l h = silent t log h
  retire_found-IsAnswered key message t (some inc) l h =
      close_incident-IsAnswered w log key inc "retired" _ w.now t
        (Fair-lookup log key inc t.incidents l h) h

  pub retire-IsAnswered :
      (key message : String) (t : Tracker)
      → All (Fair log) t.incidents
      → IsAnswered log (retire w key message t)
  unfolding retire
  retire-IsAnswered key message t h =
      retire_found-IsAnswered key message (record t { states = remove key t.states })
        (lookup key t.incidents) refl h
