-- ===== src/Incident/Observe/Limit.antt =====
-- When an incident opens.
use teploy_dash.Common.{
  ℕ, ◌+◌, ◌≤◌, String, Bool, true, false, Option, none, some, ◌≡◌, refl, ap, sym, ◌∙◌, arith,
  string_eq, lookup, pos_part, Bool-cases, inl, inr,
}
use teploy_dash.Incident.{
  Rule, Incident, RuleState, Held, Tracker, Turn, normalized, key_of, hold_for, at_least,
}
use teploy_dash.Incident.Observe.{
  observe, observed, counted, set_state, state_of, failed_rule, failed_limit, hold_rule,
  passed_rule,
}

-- An incident is there for the key.
abbrev IsOpen : String → Tracker → Type 0
IsOpen key t = (inc : Incident) × (lookup key t.incidents ≡ some inc)

-- What opening takes: a failure that reaches the limit, with no hold and no silence.
pub record Opens (w : Turn) (rule : Rule) (ok : Bool) (at : ℕ) (t : Tracker) : Type 0 where
  pub failed : ok ≡ false
  pub limit : pos_part (normalized rule.policy).fail_after ≤ (state_of (key_of rule) t).fails + 1
  pub free : hold_for w (record rule { policy = normalized rule.policy }) at ≡ none

module _ (w : Turn) (rule : Rule) (at : ℕ) (message : String) where
  incidents-hold_rule :
      (why : String) (st : RuleState) (x : Option Held) (t : Tracker)
      → (hold_rule w rule at message why st x t).0.incidents ≡ t.incidents
  unfolding hold_rule set_state
  incidents-hold_rule why st none t = refl
  incidents-hold_rule why st (some h) t = refl

  limit-free :
      (st : RuleState) (x : Option String) (t : Tracker) (key : String)
      → lookup key t.incidents ≡ none
      → IsOpen key (failed_limit w rule at message st x t).0
      → x ≡ none
  unfolding failed_limit
  limit-free st none t key l h = refl
  limit-free st (some why) t key l (inc, f) =
      let g = incidents-hold_rule why st st.held t in
      let e : none ≡ some inc = sym l ∙ ap (lookup key) (sym g) ∙ f in cc

  failed-Opens :
      (st : RuleState) (x : Option Incident) (t : Tracker) (key : String)
      → x ≡ none
      → lookup key t.incidents ≡ none
      → IsOpen key (failed_rule w rule at message st x t).0
      → (at_least st.fails rule.policy.fail_after ≡ true) × (hold_for w rule at ≡ none)
  unfolding failed_rule
  failed-Opens st (some y) t key n l = λ h. cc
  failed-Opens st none t key n l = elim (Bool-cases (at_least st.fails rule.policy.fail_after)) [
    | inl y ↦ rw y (λ h. (refl, limit-free st (hold_for w rule at) t key l h))
    | inr y ↦ rw y (λ h. let (inc, f) = h in let e : none ≡ some inc = sym l ∙ f in cc)
  ]

  passed-closed :
      (st : RuleState) (x : Option Incident) (t : Tracker) (key : String)
      → x ≡ none
      → lookup key t.incidents ≡ none
      → IsOpen key (passed_rule w rule at message st x t).0
      → true ≡ false
  unfolding passed_rule
  passed-closed st (some y) t key n l h = cc
  passed-closed st none t key n l (inc, f) = let e : none ≡ some inc = sym l ∙ f in cc

  observed-Opens :
      (ok : Bool) (st : RuleState) (t : Tracker)
      → lookup (key_of rule) t.incidents ≡ none
      → IsOpen (key_of rule) (observed ok w rule at message st t).0
      → (ok ≡ false)
        × (at_least st.fails rule.policy.fail_after ≡ true)
        × (hold_for w rule at ≡ none)
  unfolding observed
  observed-Opens true st t l h =
      let e = passed-closed st (lookup (key_of rule) t.incidents) t (key_of rule) l l h in cc
  observed-Opens false st t l h =
      let (a, b) = failed-Opens st (lookup (key_of rule) t.incidents) t (key_of rule) l l h in
      (refl, a, b)

fails-counted :
    (ok : Bool) (rule : Rule) (at : ℕ) (message : String) (st : RuleState)
    → ok ≡ false
    → (counted ok rule at message st).fails ≡ st.fails + 1
unfolding counted
fails-counted true rule at message st h = cc
fails-counted false rule at message st h = refl

-- An observation that opens an incident for a rule that had none is a failure, brings the count of
-- consecutive failures to the rule's limit (at least one), and finds the rule neither silenced nor
-- held.
pub observe-Opens :
    (w : Turn) (rule : Rule) (ok : Bool) (at : ℕ) (message : String) (t : Tracker)
    → lookup (key_of rule) t.incidents ≡ none
    → (inc : Incident) × (lookup (key_of rule) (observe w rule ok at message t).0.incidents
        ≡ some inc)
    → Opens w rule ok at t
unfolding observe set_state key_of counted
observe-Opens w rule ok at message t l h =
    let rule' : Rule = record rule { policy = normalized rule.policy } in
    let st = counted ok rule' at message (state_of (key_of rule) t) in
    let (f, n, g) = observed-Opens w rule' at message ok st (set_state (key_of rule) st t) l h in
    record {
      failed = f;
      limit = ground (arith, n, fails-counted ok rule' at message (state_of (key_of rule) t) f);
      free = g;
    }
