-- ===== src/Incident/Observe/Answered/Batches.antt =====
-- The operations over all incidents or all held rules, and the adoptions.
use mathlib.Core.List.{append_assoc}
use teploy_dash.Common.{
  ℕ, is_positive, String, Bool, true, false, ◌&&◌, Option, none, some, List, [], ◌∷◌, ◌++◌, ◌≡◌,
  refl, if◌then◌else◌, string_eq, insert, All, All-append, if_elim, Bool-cases, inl, inr, not,
}
use teploy_dash.Alert.{opened, recovered}
use teploy_dash.Incident.{
  Policy, Rule, Incident, Held, Sample, RuleState, Tracker, Turn, Outgoing, sent, normalized,
  key_of, describe, alert_of, new_incident,
}
use teploy_dash.Incident.Observe.{persist, open_incident, with_resolve, set_state}
use teploy_dash.Incident.Observe.Batch.{
  adopt_open, adopt_failing, seed, close_matching, close_each, any_match, sweep, release_holds,
  release_each, release_one, release_rule, is_due, forget_due,
}
use teploy_dash.Incident.Observe.Answered.{
  Fair, Told, IsAnswered, All-insert, Fair-append, Fair-persist, silent, open_incident-IsAnswered,
}

module _ (w : Turn) (log : List Outgoing) where
  closed-Told :
      (p : Incident → Bool) (reason message : String) (m : List (String × Incident))
      → All (Fair log) m
      → All (Fair log) (close_each w p reason message m).0
        × All (Told log) (close_each w p reason message m).1
  unfolding close_each
  closed-Told p reason message [] h = (tt, tt)
  closed-Told p reason message ((key, inc) ∷ rest) h =
      let (k, o) = closed-Told p reason message rest h.1 in
      let one : All (Told log) (
          if inc.notified
          then sent (alert_of w inc recovered reason message w.now)
            ∷ (close_each w p reason message rest).1
          else (close_each w p reason message rest).1) =
        elim (Bool-cases inc.notified) [
          | inl y ↦ rw y (unfold alert_of in λ x. h.0 y, o)
          | inr y ↦ rw y o
        ] in
      if_elim
        (λ (r : List (String × Incident) × List Outgoing). All (Fair log) r.0 × All (Told log) r.1)
        (p inc) _ _ (k, one) ((h.0, k), o)

  persisted-IsAnswered :
      (b : Bool) (t : Tracker) (out : List Outgoing)
      → All (Fair log) t.incidents
      → All (Told log) out
      → IsAnswered log (if b then persist w t else t, out)
  persisted-IsAnswered b t out h o = record {
    fair = Fair-append log out (if b then persist w t else t).incidents (
        if_elim (λ (x : Tracker). All (Fair log) x.incidents) b (persist w t) t
          (Fair-persist w t log h) h);
    told = o;
  }

  pub close_matching-IsAnswered :
      (p : Incident → Bool) (reason message : String) (t : Tracker)
      → All (Fair log) t.incidents
      → IsAnswered log (close_matching w p reason message t)
  unfolding close_matching
  close_matching-IsAnswered p reason message t h =
      let (k, o) = closed-Told p reason message t.incidents h in
      persisted-IsAnswered (any_match p t.incidents)
        (record t { incidents = (close_each w p reason message t.incidents).0 }) _ k o

  pub sweep-IsAnswered : (t : Tracker) → All (Fair log) t.incidents → IsAnswered log (sweep w t)
  unfolding sweep
  sweep-IsAnswered t h =
      let (k, o) =
        closed-Told (is_due w.now) "retired"
          "closed automatically: no further attempt since the failure" t.incidents h in
      persisted-IsAnswered (any_match (is_due w.now) t.incidents)
        (record t {
          incidents =
              (close_each w (is_due w.now) "retired"
                "closed automatically: no further attempt since the failure" t.incidents).0;
          states = forget_due w.now t.incidents t.states;
        })
        _ k o

  adopted-Fair :
      (rule : Rule) (started fails : ℕ) (message : String) (t : Tracker)
      → All (Fair log) t.incidents
      → All
          (Fair log)
          (persist w (record t {
            incidents =
                insert
                  (key_of rule)
                  (new_incident w rule (key_of rule) started w.now fails message)
                  t.incidents;
          })).incidents
  unfolding new_incident describe
  adopted-Fair rule started fails message t h =
      let t1 : Tracker = record t {
        incidents =
            insert (key_of rule) (new_incident w rule (key_of rule) started w.now fails message)
              t.incidents;
      } in
      Fair-persist w t1 log (
        All-insert (Fair log) (key_of rule)
          (new_incident w rule (key_of rule) started w.now fails message) t.incidents (λ x. cc) h)

  pub adopt_open-Fair :
      (rule : Rule) (started fails : ℕ) (message : String) (t : Tracker)
      → All (Fair log) t.incidents
      → All (Fair log) (adopt_open w rule started fails message t).incidents
  unfolding adopt_open
  adopt_open-Fair rule started fails message t h =
      if_elim (λ (x : Tracker). All (Fair log) x.incidents) _ _ _ h
        (adopted-Fair (record rule { policy = normalized rule.policy }) started fails message t h)

  pub adopt_failing-Fair :
      (rule : Rule) (started : ℕ) (message : String) (t : Tracker)
      → All (Fair log) t.incidents
      → All (Fair log) (adopt_failing w rule started message t).0.incidents
  unfolding adopt_failing set_state
  adopt_failing-Fair rule started message t h =
      if_elim (λ (x : Tracker × Bool). All (Fair log) x.0.incidents) _ _ _ h
        (adopted-Fair (record rule { policy = normalized rule.policy }) started _ message
          (set_state _ _ t) h)

  new-quiet :
      (p : Policy) (rule : Rule) (key : String) (started at fails : ℕ) (message : String)
      → (with_resolve p at (new_incident w rule key started at fails message)).notified ≡ false
  unfolding with_resolve new_incident describe
  new-quiet p rule key started at fails message =
      if_elim (λ (x : Incident). x.notified ≡ false) (is_positive p.auto_resolve_after) _ _ refl
        refl

  release_rule-IsAnswered :
      (key : String) (st : RuleState) (rule : Rule) (t : Tracker)
      → All (Fair log) t.incidents
      → IsAnswered log (release_rule w key st rule t)
  unfolding release_rule set_state
  release_rule-IsAnswered key st rule t h = if_elim (IsAnswered log) _ _ _ (silent t log h) (
      open_incident-IsAnswered w log key
        (with_resolve rule.policy w.now
          (new_incident w rule key st.first_fail_at w.now st.fails st.last_message))
        st.last_message w.now (set_state key (record st { held = none }) t)
        (new-quiet rule.policy rule key st.first_fail_at w.now st.fails st.last_message) h)

  release_one-IsAnswered :
      (key : String) (st : RuleState) (x : Option Held) (r : Option Rule) (t : Tracker)
      → All (Fair log) t.incidents
      → IsAnswered log (release_one w key st x r t)
  unfolding release_one
  release_one-IsAnswered key st none r t h = silent t log h
  release_one-IsAnswered key st (some y) none t h = silent t log h
  release_one-IsAnswered key st (some y) (some rule) t h = release_rule-IsAnswered key st rule t h

record Tells (log : List Outgoing) (r : Tracker × List Outgoing) : Type 0 where
  told : All (Told log) r.1

module _ (w : Turn) where
  -- A release sends openings only, so its alerts are told whatever was sent before.
  open_incident-Tells :
      (log : List Outgoing) (key : String) (inc : Incident) (message : String) (at : ℕ)
      (t : Tracker)
      → Tells log (open_incident w key inc message at t)
  unfolding open_incident alert_of
  open_incident-Tells log key inc message at t =
      let inc' : Incident = record inc { notified = true; last_notified_at = at } in
      let loud : Tells log (
        persist w (record t { incidents = insert key inc' t.incidents }),
        sent (alert_of w inc' opened "" message at) ∷ [],
      ) =
        record { told = (λ x. cc, tt) } in
      let quiet : Tells log (persist w (record t { incidents = insert key inc t.incidents }), []) =
        record { told = tt } in
      if_elim (Tells log) (not t.adopting && w.has_channels) _ _ loud quiet

  release_one-Tells :
      (log : List Outgoing) (key : String) (st : RuleState) (x : Option Held) (r : Option Rule)
      (t : Tracker)
      → Tells log (release_one w key st x r t)
  unfolding release_one release_rule
  release_one-Tells log key st none r t = record { told = tt }
  release_one-Tells log key st (some y) none t = record { told = tt }
  release_one-Tells log key st (some y) (some rule) t =
      let quiet : Tells log (t, []) = record { told = tt } in
      if_elim (Tells log) _ _ _ quiet (
        open_incident-Tells log key
          (with_resolve rule.policy w.now
            (new_incident w rule key st.first_fail_at w.now st.fails st.last_message))
          st.last_message w.now (set_state key (record st { held = none }) t))

  release_each-Told :
      (log : List Outgoing) (states : List (String × RuleState)) (t : Tracker)
      → All (Told log) (release_each w states t).1
  unfolding release_each
  release_each-Told log [] t = tt
  release_each-Told log ((key, st) ∷ rest) t =
      All-append (Told log) (release_one w key st st.held st.rule t).1 _
        (release_one-Tells log key st st.held st.rule t).told
        (release_each-Told log rest (release_one w key st st.held st.rule t).0)

  release_each-Fair :
      (log : List Outgoing) (states : List (String × RuleState)) (t : Tracker)
      → All (Fair log) t.incidents
      → All (Fair (log ++ (release_each w states t).1)) (release_each w states t).0.incidents
  unfolding release_each
  release_each-Fair log [] t h = Fair-append log [] t.incidents h
  release_each-Fair log ((key, st) ∷ rest) t h =
      let r = release_one w key st st.held st.rule t in
      rw (← append_assoc log r.1 (release_each w rest r.0).1) (
        release_each-Fair (log ++ r.1) rest r.0
          (release_one-IsAnswered w log key st st.held st.rule t h).fair)

  pub release_holds-IsAnswered :
      (log : List Outgoing) (t : Tracker)
      → All (Fair log) t.incidents
      → IsAnswered log (release_holds w t)
  unfolding release_holds
  release_holds-IsAnswered log t h = record {
    fair = release_each-Fair log t.states t h;
    told = release_each-Told log t.states t;
  }

pub seed-Fair :
    (log : List Outgoing) (rule : Rule) (history : List Sample) (t : Tracker)
    → All (Fair log) t.incidents
    → All (Fair log) (seed rule history t).incidents
unfolding seed set_state
seed-Fair log rule history t h = h
