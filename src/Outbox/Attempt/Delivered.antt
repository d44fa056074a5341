-- ===== src/Outbox/Attempt/Delivered.antt =====
-- When a round ends a delivery.
use mathlib.Core.Path.{subst}
use teploy_dash.Common.{
  ℕ, String, true, false, Option, none, some, List, [], ◌∷◌, ◌≡◌, ◌↔◌, refl, ap, sym, ◌∙◌,
  if◌then◌else◌, if_elim, ◌==◌, string_eq, lookup, insert, All, Bool-cases, inl, inr, leb, pos_part,
}
use teploy_dash.Alert.Channels.{Config, channels_for}
use teploy_dash.Outbox.{Record, Leg, Options, is_delivered}
use teploy_dash.Outbox.Send.{readable}
use teploy_dash.Outbox.Attempt.Answered.{Acknowledges, AllDelivered-iff}
use teploy_dash.Outbox.Attempt.{
  Failure, Turn, Tried, leg_delivered, outcomes_of, tried, tried_with, updated, counted, settled,
  concluded, failed_round, verdict, first_error, no_legs, error_of,
}

abbrev AllDelivered : List (String × Leg) → List String → Type 0
AllDelivered legs cs = All (λ c. leg_delivered (lookup c legs) ≡ true) cs

first_error-none :
    (legs : List (String × Leg)) (cs : List String)
    → first_error legs cs ≡ none
    → AllDelivered legs cs
unfolding first_error
first_error-none legs [] h = tt
first_error-none legs (c ∷ cs) h = elim (Bool-cases (leg_delivered (lookup c legs))) [
  | inl y ↦ (y, first_error-none legs cs (rw y at h))
  | inr y ↦ let clash : some _ ≡ none = rw y at h in cc
]

first_error-AllDelivered :
    (legs : List (String × Leg)) (cs : List String)
    → AllDelivered legs cs
    → first_error legs cs ≡ none
unfolding first_error
first_error-AllDelivered legs [] h = refl
first_error-AllDelivered legs (c ∷ cs) h = rw h.0 (first_error-AllDelivered legs cs h.1)

no_legs-insert :
    (c : String) (l : Leg) (legs : List (String × Leg)) → no_legs (insert c l legs) ≡ false
unfolding no_legs insert
no_legs-insert c l [] = refl
no_legs-insert c l ((d, m) ∷ rest) = if_elim (λ x. no_legs x ≡ false) (d == c) _ _ refl refl

no_legs-updated :
    (o : Options) (now : ℕ) (outs : List (String × Option Failure)) (legs : List (String × Leg))
    → no_legs legs ≡ false
    → no_legs (updated o now outs legs) ≡ false
unfolding updated
no_legs-updated o now [] legs h = h
no_legs-updated o now ((c, f) ∷ rest) legs h =
    no_legs-updated o now rest _ (no_legs-insert c _ legs)

no_legs-one_more :
    (o : Options) (now : ℕ) (c : String) (f : Option Failure)
    (rest : List (String × Option Failure)) (legs : List (String × Leg))
    → no_legs (updated o now ((c, f) ∷ rest) legs) ≡ false
unfolding updated
no_legs-one_more o now c f rest legs = no_legs-updated o now rest _ (no_legs-insert c _ legs)

-- Where there is no leg after a round, the alert goes to no channel.
no_legs-routed :
    (o : Options) (w : Turn) (legs : List (String × Leg)) (cs : List String)
    → no_legs (updated o w.now (outcomes_of w legs cs) legs) ≡ true
    → AllDelivered (updated o w.now (outcomes_of w legs cs) legs) cs
unfolding outcomes_of leg_delivered lookup
no_legs-routed o w legs [] h = tt
no_legs-routed o w [] (c ∷ cs) h =
    let clash : true ≡ false =
      sym h ∙ no_legs-one_more o w.now c (w.channel_answer c) (outcomes_of w [] cs) [] in
    cc
no_legs-routed o w ((d, l) ∷ legs) (c ∷ cs) h =
    let some_left : no_legs
          (updated o w.now (outcomes_of w ((d, l) ∷ legs) (c ∷ cs)) ((d, l) ∷ legs))
        ≡ false =
      no_legs-updated o w.now (outcomes_of w ((d, l) ∷ legs) (c ∷ cs)) ((d, l) ∷ legs)
        (unfold no_legs in refl) in
    let clash : true ≡ false = sym h ∙ some_left in cc

module _ (o : Options) (w : Turn) (r : Record) (cfg : Config) where
  -- What a round comes to that sends one channel at a time under a readable configuration.
  one_by_one : Tried
  one_by_one = record {
    outcomes = outcomes_of w r.channels (channels_for cfg r.event);
    failure = none;
    config_failed = false;
    routed = channels_for cfg r.event;
    whole_send = false;
  }

  legs_then : List (String × Leg)
  unfolding one_by_one
  legs_then = (counted o w one_by_one r).channels

  verdict-none :
      verdict o one_by_one legs_then ≡ none → AllDelivered legs_then (channels_for cfg r.event)
  unfolding verdict one_by_one legs_then error_of
  verdict-none h = elim (Bool-cases (no_legs legs_then)) [
    | inl y ↦ no_legs-routed o w r.channels (channels_for cfg r.event) y
    | inr y ↦ first_error-none legs_then (channels_for cfg r.event) (rw y at h)
  ]

  verdict-AllDelivered :
      AllDelivered legs_then (channels_for cfg r.event) → verdict o one_by_one legs_then ≡ none
  unfolding verdict one_by_one legs_then error_of
  verdict-AllDelivered h = elim (Bool-cases (no_legs legs_then)) [
    | inl y ↦ rw y refl
    | inr y ↦ rw y (first_error-AllDelivered legs_then (channels_for cfg r.event) h)
  ]

  concluded_iff :
      (now retry : ℕ) (q : Record) (v : Option String)
      → is_delivered q.status ≡ false
      → (is_delivered (concluded o now retry q v).status ≡ true) ↔ (v ≡ none)
  unfolding concluded failed_round is_delivered
  concluded_iff now retry q none d = (λ h. refl, λ h. refl)
  concluded_iff now retry q (some text) d =
      if_elim (λ (x : Record). (is_delivered x.status ≡ true) ↔ (some text ≡ none))
        (leb (pos_part o.max_attempts) q.attempts) _ _ (λ h. cc, λ h. cc)
        (λ h. let clash : false ≡ true = sym d ∙ h in cc, λ h. cc)

  one_by_one_iff :
      is_delivered r.status ≡ false
      → (is_delivered (settled o w one_by_one r).status ≡ true)
        ↔ All (Acknowledges w r.channels) (channels_for cfg r.event)
  unfolding settled legs_then one_by_one
  one_by_one_iff d =
      let ends =
        concluded_iff w.now _ (counted o w one_by_one r) (verdict o one_by_one legs_then) d in
      let told = AllDelivered-iff o w r.channels (channels_for cfg r.event) in
      (λ h. told.0 (verdict-none (ends.0 h)), λ h. ends.1 (verdict-AllDelivered (told.1 h)))

  tried-one_by_one : w.config ≡ readable cfg → w.per_channel ≡ true → tried w r ≡ one_by_one
  unfolding tried tried_with one_by_one
  tried-one_by_one e p = ap (tried_with w r) e ∙ ap (λ b. if b then one_by_one else whole) p
    where
      whole : Tried
      whole = record {
        outcomes = [];
        failure = w.whole_answer;
        config_failed = false;
        routed = channels_for cfg r.event;
        whole_send = true;
      }

-- A round that sends one channel at a time under a readable configuration, on a record that is not
-- delivered, makes it delivered exactly when for every channel that its event is routed to either the
-- leg was delivered before or the sender's answer in this round is no error. A channel that is no
-- longer routed to does not count.
pub settled_iff :
    (o : Options) (w : Turn) (r : Record) (cfg : Config)
    → w.config ≡ readable cfg
    → w.per_channel ≡ true
    → is_delivered r.status ≡ false
    → (is_delivered (settled o w (tried w r) r).status ≡ true)
      ↔ All (Acknowledges w r.channels) (channels_for cfg r.event)
settled_iff o w r cfg e p d =
    subst
      (λ (t : Tried).
        (is_delivered (settled o w t r).status ≡ true)
        ↔ All (Acknowledges w r.channels) (channels_for cfg r.event))
      (sym (tried-one_by_one o w r cfg e p)) (one_by_one_iff o w r cfg d)
