-- ===== src/Outbox/Attempt/Legs.antt =====
-- What one round does to the channels' legs.
use teploy_dash.Common.{
  ℕ, String, true, false, Option, none, some, List, [], ◌∷◌, ◌≡◌, refl, ap, sym, ◌∙◌, arith,
  if_elim, ◌==◌, string_eq, lookup, insert, lookup-insert, All, Bool-cases, inl, inr, leb, pos_part,
}
use teploy_dash.Alert.Channels.{channels_for}
use teploy_dash.Outbox.{Record, Leg, Options, is_pending, is_delivered}
use teploy_dash.Outbox.Send.{Source, readable, unreadable}
use teploy_dash.Outbox.Attempt.{
  Failure, Turn, Tried, leg_delivered, outcomes_of, tried, tried_with, updated, settled, counted,
  concluded, failed_round, all_dead, dead, leg_or_new, answered,
}

abbrev pub Unsent : String → List (String × Option Failure) → Type 0
Unsent c outs = All (λ (x : String × Option Failure). (x.0 == c) ≡ false) outs

outcomes_of-Unsent :
    (w : Turn) (legs : List (String × Leg)) (c : String)
    → leg_delivered (lookup c legs) ≡ true
    → (cs : List String) → Unsent c (outcomes_of w legs cs)
unfolding outcomes_of
outcomes_of-Unsent w legs c h [] = tt
outcomes_of-Unsent w legs c h (d ∷ cs) = elim (Bool-cases (leg_delivered (lookup d legs))) [
  | inl y ↦ rw y (outcomes_of-Unsent w legs c h cs)
  | inr y ↦ rw y (
      (
        elim (Bool-cases (d == c)) [
          | inl z ↦
              let same : d ≡ c = (string_eq.beq_iff d c).0 z in
              let clash : true ≡ false =
                sym h ∙ ap (λ x. leg_delivered (lookup x legs)) (sym same) ∙ y in
              cc
          | inr z ↦ z
        ],
        outcomes_of-Unsent w legs c h cs,
      ))
]

tried-Unsent :
    (w : Turn) (r : Record) (c : String)
    → leg_delivered (lookup c r.channels) ≡ true
    → Unsent c (tried w r).outcomes
unfolding tried
tried-Unsent w r c h = by_source w.config
  where
    by_source : (s : Source) → Unsent c (tried_with w r s).outcomes
    by_source (unreadable why) = unfold tried_with in tt
    by_source (readable cfg) =
        unfold tried_with in
        if_elim (λ (t : Tried). Unsent c t.outcomes) w.per_channel _ _
          (outcomes_of-Unsent w r.channels c h (channels_for cfg r.event)) tt

tried-one_by_one : (w : Turn) (r : Record) → w.per_channel ≡ true → (tried w r).whole_send ≡ false
unfolding tried
tried-one_by_one w r p = by_source w.config
  where
    by_source : (s : Source) → (tried_with w r s).whole_send ≡ false
    by_source (unreadable why) = unfold tried_with in refl
    by_source (readable cfg) = unfold tried_with in rw p refl

lookup-updated :
    (o : Options) (now : ℕ) (c : String) (outs : List (String × Option Failure))
    (legs : List (String × Leg))
    → Unsent c outs
    → lookup c (updated o now outs legs) ≡ lookup c legs
unfolding updated
lookup-updated o now c [] legs u = refl
lookup-updated o now c ((d, f) ∷ rest) legs u =
    let l = answered o now (leg_or_new (lookup d legs)) f in
    lookup-updated o now c rest (insert d l legs) u.1
    ∙ ground (arith, u.0, lookup-insert d c l legs)

lookup-all_dead :
    (c : String) (legs : List (String × Leg)) (l : Leg)
    → is_delivered l.status ≡ true
    → lookup c legs ≡ some l
    → lookup c (all_dead legs) ≡ some l
unfolding all_dead dead lookup is_pending is_delivered
lookup-all_dead c [] l d h = h
lookup-all_dead c ((k, m) ∷ rest) l d h = ground (arith, lookup-all_dead c rest l d)

concluded-leg :
    (o : Options) (now retry : ℕ) (r : Record) (v : Option String) (c : String) (l : Leg)
    → is_delivered l.status ≡ true
    → lookup c r.channels ≡ some l
    → lookup c (concluded o now retry r v).channels ≡ some l
unfolding concluded failed_round
concluded-leg o now retry r none c l d h = h
concluded-leg o now retry r (some text) c l d h =
    if_elim (λ (x : Record). lookup c x.channels ≡ some l)
      (leb (pos_part o.max_attempts) r.attempts) _ _ (lookup-all_dead c r.channels l d h) h

-- Where the sender delivers one channel at a time, a channel that has acknowledged an alert is not
-- sent it again: the next round makes no whole send, does not call the channel, and leaves its leg as it is, whatever becomes of the
-- others.
pub settled-leg :
    (o : Options) (w : Turn) (r : Record) (c : String) (l : Leg)
    → w.per_channel ≡ true
    → is_delivered l.status ≡ true
    → lookup c r.channels ≡ some l
    → ((tried w r).whole_send ≡ false)
      × Unsent c (tried w r).outcomes
      × (lookup c (settled o w (tried w r) r).channels ≡ some l)
unfolding settled leg_delivered
settled-leg o w r c l one_by_one d h =
    let u = tried-Unsent w r c (rw h d) in
    (
      tried-one_by_one w r one_by_one,
      u,
      concluded-leg o w.now _ (counted o w (tried w r) r) _ c l d
          (lookup-updated o w.now c (tried w r).outcomes r.channels u ∙ h),
    )
