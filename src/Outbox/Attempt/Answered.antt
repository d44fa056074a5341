-- ===== src/Outbox/Attempt/Answered.antt =====
-- What the senders answered, as the legs show it after a round.
use teploy_dash.Common.{
  ℕ, String, true, false, Option, none, some, List, [], ◌∷◌, ◌≡◌, refl, ap, sym, ◌∙◌, arith, ◌⊎◌,
  ◌↔◌, if◌then◌else◌, if_elim, ◌==◌, string_eq, lookup, insert, lookup-insert, Bool, not, ◌&&◌,
  ◌||◌, All, Bool-cases, inl, inr, beq_refl,
}
use teploy_dash.Alert.Channels.{contains}
use teploy_dash.Outbox.{Leg, Options, is_delivered}
use teploy_dash.Outbox.Attempt.{
  Failure, Turn, leg_delivered, outcomes_of, updated, answered, leg_or_new,
}

-- What the senders answered, in the legs: whether a channel that is routed to has acknowledged.
answered_ok : Option Failure → Bool
answered_ok none = true
answered_ok (some f) = false

tried_for : String → List (String × Option Failure) → Bool
tried_for c [] = false
tried_for c ((d, f) ∷ rest) = let others = tried_for c rest in if d == c then true else others

leg_delivered-answered :
    (o : Options) (now : ℕ) (l : Leg) (f : Option Failure)
    → leg_delivered (some (answered o now l f)) ≡ answered_ok f
unfolding leg_delivered answered answered_ok is_delivered
leg_delivered-answered o now l none = refl
leg_delivered-answered o now l (some f) = refl

module _ (o : Options) (w : Turn) (c : String) where
  -- Every outcome is what the channel answered.
  abbrev Faithful : List (String × Option Failure) → Type 0
  Faithful outs = All (λ (x : String × Option Failure). x.1 ≡ w.channel_answer x.0) outs

  leg_delivered-updated :
      (outs : List (String × Option Failure)) (legs : List (String × Leg))
      → Faithful outs
      → leg_delivered (lookup c (updated o w.now outs legs)) ≡ (
          if tried_for c outs
          then answered_ok (w.channel_answer c)
          else leg_delivered (lookup c legs))
  unfolding updated tried_for
  leg_delivered-updated [] legs u = refl
  leg_delivered-updated ((d, f) ∷ rest) legs u =
      let l = answered o w.now (leg_or_new (lookup d legs)) f in
      let ih = leg_delivered-updated rest (insert d l legs) u.1 in
      elim (Bool-cases (d == c)) [
        | inl y ↦
            let same : d ≡ c = (string_eq.beq_iff d c).0 y in
            let there : lookup c (insert d l legs) ≡ some l =
              lookup-insert d c l legs ∙ ground (arith, y) in
            let now_it : leg_delivered (lookup c (insert d l legs))
                ≡ answered_ok (w.channel_answer c) =
              ap leg_delivered there
              ∙ leg_delivered-answered o w.now (leg_or_new (lookup d legs)) f
              ∙ ap answered_ok (u.0 ∙ ap w.channel_answer same) in
            rw y (
              ih
              ∙ ap (λ x. if tried_for c rest then answered_ok (w.channel_answer c) else x) now_it
              ∙ if_same (tried_for c rest) (answered_ok (w.channel_answer c)))
        | inr y ↦
            let there : lookup c (insert d l legs) ≡ lookup c legs =
              lookup-insert d c l legs ∙ ground (arith, y) in
            rw y (
              ih
              ∙ ap
                  (λ x.
                    if tried_for c rest then answered_ok (w.channel_answer c) else leg_delivered x)
                  there)
      ]
    where
      if_same : (b x : Bool) → (if b then x else x) ≡ x
      if_same true x = refl
      if_same false x = refl

  outcomes_of-Faithful :
      (legs : List (String × Leg)) (cs : List String) → Faithful (outcomes_of w legs cs)
  unfolding outcomes_of
  outcomes_of-Faithful legs [] = tt
  outcomes_of-Faithful legs (d ∷ cs) =
      if_elim Faithful (leg_delivered (lookup d legs)) _ _ (outcomes_of-Faithful legs cs)
        (refl, outcomes_of-Faithful legs cs)

  -- A round tries exactly the routed channels that have not acknowledged before.
  tried_for-outcomes_of :
      (legs : List (String × Leg)) (cs : List String)
      → tried_for c (outcomes_of w legs cs) ≡ (contains cs c && not (leg_delivered (lookup c legs)))
  unfolding tried_for outcomes_of contains
  tried_for-outcomes_of legs [] = refl
  tried_for-outcomes_of legs (d ∷ cs) =
      let ih = tried_for-outcomes_of legs cs in
      elim (Bool-cases (d == c)) [
        | inl y ↦
            let same = (string_eq.beq_iff d c).0 y in
            let flag = ap (λ x. leg_delivered (lookup x legs)) same in
            elim (Bool-cases (leg_delivered (lookup d legs))) [
              | inl z ↦ rw (z, y) (ih ∙ both (contains cs c) _ (sym flag ∙ z))
              | inr z ↦ rw (z, y) (sym (ap not (sym flag ∙ z)))
            ]
        | inr y ↦ elim (Bool-cases (leg_delivered (lookup d legs))) [
          | inl z ↦ rw (z, y) ih
          | inr z ↦ rw (z, y) ih
        ]
      ]
    where
      both : (b x : Bool) → x ≡ true → (b && not x) ≡ (true && not x)
      both b x h = ground arith

  leg_delivered-round :
      (legs : List (String × Leg)) (cs : List String)
      → contains cs c ≡ true
      → leg_delivered (lookup c (updated o w.now (outcomes_of w legs cs) legs))
        ≡ (leg_delivered (lookup c legs) || answered_ok (w.channel_answer c))
  leg_delivered-round legs cs h =
      leg_delivered-updated (outcomes_of w legs cs) legs (outcomes_of-Faithful legs cs)
      ∙ ground (arith, h, tried_for-outcomes_of legs cs)

-- The channel acknowledged the alert before, or it acknowledges it in this round.
abbrev pub Acknowledges : Turn → List (String × Leg) → String → Type 0
Acknowledges w legs c = (leg_delivered (lookup c legs) ≡ true) ⊎ (w.channel_answer c ≡ none)

Acknowledges-iff :
    (w : Turn) (legs : List (String × Leg)) (c : String)
    → ((leg_delivered (lookup c legs) || answered_ok (w.channel_answer c)) ≡ true)
      ↔ Acknowledges w legs c
unfolding answered_ok
Acknowledges-iff w legs c = by_answer (w.channel_answer c) (leg_delivered (lookup c legs))
  where
    by_answer :
        (x : Option Failure) (b : Bool) → ((b || answered_ok x) ≡ true) ↔ ((b ≡ true) ⊎ (x ≡ none))
    by_answer none true = (λ h. inl refl, λ h. refl)
    by_answer none false = (λ h. inr refl, λ h. refl)
    by_answer (some f) true = (λ h. inl refl, λ h. refl)
    by_answer (some f) false = (λ h. cc, λ h. elim h [ inl e ↦ cc | inr e ↦ cc ])

-- What follows for each member of a list follows for all of it.
All-contained :
    (P Q : String → Type 0) (cs : List String)
    → ((c : String) → contains cs c ≡ true → P c → Q c)
    → All P cs
    → All Q cs
unfolding contains
All-contained P Q [] k h = tt
All-contained P Q (c ∷ cs) k h = (
  k c (rw (beq_refl c) refl) h.0,
  All-contained P Q cs
      (λ d e p. k d (if_elim (λ x. x ≡ true) (c == d) true (contains cs d) refl e) p) h.1,
)

pub AllDelivered-iff :
    (o : Options) (w : Turn) (legs : List (String × Leg)) (cs : List String)
    → All (λ c. leg_delivered (lookup c (updated o w.now (outcomes_of w legs cs) legs)) ≡ true) cs
      ↔ All (Acknowledges w legs) cs
AllDelivered-iff o w legs cs =
    let after = updated o w.now (outcomes_of w legs cs) legs in
    (
      All-contained (λ c. leg_delivered (lookup c after) ≡ true) (Acknowledges w legs) cs
          (λ c e h. (Acknowledges-iff w legs c).0 (sym (leg_delivered-round o w c legs cs e) ∙ h)),
      All-contained (Acknowledges w legs) (λ c. leg_delivered (lookup c after) ≡ true) cs
          (λ c e h. leg_delivered-round o w c legs cs e ∙ (Acknowledges-iff w legs c).1 h),
    )
