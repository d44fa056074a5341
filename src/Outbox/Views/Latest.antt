-- ===== src/Outbox/Views/Latest.antt =====
-- What LatestForSource and its siblings show for a rule.
use mathlib.Core.List.{Memᴰ}
use teploy_dash.Common.{
  ◌≤◌, String, Bool, true, false, Option, none, some, List, [], ◌∷◌, ◌≡◌, ◌↔◌, ◌⊎◌, refl, ap, sym,
  ◌∙◌, arith, ltb, if◌then◌else◌, string_eq, All, Bool-cases, Option-cases, inl, inr,
}
use teploy_dash.Outbox.{Record, Outbox, Options}
use teploy_dash.Outbox.Views.{
  DeliveryStatus, status_of, answers, newer, newest, latest, shown_status, record_source,
}

-- The record that a status shows, field by field.
pub record Shows (o : Options) (r : Record) (s : DeliveryStatus) : Type 0 where
  pub id : s.id ≡ r.id
  pub status : s.status ≡ r.status
  pub attempts : s.attempts ≡ r.attempts
  pub last_error : s.last_error ≡ o.redact r.last_error
  pub last_attempt_at : s.last_attempt_at ≡ r.last_attempt_at
  pub next_attempt_at : s.next_attempt_at ≡ r.next_attempt_at
  pub event_status : s.event_status ≡ r.event.status
  pub occurred_at : s.occurred_at ≡ r.event.occurred_at
  pub rule_id : s.rule_id ≡ r.event.monitor_id
  pub incident_id : s.incident_id ≡ r.event.incident_id
  pub note : s.note ≡ r.note
  pub created_at : s.created_at ≡ r.created_at

status_of-Shows : (o : Options) (r : Record) → Shows o r (status_of o r)
unfolding status_of
status_of-Shows o r = record {
  id = refl;
  status = refl;
  attempts = refl;
  last_error = refl;
  last_attempt_at = refl;
  next_attempt_at = refl;
  event_status = refl;
  occurred_at = refl;
  rule_id = refl;
  incident_id = refl;
  note = refl;
  created_at = refl;
}

-- A record of the rule, from one of the sources asked for.
abbrev pub IsOf : (String → Bool) → String → Record → Type 0
IsOf ok id r = (ok (record_source r) ≡ true) × (r.event.monitor_id ≡ id)

answers_iff :
    (ok : String → Bool) (id : String) (r : Record) → (answers ok id r ≡ true) ↔ IsOf ok id r
unfolding answers
answers_iff ok id r = (
  λ h. (ground arith, (string_eq.beq_iff r.event.monitor_id id).0 (ground arith)),
  λ h. ground (arith, h.0, (string_eq.beq_iff r.event.monitor_id id).1 h.1),
)

-- What is shown for a rule: nothing, where no record is of the rule, or the status of a record of it
-- than which none is newer.
pub data Shown (o : Options) (ok : String → Bool) (id : String) (records : List (String × Record))
    : Option DeliveryStatus → Type 0 where
  nothing : All (λ (x : String × Record). ¬ IsOf ok id x.1) records → Shown o ok id records none
  newest_of :
      (k : String) (r : Record) (s : DeliveryStatus)
      → Memᴰ (k, r) records
      → IsOf ok id r
      → Shows o r s
      → All (λ (x : String × Record). (¬ IsOf ok id x.1) ⊎ (x.1.created_at ≤ r.created_at)) records
      → Shown o ok id records (some s)

module _ (ok : String → Bool) (id : String) where
  abbrev NotNewer : Record → String × Record → Type 0
  NotNewer r x = (¬ IsOf ok id x.1) ⊎ (x.1.created_at ≤ r.created_at)

  newer-above : (q : Record) (x : Option Record) → q.created_at ≤ (newer q x).created_at
  unfolding newer
  newer-above q none = omega arith
  newer-above q (some b) = ground arith

  newest-found :
      (m : List (String × Record)) (b : Record) → (r : Record) × (newest ok id m (some b) ≡ some r)
  unfolding newest newer
  newest-found [] b = (b, refl)
  newest-found ((k, q) ∷ m) b = elim (Bool-cases (answers ok id q)) [
    | inl y ↦ rw y (newest-found m (if ltb b.created_at q.created_at then q else b))
    | inr y ↦ rw y (newest-found m b)
  ]

  newest-above :
      (m : List (String × Record)) (b r : Record)
      → newest ok id m (some b) ≡ some r
      → b.created_at ≤ r.created_at
  unfolding newest newer
  newest-above [] b r h = let same : b ≡ r = cc in rw same (omega arith)
  newest-above ((k, q) ∷ m) b r h = elim (Bool-cases (answers ok id q)) [
    | inl y ↦ elim (Bool-cases (ltb b.created_at q.created_at)) [
      | inl z ↦ let more = newest-above m q r (rw (y, z) at h) in ground (arith, z, more)
      | inr z ↦ newest-above m b r (rw (y, z) at h)
    ]
    | inr y ↦ newest-above m b r (rw y at h)
  ]

  newest-NotNewer :
      (m : List (String × Record)) (x : Option Record) (r : Record)
      → newest ok id m x ≡ some r
      → All (NotNewer r) m
  unfolding newest
  newest-NotNewer [] x r h = tt
  newest-NotNewer ((k, q) ∷ m) x r h = elim (Bool-cases (answers ok id q)) [
    | inl y ↦
        let on : newest ok id m (some (newer q x)) ≡ some r = rw y at h in
        let least = newer-above q x in
        let above = newest-above m (newer q x) r on in
        (inr (omega (arith, least, above)), newest-NotNewer m (some (newer q x)) r on)
    | inr y ↦ (
      inl (λ own. let clash : true ≡ false = sym ((answers_iff ok id q).1 own) ∙ y in cc),
      newest-NotNewer m x r (rw y at h),
    )
  ]

  newest-none :
      (m : List (String × Record)) (x : Option Record)
      → newest ok id m x ≡ none
      → All (λ (e : String × Record). ¬ IsOf ok id e.1) m
  unfolding newest
  newest-none [] x h = tt
  newest-none ((k, q) ∷ m) x h = elim (Bool-cases (answers ok id q)) [
    | inl y ↦
        let (r, found) = newest-found m (newer q x) in
        let on : newest ok id m (some (newer q x)) ≡ none = rw y at h in
        let clash : none ≡ some r = sym on ∙ found in cc
    | inr y ↦ (
      λ own. let clash : true ≡ false = sym ((answers_iff ok id q).1 own) ∙ y in cc,
      newest-none m x (rw y at h),
    )
  ]

  -- The record that is found was there before, or is one of the list that is of the rule.
  abbrev From : List (String × Record) → Option Record → Record → Type 0
  From m x r = (x ≡ some r) ⊎ ((k : String) × Memᴰ (k, r) m × IsOf ok id r)

  From-later :
      (k : String) (q : Record) (m : List (String × Record)) (x : Option Record) (r : Record)
      → From m x r
      → From ((k, q) ∷ m) x r
  From-later k q m x r (inl e) = inl e
  From-later k q m x r (inr (j, at, own)) = inr (j, Memᴰ.tail at, own)

  From-newer :
      (k : String) (q : Record) (m : List (String × Record)) (x : Option Record) (r : Record)
      → IsOf ok id q
      → newer q x ≡ r
      → From ((k, q) ∷ m) x r
  unfolding newer
  From-newer k q m none r own e = rw (← e) (inr (k, Memᴰ.head refl, own))
  From-newer k q m (some b) r own e = elim (Bool-cases (ltb b.created_at q.created_at)) [
    | inl z ↦ let same : q ≡ r = rw z at e in rw (← same) (inr (k, Memᴰ.head refl, own))
    | inr z ↦ let same : b ≡ r = rw z at e in inl (ap some same)
  ]

  newest-From :
      (m : List (String × Record)) (x : Option Record) (r : Record)
      → newest ok id m x ≡ some r
      → From m x r
  unfolding newest
  newest-From [] x r h = inl h
  newest-From ((k, q) ∷ m) x r h = elim (Bool-cases (answers ok id q)) [
    | inl y ↦ joined y (newest-From m (some (newer q x)) r (rw y at h))
    | inr y ↦ From-later k q m x r (newest-From m x r (rw y at h))
  ]
    where
      joined : answers ok id q ≡ true → From m (some (newer q x)) r → From ((k, q) ∷ m) x r
      joined y o = elim o [
        | inl e ↦
            let same : newer q x ≡ r = cc in From-newer k q m x r ((answers_iff ok id q).0 y) same
        | inr (j, at, own) ↦ inr (j, Memᴰ.tail at, own)
      ]

-- The status shown for a rule is that of a record of the outbox that is of the rule and from one of
-- the sources asked for, with that record's state, attempts, times, redacted error and note, and no
-- such record is newer; nothing is shown only where there is no such record.
pub latest-Shown :
    (o : Options) (ok : String → Bool) (id : String) (b : Outbox)
    → Shown o ok id b.records (latest o ok id b)
unfolding latest shown_status
latest-Shown o ok id b = elim (Option-cases (newest ok id b.records none)) [
  | inl e ↦ rw e (nothing (newest-none ok id b.records none e))
  | inr (r, e) ↦ elim (newest-From ok id b.records none r e) [
    | inl f ↦ cc
    | inr (k, at, own) ↦ rw e (
        newest_of k r (status_of o r) at own (status_of-Shows o r)
          (newest-NotNewer ok id b.records none r e))
  ]
]
