-- ===== src/Incident/Observe/Answered.antt =====
-- Every recovery that is sent answers an opening that was sent.
pub mod Rules
pub mod Batches
use mathlib.Core.List.{append_assoc}
use teploy_dash.Common.{
  ℕ, ◌+◌, is_positive, pos_part, String, Bool, true, false, ◌&&◌, Option, none, some, List, [], ◌∷◌,
  ◌++◌, ◌≡◌, refl, ap, sym, ◌∙◌, arith, if◌then◌else◌, ◌==◌, string_eq, beq_refl, lookup, insert,
  remove, All, All-append, if_elim, Bool-cases, inl, inr, not, ◌||◌,
}
use teploy_dash.Alert.{Alert, AlertKind, opened, repeated, recovered}
use teploy_dash.Incident.{
  Policy, Rule, Incident, Held, Sample, RuleState, Tracker, Turn, Outgoing, sent, noted, normalized,
  key_of, describe, hold_for, is_clear, alert_of, new_incident, at_least, is_opened,
}
use teploy_dash.Incident.Observe.{
  persist, observe, retire, open_incident, repeat_incident, failed_open, hold_rule, failed_limit,
  failed_rule, close_incident, passed_rule, observed, retire_found, with_resolve, set_state,
}

is_opening_of : String → Outgoing → Bool
is_opening_of id (sent a) = is_opened a.kind && a.incident_id == id
is_opening_of id (noted a why) = false

-- The opening of an incident is among the alerts sent.
unfoldable pub announced : String → List Outgoing → Bool
unfolding is_opening_of
announced id [] = false
announced id (o ∷ rest) = if is_opening_of id o then true else announced id rest

announced-append :
    (id : String) (xs ys : List Outgoing) → announced id xs ≡ true → announced id (xs ++ ys) ≡ true
unfolding announced
announced-append id [] ys h = cc
announced-append id (o ∷ xs) ys h = ground (arith, announced-append id xs ys)

announced-last :
    (id : String) (xs ys : List Outgoing) → announced id ys ≡ true → announced id (xs ++ ys) ≡ true
unfolding announced
announced-last id [] ys h = h
announced-last id (o ∷ xs) ys h = ground (arith, announced-last id xs ys h)

-- An open incident that is marked as announced was announced.
abbrev pub Fair : List Outgoing → String × Incident → Type 0
Fair log p = p.1.notified ≡ true → announced p.1.id log ≡ true

abbrev pub Told : List Outgoing → Outgoing → Type 0
Told log (sent a) = a.kind ≡ recovered → announced a.incident_id log ≡ true
Told log (noted a why) = Unit

-- After a call that hands over `r.1`: what is marked is announced, and each recovery in it answers
-- an opening from before.
pub record IsAnswered (log : List Outgoing) (r : Tracker × List Outgoing) : Type 0 where
  pub fair : All (Fair (log ++ r.1)) r.0.incidents
  pub told : All (Told log) r.1

module _ (P : String × Incident → Type 0) where
  All-insert :
      (k : String) (v : Incident) (m : List (String × Incident))
      → P (k, v)
      → All P m
      → All P (insert k v m)
  unfolding insert
  All-insert k v [] p h = (p, tt)
  All-insert k v ((j, w) ∷ m) p h =
      if_elim (All P) (j == k) ((k, v) ∷ m) ((j, w) ∷ insert k v m) (p, h.1)
        (h.0, All-insert k v m p h.1)

  All-remove : (k : String) (m : List (String × Incident)) → All P m → All P (remove k m)
  unfolding remove
  All-remove k [] h = tt
  All-remove k ((j, w) ∷ m) h =
      if_elim (All P) (j == k) (remove k m) ((j, w) ∷ remove k m) (All-remove k m h.1)
        (h.0, All-remove k m h.1)

  All-weaken :
      {Q : String × Incident → Type 0} (m : List (String × Incident))
      → ((p : String × Incident) → P p → Q p)
      → All P m
      → All Q m
  All-weaken [] f h = tt
  All-weaken (p ∷ m) f h = (f p h.0, All-weaken m f h.1)

Fair-lookup :
    (log : List Outgoing) (k : String) (v : Incident) (m : List (String × Incident))
    → lookup k m ≡ some v
    → All (Fair log) m
    → v.notified ≡ true
    → announced v.id log ≡ true
unfolding lookup
Fair-lookup log k v [] l h = cc
Fair-lookup log k v ((j, w) ∷ m) l h = elim (Bool-cases (j == k)) [
  | inl e ↦
      let e' : some w ≡ some v = rw e at l in
      let same : w ≡ v = cc in λ n. rw (← same) (h.0 (ap (λ (x : Incident). x.notified) same ∙ n))
  | inr e ↦ Fair-lookup log k v m (rw e at l) h.1
]

pub Fair-append :
    (log out : List Outgoing) (m : List (String × Incident))
    → All (Fair log) m
    → All (Fair (log ++ out)) m
Fair-append log out m h = All-weaken (Fair log) m (λ p f n. announced-append p.1.id log out (f n)) h

incidents-persist : (w : Turn) (t : Tracker) → (persist w t).incidents ≡ t.incidents
unfolding persist
incidents-persist w t = ground arith

Fair-persist :
    (w : Turn) (t : Tracker) (log : List Outgoing)
    → All (Fair log) t.incidents
    → All (Fair log) (persist w t).incidents
Fair-persist w t log h = rw (incidents-persist w t) h

-- Nothing is sent.
pub silent :
    (t : Tracker) (log : List Outgoing) → All (Fair log) t.incidents → IsAnswered log (t, [])
silent t log h = record { fair = Fair-append log [] t.incidents h; told = tt }

module _ (w : Turn) (log : List Outgoing) where
  opening :
      (inc : Incident) (message : String) (at : ℕ)
      → announced inc.id (log ++ sent (alert_of w inc opened "" message at) ∷ []) ≡ true
  unfolding announced alert_of
  opening inc message at =
      announced-last inc.id log (sent (alert_of w inc opened "" message at) ∷ [])
        (rw (beq_refl inc.id) refl)

  open_incident-IsAnswered :
      (key : String) (inc : Incident) (message : String) (at : ℕ) (t : Tracker)
      → inc.notified ≡ false
      → All (Fair log) t.incidents
      → IsAnswered log (open_incident w key inc message at t)
  unfolding open_incident
  open_incident-IsAnswered key inc message at t n h =
      let inc' : Incident = record inc { notified = true; last_notified_at = at } in
      let t1 : Tracker = record t { incidents = insert key inc' t.incidents } in
      let t2 : Tracker = record t { incidents = insert key inc t.incidents } in
      let out : List Outgoing = sent (alert_of w inc' opened "" message at) ∷ [] in
      if_elim (IsAnswered log) (not t.adopting && w.has_channels) (persist w t1, out)
        (persist w t2, [])
        (record {
          fair = Fair-persist w t1 (log ++ out) (
              All-insert (Fair (log ++ out)) key inc' t.incidents (λ x. opening inc' message at)
                (Fair-append log out t.incidents h));
          told = (unfold alert_of in λ x. cc, tt);
        })
        (silent (persist w t2) log
          (Fair-persist w t2 log (All-insert (Fair log) key inc t.incidents (λ x. cc) h)))

  repeat_incident-IsAnswered :
      (key : String) (inc : Incident) (message : String) (at : ℕ) (t : Tracker)
      → (inc.notified ≡ true → announced inc.id log ≡ true)
      → All (Fair log) t.incidents
      → IsAnswered log (repeat_incident w key inc message at t)
  unfolding repeat_incident
  repeat_incident-IsAnswered key inc message at t n h =
      let inc' : Incident = record inc { last_notified_at = at } in
      let t1 : Tracker = record t { incidents = insert key inc' t.incidents } in
      let out : List Outgoing = sent (alert_of w inc' repeated "" message at) ∷ [] in
      record {
        fair =
            Fair-persist w t1 (log ++ out)
              (Fair-append log out t1.incidents (All-insert (Fair log) key inc' t.incidents n h));
        told = (unfold alert_of in λ x. cc, tt);
      }

  close_incident-IsAnswered :
      (key : String) (inc : Incident) (reason message : String) (at : ℕ) (t : Tracker)
      → (inc.notified ≡ true → announced inc.id log ≡ true)
      → All (Fair log) t.incidents
      → IsAnswered log (close_incident w key inc reason message at t)
  unfolding close_incident
  close_incident-IsAnswered key inc reason message at t n h =
      let t1 : Tracker = record t { incidents = remove key t.incidents } in
      let out : List Outgoing =
        if inc.notified then sent (alert_of w inc recovered reason message at) ∷ [] else [] in
      record {
        fair =
            Fair-persist w t1 (log ++ out)
              (Fair-append log out t1.incidents (All-remove (Fair log) key t.incidents h));
        told = elim (Bool-cases inc.notified) [
          | inl y ↦ rw y (unfold alert_of in λ x. n y, tt)
          | inr y ↦ rw y tt
        ];
      }
