-- ===== src/Outbox/Run/Settled.antt =====
-- What becomes of a record that is settled.
use teploy_dash.Common.{
  ℕ, String, true, false, not, ◌&&◌, Option, none, some, List, [], ◌∷◌, ◌++◌, ◌≡◌, ◌⊎◌, refl, ap,
  sym, ◌∙◌, arith, if_elim, ◌==◌, string_eq, lookup, insert, lookup-insert, Bool-cases,
  Option-cases, inl, inr,
}
use teploy_dash.Alert.{Alert}
use teploy_dash.Outbox.{Record, Outbox, Options, pending, suppressed, is_pending}
use teploy_dash.Outbox.Journal.{persist, persist_all}
use teploy_dash.Outbox.Journal.Compact.{lookup-persist}
use teploy_dash.Outbox.Send.{
  has_no_channel, new_record, is_recovery, is_overtaken, supersede, enqueued, send_new, send,
  suppress_new, record_suppressed,
}
use teploy_dash.Outbox.Send.Superseded.{lookup-persist_all, passed, passed_by, lookup-supersede}
use teploy_dash.Outbox.Attempt.{
  Turn, tried, settled, attempt, settle_found, attempt_each, deliver_due, due,
}
use teploy_dash.Outbox.Run.{Call, sends, suppresses, tries, delivers, act}

module _ (id : String) (r : Record) (ended : is_pending r.status ≡ false) where
  -- The record is as it was, or a compaction has dropped it.
  abbrev Stays : List (String × Record) → Type 0
  Stays m = (lookup id m ≡ none) ⊎ (lookup id m ≡ some r)

  no_other :
      (m m' : List (String × Record))
      → Stays m
      → ((q : Record) → lookup id m' ≡ some q → lookup id m ≡ some q)
      → Stays m'
  no_other m m' s back = elim (Option-cases (lookup id m')) [
    | inl e ↦ inl e
    | inr (q, e) ↦ elim s [
      | inl l ↦ let clash : none ≡ some q = sym l ∙ back q e in cc
      | inr l ↦ let one : some r ≡ some q = sym l ∙ back q e in inr (e ∙ sym one)
    ]
  ]

  persist_all-Stays :
      (o : Options) (owed : List Record) (b : Outbox)
      → Stays b.records
      → Stays (persist_all o owed b).records
  persist_all-Stays o owed b s =
      no_other b.records (persist_all o owed b).records s (λ q. lookup-persist_all o owed b id q)

  settle_found-Stays :
      (o : Options) (w : Turn) (snap : Record) (b : Outbox) (x : Option Record)
      → lookup snap.id b.records ≡ x
      → Stays b.records
      → Stays (settle_found o w snap b x).records
  unfolding settle_found
  settle_found-Stays o w snap b none l s = s
  settle_found-Stays o w snap b (some q) l s = elim (Bool-cases (is_pending q.status)) [
    | inr y ↦ rw y s
    | inl y ↦
        let q' = settled o w (tried w snap) q in
        let m = insert snap.id q' b.records in
        let b' : Outbox = record b { records = m } in
        let apart : (snap.id == id) ≡ false = elim (Bool-cases (snap.id == id)) [
          | inr z ↦ z
          | inl z ↦
              let here : lookup id b.records ≡ some q =
                ap (λ x. lookup x b.records) (sym ((string_eq.beq_iff snap.id id).0 z)) ∙ l in
              elim s [
                | inl e ↦ let clash : none ≡ some q = sym e ∙ here in cc
                | inr e ↦
                    let one : some r ≡ some q = sym e ∙ here in
                    let it : r ≡ q = cc in
                    let clash : true ≡ false =
                      sym y ∙ ap (λ (x : Record). is_pending x.status) (sym it) ∙ ended in
                    cc
              ]
        ] in
        let same : lookup id m ≡ lookup id b.records =
          ground (arith, apart, lookup-insert snap.id id q' b.records) in
        rw y (
          no_other b.records (persist o q' b').0.records s
            (λ t h. sym same ∙ lookup-persist o q' b' id t h))
  ]

  attempt-Stays :
      (o : Options) (w : Turn) (snap : Record) (b : Outbox)
      → Stays b.records
      → Stays (attempt o w snap b).records
  unfolding attempt
  attempt-Stays o w snap b s = settle_found-Stays o w snap b (lookup snap.id b.records) refl s

  attempt_each-Stays :
      (o : Options) (world : String → Turn) (rs : List Record) (b : Outbox)
      → Stays b.records
      → Stays (attempt_each o world rs b).records
  unfolding attempt_each
  attempt_each-Stays o world [] b s = s
  attempt_each-Stays o world (q ∷ rs) b s =
      attempt_each-Stays o world rs (attempt o (world q.id) q b)
        (attempt-Stays o (world q.id) q b s)

  passed_by-ended : (k incident : String) → passed_by k incident r ≡ r
  unfolding is_overtaken
  passed_by-ended k incident = ground (arith, ended)

  -- A new record under another identifier, with the loop of a recovery or without.
  lookup-new :
      (k : String) (q : Record) (m : List (String × Record))
      → lookup k m ≡ none
      → lookup id m ≡ some r
      → lookup id (insert k q m) ≡ some r
  lookup-new k q m new l = elim (Bool-cases (k == id)) [
    | inl y ↦
        let clash : none ≡ some r =
          sym new ∙ ap (λ x. lookup x m) ((string_eq.beq_iff k id).0 y) ∙ l in
        cc
    | inr y ↦ lookup-insert k id q m ∙ ground (arith, y, l)
  ]

  send_new-Stays :
      (o : Options) (k : String) (e : Alert) (now : ℕ) (b : Outbox) (x : Option Record)
      → lookup k b.records ≡ x
      → lookup id b.records ≡ some r
      → Stays (send_new o k e now b x).records
  unfolding send_new enqueued
  send_new-Stays o k e now b (some old) new l = inr l
  send_new-Stays o k e now b none new l =
      let q = new_record k e pending now now "" in
      let m = insert k q b.records in
      let here = lookup-new k q b.records new l in
      if_elim
        (λ (x : List (String × Record) × List Record).
          Stays
            (persist_all o (x.1 ++ q ∷ [])
              (record b { records = x.0; order = b.order ++ k ∷ [] })).records)
        (is_recovery e.kind && not (e.incident_id == "")) (supersede k e.incident_id m) (m, [])
        (persist_all-Stays o _ _ (
          inr (
            lookup-supersede k e.incident_id m id
            ∙ ap (passed k e.incident_id) here
            ∙ ap (λ x. some x) (passed_by-ended k e.incident_id))))
        (persist_all-Stays o _ _ (inr here))

  suppress_new-Stays :
      (o : Options) (k : String) (e : Alert) (note : String) (now : ℕ) (b : Outbox)
      (x : Option Record)
      → lookup k b.records ≡ x
      → lookup id b.records ≡ some r
      → Stays (suppress_new o k e note now b x).records
  unfolding suppress_new
  suppress_new-Stays o k e note now b (some old) new l = inr l
  suppress_new-Stays o k e note now b none new l =
      let q = new_record k e suppressed 0 now note in
      persist_all-Stays o (q ∷ [])
        (record b { records = insert k q b.records; order = b.order ++ k ∷ [] })
        (inr (lookup-new k q b.records new l))

-- Whatever is called, and whatever becomes of its writes: a record that has been delivered,
-- dead-lettered, suppressed or superseded is afterwards as it was, or is no longer retained.
pub act-settled :
    (o : Options) (c : Call) (b : Outbox) (id : String) (r : Record)
    → lookup id b.records ≡ some r
    → is_pending r.status ≡ false
    → (lookup id (act o c b).records ≡ none) ⊎ (lookup id (act o c b).records ≡ some r)
unfolding act send record_suppressed deliver_due
act-settled o (sends config k e now) b id r l p =
    if_elim (λ (x : Outbox). (lookup id x.records ≡ none) ⊎ (lookup id x.records ≡ some r))
      (has_no_channel config e) b (send_new o k e now b (lookup k b.records)) (inr l)
      (send_new-Stays id r p o k e now b (lookup k b.records) refl l)
act-settled o (suppresses k e note now) b id r l p =
    suppress_new-Stays id r p o k e note now b (lookup k b.records) refl l
act-settled o (tries w snap) b id r l p = attempt-Stays id r p o w snap b (inr l)
act-settled o (delivers now world) b id r l p =
    attempt_each-Stays id r p o world (due now b.records) b (inr l)
