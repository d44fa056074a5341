-- ===== src/Outbox/Send/Superseded.antt =====
-- What the recovery of an incident does to the alerts that still wait.
use mathlib.Core.Path.{subst}
use teploy_dash.Common.{
  ℕ, String, true, false, Option, none, some, List, [], ◌∷◌, ◌≡◌, refl, ap, sym, ◌∙◌, arith,
  if◌then◌else◌, if_elim, ◌==◌, string_eq, lookup, insert, lookup-insert, Bool-cases, inl, inr,
}
use teploy_dash.Alert.{Alert, AlertKind}
use teploy_dash.Outbox.{Record, Outbox, Options, pending, is_pending}
use teploy_dash.Outbox.Journal.{persist, persist_all}
use teploy_dash.Outbox.Journal.Compact.{lookup-persist}
use teploy_dash.Outbox.Send.{
  Source, has_no_channel, new_record, is_recovery, opens, is_overtaken, overtaken, supersede,
  enqueued, send_new, send,
}

pub lookup-persist_all :
    (o : Options) (owed : List Record) (b : Outbox) (id : String) (r : Record)
    → lookup id (persist_all o owed b).records ≡ some r
    → lookup id b.records ≡ some r
unfolding persist_all
lookup-persist_all o [] b id r h = h
lookup-persist_all o (s ∷ rest) b id r h =
    lookup-persist o s b id r (lookup-persist_all o rest (persist o s b).0 id r h)

-- One record, as a recovery leaves it.
abbrev pub passed_by : String → String → Record → Record
passed_by id incident r = if is_overtaken id incident r then overtaken r else r

abbrev pub passed : String → String → Option Record → Option Record
passed id incident none = none
passed id incident (some r) = some (passed_by id incident r)

pub lookup-supersede :
    (id incident : String) (m : List (String × Record)) (k : String)
    → lookup k (supersede id incident m).0 ≡ passed id incident (lookup k m)
unfolding supersede lookup
lookup-supersede id incident [] k = refl
lookup-supersede id incident ((key, r) ∷ rest) k = elim (Bool-cases (is_overtaken id incident r)) [
  | inl y ↦ rw y (elim (Bool-cases (key == k)) [
    | inl z ↦ rw (z, y) refl
    | inr z ↦ rw z (lookup-supersede id incident rest k)
  ])
  | inr y ↦ rw y (elim (Bool-cases (key == k)) [
    | inl z ↦ rw (z, y) refl
    | inr z ↦ rw z (lookup-supersede id incident rest k)
  ])
]

-- A record is of an incident's opening, or of a reminder of it.
abbrev pub IsOpening : String → Record → Type 0
IsOpening incident r = (r.event.incident_id ≡ incident) × (opens r.event.kind ≡ true)

recovery-opens : (k : AlertKind) → is_recovery k ≡ true → opens k ≡ false
recovery-opens AlertKind.recovered h = refl
recovery-opens AlertKind.opened h = cc
recovery-opens AlertKind.repeated h = cc
recovery-opens AlertKind.test h = cc
recovery-opens AlertKind.summary h = cc
recovery-opens AlertKind.unset h = cc

passed_by-event : (id incident : String) (r : Record) → (passed_by id incident r).event ≡ r.event
unfolding overtaken
passed_by-event id incident r =
    if_elim (λ (x : Record). x.event ≡ r.event) (is_overtaken id incident r) (overtaken r) r refl
      refl

passed_by-IsOpening :
    (id incident : String) (r : Record)
    → (r.id == id) ≡ false
    → IsOpening incident (passed_by id incident r)
    → is_pending (passed_by id incident r).status ≡ false
unfolding is_overtaken overtaken is_pending
passed_by-IsOpening id incident r n h = elim (Bool-cases (is_overtaken id incident r)) [
  | inl y ↦ rw y refl
  | inr y ↦
      let (same, kind) : IsOpening incident r = rw y at h in
      let here = (string_eq.beq_iff r.event.incident_id incident).1 same in
      rw y (ground (arith, y, n, kind, here))
]

-- The record that the recovery adds is no opening, and no other waits.
enqueued-IsOpening :
    (id : String) (e : Alert) (now : ℕ) (b : Outbox)
    → ((k : String) (r : Record) → lookup k b.records ≡ some r → r.id ≡ k)
    → is_recovery e.kind ≡ true
    → (e.incident_id == "") ≡ false
    → (k : String) (x : Option Record)
    → lookup k (insert id (new_record id e pending now now "") b.records) ≡ x
    → (r : Record) → passed id e.incident_id x ≡ some r
    → IsOpening e.incident_id r
    → is_pending r.status ≡ false
unfolding new_record
enqueued-IsOpening id e now b key kind named k none l r p h = cc
enqueued-IsOpening id e now b key kind named k (some q) l r p h =
    let same : passed_by id e.incident_id q ≡ r = cc in
    elim (Bool-cases (id == k)) [
      | inl z ↦
          let new : some (new_record id e pending now now "") ≡ some q =
            sym
              (ground (arith, z, lookup-insert id k (new_record id e pending now now "") b.records))
            ∙ l in
          let one : new_record id e pending now now "" ≡ q = cc in
          let its : e.kind ≡ q.event.kind = ap (λ (x : Record). x.event.kind) one in
          let clash : true ≡ false =
            sym h.1
            ∙ ap (λ (x : Record). opens x.event.kind) (sym same)
            ∙ ap (λ (x : Alert). opens x.kind) (passed_by-event id e.incident_id q)
            ∙ ap (λ x. opens x) (sym its)
            ∙ recovery-opens e.kind kind in
          cc
      | inr z ↦
          let old : lookup k b.records ≡ some q =
            sym
              (ground (arith, z, lookup-insert id k (new_record id e pending now now "") b.records))
            ∙ l in
          let apart : (q.id == id) ≡ false =
            ground (arith, key k q old, z, string_eq.beq_iff q.id id, string_eq.beq_iff id k) in
          subst (λ (x : Record). IsOpening e.incident_id x → is_pending x.status ≡ false) same
            (passed_by-IsOpening id e.incident_id q apart) h
    ]

records-enqueued :
    (id : String) (e : Alert) (now : ℕ) (b : Outbox)
    → is_recovery e.kind ≡ true
    → (e.incident_id == "") ≡ false
    → (enqueued id e now b).0.records
      ≡ (supersede id e.incident_id (insert id (new_record id e pending now now "") b.records)).0
unfolding enqueued
records-enqueued id e now b kind named = rw (kind, named) refl

-- Once the recovery of an incident is accepted, no opening of that incident and no reminder of it
-- waits to be sent any more, whatever the writes of the journal come to. It is assumed that the
-- recovery names its incident, has a channel, or an unreadable configuration, and is not known yet.
pub send-overtakes :
    (o : Options) (config : Source) (id : String) (e : Alert) (now : ℕ) (b : Outbox)
    → ((k : String) (r : Record) → lookup k b.records ≡ some r → r.id ≡ k)
    → is_recovery e.kind ≡ true
    → (e.incident_id == "") ≡ false
    → has_no_channel config e ≡ false
    → lookup id b.records ≡ none
    → (k : String) (r : Record) → lookup k (send o config id e now b).records ≡ some r
    → IsOpening e.incident_id r
    → is_pending r.status ≡ false
unfolding send send_new
send-overtakes o config id e now b key kind named routed new k r l h =
    let (b', owed) = enqueued id e now b in
    let at : lookup k b'.records ≡ some r =
      lookup-persist_all o owed b' k r (rw (routed, new) at l) in
    let m = insert id (new_record id e pending now now "") b.records in
    let through : passed id e.incident_id (lookup k m) ≡ some r =
      sym (
        ap (lookup k) (records-enqueued id e now b kind named)
        ∙ lookup-supersede id e.incident_id m k)
      ∙ at in
    enqueued-IsOpening id e now b key kind named k (lookup k m) refl r through h
