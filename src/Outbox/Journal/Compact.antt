-- ===== src/Outbox/Journal/Compact.antt =====
-- What a compaction keeps.
use teploy_dash.Common.{
  ℕ, ◌+◌, ◌-◌, if_elim, String, Bool, true, false, not, ◌&&◌, Option, none, some, List, [], ◌∷◌,
  ◌++◌, ◌≡◌, refl, ap, sym, ◌∙◌, arith, ltb, length, if◌then◌else◌, pos_part, ◌==◌, string_eq,
  lookup, remove, lookup-remove, Bool-cases, inl, inr,
}
use teploy_dash.Alert.Channels.{contains}
use teploy_dash.Outbox.{Record, Outbox, Options, Write, wrote, lost, visible, is_pending}
use teploy_dash.Outbox.Journal.{
  picked, swept, rewritten, compact, appended, persist, next_write, later_writes,
}

-- A pending record is not the one that is removed.
kept-remove :
    (i id : String) (q r : Record) (m : List (String × Record))
    → lookup i m ≡ some q
    → is_pending q.status ≡ false
    → is_pending r.status ≡ true
    → lookup id m ≡ some r
    → lookup id (remove i m) ≡ some r
kept-remove i id q r m e n p h = elim (Bool-cases (i == id)) [
  | inl z ↦
      let same : i ≡ id = (string_eq.beq_iff i id).0 z in
      let both : some q ≡ some r = sym e ∙ ap (λ x. lookup x m) same ∙ h in
      let one : q ≡ r = cc in
      let clash : true ≡ false = sym p ∙ ap (λ (x : Record). is_pending x.status) (sym one) ∙ n in
      cc
  | inr z ↦ ground (arith, z, lookup-remove i id m, h)
]

-- A step of the sweep passes an identifier over, drops its record, or keeps it.
pub picked_elim :
    (P : List String × List (String × Record) → Type 0) (id : String) (over : Bool)
    (x : Option Record) (without rest : List String × List (String × Record))
    → (x ≡ none → P rest)
    → ((q : Record) → x ≡ some q → is_pending q.status ≡ false → P without)
    → ((q : Record) → x ≡ some q → P (id ∷ rest.0, rest.1))
    → P (picked id over x without rest)
unfolding picked
picked_elim P id over none without rest a b c = a refl
picked_elim P id over (some q) without rest a b c =
    elim (Bool-cases (over && not (is_pending q.status))) [
      | inl y ↦ rw y (b q refl (ground (arith, y)))
      | inr y ↦ rw y (c q refl)
    ]

abbrev Swept : Type 0
Swept = List String × List (String × Record)

pub lookup-swept :
    (d : ℕ) (ids : List String) (m : List (String × Record)) (id : String) (r : Record)
    → lookup id (swept d ids m).1 ≡ some r
    → lookup id m ≡ some r
unfolding swept
lookup-swept d [] m id r = λ h. h
lookup-swept d (i ∷ ids) m id r =
    picked_elim (λ (x : Swept). lookup id x.1 ≡ some r → lookup id m ≡ some r) i (ltb 0 d)
      (lookup i m) _ _ (λ e. lookup-swept d ids m id r)
      (λ q e n h.
        let k = lookup-swept (d - 1) ids (remove i m) id r h in
        ground (arith, lookup-remove i id m, k))
      (λ q e. lookup-swept d ids m id r)

pub swept-pending :
    (d : ℕ) (ids : List String) (m : List (String × Record)) (id : String) (r : Record)
    → is_pending r.status ≡ true
    → lookup id m ≡ some r
    → lookup id (swept d ids m).1 ≡ some r
unfolding swept
swept-pending d [] m id r p h = h
swept-pending d (i ∷ ids) m id r p h =
    picked_elim (λ (x : Swept). lookup id x.1 ≡ some r) i (ltb 0 d) (lookup i m) _ _
      (λ e. swept-pending d ids m id r p h)
      (λ q e n. swept-pending (d - 1) ids (remove i m) id r p (kept-remove i id q r m e n p h))
      (λ q e. swept-pending d ids m id r p h)

pub swept-covers :
    (d : ℕ) (ids : List String) (m : List (String × Record)) (id : String) (r : Record)
    → lookup id (swept d ids m).1 ≡ some r
    → contains ids id ≡ true
    → contains (swept d ids m).0 id ≡ true
unfolding swept contains
swept-covers d [] m id r = λ h c. c
swept-covers d (i ∷ ids) m id r =
    picked_elim
      (λ (x : Swept).
        lookup id x.1 ≡ some r
        → (if i == id then true else contains ids id) ≡ true
        → contains x.0 id ≡ true)
      i (ltb 0 d) (lookup i m) _ _
      (λ e h c. elim (Bool-cases (i == id)) [
        | inl z ↦
            let k = lookup-swept d ids m id r h in
            let both : none ≡ some r =
              sym e ∙ ap (λ x. lookup x m) ((string_eq.beq_iff i id).0 z) ∙ k in
            cc
        | inr z ↦ swept-covers d ids m id r h (rw z at c)
      ])
      (λ q e n h c. elim (Bool-cases (i == id)) [
        | inl z ↦
            let k = lookup-swept (d - 1) ids (remove i m) id r h in
            let gone : lookup id (remove i m) ≡ none = ground (arith, z, lookup-remove i id m) in
            let both : none ≡ some r = sym gone ∙ k in cc
        | inr z ↦ swept-covers (d - 1) ids (remove i m) id r h (rw z at c)
      ])
      (λ q e h c. elim (Bool-cases (i == id)) [
        | inl z ↦ rw z refl
        | inr z ↦ rw z (swept-covers d ids m id r h (rw z at c))
      ])

rewritten-records :
    (b : Outbox) (content : List Record) (w : Write) → (rewritten b content w).0.records ≡ b.records
unfolding rewritten
rewritten-records b content wrote = refl
rewritten-records b content lost = refl
rewritten-records b content visible = refl

records-compact :
    (o : Options) (b : Outbox)
    → (compact o b).0.records
      ≡ (swept (length b.records - pos_part o.max_retained) b.order b.records).1
unfolding compact
records-compact o b = rewritten-records _ _ (next_write b.faults)

-- The records after an append are those before, or those that a compaction keeps.
pub appended-cases :
    (o : Options) (s : Record) (b : Outbox) (w : Write) (P : List (String × Record) → Type 0)
    → P b.records
    → P (swept (length b.records - pos_part o.max_retained) b.order b.records).1
    → P (appended o b s w).0.records
unfolding appended
appended-cases o s b lost P p q = p
appended-cases o s b visible P p q = p
appended-cases o s b wrote P p q =
    let b' : Outbox = record b {
      journal = b.journal ++ s ∷ [];
      lines = b.lines + 1;
      faults = later_writes b.faults;
    } in
    if_elim (λ (x : Outbox × Bool). P x.0.records)
      (ltb (pos_part o.max_retained) (length b.records)) (compact o b') (b', true)
      (rw (records-compact o b') q) p

lookup-appended :
    (o : Options) (s : Record) (b : Outbox) (id : String) (r : Record) (w : Write)
    → lookup id (appended o b s w).0.records ≡ some r
    → lookup id b.records ≡ some r
lookup-appended o s b id r w =
    appended-cases o s b w (λ m. lookup id m ≡ some r → lookup id b.records ≡ some r) (λ h. h)
      (lookup-swept _ b.order b.records id r)

appended-pending :
    (o : Options) (s : Record) (b : Outbox) (id : String) (r : Record) (w : Write)
    → is_pending r.status ≡ true
    → lookup id b.records ≡ some r
    → lookup id (appended o b s w).0.records ≡ some r
appended-pending o s b id r w p h =
    appended-cases o s b w (λ m. lookup id m ≡ some r) h
      (swept-pending _ b.order b.records id r p h)

-- In every write, whatever becomes of it: a record that is there afterwards was there before, as it
-- is, and a pending one that was there before is there afterwards.
pub lookup-persist :
    (o : Options) (s : Record) (b : Outbox) (id : String) (r : Record)
    → lookup id (persist o s b).0.records ≡ some r
    → lookup id b.records ≡ some r
unfolding persist
lookup-persist o s b id r = lookup-appended o s b id r (next_write b.faults)

pub persist-pending :
    (o : Options) (s : Record) (b : Outbox) (id : String) (r : Record)
    → is_pending r.status ≡ true
    → lookup id b.records ≡ some r
    → lookup id (persist o s b).0.records ≡ some r
unfolding persist
persist-pending o s b id r p h = appended-pending o s b id r (next_write b.faults) p h
