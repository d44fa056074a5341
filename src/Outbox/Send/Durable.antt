-- ===== src/Outbox/Send/Durable.antt =====
-- What Send and RecordSuppressed leave in memory and in the journal.
use teploy_dash.Common.{
  ℕ, String, true, false, not, ◌&&◌, ◌||◌, Option, none, some, List, [], ◌∷◌, ◌++◌, ◌≡◌, refl, ap,
  sym, ◌∙◌, arith, if_elim, ◌==◌, string_eq, lookup, insert, lookup-insert, lookup-insert_self,
  lookup-behind, Unique, insert-Unique, All, All-append, Bool-cases, inl, inr, beq_refl,
}
use teploy_dash.Alert.{Alert}
use teploy_dash.Alert.Channels.{contains}
use teploy_dash.Outbox.{Record, Outbox, Options, pending, suppressed}
use teploy_dash.Outbox.Journal.{persist_all}
use teploy_dash.Outbox.Journal.Restart.{Current, there, ids_of}
use teploy_dash.Outbox.Journal.Edit.{Durable, edited-Restorable, persist_all-Durable}
use teploy_dash.Outbox.Send.{
  Source, has_no_channel, new_record, is_recovery, is_overtaken, overtaken, supersede, enqueued,
  send_new, send, suppress_new, record_suppressed,
}
use teploy_dash.Outbox.Send.Superseded.{passed, passed_by, lookup-supersede}

contains-append :
    (xs : List String) (x k : String) → contains (xs ++ x ∷ []) k ≡ (contains xs k || (x == k))
unfolding contains
contains-append [] x k = ground arith
contains-append (y ∷ ys) x k = ground (arith, contains-append ys x k)

ids_of-append : (xs : List Record) (r : Record) → ids_of (xs ++ r ∷ []) ≡ ids_of xs ++ r.id ∷ []
ids_of-append [] r = refl
ids_of-append (x ∷ xs) r = ap (λ ys. x.id ∷ ys) (ids_of-append xs r)

abbrev Keyed : List (String × Record) → Type 0
Keyed m = (k : String) (r : Record) → lookup k m ≡ some r → r.id ≡ k

passed_by-id : (id incident : String) (r : Record) → (passed_by id incident r).id ≡ r.id
unfolding overtaken
passed_by-id id incident r =
    if_elim (λ (x : Record). x.id ≡ r.id) (is_overtaken id incident r) (overtaken r) r refl refl

passed-back :
    (id incident k : String) (x : Option Record) (t : Record)
    → passed id incident x ≡ some t
    → (r : Record) × (x ≡ some r) × (passed_by id incident r ≡ t)
passed-back id incident k none t h = cc
passed-back id incident k (some r) t h = (r, refl, cc)

module _ (id incident : String) where
  Keyed-behind :
      (key : String) (r : Record) (m : List (String × Record))
      → Unique ((key, r) ∷ m)
      → Keyed ((key, r) ∷ m)
      → Keyed m
  unfolding lookup
  Keyed-behind key r m u h k q l = h k q (rw (lookup-behind key k r q m u l) l)

  supersede-Keyed : (m : List (String × Record)) → Keyed m → Keyed (supersede id incident m).0
  supersede-Keyed m h k t l =
      let (r, f, e) =
        passed-back id incident k (lookup k m) t (sym (lookup-supersede id incident m k) ∙ l) in
      ap (λ (x : Record). x.id) (sym e) ∙ passed_by-id id incident r ∙ h k r f

  supersede-Unique : (m : List (String × Record)) → Unique m → Unique (supersede id incident m).0
  unfolding supersede
  supersede-Unique [] u = tt
  supersede-Unique ((key, r) ∷ m) u =
      let fresh : lookup key (supersede id incident m).0 ≡ none =
        lookup-supersede id incident m key ∙ ap (passed id incident) u.0 in
      if_elim (λ (x : List (String × Record) × List Record). Unique x.0)
        (is_overtaken id incident r) _ _ (fresh, supersede-Unique m u.1)
        (fresh, supersede-Unique m u.1)

  In : List (String × Record) → Record → Type 0
  In m t = lookup t.id m ≡ some t

  All-behind :
      (key : String) (r : Record) (m : List (String × Record))
      → Unique ((key, r) ∷ m)
      → (ts : List Record) → All (In m) ts
      → All (In ((key, r) ∷ m)) ts
  unfolding lookup In
  All-behind key r m u [] h = tt
  All-behind key r m u (t ∷ ts) h =
      (rw (lookup-behind key t.id r t m u h.0) h.0, All-behind key r m u ts h.1)

  -- Every snapshot that the loop takes is the record as it is afterwards.
  supersede-taken :
      (m : List (String × Record))
      → Unique m
      → Keyed m
      → All (In (supersede id incident m).0) (supersede id incident m).1
  unfolding supersede lookup In overtaken
  supersede-taken [] u h = tt
  supersede-taken ((key, r) ∷ m) u h =
      let ih = supersede-taken m u.1 (Keyed-behind key r m u h) in
      let fresh : lookup key (supersede id incident m).0 ≡ none =
        lookup-supersede id incident m key ∙ ap (passed id incident) u.0 in
      let own = h key r (rw (beq_refl key) refl) in
      let own_test : (key == r.id) ≡ true = (string_eq.beq_iff key r.id).1 (sym own) in
      elim (Bool-cases (is_overtaken id incident r)) [
        | inl y ↦ rw y (
            (rw own_test refl, All-behind key (overtaken r) _ (fresh, supersede-Unique m u.1) _ ih))
        | inr y ↦ rw y (All-behind key r _ (fresh, supersede-Unique m u.1) _ ih)
      ]

  -- A record that is not among them is as it was.
  supersede-other :
      (m : List (String × Record)) (k : String)
      → Keyed m
      → Unique m
      → contains (ids_of (supersede id incident m).1) k ≡ false
      → lookup k (supersede id incident m).0 ≡ lookup k m
  unfolding supersede lookup contains overtaken
  supersede-other [] k h u = λ c. refl
  supersede-other ((key, r) ∷ m) k h u =
      let ih = supersede-other m k (Keyed-behind key r m u h) u.1 in
      let own = h key r (rw (beq_refl key) refl) in
      elim (Bool-cases (is_overtaken id incident r)) [
        | inl y ↦ rw y (λ c. elim (Bool-cases (key == k)) [
          | inl z ↦
              let clash : true ≡ false = sym (ground (arith, ap (λ x. x == k) own, z)) ∙ c in cc
          | inr z ↦ rw z (ih (rw (ap (λ x. x == k) own ∙ z) at c))
        ])
        | inr y ↦
            rw y (λ c. elim (Bool-cases (key == k)) [ inl z ↦ rw z refl | inr z ↦ rw z (ih c) ])
      ]

-- The records after the new one is added and the loop has run, or has been left out.
record Looped (id : String) (r : Record) (m : List (String × Record))
    (x : List (String × Record) × List Record) : Type 0 where
  keyed : Keyed x.0
  unique : Unique x.0
  taken : All (In "" "" x.0) x.1
  other : (k : String) → contains (ids_of x.1) k ≡ false → lookup k x.0 ≡ lookup k m
  known : (k : String) (t : Record) → lookup k x.0 ≡ some t → (q : Record) × (lookup k m ≡ some q)
  added : lookup id x.0 ≡ some r

left_out :
    (id : String) (r : Record) (m : List (String × Record))
    → Keyed m
    → Unique m
    → lookup id m ≡ some r
    → Looped id r m (m, [])
left_out id r m h u a = record {
  keyed = h;
  unique = u;
  taken = tt;
  other = λ k c. refl;
  known = λ k t l. (t, l);
  added = a;
}

not_itself : (id incident : String) (r : Record) → r.id ≡ id → passed_by id incident r ≡ r
unfolding is_overtaken
not_itself id incident r e = ground (arith, (string_eq.beq_iff r.id id).1 e)

run_through :
    (id incident : String) (r : Record) (m : List (String × Record))
    → Keyed m
    → Unique m
    → r.id ≡ id
    → lookup id m ≡ some r
    → Looped id r m (supersede id incident m)
unfolding In
run_through id incident r m h u e a = record {
  keyed = supersede-Keyed id incident m h;
  unique = supersede-Unique id incident m u;
  taken = supersede-taken id incident m u h;
  other = λ k. supersede-other id incident m k h u;
  known = λ k t l.
      let (q, f, same) =
        passed-back id incident k (lookup k m) t (sym (lookup-supersede id incident m k) ∙ l) in
      (q, f);
  added =
      lookup-supersede id incident m id
      ∙ ap (passed id incident) a
      ∙ ap (λ x. some x) (not_itself id incident r e);
}

owed_ids :
    (taken : List Record) (r : Record) (k : String)
    → contains (ids_of (taken ++ r ∷ [])) k ≡ (contains (ids_of taken) k || (r.id == k))
owed_ids taken r k =
    ap (λ ids. contains ids k) (ids_of-append taken r) ∙ contains-append (ids_of taken) r.id k

Current-taken : (b : Outbox) (ts : List Record) → All (In "" "" b.records) ts → All (Current b) ts
unfolding In
Current-taken b [] h = tt
Current-taken b (t ∷ ts) h = (there h.0, Current-taken b ts h.1)

-- Adding a record, with the loop or without, keeps the queue durable.
added-Durable :
    (o : Options) (b : Outbox) (r : Record) (x : List (String × Record) × List Record)
    → lookup r.id b.records ≡ none
    → Durable b
    → Looped r.id r (insert r.id r b.records) x
    → Durable
        (persist_all o (x.1 ++ r ∷ []) (record b { records = x.0; order = b.order ++ r.id ∷ [] }))
added-Durable o b r x new h l =
    let b' : Outbox = record b { records = x.0; order = b.order ++ r.id ∷ [] } in
    let there_before : (k : String) (t : Record)
        → lookup k x.0 ≡ some t
        → contains (b.order ++ r.id ∷ []) k ≡ true =
      λ k t f.
        let (q, g) = l.known k t f in
        contains-append b.order r.id k ∙ elim (Bool-cases (r.id == k)) [
          | inl z ↦ ground (arith, z)
          | inr z ↦ ground (
            arith,
            h.restorable.ordered k q
                (sym (ground (arith, z, lookup-insert r.id k r b.records)) ∙ g),
          )
        ] in
    let apart : (k : String)
        → contains (ids_of (x.1 ++ r ∷ [])) k ≡ false
        → lookup k x.0 ≡ lookup k b.records =
      λ k c.
        let both = sym (owed_ids x.1 r k) ∙ c in
        l.other k (ground (arith, both)) ∙ ground (arith, lookup-insert r.id k r b.records, both) in
    persist_all-Durable o (x.1 ++ r ∷ []) b' h.healthy l.unique
      (All-append (Current b') x.1 (r ∷ []) (Current-taken b' x.1 l.taken) (there l.added, tt))
      (edited-Restorable b (ids_of (x.1 ++ r ∷ [])) x.0 (b.order ++ r.id ∷ []) h.restorable l.keyed
        there_before apart)

module _ (o : Options) (b : Outbox) (h : Durable b) (r : Record)
    (new : lookup r.id b.records ≡ none) where
  insert-Keyed : Keyed (insert r.id r b.records)
  insert-Keyed k q l = elim (Bool-cases (r.id == k)) [
    | inl z ↦
        let one : some r ≡ some q = sym (ground (arith, z, lookup-insert r.id k r b.records)) ∙ l in
        let same : r ≡ q = cc in
        ap (λ (x : Record). x.id) (sym same) ∙ (string_eq.beq_iff r.id k).0 z
    | inr z ↦ h.restorable.keyed k q (sym (ground (arith, z, lookup-insert r.id k r b.records)) ∙ l)
  ]

  plain-Durable : Durable (
      persist_all o
        ([] ++ r ∷ [])
        (record b { records = insert r.id r b.records; order = b.order ++ r.id ∷ [] }))
  plain-Durable =
      added-Durable o b r (insert r.id r b.records, []) new h
        (left_out r.id r (insert r.id r b.records) insert-Keyed
          (insert-Unique r.id r b.records h.unique) (lookup-insert_self r.id r b.records))

  recovery-Durable :
      (incident : String)
      → Durable (
          persist_all o
            ((supersede r.id incident (insert r.id r b.records)).1 ++ r ∷ [])
            (record b {
              records = (supersede r.id incident (insert r.id r b.records)).0;
              order = b.order ++ r.id ∷ [];
            }))
  recovery-Durable incident =
      added-Durable o b r (supersede r.id incident (insert r.id r b.records)) new h (
        run_through r.id incident r (insert r.id r b.records) insert-Keyed
          (insert-Unique r.id r b.records h.unique) refl (lookup-insert_self r.id r b.records))

send_new-Durable :
    (o : Options) (id : String) (e : Alert) (now : ℕ) (b : Outbox) (x : Option Record)
    → lookup id b.records ≡ x
    → Durable b
    → Durable (send_new o id e now b x)
unfolding send_new enqueued new_record
send_new-Durable o id e now b (some old) f h = h
send_new-Durable o id e now b none f h =
    let r = new_record id e pending now now "" in
    let m = insert id r b.records in
    if_elim
      (λ (x : List (String × Record) × List Record).
        Durable
          (persist_all o (x.1 ++ r ∷ []) (record b { records = x.0; order = b.order ++ id ∷ [] })))
      (is_recovery e.kind && not (e.incident_id == "")) (supersede id e.incident_id m) (m, [])
      (recovery-Durable o b h r f e.incident_id) (plain-Durable o b h r f)

pub send-Durable :
    (o : Options) (config : Source) (id : String) (e : Alert) (now : ℕ) (b : Outbox)
    → Durable b
    → Durable (send o config id e now b)
unfolding send
send-Durable o config id e now b h =
    if_elim (λ (x : Outbox). Durable x) (has_no_channel config e) _ _ h
      (send_new-Durable o id e now b (lookup id b.records) refl h)

suppress_new-Durable :
    (o : Options) (id : String) (e : Alert) (note : String) (now : ℕ) (b : Outbox)
    (x : Option Record)
    → lookup id b.records ≡ x
    → Durable b
    → Durable (suppress_new o id e note now b x)
unfolding suppress_new new_record
suppress_new-Durable o id e note now b (some old) f h = h
suppress_new-Durable o id e note now b none f h =
    plain-Durable o b h (new_record id e suppressed 0 now note) f

pub record_suppressed-Durable :
    (o : Options) (id : String) (e : Alert) (note : String) (now : ℕ) (b : Outbox)
    → Durable b
    → Durable (record_suppressed o id e note now b)
unfolding record_suppressed
record_suppressed-Durable o id e note now b h =
    suppress_new-Durable o id e note now b (lookup id b.records) refl h
