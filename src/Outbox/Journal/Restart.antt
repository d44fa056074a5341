-- ===== src/Outbox/Journal/Restart.antt =====
-- What a restart finds in the journal.
use mathlib.Core.Path.{subst}
use teploy_dash.Common.{
  ℕ, All, ◌+◌, ◌-◌, String, Bool, true, false, Option, none, some, List, [], ◌∷◌, ◌++◌, ◌≡◌, refl,
  ap, sym, ◌∙◌, arith, ltb, length, if◌then◌else◌, if_elim, pos_part, ◌==◌, ◌⊎◌, string_eq, lookup,
  insert, lookup-insert, Bool-cases, Option-cases, inl, inr,
}
use teploy_dash.Alert.Channels.{contains}
use teploy_dash.Outbox.{Record, Outbox, Options, Write, wrote, lost, visible, is_pending}
use teploy_dash.Outbox.Journal.{
  swept, lines_of, with_line, rewritten, compact, appended, persist, persist_all, replay,
  next_write, later_writes,
}
use teploy_dash.Outbox.Journal.Compact.{lookup-swept, swept-covers, lookup-persist, persist-pending}

-- Memory and journal agree, but for the identifiers in `owed`, whose lines are still to be written:
-- what is in memory is what a restart reads, and what a restart reads as pending is in memory.
pub record Restorable (owed : List String) (b : Outbox) : Type 0 where
  pub keyed : (id : String) (r : Record) → lookup id b.records ≡ some r → r.id ≡ id
  pub ordered :
      (id : String) (r : Record) → lookup id b.records ≡ some r → contains b.order id ≡ true
  pub written :
      (id : String) (r : Record)
      → lookup id b.records ≡ some r
      → contains owed id ≡ false
      → lookup id (replay b.journal []) ≡ some r
  pub unfinished :
      (id : String) (r : Record)
      → lookup id (replay b.journal []) ≡ some r
      → is_pending r.status ≡ true
      → contains owed id ≡ false
      → lookup id b.records ≡ some r

-- A snapshot that is still to be written: it is the record in memory, or terminal and dropped.
pub data Current (b : Outbox) (s : Record) : Type 0 where
  there : lookup s.id b.records ≡ some s → Current b s
  dropped : lookup s.id b.records ≡ none → is_pending s.status ≡ false → Current b s

replay-append :
    (xs : List Record) (r : Record) (m : List (String × Record))
    → replay (xs ++ r ∷ []) m ≡ insert r.id r (replay xs m)
unfolding replay
replay-append [] r m = refl
replay-append (x ∷ xs) r m = replay-append xs r (insert x.id x m)

Current-same :
    (b : Outbox) (s : Record)
    → Current b s
    → (r : Record) → lookup s.id b.records ≡ some r
    → some s ≡ some r
Current-same b s (there l) r k = sym l ∙ k
Current-same b s (dropped l p) r k = let clash : none ≡ some r = sym l ∙ k in cc

Current-there :
    (b : Outbox) (s : Record)
    → Current b s
    → is_pending s.status ≡ true
    → lookup s.id b.records ≡ some s
Current-there b s (there l) p = l
Current-there b s (dropped l n) p = let clash : true ≡ false = sym p ∙ n in cc

line_elim :
    (P : List Record → Type 0) (x : Option Record) (rest : List Record)
    → (x ≡ none → P rest)
    → ((q : Record) → x ≡ some q → P (q ∷ rest))
    → P (with_line x rest)
unfolding with_line
line_elim P none rest a b = a refl
line_elim P (some q) rest a b = b q refl

module _ (m : List (String × Record))
    (k : (id : String) (r : Record) → lookup id m ≡ some r → r.id ≡ id) where
  lines-read :
      (ids : List String) (acc : List (String × Record)) (id : String) (r : Record)
      → lookup id (replay (lines_of ids m) acc) ≡ some r
      → (lookup id m ≡ some r) ⊎ (lookup id acc ≡ some r)
  unfolding lines_of replay
  lines-read [] acc id r = λ h. inr h
  lines-read (i ∷ ids) acc id r =
      line_elim
        (λ ls.
          lookup id (replay ls acc) ≡ some r → (lookup id m ≡ some r) ⊎ (lookup id acc ≡ some r))
        (lookup i m) (lines_of ids m) (λ e. lines-read ids acc id r)
        (λ q e h. elim (lines-read ids (insert q.id q acc) id r h) [
          | inl y ↦ inl y
          | inr y ↦ elim (Bool-cases (q.id == id)) [
            | inl z ↦
                let one : some q ≡ some r =
                  sym (ground (arith, z, lookup-insert q.id id q acc)) ∙ y in
                let at : i ≡ id = sym (k i q e) ∙ (string_eq.beq_iff q.id id).0 z in
                inl (sym (ap (λ x. lookup x m) at) ∙ e ∙ one)
            | inr z ↦ inr (ground (arith, z, lookup-insert q.id id q acc, y))
          ]
        ])

  lines-written :
      (ids : List String) (acc : List (String × Record)) (id : String) (r : Record)
      → lookup id m ≡ some r
      → (contains ids id ≡ true) ⊎ (lookup id acc ≡ some r)
      → lookup id (replay (lines_of ids m) acc) ≡ some r
  unfolding lines_of replay contains
  lines-written [] acc id r l = λ c. elim c [ inl y ↦ cc | inr y ↦ y ]
  lines-written (i ∷ ids) acc id r l =
      line_elim
        (λ ls.
          ((if i == id then true else contains ids id) ≡ true) ⊎ (lookup id acc ≡ some r)
          → lookup id (replay ls acc) ≡ some r)
        (lookup i m) (lines_of ids m)
        (λ e c. elim (Bool-cases (i == id)) [
          | inl z ↦
              let clash : none ≡ some r =
                sym e ∙ ap (λ x. lookup x m) ((string_eq.beq_iff i id).0 z) ∙ l in
              cc
          | inr z ↦ lines-written ids acc id r l (rw z at c)
        ])
        (λ q e c. lines-written ids (insert q.id q acc) id r l (elim (Bool-cases (q.id == id)) [
          | inl z ↦
              let at : i ≡ id = sym (k i q e) ∙ (string_eq.beq_iff q.id id).0 z in
              let one : some q ≡ some r = sym e ∙ ap (λ x. lookup x m) at ∙ l in
              inr (ground (arith, z, lookup-insert q.id id q acc) ∙ one)
          | inr z ↦
              let apart : (i == id) ≡ false = ap (λ x. x == id) (sym (k i q e)) ∙ z in
              elim (rw apart at c) [
                | inl y ↦ inl y
                | inr y ↦ inr (ground (arith, z, lookup-insert q.id id q acc) ∙ y)
              ]
        ]))

-- A compaction leaves nothing owed, whatever was.
compact-Restorable :
    (o : Options) (owed : List String) (b : Outbox)
    → b.faults ≡ []
    → Restorable owed b
    → Restorable [] (compact o b).0
unfolding compact rewritten
compact-Restorable o owed b f h =
    let d = length b.records - pos_part o.max_retained in
    let rs = (swept d b.order b.records).1 in
    let ids = (swept d b.order b.records).0 in
    let back : (id : String) (r : Record) → lookup id rs ≡ some r → lookup id b.records ≡ some r =
      lookup-swept d b.order b.records in
    let k : (id : String) (r : Record) → lookup id rs ≡ some r → r.id ≡ id =
      λ id r l. h.keyed id r (back id r l) in
    let c : (id : String) (r : Record) → lookup id rs ≡ some r → contains ids id ≡ true =
      λ id r l. swept-covers d b.order b.records id r l (h.ordered id r (back id r l)) in
    rw f (record {
      keyed = k;
      ordered = c;
      written = λ id r l n. lines-written rs k ids [] id r l (inl (c id r l));
      unfinished = λ id r l p n. elim (lines-read rs k ids [] id r l) [
        | inl y ↦ y
        | inr y ↦ absurd (unfold lookup in cc)
      ];
    })

-- The journal with one line more.
appended-Restorable :
    (s : Record) (owed : List String) (b : Outbox)
    → Current b s
    → Restorable (s.id ∷ owed) b
    → (n : ℕ) (ws : List Write)
    → Restorable owed (record b { journal = b.journal ++ s ∷ []; lines = n; faults = ws })
unfolding contains
appended-Restorable s owed b c h n ws = record {
  keyed = h.keyed;
  ordered = h.ordered;
  written = λ id r l m. rw (replay-append b.journal s []) (elim (Bool-cases (s.id == id)) [
    | inl z ↦
        let at = (string_eq.beq_iff s.id id).0 z in
        ground (arith, z, lookup-insert s.id id s (replay b.journal []))
        ∙ Current-same b s c r (ap (λ x. lookup x b.records) at ∙ l)
    | inr z ↦
        ground (arith, z, lookup-insert s.id id s (replay b.journal [])) ∙ h.written id r l (rw z m)
  ]);
  unfinished = λ id r l p m. elim (Bool-cases (s.id == id)) [
    | inl z ↦
        let at = (string_eq.beq_iff s.id id).0 z in
        let one : some s ≡ some r =
          sym (ground (arith, z, lookup-insert s.id id s (replay b.journal [])))
          ∙ ap (lookup id) (sym (replay-append b.journal s []))
          ∙ l in
        let same : s ≡ r = cc in
        ap (λ x. lookup x b.records) (sym at)
        ∙ Current-there b s c (ap (λ (x : Record). is_pending x.status) same ∙ p)
        ∙ one
    | inr z ↦
        h.unfinished id r
          (sym (ground (arith, z, lookup-insert s.id id s (replay b.journal [])))
            ∙ ap (lookup id) (sym (replay-append b.journal s []))
            ∙ l)
          p (rw z m)
  ];
}

All-map :
    (P Q : Record → Type 0) → ((x : Record) → P x → Q x) → (xs : List Record) → All P xs → All Q xs
All-map P Q f [] h = tt
All-map P Q f (x ∷ xs) h = (f x h.0, All-map P Q f xs h.1)

weaken : (owed : List String) (b : Outbox) → Restorable [] b → Restorable owed b
unfolding contains
weaken owed b h = record {
  keyed = h.keyed;
  ordered = h.ordered;
  written = λ id r l n. h.written id r l refl;
  unfinished = λ id r l p n. h.unfinished id r l p refl;
}

persist-Restorable :
    (o : Options) (s : Record) (owed : List String) (b : Outbox)
    → b.faults ≡ []
    → Current b s
    → Restorable (s.id ∷ owed) b
    → Restorable owed (persist o s b).0
unfolding persist appended later_writes
persist-Restorable o s owed b f c h =
    let b' : Outbox = record b {
      journal = b.journal ++ s ∷ [];
      lines = b.lines + 1;
      faults = later_writes b.faults;
    } in
    let good = appended-Restorable s owed b c h (b.lines + 1) (later_writes b.faults) in
    subst (λ ws. Restorable owed (appended o b s (next_write ws)).0) (sym f)
      (if_elim (λ (x : Outbox × Bool). Restorable owed x.0)
        (ltb (pos_part o.max_retained) (length b.records)) (compact o b') (b', true)
        (weaken owed (compact o b').0 (compact-Restorable o owed b' (ap later_writes f) good)) good)

rewritten-faults :
    (b : Outbox) (content : List Record) (w : Write)
    → (rewritten b content w).0.faults ≡ later_writes b.faults
unfolding rewritten
rewritten-faults b content wrote = refl
rewritten-faults b content lost = refl
rewritten-faults b content visible = refl

compact-faults : (o : Options) (b : Outbox) → b.faults ≡ [] → (compact o b).0.faults ≡ []
unfolding compact later_writes
compact-faults o b f =
    let out = swept (length b.records - pos_part o.max_retained) b.order b.records in
    rewritten-faults (record b { order = out.0; records = out.1 }) (lines_of out.0 out.1)
      (next_write b.faults)
    ∙ ap later_writes f

faults-persist :
    (o : Options) (s : Record) (b : Outbox) → b.faults ≡ [] → (persist o s b).0.faults ≡ []
unfolding persist appended later_writes
faults-persist o s b f =
    let b' : Outbox = record b {
      journal = b.journal ++ s ∷ [];
      lines = b.lines + 1;
      faults = later_writes b.faults;
    } in
    subst (λ ws. (appended o b s (next_write ws)).0.faults ≡ []) (sym f)
      (if_elim (λ (x : Outbox × Bool). x.0.faults ≡ [])
        (ltb (pos_part o.max_retained) (length b.records)) (compact o b') (b', true)
        (compact-faults o b' (ap later_writes f)) (ap later_writes f))

-- A write leaves the other snapshots current.
persist-Current :
    (o : Options) (s t : Record) (b : Outbox) → Current b t → Current (persist o s b).0 t
persist-Current o s t b (there l) = elim (Bool-cases (is_pending t.status)) [
  | inl y ↦ there (persist-pending o s b t.id t y l)
  | inr y ↦ elim (Option-cases (lookup t.id (persist o s b).0.records)) [
    | inl e ↦ dropped e y
    | inr (r, e) ↦
        let one : some t ≡ some r = sym l ∙ lookup-persist o s b t.id r e in there (e ∙ sym one)
  ]
]
persist-Current o s t b (dropped l p) =
    elim (Option-cases (lookup t.id (persist o s b).0.records)) [
      | inl e ↦ dropped e p
      | inr (r, e) ↦ let clash : none ≡ some r = sym l ∙ lookup-persist o s b t.id r e in cc
    ]

abbrev pub ids_of : List Record → List String
ids_of [] = []
ids_of (r ∷ rs) = r.id ∷ ids_of rs

-- Writing all that is owed, without a failing write, leaves nothing owed.
pub persist_all-Restorable :
    (o : Options) (owed : List Record) (b : Outbox)
    → b.faults ≡ []
    → All (Current b) owed
    → Restorable (ids_of owed) b
    → Restorable [] (persist_all o owed b) × ((persist_all o owed b).faults ≡ [])
unfolding persist_all
persist_all-Restorable o [] b f c h = (h, f)
persist_all-Restorable o (s ∷ rest) b f c h =
    persist_all-Restorable o rest (persist o s b).0 (faults-persist o s b f)
      (All-map (Current b) (Current (persist o s b).0) (λ t. persist-Current o s t b) rest c.1)
      (persist-Restorable o s (ids_of rest) b f c.0 h)
