-- ===== src/Outbox/Views/Counts.antt =====
-- What the views of the queue show.
use teploy_dash.Common.{
  ℕ, suc, ◌+◌, ◌-◌, ◌<◌, String, true, false, ◌&&◌, Option, none, some, List, [], ◌∷◌, ◌++◌, leb,
  ◌≡◌, refl, ap, sym, ◌∙◌, arith, if◌then◌else◌, ℤ, pos, negsuc, pos_part, is_positive, ◌==◌,
  string_eq, lookup, insert, lookup-insert, length, take, Unique, Bool-cases, inl, inr,
}
use teploy_dash.Outbox.{
  Record, Leg, Outbox, Options, Status, pending, delivered, dead_lettered, suppressed, superseded,
}
use teploy_dash.Outbox.Views.{
  status_of, listed, history_from, history, backward, Health, health_or_none, with_leg, with_legs,
  with_record, health_from, channel_health,
}

module _ (o : Options) (records : List (String × Record)) (k : ℕ) where
  step :
      (x : Option Record) (ids : List String) (n m : ℕ)
      → n < k
      → ((n' m' : ℕ)
          → n' < k
          → history_from o (pos k) records ids n'
            ≡ take (k - n') (history_from o (pos 0) records ids m'))
      → (listed o x []
          ++ (if is_positive (pos k) && leb k (n + length (listed o x []))
              then []
              else history_from o (pos k) records ids (n + length (listed o x []))))
        ≡ take
            (k - n)
            (listed o x [] ++ history_from o (pos 0) records ids (m + length (listed o x [])))
  unfolding listed
  step none ids n m h ih = ground (arith, h, ih (n + 0) (m + 0))
  step (some r) ids n m h ih =
      let more : k - n ≡ suc (k - (n + 1)) = omega (arith, h) in
      rw more (elim (Bool-cases (leb k (n + 1))) [
        | inl y ↦
            let last : k - (n + 1) ≡ 0 = ground (arith, y) in
            let over : (is_positive (pos k) && leb k (n + 1)) ≡ true = ground (arith, h, y) in
            rw (last, over) refl
        | inr y ↦
            let over : (is_positive (pos k) && leb k (n + 1)) ≡ false = ground (arith, h, y) in
            rw over (ap (λ xs. status_of o r ∷ xs) (ih (n + 1) (m + 1) (ground (arith, y))))
      ])

  rows-take :
      (ids : List String) (n m : ℕ)
      → n < k
      → history_from o (pos k) records ids n ≡ take (k - n) (history_from o (pos 0) records ids m)
  unfolding history_from
  rows-take [] n m h = let more : k - n ≡ suc (k - n - 1) = omega (arith, h) in rw more refl
  rows-take (id ∷ ids) n m h = step (lookup id records) ids n m h (λ n' m'. rows-take ids n' m')

-- History with a limit shows the newest statuses of the whole history, as many as the limit says.
pub history-take :
    (o : Options) (limit : ℤ) (b : Outbox)
    → is_positive limit ≡ true
    → history o limit b ≡ take (pos_part limit) (history o (pos 0) b)
unfolding history
history-take o (negsuc k) b p = cc
history-take o (pos k) b p =
    let whole : k - 0 ≡ k = omega arith in
    rows-take o b.records k (backward b.order []) 0 0 (ground (arith, p))
    ∙ ap (λ n. take n (history o (pos 0) b)) whole

-- The three counters of a channel's health.
pub data Counter : Type 0 where
  delivered_count pending_count dead_count : Counter

abbrev pub counted_in : Counter → Option Health → ℕ
counted_in delivered_count x = (health_or_none x).delivered_legs
counted_in pending_count x = (health_or_none x).pending_legs
counted_in dead_count x = (health_or_none x).dead_legs

-- Which counter a leg of a status belongs to: one that is neither delivered nor dead is pending.
abbrev pub counter_of : Status → Counter
counter_of delivered = delivered_count
counter_of dead_lettered = dead_count
counter_of pending = pending_count
counter_of suppressed = pending_count
counter_of superseded = pending_count

abbrev pub same_counter : Counter → Counter → ℕ
same_counter delivered_count delivered_count = 1
same_counter pending_count pending_count = 1
same_counter dead_count dead_count = 1
same_counter k j = 0

with_leg-counted :
    (o : Options) (l : Leg) (s : Status) (k : Counter) (x : Option Health)
    → counted_in k (some (with_leg o l s (health_or_none x)))
      ≡ counted_in k x + same_counter k (counter_of s)
unfolding with_leg
with_leg-counted o l s k x = ground arith

-- The legs of a record for the channel that belong to the counter.
abbrev pub leg_count : Counter → Option Leg → ℕ
leg_count k none = 0
leg_count k (some l) = same_counter k (counter_of l.status)

with_legs-counted :
    (o : Options) (k : Counter) (c : String) (legs : List (String × Leg))
    (out : List (String × Health))
    → Unique legs
    → counted_in k (lookup c (with_legs o legs out))
      ≡ counted_in k (lookup c out) + leg_count k (lookup c legs)
unfolding with_legs lookup
with_legs-counted o k c [] out u = omega arith
with_legs-counted o k c ((d, l) ∷ rest) out u =
    let h = with_leg o l l.status (health_or_none (lookup d out)) in
    let ih = with_legs-counted o k c rest (insert d h out) u.1 in
    elim (Bool-cases (d == c)) [
      | inl y ↦
          let same = (string_eq.beq_iff d c).0 y in
          let none_left : leg_count k (lookup c rest) ≡ 0 =
            ap (λ x. leg_count k (lookup x rest)) (sym same) ∙ ap (leg_count k) u.0 in
          let put : counted_in k (lookup c (insert d h out)) ≡ counted_in k (some h) =
            let at : lookup c (insert d h out) ≡ some h =
              lookup-insert d c h out ∙ ground (arith, y) in
            ap (counted_in k) at in
          let was : counted_in k (lookup d out) ≡ counted_in k (lookup c out) =
            ap (λ x. counted_in k (lookup x out)) same in
          let one = with_leg-counted o l l.status k (lookup d out) in
          rw y (omega (arith, ih, none_left, put, was, one))
      | inr y ↦
          let put : counted_in k (lookup c (insert d h out)) ≡ counted_in k (lookup c out) =
            let at : lookup c (insert d h out) ≡ lookup c out =
              lookup-insert d c h out ∙ ground (arith, y) in
            ap (counted_in k) at in
          rw y (omega (arith, ih, put))
    ]

abbrev pub leg_of : Counter → String → Option Record → ℕ
leg_of k c none = 0
leg_of k c (some r) = leg_count k (lookup c r.channels)

-- How many records of the order have a leg for the channel that belongs to the counter.
abbrev pub legs_of : Counter → String → List (String × Record) → List String → ℕ
legs_of k c records [] = 0
legs_of k c records (id ∷ ids) = leg_of k c (lookup id records) + legs_of k c records ids

with_record-counted :
    (o : Options) (k : Counter) (c : String) (x : Option Record) (out : List (String × Health))
    → ((r : Record) → x ≡ some r → Unique r.channels)
    → counted_in k (lookup c (with_record o x out)) ≡ counted_in k (lookup c out) + leg_of k c x
unfolding with_record
with_record-counted o k c none out u = omega arith
with_record-counted o k c (some r) out u = with_legs-counted o k c r.channels out (u r refl)

health_from-counted :
    (o : Options) (k : Counter) (c : String) (records : List (String × Record))
    → ((id : String) (r : Record) → lookup id records ≡ some r → Unique r.channels)
    → (ids : List String) (out : List (String × Health))
    → counted_in k (lookup c (health_from o records ids out))
      ≡ counted_in k (lookup c out) + legs_of k c records ids
unfolding health_from
health_from-counted o k c records u [] out = omega arith
health_from-counted o k c records u (id ∷ ids) out =
    let one = with_record-counted o k c (lookup id records) out (u id) in
    omega
      (arith, one, health_from-counted o k c records u ids (with_record o (lookup id records) out))

-- Each of the three counters of a channel's health is the number of the retained records whose leg
-- for the channel is of its kind: delivered, dead-lettered, or else pending. No record is assumed to
-- have two legs for one channel.
pub channel_health-counted :
    (o : Options) (b : Outbox) (k : Counter) (c : String)
    → ((id : String) (r : Record) → lookup id b.records ≡ some r → Unique r.channels)
    → counted_in k (lookup c (channel_health o b)) ≡ legs_of k c b.records b.order
unfolding channel_health lookup
channel_health-counted o b k c u = health_from-counted o k c b.records u b.order [] ∙ from_zero k
  where
    from_zero :
        (k : Counter)
        → counted_in k none + legs_of k c b.records b.order ≡ legs_of k c b.records b.order
    from_zero delivered_count = omega arith
    from_zero pending_count = omega arith
    from_zero dead_count = omega arith
