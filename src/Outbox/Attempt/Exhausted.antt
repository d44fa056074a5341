-- ===== src/Outbox/Attempt/Exhausted.antt =====
-- The rounds of one record come to an end.
use teploy_dash.Common.{
  ℕ, suc, ◌+◌, ◌≤◌, ◌<◌, String, true, false, Option, none, some, List, [], ◌∷◌, ◌≡◌, refl, ap, sym,
  ◌∙◌, arith, if_elim, string_eq, lookup, insert, lookup-insert, length, Bool-cases, inl, inr, leb,
  pos_part, ℤ, pos, negsuc,
}
use teploy_dash.Outbox.{Record, Outbox, Options, is_pending, with_defaults, or_default}
use teploy_dash.Outbox.Journal.{persist}
use teploy_dash.Outbox.Journal.Compact.{lookup-persist}
use teploy_dash.Outbox.Attempt.{
  Turn, Tried, tried, settled, counted, concluded, failed_round, attempt, settle_found,
}

-- attempt of the record that the identifier has by then
abbrev pub retry : Options → Turn → Outbox → Option Record → Outbox
retry o w b none = b
retry o w b (some r) = attempt o w r b

-- One round after another on the same record.
unfoldable pub rounds : Options → List Turn → String → Outbox → Outbox
rounds o [] id b = b
rounds o (w ∷ ws) id b = rounds o ws id (retry o w b (lookup id b.records))

concluded-kept :
    (o : Options) (now wait : ℕ) (r : Record) (v : Option String)
    → ((concluded o now wait r v).id ≡ r.id) × ((concluded o now wait r v).attempts ≡ r.attempts)
unfolding concluded failed_round
concluded-kept o now wait r none = (refl, refl)
concluded-kept o now wait r (some text) =
    if_elim (λ (x : Record). (x.id ≡ r.id) × (x.attempts ≡ r.attempts))
      (leb (pos_part o.max_attempts) r.attempts) _ _ (refl, refl) (refl, refl)

concluded-waits :
    (o : Options) (now wait : ℕ) (r : Record) (v : Option String)
    → is_pending (concluded o now wait r v).status ≡ true
    → r.attempts < pos_part o.max_attempts
unfolding concluded failed_round is_pending
concluded-waits o now wait r none p = cc
concluded-waits o now wait r (some text) p = ground (arith, p)

pub settled-kept :
    (o : Options) (w : Turn) (t : Tried) (r : Record)
    → ((settled o w t r).id ≡ r.id) × ((settled o w t r).attempts ≡ r.attempts + 1)
unfolding settled
settled-kept o w t r = concluded-kept o w.now _ (counted o w t r) _

settled-waits :
    (o : Options) (w : Turn) (t : Tried) (r : Record)
    → is_pending (settled o w t r).status ≡ true
    → r.attempts + 1 < pos_part o.max_attempts
unfolding settled
settled-waits o w t r p = concluded-waits o w.now _ (counted o w t r) _ p

-- After n rounds a record that still waits has had n attempts, and has attempts left.
record Waited (o : Options) (id : String) (n : ℕ) (b : Outbox) : Type 0 where
  named : (r : Record) → lookup id b.records ≡ some r → r.id ≡ id
  waiting :
      (r : Record)
      → lookup id b.records ≡ some r
      → is_pending r.status ≡ true
      → (n ≤ r.attempts) × (0 < n → r.attempts < pos_part o.max_attempts)

settle_found-Waited :
    (o : Options) (w : Turn) (r : Record) (id : String) (n : ℕ) (b : Outbox)
    → r.id ≡ id
    → lookup id b.records ≡ some r
    → Waited o id n b
    → Waited o id (suc n) (settle_found o w r b (some r))
unfolding settle_found
settle_found-Waited o w r id n b e l h = elim (Bool-cases (is_pending r.status)) [
  | inl y ↦
      let r' = settled o w (tried w r) r in
      let b' : Outbox = record b { records = insert r.id r' b.records } in
      let k = settled-kept o w (tried w r) r in
      let one : (q : Record) → lookup id (persist o r' b').0.records ≡ some q → some r' ≡ some q =
        λ q m.
          sym (
            lookup-insert r.id id r' b.records ∙ ground (arith, e, (string_eq.beq_iff r.id id).1 e))
          ∙ lookup-persist o r' b' id q m in
      let same : (q : Record) → some r' ≡ some q → r' ≡ q = λ q m. cc in
      rw y (record {
        named = λ q m. ap (λ (x : Record). x.id) (sym (same q (one q m))) ∙ k.0 ∙ e;
        waiting = λ q m p.
            let s = same q (one q m) in
            let at : q.attempts ≡ r.attempts + 1 = ap (λ (x : Record). x.attempts) (sym s) ∙ k.1 in
            let more =
              settled-waits o w (tried w r) r (ap (λ (x : Record). is_pending x.status) s ∙ p) in
            let before = (h.waiting r l y).0 in
            (omega (arith, at, before), λ z. omega (arith, at, more));
      })
  | inr y ↦ rw y (record {
    named = h.named;
    waiting = λ q m p.
        let both : some r ≡ some q = sym l ∙ m in
        let same : r ≡ q = cc in
        let clash : true ≡ false =
          sym p ∙ ap (λ (x : Record). is_pending x.status) (sym same) ∙ y in
        cc;
  })
]

retry-Waited :
    (o : Options) (w : Turn) (id : String) (n : ℕ) (b : Outbox) (x : Option Record)
    → lookup id b.records ≡ x
    → Waited o id n b
    → Waited o id (suc n) (retry o w b x)
unfolding attempt
retry-Waited o w id n b none l h = record {
  named = h.named;
  waiting = λ q m p. let clash : none ≡ some q = sym l ∙ m in cc;
}
retry-Waited o w id n b (some r) l h =
    let e = h.named r l in
    rw (ap (λ x. lookup x b.records) e, l) (settle_found-Waited o w r id n b e l h)

rounds-Waited :
    (o : Options) (ws : List Turn) (id : String) (n : ℕ) (b : Outbox)
    → Waited o id n b
    → Waited o id (length ws + n) (rounds o ws id b)
unfolding rounds
rounds-Waited o [] id n b h = let same : 0 + n ≡ n = omega arith in rw same h
rounds-Waited o (w ∷ ws) id n b h =
    let more =
      rounds-Waited o ws id (suc n) _ (retry-Waited o w id n b (lookup id b.records) refl h) in
    let same : suc (length ws) + n ≡ length ws + suc n = omega arith in rw same more

some-attempts : (o : Options) → 0 < pos_part (with_defaults o).max_attempts
unfolding with_defaults
some-attempts o = positive o.max_attempts
  where
    positive : (z : ℤ) → 0 < pos_part (or_default z 5)
    positive (pos n) = ground arith
    positive (negsuc n) = omega arith

-- However every send, the configuration and the clock turn out, and whatever the writes of the
-- journal come to: once a record has had as many rounds as the maximum of attempts, it waits no more.
pub rounds-end :
    (o : Options) (ws : List Turn) (id : String) (b : Outbox)
    → ((r : Record) → lookup id b.records ≡ some r → r.id ≡ id)
    → pos_part (with_defaults o).max_attempts ≤ length ws
    → (r : Record) → lookup id (rounds (with_defaults o) ws id b).records ≡ some r
    → is_pending r.status ≡ false
rounds-end o ws id b k enough r l =
    let start : Waited (with_defaults o) id 0 b = record {
      named = k;
      waiting = λ q m p. (omega arith, λ z. omega (arith, z));
    } in
    let h = rounds-Waited (with_defaults o) ws id 0 b start in
    elim (Bool-cases (is_pending r.status)) [
      | inl y ↦
          let (low, high) = h.waiting r l y in
          let some_left = some-attempts o in
          let top = high (omega (arith, enough, some_left)) in
          absurd (omega (arith, low, top, enough))
      | inr y ↦ y
    ]
