-- ===== src/Outbox/Attempt/Durable.antt =====
-- What a round leaves in memory and in the journal.
use mathlib.Core.Path.{subst}
use teploy_dash.Common.{
  ℕ, String, true, false, Option, none, some, List, [], ◌∷◌, ◌≡◌, refl, ap, sym, ◌∙◌, arith,
  if_elim, ◌==◌, string_eq, lookup, insert, lookup-insert, lookup-insert_self, insert-Unique,
  Bool-cases, inl, inr,
}
use teploy_dash.Alert.Channels.{contains}
use teploy_dash.Outbox.{Record, Outbox, Options, is_pending}
use teploy_dash.Outbox.Journal.{persist, persist_all}
use teploy_dash.Outbox.Journal.Restart.{there}
use teploy_dash.Outbox.Journal.Edit.{Durable, edited-Restorable, persist_all-Durable}
use teploy_dash.Outbox.Attempt.{
  Turn, tried, settled, attempt, settle_found, attempt_each, deliver_due, due,
}
use teploy_dash.Outbox.Attempt.Exhausted.{settled-kept}

-- Putting a record in the place of one of the same identifier, and writing it.
replaced-Durable :
    (o : Options) (b : Outbox) (r q : Record)
    → lookup r.id b.records ≡ some q
    → Durable b
    → Durable (persist_all o (r ∷ []) (record b { records = insert r.id r b.records }))
unfolding contains
replaced-Durable o b r q l h =
    let m = insert r.id r b.records in
    let hit : (k : String) → (r.id == k) ≡ true → lookup k m ≡ some r =
      λ k z. ground (arith, z, lookup-insert r.id k r b.records) in
    let miss : (k : String) → (r.id == k) ≡ false → lookup k m ≡ lookup k b.records =
      λ k z. ground (arith, z, lookup-insert r.id k r b.records) in
    let key : (k : String) (t : Record) → lookup k m ≡ some t → t.id ≡ k = λ k t f.
      elim (Bool-cases (r.id == k)) [
        | inl z ↦
            let one : some r ≡ some t = sym (hit k z) ∙ f in
            let same : r ≡ t = cc in
            ap (λ (x : Record). x.id) (sym same) ∙ (string_eq.beq_iff r.id k).0 z
        | inr z ↦ h.restorable.keyed k t (sym (miss k z) ∙ f)
      ] in
    let kept : (k : String) (t : Record) → lookup k m ≡ some t → contains b.order k ≡ true =
      λ k t f. elim (Bool-cases (r.id == k)) [
        | inl z ↦
            h.restorable.ordered k q
              (ap (λ x. lookup x b.records) (sym ((string_eq.beq_iff r.id k).0 z)) ∙ l)
        | inr z ↦ h.restorable.ordered k t (sym (miss k z) ∙ f)
      ] in
    persist_all-Durable o (r ∷ []) (record b { records = m }) h.healthy
      (insert-Unique r.id r b.records h.unique) (there (lookup-insert_self r.id r b.records), tt)
      (edited-Restorable b (r.id ∷ []) m b.order h.restorable key kept
        (λ k c. miss k (ground (arith, c))))

settle_found-Durable :
    (o : Options) (w : Turn) (snap : Record) (b : Outbox) (x : Option Record)
    → lookup snap.id b.records ≡ x
    → Durable b
    → Durable (settle_found o w snap b x)
unfolding settle_found persist_all
settle_found-Durable o w snap b none l h = h
settle_found-Durable o w snap b (some r) l h =
    let r' = settled o w (tried w snap) r in
    let named : r'.id ≡ snap.id =
      (settled-kept o w (tried w snap) r).0 ∙ h.restorable.keyed snap.id r l in
    if_elim (λ (y : Outbox). Durable y) (is_pending r.status)
      (persist o r' (record b { records = insert snap.id r' b.records })).0 b
      (subst (λ k. Durable (persist_all o (r' ∷ []) (record b { records = insert k r' b.records })))
        named (replaced-Durable o b r' r (ap (λ x. lookup x b.records) named ∙ l) h))
      h

pub attempt-Durable :
    (o : Options) (w : Turn) (snap : Record) (b : Outbox) → Durable b → Durable (attempt o w snap b)
unfolding attempt
attempt-Durable o w snap b h = settle_found-Durable o w snap b (lookup snap.id b.records) refl h

attempt_each-Durable :
    (o : Options) (world : String → Turn) (rs : List Record) (b : Outbox)
    → Durable b
    → Durable (attempt_each o world rs b)
unfolding attempt_each
attempt_each-Durable o world [] b h = h
attempt_each-Durable o world (r ∷ rs) b h =
    attempt_each-Durable o world rs (attempt o (world r.id) r b)
      (attempt-Durable o (world r.id) r b h)

pub deliver_due-Durable :
    (o : Options) (now : ℕ) (world : String → Turn) (b : Outbox)
    → Durable b
    → Durable (deliver_due o now world b)
unfolding deliver_due
deliver_due-Durable o now world b h = attempt_each-Durable o world (due now b.records) b h
