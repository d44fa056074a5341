-- ===== src/Outbox/Journal/Edit.antt =====
-- A change of the records in memory, before its lines are written.
use teploy_dash.Common.{
  ℕ, ◌-◌, String, true, false, some, List, [], ◌∷◌, ◌≡◌, refl, sym, ◌∙◌, string_eq, lookup, remove,
  Unique, remove-Unique, All,
}
use teploy_dash.Alert.Channels.{contains}
use teploy_dash.Outbox.{Record, Outbox, Options}
use teploy_dash.Outbox.Journal.{swept, persist, persist_all, next_write}
use teploy_dash.Outbox.Journal.Compact.{picked_elim, appended-cases}
use teploy_dash.Outbox.Journal.Restart.{Restorable, Current, ids_of, persist_all-Restorable}

-- Between two calls, if no write has failed: memory and journal agree, and an identifier has one record.
pub record Durable (b : Outbox) : Type 0 where
  pub restorable : Restorable [] b
  pub unique : Unique b.records
  pub healthy : b.faults ≡ []

-- The records outside of `more` are as they were, so that only the lines of `more` are owed.
pub edited-Restorable :
    (b : Outbox) (more : List String) (m : List (String × Record)) (order : List String)
    → Restorable [] b
    → ((k : String) (r : Record) → lookup k m ≡ some r → r.id ≡ k)
    → ((k : String) (r : Record) → lookup k m ≡ some r → contains order k ≡ true)
    → ((k : String) → contains more k ≡ false → lookup k m ≡ lookup k b.records)
    → Restorable more (record b { records = m; order = order })
unfolding contains
edited-Restorable b more m order h key kept same = record {
  keyed = key;
  ordered = kept;
  written = λ k r l n. h.written k r (sym (same k n) ∙ l) refl;
  unfinished = λ k r l p n. same k n ∙ h.unfinished k r l p refl;
}

swept-Unique :
    (d : ℕ) (ids : List String) (m : List (String × Record)) → Unique m → Unique (swept d ids m).1
unfolding swept
swept-Unique d [] m u = u
swept-Unique d (i ∷ ids) m u =
    picked_elim (λ (x : List String × List (String × Record)). Unique x.1) i _ (lookup i m) _ _
      (λ e. swept-Unique d ids m u)
      (λ q e n. swept-Unique (d - 1) ids (remove i m) (remove-Unique i m u))
      (λ q e. swept-Unique d ids m u)

persist_all-Unique :
    (o : Options) (owed : List Record) (b : Outbox)
    → Unique b.records
    → Unique (persist_all o owed b).records
unfolding persist_all persist
persist_all-Unique o [] b u = u
persist_all-Unique o (s ∷ rest) b u = persist_all-Unique o rest (persist o s b).0 (
    appended-cases o s b (next_write b.faults) (λ m. Unique m) u
      (swept-Unique _ b.order b.records u))

-- What is owed can be written, and then everything is durable again.
pub persist_all-Durable :
    (o : Options) (owed : List Record) (b : Outbox)
    → b.faults ≡ []
    → Unique b.records
    → All (Current b) owed
    → Restorable (ids_of owed) b
    → Durable (persist_all o owed b)
persist_all-Durable o owed b f u c h =
    let (good, none_left) = persist_all-Restorable o owed b f c h in
    record { restorable = good; unique = persist_all-Unique o owed b u; healthy = none_left }
