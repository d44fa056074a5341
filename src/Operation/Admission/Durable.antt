-- ===== src/Operation/Admission/Durable.antt =====
-- An admission that is reported went to disk first, and can be replayed by its key.
use mathlib.Core.Path.{subst}
use teploy_dash.Operation.Admission.Budget.{unchanged, added, admit-Admission}
use teploy_dash.Common.{
  ℕ, String, false, Option, none, some, ◌≡◌, refl, arith, string_eq, ◌==◌, lookup,
  lookup-insert_self, if_elim,
}
use teploy_dash.Operation.Types.{
  queued, Operation, Error, Result, ok, err, IdemKey, idem_key_eq, idempotency_scope, next_u64,
  shutting_down,
}
use teploy_dash.Operation.Manager.{Setup, Manager, Store, save_operation, append_event_line}
use teploy_dash.Operation.Admission.{
  Call, Prepared, refused, fresh, new_operation, lookup_replay, over_budget, admit, admit_replay,
  admit_budgeted, commit, journaled, saved, publish, initial_event, admit_to_target,
}

-- What a caller that is told of a new operation can rely on: it is queued, in memory and on disk
-- alike, with the caller's principal, key and request hash, and its key leads to it.
pub record IsPublished (call : Call) (hash : String) (m : Manager) (o : Operation) : Type 0 where
  pub status : o.status ≡ queued
  pub in_memory : lookup o.id m.operations ≡ some o
  pub on_disk : lookup o.id m.store.records ≡ some o
  pub principal : o.idempotency_principal ≡ idempotency_scope call.actor
  pub hash_kept : o.request_hash ≡ hash
  pub created_at : o.created_at ≡ call.created
  pub indexed :
      (call.key == "") ≡ false
      → lookup (record { principal = idempotency_scope call.actor; key = call.key }) m.idempotency
        ≡ some o.id

save_operation-kept :
    (op : Operation) (s : Store)
    → (save_operation op s).0 ≡ none
    → lookup op.id (save_operation op s).1.records ≡ some op
unfolding save_operation
save_operation-kept op s h = ground (arith, lookup-insert_self op.id op s.records)

module _ (call : Call) (p : Prepared) (id : String) (seq : ℕ) (m : Manager) where
  saved-IsPublished :
      (o : Operation) (r : Option String × Store)
      → (r.0 ≡ none → lookup id r.1.records ≡ some (new_operation call p id seq))
      → (saved call (new_operation call p id seq) p.built.command m r).1 ≡ fresh o
      → IsPublished call p.hash (saved call (new_operation call p id seq) p.built.command m r).0 o
  unfolding saved admit_to_target new_operation
  saved-IsPublished o (some e, s) d h = cc
  saved-IsPublished o (none, s) d h =
      let op = new_operation call p id seq in
      let e : op ≡ o = cc in
      subst (IsPublished call p.hash (publish call op p.built.command (record m { store = s }))) e
        (record {
          status = refl;
          in_memory = lookup-insert_self id op m.operations;
          on_disk = d refl;
          principal = refl;
          hash_kept = refl;
          created_at = refl;
          indexed = λ k. rw k (
              lookup-insert_self
                (record { principal = idempotency_scope call.actor; key = call.key }) id
                m.idempotency);
        })

  journaled-IsPublished :
      (o : Operation) (r : Option String × Store)
      → (journaled call (new_operation call p id seq) p.built.command m r).1 ≡ fresh o
      → IsPublished call p.hash
          (journaled call (new_operation call p id seq) p.built.command m r).0
          o
  unfolding journaled
  journaled-IsPublished o (some e, s) h = cc
  journaled-IsPublished o (none, s) h =
      saved-IsPublished o (save_operation (new_operation call p id seq) s)
        (unfold new_operation in save_operation-kept (new_operation call p id seq) s) h

commit-IsPublished :
    (c : Setup) (call : Call) (p : Prepared) (m : Manager) (o : Operation) (r : Result String)
    → (commit c call p m r).1 ≡ fresh o
    → IsPublished call p.hash (commit c call p m r).0 o
unfolding commit
commit-IsPublished c call p m o (err e) h = cc
commit-IsPublished c call p m o (ok id) h =
    let seq = next_u64 m.admission_seq in
    let m' : Manager = record m { admission_seq = seq } in
    journaled-IsPublished call p id seq m' o
      (append_event_line c id (initial_event call id) m'.store) h

admit_budgeted-IsPublished :
    (c : Setup) (call : Call) (p : Prepared) (m : Manager) (o : Operation) (r : Option Error)
    → (admit_budgeted c call p m r).1 ≡ fresh o
    → IsPublished call p.hash (admit_budgeted c call p m r).0 o
unfolding admit_budgeted
admit_budgeted-IsPublished c call p m o (some e) h = cc
admit_budgeted-IsPublished c call p m o none h = commit-IsPublished c call p m o call.new_id h

admit_replay-IsPublished :
    (c : Setup) (call : Call) (p : Prepared) (o : Operation)
    (r : Manager × Result (Option Operation))
    → (admit_replay c call p r).1 ≡ fresh o
    → IsPublished call p.hash (admit_replay c call p r).0 o
unfolding admit_replay
admit_replay-IsPublished c call p o (m, err e) h = cc
admit_replay-IsPublished c call p o (m, ok (some x)) h = cc
admit_replay-IsPublished c call p o (m, ok none) h =
    admit_budgeted-IsPublished c call p m o
      (over_budget c p.built.target (idempotency_scope call.actor) m.operations) h

-- An admission that reports a new operation has it queued in memory and, as the same record, on
-- disk, whatever write faults came before, under the caller's principal, key and request hash.
pub admit-IsPublished :
    (c : Setup) (call : Call) (p : Prepared) (m : Manager) (o : Operation)
    → (admit c call p m).1 ≡ fresh o
    → IsPublished call p.hash (admit c call p m).0 o
unfolding admit
admit-IsPublished c call p m o =
    let k : IdemKey = record { principal = idempotency_scope call.actor; key = call.key } in
    if_elim (λ r. r.1 ≡ fresh o → IsPublished call p.hash r.0 o) m.admission_closed
      (m, refused shutting_down) (admit_replay c call p (lookup_replay c k p.hash call.now m))
      (λ h. cc) (admit_replay-IsPublished c call p o (lookup_replay c k p.hash call.now m))

-- An admission that reports anything else has added no operation in memory: an error or a replay
-- leaves the operations as they were.
pub admit_refused_keeps :
    (c : Setup) (call : Call) (p : Prepared) (m : Manager)
    → ((o : Operation) → ¬ ((admit c call p m).1 ≡ fresh o))
    → (admit c call p m).0.operations ≡ m.operations
admit_refused_keeps c call p m n = elim (admit-Admission c call p m) [
  | unchanged e _ ↦ e
  | added id i b e f ↦ absurd (n _ f)
]
