-- ===== src/Operation/Admission/Budget.antt =====
-- The admission budgets of internal/operation/manager.go's enqueue.
use teploy_dash.Common.{
  ℕ, String, Option, none, some, ◌≡◌, refl, ◌∙◌, arith, string_eq, insert, if_elim, inl, inr, ◌⊎◌,
}
use teploy_dash.Operation.Types.{
  Operation, Error, Result, ok, err, IdemKey, idempotency_scope, next_u64, Command, shutting_down,
  Request, Actor,
}
use teploy_dash.Operation.Manager.{Setup, Manager, Store, save_operation, append_event_line}
use teploy_dash.Operation.Admission.{
  Call, Prepared, Admitted, refused, fresh, new_operation, lookup_replay, over_budget, admit,
  admit_replay, admit_budgeted, commit, journaled, saved, initial_event, admit_to_target, done,
  begin_replay, begin_hashed, begin_enqueue, with_mode,
}

-- A replay check leaves the operations and the counter alone.
pub lookup_replay-keeps :
    (c : Setup) (k : IdemKey) (hash : String) (now : ℕ) (m : Manager)
    → ((lookup_replay c k hash now m).0.operations ≡ m.operations)
      × ((lookup_replay c k hash now m).0.admission_seq ≡ m.admission_seq)
unfolding lookup_replay
lookup_replay-keeps c k hash now m = ground arith

-- What an admission does: nothing to the operations, or it adds the new one within the budgets.
pub data Admission (c : Setup) (call : Call) (p : Prepared) (m : Manager) (r : Manager × Admitted)
    : Type 0 where
  unchanged :
      r.0.operations ≡ m.operations → ((o : Operation) → ¬ (r.1 ≡ fresh o)) → Admission c call p m r
  added :
      (id : String)
      → call.new_id ≡ ok id
      → over_budget c p.built.target (idempotency_scope call.actor) m.operations ≡ none
      → r.0.operations ≡ insert id (new_operation call p id (next_u64 m.admission_seq)) m.operations
      → r.1 ≡ fresh (new_operation call p id (next_u64 m.admission_seq))
      → Admission c call p m r

saved-Admission :
    (call : Call) (op : Operation) (command : Command) (m : Manager) (r : Option String × Store)
    → (((saved call op command m r).0.operations ≡ m.operations)
        × ((o : Operation) → ¬ ((saved call op command m r).1 ≡ fresh o)))
      ⊎ (((saved call op command m r).0.operations ≡ insert op.id op m.operations)
          × ((saved call op command m r).1 ≡ fresh op))
unfolding saved admit_to_target
saved-Admission call op command m (none, s) = inr (refl, refl)
saved-Admission call op command m (some e, s) = inl (refl, λ o x. cc)

journaled-Admission :
    (call : Call) (op : Operation) (command : Command) (m : Manager) (r : Option String × Store)
    → (((journaled call op command m r).0.operations ≡ m.operations)
        × ((o : Operation) → ¬ ((journaled call op command m r).1 ≡ fresh o)))
      ⊎ (((journaled call op command m r).0.operations ≡ insert op.id op m.operations)
          × ((journaled call op command m r).1 ≡ fresh op))
unfolding journaled
journaled-Admission call op command m (some e, s) = inl (refl, λ o x. cc)
journaled-Admission call op command m (none, s) =
    saved-Admission call op command m (save_operation op s)

commit-Admission :
    (c : Setup) (call : Call) (p : Prepared) (m : Manager) (r : Result String)
    → call.new_id ≡ r
    → over_budget c p.built.target (idempotency_scope call.actor) m.operations ≡ none
    → Admission c call p m (commit c call p m r)
unfolding commit
commit-Admission c call p m (err e) i b = unchanged refl (λ o x. cc)
commit-Admission c call p m (ok id) i b =
    let seq = next_u64 m.admission_seq in
    let m' : Manager = record m { admission_seq = seq } in
    let op = new_operation call p id seq in
    elim (journaled-Admission call op p.built.command m'
      (append_event_line c id (initial_event call id) m'.store)) [
        | inl u ↦ unchanged u.0 u.1
        | inr a ↦ added id i b (unfold new_operation in a.0) a.1
      ]

admit_budgeted-Admission :
    (c : Setup) (call : Call) (p : Prepared) (m : Manager) (o : Option Error)
    → over_budget c p.built.target (idempotency_scope call.actor) m.operations ≡ o
    → Admission c call p m (admit_budgeted c call p m o)
unfolding admit_budgeted
admit_budgeted-Admission c call p m (some e) b = unchanged refl (λ o x. cc)
admit_budgeted-Admission c call p m none b = commit-Admission c call p m call.new_id refl b

-- Only the operations and the counter of the state matter to what an admission says.
Admission-transfer :
    {c : Setup} {call : Call} {p : Prepared} {m m' : Manager} {r : Manager × Admitted}
    → m'.operations ≡ m.operations
    → m'.admission_seq ≡ m.admission_seq
    → Admission c call p m' r
    → Admission c call p m r
Admission-transfer e s (unchanged u n) = unchanged (u ∙ e) n
Admission-transfer e s (added id i b u f) = added id i (rw (← e) b) (rw (← e, ← s) u) (rw (← s) f)

admit_replay-Admission :
    (c : Setup) (call : Call) (p : Prepared) (m : Manager) (r : Manager × Result (Option Operation))
    → r.0.operations ≡ m.operations
    → r.0.admission_seq ≡ m.admission_seq
    → Admission c call p m (admit_replay c call p r)
unfolding admit_replay
admit_replay-Admission c call p m (m', err e) o s = unchanged o (λ o x. cc)
admit_replay-Admission c call p m (m', ok (some op)) o s = unchanged o (λ o x. cc)
admit_replay-Admission c call p m (m', ok none) o s =
    Admission-transfer o s (admit_budgeted-Admission c call p m' _ refl)

pub admit-Admission :
    (c : Setup) (call : Call) (p : Prepared) (m : Manager) → Admission c call p m (admit c call p m)
unfolding admit
admit-Admission c call p m =
    let k : IdemKey = record { principal = idempotency_scope call.actor; key = call.key } in
    let kept = lookup_replay-keeps c k p.hash call.now m in
    if_elim (Admission c call p m) m.admission_closed (m, refused shutting_down)
      (admit_replay c call p (lookup_replay c k p.hash call.now m)) (unchanged refl (λ o x. cc))
      (admit_replay-Admission c call p m (lookup_replay c k p.hash call.now m) kept.0 kept.1)

begin_replay-keeps :
    (c : Setup) (req : Request) (hash : String) (m : Manager)
    (r : Manager × Result (Option Operation))
    → r.0.operations ≡ m.operations
    → (begin_replay c req hash r).0.operations ≡ m.operations
unfolding begin_replay
begin_replay-keeps c req hash m (m', err e) h = h
begin_replay-keeps c req hash m (m', ok none) h = h
begin_replay-keeps c req hash m (m', ok (some op)) h = h

begin_hashed-keeps :
    (c : Setup) (req : Request) (k : IdemKey) (now : ℕ) (m : Manager) (r : Result String)
    → (begin_hashed c req k now m r).0.operations ≡ m.operations
unfolding begin_hashed
begin_hashed-keeps c req k now m (err e) = refl
begin_hashed-keeps c req k now m (ok hash) =
    if_elim (λ r. r.0.operations ≡ m.operations) m.admission_closed
      (m, done (refused shutting_down)) (begin_replay c req hash (lookup_replay c k hash now m))
      refl
      (begin_replay-keeps c req hash m (lookup_replay c k hash now m)
        (lookup_replay-keeps c k hash now m).0)

-- The first part of an Enqueue leaves the operations alone.
pub operations-begin_enqueue :
    (c : Setup) (req : Request) (key : String) (actor : Option Actor) (now : ℕ) (m : Manager)
    → (begin_enqueue c req key actor now m).0.operations ≡ m.operations
unfolding begin_enqueue
operations-begin_enqueue c req key actor now m = ground (
  arith,
  begin_hashed-keeps c (with_mode req) (record { principal = idempotency_scope actor; key = key })
      now m (c.hash (with_mode req)),
)
