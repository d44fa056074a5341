-- ===== src/Operation/Recovery/Settle.antt =====
-- What settling an unknown outcome by a receipt does to the operations in memory.
use teploy_dash.Common.{
  ℕ, String, Bool, Option, none, some, List, ◌≡◌, refl, ◌∙◌, ap, arith, string_eq, lookup, insert,
  if_elim,
}
use teploy_dash.Operation.Types.{Operation, Reconciliation, Receipt, Result}
use teploy_dash.Operation.Manager.{Setup, Manager, save_noted}
use teploy_dash.Operation.Manager.Frame.{append_event-SameCore, save_noted-SameMemory}
use teploy_dash.Operation.Recovery.{wants_receipt, apply_answer, answered, reconcile_one, answer}

-- Nothing happens, or an interrupted operation's reconciliation is replaced.
pub data Settles (before after : List (String × Operation)) : Type 0 where
  untouched : after ≡ before → Settles before after
  settled :
      (id : String) (o : Operation) (r : Reconciliation)
      → lookup id before ≡ some o
      → after ≡ insert id (record o { reconciliation = some r }) before
      → Settles before after

wants_receipt_inv :
    (id : String) (m : Manager) (o : Operation)
    → wants_receipt id m ≡ some o
    → lookup id m.operations ≡ some o
unfolding wants_receipt
wants_receipt_inv id m o h = ground arith

answered-Settles :
    (c : Setup) (id : String) (o : Operation) (rec : Reconciliation) (now : ℕ) (m : Manager)
    (r : Option String × Manager)
    → lookup id m.operations ≡ some o
    → r.1.operations ≡ m.operations
    → Settles m.operations
        (answered c id (record o { reconciliation = some rec }) rec.state now r).operations
unfolding answered
answered-Settles c id o rec now m (some e, m') l k = untouched k
answered-Settles c id o rec now m (none, m') l k =
    settled id o rec l ((append_event-SameCore c id _ _ now _).operations ∙ ap (insert id _) k)

apply_answer-Settles :
    (c : Setup) (id : String) (r : Reconciliation) (now : ℕ) (m : Manager) (w : Option Operation)
    → wants_receipt id m ≡ w
    → Settles m.operations (apply_answer c id r now m w).operations
unfolding apply_answer
apply_answer-Settles c id r now m none h = untouched refl
apply_answer-Settles c id r now m (some o) h =
    let o' = record o { reconciliation = some r } in
    answered-Settles c id o r now m (save_noted o' now m) (wants_receipt_inv id m o h)
      (save_noted-SameMemory o' now m).operations

pub reconcile_one-Settles :
    (c : Setup) (id : String) (stopped : Bool) (receipt : Result Receipt) (now : ℕ) (m : Manager)
    → Settles m.operations (reconcile_one c id stopped receipt now m).operations
unfolding reconcile_one
reconcile_one-Settles c id stopped receipt now m =
    if_elim (λ m'. Settles m.operations m'.operations) stopped m
      (apply_answer c id (answer receipt now) now m (wants_receipt id m)) (untouched refl)
      (apply_answer-Settles c id (answer receipt now) now m (wants_receipt id m) refl)
