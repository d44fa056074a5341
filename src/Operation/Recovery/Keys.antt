-- ===== src/Operation/Recovery/Keys.antt =====
-- Settling an outcome by a receipt leaves the index of idempotency keys alone.
use teploy_dash.Common.{ℕ, String, Bool, Option, none, some, ◌≡◌, refl, ◌∙◌, string_eq, if_elim}
use teploy_dash.Operation.Types.{Operation, Result, idem_key_eq, Reconciliation, Receipt}
use teploy_dash.Operation.Manager.{Setup, Manager}
use teploy_dash.Operation.Manager.Frame.{append_event-SameCore, save_noted-SameMemory}
use teploy_dash.Operation.Recovery.{wants_receipt, apply_answer, answered, reconcile_one, answer}
use teploy_dash.Operation.Lifecycle.{log_event}

abbrev Kept : Manager → Manager → Type 0
Kept m m' = m'.idempotency ≡ m.idempotency

idempotency-log_event :
    (c : Setup) (id text : String) (now : ℕ) (m : Manager) → Kept m (log_event c id text now m)
idempotency-log_event c id text now m = (append_event-SameCore c id _ text now m).idempotency

idempotency-answered :
    (c : Setup) (id : String) (op : Operation) (now : ℕ) (r : Option String × Manager)
    (rec : Reconciliation)
    → Kept r.1 (answered c id op rec.state now r)
unfolding answered
idempotency-answered c id op now (some e, m) rec = refl
idempotency-answered c id op now (none, m) rec = idempotency-log_event c id _ now _

idempotency-apply_answer :
    (c : Setup) (id : String) (r : Reconciliation) (now : ℕ) (m : Manager) (w : Option Operation)
    → Kept m (apply_answer c id r now m w)
unfolding apply_answer
idempotency-apply_answer c id r now m none = refl
idempotency-apply_answer c id r now m (some op) =
    idempotency-answered c id _ now _ r ∙ (save_noted-SameMemory _ now m).idempotency

pub idempotency-reconcile_one :
    (c : Setup) (id : String) (stopped : Bool) (receipt : Result Receipt) (now : ℕ) (m : Manager)
    → Kept m (reconcile_one c id stopped receipt now m)
unfolding reconcile_one
idempotency-reconcile_one c id stopped receipt now m =
    if_elim (Kept m) stopped m (apply_answer c id (answer receipt now) now m (wants_receipt id m))
      refl (idempotency-apply_answer c id (answer receipt now) now m (wants_receipt id m))
