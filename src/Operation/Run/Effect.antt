-- ===== src/Operation/Run/Effect.antt =====
-- What one action does to the operations in memory.
use teploy_dash.Common.{
  ℕ, String, true, none, some, List, ◌≡◌, refl, arith, string_eq, lookup, insert,
}
use teploy_dash.Operation.Types.{
  terminal, Operation, Reconciliation, ok, next_u64, idempotency_scope,
}
use teploy_dash.Operation.Manager.{Setup, Manager}
use teploy_dash.Operation.Manager.Frame.{append_event-SameCore}
use teploy_dash.Operation.Admission.{Call, Prepared, new_operation, over_budget}
use teploy_dash.Operation.Admission.Budget.{
  unchanged, added, admit-Admission, operations-begin_enqueue,
}
use teploy_dash.Operation.Lifecycle.{next_job, close_admission, force_cancel}
use teploy_dash.Operation.Lifecycle.Terminal.{
  Change, same, finish_reconciled-Change, set_running-Change, begin_stopping-Change, cancel-Change,
}
use teploy_dash.Operation.Recovery.Settle.{untouched, settled, reconcile_one-Settles}
use teploy_dash.Operation.Retention.{forget_ids}
use teploy_dash.Operation.Retention.Forgotten.{operations-begin_retire, operations-forget_removed}
use teploy_dash.Operation.Run.{
  Action, begins, admits, takes, starts, emits, cancels, stops, finishes, reconciles, sweeps,
  retires, closes, shuts_down, step, Ending, ending, success, failure, cancellation, commitment,
}

-- An operation moves, the receipt of an interrupted one is settled, a new one is admitted within the
-- budgets, or those that a sweep removed are forgotten.
pub data Effect (c : Setup) (a : Action) (m : Manager) (after : List (String × Operation))
    : Type 0 where
  changes : Change m.operations after → Effect c a m after
  settles :
      (id : String) (o : Operation) (r : Reconciliation)
      → lookup id m.operations ≡ some o
      → after ≡ insert id (record o { reconciliation = some r }) m.operations
      → Effect c a m after
  adds :
      (call : Call) (p : Prepared) (id : String)
      → a ≡ admits call p
      → call.new_id ≡ ok id
      → over_budget c p.built.target (idempotency_scope call.actor) m.operations ≡ none
      → after ≡ insert id (new_operation call p id (next_u64 m.admission_seq)) m.operations
      → Effect c a m after
  forgets :
      (ids : List String) (now : ℕ)
      → a ≡ retires ids now
      → after ≡ (forget_ids ids m).operations
      → Effect c a m after

operations-next_job :
    (target : String) (m : Manager) → (next_job target m).0.operations ≡ m.operations
unfolding next_job
operations-next_job target m = ground arith

ending-terminal : (e : Ending) → terminal (ending e) ≡ true
unfolding ending terminal
ending-terminal success = refl
ending-terminal failure = refl
ending-terminal cancellation = refl
ending-terminal commitment = refl

pub step-Effect : (c : Setup) (a : Action) (m : Manager) → Effect c a m (step c a m).operations
unfolding step close_admission force_cancel
step-Effect c (begins req key actor now) m =
    changes (same (operations-begin_enqueue c req key actor now m))
step-Effect c (admits call p) m = elim (admit-Admission c call p m) [
  | unchanged e n ↦ changes (same e)
  | added id i b e f ↦ adds call p id refl i b e
]
step-Effect c (takes target) m = changes (same (operations-next_job target m))
step-Effect c (starts id now) m = changes (set_running-Change c id now m)
step-Effect c (emits id t text now) m =
    changes (same (append_event-SameCore c id t text now m).operations)
step-Effect c (cancels id now) m = changes (cancel-Change c id now m)
step-Effect c (stops id now) m = changes (begin_stopping-Change c id now m)
step-Effect c (finishes id e exit text rec now) m =
    changes (finish_reconciled-Change c id (ending e) exit text rec now m (ending-terminal e))
step-Effect c (reconciles id stopped receipt now) m =
    elim (reconcile_one-Settles c id stopped receipt now m) [
      | untouched e ↦ changes (same e)
      | settled id' o r l e ↦ settles id' o r l e
    ]
step-Effect c (sweeps deletes now) m = changes (same (operations-begin_retire c deletes now m))
step-Effect c (retires ids now) m = forgets ids now refl (operations-forget_removed c ids now m)
step-Effect c closes m = changes (same refl)
step-Effect c shuts_down m = changes (same refl)
