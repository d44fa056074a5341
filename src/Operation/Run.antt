-- ===== src/Operation/Run.antt =====
-- Any interleaving of the critical sections of internal/operation/manager.go, retire's included, as a
-- list of actions. `retires` is the end of retire, after a sweep that returned some list of identifiers,
-- whichever it is. Calls that only read are no actions, and recover runs before all of these.
pub mod Effect
pub mod Budgets
pub mod History
pub mod Replay
use teploy_dash.Common.{ℕ, String, Bool, Option, none, some, List, [], ◌∷◌, ℤ}
use teploy_dash.Operation.Types.{
  Status, succeeded, failed, canceled, already_committed, EventType, Reconciliation, Receipt,
  Request, Actor, Result,
}
use teploy_dash.Operation.Manager.{Setup, Manager, append_event}
use teploy_dash.Operation.Admission.{Call, Prepared, begin_enqueue, admit}
use teploy_dash.Operation.Lifecycle.{
  set_running, finish_reconciled, begin_stopping, cancel, next_job, close_admission, force_cancel,
}
use teploy_dash.Operation.Recovery.{reconcile_one}
use teploy_dash.Operation.Retention.{begin_retire, forget_removed}

-- The terminal states that finish and finishReconciled are called with.
pub data Ending : Type 0 where
  success failure cancellation commitment : Ending

unfoldable pub ending : Ending → Status
ending success = succeeded
ending failure = failed
ending cancellation = canceled
ending commitment = already_committed

pub data Action : Type 0 where
  begins : Request → String → Option Actor → ℕ → Action
  admits : Call → Prepared → Action
  takes : String → Action
  starts : String → ℕ → Action
  emits : String → EventType → String → ℕ → Action
  cancels : String → ℕ → Action
  stops : String → ℕ → Action
  finishes : String → Ending → ℤ → String → Option Reconciliation → ℕ → Action
  reconciles : String → Bool → Result Receipt → ℕ → Action
  sweeps : (String → Bool) → ℕ → Action
  retires : List String → ℕ → Action
  closes shuts_down : Action

unfoldable pub step : Setup → Action → Manager → Manager
step c (begins req key actor now) m = (begin_enqueue c req key actor now m).0
step c (admits call p) m = (admit c call p m).0
step c (takes target) m = (next_job target m).0
step c (starts id now) m = (set_running c id now m).0
step c (emits id t text now) m = (append_event c id t text now m).1
step c (cancels id now) m = (cancel c id now m).0
step c (stops id now) m = (begin_stopping c id now m).0
step c (finishes id e exit text rec now) m =
    (finish_reconciled c id (ending e) exit text rec now m).0
step c (reconciles id stopped receipt now) m = reconcile_one c id stopped receipt now m
step c (sweeps deletes now) m = (begin_retire c deletes now m).0
step c (retires ids now) m = forget_removed c ids now m
step c closes m = close_admission m
step c shuts_down m = force_cancel m

unfoldable pub run : Setup → List Action → Manager → Manager
run c [] m = m
run c (a ∷ as') m = run c as' (step c a m)
