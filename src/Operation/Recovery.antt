-- ===== src/Operation/Recovery.antt =====
-- internal/operation/manager.go: what a restart does with the records it finds, how an unknown
-- outcome is settled by a receipt, and when an operation may be tried again.
pub mod NoReplay
pub mod Settle
pub mod Keys
use teploy_dash.Common.{
  ℕ, ◌+◌, String, Bool, true, false, not, ◌&&◌, ◌||◌, Option, none, some, List, [], ◌∷◌, ◌++◌,
  if◌then◌else◌, ◌==◌, string_eq, lookup, insert,
}
use teploy_dash.Operation.Types.{
  Status, queued, running, cancel_requested, stopping, succeeded, failed, canceled,
  already_committed, interrupted, terminal, supported_kind, Actor, Operation, Request,
  ReconcileState, Reconciliation, Receipt, reconciling, applied, not_applied, manual, Error,
  not_found, not_retryable, reconciliation_pending, read_only, message, Result, ok, err,
}
use teploy_dash.Operation.Manager.{Setup, Manager, save_noted, status_name}
use teploy_dash.Operation.Lifecycle.{log_event, error_text}
use teploy_dash.Operation.Admission.{Call, Admitted, refused, enqueue}

abbrev is_reconciling : ReconcileState → Bool
is_reconciling reconciling = true
is_reconciling _ = false

-- `op.Reconciliation != nil && op.Reconciliation.State == ReconcileStateReconciling`
unfoldable pub awaits_receipt : Option Reconciliation → Bool
awaits_receipt none = false
awaits_receipt (some r) = is_reconciling r.state

abbrev is_interrupted : Status → Bool
is_interrupted interrupted = true
is_interrupted _ = false

unfoldable pub interrupted_op : Bool → ℕ → Operation → Operation
interrupted_op has_reader now op = record op {
  status = interrupted;
  error = "interrupted — outcome unknown: dashboard restarted before the operation completed";
  finished_at = some now;
  reconciliation = some (
      if has_reader
      then record { state = reconciling; reason = ""; evidence = ""; checked_at = 0 }
      else record {
        state = manual;
        reason = "no receipt reader configured; verify the server state manually";
        evidence = "";
        checked_at = 0;
      });
}

unfoldable pub canceled_op : ℕ → Operation → Operation
canceled_op now op = record op {
  status = canceled;
  error = "canceled before the dashboard restarted";
  finished_at = some now;
}

-- The record is changed in memory, then written; a failed write ends the recovery.
rewritten :
    Setup
    → String
    → Operation
    → ℕ
    → List String
    → Option String × Manager
    → Manager × Result (List String)
rewritten c id op now pending (some e, m) = (m, err (message e))
rewritten c id op now pending (none, m) = (log_event c id (status_name op.status) now m, ok pending)

rewrite : Setup → String → Operation → ℕ → List String → Manager → Manager × Result (List String)
unfolding rewritten
rewrite c id op now pending m =
    rewritten c id op now pending
      (save_noted op now (record m { operations = insert id op m.operations }))

recover_one :
    Setup → Bool → ℕ → String → Operation → Status → Manager → Manager × Result (List String)
unfolding rewrite
recover_one c reader now id op queued m =
    rewrite c id (interrupted_op reader now op) now (if reader then id ∷ [] else []) m
recover_one c reader now id op running m =
    rewrite c id (interrupted_op reader now op) now (if reader then id ∷ [] else []) m
recover_one c reader now id op stopping m =
    rewrite c id (interrupted_op reader now op) now (if reader then id ∷ [] else []) m
recover_one c reader now id op cancel_requested m = rewrite c id (canceled_op now op) now [] m
recover_one c reader now id op interrupted m =
    (m, ok (if reader && awaits_receipt op.reconciliation then id ∷ [] else []))
recover_one c reader now id op _ m = (m, ok [])

with_pending : List String → Manager × Result (List String) → Manager × Result (List String)
with_pending pending (m, err e) = (m, err e)
with_pending pending (m, ok more) = (m, ok (pending ++ more))

recover_rest :
    (Manager → Manager × Result (List String))
    → Manager × Result (List String)
    → Manager × Result (List String)
unfolding with_pending
recover_rest rest (m, err e) = (m, err e)
recover_rest rest (m, ok pending) = with_pending pending (rest m)

recover_all :
    Setup → Bool → ℕ → List (String × Operation) → Manager → Manager × Result (List String)
unfolding recover_one recover_rest
recover_all c reader now [] m = (m, ok [])
recover_all c reader now ((id, op) ∷ rest) m =
    recover_rest (recover_all c reader now rest) (recover_one c reader now id op op.status m)

-- recover; the result lists the operations whose receipts are still to be read.
unfoldable pub recover : Setup → Bool → ℕ → Manager → Manager × Result (List String)
unfolding recover_all
recover c reader now m = recover_all c reader now m.operations m

still_reconciling : Option Operation → Option Operation
still_reconciling none = none
still_reconciling (some op) =
    if is_interrupted op.status && awaits_receipt op.reconciliation then some op else none

-- The first part of reconcileOne: the operation whose receipt is read next.
unfoldable pub wants_receipt : String → Manager → Option Operation
unfolding still_reconciling
wants_receipt id m = still_reconciling (lookup id m.operations)

unfoldable pub answer : Result Receipt → ℕ → Reconciliation
answer (err e) now = record {
  state = manual;
  reason = error_text e;
  evidence = "";
  checked_at = now;
}
answer (ok r) now = record {
  state = if r.applied then applied else not_applied;
  reason = "";
  evidence = r.evidence;
  checked_at = now;
}

unfoldable pub reconcile_name : ReconcileState → String
reconcile_name reconciling = "reconciling"
reconcile_name applied = "reconciled-applied"
reconcile_name not_applied = "reconciled-not-applied"
reconcile_name manual = "needs-manual-check"

answered : Setup → String → Operation → ReconcileState → ℕ → Option String × Manager → Manager
answered c id op s now (some e, m) = m
answered c id op s now (none, m) =
    log_event c id (reconcile_name s) now (record m { operations = insert id op m.operations })

apply_answer : Setup → String → Reconciliation → ℕ → Manager → Option Operation → Manager
unfolding answered
apply_answer c id r now m none = m
apply_answer c id r now m (some op) =
    let op' = record op { reconciliation = some r } in
    answered c id op' r.state now (save_noted op' now m)

-- The second part of reconcileOne, after the receipt was read; `stopped` is a canceled context.
unfoldable pub reconcile_one : Setup → String → Bool → Result Receipt → ℕ → Manager → Manager
unfolding apply_answer
reconcile_one c id stopped receipt now m =
    if stopped then m else apply_answer c id (answer receipt now) now m (wants_receipt id m)

abbrev is_settled : Status → Bool
is_settled succeeded = true
is_settled already_committed = true
is_settled _ = false

may_retry : Option Operation → Result (Request × ℕ)
may_retry none = err not_found
may_retry (some op) =
    if not (terminal op.status)
      || is_settled op.status
      || op.has_secrets
      || not (supported_kind op.request.kind)
    then err not_retryable
    else if is_interrupted op.status && awaits_receipt op.reconciliation
    then err reconciliation_pending
    else ok (op.request, op.attempt + 1)

-- The checks of Retry; the request and the attempt that it enqueues.
unfoldable pub retry_request : String → Manager → Result (Request × ℕ)
unfolding may_retry
retry_request id m =
    if not (m.read_only_reason == "") then err read_only else may_retry (lookup id m.operations)

retry_with : Setup → String → Call → ℕ → Manager → Result (Request × ℕ) → Manager × Admitted
retry_with c id call now m (err e) = (m, refused e)
retry_with c id call now m (ok (req, attempt)) =
    enqueue c (record call { key = ""; retry_of = id; attempt = attempt }) req now m

-- Retry
unfoldable pub retry : Setup → String → Call → ℕ → Manager → Manager × Admitted
unfolding retry_with
retry c id call now m = retry_with c id call now m (retry_request id m)
