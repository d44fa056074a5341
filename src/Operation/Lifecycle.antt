-- ===== src/Operation/Lifecycle.antt =====
-- internal/operation/manager.go: what happens to an operation once it is admitted. A call that the
-- code makes on its own lock is a step of its own; between two steps any other may run.
pub mod Terminal
pub mod Keys
pub mod Cancellation
use teploy_dash.Common.{
  keys, ℕ, String, Bool, true, false, not, ◌&&◌, ◌||◌, Option, none, some, List, [], ◌∷◌, ◌++◌,
  if◌then◌else◌, eqb, ℤ, pos, negsuc, ◌==◌, string_eq, join, lookup, insert, remove, is_some,
}
use teploy_dash.Operation.Types.{
  Status, queued, running, cancel_requested, stopping, succeeded, failed, canceled,
  already_committed, interrupted, terminal, status, Operation, Reconciliation, Receipt, applied,
  not_applied, manual, Error, not_found, not_cancelable, read_only, cancel_was_requested, message,
  Result, ok, err,
}
use teploy_dash.Operation.Manager.{
  Setup, Manager, Job, TargetRunner, save_operation, save_noted, append_event, status_name,
  note_record_err, clear_record_err,
}

-- appendEventLocked where its error is only logged.
abbrev pub log_event : Setup → String → String → ℕ → Manager → Manager
log_event c id text now m = (append_event c id status text now m).1

abbrev pub is_queued : Status → Bool
is_queued queued = true
is_queued _ = false

abbrev pub is_cancel_requested : Status → Bool
is_cancel_requested cancel_requested = true
is_cancel_requested _ = false

abbrev pub is_stopping : Status → Bool
is_stopping stopping = true
is_stopping _ = false

-- `if exitCode >= 0 { op.ExitCode = &exitCode }`
set_exit : ℤ → Option ℕ → Option ℕ
set_exit (pos n) old = some n
set_exit (negsuc n) old = old

set_reconciliation : Option Reconciliation → Option Reconciliation → Option Reconciliation
set_reconciliation none old = old
set_reconciliation (some r) old = some r

unfoldable pub finished : Operation → Status → ℤ → String → Option Reconciliation → ℕ → Operation
unfolding set_exit set_reconciliation
finished op s exit text rec now = record op {
  status = s;
  finished_at = some now;
  error = text;
  reconciliation = set_reconciliation rec op.reconciliation;
  exit_code = set_exit exit op.exit_code;
}

-- The terminal state is decided in memory; its two writes are noted and change nothing of it.
pub conclude : Setup → String → Operation → ℕ → Manager → Manager × Option Operation
conclude c id op now m =
    let m' = record m { operations = insert id op m.operations; cancels = remove id m.cancels } in
    (log_event c id (status_name op.status) now (save_noted op now m').1, some op)

finish_found :
    Setup
    → String
    → Status
    → ℤ
    → String
    → Option Reconciliation
    → ℕ
    → Manager
    → Option Operation
    → Manager × Option Operation
unfolding conclude
finish_found c id s exit text rec now m none = (m, none)
finish_found c id s exit text rec now m (some op) =
    if terminal op.status then (m, none) else conclude c id (finished op s exit text rec now) now m

-- finishReconciled; the second part is the copy that OnFinish is called with. The sweep that a
-- full history starts afterwards is `retire`.
unfoldable pub finish_reconciled :
    Setup
    → String
    → Status
    → ℤ
    → String
    → Option Reconciliation
    → ℕ
    → Manager
    → Manager × Option Operation
unfolding finish_found
finish_reconciled c id s exit text rec now m =
    finish_found c id s exit text rec now m (lookup id m.operations)

abbrev pub finish : Setup → String → Status → ℤ → String → ℕ → Manager → Manager
finish c id s exit text now m = (finish_reconciled c id s exit text none now m).0

unfoldable pub cancel_reason : Manager → String
cancel_reason m =
    if m.shutting_down then "canceled: dashboard shutting down" else "operation canceled"

started : Setup → String → Operation → ℕ → Option String × Manager → Manager × Option Error
started c id op now (some e, m) = (m, some (message (join ("persist running state: " ∷ e ∷ []))))
started c id op now (none, m) = (log_event c id (status_name running) now m, none)

-- The record is changed in memory before it is written.
begin_running : Setup → String → Operation → ℕ → Manager → Manager × Option Error
unfolding started
begin_running c id op now m =
    let op' = record op { status = running; started_at = some now } in
    started c id op' now (save_noted op' now (record m { operations = insert id op' m.operations }))

run_found : Setup → String → ℕ → Manager → Option Operation → Manager × Option Error
unfolding begin_running
run_found c id now m none = (m, none)
run_found c id now m (some op) =
    if is_cancel_requested op.status
    then (m, some cancel_was_requested)
    else if not (is_queued op.status)
    then (m, none)
    else begin_running c id op now m

-- setRunning
unfoldable pub set_running : Setup → String → ℕ → Manager → Manager × Option Error
unfolding run_found
set_running c id now m = run_found c id now m (lookup id m.operations)

stop_found : Setup → String → ℕ → Manager → Option Operation → Manager × Bool
stop_found c id now m none = (m, false)
stop_found c id now m (some op) =
    if terminal op.status || is_stopping op.status
    then (m, false)
    else (let op' = record op { status = stopping } in
        let m' = (save_noted op' now m).1 in
        (
          log_event c id (status_name stopping) now
              (record m' { operations = insert id op' m'.operations }),
          true,
        ))

-- beginStopping
unfoldable pub begin_stopping : Setup → String → ℕ → Manager → Manager × Bool
unfolding stop_found
begin_stopping c id now m = stop_found c id now m (lookup id m.operations)

-- The verdict of resolveCancellation on the receipt that was read.
pub record Verdict : Type 0 where
  pub status : Status
  pub text : String
  pub reconciliation : Reconciliation

unfoldable pub error_text : Error → String
error_text (message s) = s
error_text _ = ""

unfoldable pub verdict : String → Result Receipt → ℕ → Verdict
unfolding error_text
verdict reason (err e) now = record {
  status = canceled;
  text = join (reason ∷ "; outcome could not be verified: " ∷ error_text e ∷ []);
  reconciliation = record {
    state = manual;
    reason = error_text e;
    evidence = "";
    checked_at = now;
  };
}
verdict reason (ok r) now =
    if r.applied
    then record {
      status = already_committed;
      text = join (
          reason ∷ " after the effect committed — the effect stood; no rollback was performed"
          ∷ []);
      reconciliation = record {
        state = applied;
        reason = "";
        evidence = r.evidence;
        checked_at = now;
      };
    }
    else record {
      status = canceled;
      text = join (reason ∷ "; receipt confirmed the effect did not land" ∷ []);
      reconciliation = record {
        state = not_applied;
        reason = "";
        evidence = r.evidence;
        checked_at = now;
      };
    }

-- The receipt is not read while shutting down; `receipt` is what readReceipt answers otherwise.
unfoldable pub receipt_read : Bool → Result Receipt → Result Receipt
receipt_read true receipt = err (message "receipt check skipped: dashboard shutting down")
receipt_read false receipt = receipt

resolve_stopped : Setup → String → ℤ → Result Receipt → ℕ → Manager × Bool → Manager
resolve_stopped c id exit receipt now (m, false) = m
resolve_stopped c id exit receipt now (m, true) =
    let v = verdict (cancel_reason m) (receipt_read m.shutting_down receipt) now in
    (finish_reconciled c id v.status exit v.text (some v.reconciliation) now m).0

-- resolveCancellation, with no other call while the receipt is read
unfoldable pub resolve_cancellation : Setup → String → ℤ → Result Receipt → ℕ → Manager → Manager
unfolding resolve_stopped
resolve_cancellation c id exit receipt now m =
    resolve_stopped c id exit receipt now (begin_stopping c id now m)

cancel_saved : Setup → String → Operation → ℕ → Option String × Manager → Manager × Result Operation
cancel_saved c id op now (some e, m) =
    (m, err (message (join ("persist cancellation intent: " ∷ e ∷ []))))
cancel_saved c id op now (none, m) =
    let m' =
      log_event c id (status_name cancel_requested) now
        (record m { operations = insert id op m.operations }) in
    (
      record m' {
        canceled_contexts =
            if is_some (lookup id m'.cancels)
            then id ∷ m'.canceled_contexts
            else m'.canceled_contexts;
      },
      ok op,
    )

cancel_found : Setup → String → ℕ → Manager → Option Operation → Manager × Result Operation
unfolding cancel_saved
cancel_found c id now m none = (m, err not_found)
cancel_found c id now m (some op) =
    if terminal op.status || is_stopping op.status
    then (m, err not_cancelable)
    else (let op' = record op { status = cancel_requested } in
        cancel_saved c id op' now (save_noted op' now m))

-- Cancel
unfoldable pub cancel : Setup → String → ℕ → Manager → Manager × Result Operation
unfolding cancel_found
cancel c id now m =
    if not (m.read_only_reason == "")
    then (m, err read_only)
    else cancel_found c id now m (lookup id m.operations)

-- The two critical sections of Shutdown: admission is closed, and after the drain deadline the
-- contexts of all operations are canceled.
unfoldable pub close_admission : Manager → Manager
close_admission m = record m { admission_closed = true }

unfoldable pub force_cancel : Manager → Manager
force_cancel m = record m {
  shutting_down = true;
  canceled_contexts = keys m.cancels ++ m.canceled_contexts;
}

-- runTarget's turn: the next job of the target, or the end of its worker.
take_job : String → Manager → Option TargetRunner → Manager × Option Job
take_job target m none = (record m { targets = remove target m.targets }, none)
take_job target m (some r) = elim r.queue [
  | [] ↦ (record m { targets = remove target m.targets }, none)
  | j ∷ rest ↦ (record m { targets = insert target (record r { queue = rest }) m.targets }, some j)
]

unfoldable pub next_job : String → Manager → Manager × Option Job
unfolding take_job
next_job target m = take_job target m (lookup target m.targets)

abbrev is_zero : ℤ → Bool
is_zero (pos n) = eqb n 0
is_zero (negsuc n) = false

-- The end of execute: `receipt` is read only where the context was canceled; `failure` is the text of
-- the executor's error, redacted.
unfoldable pub complete :
    Setup → String → Bool → ℤ → Option String → Result Receipt → ℕ → Manager → Manager
complete c id context_done exit failure receipt now m =
    if context_done then resolve_cancellation c id exit receipt now m else elim failure [
      | some text ↦ finish c id failed exit text now m
      | none ↦
          if is_zero exit
          then finish c id succeeded exit "" now m
          else finish c id failed exit "operation failed" now m
    ]
