-- ===== src/Operation/Lifecycle/Keys.antt =====
-- The calls of an operation's life leave the index of idempotency keys alone.
use teploy_dash.Common.{
  ℕ, ℤ, String, Option, none, some, ◌≡◌, refl, ◌∙◌, arith, string_eq, lookup, insert, if_elim,
}
use teploy_dash.Operation.Types.{
  Operation, Status, running, stopping, cancel_requested, idem_key_eq, Reconciliation,
}
use teploy_dash.Operation.Manager.{Setup, Manager, save_noted, status_name}
use teploy_dash.Operation.Manager.Frame.{append_event-SameCore, save_noted-SameMemory}
use teploy_dash.Operation.Lifecycle.{
  finished, conclude, finish_found, finish_reconciled, started, begin_running, run_found,
  set_running, stop_found, begin_stopping, cancel_saved, cancel_found, cancel, log_event, next_job,
}

abbrev Kept : Manager → Manager → Type 0
Kept m m' = m'.idempotency ≡ m.idempotency

idempotency-log_event :
    (c : Setup) (id text : String) (now : ℕ) (m : Manager) → Kept m (log_event c id text now m)
idempotency-log_event c id text now m = (append_event-SameCore c id _ text now m).idempotency

idempotency-conclude :
    (c : Setup) (id : String) (op : Operation) (now : ℕ) (m : Manager)
    → Kept m (conclude c id op now m).0
unfolding conclude
idempotency-conclude c id op now m =
    idempotency-log_event c id _ now _ ∙ (save_noted-SameMemory op now _).idempotency

idempotency-finish_found :
    (c : Setup) (id : String) (s : Status) (exit : ℤ) (text : String) (rec : Option Reconciliation)
    (now : ℕ) (m : Manager) (x : Option Operation)
    → Kept m (finish_found c id s exit text rec now m x).0
unfolding finish_found
idempotency-finish_found c id s exit text rec now m none = refl
idempotency-finish_found c id s exit text rec now m (some op) =
    if_elim (λ (r : Manager × Option Operation). Kept m r.0) _ (m, none)
      (conclude c id (finished op s exit text rec now) now m) refl
      (idempotency-conclude c id (finished op s exit text rec now) now m)

pub idempotency-finish_reconciled :
    (c : Setup) (id : String) (s : Status) (exit : ℤ) (text : String) (rec : Option Reconciliation)
    (now : ℕ) (m : Manager)
    → Kept m (finish_reconciled c id s exit text rec now m).0
unfolding finish_reconciled
idempotency-finish_reconciled c id s exit text rec now m =
    idempotency-finish_found c id s exit text rec now m (lookup id m.operations)

idempotency-started :
    (c : Setup) (id : String) (op : Operation) (now : ℕ) (r : Option String × Manager)
    → Kept r.1 (started c id op now r).0
unfolding started
idempotency-started c id op now (some e, m) = refl
idempotency-started c id op now (none, m) = idempotency-log_event c id _ now m

idempotency-begin_running :
    (c : Setup) (id : String) (op : Operation) (now : ℕ) (m : Manager)
    → Kept m (begin_running c id op now m).0
unfolding begin_running
idempotency-begin_running c id op now m =
    idempotency-started c id (record op { status = running; started_at = some now }) now _
    ∙ (save_noted-SameMemory (record op { status = running; started_at = some now }) now
        _).idempotency

idempotency-run_found :
    (c : Setup) (id : String) (now : ℕ) (m : Manager) (x : Option Operation)
    → Kept m (run_found c id now m x).0
unfolding run_found
idempotency-run_found c id now m none = refl
idempotency-run_found c id now m (some op) = ground (arith, idempotency-begin_running c id op now m)

pub idempotency-set_running :
    (c : Setup) (id : String) (now : ℕ) (m : Manager) → Kept m (set_running c id now m).0
unfolding set_running
idempotency-set_running c id now m = idempotency-run_found c id now m (lookup id m.operations)

idempotency-stop_found :
    (c : Setup) (id : String) (now : ℕ) (m : Manager) (x : Option Operation)
    → Kept m (stop_found c id now m x).0
unfolding stop_found
idempotency-stop_found c id now m none = refl
idempotency-stop_found c id now m (some op) =
    let op' = record op { status = stopping } in
    let m' = (save_noted op' now m).1 in
    ground (
      arith,
      idempotency-log_event c id (status_name stopping) now
          (record m' { operations = insert id op' m'.operations }),
      (save_noted-SameMemory op' now m).idempotency,
    )

pub idempotency-begin_stopping :
    (c : Setup) (id : String) (now : ℕ) (m : Manager) → Kept m (begin_stopping c id now m).0
unfolding begin_stopping
idempotency-begin_stopping c id now m = idempotency-stop_found c id now m (lookup id m.operations)

idempotency-cancel_saved :
    (c : Setup) (id : String) (op : Operation) (now : ℕ) (r : Option String × Manager)
    → Kept r.1 (cancel_saved c id op now r).0
unfolding cancel_saved
idempotency-cancel_saved c id op now (some e, m) = refl
idempotency-cancel_saved c id op now (none, m) = idempotency-log_event c id _ now _

idempotency-cancel_found :
    (c : Setup) (id : String) (now : ℕ) (m : Manager) (x : Option Operation)
    → Kept m (cancel_found c id now m x).0
unfolding cancel_found
idempotency-cancel_found c id now m none = refl
idempotency-cancel_found c id now m (some op) =
    let op' = record op { status = cancel_requested } in
    ground (
      arith,
      idempotency-cancel_saved c id op' now (save_noted op' now m),
      (save_noted-SameMemory op' now m).idempotency,
    )

pub idempotency-cancel :
    (c : Setup) (id : String) (now : ℕ) (m : Manager) → Kept m (cancel c id now m).0
unfolding cancel
idempotency-cancel c id now m =
    ground (arith, idempotency-cancel_found c id now m (lookup id m.operations))

pub idempotency-next_job : (target : String) (m : Manager) → Kept m (next_job target m).0
unfolding next_job
idempotency-next_job target m = ground arith
