-- ===== src/Operation/Lifecycle/Terminal.antt =====
-- How the calls of internal/operation/manager.go change the operations in memory: the states that
-- may follow one another, and what of an admitted operation never changes.
use teploy_dash.Common.{
  ℕ, String, Bool, true, false, not, ◌&&◌, ◌||◌, Option, none, some, List, ◌≡◌, refl, ◌∙◌, arith, ℤ,
  string_eq, lookup, insert, Bool-cases, inl, inr, ap, ◌==◌,
}
use teploy_dash.Operation.Types.{
  Status, queued, running, cancel_requested, stopping, terminal, Operation, Reconciliation,
}
use teploy_dash.Operation.Manager.{Setup, Manager}
use teploy_dash.Operation.Manager.Frame.{append_event-SameCore, save_noted-SameMemory}
use teploy_dash.Operation.Lifecycle.{
  finished, conclude, finish_found, finish_reconciled, started, run_found, set_running, stop_found,
  begin_stopping, cancel_saved, cancel_found, cancel, log_event, is_stopping, is_queued,
  is_cancel_requested,
}

-- The state machine: a queued operation may start, a live one may be asked to stop or be stopping
-- (once), and any live one may end; a terminal state has no successor.
unfoldable pub may_follow : Status → Status → Bool
may_follow queued running = true
may_follow s cancel_requested = not (terminal s) && not (is_stopping s)
may_follow s stopping = not (terminal s) && not (is_stopping s)
may_follow s t = not (terminal s) && terminal t

-- One operation record after another: the state moves along the machine, and all that was fixed
-- at the admission stays.
pub record Moves (o o' : Operation) : Type 0 where
  pub follows : may_follow o.status o'.status ≡ true
  pub id : o'.id ≡ o.id
  pub request : o'.request ≡ o.request
  pub target : o'.target ≡ o.target
  pub principal : o'.idempotency_principal ≡ o.idempotency_principal
  pub key : o'.idempotency_key ≡ o.idempotency_key
  pub attempt : o'.attempt ≡ o.attempt
  pub created_at : o'.created_at ≡ o.created_at
  pub seq : o'.admission_seq ≡ o.admission_seq
  pub actor : o'.actor ≡ o.actor
  pub hash : o'.request_hash ≡ o.request_hash

-- What a call does to the operations: nothing, or one of them moves.
pub data Change (before after : List (String × Operation)) : Type 0 where
  same : after ≡ before → Change before after
  moves :
      (id : String) (o o' : Operation)
      → lookup id before ≡ some o
      → Moves o o'
      → after ≡ insert id o' before
      → Change before after

pub operations-log_event :
    (c : Setup) (id text : String) (now : ℕ) (m : Manager)
    → (log_event c id text now m).operations ≡ m.operations
operations-log_event c id text now m = (append_event-SameCore c id _ text now m).operations

pub operations-conclude :
    (c : Setup) (id : String) (op : Operation) (now : ℕ) (m : Manager)
    → (conclude c id op now m).0.operations ≡ insert id op m.operations
unfolding conclude
operations-conclude c id op now m =
    operations-log_event c id _ now _ ∙ (save_noted-SameMemory op now _).operations

-- A live state may be followed by any terminal one.
may_end : (s t : Status) → terminal s ≡ false → terminal t ≡ true → may_follow s t ≡ true
unfolding may_follow terminal
may_end s t h h' = ground arith

finished-Moves :
    (op : Operation) (s : Status) (exit : ℤ) (text : String) (rec : Option Reconciliation) (now : ℕ)
    → terminal op.status ≡ false
    → terminal s ≡ true
    → Moves op (finished op s exit text rec now)
unfolding finished
finished-Moves op s exit text rec now h t = ground (arith, may_end op.status s)

finish_found-Change :
    (c : Setup) (id : String) (s : Status) (exit : ℤ) (text : String) (rec : Option Reconciliation)
    (now : ℕ) (m : Manager) (o : Option Operation)
    → terminal s ≡ true
    → lookup id m.operations ≡ o
    → Change m.operations (finish_found c id s exit text rec now m o).0.operations
unfolding finish_found
finish_found-Change c id s exit text rec now m none t e = same refl
finish_found-Change c id s exit text rec now m (some op) t e =
    elim (Bool-cases (terminal op.status)) [
      | inl h ↦ rw h (same refl)
      | inr h ↦ rw h (
          moves id op (finished op s exit text rec now) e
            (finished-Moves op s exit text rec now h t) (operations-conclude c id _ now m))
    ]

-- finishReconciled with a terminal state moves the operation to it, or changes nothing.
pub finish_reconciled-Change :
    (c : Setup) (id : String) (s : Status) (exit : ℤ) (text : String) (rec : Option Reconciliation)
    (now : ℕ) (m : Manager)
    → terminal s ≡ true
    → Change m.operations (finish_reconciled c id s exit text rec now m).0.operations
unfolding finish_reconciled
finish_reconciled-Change c id s exit text rec now m t =
    finish_found-Change c id s exit text rec now m (lookup id m.operations) t refl

may_run : (s : Status) → is_queued s ≡ true → may_follow s running ≡ true
unfolding may_follow
may_run s h = ground arith

may_stop :
    (s : Status)
    → terminal s || is_stopping s ≡ false
    → (may_follow s stopping ≡ true) × (may_follow s cancel_requested ≡ true)
unfolding may_follow terminal
may_stop s h = ground arith

operations-begin_running :
    (c : Setup) (id : String) (op : Operation) (now : ℕ) (r : Option String × Manager)
    → (started c id op now r).0.operations ≡ r.1.operations
unfolding started
operations-begin_running c id op now (none, m) = operations-log_event c id _ now m
operations-begin_running c id op now (some e, m) = refl

run_found-Change :
    (c : Setup) (id : String) (now : ℕ) (m : Manager) (o : Option Operation)
    → lookup id m.operations ≡ o
    → Change m.operations (run_found c id now m o).0.operations
unfolding run_found
run_found-Change c id now m none e = same refl
run_found-Change c id now m (some op) e = elim (Bool-cases (is_cancel_requested op.status)) [
  | inl h ↦ rw h (same refl)
  | inr h ↦ elim (Bool-cases (is_queued op.status)) [
    | inl q ↦
        let op' = record op { status = running; started_at = some now } in
        rw (h, q)
          (moves id op op' e (ground (arith, may_run op.status)) (
            operations-begin_running c id op' now _ ∙ (save_noted-SameMemory op' now _).operations))
    | inr q ↦ rw (h, q) (same refl)
  ]
]

pub set_running-Change :
    (c : Setup) (id : String) (now : ℕ) (m : Manager)
    → Change m.operations (set_running c id now m).0.operations
unfolding set_running
set_running-Change c id now m = run_found-Change c id now m (lookup id m.operations) refl

stop_found-Change :
    (c : Setup) (id : String) (now : ℕ) (m : Manager) (o : Option Operation)
    → lookup id m.operations ≡ o
    → Change m.operations (stop_found c id now m o).0.operations
unfolding stop_found
stop_found-Change c id now m none e = same refl
stop_found-Change c id now m (some op) e =
    elim (Bool-cases (terminal op.status || is_stopping op.status)) [
      | inl h ↦ rw h (same refl)
      | inr h ↦ rw h (
          moves id op (record op { status = stopping }) e (ground (arith, may_stop op.status))
            (operations-log_event c id _ now _
              ∙ ap (insert id (record op { status = stopping }))
                  (save_noted-SameMemory _ now m).operations))
    ]

pub begin_stopping-Change :
    (c : Setup) (id : String) (now : ℕ) (m : Manager)
    → Change m.operations (begin_stopping c id now m).0.operations
unfolding begin_stopping
begin_stopping-Change c id now m = stop_found-Change c id now m (lookup id m.operations) refl

cancel_saved-Change :
    (c : Setup) (id : String) (op op' : Operation) (now : ℕ) (m : Manager)
    (r : Option String × Manager)
    → lookup id m.operations ≡ some op
    → Moves op op'
    → r.1.operations ≡ m.operations
    → Change m.operations (cancel_saved c id op' now r).0.operations
unfolding cancel_saved
cancel_saved-Change c id op op' now m (some e, m') l v k = same k
cancel_saved-Change c id op op' now m (none, m') l v k =
    moves id op op' l v (operations-log_event c id _ now _ ∙ ap (insert id op') k)

cancel_found-Change :
    (c : Setup) (id : String) (now : ℕ) (m : Manager) (o : Option Operation)
    → lookup id m.operations ≡ o
    → Change m.operations (cancel_found c id now m o).0.operations
unfolding cancel_found
cancel_found-Change c id now m none e = same refl
cancel_found-Change c id now m (some op) e =
    elim (Bool-cases (terminal op.status || is_stopping op.status)) [
      | inl h ↦ rw h (same refl)
      | inr h ↦ rw h (
          cancel_saved-Change c id op (record op { status = cancel_requested }) now m _ e
            (ground (arith, may_stop op.status)) (save_noted-SameMemory _ now m).operations)
    ]

pub cancel-Change :
    (c : Setup) (id : String) (now : ℕ) (m : Manager)
    → Change m.operations (cancel c id now m).0.operations
unfolding cancel
cancel-Change c id now m = elim (Bool-cases (m.read_only_reason == "")) [
  | inl h ↦ rw h (cancel_found-Change c id now m (lookup id m.operations) refl)
  | inr h ↦ rw h (same refl)
]
