-- ===== src/Operation/Lifecycle/Cancellation.antt =====
-- A cancellation is on disk before it is acknowledged, and its outcome is what the receipt says.
use mathlib.Core.Path.{subst}
use teploy_dash.Operation.Lifecycle.Terminal.{operations-conclude}
use teploy_dash.Common.{
  ℕ, String, Bool, true, false, not, ◌||◌, Option, none, some, ◌≡◌, refl, ap, sym, ◌∙◌, arith, ℤ,
  string_eq, ◌==◌, lookup, insert, lookup-insert_self, if_elim, Bool-cases, inl, inr,
}
use teploy_dash.Operation.Types.{
  Status, cancel_requested, status as event_status, stopping, already_committed, terminal,
  Operation, Receipt, Reconciliation, not_cancelable, read_only, Result, ok, err,
}
use teploy_dash.Operation.Manager.{Setup, Manager, save_noted, status_name}
use teploy_dash.Operation.Manager.Frame.{
  append_event-SameCore, save_noted-SameMemory, records-save_noted,
}
use teploy_dash.Operation.Lifecycle.{
  cancel, cancel_found, cancel_saved, begin_stopping, resolve_cancellation, resolve_stopped,
  finish_reconciled, verdict, receipt_read, is_stopping, finish_found, finished, stop_found,
  cancel_reason,
}

-- The acknowledged operation is `cancel_requested` in memory and on disk.
pub record IsRequested (id : String) (m : Manager) (o : Operation) : Type 0 where
  pub status : o.status ≡ cancel_requested
  pub in_memory : lookup id m.operations ≡ some o
  pub on_disk : lookup o.id m.store.records ≡ some o

cancel_saved-IsRequested :
    (c : Setup) (id : String) (op o : Operation) (now : ℕ) (r : Option String × Manager)
    → op.status ≡ cancel_requested
    → (r.0 ≡ none → lookup op.id r.1.store.records ≡ some op)
    → (cancel_saved c id op now r).1 ≡ ok o
    → IsRequested id (cancel_saved c id op now r).0 o
unfolding cancel_saved
cancel_saved-IsRequested c id op o now (some e, m) s d h = cc
cancel_saved-IsRequested c id op o now (none, m) s d h =
    let e : op ≡ o = cc in
    let k =
      append_event-SameCore c id event_status (status_name cancel_requested) now
        (record m { operations = insert id op m.operations }) in
    record {
      status = ap (λ x. x.status) (sym e) ∙ s;
      in_memory = ap (lookup id) k.operations ∙ lookup-insert_self id op m.operations ∙ ap some e;
      on_disk =
          subst
            (λ (x : Operation).
              lookup x.id (cancel_saved c id op now (none, m)).0.store.records ≡ some x)
            e (ap (lookup op.id) k.records ∙ d refl);
    }

cancel_found-IsRequested :
    (c : Setup) (id : String) (now : ℕ) (m : Manager) (x : Option Operation) (o : Operation)
    → (cancel_found c id now m x).1 ≡ ok o
    → IsRequested id (cancel_found c id now m x).0 o
unfolding cancel_found
cancel_found-IsRequested c id now m none o = λ h. cc
cancel_found-IsRequested c id now m (some op) o =
    let op' : Operation = record op { status = cancel_requested } in
    if_elim (λ r. r.1 ≡ ok o → IsRequested id r.0 o) (terminal op.status || is_stopping op.status)
      (m, err not_cancelable) (cancel_saved c id op' now (save_noted op' now m)) (λ h. cc)
      (cancel_saved-IsRequested c id op' o now (save_noted op' now m) refl
        (records-save_noted op' now m))

-- A cancellation that is acknowledged is in the record on disk, as it is in memory.
pub cancel-IsRequested :
    (c : Setup) (id : String) (now : ℕ) (m : Manager) (o : Operation)
    → (cancel c id now m).1 ≡ ok o
    → IsRequested id (cancel c id now m).0 o
unfolding cancel
cancel-IsRequested c id now m o =
    if_elim (λ r. r.1 ≡ ok o → IsRequested id r.0 o) (not (m.read_only_reason == ""))
      (m, err read_only) (cancel_found c id now m (lookup id m.operations)) (λ h. cc)
      (cancel_found-IsRequested c id now m (lookup id m.operations) o)

-- The part of an operation's record that tells how it ended.
abbrev Ended : String → Manager → Status → Reconciliation → Type 0
Ended id m s r =
    (o : Operation) × (lookup id m.operations ≡ some o)
    × (o.status ≡ s)
    × (o.reconciliation ≡ some r)

finish_found-Ended :
    (c : Setup) (id : String) (s : Status) (exit : ℤ) (text : String) (r : Reconciliation) (now : ℕ)
    (m : Manager) (op : Operation)
    → terminal op.status ≡ false
    → Ended id (finish_found c id s exit text (some r) now m (some op)).0 s r
unfolding finish_found finished
finish_found-Ended c id s exit text r now m op h =
    let op' = finished op s exit text (some r) now in
    rw h (
      op',
      ap (lookup id) (operations-conclude c id op' now m) ∙ lookup-insert_self id op' m.operations,
      refl,
      refl,
    )

finish_reconciled-Ended :
    (c : Setup) (id : String) (s : Status) (exit : ℤ) (text : String) (r : Reconciliation) (now : ℕ)
    (m : Manager) (op : Operation)
    → lookup id m.operations ≡ some op
    → terminal op.status ≡ false
    → Ended id (finish_reconciled c id s exit text (some r) now m).0 s r
unfolding finish_reconciled
finish_reconciled-Ended c id s exit text r now m op l h =
    rw l (finish_found-Ended c id s exit text r now m op h)

stop_found-live :
    (c : Setup) (id : String) (now : ℕ) (m : Manager) (op : Operation)
    → terminal op.status || is_stopping op.status ≡ false
    → let r = stop_found c id now m (some op) in
      (r.1 ≡ true)
      × (lookup id r.0.operations ≡ some (record op { status = stopping }))
      × (r.0.shutting_down ≡ m.shutting_down)
unfolding stop_found
stop_found-live c id now m op h =
    let op' : Operation = record op { status = stopping } in
    let m1 = (save_noted op' now m).1 in
    let kept = save_noted-SameMemory op' now m in
    let k =
      append_event-SameCore c id event_status (status_name stopping) now
        (record m1 { operations = insert id op' m1.operations }) in
    rw h (
      refl,
      ap (lookup id) k.operations ∙ lookup-insert_self id op' m1.operations,
      k.shutting_down ∙ kept.shutting_down,
    )

-- What a receipt says of an effect that may have landed.
abbrev pub Landed : Bool → Result Receipt → Type 0
Landed shutting_down receipt =
    (shutting_down ≡ false) × ((r : Receipt) × (receipt ≡ ok r) × (r.applied ≡ true))

verdict_honest :
    (reason : String) (s : Bool) (receipt : Result Receipt) (now : ℕ)
    → (terminal (verdict reason (receipt_read s receipt) now).status ≡ true)
      × ((verdict reason (receipt_read s receipt) now).status ≡ already_committed
          → Landed s receipt)
      × (Landed s receipt
          → (verdict reason (receipt_read s receipt) now).status ≡ already_committed)
unfolding verdict receipt_read terminal
verdict_honest reason true (ok r) now = (refl, λ h. cc, λ h. cc (h.0))
verdict_honest reason true (err e) now = (refl, λ h. cc, λ h. cc (h.0))
verdict_honest reason false (err e) now = (refl, λ h. cc, λ h. let (x, e, t) = h.1 in cc)
verdict_honest reason false (ok r) now = elim (Bool-cases r.applied) [
  | inl a ↦ (ground arith, λ h. (refl, (r, refl, a)), λ h. ground arith)
  | inr a ↦ (
    ground arith,
    λ h. ground arith,
    λ h.
        let (x, e, t) = h.1 in
        let same : r ≡ x = cc in ground (arith, ap (λ y. y.applied) same ∙ t),
  )
]

-- An operation's end tells whether the effect landed.
abbrev Honest : String → Bool → Result Receipt → Manager → Type 0
Honest id s receipt m =
    (o : Operation) × (lookup id m.operations ≡ some o)
    × (terminal o.status ≡ true)
    × (o.status ≡ already_committed → Landed s receipt)
    × (Landed s receipt → o.status ≡ already_committed)

resolve_stopped-Honest :
    (c : Setup) (id : String) (exit : ℤ) (receipt : Result Receipt) (now : ℕ) (r : Manager × Bool)
    (op : Operation)
    → r.1 ≡ true
    → lookup id r.0.operations ≡ some op
    → terminal op.status ≡ false
    → Honest id r.0.shutting_down receipt (resolve_stopped c id exit receipt now r)
unfolding resolve_stopped
resolve_stopped-Honest c id exit receipt now (m, false) op t l h = cc
resolve_stopped-Honest c id exit receipt now (m, true) op t l h =
    let v = verdict (cancel_reason m) (receipt_read m.shutting_down receipt) now in
    let (o, f, s, r) =
      finish_reconciled-Ended c id v.status exit v.text v.reconciliation now m op l h in
    let (e, there, back) = verdict_honest (cancel_reason m) m.shutting_down receipt now in
    (o, f, ap terminal s ∙ e, λ k. there (sym s ∙ k), λ k. s ∙ back k)

-- A command that is canceled in flight, whose operation is in memory and neither terminal nor
-- stopping, ends: the operation is terminal afterwards, and it is `already_committed` exactly when
-- the receipt was read (no shutdown) and shows the effect.
pub resolve_cancellation_honest :
    (c : Setup) (id : String) (exit : ℤ) (receipt : Result Receipt) (now : ℕ) (m : Manager)
    (op : Operation)
    → lookup id m.operations ≡ some op
    → terminal op.status || is_stopping op.status ≡ false
    → (o : Operation) × (lookup id (resolve_cancellation c id exit receipt now m).operations
        ≡ some o)
      × (terminal o.status ≡ true)
      × (o.status ≡ already_committed → Landed m.shutting_down receipt)
      × (Landed m.shutting_down receipt → o.status ≡ already_committed)
unfolding resolve_cancellation begin_stopping
resolve_cancellation_honest c id exit receipt now m op l h =
    let (t, f, s) = stop_found-live c id now m op h in
    rw l (
      subst
        (λ b.
          Honest id b receipt
            (resolve_stopped c id exit receipt now (stop_found c id now m (some op))))
        s
        (resolve_stopped-Honest c id exit receipt now (stop_found c id now m (some op))
          (record op { status = stopping }) t f (unfold terminal in refl)))
