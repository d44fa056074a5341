-- ===== src/Operation/Run/Replay.antt =====
-- A replay check after whatever other calls.
use teploy_dash.Common.{
  ℕ, String, true, false, some, List, [], ◌∷◌, ◌≡◌, ◌≢◌, refl, ap, sym, ◌∙◌, string_eq, ◌==◌,
  if◌then◌else◌, lookup, All, Bool,
}
use teploy_dash.Alert.Channels.{contains}
use teploy_dash.Operation.Types.{Operation, ok, err, IdemKey, idem_key_eq, idempotency_conflict}
use teploy_dash.Operation.Manager.{Setup, Manager}
use teploy_dash.Operation.Manager.Frame.{append_event-SameCore}
use teploy_dash.Operation.Admission.{Call, Prepared, fresh, admit, lookup_replay, idempotency_live}
use teploy_dash.Operation.Admission.Durable.{admit-IsPublished}
use teploy_dash.Operation.Admission.Replay.{key_of, found_replay}
use teploy_dash.Operation.Admission.Keys.{Indexed, lookup-admit, lookup-begin_enqueue}
use teploy_dash.Operation.Lifecycle.{close_admission, force_cancel}
use teploy_dash.Operation.Lifecycle.Keys.{
  idempotency-finish_reconciled, idempotency-set_running, idempotency-begin_stopping,
  idempotency-cancel, idempotency-next_job,
}
use teploy_dash.Operation.Recovery.Keys.{idempotency-reconcile_one}
use teploy_dash.Operation.Retention.{forget_removed}
use teploy_dash.Operation.Retention.Forgotten.{idempotency-begin_retire}
use teploy_dash.Operation.Run.{
  Action, begins, admits, takes, starts, emits, cancels, stops, finishes, reconciles, sweeps,
  retires, closes, shuts_down, step, run, ending,
}
use teploy_dash.Operation.Run.Effect.{step-Effect}
use teploy_dash.Operation.Run.History.{
  Later, Later-refl, Fate, kept, retired, Avoids, names, Effect-Fate,
}

-- What an action must not do: meet the key after its window, admit another operation under the same
-- identifier, or end a sweep that removed operations.
abbrev pub Within : Setup → Operation → Action → Type 0
Within c o (begins req key actor now) =
    idempotency_live c.idempotency_window o.created_at now ≡ true
Within c o (admits call p) =
    (call.new_id ≢ ok o.id) × (idempotency_live c.idempotency_window o.created_at call.now ≡ true)
Within c o (retires ids now) = ids ≡ []
Within c o _ = Unit

Within-Avoids : (c : Setup) (o : Operation) (a : Action) → Within c o a → Avoids o.id a
Within-Avoids c o (admits call p) w = w.0
Within-Avoids c o (begins req key actor now) w = tt
Within-Avoids c o (takes target) w = tt
Within-Avoids c o (starts id now) w = tt
Within-Avoids c o (emits id t text now) w = tt
Within-Avoids c o (cancels id now) w = tt
Within-Avoids c o (stops id now) w = tt
Within-Avoids c o (finishes id e exit text rec now) w = tt
Within-Avoids c o (reconciles id stopped receipt now) w = tt
Within-Avoids c o (sweeps deletes now) w = tt
Within-Avoids c o (retires ids now) w = tt
Within-Avoids c o closes w = tt
Within-Avoids c o shuts_down w = tt

Within-names : (c : Setup) (o : Operation) (a : Action) → Within c o a → names o.id a ≡ false
unfolding contains
Within-names c o (retires ids now) w = rw w refl
Within-names c o (begins req key actor now) w = refl
Within-names c o (admits call p) w = refl
Within-names c o (takes target) w = refl
Within-names c o (starts id now) w = refl
Within-names c o (emits id t text now) w = refl
Within-names c o (cancels id now) w = refl
Within-names c o (stops id now) w = refl
Within-names c o (finishes id e exit text rec now) w = refl
Within-names c o (reconciles id stopped receipt now) w = refl
Within-names c o (sweeps deletes now) w = refl
Within-names c o closes w = refl
Within-names c o shuts_down w = refl

-- The key leads to the operation, which is in memory in a later record.
record Leads (k : IdemKey) (o : Operation) (m : Manager) : Type 0 where
  at : lookup k m.idempotency ≡ some o.id
  op : Operation
  there : lookup o.id m.operations ≡ some op
  later : Later o op

module _ (c : Setup) (k : IdemKey) (o : Operation) (key : (k.key == "") ≡ false) where
  Leads-Indexed :
      (now : ℕ) (m : Manager)
      → Leads k o m
      → idempotency_live c.idempotency_window o.created_at now ≡ true
      → Indexed c k o.id now m
  Leads-Indexed now m v live = record {
    key = key;
    at = v.at;
    op = v.op;
    there = v.there;
    live = ap (λ t. idempotency_live c.idempotency_window t now) v.later.created_at ∙ live;
  }

  step-key :
      (a : Action) (m : Manager)
      → Within c o a
      → Leads k o m
      → lookup k (step c a m).idempotency ≡ some o.id
  unfolding step forget_removed close_admission force_cancel
  step-key (begins req key actor now) m w v =
      lookup-begin_enqueue c req key actor k o.id now m (Leads-Indexed now m v w)
  step-key (admits call p) m w v = lookup-admit c call p k o.id m (Leads-Indexed call.now m v w.1)
  step-key (takes target) m w v = ap (lookup k) (idempotency-next_job target m) ∙ v.at
  step-key (starts id now) m w v = ap (lookup k) (idempotency-set_running c id now m) ∙ v.at
  step-key (emits id t text now) m w v =
      ap (lookup k) (append_event-SameCore c id t text now m).idempotency ∙ v.at
  step-key (cancels id now) m w v = ap (lookup k) (idempotency-cancel c id now m) ∙ v.at
  step-key (stops id now) m w v = ap (lookup k) (idempotency-begin_stopping c id now m) ∙ v.at
  step-key (finishes id e exit text rec now) m w v =
      ap (lookup k) (idempotency-finish_reconciled c id (ending e) exit text rec now m) ∙ v.at
  step-key (reconciles id stopped receipt now) m w v =
      ap (lookup k) (idempotency-reconcile_one c id stopped receipt now m) ∙ v.at
  step-key (sweeps deletes now) m w v =
      ap (lookup k) (idempotency-begin_retire c deletes now m) ∙ v.at
  step-key (retires ids now) m w v = rw w v.at
  step-key closes m w v = v.at
  step-key shuts_down m w v = v.at

  Fate-kept :
      {b : Bool} {ops : List (String × Operation)}
      → Fate o.id o b ops
      → b ≡ false
      → (o' : Operation) × (lookup o.id ops ≡ some o') × Later o o'
  Fate-kept (kept o' l h) e = (o', l, h)
  Fate-kept (retired o' l h t n) e = let clash : true ≡ false = sym n ∙ e in cc

  step-Leads : (a : Action) (m : Manager) → Within c o a → Leads k o m → Leads k o (step c a m)
  step-Leads a m w v =
      let (o', l, h) =
        Fate-kept
          (Effect-Fate c a o.id o false (step-Effect c a m) (Within-Avoids c o a w)
            (kept v.op v.there v.later))
          (Within-names c o a w) in
      record { at = step-key a m w v; op = o'; there = l; later = h }

  run-Leads :
      (actions : List Action) (m : Manager)
      → All (Within c o) actions
      → Leads k o m
      → Leads k o (run c actions m)
  unfolding run
  run-Leads [] m w v = v
  run-Leads (a ∷ rest) m w v = run-Leads rest (step c a m) w.1 (step-Leads a m w.0 v)

-- After an admission under a non-empty key, and after any run of other calls within its window that
-- admits no other operation under the same identifier and in which no retention sweep removes an
-- operation, a check of the same principal's key within the window changes nothing. It answers with
-- the operation that was admitted, in a later record of it, if the request's hash is the same, and with
-- a conflict if it is another.
pub lookup_replay-run :
    (c : Setup) (call : Call) (p : Prepared) (m : Manager) (o : Operation) (actions : List Action)
    (hash : String) (now : ℕ)
    → (call.key == "") ≡ false
    → (admit c call p m).1 ≡ fresh o
    → All (Within c o) actions
    → idempotency_live c.idempotency_window o.created_at now ≡ true
    → (o' : Operation) × Later o o'
      × (lookup_replay c (key_of call) hash now (run c actions (admit c call p m).0) ≡ (
        run c actions (admit c call p m).0,
        if p.hash == hash then ok (some o') else err idempotency_conflict,
      ))
lookup_replay-run c call p m o actions hash now n fresh_one within live =
    let v = admit-IsPublished c call p m o fresh_one in
    let first : Leads (key_of call) o (admit c call p m).0 = record {
      at = v.indexed n;
      op = o;
      there = v.in_memory;
      later = Later-refl o;
    } in
    let after = run c actions (admit c call p m).0 in
    let l = run-Leads c (key_of call) o n actions (admit c call p m).0 within first in
    let in_window =
      ap (λ t. idempotency_live c.idempotency_window t now) l.later.created_at ∙ live in
    (
      l.op,
      l.later,
      found_replay c (key_of call) hash o.id now after l.op n l.at l.there in_window
          ∙ ap
              (λ (x : String).
                (after, if x == hash then ok (some l.op) else err idempotency_conflict))
              (l.later.hash ∙ v.hash_kept),
    )
