-- ===== src/Operation/Recovery/NoReplay.antt =====
-- A restart runs nothing again: what it finds unfinished ends, and no target is given work.
use mathlib.Core.Path.{subst}
use teploy_dash.Operation.Lifecycle.Terminal.{operations-log_event}
use teploy_dash.Operation.Manager.Frame.{append_event-SameCore, save_noted-SameMemory}
use teploy_dash.Common.{
  ℕ, String, Bool, true, Option, none, some, List, [], ◌∷◌, ◌≡◌, refl, ap, sym, ◌∙◌, ◌⊎◌, inl, inr,
  if◌then◌else◌, ◌==◌, string_eq, lookup, insert, lookup-insert, Bool-cases,
}
use teploy_dash.Operation.Types.{
  Status, queued, running, cancel_requested, stopping, status as event_status, terminal, Operation,
  Result, ok, err,
}
use teploy_dash.Operation.Manager.{Setup, Manager, save_noted, status_name}
use teploy_dash.Operation.Lifecycle.{log_event}
use teploy_dash.Operation.Recovery.{
  recover, recover_all, recover_rest, recover_one, rewrite, rewritten, with_pending, interrupted_op,
  canceled_op,
}

-- Every operation is over, but for those of `rest`, which are as they are there.
abbrev Over : List (String × Operation) → Manager → Type 0
Over rest m =
    (id : String) (o : Operation)
    → lookup id m.operations ≡ some o
    → (terminal o.status ≡ true) ⊎ (lookup id rest ≡ some o)

-- What one record's turn does, if it succeeds.
pub record Quiet (rest : List (String × Operation)) (m m' : Manager) : Type 0 where
  pub over : Over rest m'
  pub targets : m'.targets ≡ m.targets

Over-insert :
    (id : String) (op op' : Operation) (rest : List (String × Operation)) (m m' : Manager)
    → m'.operations ≡ insert id op' m.operations
    → terminal op'.status ≡ true
    → Over ((id, op) ∷ rest) m
    → Over rest m'
unfolding lookup
Over-insert id op op' rest m m' e t h = λ j o f. elim (Bool-cases (id == j)) [
  | inl y ↦
      let g : some op' ≡ some o =
        sym (
          lookup-insert id j op' m.operations
          ∙ ap (λ b. if b then some op' else lookup j m.operations) y)
        ∙ ap (lookup j) (sym e)
        ∙ f in
      let same : op' ≡ o = cc in inl (ap (λ x. terminal x.status) (sym same) ∙ t)
  | inr y ↦
      let g : lookup j m.operations ≡ some o =
        sym (
          lookup-insert id j op' m.operations
          ∙ ap (λ b. if b then some op' else lookup j m.operations) y)
        ∙ ap (lookup j) (sym e)
        ∙ f in
      elim (h j o g) [ inl a ↦ inl a | inr b ↦ inr (rw y at b) ]
]

Over-skip :
    (id : String) (op : Operation) (rest : List (String × Operation)) (m : Manager)
    → terminal op.status ≡ true
    → Over ((id, op) ∷ rest) m
    → Over rest m
unfolding lookup
Over-skip id op rest m t h = λ j o f. elim (h j o f) [
  | inl a ↦ inl a
  | inr b ↦ elim (Bool-cases (id == j)) [
    | inl y ↦
        let g : some op ≡ some o = rw y at b in
        let same : op ≡ o = cc in inl (ap (λ x. terminal x.status) (sym same) ∙ t)
    | inr y ↦ inr (rw y at b)
  ]
]

module _ (c : Setup) (now : ℕ) where
  rewritten-Quiet :
      (id : String) (op op' : Operation) (rest : List (String × Operation)) (pending : List String)
      (m : Manager) (r : Option String × Manager) (ids : List String)
      → r.1.operations ≡ insert id op' m.operations
      → r.1.targets ≡ m.targets
      → terminal op'.status ≡ true
      → Over ((id, op) ∷ rest) m
      → (rewritten c id op' now pending r).1 ≡ ok ids
      → Quiet rest m (rewritten c id op' now pending r).0
  unfolding rewritten
  rewritten-Quiet id op op' rest pending m (some x, n) ids e g t h k = cc
  rewritten-Quiet id op op' rest pending m (none, n) ids e g t h k = record {
    over =
        Over-insert id op op' rest m (log_event c id (status_name op'.status) now n)
          (operations-log_event c id _ now n ∙ e) t h;
    targets = (append_event-SameCore c id event_status (status_name op'.status) now n).targets ∙ g;
  }

  rewrite-Quiet :
      (id : String) (op op' : Operation) (rest : List (String × Operation)) (pending : List String)
      (m : Manager) (ids : List String)
      → terminal op'.status ≡ true
      → Over ((id, op) ∷ rest) m
      → (rewrite c id op' now pending m).1 ≡ ok ids
      → Quiet rest m (rewrite c id op' now pending m).0
  unfolding rewrite
  rewrite-Quiet id op op' rest pending m ids t h =
      let m1 : Manager = record m { operations = insert id op' m.operations } in
      let k = save_noted-SameMemory op' now m1 in
      rewritten-Quiet id op op' rest pending m (save_noted op' now m1) ids k.operations k.targets t
        h

  recover_one-Quiet :
      (reader : Bool) (id : String) (op : Operation) (s : Status) (rest : List (String × Operation))
      (m : Manager) (ids : List String)
      → op.status ≡ s
      → Over ((id, op) ∷ rest) m
      → (recover_one c reader now id op s m).1 ≡ ok ids
      → Quiet rest m (recover_one c reader now id op s m).0
  unfolding recover_one terminal interrupted_op canceled_op
  recover_one-Quiet reader id op queued rest m ids e h =
      rewrite-Quiet id op (interrupted_op reader now op) rest _ m ids refl h
  recover_one-Quiet reader id op running rest m ids e h =
      rewrite-Quiet id op (interrupted_op reader now op) rest _ m ids refl h
  recover_one-Quiet reader id op stopping rest m ids e h =
      rewrite-Quiet id op (interrupted_op reader now op) rest _ m ids refl h
  recover_one-Quiet reader id op cancel_requested rest m ids e h =
      rewrite-Quiet id op (canceled_op now op) rest _ m ids refl h
  recover_one-Quiet reader id op s rest m ids e h =
      λ k. record { over = Over-skip id op rest m (ap terminal e ∙ refl) h; targets = refl }

  with_pending-ok :
      (pending : List String) (r : Manager × Result (List String)) (ids : List String)
      → (with_pending pending r).1 ≡ ok ids
      → ((more : List String) × (r.1 ≡ ok more)) × ((with_pending pending r).0 ≡ r.0)
  unfolding with_pending
  with_pending-ok pending (m, err e) ids h = cc
  with_pending-ok pending (m, ok more) ids h = ((more, refl), refl)

  recover_rest-Quiet :
      (rest : List (String × Operation)) (next : Manager → Manager × Result (List String))
      (m : Manager) (r : Manager × Result (List String)) (ids : List String)
      → ((more : List String) → r.1 ≡ ok more → Quiet rest m r.0)
      → ((n : Manager) (more : List String)
          → Over rest n
          → (next n).1 ≡ ok more
          → Quiet [] n (next n).0)
      → (recover_rest next r).1 ≡ ok ids
      → Quiet [] m (recover_rest next r).0
  unfolding recover_rest
  recover_rest-Quiet rest next m (n, err e) ids q go h = cc
  recover_rest-Quiet rest next m (n, ok pending) ids q go h =
      let ((more, f), g) = with_pending-ok pending (next n) ids h in
      let first = q pending refl in
      let last = go n more first.over f in
      record {
        over = subst (Over []) (sym g) last.over;
        targets = ap (λ x. x.targets) g ∙ last.targets ∙ first.targets;
      }

  recover_all-Quiet :
      (reader : Bool) (rest : List (String × Operation)) (m : Manager) (ids : List String)
      → Over rest m
      → (recover_all c reader now rest m).1 ≡ ok ids
      → Quiet [] m (recover_all c reader now rest m).0
  unfolding recover_all
  recover_all-Quiet reader [] m ids h k = record { over = h; targets = refl }
  recover_all-Quiet reader ((id, op) ∷ rest) m ids h k =
      recover_rest-Quiet rest (recover_all c reader now rest) m
        (recover_one c reader now id op op.status m) ids
        (λ more. recover_one-Quiet reader id op op.status rest m more refl h)
        (recover_all-Quiet reader rest) k

-- If the recovery at a start succeeds, every operation in memory is terminal afterwards, and the
-- queues and runners of the targets are what they were: nothing is executed again.
pub recover-over :
    (c : Setup) (reader : Bool) (now : ℕ) (m : Manager) (pending : List String)
    → (recover c reader now m).1 ≡ ok pending
    → ((id : String) (o : Operation)
        → lookup id (recover c reader now m).0.operations ≡ some o
        → terminal o.status ≡ true)
      × ((recover c reader now m).0.targets ≡ m.targets)
unfolding recover lookup
recover-over c reader now m pending h =
    let q = recover_all-Quiet c now reader m.operations m pending (λ id o f. inr f) h in
    (λ id o f. elim (q.over id o f) [ inl a ↦ a | inr b ↦ cc ], q.targets)
