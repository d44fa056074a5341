-- ===== src/Operation/Run/History.antt =====
-- The life of one operation along a run.
use mathlib.Core.Path.{subst}
use teploy_dash.Common.{
  String, true, false, some, List, [], ◌∷◌, ◌≡◌, ◌≢◌, refl, ◌∙◌, arith, string_eq, ◌==◌, lookup,
  insert, lookup-insert, All, Bool-cases, inl, inr, none, Bool, ◌||◌,
}
use teploy_dash.Operation.Types.{Status, terminal, Operation, Reconciliation, ok, next_u64}
use teploy_dash.Operation.Manager.{Setup, Manager}
use teploy_dash.Operation.Admission.{Call, Prepared, new_operation}
use teploy_dash.Operation.Lifecycle.Terminal.{same, moves, Moves, may_follow}
use teploy_dash.Operation.Run.{Action, admits, retires, step, run}
use teploy_dash.Operation.Run.Effect.{Effect, changes, settles, adds, forgets, step-Effect}
use teploy_dash.Alert.Channels.{contains}
use teploy_dash.Operation.Retention.{forget_ids}
use teploy_dash.Operation.Retention.Forgotten.{forget_ids-Left, forget_ids-gone, left, gone}

-- States along the machine.
pub data Reaches (s : Status) : Status → Type 0 where
  here : Reaches s s
  next : {t u : Status} → Reaches s t → may_follow t u ≡ true → Reaches s u

-- A later record of one operation: the state is reached along the machine, what the admission
-- fixed is the same, and an outcome that was terminal still stands.
pub record Later (o o' : Operation) : Type 0 where
  pub reached : Reaches o.status o'.status
  pub id : o'.id ≡ o.id
  pub request : o'.request ≡ o.request
  pub target : o'.target ≡ o.target
  pub actor : o'.actor ≡ o.actor
  pub principal : o'.idempotency_principal ≡ o.idempotency_principal
  pub key : o'.idempotency_key ≡ o.idempotency_key
  pub created_at : o'.created_at ≡ o.created_at
  pub seq : o'.admission_seq ≡ o.admission_seq
  pub hash : o'.request_hash ≡ o.request_hash
  pub final :
      terminal o.status ≡ true
      → (o'.status ≡ o.status)
        × (o'.exit_code ≡ o.exit_code)
        × (o'.error ≡ o.error)
        × (o'.finished_at ≡ o.finished_at)

pub Later-refl : (o : Operation) → Later o o
Later-refl o = record {
  reached = here;
  id = refl;
  request = refl;
  target = refl;
  actor = refl;
  principal = refl;
  key = refl;
  created_at = refl;
  seq = refl;
  hash = refl;
  final = λ t. (refl, refl, refl, refl);
}

may_follow_live : (s t : Status) → may_follow s t ≡ true → terminal s ≡ false
unfolding may_follow terminal
may_follow_live s t h = ground arith

-- One move more.
Later-Moves : {o p q : Operation} → Later o p → Moves p q → Later o q
Later-Moves {o} {p} {q} l v = record {
  reached = next l.reached v.follows;
  id = v.id ∙ l.id;
  request = v.request ∙ l.request;
  target = v.target ∙ l.target;
  actor = v.actor ∙ l.actor;
  principal = v.principal ∙ l.principal;
  key = v.key ∙ l.key;
  created_at = v.created_at ∙ l.created_at;
  seq = v.seq ∙ l.seq;
  hash = v.hash ∙ l.hash;
  final = λ t. absurd (ground (arith, l.final t, may_follow_live p.status q.status v.follows));
}

Later-settles :
    {o p : Operation} (r : Reconciliation)
    → Later o p
    → Later o (record p { reconciliation = some r })
Later-settles r l = record {
  reached = l.reached;
  id = l.id;
  request = l.request;
  target = l.target;
  actor = l.actor;
  principal = l.principal;
  key = l.key;
  created_at = l.created_at;
  seq = l.seq;
  hash = l.hash;
  final = l.final;
}

-- The action does not admit a new operation under an identifier.
abbrev pub Avoids : String → Action → Type 0
Avoids id (admits call p) = call.new_id ≢ ok id
Avoids id _ = Unit

-- What became of an operation: a later record of it is in memory, or such a record, that was terminal,
-- was removed by a sweep that named it.
pub data Fate (id : String) (o : Operation) (named : Bool) (m : List (String × Operation))
    : Type 0 where
  kept : (o' : Operation) → lookup id m ≡ some o' → Later o o' → Fate id o named m
  retired :
      (o' : Operation)
      → lookup id m ≡ none
      → Later o o'
      → terminal o'.status ≡ true
      → named ≡ true
      → Fate id o named m

-- Whether an action ends a sweep that names the identifier.
abbrev pub names : String → Action → Bool
names id (retires ids now) = contains ids id
names id _ = false

abbrev pub any_names : String → List Action → Bool
any_names id [] = false
any_names id (a ∷ rest) = names id a || any_names id rest

-- A write under an identifier that is in memory.
insert-Fate :
    (id j : String) (o p q : Operation) (b : Bool) (m : List (String × Operation))
    → lookup j m ≡ some p
    → (Later o p → Later o q)
    → Fate id o b m
    → Fate id o b (insert j q m)
insert-Fate id j o p q b m l k (kept o' f h) = elim (Bool-cases (j == id)) [
  | inl e ↦
      let same_op : o' ≡ p = ground (arith, string_eq.beq_iff j id) in
      kept q (ground (arith, lookup-insert j id q m)) (k (subst (λ x. Later o x) same_op h))
  | inr e ↦ kept o' (ground (arith, lookup-insert j id q m)) h
]
insert-Fate id j o p q b m l k (retired o' f h t n) =
    let apart : (j == id) ≡ false = ground (arith, string_eq.beq_iff j id) in
    retired o' (ground (arith, lookup-insert j id q m)) h t n

differs :
    (call : Call) (j id : String) → call.new_id ≡ ok j → call.new_id ≢ ok id → (j == id) ≡ false
differs call j id n v = elim (Bool-cases (j == id)) [
  | inl e ↦ absurd (v (rw (← (string_eq.beq_iff j id).0 e) n))
  | inr e ↦ e
]

apart_from :
    (call : Call) (a : Action) (p : Prepared) (j id : String)
    → a ≡ admits call p
    → call.new_id ≡ ok j
    → Avoids id a
    → (j == id) ≡ false
apart_from call a p j id i n v =
    let v' : call.new_id ≢ ok id = subst (Avoids id) i v in differs call j id n v'

insert-apart :
    (id j : String) (o q : Operation) (b : Bool) (m : List (String × Operation))
    → (j == id) ≡ false
    → Fate id o b m
    → Fate id o b (insert j q m)
insert-apart id j o q b m n (kept o' f h) = kept o' (ground (arith, lookup-insert j id q m)) h
insert-apart id j o q b m n (retired o' f h t k) =
    retired o' (ground (arith, lookup-insert j id q m)) h t k

-- A Fate stays one where more sweeps are counted.
Fate-more :
    {id : String} {o : Operation} {b : Bool} {m : List (String × Operation)} (d : Bool)
    → Fate id o b m
    → Fate id o (b || d) m
Fate-more d (kept o' f h) = kept o' f h
Fate-more d (retired o' f h t n) = retired o' f h t (ground (arith, n))

forget_ids-Fate :
    (id : String) (o : Operation) (b : Bool) (ids : List String) (m : Manager)
    → Fate id o b m.operations
    → Fate id o (b || contains ids id) (forget_ids ids m).operations
forget_ids-Fate id o b ids m (kept o' f h) = elim (forget_ids-Left ids id o' m f) [
  | left l ↦ kept o' l h
  | gone n t k ↦ retired o' n h t (ground (arith, k))
]
forget_ids-Fate id o b ids m (retired o' f h t n) =
    retired o' (forget_ids-gone ids id m f) h t (ground (arith, n))

pub Effect-Fate :
    (c : Setup) (a : Action) (id : String) (o : Operation) (b : Bool) {m : Manager}
    {after : List (String × Operation)}
    → Effect c a m after
    → Avoids id a
    → Fate id o b m.operations
    → Fate id o (b || names id a) after
Effect-Fate c a id o b (changes (same e)) v h = rw e (Fate-more (names id a) h)
Effect-Fate c a id o b {m} (changes (moves j p q l w e)) v h =
    rw e (Fate-more (names id a) (insert-Fate id j o p q b m.operations l (λ k. Later-Moves k w) h))
Effect-Fate c a id o b {m} (settles j p r l e) v h = rw e (
    Fate-more (names id a) (
      insert-Fate id j o p (record p { reconciliation = some r }) b m.operations l (Later-settles r)
        h))
Effect-Fate c a id o b {m} (adds call p j i n f e) v h = rw e (
    Fate-more (names id a) (
      insert-apart id j o (new_operation call p j (next_u64 m.admission_seq)) b m.operations
        (apart_from call a p j id i n v) h))
Effect-Fate c a id o b {m} (forgets ids now i e) v h = rw (e, i) (forget_ids-Fate id o b ids m h)

or_assoc : (a b d : Bool) → ((a || b) || d) ≡ (a || (b || d))
or_assoc a b d = ground arith

run-Fate :
    (c : Setup) (actions : List Action) (id : String) (o : Operation) (b : Bool) (m : Manager)
    → All (Avoids id) actions
    → Fate id o b m.operations
    → Fate id o (b || any_names id actions) (run c actions m).operations
unfolding run
run-Fate c [] id o b m v h = Fate-more false h
run-Fate c (a ∷ rest) id o b m v h =
    subst (λ d. Fate id o d (run c rest (step c a m)).operations)
      (or_assoc b (names id a) (any_names id rest))
      (run-Fate c rest id o (b || names id a) (step c a m) v.1
        (Effect-Fate c a id o b (step-Effect c a m) v.0 h))

-- Along any run that admits no other operation under its identifier, retention included, an operation
-- is in memory, or a retention sweep of the run named it, and it was terminal when it was removed. In
-- either case what its admission fixed is unchanged, its state has moved along the machine, and once
-- it was terminal its state, exit code, message and time of finishing never changed again.
pub run-Later :
    (c : Setup) (actions : List Action) (id : String) (o : Operation) (m : Manager)
    → All (Avoids id) actions
    → lookup id m.operations ≡ some o
    → Fate id o (any_names id actions) (run c actions m).operations
run-Later c actions id o m v l = run-Fate c actions id o false m v (kept o l (Later-refl o))
