-- ===== src/Operation/Run/Budgets.antt =====
-- The admission budgets hold along every run.
use teploy_dash.Common.{
  ◌+◌, ◌≤◌, String, true, false, none, some, List, [], ◌∷◌, ◌≡◌, ◌≢◌, arith, string_eq, lookup,
  insert, tally, tally-insert, tally-insert_over, is_positive, pos_part,
}
use teploy_dash.Operation.Types.{Status, terminal, Operation, Reconciliation, idempotency_scope}
use teploy_dash.Operation.Manager.{Setup, Manager}
use teploy_dash.Operation.Admission.{is_live, is_live_on, is_live_of, over_budget, new_operation}
use teploy_dash.Operation.Lifecycle.Terminal.{Change, same, moves, Moves, may_follow}
use teploy_dash.Operation.Run.{Action, step, run}
use teploy_dash.Operation.Run.Effect.{Effect, changes, settles, adds, forgets, step-Effect}
use teploy_dash.Operation.Retention.Forgotten.{tally-forget_ids}

-- The live operations are within the three budgets that are switched on.
pub record IsBudgeted (c : Setup) (m : List (String × Operation)) : Type 0 where
  pub total : is_positive c.max_live ≡ true → tally is_live m ≤ pos_part c.max_live
  pub per_target :
      (target : String)
      → is_positive c.max_queued_per_target ≡ true
      → tally (is_live_on target) m ≤ pos_part c.max_queued_per_target
  pub per_principal :
      (scope : String)
      → scope ≢ ""
      → is_positive c.max_live_per_principal ≡ true
      → tally (is_live_of scope) m ≤ pos_part c.max_live_per_principal

may_follow_live : (s t : Status) → may_follow s t ≡ true → terminal s ≡ false
unfolding may_follow terminal
may_follow_live s t h = ground arith

-- An operation that moves was counted before.
module _ (o o' : Operation) (v : Moves o o') where
  live_before : is_live o' ≡ true → is_live o ≡ true
  live_before h = ground (arith, may_follow_live o.status o'.status)

  live_on_before : (t : String) → is_live_on t o' ≡ true → is_live_on t o ≡ true
  live_on_before t h = ground (arith, may_follow_live o.status o'.status)

  live_of_before : (s : String) → is_live_of s o' ≡ true → is_live_of s o ≡ true
  live_of_before s h = ground (arith, may_follow_live o.status o'.status)

Change-IsBudgeted :
    (c : Setup) {m after : List (String × Operation)}
    → Change m after
    → IsBudgeted c m
    → IsBudgeted c after
Change-IsBudgeted c (same e) b = rw e b
Change-IsBudgeted c {m} (moves id o o' l v e) b = rw e (record {
  total = λ p. omega (arith, b.total p, tally-insert_over is_live id o' o m l (live_before o o' v));
  per_target = λ t p. omega (
    arith,
    b.per_target t p,
    tally-insert_over (is_live_on t) id o' o m l (live_on_before o o' v t),
  );
  per_principal = λ s n p. omega (
    arith,
    b.per_principal s n p,
    tally-insert_over (is_live_of s) id o' o m l (live_of_before o o' v s),
  );
})

settled-IsBudgeted :
    (c : Setup) (m : List (String × Operation)) (id : String) (o : Operation) (r : Reconciliation)
    → lookup id m ≡ some o
    → IsBudgeted c m
    → IsBudgeted c (insert id (record o { reconciliation = some r }) m)
settled-IsBudgeted c m id o r l b = record {
  total = λ p. omega (
    arith,
    b.total p,
    tally-insert_over is_live id (record o { reconciliation = some r }) o m l (λ h. h),
  );
  per_target = λ t p. omega (
    arith,
    b.per_target t p,
    tally-insert_over (is_live_on t) id (record o { reconciliation = some r }) o m l (λ h. h),
  );
  per_principal = λ s n p. omega (
    arith,
    b.per_principal s n p,
    tally-insert_over (is_live_of s) id (record o { reconciliation = some r }) o m l (λ h. h),
  );
}

-- What the check of the budgets says of the counts.
under_budget :
    (c : Setup) (target scope : String) (m : List (String × Operation))
    → over_budget c target scope m ≡ none
    → (is_positive c.max_live ≡ true → tally is_live m + 1 ≤ pos_part c.max_live)
      × (is_positive c.max_queued_per_target ≡ true
          → tally (is_live_on target) m + 1 ≤ pos_part c.max_queued_per_target)
      × (scope ≢ ""
          → is_positive c.max_live_per_principal ≡ true
          → tally (is_live_of scope) m + 1 ≤ pos_part c.max_live_per_principal)
unfolding over_budget
under_budget c target scope m h =
    (λ p. ground arith, λ p. ground arith, λ n p. ground (arith, string_eq.beq_iff scope ""))

added-IsBudgeted :
    (c : Setup) (m : List (String × Operation)) (id : String) (o : Operation)
    → over_budget c o.target (idempotency_scope o.actor) m ≡ none
    → IsBudgeted c m
    → IsBudgeted c (insert id o m)
added-IsBudgeted c m id o h b =
    let u = under_budget c o.target (idempotency_scope o.actor) m h in
    record {
      total = λ p. ground (arith, b.total p, u.0 p, tally-insert is_live id o m);
      per_target = λ t p. ground (
        arith,
        b.per_target t p,
        u.1 p,
        string_eq.beq_iff o.target t,
        tally-insert (is_live_on t) id o m,
      );
      per_principal = λ s n p. ground (
        arith,
        b.per_principal s n p,
        u.2,
        n,
        p,
        string_eq.beq_iff (idempotency_scope o.actor) s,
        tally-insert (is_live_of s) id o m,
      );
    }

Effect-IsBudgeted :
    (c : Setup) (a : Action) {m : Manager} {after : List (String × Operation)}
    → Effect c a m after
    → IsBudgeted c m.operations
    → IsBudgeted c after
Effect-IsBudgeted c a (changes e) b = Change-IsBudgeted c e b
Effect-IsBudgeted c a {m} (settles id o r l e) b =
    rw e (settled-IsBudgeted c m.operations id o r l b)
Effect-IsBudgeted c a {m} (adds call p id i j h e) b =
    rw e
      (added-IsBudgeted c m.operations id (new_operation call p id _) (unfold new_operation in h) b)
Effect-IsBudgeted c a {m} (forgets ids now i e) b = rw e (record {
  total = λ p. omega (arith, b.total p, tally-forget_ids is_live ids m);
  per_target = λ t p. omega (arith, b.per_target t p, tally-forget_ids (is_live_on t) ids m);
  per_principal =
      λ s n p. omega (arith, b.per_principal s n p, tally-forget_ids (is_live_of s) ids m);
})

-- Whatever is called, in whatever order, on a manager whose live operations are within the
-- budgets: they are within the budgets afterwards. A budget that is switched off (not positive)
-- bounds nothing, and the principal's budget is asked for non-empty principals.
pub run-IsBudgeted :
    (c : Setup) (actions : List Action) (m : Manager)
    → IsBudgeted c m.operations
    → IsBudgeted c (run c actions m).operations
unfolding run
run-IsBudgeted c [] m b = b
run-IsBudgeted c (a ∷ rest) m b =
    run-IsBudgeted c rest (step c a m) (Effect-IsBudgeted c a (step-Effect c a m) b)
