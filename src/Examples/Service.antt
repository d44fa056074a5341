-- ===== src/Examples/Service.antt =====
-- Runs of the operation service.
use teploy_dash.Common.{
  ℕ, String, Option, ap, sym, ◌∙◌, ◌==◌, true, false, none, some, List, [], ◌∷◌, ◌≡◌, refl, pos,
  lookup, arith, tally, string_eq, join, keys,
}
use teploy_dash.Operation.Types.{
  template_install, server_audit, Request, Operation, queued, running, cancel_requested,
  already_committed, Event, stdout, not_found, Result, ok, err, Receipt, Command, terminal,
  supported_kind, Server, idempotency_scope, IdemKey, idem_key_eq, idem_eq,
}
use teploy_dash.Operation.Build.{
  Built, kind_timeout, execution_timeout, build_server_audit, resolve_request, with_home,
  sort_strings, value_of,
}
use teploy_dash.Operation.Manager.{
  Setup, Manager, append_event, append_one_event, append_event_line, events_of, save_noted,
  save_operation,
}
use teploy_dash.Operation.Admission.{
  fresh, admit, lookup_replay, over_budget, new_operation, idempotency_live,
}
use teploy_dash.Operation.Lifecycle.{cancel, resolve_cancellation}
use teploy_dash.Operation.Lifecycle.Cancellation.{
  IsRequested, cancel-IsRequested, Landed, resolve_cancellation_honest,
}
use teploy_dash.Operation.Admission.Durable.{IsPublished, admit-IsPublished, admit_refused_keeps}
use teploy_dash.Operation.Admission.Replay.{lookup_replay-own}
use teploy_dash.Operation.Run.{Action, begins, starts, finishes, cancels, retires, success, run}
use teploy_dash.Operation.Run.History.{Fate, Later, any_names, run-Later}
use teploy_dash.Operation.Run.Replay.{lookup_replay-run}
use teploy_dash.Operation.Run.Budgets.{IsBudgeted, run-IsBudgeted}
use teploy_dash.Operation.Template.{build, build_template_install, redacted_request}
use teploy_dash.Operation.Template.Secrets.{args_secret_free, build-valid}
use teploy_dash.Operation.Recovery.{recover}
use teploy_dash.Operation.Recovery.NoReplay.{recover-over}
use teploy_dash.Operation.Target.{check_target, same_host, user_of, retarget_command}
use teploy_dash.Operation.Target.Identity.{Bound, check_target-Bound}
use teploy_dash.Operation.Journal.{retained_suffix, window, total_size}
use teploy_dash.Operation.Journal.Retained.{Retained, retained_suffix-newest}
use teploy_dash.Operation.Build.Rules.{valid_identifier, valid_var_name}
use teploy_dash.Examples.{
  box, env, find_box, setup, request, empty_manager, op_of, manager_with, call, prepared,
}

abbrev life : List Action
life =
    starts "a1" 6
    ∷ finishes "a1" success (pos 0) "" none 9
    ∷ cancels "a1" 10
    ∷ retires ("a1" ∷ []) 11
    ∷ []

run-Later_example :
    Fate "a1" (op_of queued) (any_names "a1" life) (run setup life (manager_with queued)).operations
unfolding lookup
run-Later_example =
    run-Later setup life "a1" (op_of queued) (manager_with queued) (tt, (tt, (tt, (tt, tt)))) refl

manager_with-IsBudgeted : IsBudgeted setup (manager_with queued).operations
unfolding tally terminal idempotency_scope join
manager_with-IsBudgeted = record {
  total = λ p. ground arith;
  per_target = λ t p. ground arith;
  per_principal = λ t n p. ground arith;
}

run-IsBudgeted_example : IsBudgeted setup (run setup life (manager_with queued)).operations
run-IsBudgeted_example = run-IsBudgeted setup life (manager_with queued) manager_with-IsBudgeted

admitted : (admit setup call prepared empty_manager).1 ≡ fresh (op_of queued)
unfolding admit lookup_replay lookup over_budget tally idempotency_scope append_event_line
    total_size events_of save_operation new_operation redacted_request
admitted = refl

admit-IsPublished_example :
    IsPublished call "shop" (admit setup call prepared empty_manager).0 (op_of queued)
admit-IsPublished_example =
    admit-IsPublished setup call prepared empty_manager (op_of queued) admitted

abbrev closed : Manager
closed = record empty_manager { admission_closed = true }

closed_refuses : (o : Operation) → ¬ ((admit setup call prepared closed).1 ≡ fresh o)
unfolding admit
closed_refuses o h = cc

admit_refused_keeps_example : (admit setup call prepared closed).0.operations ≡ []
admit_refused_keeps_example = admit_refused_keeps setup call prepared closed closed_refuses

abbrev key_1 : IdemKey
key_1 = record { principal = "local:no-auth"; key = "k1" }

abbrev in_between : List Action
in_between = starts "a1" 6 ∷ begins request "k2" none 8 ∷ cancels "a1" 10 ∷ []

lookup_replay-run_example :
    (o' : Operation) × Later (op_of queued) o'
    × (lookup_replay setup key_1 "shop" 20
          (run setup in_between (admit setup call prepared empty_manager).0)
        ≡ (run setup in_between (admit setup call prepared empty_manager).0, ok (some o')))
unfolding idempotency_scope idempotency_live
lookup_replay-run_example =
    lookup_replay-run setup call prepared empty_manager (op_of queued) in_between "shop" 20 refl
      admitted (tt, (refl, (tt, tt))) refl

abbrev indexed : Manager
indexed = record (manager_with queued) { idempotency = (key_1, "a1") ∷ [] }

lookup_replay-own_example :
    (id : String) × (lookup key_1 indexed.idempotency ≡ some id)
    × (lookup id indexed.operations ≡ some (op_of queued))
    × ((op_of queued).request_hash ≡ "shop")
    × (idempotency_live setup.idempotency_window (op_of queued).created_at 20 ≡ true)
unfolding lookup_replay lookup idempotency_live idem_eq
lookup_replay-own_example = lookup_replay-own setup key_1 "shop" 20 indexed (op_of queued) refl

cancel-IsRequested_example :
    IsRequested "a1" (cancel setup "a1" 7 (manager_with running)).0 (op_of cancel_requested)
unfolding cancel lookup terminal save_noted save_operation
cancel-IsRequested_example =
    cancel-IsRequested setup "a1" 7 (manager_with running) (op_of cancel_requested) refl

abbrev receipt : Result Receipt
receipt = ok (record { applied = true; evidence = "container up" })

resolve_cancellation_honest_example :
    (o : Operation) × (lookup "a1"
        (resolve_cancellation setup "a1"
          (pos 1)
          receipt
          9
          (manager_with cancel_requested)).operations
      ≡ some o)
    × (terminal o.status ≡ true)
    × (o.status ≡ already_committed → Landed false receipt)
    × (Landed false receipt → o.status ≡ already_committed)
unfolding lookup terminal
resolve_cancellation_honest_example =
    resolve_cancellation_honest setup "a1" (pos 1) receipt 9 (manager_with cancel_requested)
      (op_of cancel_requested) refl refl

recover-over_example :
    ((id : String) (o : Operation)
      → lookup id (recover setup true 9 (manager_with running)).0.operations ≡ some o
      → terminal o.status ≡ true)
    × ((recover setup true 9 (manager_with running)).0.targets ≡ [])
unfolding recover lookup save_noted save_operation append_event append_one_event terminal
recover-over_example = recover-over setup true 9 (manager_with running) ("a1" ∷ []) refl

abbrev mapped : Setup
mapped = record setup {
  resolver_by_id = some (λ i. some (record box { name = "crate" }));
  resolver = some (λ name. err not_found);
}

abbrev deploy_command : Command
deploy_command = record { args = "deploy" ∷ "box" ∷ []; timeout = 60; secrets = []; stdin = "" }

mapped-Named :
    (f : String → Option Server) (now : Server)
    → mapped.resolver_by_id ≡ some f
    → f box.id ≡ some now
    → (now.name == "--server") ≡ false
mapped-Named f now e g =
    let one : some (λ i. some (record box { name = "crate" })) ≡ some f = e in
    let same : (λ i. some (record box { name = "crate" })) ≡ f = cc in
    let found : some (record box { name = "crate" }) ≡ some now = ap (λ h. h box.id) same ∙ g in
    let it : record box { name = "crate" } ≡ now = cc in
    ap (λ (x : Server). x.name == "--server") (sym it)

check_target-Bound_example :
    Bound box "box" deploy_command
      (err not_found)
      mapped.resolver_by_id
      (record deploy_command { args = "deploy" ∷ "crate" ∷ [] })
unfolding check_target same_host user_of retarget_command
check_target-Bound_example =
    check_target-Bound mapped (op_of queued) deploy_command box (λ name. err not_found) refl refl
      refl refl mapped-Named refl

abbrev event_at : ℕ → Event
event_at n = record {
  sequence = n;
  operation_id = "a1";
  type = stdout;
  payload = "x";
  created_at = n;
}

retained_suffix-newest_example :
    Retained (λ e. 100) (event_at 1 ∷ event_at 2 ∷ event_at 3 ∷ []) 2 150 (event_at 3 ∷ [])
unfolding retained_suffix window total_size
retained_suffix-newest_example =
    retained_suffix-newest (λ e. 100) (event_at 1 ∷ event_at 2 ∷ event_at 3 ∷ []) 2 (pos 150)

abbrev install : List (String × String) → Request
install vars = record request { kind = template_install; template = "ghost"; vars = vars }

abbrev vars_1 : List (String × String)
vars_1 = ("DB", "one") ∷ []

abbrev vars_2 : List (String × String)
vars_2 = ("DB", "two") ∷ []

abbrev installed : String → Built
installed secret = record {
  command = record {
    args =
        "template" ∷ "install" ∷ "ghost" ∷ "--domain" ∷ "shop.example" ∷ "--server" ∷ "box"
        ∷ "--var-stdin" ∷ [];
    timeout = kind_timeout template_install;
    secrets = secret ∷ [];
    stdin = "{}";
  };
  server = box;
  target = "server:box/template:ghost";
}

install_1 : build_template_install env true (install vars_1) (some find_box) ≡ ok (installed "one")
unfolding build_template_install resolve_request valid_identifier with_home keys valid_var_name
    sort_strings value_of join
install_1 = refl

install_2 : build_template_install env true (install vars_2) (some find_box) ≡ ok (installed "two")
unfolding build_template_install resolve_request valid_identifier with_home keys valid_var_name
    sort_strings value_of join
install_2 = refl

args_secret_free_example : (installed "one").command.args ≡ (installed "two").command.args
unfolding keys
args_secret_free_example =
    args_secret_free env true (install vars_1) vars_2 (some find_box) {t = installed "one"}
      {t' = installed "two"} refl refl install_1 install_2

abbrev audit : Request
audit = record request { kind = server_audit }

build-valid_example : (valid_identifier "box" ≡ true) × (supported_kind server_audit ≡ true)
unfolding build build_server_audit resolve_request valid_identifier join
build-valid_example =
    build-valid env audit (some find_box)
      {t = record {
        command = record {
          args = "server" ∷ "audit" ∷ "box" ∷ "--json" ∷ [];
          timeout = execution_timeout audit;
          secrets = [];
          stdin = "";
        };
        server = box;
        target = "server:box";
      }}
      refl
