-- ===== src/Examples.antt =====
-- Concrete values, and below this module the runs at which the results apply.
mod Service
mod Outbox
mod Access
mod Alerts
mod Buckets
use teploy_dash.Common.{
  ℕ, String, true, false, none, some, List, [], ◌∷◌, ◌≡◌, refl, pos, lookup, All, arith, tally,
  string_eq, join, keys,
}
use teploy_dash.Operation.Types.{
  deploy, template_install, server_audit, Request, Server, Operation, Status, queued, running,
  cancel_requested, already_committed, Event, stdout, not_found, Result, ok, err, Receipt, Command,
  terminal, supported_kind, idempotency_scope, IdemKey, idem_key_eq, idem_eq,
}
use teploy_dash.Operation.Build.{
  Env, Built, kind_timeout, execution_timeout, build_server_audit, resolve_request, with_home,
  sort_strings, value_of,
}
use teploy_dash.Operation.Manager.{
  Setup, Manager, append_event, append_one_event, append_event_line, events_of, save_noted,
  save_operation,
}
use teploy_dash.Operation.Admission.{
  Call, Prepared, fresh, admit, lookup_replay, over_budget, new_operation, idempotency_live,
}
use teploy_dash.Operation.Lifecycle.{cancel, resolve_cancellation}
use teploy_dash.Operation.Lifecycle.Cancellation.{
  IsRequested, cancel-IsRequested, Landed, resolve_cancellation_honest,
}
use teploy_dash.Operation.Admission.Durable.{IsPublished, admit-IsPublished, admit_refused_keeps}
use teploy_dash.Operation.Admission.Replay.{lookup_replay-own}
use teploy_dash.Operation.Run.{Action, starts, finishes, cancels, success, run}
use teploy_dash.Operation.Run.History.{Later, run-Later}
use teploy_dash.Operation.Run.Budgets.{IsBudgeted, run-IsBudgeted}
use teploy_dash.Operation.Template.{build, build_template_install, redacted_request}
use teploy_dash.Operation.Template.Secrets.{args_secret_free, build-valid}
use teploy_dash.Operation.Recovery.{recover}
use teploy_dash.Operation.Recovery.NoReplay.{recover-over}
use teploy_dash.Operation.Target.{check_target, same_host, user_of, retarget_command}
use teploy_dash.Operation.Target.Identity.{Bound, check_target-Bound}
use teploy_dash.Operation.Journal.{retained_suffix, window, total_size}
use teploy_dash.Operation.Journal.Retained.{Retained, retained_suffix-newest}
use teploy_dash.Operation.Build.Rules.{valid_identifier, valid_var_name}
use teploy_dash.Incident.{Rule, Incident, Tracker, Turn}
use teploy_dash.Incident.Observe.{observe}
use teploy_dash.Incident.Observe.Answered.{Told}
use teploy_dash.Incident.Observe.Limit.{Opens, observe-Opens}
use teploy_dash.Incident.Run.{Call as TrackerCall, observes, act, play, play-Told}

abbrev box : Server
box = record { name = "box"; id = "srv-1"; host = "10.0.0.1"; user = "" }

abbrev env : Env
env = record {
  itoa = λ n. "n";
  quote = λ s. s;
  marshal_vars = λ v. ok "{}";
  var_stdin_support = ok true;
  legacy_secret_argv_allowed = false;
}

abbrev find_box : String → Result Server
find_box name = ok box

abbrev setup : Setup
setup = record {
  max_events = 1000;
  max_journal_bytes = 1000000;
  max_history_age = pos 0;
  max_operations = pos 0;
  max_queued_per_target = pos 50;
  max_live = pos 100;
  max_live_per_principal = pos 10;
  idempotency_window = pos 1000;
  env = env;
  resolver = some find_box;
  resolver_by_id = none;
  hash = λ r. ok r.app;
  size = λ e. 100;
  valid_utf8 = λ s. s;
  count_text = λ n. "some";
}

abbrev request : Request
request = record {
  kind = deploy;
  server = "box";
  app = "shop";
  mode = "ad-hoc";
  image = "shop:1";
  domain = "shop.example";
  port = pos 80;
  template = "";
  home = "";
  template_version = "";
  vars = [];
  action = "";
  purge = false;
  redirect = "";
  to = "";
  accessory = "";
  backup_id = "";
  database = "";
  no_backup = false;
  keep = pos 0;
}

abbrev empty_manager : Manager
empty_manager = record {
  store = record { records = []; journals = []; faults = [] };
  operations = [];
  events = [];
  idempotency = [];
  cancels = [];
  canceled_contexts = [];
  targets = [];
  admission_seq = 0;
  shutting_down = false;
  admission_closed = false;
  record_err = "";
  record_err_at = 0;
  event_err = "";
  event_err_at = 0;
  dropped_events = [];
  last_sweep = 0;
  read_only_reason = "";
}

abbrev op_of : Status → Operation
op_of s = record {
  id = "a1";
  request = request;
  metadata = record { mode = "ad-hoc" };
  target = "box/shop";
  status = s;
  idempotency_key = "k1";
  idempotency_principal = "local:no-auth";
  retry_of = "";
  attempt = 1;
  exit_code = none;
  error = "";
  created_at = 5;
  started_at = none;
  finished_at = none;
  has_secrets = false;
  admitted_server = some box;
  admission_seq = 1;
  actor = none;
  reconciliation = none;
  request_hash = "shop";
}

abbrev manager_with : Status → Manager
manager_with s = record empty_manager { operations = ("a1", op_of s) ∷ [] }

abbrev call : Call
call = record {
  key = "k1";
  retry_of = "";
  attempt = 1;
  actor = none;
  new_id = ok "a1";
  now = 5;
  created = 5;
}

abbrev prepared : Prepared
prepared = record {
  request = request;
  hash = "shop";
  built = record {
    command = record { args = "deploy" ∷ "shop" ∷ []; timeout = 60; secrets = []; stdin = "" };
    server = box;
    target = "box/shop";
  };
}
