-- ===== src/Operation/Admission.antt =====
-- internal/operation/manager.go: Enqueue. The call holds the lock twice, before and after Build,
-- and other calls may run in between: `begin_enqueue` and `admit` are the two parts.
pub mod Budget
pub mod Keys
pub mod Replay
pub mod Durable
use teploy_dash.Common.{
  ℕ, zero, suc, ◌+◌, String, Bool, true, false, not, ◌&&◌, ◌||◌, Option, none, some, List, [], ◌∷◌,
  ◌++◌, if◌then◌else◌, ltb, leb, eqb, ℤ, is_positive, pos_part, ◌==◌, string_eq, join, lookup,
  insert, remove, tally, byte_length, codes,
}
use teploy_dash.Operation.Types.{
  deploy, Kind, Status, queued, terminal, Event, status, Operation, Request, Server, Command, Actor,
  Metadata, Error, idempotency_conflict, read_only, admission_budget, global_admission_budget,
  principal_admission_budget, shutting_down, message, Result, ok, err, IdemKey, idem_key_eq,
  idempotency_scope, next_u64,
}
use teploy_dash.Operation.Build.{Built}
use teploy_dash.Operation.Build.Rules.{every}
use teploy_dash.Operation.Template.{build, redacted_request}
use teploy_dash.Operation.Manager.{
  Setup, Manager, Job, TargetRunner, Store, append_event_line, save_operation, discard_journal,
  note_record_err, note_event_err, status_name,
}

-- idempotencyLive. Times lie within the 292 years of a `time.Duration` of one another.
unfoldable pub idempotency_live : ℤ → ℕ → ℕ → Bool
idempotency_live window created now =
    if is_positive window then leb now (created + pos_part window) else true

forget_key : IdemKey → Manager → Manager
forget_key k m = record m { idempotency = remove k m.idempotency }

matched :
    Setup → IdemKey → String → ℕ → Manager → Option Operation → Manager × Result (Option Operation)
unfolding forget_key
matched c k hash now m none = (forget_key k m, ok none)
matched c k hash now m (some existing) =
    if not (idempotency_live c.idempotency_window existing.created_at now)
    then (forget_key k m, ok none)
    else if not (existing.request_hash == hash)
    then (m, err idempotency_conflict)
    else (m, ok (some existing))

found_id :
    Setup → IdemKey → String → ℕ → Manager → Option String → Manager × Result (Option Operation)
unfolding matched
found_id c k hash now m none = (m, ok none)
found_id c k hash now m (some id) = matched c k hash now m (lookup id m.operations)

-- lookupReplayLocked: `ok none` where there is nothing to replay.
unfoldable pub lookup_replay :
    Setup → IdemKey → String → ℕ → Manager → Manager × Result (Option Operation)
unfolding found_id
lookup_replay c k hash now m =
    if k.key == "" then (m, ok none) else found_id c k hash now m (lookup k m.idempotency)

-- `strings.ContainsAny(key, "\r\n")`
abbrev has_line_break : String → Bool
has_line_break key = not (every (λ x. not (eqb x 13 || eqb x 10)) (codes key))

abbrev is_deploy : Kind → Bool
is_deploy deploy = true
is_deploy _ = false

unfoldable pub with_mode : Request → Request
with_mode req = if is_deploy req.kind && req.mode == "" then record req { mode = "ad-hoc" } else req

-- What the first part of Enqueue hands to the second.
pub record Prepared : Type 0 where
  pub request : Request
  pub hash : String
  pub built : Built

-- How an Enqueue, or a part of it, ends. `fresh` is an operation that this call admitted.
pub data Admitted : Type 0 where
  refused : Error → Admitted
  replayed fresh : Operation → Admitted

pub data Begun : Type 0 where
  done : Admitted → Begun
  go_on : Prepared → Begun

render : Setup → Request → String → Result Built → Begun
render c req hash (err e) = done (refused e)
render c req hash (ok b) = go_on (record { request = req; hash = hash; built = b })

begin_replay : Setup → Request → String → Manager × Result (Option Operation) → Manager × Begun
unfolding render
begin_replay c req hash (m, err e) = (m, done (refused e))
begin_replay c req hash (m, ok (some op)) = (m, done (replayed op))
begin_replay c req hash (m, ok none) = (m, render c req hash (build c.env req c.resolver))

begin_hashed : Setup → Request → IdemKey → ℕ → Manager → Result String → Manager × Begun
unfolding begin_replay
begin_hashed c req k now m (err e) = (m, done (refused e))
begin_hashed c req k now m (ok hash) =
    if m.admission_closed
    then (m, done (refused shutting_down))
    else begin_replay c req hash (lookup_replay c k hash now m)

unfoldable pub begin_enqueue :
    Setup → Request → String → Option Actor → ℕ → Manager → Manager × Begun
unfolding begin_hashed
begin_enqueue c req key actor now m =
    if not (m.read_only_reason == "")
    then (m, done (refused read_only))
    else if ltb 255 (byte_length key) || has_line_break key
    then (m, done (refused (message "invalid idempotency key")))
    else begin_hashed c (with_mode req) (record { principal = idempotency_scope actor; key = key })
        now m (c.hash (with_mode req))

abbrev pub is_live : Operation → Bool
is_live o = not (terminal o.status)

abbrev pub is_live_on : String → Operation → Bool
is_live_on target o = o.target == target && not (terminal o.status)

abbrev pub is_live_of : String → Operation → Bool
is_live_of scope o = not (terminal o.status) && idempotency_scope o.actor == scope

-- `limit > 0 && count >= limit`
abbrev pub reached : ℤ → ℕ → Bool
reached limit count = is_positive limit && leb (pos_part limit) count

-- The three admission budgets, in the order of the code.
unfoldable pub over_budget : Setup → String → String → List (String × Operation) → Option Error
over_budget c target scope operations =
    if reached c.max_queued_per_target (tally (is_live_on target) operations)
    then some admission_budget
    else if reached c.max_live (tally is_live operations)
    then some global_admission_budget
    else if not (scope == "")
        && reached c.max_live_per_principal (tally (is_live_of scope) operations)
    then some principal_admission_budget
    else none

runner_for : Option TargetRunner → TargetRunner
runner_for none = record { queue = []; busy = false }
runner_for (some r) = r

-- admitToTarget; an idle runner's worker is started, which makes the runner busy.
unfoldable pub admit_to_target : String → Job → Manager → Manager
unfolding runner_for
admit_to_target target j m =
    let r = runner_for (lookup target m.targets) in
    record m {
      targets = insert target (record { queue = r.queue ++ j ∷ []; busy = true }) m.targets;
    }

-- What of one call of Enqueue does not depend on the state.
pub record Call : Type 0 where
  pub key : String
  pub retry_of : String
  pub attempt : ℕ
  pub actor : Option Actor
  -- crypto/rand's answer
  pub new_id : Result String
  -- the clock at the second replay check and at the creation
  pub now : ℕ
  pub created : ℕ

has_any : List String → Bool
has_any [] = false
has_any (x ∷ xs) = true

unfoldable pub new_operation : Call → Prepared → String → ℕ → Operation
unfolding has_any
new_operation call p id seq = record {
  id = id;
  request = redacted_request p.request;
  metadata = record { mode = p.request.mode };
  target = p.built.target;
  status = queued;
  idempotency_key = call.key;
  idempotency_principal = idempotency_scope call.actor;
  retry_of = call.retry_of;
  attempt = call.attempt;
  exit_code = none;
  error = "";
  created_at = call.created;
  started_at = none;
  finished_at = none;
  has_secrets = has_any p.built.command.secrets;
  admitted_server = some p.built.server;
  admission_seq = seq;
  actor = call.actor;
  reconciliation = none;
  request_hash = p.hash;
}

initial_event : Call → String → Event
initial_event call id = record {
  sequence = 1;
  operation_id = id;
  type = status;
  payload = status_name queued;
  created_at = call.created;
}

-- The publication in memory, after the record is on disk.
publish : Call → Operation → Command → Manager → Manager
unfolding initial_event
publish call op command m =
    admit_to_target op.target (record { id = op.id; command = command })
      (record m {
        operations = insert op.id op m.operations;
        events = insert op.id (initial_event call op.id ∷ []) m.events;
        idempotency =
            if call.key == ""
            then m.idempotency
            else insert (record { principal = op.idempotency_principal; key = call.key }) op.id
                m.idempotency;
        cancels = insert op.id tt m.cancels;
      })

saved : Call → Operation → Command → Manager → Option String × Store → Manager × Admitted
unfolding publish
saved call op command m (none, s) = (publish call op command (record m { store = s }), fresh op)
saved call op command m (some e, s) = (
  record (note_record_err e call.created m) { store = discard_journal op.id s },
  refused (message (join ("persist operation record: " ∷ e ∷ []))),
)

journaled : Call → Operation → Command → Manager → Option String × Store → Manager × Admitted
unfolding saved
journaled call op command m (some e, s) = (
  record (note_event_err e call.created m) { store = s },
  refused (message (join ("persist initial event: " ∷ e ∷ []))),
)
journaled call op command m (none, s) = saved call op command m (save_operation op s)

commit : Setup → Call → Prepared → Manager → Result String → Manager × Admitted
unfolding journaled
commit c call p m (err e) = (m, refused e)
commit c call p m (ok id) =
    let seq = next_u64 m.admission_seq in
    let m' = record m { admission_seq = seq } in
    journaled call (new_operation call p id seq) p.built.command m'
      (append_event_line c id (initial_event call id) m'.store)

admit_budgeted : Setup → Call → Prepared → Manager → Option Error → Manager × Admitted
unfolding commit
admit_budgeted c call p m (some e) = (m, refused e)
admit_budgeted c call p m none = commit c call p m call.new_id

admit_replay : Setup → Call → Prepared → Manager × Result (Option Operation) → Manager × Admitted
unfolding admit_budgeted
admit_replay c call p (m, err e) = (m, refused e)
admit_replay c call p (m, ok (some op)) = (m, replayed op)
admit_replay c call p (m, ok none) =
    admit_budgeted c call p m
      (over_budget c p.built.target (idempotency_scope call.actor) m.operations)

-- The second part of Enqueue.
unfoldable pub admit : Setup → Call → Prepared → Manager → Manager × Admitted
unfolding admit_replay
admit c call p m =
    if m.admission_closed
    then (m, refused shutting_down)
    else admit_replay c call p (
        lookup_replay c (record { principal = idempotency_scope call.actor; key = call.key }) p.hash
          call.now m)

resume : Setup → Call → Manager × Begun → Manager × Admitted
resume c call (m, done a) = (m, a)
resume c call (m, go_on p) = admit c call p m

-- enqueue, with no other call between its parts; `now` is the clock at the first replay check.
unfoldable pub enqueue : Setup → Call → Request → ℕ → Manager → Manager × Admitted
unfolding resume
enqueue c call req now m = resume c call (begin_enqueue c req call.key call.actor now m)
