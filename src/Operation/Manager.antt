-- ===== src/Operation/Manager.antt =====
-- The state of internal/operation/manager.go and how it is written to disk.
--
-- The disk is the environment: each write takes its outcome from the list `faults`, and succeeds
-- when the list is used up. `visible` is a write that is reported as failed although its result is
-- there (atomicWrite's rename went through and the sync of the directory failed).
-- Subscribers, file handles and the worker goroutines' wait groups are left out.
pub mod Frame
use teploy_dash.Common.{
  ℕ, zero, suc, ◌+◌, ◌-◌, ◌*◌, ◌/◌, String, Bool, true, false, not, ◌&&◌, ◌||◌, Option, none, some,
  List, [], ◌∷◌, ◌++◌, if◌then◌else◌, ltb, leb, length, ℤ, pos, sub_int, is_positive, pos_part,
  ◌==◌, string_eq, join, lookup, insert, remove,
}
use teploy_dash.Operation.Types.{
  Status, queued, running, cancel_requested, stopping, succeeded, failed, canceled,
  already_committed, interrupted, Event, EventType, status, stdout, stderr, gap, Operation, Request,
  Server, Command, Receipt, Result, IdemKey,
}
use teploy_dash.Operation.Build.{Env, Resolver}
use teploy_dash.Operation.Journal.{
  bounded_event_data, following_sequence, window, total_size, retained_suffix,
}

pub data Write : Type 0 where
  wrote : Write
  lost visible : String → Write

pub record Store : Type 0 where
  pub records : List (String × Operation)
  pub journals : List (String × List Event)
  pub faults : List Write

-- The options after New has put in the defaults, and what the code takes from elsewhere.
pub record Setup : Type 0 where
  pub max_events : ℕ
  pub max_journal_bytes : ℕ
  pub max_history_age : ℤ
  pub max_operations : ℤ
  pub max_queued_per_target : ℤ
  pub max_live : ℤ
  pub max_live_per_principal : ℤ
  pub idempotency_window : ℤ
  pub env : Env
  pub resolver : Resolver
  pub resolver_by_id : Option (String → Option Server)
  pub hash : Request → Result String
  pub size : Event → ℕ
  pub valid_utf8 : String → String
  pub count_text : ℕ → String

pub record Job : Type 0 where
  pub id : String
  pub command : Command

pub record TargetRunner : Type 0 where
  pub queue : List Job
  pub busy : Bool

pub record Manager : Type 0 where
  pub store : Store
  pub operations : List (String × Operation)
  pub events : List (String × List Event)
  pub idempotency : List (IdemKey × String)
  pub cancels : List (String × Unit {0})
  pub canceled_contexts : List String
  pub targets : List (String × TargetRunner)
  pub admission_seq : ℕ
  pub shutting_down : Bool
  pub admission_closed : Bool
  pub record_err : String
  pub record_err_at : ℕ
  pub event_err : String
  pub event_err_at : ℕ
  pub dropped_events : List (String × ℕ)
  pub last_sweep : ℕ
  pub read_only_reason : String

unfoldable pub status_name : Status → String
status_name queued = "queued"
status_name running = "running"
status_name cancel_requested = "cancel_requested"
status_name stopping = "stopping"
status_name succeeded = "succeeded"
status_name failed = "failed"
status_name canceled = "canceled"
status_name already_committed = "already_committed"
status_name interrupted = "interrupted"

-- The outcome of a write that would leave `after` in place of `before`.
settle {ℓ} : {A : Type ℓ} → Write → A → A → Option String × A
settle wrote before after = (none, after)
settle (lost e) before after = (some e, before)
settle (visible e) before after = (some e, after)

next_fault : List Write → Write
next_fault [] = wrote
next_fault (w ∷ ws) = w

later_faults : List Write → List Write
later_faults [] = []
later_faults (w ∷ ws) = ws

-- saveOperation
unfoldable pub save_operation : Operation → Store → Option String × Store
unfolding settle next_fault later_faults
save_operation op s =
    let (e, records) = settle (next_fault s.faults) s.records (insert op.id op s.records) in
    (e, record s { records = records; faults = later_faults s.faults })

unfoldable pub events_of : String → List (String × List Event) → List Event
events_of id m = elim (lookup id m) [ none ↦ [] | some es ↦ es ]

set_journal : String → List Event → Store → Option String × Store
unfolding settle next_fault later_faults
set_journal id es s =
    let (e, journals) = settle (next_fault s.faults) s.journals (insert id es s.journals) in
    (e, record s { journals = journals; faults = later_faults s.faults })

-- discardJournal
unfoldable pub discard_journal : String → Store → Store
discard_journal id s = record s { journals = remove id s.journals }

module _ (c : Setup) where
  -- compactLocked, of a journal without damage
  compact : String → Event → Store → Option String × Store
  unfolding set_journal
  compact id incoming s =
      let budget = sub_int (c.max_journal_bytes * 3 / 4) (c.size incoming) in
      set_journal id (retained_suffix c.size (events_of id s.journals) c.max_events budget) s

  append_line : String → Event → Option String × Store → Option String × Store
  unfolding set_journal
  append_line id event (some e, s) = (some e, s)
  append_line id event (none, s) = set_journal id (events_of id s.journals ++ event ∷ []) s

  -- appendEvent
  unfoldable pub append_event_line : String → Event → Store → Option String × Store
  unfolding compact append_line
  append_event_line id event s = append_line id event (
      if ltb c.max_journal_bytes (total_size c.size (events_of id s.journals) + c.size event)
      then compact id event s
      else (none, s))

abbrev pub note_record_err : String → ℕ → Manager → Manager
note_record_err e now m = record m { record_err = e; record_err_at = now }

abbrev pub clear_record_err : Manager → Manager
clear_record_err m = record m { record_err = ""; record_err_at = 0 }

abbrev pub note_event_err : String → ℕ → Manager → Manager
note_event_err e now m = record m { event_err = e; event_err_at = now }

abbrev pub clear_event_err : Manager → Manager
clear_event_err m = record m { event_err = ""; event_err_at = 0 }

-- saveOperation with the note that every caller makes of its result.
noted_save : Option String → ℕ → Manager → Manager
noted_save none now m = clear_record_err m
noted_save (some e) now m = note_record_err e now m

unfoldable pub save_noted : Operation → ℕ → Manager → Option String × Manager
unfolding noted_save
save_noted op now m =
    let (e, s) = save_operation op m.store in (e, noted_save e now (record m { store = s }))

unfoldable pub dropped_count : String → List (String × ℕ) → ℕ
dropped_count id m = elim (lookup id m) [ none ↦ 0 | some n ↦ n ]

is_gap : EventType → Bool
is_gap gap = true
is_gap _ = false

module _ (c : Setup) where
  -- The two ends of appendOneEventLocked.
  appended : String → Event → ℕ → Option String → Manager → Option String × Manager
  unfolding is_gap
  appended id event now none m = (
    none,
    record (clear_event_err m) {
      events = insert id (window c.max_events (events_of id m.events ++ event ∷ [])) m.events;
    },
  )
  appended id event now (some e) m = (
    some e,
    record (note_event_err e now m) {
      dropped_events =
          if is_gap event.type
          then m.dropped_events
          else insert id (dropped_count id m.dropped_events + 1) m.dropped_events;
    },
  )

  next_event : String → EventType → String → ℕ → Manager → Event
  next_event id type text now m = record {
    sequence = following_sequence (events_of id m.events);
    operation_id = id;
    type = type;
    payload = bounded_event_data c.valid_utf8 text;
    created_at = now;
  }

  unfoldable pub append_one_event :
      String → EventType → String → ℕ → Manager → Option String × Manager
  unfolding appended next_event
  append_one_event id type text now m =
      let event = next_event id type text now m in
      let (e, s) = append_event_line c id event m.store in
      appended id event now e (record m { store = s })

  after_marker :
      String → EventType → String → ℕ → ℕ → Option String × Manager → Option String × Manager
  unfolding is_gap
  after_marker id type text now debt (none, m) = append_one_event id type text now m
  after_marker id type text now debt (some e, m) = (
    some e,
    record m {
      dropped_events = insert id (if is_gap type then debt else debt + 1) m.dropped_events;
    },
  )

  -- appendEventLocked
  unfoldable pub append_event : String → EventType → String → ℕ → Manager → Option String × Manager
  unfolding after_marker
  append_event id type text now m =
      let debt = dropped_count id m.dropped_events in
      if ltb 0 debt
      then after_marker id type text now debt (
          append_one_event id gap
            (join (c.count_text debt ∷ " event(s) were lost during a storage failure" ∷ [])) now
            (record m { dropped_events = remove id m.dropped_events }))
      else append_one_event id type text now m
