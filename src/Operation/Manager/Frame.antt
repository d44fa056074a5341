-- ===== src/Operation/Manager/Frame.antt =====
-- What the writes of internal/operation/manager.go leave alone.
use teploy_dash.Common.{
  ℕ, String, Option, none, some, List, ◌≡◌, arith, lookup, lookup-insert_self, ltb, ◌∙◌, remove,
  Bool, true, false, if◌then◌else◌, string_eq,
}
use teploy_dash.Operation.Types.{Event, EventType, gap, Operation}
use teploy_dash.Operation.Manager.{
  Setup, Manager, Store, append_event_line, append_one_event, append_event, save_operation,
  save_noted, appended, after_marker, next_event, dropped_count,
}

-- The two managers agree on all but the event lists, the journals and the notes of failures.
pub record SameCore (m m' : Manager) : Type 0 where
  pub operations : m'.operations ≡ m.operations
  pub idempotency : m'.idempotency ≡ m.idempotency
  pub cancels : m'.cancels ≡ m.cancels
  pub contexts : m'.canceled_contexts ≡ m.canceled_contexts
  pub targets : m'.targets ≡ m.targets
  pub admission_seq : m'.admission_seq ≡ m.admission_seq
  pub admission_closed : m'.admission_closed ≡ m.admission_closed
  pub shutting_down : m'.shutting_down ≡ m.shutting_down
  pub read_only_reason : m'.read_only_reason ≡ m.read_only_reason
  pub records : m'.store.records ≡ m.store.records

stored :
    (s : Store) (m : Manager) → s.records ≡ m.store.records → SameCore m (record m { store = s })
stored s m h = ground arith

unlisted : (d : List (String × ℕ)) (m : Manager) → SameCore m (record m { dropped_events = d })
unlisted d m = ground arith

if-SameCore :
    {m : Manager} (b : Bool) (p q : Option String × Manager)
    → SameCore m p.1
    → SameCore m q.1
    → SameCore m (if b then p else q).1
if-SameCore true p q hp hq = hp
if-SameCore false p q hp hq = hq

SameCore-trans : {a b d : Manager} → SameCore a b → SameCore b d → SameCore a d
SameCore-trans h k = record {
  operations = k.operations ∙ h.operations;
  idempotency = k.idempotency ∙ h.idempotency;
  cancels = k.cancels ∙ h.cancels;
  contexts = k.contexts ∙ h.contexts;
  targets = k.targets ∙ h.targets;
  admission_seq = k.admission_seq ∙ h.admission_seq;
  admission_closed = k.admission_closed ∙ h.admission_closed;
  shutting_down = k.shutting_down ∙ h.shutting_down;
  read_only_reason = k.read_only_reason ∙ h.read_only_reason;
  records = k.records ∙ h.records;
}

module _ (c : Setup) where
  pub records-append_event_line :
      (id : String) (e : Event) (s : Store) → (append_event_line c id e s).1.records ≡ s.records
  unfolding append_event_line
  records-append_event_line id e s = ground arith

  appended-SameCore :
      (id : String) (e : Event) (now : ℕ) (r : Option String) (m : Manager)
      → SameCore m (appended c id e now r m).1
  unfolding appended
  appended-SameCore id e now none m = ground arith
  appended-SameCore id e now (some x) m = ground arith

  append_one_event-SameCore :
      (id : String) (t : EventType) (text : String) (now : ℕ) (m : Manager)
      → SameCore m (append_one_event c id t text now m).1
  append_one_event-SameCore id t text now m =
      unfold append_one_event in
      SameCore-trans
        {b = record m { store = (append_event_line c id (next_event c id t text now m) m.store).1 }}
        (stored _ m (records-append_event_line id _ m.store)) (appended-SameCore id _ now _ _)

  after_marker-SameCore :
      (id : String) (t : EventType) (text : String) (now d : ℕ) (r : Option String) (m : Manager)
      → SameCore m (after_marker c id t text now d (r, m)).1
  unfolding after_marker
  after_marker-SameCore id t text now d none m = append_one_event-SameCore id t text now m
  after_marker-SameCore id t text now d (some x) m = ground arith

  pub append_event-SameCore :
      (id : String) (t : EventType) (text : String) (now : ℕ) (m : Manager)
      → SameCore m (append_event c id t text now m).1
  unfolding append_event
  append_event-SameCore id t text now m =
      if-SameCore (ltb 0 (dropped_count id m.dropped_events)) _ _
        (SameCore-trans (unlisted (remove id m.dropped_events) m) (
          SameCore-trans (append_one_event-SameCore id gap _ now _)
            (after_marker-SameCore id t text now (dropped_count id m.dropped_events) _ _)))
        (append_one_event-SameCore id t text now m)

-- A record's write changes the records on disk, the remaining faults and the notes.
pub record SameMemory (m m' : Manager) : Type 0 where
  pub operations : m'.operations ≡ m.operations
  pub events : m'.events ≡ m.events
  pub idempotency : m'.idempotency ≡ m.idempotency
  pub cancels : m'.cancels ≡ m.cancels
  pub contexts : m'.canceled_contexts ≡ m.canceled_contexts
  pub targets : m'.targets ≡ m.targets
  pub admission_seq : m'.admission_seq ≡ m.admission_seq
  pub admission_closed : m'.admission_closed ≡ m.admission_closed
  pub shutting_down : m'.shutting_down ≡ m.shutting_down
  pub read_only_reason : m'.read_only_reason ≡ m.read_only_reason
  pub dropped_events : m'.dropped_events ≡ m.dropped_events

pub save_noted-SameMemory :
    (op : Operation) (now : ℕ) (m : Manager) → SameMemory m (save_noted op now m).1
unfolding save_noted
save_noted-SameMemory op now m = ground arith

-- A write that is reported as done has put the record on disk.
pub records-save_noted :
    (op : Operation) (now : ℕ) (m : Manager)
    → (save_noted op now m).0 ≡ none
    → lookup op.id (save_noted op now m).1.store.records ≡ some op
unfolding save_noted save_operation
records-save_noted op now m h = ground (arith, lookup-insert_self op.id op m.store.records)
