-- ===== src/Outbox/Send.antt =====
-- internal/outbox/outbox.go: Send and RecordSuppressed.
pub mod Superseded
pub mod Durable
use teploy_dash.Common.{
  ℕ, String, Bool, true, false, not, ◌&&◌, ◌||◌, Option, none, some, List, [], ◌∷◌, ◌++◌,
  if◌then◌else◌, ◌==◌, string_eq, lookup, insert,
}
use teploy_dash.Alert.{Alert, AlertKind, opened, repeated, recovered}
use teploy_dash.Alert.Channels.{Config, channels_for}
use teploy_dash.Outbox.{
  Record, Outbox, Options, Status, pending, suppressed, superseded, is_pending,
}
use teploy_dash.Outbox.Journal.{persist, persist_all}

-- ConfigFn's answer
pub data Source : Type 0 where
  unreadable : String → Source
  readable : Config → Source

is_nil : List String → Bool
is_nil [] = true
is_nil (x ∷ xs) = false

-- `cfgErr == nil && len(alert.ChannelsFor(cfg, ev)) == 0`
unfoldable pub has_no_channel : Source → Alert → Bool
unfolding is_nil
has_no_channel (unreadable why) e = false
has_no_channel (readable c) e = is_nil (channels_for c e)

pub new_record : String → Alert → Status → ℕ → ℕ → String → Record
new_record id e status next now note = record {
  id = id;
  event = e;
  status = status;
  attempts = 0;
  next_attempt_at = next;
  last_error = "";
  last_attempt_at = 0;
  created_at = now;
  channels = [];
  note = note;
}

abbrev pub is_recovery : AlertKind → Bool
is_recovery recovered = true
is_recovery _ = false

abbrev pub opens : AlertKind → Bool
opens opened = true
opens repeated = true
opens _ = false

-- The records that a recovery of the incident puts out of date.
unfoldable pub is_overtaken : String → String → Record → Bool
is_overtaken id incident r =
    not (r.id == id) && is_pending r.status && r.event.incident_id == incident && opens r.event.kind

pub overtaken : Record → Record
overtaken r = record r {
  status = superseded;
  next_attempt_at = 0;
  note = "superseded: the incident recovered before this alert was delivered";
}

-- The loop over the records, and the snapshots that it takes.
pub supersede : String → String → List (String × Record) → List (String × Record) × List Record
unfolding overtaken
supersede id incident [] = ([], [])
supersede id incident ((key, r) ∷ rest) =
    let (rest', taken) = supersede id incident rest in
    if is_overtaken id incident r
    then ((key, overtaken r) ∷ rest', overtaken r ∷ taken)
    else ((key, r) ∷ rest', taken)

-- The records after a Send, and what is to be written: the new record comes last.
unfoldable pub enqueued : String → Alert → ℕ → Outbox → Outbox × List Record
unfolding new_record supersede
enqueued id e now b =
    let r = new_record id e pending now now "" in
    let records = insert id r b.records in
    let (records', taken) =
      if is_recovery e.kind && not (e.incident_id == "")
      then supersede id e.incident_id records
      else (records, []) in
    (record b { records = records'; order = b.order ++ id ∷ [] }, taken ++ r ∷ [])

unfoldable pub send_new : Options → String → Alert → ℕ → Outbox → Option Record → Outbox
send_new o id e now b (some old) = b
send_new o id e now b none = let (b', owed) = enqueued id e now b in persist_all o owed b'

-- Send, under its delivery identifier
unfoldable pub send : Options → Source → String → Alert → ℕ → Outbox → Outbox
unfolding send_new
send o config id e now b =
    if has_no_channel config e then b else send_new o id e now b (lookup id b.records)

unfoldable pub suppress_new :
    Options → String → Alert → String → ℕ → Outbox → Option Record → Outbox
unfolding new_record
suppress_new o id e note now b (some old) = b
suppress_new o id e note now b none =
    let r = new_record id e suppressed 0 now note in
    persist_all o (r ∷ [])
      (record b { records = insert id r b.records; order = b.order ++ id ∷ [] })

-- RecordSuppressed
unfoldable pub record_suppressed : Options → String → Alert → String → ℕ → Outbox → Outbox
unfolding suppress_new
record_suppressed o id e note now b = suppress_new o id e note now b (lookup id b.records)
