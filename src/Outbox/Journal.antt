-- ===== src/Outbox/Journal.antt =====
-- internal/outbox/outbox.go: persistLocked, compactLocked and load.
pub mod Compact
pub mod Restart
pub mod Edit
use teploy_dash.Common.{
  ℕ, zero, ◌+◌, ◌-◌, String, Bool, true, false, not, ◌&&◌, Option, none, some, List, [], ◌∷◌, ◌++◌,
  ltb, length, if◌then◌else◌, pos_part, ◌==◌, string_eq, lookup, insert, remove,
}
use teploy_dash.Outbox.{Record, Outbox, Options, Write, wrote, lost, visible, is_pending}

next_write : List Write → Write
next_write [] = wrote
next_write (w ∷ ws) = w

later_writes : List Write → List Write
later_writes [] = []
later_writes (w ∷ ws) = ws

pub picked :
    String
    → Bool
    → Option Record
    → List String × List (String × Record)
    → List String × List (String × Record)
    → List String × List (String × Record)
picked id over none without rest = rest
picked id over (some r) without (kept, records) =
    if over && not (is_pending r.status) then without else (id ∷ kept, records)

-- The loop of compactLocked over the order: what is kept of it, and the records. An identifier
-- without a record, of which there is none, is passed over.
pub swept : ℕ → List String → List (String × Record) → List String × List (String × Record)
unfolding picked
swept drop [] records = ([], records)
swept drop (id ∷ ids) records =
    picked id (ltb 0 drop) (lookup id records) (swept (drop - 1) ids (remove id records))
      (swept drop ids records)

pub with_line : Option Record → List Record → List Record
with_line none rest = rest
with_line (some r) rest = r ∷ rest

pub lines_of : List String → List (String × Record) → List Record
unfolding with_line
lines_of [] records = []
lines_of (id ∷ ids) records = with_line (lookup id records) (lines_of ids records)

pub rewritten : Outbox → List Record → Write → Outbox × Bool
rewritten b content wrote =
    (record b { journal = content; lines = length b.order; faults = later_writes b.faults }, true)
rewritten b content lost = (record b { faults = later_writes b.faults }, false)
rewritten b content visible =
    (record b { journal = content; faults = later_writes b.faults }, false)

-- compactLocked; the Boolean is false where it returns an error.
pub compact : Options → Outbox → Outbox × Bool
unfolding swept lines_of rewritten next_write
compact o b =
    let (kept, records) = swept (length b.records - pos_part o.max_retained) b.order b.records in
    rewritten (record b { order = kept; records = records }) (lines_of kept records)
      (next_write b.faults)

pub appended : Options → Outbox → Record → Write → Outbox × Bool
unfolding compact later_writes
appended o b r wrote =
    let b' = record b {
      journal = b.journal ++ r ∷ [];
      lines = b.lines + 1;
      faults = later_writes b.faults;
    } in
    if ltb (pos_part o.max_retained) (length b'.records) then compact o b' else (b', true)
appended o b r lost = (record b { faults = later_writes b.faults }, false)
appended o b r visible =
    (record b { journal = b.journal ++ r ∷ []; faults = later_writes b.faults }, false)

-- persist of a snapshot
unfoldable pub persist : Options → Record → Outbox → Outbox × Bool
unfolding appended next_write
persist o r b = appended o b r (next_write b.faults)

-- persistQuiet of each snapshot
unfoldable pub persist_all : Options → List Record → Outbox → Outbox
persist_all o [] b = b
persist_all o (r ∷ rs) b = persist_all o rs (persist o r b).0

folded : Record → Option Record → List String → List String
folded r none order = order ++ r.id ∷ []
folded r (some old) order = order

-- The loop of load. The last line of an identifier is its state.
unfoldable pub replay : List Record → List (String × Record) → List (String × Record)
replay [] records = records
replay (r ∷ rs) records = replay rs (insert r.id r records)

load_order : List Record → List (String × Record) → List String → List String
unfolding folded
load_order [] records order = order
load_order (r ∷ rs) records order =
    load_order rs (insert r.id r records) (folded r (lookup r.id records) order)

-- New on a journal without damage
unfoldable pub load : List Record → List Write → Outbox
unfolding load_order
load journal faults = record {
  records = replay journal [];
  order = load_order journal [] [];
  lines = length journal;
  journal = journal;
  faults = faults;
}
