-- ===== src/Operation/Retention.antt =====
-- internal/operation: retire of manager.go, and the sweepRetention of store.go that it calls.
--
-- `deletes` says for which identifiers the files can be deleted; a failed deletion leaves them as they
-- are. Records that cannot be read are not part of the store.
pub mod Forgotten
use teploy_dash.Common.{
  ℕ, ◌-◌, String, Bool, true, false, not, ◌&&◌, ◌||◌, Option, none, some, List, [], ◌∷◌, ◌++◌,
  if◌then◌else◌, ltb, leb, eqb, length, is_positive, pos_part, ◌==◌, string_eq, str_leb, lookup,
  remove, ◌+◌,
}
use teploy_dash.Alert.Channels.{contains}
use teploy_dash.Operation.Types.{Operation, terminal, IdemKey, idem_key_eq}
use teploy_dash.Operation.Manager.{Setup, Manager, Store, discard_journal}
use teploy_dash.Operation.Admission.{idempotency_live}

-- deleteOperation
delete_operation : String → Store → Store
delete_operation id s = discard_journal id (record s { records = remove id s.records })

-- A terminal record past the age limit.
expired : Setup → ℕ → Operation → Bool
expired c now o =
    terminal o.status
    && is_positive c.max_history_age
    && ltb (pos_part c.max_history_age) (now - o.created_at)

-- The pass of the age limit.
removed_by_age : Setup → (String → Bool) → ℕ → List (String × Operation) → List String
unfolding expired
removed_by_age c deletes now [] = []
removed_by_age c deletes now ((id, o) ∷ rest) =
    let others = removed_by_age c deletes now rest in
    if expired c now o && deletes id then id ∷ others else others

older : String × Operation → String × Operation → Bool
older a b =
    ltb a.1.created_at b.1.created_at || (eqb a.1.created_at b.1.created_at && str_leb a.0 b.0)

by_age : String × Operation → List (String × Operation) → List (String × Operation)
unfolding older
by_age a [] = a ∷ []
by_age a (b ∷ rest) = let later = by_age a rest in if older a b then a ∷ b ∷ rest else b ∷ later

-- The terminal records, the oldest first.
oldest_first : List (String × Operation) → List (String × Operation)
unfolding by_age
oldest_first [] = []
oldest_first ((id, o) ∷ rest) =
    let others = oldest_first rest in if terminal o.status then by_age (id, o) others else others

-- The pass of the count limit, over the terminal records from the oldest on.
removed_by_count : ℕ → (String → Bool) → List String → ℕ → List (String × Operation) → List String
removed_by_count limit deletes gone remaining [] = []
removed_by_count limit deletes gone remaining ((id, o) ∷ rest) =
    let skip = contains gone id || not (deletes id) in
    let others =
      removed_by_count limit deletes gone (if skip then remaining else remaining - 1) rest in
    if leb remaining limit then [] else if skip then others else id ∷ others

delete_all : List String → Store → Store
unfolding delete_operation
delete_all [] s = s
delete_all (id ∷ ids) s = delete_all ids (delete_operation id s)

-- sweepRetention
unfoldable pub sweep_retention : Setup → (String → Bool) → ℕ → Store → Store × List String
unfolding removed_by_age removed_by_count oldest_first delete_all contains
sweep_retention c deletes now s =
    let aged = removed_by_age c deletes now s.records in
    let counted =
      if is_positive c.max_operations
      then removed_by_count (pos_part c.max_operations) deletes aged
          (length s.records - length aged) (oldest_first s.records)
      else [] in
    (delete_all (aged ++ counted) s, aged ++ counted)

-- One identifier of the sweep: an operation that is terminal leaves memory, with its key.
forget_found : String → Manager → Option Operation → Manager
forget_found id m none = m
forget_found id m (some op) = if not (terminal op.status) then m else record m {
  operations = remove id m.operations;
  events = remove id m.events;
  idempotency =
      if op.idempotency_key == ""
      then m.idempotency
      else remove (record { principal = op.idempotency_principal; key = op.idempotency_key })
          m.idempotency;
}

unfoldable pub forget_ids : List String → Manager → Manager
unfolding forget_found
forget_ids [] m = m
forget_ids (id ∷ ids) m = forget_ids ids (forget_found id m (lookup id m.operations))

key_is_live : Setup → ℕ → Option Operation → Bool
key_is_live c now none = false
key_is_live c now (some op) = idempotency_live c.idempotency_window op.created_at now

live_keys :
    Setup → ℕ → List (String × Operation) → List (IdemKey × String) → List (IdemKey × String)
unfolding key_is_live
live_keys c now operations [] = []
live_keys c now operations ((k, id) ∷ rest) =
    let others = live_keys c now operations rest in
    if key_is_live c now (lookup id operations) then (k, id) ∷ others else others

-- The end of retire, after a sweep that returned `removed`.
unfoldable pub forget_removed : Setup → List String → ℕ → Manager → Manager
unfolding forget_ids live_keys
forget_removed c [] now m = m
forget_removed c (id ∷ ids) now m =
    let m' = forget_ids (id ∷ ids) m in
    record m' { idempotency = live_keys c now m'.operations m'.idempotency }

is_over : Setup → Manager → Bool
is_over c m = is_positive c.max_operations && ltb (pos_part c.max_operations) (length m.operations)

-- The part of retire before its second lock: the hour is 3600 seconds, in nanoseconds.
unfoldable pub begin_retire : Setup → (String → Bool) → ℕ → Manager → Manager × List String
unfolding is_over sweep_retention
begin_retire c deletes now m =
    if not (m.read_only_reason == "")
    then (m, [])
    else if not (is_over c m) && not (ltb (m.last_sweep + 3600000000000) now)
    then (m, [])
    else (let (s, removed) = sweep_retention c deletes now m.store in
        (record m { store = s; last_sweep = now }, removed))

-- retire, with no other call between its parts; `swept` is the clock of the sweep.
unfoldable pub retire : Setup → (String → Bool) → ℕ → ℕ → Manager → Manager
unfolding begin_retire forget_removed
retire c deletes swept now m =
    let (m', removed) = begin_retire c deletes swept m in forget_removed c removed now m'
