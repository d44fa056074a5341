-- ===== src/Operation/Journal.antt =====
-- The pure parts of internal/operation/store.go and manager.go on event lists. The length of an
-- event's JSON line, newline included, is the parameter `size`.
pub mod Retained
use Prim.Native.String.{slice}
use teploy_dash.Common.{
  ℕ, zero, suc, ◌+◌, ◌-◌, String, Bool, true, false, ◌&&◌, List, [], ◌∷◌, ◌++◌, if◌then◌else◌, ltb,
  leb, length, drop, select, ℤ, pos_part, join, byte_length,
}
use teploy_dash.Operation.Types.{Event, next_u64}

abbrev pub max_event_data_bytes : ℕ
max_event_data_bytes = 16384

-- boundedEventData. `valid` is `strings.ToValidUTF8`. Where the limit falls inside a character Go
-- keeps a part of it and `slice` keeps none.
unfoldable pub bounded_event_data : (String → String) → String → String
bounded_event_data valid text =
    let text' = valid text in
    if leb (byte_length text') max_event_data_bytes
    then text'
    else join (slice text' 0 max_event_data_bytes ∷ " [truncated]" ∷ [])

unfoldable pub events_after : List Event → ℕ → List Event
events_after events sequence = select (λ e. ltb sequence e.sequence) events

unfoldable pub first_sequence : List Event → ℕ
first_sequence [] = 1
first_sequence (e ∷ es) = e.sequence

-- `events[len(events)-1].Sequence + 1`, or 1.
unfoldable pub following_sequence : List Event → ℕ
following_sequence [] = 1
following_sequence (e ∷ []) = next_u64 e.sequence
following_sequence (e ∷ f ∷ es) = following_sequence (f ∷ es)

-- `events[len(events)-n:]` where there are more than n.
unfoldable pub window : ℕ → List Event → List Event
window n events = if ltb n (length events) then drop (length events - n) events else events

module _ (size : Event → ℕ) where
  unfoldable pub total_size : List Event → ℕ
  total_size [] = 0
  total_size (e ∷ es) = size e + total_size es

  -- The loop of retainedSuffix: `total` is the size of what is kept so far.
  trim : List Event → ℕ → ℕ → List Event
  trim [] total budget = []
  trim (e ∷ []) total budget = e ∷ []
  trim (e ∷ f ∷ es) total budget =
      let rest = trim (f ∷ es) (total - size e) budget in
      if ltb budget total then rest else e ∷ f ∷ es

  unfoldable pub retained_suffix : List Event → ℕ → ℤ → List Event
  unfolding trim total_size
  retained_suffix events max_events budget =
      if leb (length events) 1
      then events
      else (let kept = if ltb 0 max_events then window max_events events else events in
          trim kept (total_size kept) (pos_part budget))
