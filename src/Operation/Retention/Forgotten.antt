-- ===== src/Operation/Retention/Forgotten.antt =====
-- What the end of retire leaves in memory.
use teploy_dash.Common.{
  ℕ, ◌≤◌, String, Bool, true, Option, none, some, List, [], ◌∷◌, ◌≡◌, inl, inr, refl, ◌∙◌, arith,
  ◌==◌, string_eq, lookup, lookup-remove, tally, tally-remove, Bool-cases,
}
use teploy_dash.Alert.Channels.{contains}
use teploy_dash.Operation.Types.{Operation, terminal}
use teploy_dash.Operation.Manager.{Setup, Manager}
use teploy_dash.Operation.Retention.{forget_found, forget_ids, forget_removed, begin_retire}

pub operations-forget_removed :
    (c : Setup) (ids : List String) (now : ℕ) (m : Manager)
    → (forget_removed c ids now m).operations ≡ (forget_ids ids m).operations
unfolding forget_removed forget_ids
operations-forget_removed c [] now m = refl
operations-forget_removed c (id ∷ ids) now m = refl

pub operations-begin_retire :
    (c : Setup) (deletes : String → Bool) (now : ℕ) (m : Manager)
    → (begin_retire c deletes now m).0.operations ≡ m.operations
unfolding begin_retire
operations-begin_retire c deletes now m = ground arith

pub idempotency-begin_retire :
    (c : Setup) (deletes : String → Bool) (now : ℕ) (m : Manager)
    → (begin_retire c deletes now m).0.idempotency ≡ m.idempotency
unfolding begin_retire
idempotency-begin_retire c deletes now m = ground arith

tally-forget_found :
    (p : Operation → Bool) (id : String) (m : Manager) (x : Option Operation)
    → tally p (forget_found id m x).operations ≤ tally p m.operations
unfolding forget_found
tally-forget_found p id m none = omega arith
tally-forget_found p id m (some op) = elim (Bool-cases (terminal op.status)) [
  | inl y ↦ rw y (tally-remove p id m.operations)
  | inr y ↦ rw y (omega arith)
]

pub tally-forget_ids :
    (p : Operation → Bool) (ids : List String) (m : Manager)
    → tally p (forget_ids ids m).operations ≤ tally p m.operations
unfolding forget_ids
tally-forget_ids p [] m = omega arith
tally-forget_ids p (id ∷ ids) m =
    let x = lookup id m.operations in
    omega (arith, tally-forget_found p id m x, tally-forget_ids p ids (forget_found id m x))

-- Forgetting finds an operation where it was, or has removed it, which is terminal, by its name.
pub data Left (id : String) (o : Operation) (ids : List String) (after : List (String × Operation))
    : Type 0 where
  left : lookup id after ≡ some o → Left id o ids after
  gone :
      lookup id after ≡ none
      → terminal o.status ≡ true
      → contains ids id ≡ true
      → Left id o ids after

forget_found-Left :
    (j id : String) (o : Operation) (m : Manager) (x : Option Operation)
    → lookup j m.operations ≡ x
    → lookup id m.operations ≡ some o
    → Left id o (j ∷ []) (forget_found j m x).operations
unfolding forget_found contains
forget_found-Left j id o m none e l = left l
forget_found-Left j id o m (some op) e l = elim (Bool-cases (terminal op.status)) [
  | inl y ↦ elim (Bool-cases (j == id)) [
    | inl z ↦
        let same : op ≡ o = ground (arith, string_eq.beq_iff j id) in
        rw y (
          gone (lookup-remove j id m.operations ∙ ground (arith, z)) (ground (arith, y, same))
            (rw z refl))
    | inr z ↦ rw y (left (lookup-remove j id m.operations ∙ ground (arith, z, l)))
  ]
  | inr y ↦ rw y (left l)
]

pub forget_ids-gone :
    (ids : List String) (id : String) (m : Manager)
    → lookup id m.operations ≡ none
    → lookup id (forget_ids ids m).operations ≡ none
unfolding forget_ids
forget_ids-gone [] id m h = h
forget_ids-gone (j ∷ ids) id m h =
    forget_ids-gone ids id (forget_found j m (lookup j m.operations)) (one (lookup j m.operations))
  where
    one : (x : Option Operation) → lookup id (forget_found j m x).operations ≡ none
    one none = unfold forget_found in h
    one (some op) =
        unfold forget_found in
        elim (Bool-cases (terminal op.status)) [
          | inl y ↦ rw y (lookup-remove j id m.operations ∙ ground (arith, h))
          | inr y ↦ rw y h
        ]

Left-cons :
    (j id : String) (o : Operation) (ids : List String) (after : List (String × Operation))
    → Left id o ids after
    → Left id o (j ∷ ids) after
unfolding contains
Left-cons j id o ids after (left l) = left l
Left-cons j id o ids after (gone n t k) = gone n t (ground (arith, k))

named_first :
    (j id : String) (ids : List String) → contains (j ∷ []) id ≡ true → contains (j ∷ ids) id ≡ true
unfolding contains
named_first j id ids k = ground (arith, k)

pub forget_ids-Left :
    (ids : List String) (id : String) (o : Operation) (m : Manager)
    → lookup id m.operations ≡ some o
    → Left id o ids (forget_ids ids m).operations
unfolding forget_ids
forget_ids-Left [] id o m l = left l
forget_ids-Left (j ∷ ids) id o m l =
    let m' = forget_found j m (lookup j m.operations) in
    elim (forget_found-Left j id o m (lookup j m.operations) refl l) [
      | left l' ↦ Left-cons j id o ids _ (forget_ids-Left ids id o m' l')
      | gone n t k ↦ gone (forget_ids-gone ids id m' n) t (named_first j id ids k)
    ]
