-- ===== src/Operation/Admission/Keys.antt =====
-- What an admission leaves of the index of idempotency keys.
use mathlib.Core.Path.{subst}
use teploy_dash.Common.{
  ℕ, String, Bool, true, false, Option, none, some, ◌≡◌, refl, ap, sym, ◌∙◌, arith, string_eq, ◌==◌,
  lookup, lookup-insert, lookup-remove, Bool-cases, inl, inr, if_elim, ltb, ◌||◌, byte_length,
  if◌then◌else◌,
}
use teploy_dash.Operation.Types.{
  Operation, Error, Result, ok, err, IdemKey, idem_key_eq, idempotency_scope, Request, Actor,
  next_u64, idempotency_conflict, shutting_down,
}
use teploy_dash.Operation.Manager.{Setup, Manager, Store, save_operation, append_event_line}
use teploy_dash.Operation.Admission.{
  Call, Prepared, Admitted, Begun, refused, new_operation, lookup_replay, idempotency_live,
  over_budget, admit, admit_replay, admit_budgeted, commit, journaled, saved, admit_to_target,
  initial_event, begin_replay, begin_hashed, begin_enqueue, with_mode, has_line_break,
}
use teploy_dash.Operation.Admission.Replay.{key_of, found_replay}

-- A replay check under another key.
lookup-lookup_replay :
    (c : Setup) (k j : IdemKey) (hash : String) (now : ℕ) (m : Manager)
    → (j == k) ≡ false
    → lookup k (lookup_replay c j hash now m).0.idempotency ≡ lookup k m.idempotency
unfolding lookup_replay
lookup-lookup_replay c k j hash now m n = ground (arith, n, lookup-remove j k m.idempotency)

module _ (call : Call) (p : Prepared) (id : String) (seq : ℕ) (m : Manager) (k : IdemKey)
    (n : (key_of call == k) ≡ false) where
  lookup-saved :
      (r : Option String × Store)
      → lookup k (saved call (new_operation call p id seq) p.built.command m r).0.idempotency
        ≡ lookup k m.idempotency
  unfolding saved admit_to_target new_operation
  lookup-saved (some e, s) = refl
  lookup-saved (none, s) =
      if_elim (λ x. lookup k x ≡ lookup k m.idempotency) (call.key == "") m.idempotency _ refl
        (lookup-insert (key_of call) k id m.idempotency ∙ ground (arith, n))

  lookup-journaled :
      (r : Option String × Store)
      → lookup k (journaled call (new_operation call p id seq) p.built.command m r).0.idempotency
        ≡ lookup k m.idempotency
  unfolding journaled
  lookup-journaled (some e, s) = refl
  lookup-journaled (none, s) = lookup-saved (save_operation (new_operation call p id seq) s)

module _ (c : Setup) (call : Call) (p : Prepared) (k : IdemKey)
    (n : (key_of call == k) ≡ false) where
  lookup-commit :
      (m : Manager) (r : Result String)
      → lookup k (commit c call p m r).0.idempotency ≡ lookup k m.idempotency
  unfolding commit
  lookup-commit m (err e) = refl
  lookup-commit m (ok id) =
      let seq = next_u64 m.admission_seq in
      let m' : Manager = record m { admission_seq = seq } in
      lookup-journaled call p id seq m' k n
        (append_event_line c id (initial_event call id) m'.store)

  lookup-admit_budgeted :
      (m : Manager) (r : Option Error)
      → lookup k (admit_budgeted c call p m r).0.idempotency ≡ lookup k m.idempotency
  unfolding admit_budgeted
  lookup-admit_budgeted m (some e) = refl
  lookup-admit_budgeted m none = lookup-commit m call.new_id

  lookup-admit_replay :
      (r : Manager × Result (Option Operation))
      → lookup k (admit_replay c call p r).0.idempotency ≡ lookup k r.0.idempotency
  unfolding admit_replay
  lookup-admit_replay (m, err e) = refl
  lookup-admit_replay (m, ok (some x)) = refl
  lookup-admit_replay (m, ok none) =
      lookup-admit_budgeted m
        (over_budget c p.built.target (idempotency_scope call.actor) m.operations)

  lookup-admit_other :
      (m : Manager) → lookup k (admit c call p m).0.idempotency ≡ lookup k m.idempotency
  unfolding admit
  lookup-admit_other m =
      if_elim (λ (r : Manager × Admitted). lookup k r.0.idempotency ≡ lookup k m.idempotency)
        m.admission_closed (m, refused shutting_down)
        (admit_replay c call p (lookup_replay c (key_of call) p.hash call.now m)) refl
        (lookup-admit_replay (lookup_replay c (key_of call) p.hash call.now m)
          ∙ lookup-lookup_replay c k (key_of call) p.hash call.now m n)

-- The operation that a key leads to is in memory and inside the window at the time.
pub record Indexed (c : Setup) (k : IdemKey) (id : String) (now : ℕ) (m : Manager) : Type 0 where
  pub key : (k.key == "") ≡ false
  pub at : lookup k m.idempotency ≡ some id
  pub op : Operation
  pub there : lookup id m.operations ≡ some op
  pub live : idempotency_live c.idempotency_window op.created_at now ≡ true

-- A replay check of the key itself changes nothing.
lookup_replay-same :
    (c : Setup) (k : IdemKey) (id hash : String) (now : ℕ) (m : Manager)
    → Indexed c k id now m
    → (lookup_replay c k hash now m).0 ≡ m
lookup_replay-same c k id hash now m v =
    ap (λ (r : Manager × Result (Option Operation)). r.0)
      (found_replay c k hash id now m v.op v.key v.at v.there v.live)

admit-same :
    (c : Setup) (call : Call) (p : Prepared) (id : String) (m : Manager)
    → Indexed c (key_of call) id call.now m
    → (admit c call p m).0 ≡ m
unfolding admit
admit-same c call p id m v =
    if_elim (λ (r : Manager × Admitted). r.0 ≡ m) m.admission_closed (m, refused shutting_down)
      (admit_replay c call p (lookup_replay c (key_of call) p.hash call.now m)) refl
      (ap (λ r. (admit_replay c call p r).0)
          (found_replay c (key_of call) p.hash id call.now m v.op v.key v.at v.there v.live)
        ∙ answered (v.op.request_hash == p.hash))
  where
    answered :
        (b : Bool)
        → (admit_replay c call p (m, if b then ok (some v.op) else err idempotency_conflict)).0 ≡ m
    answered true = unfold admit_replay in refl
    answered false = unfold admit_replay in refl

-- Any replay check, any beginning of an Enqueue and any admission, while the key leads to an operation
-- inside the window: it leads to it afterwards.
pub lookup-admit :
    (c : Setup) (call : Call) (p : Prepared) (k : IdemKey) (id : String) (m : Manager)
    → Indexed c k id call.now m
    → lookup k (admit c call p m).0.idempotency ≡ some id
lookup-admit c call p k id m v = elim (Bool-cases (key_of call == k)) [
  | inl y ↦
      let same : key_of call ≡ k = (idem_key_eq.beq_iff (key_of call) k).0 y in
      let v' : Indexed c (key_of call) id call.now m =
        subst (λ j. Indexed c j id call.now m) (sym same) v in
      ap (λ (x : Manager). lookup k x.idempotency) (admit-same c call p id m v') ∙ v.at
  | inr y ↦ lookup-admit_other c call p k y m ∙ v.at
]

lookup-replayed :
    (c : Setup) (k j : IdemKey) (id hash : String) (now : ℕ) (m : Manager)
    → Indexed c k id now m
    → lookup k (lookup_replay c j hash now m).0.idempotency ≡ some id
lookup-replayed c k j id hash now m v = elim (Bool-cases (j == k)) [
  | inl y ↦
      let same : j ≡ k = (idem_key_eq.beq_iff j k).0 y in
      let v' : Indexed c j id now m = subst (λ i. Indexed c i id now m) (sym same) v in
      ap (λ (x : Manager). lookup k x.idempotency) (lookup_replay-same c j id hash now m v') ∙ v.at
  | inr y ↦ lookup-lookup_replay c k j hash now m y ∙ v.at
]

manager-begin_replay :
    (c : Setup) (req : Request) (hash : String) (r : Manager × Result (Option Operation))
    → (begin_replay c req hash r).0 ≡ r.0
unfolding begin_replay
manager-begin_replay c req hash (m, err e) = refl
manager-begin_replay c req hash (m, ok (some op)) = refl
manager-begin_replay c req hash (m, ok none) = refl

lookup-begin_hashed :
    (c : Setup) (req : Request) (k j : IdemKey) (id : String) (now : ℕ) (m : Manager)
    (r : Result String)
    → Indexed c k id now m
    → lookup k (begin_hashed c req j now m r).0.idempotency ≡ some id
unfolding begin_hashed
lookup-begin_hashed c req k j id now m (err e) v = v.at
lookup-begin_hashed c req k j id now m (ok hash) v =
    if_elim (λ (x : Manager × Begun). lookup k x.0.idempotency ≡ some id) m.admission_closed _
      (begin_replay c req hash (lookup_replay c j hash now m)) v.at
      (ap (λ (x : Manager). lookup k x.idempotency)
          (manager-begin_replay c req hash (lookup_replay c j hash now m))
        ∙ lookup-replayed c k j id hash now m v)

pub lookup-begin_enqueue :
    (c : Setup) (req : Request) (key : String) (actor : Option Actor) (k : IdemKey) (id : String)
    (now : ℕ) (m : Manager)
    → Indexed c k id now m
    → lookup k (begin_enqueue c req key actor now m).0.idempotency ≡ some id
unfolding begin_enqueue
lookup-begin_enqueue c req key actor k id now m v =
    let P : Manager × Begun → Type 0 = λ x. lookup k x.0.idempotency ≡ some id in
    if_elim P _ _ _ v.at (
      if_elim P (ltb 255 (byte_length key) || has_line_break key) _ _ v.at (
        lookup-begin_hashed c (with_mode req) k
          (record { principal = idempotency_scope actor; key = key }) id now m
          (c.hash (with_mode req)) v))
