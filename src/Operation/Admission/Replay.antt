-- ===== src/Operation/Admission/Replay.antt =====
-- Idempotency: the same request under the same key and principal is answered by the operation that
-- it admitted.
use teploy_dash.Common.{
  ℕ, String, true, false, Option, none, some, ◌≡◌, refl, ap, arith, if◌then◌else◌, string_eq, ◌==◌,
  lookup,
}
use teploy_dash.Operation.Types.{
  Operation, idempotency_conflict, ok, err, IdemKey, idem_key_eq, idempotency_scope,
}
use teploy_dash.Operation.Manager.{Setup, Manager}
use teploy_dash.Operation.Admission.{Call, lookup_replay, found_id, matched, idempotency_live}

-- A replay check that finds the key's operation, live in the window.
pub found_replay :
    (c : Setup) (k : IdemKey) (hash id : String) (now : ℕ) (m : Manager) (o : Operation)
    → (k.key == "") ≡ false
    → lookup k m.idempotency ≡ some id
    → lookup id m.operations ≡ some o
    → idempotency_live c.idempotency_window o.created_at now ≡ true
    → lookup_replay c k hash now m
      ≡ (m, if o.request_hash == hash then ok (some o) else err idempotency_conflict)
unfolding lookup_replay
found_replay c k hash id now m o n i l w = ground arith

abbrev pub key_of : Call → IdemKey
key_of call = record { principal = idempotency_scope call.actor; key = call.key }

matched-own :
    (c : Setup) (k : IdemKey) (hash : String) (now : ℕ) (m : Manager) (x : Option Operation)
    (o : Operation)
    → (matched c k hash now m x).1 ≡ ok (some o)
    → (x ≡ some o)
      × (o.request_hash ≡ hash)
      × (idempotency_live c.idempotency_window o.created_at now ≡ true)
unfolding matched
matched-own c k hash now m none o h = absurd (ground arith)
matched-own c k hash now m (some e) o h =
    let same : e ≡ o = ground arith in
    (ap some same, ground (arith, string_eq.beq_iff e.request_hash hash), ground arith)

found_id-own :
    (c : Setup) (k : IdemKey) (hash : String) (now : ℕ) (m : Manager) (x : Option String)
    (o : Operation)
    → (found_id c k hash now m x).1 ≡ ok (some o)
    → (id : String) × (x ≡ some id)
      × (lookup id m.operations ≡ some o)
      × (o.request_hash ≡ hash)
      × (idempotency_live c.idempotency_window o.created_at now ≡ true)
unfolding found_id
found_id-own c k hash now m none o h = absurd (ground arith)
found_id-own c k hash now m (some id) o h =
    let (f, e, l) = matched-own c k hash now m (lookup id m.operations) o h in (id, refl, f, e, l)

-- What a replay check answers with is an operation in memory that the key leads to, with the hash
-- that was asked for and inside the window.
pub lookup_replay-own :
    (c : Setup) (k : IdemKey) (hash : String) (now : ℕ) (m : Manager) (o : Operation)
    → (lookup_replay c k hash now m).1 ≡ ok (some o)
    → (id : String) × (lookup k m.idempotency ≡ some id)
      × (lookup id m.operations ≡ some o)
      × (o.request_hash ≡ hash)
      × (idempotency_live c.idempotency_window o.created_at now ≡ true)
unfolding lookup_replay
lookup_replay-own c k hash now m o h =
    found_id-own c k hash now m (lookup k m.idempotency) o (ground arith)
