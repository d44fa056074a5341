-- ===== src/Operation/Types.antt =====
-- internal/operation/types.go. A time is the number of nanoseconds since Go's zero time, which is 0.
-- A pointer that may be nil is an `Option`; `Status` has the constants' values only.
use teploy_dash.Common.{
  ℕ, ◌+◌, ◌%◌, ◌^◌, String, Bool, true, false, Option, none, some, List, [], ◌∷◌, ◌≡◌, refl, ◌⊎◌,
  inl, inr, ◌↔◌, ◌&&◌, arith, ℤ, Eq, ◌==◌, join, string_eq, if◌then◌else◌,
}

pub data Kind : Type 0 where
  deploy rollback remove template_install app_lifecycle maintenance redeploy : Kind
  backup_create backup_restore server_audit route_remove releases_prune server_prune : Kind
  other_kind : String → Kind

unfoldable pub supported_kind : Kind → Bool
supported_kind (other_kind name) = false
supported_kind _ = true

pub data Status : Type 0 where
  queued running cancel_requested stopping : Status
  succeeded failed canceled already_committed interrupted : Status

-- Status.Terminal
unfoldable pub terminal : Status → Bool
terminal succeeded = true
terminal failed = true
terminal canceled = true
terminal already_committed = true
terminal interrupted = true
terminal _ = false

pub data EventType : Type 0 where
  status stdout stderr gap : EventType

pub record Event : Type 0 where
  pub sequence : ℕ
  pub operation_id : String
  pub type : EventType
  pub payload : String
  pub created_at : ℕ

pub record Request : Type 0 where
  pub kind : Kind
  pub server : String
  pub app : String
  pub mode : String
  pub image : String
  pub domain : String
  pub port : ℤ
  pub template : String
  pub home : String
  pub template_version : String
  pub vars : List (String × String)
  pub action : String
  pub purge : Bool
  pub redirect : String
  pub to : String
  pub accessory : String
  pub backup_id : String
  pub database : String
  pub no_backup : Bool
  pub keep : ℤ

pub record Server : Type 0 where
  pub name : String
  pub id : String
  pub host : String
  pub user : String

pub record Actor : Type 0 where
  pub kind : String
  pub subject : String
  pub label : String
  pub capabilities : List String
  pub role : String
  pub cap_basis : String

pub data ReconcileState : Type 0 where
  reconciling applied not_applied manual : ReconcileState

pub record Reconciliation : Type 0 where
  pub state : ReconcileState
  pub reason : String
  pub evidence : String
  pub checked_at : ℕ

pub record Receipt : Type 0 where
  pub applied : Bool
  pub evidence : String

pub record Command : Type 0 where
  pub args : List String
  pub timeout : ℕ
  pub secrets : List String
  pub stdin : String

pub record Metadata : Type 0 where
  pub mode : String

pub record Operation : Type 0 where
  pub id : String
  pub request : Request
  pub metadata : Metadata
  pub target : String
  pub status : Status
  pub idempotency_key : String
  pub idempotency_principal : String
  pub retry_of : String
  pub attempt : ℕ
  pub exit_code : Option ℕ
  pub error : String
  pub created_at : ℕ
  pub started_at : Option ℕ
  pub finished_at : Option ℕ
  pub has_secrets : Bool
  pub admitted_server : Option Server
  pub admission_seq : ℕ
  pub actor : Option Actor
  pub reconciliation : Option Reconciliation
  pub request_hash : String

pub data Error : Type 0 where
  not_found idempotency_conflict not_cancelable not_retryable reconciliation_pending : Error
  read_only admission_budget global_admission_budget principal_admission_budget : Error
  shutting_down cancel_was_requested : Error
  message : String → Error

pub data Result {ℓ} (A : Type ℓ) : Type ℓ where
  ok : A → Result A
  err : Error → Result A

infixl 5 ◌>>=◌
abbrev pub ◌>>=◌ {ℓ κ} : {S : Type ℓ} {T : Type κ} → Result S → (S → Result T) → Result T
err e >>= next = err e
ok s >>= next = next s

infixl 5 ◌>>◌
abbrev pub ◌>>◌ {κ} : {T : Type κ} → Result (Unit {0}) → Result T → Result T
check >> rest = check >>= λ _. rest

pub Result-cases {ℓ} :
    {A : Type ℓ} (r : Result A) → ((a : A) × (r ≡ ok a)) ⊎ ((e : Error) × (r ≡ err e))
Result-cases (ok a) = inl (a, refl)
Result-cases (err e) = inr (e, refl)

-- `if bad { return fmt.Errorf(text) }`
abbrev pub refuse_if : Bool → String → Result (Unit {0})
refuse_if bad text = if bad then err (message text) else ok tt

abbrev pub no_auth_scope : String
no_auth_scope = "local:no-auth"

-- IdempotencyScope
unfoldable pub idempotency_scope : Option Actor → String
idempotency_scope none = no_auth_scope
idempotency_scope (some actor) = join (actor.kind ∷ ":" ∷ actor.subject ∷ [])

-- manager.go's `idemKey`
pub record IdemKey : Type 0 where
  pub principal : String
  pub key : String

unfoldable pub idem_eq : IdemKey → IdemKey → Bool
idem_eq a b = a.principal == b.principal && a.key == b.key

pub idem_eq_iff : (a b : IdemKey) → (idem_eq a b ≡ true) ↔ (a ≡ b)
unfolding idem_eq
idem_eq_iff a b = (
  λ h. ground (arith, string_eq.beq_iff a.principal b.principal, string_eq.beq_iff a.key b.key),
  λ h. ground (arith, string_eq.beq_iff a.principal b.principal, string_eq.beq_iff a.key b.key),
)

instance abbrev pub idem_key_eq : Eq IdemKey
idem_key_eq = record { beq = idem_eq; beq_iff = idem_eq_iff }

-- A Go `uint64` counter's next value.
abbrev pub next_u64 : ℕ → ℕ
next_u64 n = (n + 1) % 2 ^ 64
