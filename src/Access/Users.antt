-- ===== src/Access/Users.antt =====
-- internal/server/users.go: the rows of users.json, and how a change of them is saved.
use teploy_dash.Common.{
  ℕ, ◌+◌, ◌^◌, ◌%◌, String, Bool, ◌||◌, Option, none, some, List, [], ◌∷◌, ltb, if◌then◌else◌, ◌==◌,
  string_eq, insert, byte_length,
}

-- dashUser
pub record Account : Type 0 where
  pub username : String
  pub password_hash : String
  pub role : String
  pub auth_epoch : ℕ
  pub capability_profile : String
  pub capabilities : List String

-- dashPrincipal
pub record Principal : Type 0 where
  pub subject : String
  pub username : String
  pub email : String
  pub role : String
  pub auth_epoch : ℕ
  pub last_sign_in : String
  pub capability_profile : String
  pub capabilities : List String

-- The content of users.json: usersFileFormat, its lists as maps.
pub record UsersFile : Type 0 where
  pub users : List (String × Account)
  pub principals : List (String × Principal)
  pub epoch_counter : ℕ

-- How durable.Replace ends: it succeeds, it leaves the old file, or the new file is in place and an
-- error is returned all the same.
pub data Write : Type 0 where
  wrote lost visible : Write

-- The part of authGate that credMu guards. `live` are the maps and the counter in memory.
pub record Gate : Type 0 where
  pub live : UsersFile
  pub setup_required : Bool
  pub env_user : String
  pub env_pass : String
  pub disk : Option UsersFile
  pub faults : List Write

-- `hash` is bcrypt with its cost, none where it fails; `trim` is strings.TrimSpace; `valid_name` is the
-- grammar of new names.
pub record World : Type 0 where
  pub hash : String → Option String
  pub trim : String → String
  pub valid_name : String → Bool

pub data Reply : Type 0 where
  done : Reply
  signed_in : ℕ → String → Reply
  stale : Reply
  refused : String → Reply

unfoldable pub normalize_role : String → String
normalize_role r = if r == "admin" || r == "editor" || r == "viewer" then r else "viewer"

unfoldable pub next_epoch : ℕ → ℕ
next_epoch e = (e + 1) % 2 ^ 64

-- saveUsersFile of a candidate, and what its caller does: only after a successful write is the
-- candidate published.
unfoldable pub published : UsersFile → Reply → Gate → Write → List Write → Gate × Reply
published next reply g wrote rest =
    (record g { live = next; disk = some next; faults = rest }, reply)
published next reply g lost rest = (record g { faults = rest }, refused "save users")
published next reply g visible rest =
    (record g { disk = some next; faults = rest }, refused "save users")

unfoldable pub commit : UsersFile → Reply → Gate → List Write → Gate × Reply
unfolding published
commit next reply g [] = published next reply g wrote []
commit next reply g (w ∷ ws) = published next reply g w ws

unfoldable pub saved_users : UsersFile → Reply → Gate → Gate × Reply
unfolding commit
saved_users next reply g = commit next reply g g.faults

-- The candidates: the live users with one row changed, or the principals.
abbrev pub with_user : String → Account → ℕ → Gate → UsersFile
with_user name u epoch g = record g.live {
  users = insert name u g.live.users;
  epoch_counter = epoch;
}

abbrev pub with_principal : String → Principal → ℕ → Gate → UsersFile
with_principal sub p epoch g = record g.live {
  principals = insert sub p g.live.principals;
  epoch_counter = epoch;
}

abbrev pub fresh_epoch : Gate → ℕ
fresh_epoch g = next_epoch g.live.epoch_counter

-- The checks of a new password, and its hash.
pub data Hashed : Type 0 where
  hashed : String → Hashed
  unfit : String → Hashed

unfoldable pub hash_of : Option String → Hashed
hash_of none = unfit "bcrypt"
hash_of (some h) = hashed h

unfoldable pub checked_password : World → String → Hashed
unfolding hash_of
checked_password w password =
    if ltb (byte_length password) 8
    then unfit "password must be at least 8 characters"
    else if ltb 72 (byte_length password)
    then unfit "password must be at most 72 bytes"
    else hash_of (w.hash password)
