-- ===== src/Access/Start.antt =====
-- internal/server/users.go and server.go: loading users.json, the first account, signing in.
pub mod Loading
pub mod Restored
use teploy_dash.Common.{
  ℕ, ◌+◌, ◌-◌, String, Bool, true, false, not, ◌&&◌, ◌||◌, Option, none, some, List, [], ◌∷◌, ltb,
  leb, if◌then◌else◌, ◌==◌, string_eq, lookup, insert, join,
}
use teploy_dash.Access.Caps.{normalize}
use teploy_dash.Access.Users.{
  Account, Principal, UsersFile, Gate, World, Reply, done, signed_in, stale, refused,
  normalize_role, saved_users, with_user,
}
use teploy_dash.Access.Accounts.{create_user, new_account, opened}

-- The rows of a file that are read so far, and the error that ended the loop, if one did.
pub data Rows {ℓ} (A : Type ℓ) : Type ℓ where
  read : List (String × A) → Rows A
  broken : List (String × A) → String → Rows A

module _ {ℓ} {A : Type ℓ} (key : A → String) (normal : A → A) where
  found_row : Option A → Rows A → List (String × A) → Rows A
  found_row none next acc = next
  found_row (some old) next acc = broken acc "duplicate entry"

  -- The loops of loadUsers: a row without a key or with the key of another ends them.
  pub read_rows : List A → List (String × A) → Rows A
  unfolding found_row
  read_rows [] acc = read acc
  read_rows (x ∷ xs) acc =
      let next = read_rows xs (insert (key x) (normal x) acc) in
      if key x == ""
      then broken acc "entry without a key"
      else found_row (lookup (key x) acc) next acc

unfoldable pub normal_account : Account → Account
normal_account u = record u {
  role = normalize_role u.role;
  capabilities = normalize u.capabilities;
}

unfoldable pub normal_principal : Principal → Principal
normal_principal p = record p {
  role = normalize_role p.role;
  capabilities = normalize p.capabilities;
}

-- What is in the directory: users.json, if it is there, and the older auth.json.
pub data Stored : Type 0 where
  unreadable : String → Stored
  absent : Stored
  present : List Account → List Principal → ℕ → Stored

pub data Legacy : Type 0 where
  no_legacy : Legacy
  bad_legacy : String → Legacy
  credentials : String → String → Legacy

-- nil, errNoUsers, or another error
pub data LoadReply : Type 0 where
  loaded_users : LoadReply
  no_store : LoadReply
  failed : String → LoadReply

abbrev pub no_rows {ℓ} : {A : Type ℓ} → List (String × A) → Bool
no_rows [] = true
no_rows (x ∷ xs) = false

with_principals : Gate → List (String × Account) → ℕ → Rows Principal → Gate × LoadReply
with_principals g users counter (broken principals why) =
    (record g { live = record g.live { users = users; principals = principals } }, failed why)
with_principals g users counter (read principals) =
    let live : UsersFile = record {
      users = users;
      principals = principals;
      epoch_counter = counter;
    } in
    (
      record g { live = live; setup_required = false },
      if no_rows users && no_rows principals
          then failed "credential store has no users and no SSO principals"
          else loaded_users,
    )

with_users : Gate → List Principal → ℕ → Rows Account → Gate × LoadReply
unfolding with_principals
with_users g ps counter (broken users why) =
    (record g { live = record g.live { users = users } }, failed why)
with_users g ps counter (read users) =
    with_principals g users counter
      (read_rows (λ (p : Principal). p.subject) normal_principal ps [])

-- The migration of auth.json: a failed write of users.json is only logged.
from_legacy : Gate → Legacy → Gate × LoadReply
from_legacy g no_legacy = (g, no_store)
from_legacy g (bad_legacy why) = (g, failed why)
from_legacy g (credentials username hash) =
    if hash == ""
    then (g, failed "legacy file has no password hash")
    else (let name = if username == "" then "admin" else username in
        let live : UsersFile = record g.live {
          users = (name, new_account name hash "admin" 0 "") ∷ [];
        } in
        (
          (saved_users live done (record g { live = live; setup_required = false })).0,
          loaded_users,
        ))

-- loadUsers
unfoldable pub load_users : Stored → Legacy → Gate → Gate × LoadReply
unfolding with_users from_legacy
load_users (unreadable why) old_file g = (g, failed why)
load_users absent old_file g = from_legacy g old_file
load_users (present us ps counter) old_file g =
    with_users g ps counter (read_rows (λ (u : Account). u.username) normal_account us [])

-- materializeEnvBootstrap
hashed_env : String → Gate → Option String → Gate × Reply
hashed_env name g none = (g, refused "bcrypt")
hashed_env name g (some h) =
    opened (saved_users (with_user name (new_account name h "admin" 1 "") 1 g) done g)

unfoldable pub materialize_env : World → String → String → Gate → Gate × Reply
unfolding hashed_env
materialize_env w name pass g = hashed_env name g (w.hash pass)

-- The end of newAuthGate; the Boolean is whether initErr is set.
env_opened : Gate × Reply → Gate × Bool
env_opened (g, done) = (g, false)
env_opened (g, other) = (g, true)

opened_gate : World → Gate × LoadReply → Gate × Bool
unfolding env_opened
opened_gate w (g, loaded_users) = (g, false)
opened_gate w (g, failed why) = (g, true)
opened_gate w (g, no_store) =
    if g.env_pass == ""
    then (record g { setup_required = true }, false)
    else (let name = w.trim g.env_user in
        env_opened (materialize_env w (if name == "" then "admin" else name) g.env_pass g))

-- newAuthGate, for the accounts; the disk of the gate is not read but through `stored`.
unfoldable pub new_auth_gate : World → Stored → Legacy → String → String → Gate → Gate × Bool
unfolding opened_gate
new_auth_gate w stored old_file user pass blank = opened_gate w (
    load_users stored old_file (record blank {
      live = record { users = []; principals = []; epoch_counter = 0 };
      setup_required = false;
      env_user = user;
      env_pass = pass;
    }))

-- authenticate; `matches` is bcrypt's comparison.
unfoldable pub authenticated : (String → String → Bool) → String → Option Account → Option Account
authenticated matches password none = none
authenticated matches password (some u) =
    if matches u.password_hash password
    then some (new_account u.username "" (normalize_role u.role) u.auth_epoch "")
    else none

unfoldable pub authenticate : (String → String → Bool) → String → String → Gate → Option Account
unfolding authenticated
authenticate matches username password g =
    let env = if g.env_user == "" then "admin" else g.env_user in
    authenticated matches password (lookup (if username == "" then env else username) g.live.users)

-- The body of a request to set up the first account.
pub record SetupBody : Type 0 where
  pub username : String
  pub password : String
  pub confirm_password : String
  pub bootstrap_token : String

-- checkBootstrapToken
unfoldable pub check_bootstrap_token : String → ℕ → ℕ → String → Bool
check_bootstrap_token token expiry now supplied =
    not (token == "" || supplied == "" || ltb expiry now) && supplied == token

-- handleSetup up to the account; the new session is issued with the account's epoch.
unfoldable pub handle_setup : World → String → ℕ → ℕ → SetupBody → Gate → Gate × Reply
handle_setup w token expiry now body g =
    if not g.setup_required
    then (g, refused "account already configured")
    else if not (check_bootstrap_token token expiry now body.bootstrap_token)
    then (g, refused "missing or invalid bootstrap token — check the server log")
    else if not (body.password == body.confirm_password)
    then (g, refused "passwords do not match")
    else (let name = w.trim body.username in
        create_user w (if name == "" then "admin" else name) body.password "admin" g)
