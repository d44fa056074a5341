-- ===== src/Access/Accounts.antt =====
-- internal/server/users.go: accounts, principals of single sign-on, and their epochs.
pub mod Calls
pub mod Edits
pub mod Moved
pub mod Saved
pub mod Narrowed
pub mod Admins
pub mod Epochs
pub mod Retired
use teploy_dash.Common.{
  ℕ, zero, suc, ◌+◌, ◌-◌, ◌^◌, ◌%◌, String, Bool, true, false, not, ◌&&◌, ◌||◌, Option, none, some,
  List, [], ◌∷◌, ◌++◌, ltb, leb, eqb, if◌then◌else◌, ◌==◌, string_eq, lookup, insert, remove, tally,
  byte_length, join, is_some,
}
use teploy_dash.Access.Caps.{normalize, unknown_token}
use teploy_dash.Access.Users.{
  Account, Principal, UsersFile, Write, wrote, lost, visible, Gate, World, Reply, done, signed_in,
  stale, refused, normalize_role, next_epoch, published, commit, saved_users, with_user,
  with_principal, fresh_epoch, Hashed, hashed, unfit, checked_password,
}

-- upsertOIDCPrincipal
upsert_row : String → String → String → String → String → Gate → Option Principal → Gate × Reply
unfolding saved_users
upsert_row sub username email role at g (some p) =
    saved_users
      (with_principal sub
        (record p { username = username; email = email; role = role; last_sign_in = at })
        g.live.epoch_counter g)
      (signed_in p.auth_epoch role) g
upsert_row sub username email role at g none =
    let p : Principal = record {
      subject = sub;
      username = username;
      email = email;
      role = role;
      auth_epoch = fresh_epoch g;
      last_sign_in = at;
      capability_profile = "preset";
      capabilities = [];
    } in
    saved_users (with_principal sub p (fresh_epoch g) g) (signed_in (fresh_epoch g) role) g

unfoldable pub upsert_principal : String → String → String → String → String → Gate → Gate × Reply
unfolding upsert_row normalize_role
upsert_principal sub username email role at g =
    if sub == "" || username == ""
    then (g, refused "principal subject and username are required")
    else upsert_row sub username email (normalize_role role) at g (lookup sub g.live.principals)

-- revokePrincipalSessions
revoke_row : String → Gate → Option Principal → Gate × Reply
unfolding saved_users
revoke_row sub g none = (g, refused "principal not found")
revoke_row sub g (some p) =
    saved_users (with_principal sub (record p { auth_epoch = fresh_epoch g }) (fresh_epoch g) g)
      done g

unfoldable pub revoke_principal : String → Gate → Gate × Reply
unfolding revoke_row
revoke_principal sub g = revoke_row sub g (lookup sub g.live.principals)

-- revokeSessions
revoke_user : String → Gate → Option Account → Gate × Reply
unfolding saved_users
revoke_user name g none = (g, refused "user not found")
revoke_user name g (some u) =
    saved_users (with_user name (record u { auth_epoch = fresh_epoch g }) (fresh_epoch g) g) done g

unfoldable pub revoke_sessions : String → Gate → Gate × Reply
unfolding revoke_user
revoke_sessions name g = revoke_user name g (lookup name g.live.users)

abbrev pub new_account : String → String → String → ℕ → String → Account
new_account name h role epoch profile = record {
  username = name;
  password_hash = h;
  role = role;
  auth_epoch = epoch;
  capability_profile = profile;
  capabilities = [];
}

-- The account is created; the first one ends the set-up.
abbrev pub opened : Gate × Reply → Gate × Reply
opened (g, done) = (record g { setup_required = false }, done)
opened (g, other) = (g, other)

create_row : String → String → Gate → Hashed → Option Account → Gate × Reply
unfolding saved_users normalize_role
create_row name role g (unfit why) found = (g, refused why)
create_row name role g (hashed h) (some u) =
    (g, refused (join ("user \"" ∷ name ∷ "\" already exists" ∷ [])))
create_row name role g (hashed h) none = opened (
    saved_users
      (with_user name (new_account name h (normalize_role role) (fresh_epoch g) "preset")
        (fresh_epoch g) g)
      done g)

-- createUser
unfoldable pub create_user : World → String → String → String → Gate → Gate × Reply
unfolding create_row checked_password
create_user w username password role g =
    let name = w.trim username in
    if name == ""
    then (g, refused "username is required")
    else if not (w.valid_name name)
    then (
      g,
      refused
          "username must start with a letter or digit and use only letters, digits, and _ . @ - (max 64 characters)",
    )
    else create_row name role g (checked_password w password) (lookup name g.live.users)

-- A new password under an account that is there.
reset_row : String → String → Gate → Account → Gate × Reply
unfolding saved_users
reset_row name h g u =
    saved_users
      (with_user name (record u { password_hash = h; auth_epoch = fresh_epoch g }) (fresh_epoch g)
        g)
      done g

-- `expected` is the epoch of a compare-and-swap, none where it is not checked.
abbrev pub moved_on : Option ℕ → Account → Bool
moved_on none u = false
moved_on (some e) u = not (eqb u.auth_epoch e)

set_password_row : String → Option ℕ → Gate → Hashed → Option Account → Gate × Reply
unfolding reset_row
set_password_row name expected g (unfit why) found = (g, refused why)
set_password_row name expected g (hashed h) none = (g, refused "user not found")
set_password_row name expected g (hashed h) (some u) =
    if moved_on expected u then (g, stale) else reset_row name h g u

-- setPasswordCAS and setPassword
unfoldable pub set_password : World → String → Option ℕ → String → Gate → Gate × Reply
unfolding set_password_row checked_password
set_password w name expected password g =
    set_password_row name expected g (checked_password w password) (lookup name g.live.users)

migrate_row : String → Gate → Hashed → Option Account → Gate × Reply
unfolding saved_users reset_row
migrate_row name g (unfit why) found = (g, refused why)
migrate_row name g (hashed h) (some u) = reset_row name h g u
migrate_row name g (hashed h) none = opened (
    saved_users (with_user name (new_account name h "admin" (fresh_epoch g) "") (fresh_epoch g) g)
      done g)

-- setPasswordMigratingEnv
unfoldable pub set_password_migrating_env : World → String → String → Gate → Gate × Reply
unfolding migrate_row checked_password
set_password_migrating_env w name password g =
    let env = if g.env_user == "" then "admin" else g.env_user in
    if g.env_pass == "" || not (name == env)
    then (g, refused "user not found")
    else migrate_row name g (checked_password w password) (lookup name g.live.users)

abbrev pub is_admin : Account → Bool
is_admin u = u.role == "admin"

-- countAdminsLocked
unfoldable pub count_admins : List (String × Account) → ℕ
count_admins users = tally is_admin users

set_role_row : String → String → Gate → Option Account → Gate × Reply
unfolding saved_users count_admins
set_role_row name role g none = (g, refused "user not found")
set_role_row name role g (some u) =
    if is_admin u && not (role == "admin") && leb (count_admins g.live.users) 1
    then (g, refused "cannot demote the last admin")
    else saved_users
        (with_user name (record u { role = role; auth_epoch = fresh_epoch g }) (fresh_epoch g) g)
        done g

-- setRole
unfoldable pub set_role : String → String → Gate → Gate × Reply
unfolding set_role_row normalize_role
set_role name role g = set_role_row name (normalize_role role) g (lookup name g.live.users)

delete_row : String → Gate → Option Account → Gate × Reply
unfolding saved_users count_admins
delete_row name g none = (g, refused "user not found")
delete_row name g (some u) =
    if is_admin u && leb (count_admins g.live.users) 1
    then (g, refused "cannot remove the last admin")
    else saved_users
        (record g.live { users = remove name g.live.users; epoch_counter = fresh_epoch g }) done g

-- deleteUser
unfoldable pub delete_user : String → Gate → Gate × Reply
unfolding delete_row
delete_user name g = delete_row name g (lookup name g.live.users)

capabilities_row : String → String → List String → Gate → Option Account → Gate × Reply
unfolding saved_users
capabilities_row name profile list g none = (g, refused "user not found")
capabilities_row name profile list g (some u) =
    saved_users
      (with_user name (record u { capability_profile = profile; capabilities = list })
        g.live.epoch_counter g)
      done g

-- narrowToPreset
unfoldable pub narrow_to_preset : String → Gate → Gate × Reply
unfolding capabilities_row
narrow_to_preset name g = capabilities_row name "preset" [] g (lookup name g.live.users)

set_known : String → List String → Gate → Option String → Gate × Reply
unfolding capabilities_row normalize
set_known name list g (some c) = (g, refused (join ("unknown capability " ∷ c ∷ [])))
set_known name list g none =
    capabilities_row name "custom" (normalize list) g (lookup name g.live.users)

-- setCapabilities
unfoldable pub set_capabilities : String → List String → Gate → Gate × Reply
unfolding set_known unknown_token
set_capabilities name list g = set_known name list g (unknown_token list)
