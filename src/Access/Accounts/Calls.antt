-- ===== src/Access/Accounts/Calls.antt =====
-- internal/server/users.go: any sequence of changes to the accounts, and what one change comes to.
use teploy_dash.Common.{ℕ, String, Bool, true, false, Option, List, [], ◌∷◌, string_eq}
use teploy_dash.Access.Users.{Gate, World, Reply, done, signed_in, stale, refused}
use teploy_dash.Access.Accounts.{
  upsert_principal, revoke_principal, revoke_sessions, create_user, set_password,
  set_password_migrating_env, set_role, delete_user, narrow_to_preset, set_capabilities,
}

pub data Call : Type 0 where
  signs_in : String → String → String → String → String → Call
  revokes_principal : String → Call
  revokes : String → Call
  creates : String → String → String → Call
  sets_password : String → Option ℕ → String → Call
  migrates : String → String → Call
  sets_role : String → String → Call
  deletes : String → Call
  narrows : String → Call
  grants : String → List String → Call

unfoldable pub act : World → Call → Gate → Gate × Reply
act w (signs_in sub username email role at) g = upsert_principal sub username email role at g
act w (revokes_principal sub) g = revoke_principal sub g
act w (revokes name) g = revoke_sessions name g
act w (creates username password role) g = create_user w username password role g
act w (sets_password name expected password) g = set_password w name expected password g
act w (migrates name password) g = set_password_migrating_env w name password g
act w (sets_role name role) g = set_role name role g
act w (deletes name) g = delete_user name g
act w (narrows name) g = narrow_to_preset name g
act w (grants name list) g = set_capabilities name list g

unfoldable pub play : World → List Call → Gate → Gate
unfolding act
play w [] g = g
play w (c ∷ cs) g = play w cs (act w c g).0

abbrev pub is_failure : Reply → Bool
is_failure done = false
is_failure (signed_in e role) = false
is_failure stale = true
is_failure (refused why) = true
