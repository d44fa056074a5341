-- ===== src/Access/SignIn.antt =====
-- internal/server/server.go: handleLogin, handleChangePassword and handleLogout, after their request
-- is read.
pub mod Issued
use teploy_dash.Common.{
  ℕ, String, Bool, true, false, not, ◌||◌, Option, none, some, List, [], ◌∷◌, eqb, if◌then◌else◌,
  ◌==◌, string_eq, lookup, remove, is_some,
}
use teploy_dash.Access.Users.{Account, Gate, World, Reply, done, signed_in, stale, refused}
use teploy_dash.Access.Accounts.{set_password, set_password_migrating_env}
use teploy_dash.Access.Start.{authenticate}
use teploy_dash.Access.Sessions.{
  Live, Sessions, FailInfo, new_session_for, delete_session, delete_user_sessions, locked_out,
  record_fail,
}

-- authGate: its accounts, its sessions and its failed sign-ins.
pub record Front : Type 0 where
  pub gate : Gate
  pub sessions : Sessions
  pub fails : List (String × FailInfo)

pub data LoginReply : Type 0 where
  too_many_attempts incorrect welcome : LoginReply

pub logged_in : String → String → ℕ → Front → Option Account → Front × LoginReply
logged_in key ip now f none = (record f { fails = record_fail ip now f.fails }, incorrect)
logged_in key ip now f (some u) = (
  record f {
    sessions = new_session_for key u.username u.username u.role u.auth_epoch true now f.sessions;
    fails = remove ip f.fails;
  },
  welcome,
)

-- handleLogin; `key` is the digest of the token that a new session gets.
unfoldable pub handle_login :
    (String → String → Bool) → String → String → String → String → ℕ → Front → Front × LoginReply
unfolding logged_in
handle_login matches key ip username password now f =
    if locked_out ip now f.fails
    then (f, too_many_attempts)
    else logged_in key ip now f (authenticate matches username password f.gate)

-- handleLogout, of a request with a session cookie
unfoldable pub handle_logout : String → ℕ → Front → Front
handle_logout key now f = record f { sessions = delete_session key now f.sessions }

-- The end of handleChangePassword: only after a change that succeeded the sessions of the user go.
changed : String → ℕ → Front → Gate × Reply → Front × Reply
changed user now f (g, done) =
    (record f { gate = g; sessions = delete_user_sessions user now f.sessions }, done)
changed user now f (g, signed_in epoch role) = (
  record f { gate = g; sessions = delete_user_sessions user now f.sessions },
  signed_in epoch role,
)
changed user now f (g, stale) = (record f { gate = g }, stale)
changed user now f (g, refused why) = (record f { gate = g }, refused why)

change_checked : World → Live → String → String → ℕ → Front → Option Account → Front × Reply
unfolding changed
change_checked w live new confirm now f none = (f, refused "current password is incorrect")
change_checked w live new confirm now f (some u) =
    if not (new == confirm)
    then (f, refused "passwords do not match")
    else changed live.user now f (
        if not (eqb u.auth_epoch 0) || is_some (lookup live.user f.gate.live.users)
        then set_password w live.user (some u.auth_epoch) new f.gate
        else set_password_migrating_env w live.user new f.gate)

-- handleChangePassword, of a request with a live session
unfoldable pub handle_change_password :
    World → (String → String → Bool) → Live → String → String → String → ℕ → Front → Front × Reply
unfolding change_checked
handle_change_password w matches live current new confirm now f =
    if not live.local
    then (f, refused "change your SSO password at your identity provider")
    else change_checked w live new confirm now f (authenticate matches live.user current f.gate)
