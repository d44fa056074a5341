-- ===== src/Operation/Target.antt =====
-- internal/operation/manager.go: checkTarget, the comparison of the server that was admitted with
-- the one that its name resolves to now, and the retargeting of a command after a rename.
pub mod Identity
use teploy_dash.Common.{
  ℕ, String, Bool, true, false, not, ◌&&◌, ◌||◌, Option, none, some, List, [], ◌∷◌, if◌then◌else◌,
  ◌==◌, string_eq, join,
}
use teploy_dash.Operation.Types.{Operation, Server, Command, Error, Result, ok, err}
use teploy_dash.Operation.Manager.{Setup}
use teploy_dash.Operation.Build.{Env}
use teploy_dash.Operation.Lifecycle.{error_text}

unfoldable pub user_of : Server → String
user_of srv = if srv.user == "" then "root" else srv.user

-- `admitted.Host == current.Host && userOf(...) == userOf(...)`
unfoldable pub same_host : Server → Server → Bool
unfolding user_of
same_host a b = a.host == b.host && user_of a == user_of b

-- The arguments after the first, with the argument before each: a name is replaced after
-- `--server`, and as the one that follows a leading `deploy`.
retarget_rest : String → String → Bool → String → List String → List String
retarget_rest from to first prev [] = []
retarget_rest from to first prev (arg ∷ rest) =
    let arg' =
      if arg == from && ((first && prev == "deploy") || prev == "--server") then to else arg in
    arg' ∷ retarget_rest from to false arg' rest

retarget_args : String → String → List String → List String
unfolding retarget_rest
retarget_args from to [] = []
retarget_args from to (arg ∷ rest) = arg ∷ retarget_rest from to true arg rest

-- retargetCommand
unfoldable pub retarget_command : Command → String → String → Command
unfolding retarget_args
retarget_command cmd from to =
    if from == "" || from == to then cmd else record cmd { args = retarget_args from to cmd.args }

-- An empty message is the verdict that the target is the one admitted.
pub record Checked : Type 0 where
  pub mismatch : String
  pub command : Command

module _ (c : Setup) where
  renamed : String → Server → Command → Error → Option Server → Checked
  renamed name admitted cmd e none = record {
    mismatch = join (
        "server "
        ∷ c.env.quote name
        ∷ " could not be resolved since admission ("
        ∷ error_text e
        ∷ ") and its admitted id "
        ∷ admitted.id
        ∷ " matches no configured server; verify the server configuration and retry"
        ∷ []);
    command = cmd;
  }
  renamed name admitted cmd e (some srv) =
      if not (same_host srv admitted)
      then record {
        mismatch = join (
            "server "
            ∷ c.env.quote name
            ∷ " was renamed and repointed since admission (admitted "
            ∷ admitted.host
            ∷ ", now "
            ∷ srv.host
            ∷ "); explicit re-authorization required — retry the operation"
            ∷ []);
        command = cmd;
      }
      else record { mismatch = ""; command = retarget_command cmd name srv.name }

  unresolved : String → Server → Command → Error → Option (String → Option Server) → Checked
  unfolding renamed
  unresolved name admitted cmd e (some by_id) =
      if not (admitted.id == "") then renamed name admitted cmd e (by_id admitted.id) else record {
        mismatch = join (
            "server "
            ∷ c.env.quote name
            ∷ " could not be resolved since admission ("
            ∷ error_text e
            ∷ "); verify the server configuration and retry"
            ∷ []);
        command = cmd;
      }
  unresolved name admitted cmd e none = record {
    mismatch = join (
        "server "
        ∷ c.env.quote name
        ∷ " could not be resolved since admission ("
        ∷ error_text e
        ∷ "); verify the server configuration and retry"
        ∷ []);
    command = cmd;
  }

  repointed : String → Server → Command → Server → Checked
  repointed name admitted cmd current =
      if not (admitted.id == "") && current.id == ""
      then record {
        mismatch = join (
            "server "
            ∷ c.env.quote name
            ∷ " no longer carries its admitted stable id "
            ∷ admitted.id
            ∷ " (an older teploy CLI may have rewritten servers.yml); binding is ambiguous — restore the id or re-try against an explicit server"
            ∷ []);
        command = cmd;
      }
      else if not (admitted.id == "") && not (current.id == admitted.id)
      then record {
        mismatch = join (
            "server "
            ∷ c.env.quote name
            ∷ " now resolves to a different server (admitted id "
            ∷ admitted.id
            ∷ ", now "
            ∷ current.id
            ∷ "); explicit re-authorization required — retry the operation"
            ∷ []);
        command = cmd;
      }
      else if not (same_host current admitted)
      then record {
        mismatch = join (
            "server "
            ∷ c.env.quote name
            ∷ " was repointed since admission (admitted "
            ∷ admitted.host
            ∷ ", now "
            ∷ current.host
            ∷ "); explicit re-authorization required — retry the operation"
            ∷ []);
        command = cmd;
      }
      else record { mismatch = ""; command = cmd }

  resolved : String → Server → Command → Result Server → Checked
  unfolding unresolved repointed
  resolved name admitted cmd (err e) = unresolved name admitted cmd e c.resolver_by_id
  resolved name admitted cmd (ok current) = repointed name admitted cmd current

  check_admitted : String → Command → Option Server → Option (String → Result Server) → Checked
  unfolding resolved
  check_admitted name cmd none r = record { mismatch = ""; command = cmd }
  check_admitted name cmd (some admitted) none = record { mismatch = ""; command = cmd }
  check_admitted name cmd (some admitted) (some resolve) = resolved name admitted cmd (resolve name)

  -- checkTarget
  unfoldable pub check_target : Operation → Command → Checked
  unfolding check_admitted
  check_target op cmd = check_admitted op.request.server cmd op.admitted_server c.resolver
