-- ===== src/Operation/Build.antt =====
-- internal/operation/build.go: a request is validated and rendered as the CLI's argument vector.
-- What the file takes from elsewhere is `Env`: `strconv.Itoa`, the `%q` verb, `json.Marshal` of the
-- variables, and the two probes that the server package installs.
pub mod Rules
use teploy_dash.Common.{
  ℕ, ◌+◌, ◌*◌, ◌^◌, String, Bool, true, false, not, ◌&&◌, ◌||◌, Option, none, some, List, [], ◌∷◌,
  ◌++◌, ltb, if◌then◌else◌, ℤ, pos, negsuc, is_positive, is_negative, ◌==◌, string_eq, join, lookup,
  keys, str_leb, byte_length, select, map,
}
use teploy_dash.Operation.Types.{
  Kind, deploy, rollback, remove, template_install, app_lifecycle, maintenance, redeploy,
  backup_create, backup_restore, server_audit, route_remove, releases_prune, server_prune,
  other_kind, Request, Server, Command, Result, ok, err, message, ◌>>=◌, ◌>>◌, refuse_if,
}
use Rules.{valid_identifier, valid_var_name, valid_backup_id}

pub record Env : Type 0 where
  pub itoa : ℤ → String
  pub quote : String → String
  pub marshal_vars : List (String × String) → Result String
  pub var_stdin_support : Result Bool
  pub legacy_secret_argv_allowed : Bool

-- `Resolver`; nil is `none`.
abbrev pub Resolver : Type 0
Resolver = Option (String → Result Server)

pub record Built : Type 0 where
  pub command : Command
  pub server : Server
  pub target : String

abbrev pub minute : ℕ
minute = 60 * 10 ^ 9

abbrev pub cli_backup_deadline : ℕ
cli_backup_deadline = 360 * minute

abbrev pub cli_deadline_margin : ℕ
cli_deadline_margin = 15 * minute

abbrev pub cli_audit_deadline : ℕ
cli_audit_deadline = 5 * minute

unfoldable pub kind_timeout : Kind → ℕ
kind_timeout deploy = 30 * minute
kind_timeout redeploy = 30 * minute
kind_timeout template_install = 30 * minute
kind_timeout backup_create = 30 * minute
kind_timeout rollback = 10 * minute
kind_timeout remove = 10 * minute
kind_timeout app_lifecycle = 5 * minute
kind_timeout maintenance = 5 * minute
kind_timeout backup_restore = 60 * minute
kind_timeout server_prune = 15 * minute
kind_timeout releases_prune = 10 * minute
kind_timeout route_remove = 5 * minute
kind_timeout server_audit = 30 * minute
kind_timeout (other_kind name) = 30 * minute

timeout_of : Kind → Request → ℕ
timeout_of backup_create req = cli_backup_deadline + cli_deadline_margin
timeout_of backup_restore req =
    if req.no_backup
    then cli_backup_deadline + cli_deadline_margin
    else 2 * cli_backup_deadline + cli_deadline_margin
timeout_of remove req =
    if req.purge && not req.no_backup
    then cli_backup_deadline + cli_deadline_margin
    else kind_timeout req.kind
timeout_of server_audit req = cli_audit_deadline + cli_deadline_margin
timeout_of _ req = kind_timeout req.kind

unfoldable pub execution_timeout : Request → ℕ
unfolding timeout_of kind_timeout
execution_timeout req = timeout_of req.kind req

abbrev is_remove : Kind → Bool
is_remove remove = true
is_remove _ = false

unfoldable pub hold_ceiling : Request → ℕ
unfolding kind_timeout
hold_ceiling req = if is_remove req.kind && req.purge then 60 * minute else kind_timeout req.kind

named : Request → Server → Server
named req srv =
    let srv' = if srv.name == "" then record srv { name = req.server } else srv in
    if srv'.host == "" then record srv' { host = srv'.name } else srv'

resolve_name : Resolver → Request → Result Server
unfolding named
resolve_name none req = err (message "server resolver is unavailable")
resolve_name (some resolve) req = do srv ← resolve req.server; ok (named req srv)

unfoldable pub resolve_request : Request → Resolver → Bool → Result Server
unfolding resolve_name
resolve_request req resolve app_required = do
  refuse_if (not (valid_identifier req.server)) "invalid server"
  refuse_if (app_required && not (valid_identifier req.app)) "invalid app"
  resolve_name resolve req

unfoldable pub add_user : List String → String → List String
add_user args user =
    if not (user == "") && not (user == "root") then args ++ "--user" ∷ user ∷ [] else args

unfoldable pub app_target : Request → String
app_target req = join ("server:" ∷ req.server ∷ "/app:" ∷ req.app ∷ [])

abbrev pub server_target : Request → String
server_target req = join ("server:" ∷ req.server ∷ [])

-- `if cond { args = append(args, extra...) }`
abbrev pub also : Bool → List String → List String → List String
also b extra args = if b then args ++ extra else args

abbrev pub built : List String → ℕ → Server → String → Result Built
built args timeout srv target = ok (record {
  command = record { args = args; timeout = timeout; secrets = []; stdin = "" };
  server = srv;
  target = target;
})

-- The `switch req.Home` of deploy and template install.
unfoldable pub with_home : Request → List String → Result (List String)
with_home req args =
    if req.home == ""
    then ok args
    else if req.home == "teploy"
    then ok (args ++ "--home" ∷ "teploy" ∷ [])
    else err (message "home must be teploy or empty")

abbrev pub over : ℤ → ℕ → Bool
over (pos n) top = ltb top n
over (negsuc n) top = false

-- sort.Strings
insert_string : String → List String → List String
insert_string s [] = s ∷ []
insert_string s (x ∷ xs) = if str_leb s x then s ∷ x ∷ xs else x ∷ insert_string s xs

unfoldable pub sort_strings : List String → List String
unfolding insert_string
sort_strings [] = []
sort_strings (s ∷ rest) = insert_string s (sort_strings rest)

unfoldable pub value_of : Request → String → String
unfolding lookup
value_of req k = elim (lookup k req.vars) [ none ↦ "" | some v ↦ v ]

module _ (env : Env) where
  unfoldable pub build_deploy : Request → Resolver → Result Built
  build_deploy req resolve = do
    refuse_if (not (req.mode == "") && not (req.mode == "ad-hoc")) "deploy mode must be ad-hoc"
    srv ← resolve_request req resolve true
    refuse_if (is_negative req.port || over req.port 65535) "port must be between 0 and 65535"
    let args = add_user ("deploy" ∷ srv.name ∷ "--app" ∷ req.app ∷ []) srv.user
    let args' = also (not (req.image == "")) ("--image" ∷ req.image ∷ []) args
    let args'' = also (not (req.domain == "")) ("--domain" ∷ req.domain ∷ []) args'
    full ← with_home req (also (is_positive req.port) ("--port" ∷ env.itoa req.port ∷ []) args'')
    built full (kind_timeout deploy) srv (app_target req)

  unfoldable pub build_rollback : Request → Resolver → Result Built
  build_rollback req resolve = do
    srv ← resolve_request req resolve true
    refuse_if
        (not (req.to == "") && (ltb 128 (byte_length req.to) || not (valid_identifier req.to)))
        "invalid rollback target"
    let args = "rollback" ∷ "--host" ∷ srv.host ∷ "--app" ∷ req.app ∷ []
    let args' = also (not (req.to == "")) ("--to" ∷ req.to ∷ []) args
    built (add_user args' srv.user) (kind_timeout rollback) srv (app_target req)

  unfoldable pub build_remove : Request → Resolver → Result Built
  build_remove req resolve = do
    srv ← resolve_request req resolve true
    refuse_if (req.no_backup && not req.purge) "no_backup only applies to a purge"
    let args = "remove" ∷ "--yes" ∷ "--json" ∷ "--host" ∷ srv.host ∷ "--app" ∷ req.app ∷ []
    let args' = also req.no_backup ("--no-backup" ∷ []) (also req.purge ("--purge" ∷ []) args)
    let args'' = also (not (req.redirect == "")) ("--redirect" ∷ req.redirect ∷ []) args'
    built (add_user args'' srv.user) (execution_timeout req) srv (app_target req)

  unfoldable pub build_app_lifecycle : Request → Resolver → Result Built
  build_app_lifecycle req resolve = do
    srv ← resolve_request req resolve true
    refuse_if
        (not (
          req.action == "start"
          || req.action == "stop"
          || req.action == "restart"
          || req.action == "lock"
          || req.action == "unlock"))
        (join ("unsupported app lifecycle action " ∷ env.quote req.action ∷ []))
    let args = req.action ∷ "--host" ∷ srv.host ∷ "--app" ∷ req.app ∷ []
    built (add_user args srv.user) (kind_timeout app_lifecycle) srv (app_target req)

  unfoldable pub build_maintenance : Request → Resolver → Result Built
  build_maintenance req resolve = do
    srv ← resolve_request req resolve true
    refuse_if (not (req.action == "on") && not (req.action == "off"))
        "maintenance action must be on or off"
    let args = "maintenance" ∷ req.action ∷ "--host" ∷ srv.host ∷ "--app" ∷ req.app ∷ []
    built (add_user args srv.user) (kind_timeout maintenance) srv (app_target req)

  unfoldable pub build_redeploy : Request → Resolver → Result Built
  build_redeploy req resolve = do
    srv ← resolve_request req resolve true
    let args = "redeploy" ∷ "--json" ∷ "--host" ∷ srv.host ∷ "--app" ∷ req.app ∷ []
    built (add_user args srv.user) (kind_timeout redeploy) srv (app_target req)

  unfoldable pub build_backup_create : Request → Resolver → Result Built
  build_backup_create req resolve = do
    srv ← resolve_request req resolve true
    let args = "backup" ∷ "create" ∷ "--json" ∷ "--host" ∷ srv.host ∷ "--app" ∷ req.app ∷ []
    refuse_if (not (req.accessory == "") && not (valid_identifier req.accessory))
        "invalid accessory"
    let args' = also (not (req.accessory == "")) ("--accessory" ∷ req.accessory ∷ []) args
    built (add_user args' srv.user) (execution_timeout req) srv (app_target req)

  unfoldable pub build_backup_restore : Request → Resolver → Result Built
  build_backup_restore req resolve = do
    srv ← resolve_request req resolve true
    refuse_if (not (valid_backup_id req.backup_id)) "invalid backup id"
    refuse_if (not (req.accessory == "") && not (valid_identifier req.accessory))
        "invalid accessory"
    refuse_if (not (req.database == "") && req.accessory == "") "database needs an accessory"
    refuse_if (not (req.database == "") && not (valid_identifier req.database)) (
        join
          ("database name " ∷ env.quote req.database ∷ " can only be restored with the CLI" ∷ []))
    let args =
        "backup" ∷ "restore" ∷ req.backup_id ∷ "--yes" ∷ "--json" ∷ "--host" ∷ srv.host ∷ "--app"
        ∷ req.app ∷ []
    let args' = also (not (req.accessory == "")) ("--accessory" ∷ req.accessory ∷ []) args
    let args'' = also (not (req.database == "")) ("--database" ∷ req.database ∷ []) args'
    let full = also req.no_backup ("--no-backup" ∷ []) args''
    built (add_user full srv.user) (execution_timeout req) srv (app_target req)

  unfoldable pub build_server_audit : Request → Resolver → Result Built
  build_server_audit req resolve = do
    srv ← resolve_request req resolve false
    built ("server" ∷ "audit" ∷ srv.name ∷ "--json" ∷ []) (execution_timeout req) srv
        (server_target req)

  unfoldable pub build_route_remove : Request → Resolver → Result Built
  build_route_remove req resolve = do
    srv ← resolve_request req resolve true
    let args = "route" ∷ "remove" ∷ "--json" ∷ "--host" ∷ srv.host ∷ "--app" ∷ req.app ∷ []
    built (add_user args srv.user) (kind_timeout route_remove) srv (app_target req)

  unfoldable pub build_releases_prune : Request → Resolver → Result Built
  build_releases_prune req resolve = do
    srv ← resolve_request req resolve true
    refuse_if (is_negative req.keep || over req.keep 1000) "keep must be between 0 and 1000"
    let args =
        "releases"
        ∷ "prune"
        ∷ "--json"
        ∷ "--host"
        ∷ srv.host
        ∷ "--app"
        ∷ req.app
        ∷ "--keep"
        ∷ env.itoa req.keep
        ∷ []
    built (add_user args srv.user) (kind_timeout releases_prune) srv (app_target req)

  unfoldable pub build_server_prune : Request → Resolver → Result Built
  build_server_prune req resolve = do
    srv ← resolve_request req resolve false
    let args =
        "server" ∷ "prune" ∷ "--json" ∷ "--host" ∷ srv.host ∷ "--build-cache" ∷ "--dangling" ∷ []
    built (add_user args srv.user) (kind_timeout server_prune) srv (server_target req)
