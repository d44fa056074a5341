-- ===== src/Operation/Template.antt =====
-- internal/operation/build.go: BuildTemplateInstall, the dispatch of Build, and what a record keeps
-- of the variables.
pub mod Secrets
use teploy_dash.Common.{
  String, Bool, true, false, not, ◌&&◌, Option, none, some, List, [], ◌∷◌, ◌++◌, if◌then◌else◌,
  ◌==◌, string_eq, join, keys, select, map,
}
use teploy_dash.Operation.Types.{
  Kind, deploy, rollback, remove, template_install, app_lifecycle, maintenance, redeploy,
  backup_create, backup_restore, server_audit, route_remove, releases_prune, server_prune,
  other_kind, Request, Server, Command, Result, ok, err, message, ◌>>=◌, ◌>>◌, refuse_if,
}
use teploy_dash.Operation.Build.Rules.{valid_identifier, valid_var_name}
use teploy_dash.Operation.Build.{
  Env, Resolver, Built, resolve_request, with_home, sort_strings, value_of, kind_timeout,
  build_deploy, build_rollback, build_remove, build_app_lifecycle, build_maintenance,
  build_redeploy, build_backup_create, build_backup_restore, build_server_audit, build_route_remove,
  build_releases_prune, build_server_prune,
}

abbrev legacy_refusal : String
legacy_refusal =
    "template variables carry secret values this CLI cannot receive safely (no --var-stdin support); upgrade the CLI, or set TEPLOY_DASH_UNSAFE_LEGACY_SECRET_ARGV=1 to deliberately accept process-list exposure"

-- The loop that collects the keys refuses a name outside the grammar.
check_names : Env → List String → Result (Unit {0})
check_names env [] = ok tt
check_names env (k ∷ rest) =
    if valid_var_name k
    then check_names env rest
    else err (message (join ("invalid template variable " ∷ env.quote k ∷ [])))

-- The values that are not empty, in the order of the keys.
secrets_of : Request → List String → List String
secrets_of req ks = select (λ v. not (v == "")) (map (value_of req) ks)

var_flags : Request → List String → List String
var_flags req [] = []
var_flags req (k ∷ rest) = "--var" ∷ join (k ∷ "=" ∷ value_of req k ∷ []) ∷ var_flags req rest

any_value : Request → List String → Bool
any_value req [] = false
any_value req (k ∷ rest) = if value_of req k == "" then any_value req rest else true

is_nil : List String → Bool
is_nil [] = true
is_nil (x ∷ xs) = false

abbrev template_command : List String → List String → String → Command
template_command args secrets stdin = record {
  args = args;
  timeout = kind_timeout template_install;
  secrets = secrets;
  stdin = stdin;
}

-- How the variables travel: on the standard input, or on the argument vector.
transport : Env → Bool → Request → List String → List String → Result Command
unfolding secrets_of var_flags any_value is_nil
transport env var_stdin req ks args =
    if var_stdin && not (is_nil ks)
    then (do
      stdin ← env.marshal_vars (map (λ k. (k, value_of req k)) ks)
      ok (template_command (args ++ "--var-stdin" ∷ []) (secrets_of req ks) stdin))
    else if not env.legacy_secret_argv_allowed && any_value req ks
    then err (message legacy_refusal)
    else ok (template_command (args ++ var_flags req ks) (secrets_of req ks) "")

unfoldable pub build_template_install : Env → Bool → Request → Resolver → Result Built
unfolding check_names transport
build_template_install env var_stdin req resolve = do
  srv ← resolve_request req resolve false
  refuse_if (not (valid_identifier req.template)) "invalid template"
  refuse_if (req.domain == "") "domain is required"
  args ←
      with_home req (
        "template" ∷ "install" ∷ req.template ∷ "--domain" ∷ req.domain ∷ "--server" ∷ srv.name
        ∷ [])
  check_names env (keys req.vars)
  command ← transport env var_stdin req (sort_strings (keys req.vars)) args
  ok (record {
    command = command;
    server = srv;
    target = join ("server:" ∷ req.server ∷ "/template:" ∷ req.template ∷ []);
  })

-- The probe runs only when there are variables.
probe : Env → List (String × String) → Result Bool
probe env [] = ok false
probe env (v ∷ vs) = env.var_stdin_support

dispatch : Env → Kind → Request → Resolver → Result Built
unfolding probe
dispatch env deploy req r = build_deploy env req r
dispatch env rollback req r = build_rollback env req r
dispatch env remove req r = build_remove env req r
dispatch env template_install req r = do
  var_stdin ← probe env req.vars
  build_template_install env var_stdin req r
dispatch env app_lifecycle req r = build_app_lifecycle env req r
dispatch env maintenance req r = build_maintenance env req r
dispatch env redeploy req r = build_redeploy env req r
dispatch env backup_create req r = build_backup_create env req r
dispatch env backup_restore req r = build_backup_restore env req r
dispatch env server_audit req r = build_server_audit env req r
dispatch env route_remove req r = build_route_remove env req r
dispatch env releases_prune req r = build_releases_prune env req r
dispatch env server_prune req r = build_server_prune env req r
dispatch env (other_kind name) req r =
    err (message (join ("unsupported operation kind " ∷ env.quote name ∷ [])))

-- Build
unfoldable pub build : Env → Request → Resolver → Result Built
unfolding dispatch
build env req r = dispatch env req.kind req r

redact_values : List (String × String) → List (String × String)
redact_values [] = []
redact_values ((k, v) ∷ rest) = (k, if v == "" then "" else "[REDACTED]") ∷ redact_values rest

-- redactedRequest
unfoldable pub redacted_request : Request → Request
unfolding redact_values
redacted_request req = record req { vars = redact_values req.vars }
