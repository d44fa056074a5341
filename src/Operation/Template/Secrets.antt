-- ===== src/Operation/Template/Secrets.antt =====
-- What reaches the argument vector of a template install.
use teploy_dash.Common.{
  String, Bool, true, false, none, some, List, [], ◌∷◌, string_eq, keys, ◌≡◌, refl, arith, inl, inr,
  ◌⊎◌,
}
use teploy_dash.Operation.Types.{
  Request, Command, Server, Result-cases, ok, supported_kind, err, message,
}
use teploy_dash.Operation.Build.{
  Env, Resolver, Built, resolve_request, with_home, sort_strings, value_of, build_deploy,
  build_rollback, build_remove, build_app_lifecycle, build_maintenance, build_redeploy,
  build_backup_create, build_backup_restore, build_server_audit, build_route_remove,
  build_releases_prune, build_server_prune,
}
use teploy_dash.Operation.Build.Rules.{valid_identifier}
use teploy_dash.Operation.Template.{var_flags, any_value, transport, build_template_install, build}

abbrev with_vars : Request → List (String × String) → Request
with_vars req vars = record req { vars = vars }

any_value-cons :
    (req : Request) (k : String) (ks : List String)
    → any_value req (k ∷ ks) ≡ false
    → (value_of req k ≡ "") × (any_value req ks ≡ false)
unfolding any_value
any_value-cons req k ks h = ground (arith, string_eq.beq_iff (value_of req k) "")

-- Without a value two requests have the same flags.
var_flags-eq :
    (req req' : Request) (ks : List String)
    → any_value req ks ≡ false
    → any_value req' ks ≡ false
    → var_flags req ks ≡ var_flags req' ks
unfolding var_flags
var_flags-eq req req' [] h h' = refl
var_flags-eq req req' (k ∷ ks) h h' =
    let (e, rest) = any_value-cons req k ks h in
    let (e', rest') = any_value-cons req' k ks h' in cc (e, e', var_flags-eq req req' ks rest rest')

transport-args :
    (env : Env) (b : Bool) (req req' : Request) (ks args : List String) {c c' : Command}
    → env.legacy_secret_argv_allowed ≡ false
    → transport env b req ks args ≡ ok c
    → transport env b req' ks args ≡ ok c'
    → c.args ≡ c'.args
unfolding transport
transport-args env b req req' ks args l h h' = ground (arith, var_flags-eq req req' ks)

resolve_request-vars :
    (req : Request) (vars : List (String × String)) (r : Resolver) (b : Bool)
    → resolve_request (with_vars req vars) r b ≡ resolve_request req r b
unfolding resolve_request
resolve_request-vars req vars none b = refl
resolve_request-vars req vars (some f) b = refl

with_home-vars :
    (req : Request) (vars : List (String × String)) (args : List String)
    → with_home (with_vars req vars) args ≡ with_home req args
unfolding with_home
with_home-vars req vars args = refl

abbrev install_args : Request → Server → List String
install_args req srv =
    "template" ∷ "install" ∷ req.template ∷ "--domain" ∷ req.domain ∷ "--server" ∷ srv.name ∷ []

-- A rendered install went through each step.
install_inv :
    (env : Env) (b : Bool) (req : Request) (r : Resolver) {t : Built}
    → build_template_install env b req r ≡ ok t
    → (srv : Server) × (args : List String) × (resolve_request req r false ≡ ok srv)
      × (with_home req (install_args req srv) ≡ ok args)
      × (transport env b req (sort_strings (keys req.vars)) args ≡ ok t.command)
unfolding build_template_install
install_inv env b req r {t} h =
    let (srv, p) : (srv : Server) × (resolve_request req r false ≡ ok srv) = ground arith in
    elim (Result-cases (with_home req (install_args req srv))) [
      | inl (args, q) ↦ (srv, args, p, q, ground (arith, p, q))
      | inr (e, q) ↦ absurd (ground (arith, p, q))
    ]

-- With the legacy transport off, what a template install puts on the argument vector does not
-- depend on the values of the variables: two requests that differ only in these, and that are both
-- rendered, have the same arguments.
pub args_secret_free :
    (env : Env) (b : Bool) (req : Request) (vars : List (String × String)) (r : Resolver)
    {t t' : Built}
    → env.legacy_secret_argv_allowed ≡ false
    → keys vars ≡ keys req.vars
    → build_template_install env b req r ≡ ok t
    → build_template_install env b (with_vars req vars) r ≡ ok t'
    → t.command.args ≡ t'.command.args
args_secret_free env b req vars r {t} {t'} l k h h' =
    let (srv, args, p, q, c) = install_inv env b req r h in
    let (srv', args', p', q', c') = install_inv env b (with_vars req vars) r h' in
    let e : srv' ≡ srv = cc (resolve_request-vars req vars r false) in
    let e' : args' ≡ args = cc (with_home-vars req vars (install_args req srv)) in
    transport-args env b req (with_vars req vars) (sort_strings (keys req.vars)) args
      {c' = t'.command} l c (rw (← k, ← e') c')

resolve_request-invalid :
    (req : Request) (r : Resolver) (b : Bool)
    → (valid_identifier req.server ≡ true)
      ⊎ (resolve_request req r b ≡ err (message "invalid server"))
unfolding resolve_request
resolve_request-invalid req r b = ground arith

-- Every request that is rendered names a server by a valid identifier (so by none that reads as a
-- flag), and is of a kind that the build supports.
pub build-valid :
    (env : Env) (req : Request) (r : Resolver) {t : Built}
    → build env req r ≡ ok t
    → (valid_identifier req.server ≡ true) × (supported_kind req.kind ≡ true)
unfolding build supported_kind build_deploy build_rollback build_remove build_app_lifecycle
    build_maintenance build_redeploy build_backup_create build_backup_restore build_server_audit
    build_route_remove build_releases_prune build_server_prune build_template_install
build-valid env req r h =
    ground (arith, resolve_request-invalid req r true, resolve_request-invalid req r false)
