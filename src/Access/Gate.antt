-- ===== src/Access/Gate.antt =====
-- internal/server/server.go: wrap, which every request passes.
pub mod Authorized
pub mod Barred
pub mod Viewing
use teploy_dash.Common.{
  ℕ, String, Bool, true, false, not, ◌&&◌, ◌||◌, Option, none, some, List, [], ◌∷◌, if◌then◌else◌,
  ◌==◌, string_eq,
}
use teploy_dash.Access.Caps.{missing}
use teploy_dash.Access.Users.{UsersFile}
use teploy_dash.Access.Sessions.{
  Session, Live, FailInfo, Sessions, lookup_session, delete_session, renew_session, revalidated,
  locked_out,
}
use teploy_dash.Access.Routes.{has_prefix, is_mutating, is_one_of, required_capabilities}

-- What wrap reads of a request: the token of its session cookie, whether it is same-origin, and the
-- address of its client.
pub record Request : Type 0 where
  pub method : String
  pub path : String
  pub same_origin : Bool
  pub token : Option String
  pub ip : String

-- authGate, as wrap sees it.
pub record Door : Type 0 where
  pub init_failed : Bool
  pub setup_required : Bool
  pub accounts : UsersFile
  pub sessions : Sessions
  pub fails : List (String × FailInfo)

-- What becomes of a request: it is served, with the live session if there is one, or refused.
pub data Verdict : Type 0 where
  served : Option Live → Verdict
  unavailable in_setup cross_origin throttled unauthorized : Verdict
  lacking : String → Verdict

abbrev probes : List String
probes = "/api/health" ∷ "/healthz" ∷ "/readyz" ∷ []

abbrev setup_paths : List String
setup_paths = "/api/health" ∷ "/healthz" ∷ "/readyz" ∷ "/setup" ∷ "/api/setup" ∷ []

abbrev open_paths : List String
open_paths =
    "/api/health" ∷ "/healthz" ∷ "/readyz" ∷ "/login" ∷ "/api/login" ∷ "/api/logout"
    ∷ "/api/login/methods" ∷ "/api/setup" ∷ "/status" ∷ "/api/status" ∷ "/api/mcp" ∷ "/favicon.svg"
    ∷ "/favicon.ico" ∷ []

abbrev crosses : Request → Bool
crosses r = is_mutating r.method && not r.same_origin

-- A route that is served without a session, but not across origins.
serve_open : Request → Verdict
serve_open r = if crosses r then cross_origin else served none

-- The session after its revalidation: a dead one is deleted, a live one is renewed.
settle_session : String → ℕ → Sessions → Option Live → Sessions × Option Live
settle_session key now g none = (delete_session key now g, none)
settle_session key now g (some live) = ((renew_session key now g).0, some live)

revalidate : String → ℕ → UsersFile → Sessions × Option Session → Sessions × Option Live
unfolding settle_session
revalidate key now accounts (g, none) = (g, none)
revalidate key now accounts (g, some s) = settle_session key now g (revalidated s accounts)

-- The session of a request, with the sessions as they are then.
session_of : (String → String) → Option String → ℕ → Door → Sessions × Option Live
unfolding revalidate
session_of digest none now d = (d.sessions, none)
session_of digest (some token) now d =
    revalidate (digest token) now d.accounts (lookup_session digest token now d.sessions)

first_lacking : Live → List String → Verdict
first_lacking live [] = served (some live)
first_lacking live (c ∷ cs) = lacking c

-- The end of wrap, once the session is known.
judge : Request → ℕ → Door → Option Live → Verdict
unfolding first_lacking
judge r now d none = if locked_out r.ip now d.fails then throttled else unauthorized
judge r now d (some live) =
    if crosses r
    then cross_origin
    else first_lacking live (missing live.caps (required_capabilities r.method r.path))

-- The routes that are served before a session is asked for, none where there is no such route.
unfoldable pub early : Request → ℕ → Door → Option Verdict
unfolding serve_open
early r now d =
    if d.init_failed && not (is_one_of r.path probes)
    then some unavailable
    else if d.setup_required
    then some (if is_one_of r.path setup_paths then serve_open r else in_setup)
    else if is_one_of r.path open_paths
    then some (serve_open r)
    else if is_one_of r.path ("/oidc/login" ∷ "/oidc/callback" ∷ [])
    then some (if locked_out r.ip now d.fails then throttled else served none)
    else if has_prefix r.path "/api/push/"
    then some (served none)
    else if has_prefix r.path "/hooks/sources/"
    then some (serve_open r)
    else none

late : Request → ℕ → Door → Sessions × Option Live → Door × Verdict
unfolding judge
late r now d (sessions, who) = (record d { sessions = sessions }, judge r now d who)

through : (String → String) → Request → ℕ → Door → Option Verdict → Door × Verdict
unfolding late session_of
through digest r now d (some verdict) = (d, verdict)
through digest r now d none = late r now d (session_of digest r.token now d)

-- wrap; `digest` is the SHA-256 of a token in hexadecimal.
unfoldable pub wrap : (String → String) → Request → ℕ → Door → Door × Verdict
unfolding through early
wrap digest r now d = through digest r now d (early r now d)
