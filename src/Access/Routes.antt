-- ===== src/Access/Routes.antt =====
-- internal/server/caps.go: the capabilities that a route requires.
pub mod Viewer
use teploy_dash.Common.{
  ℕ, String, Bool, true, false, not, ◌&&◌, ◌||◌, Option, none, some, List, [], ◌∷◌, ◌++◌, eqb,
  if◌then◌else◌, ◌==◌, string_eq, codes,
}

is_prefix : List ℕ → List ℕ → Bool
is_prefix [] ys = true
is_prefix (x ∷ xs) [] = false
is_prefix (x ∷ xs) (y ∷ ys) = eqb x y && is_prefix xs ys

reversed : List ℕ → List ℕ → List ℕ
reversed [] acc = acc
reversed (x ∷ xs) acc = reversed xs (x ∷ acc)

-- strings.HasPrefix and strings.HasSuffix, on a text or on its bytes
unfoldable pub has_prefix : String → String → Bool
unfolding is_prefix
has_prefix s p = is_prefix (codes p) (codes s)

bytes_end : List ℕ → String → Bool
unfolding is_prefix reversed
bytes_end s p = is_prefix (reversed (codes p) []) (reversed s [])

unfoldable pub has_suffix : String → String → Bool
unfolding bytes_end
has_suffix s p = bytes_end (codes s) p

same_bytes : List ℕ → List ℕ → Bool
same_bytes [] [] = true
same_bytes [] (y ∷ ys) = false
same_bytes (x ∷ xs) [] = false
same_bytes (x ∷ xs) (y ∷ ys) = eqb x y && same_bytes xs ys

without_prefix : List ℕ → List ℕ → List ℕ
without_prefix [] ys = ys
without_prefix (x ∷ xs) [] = []
without_prefix (x ∷ xs) (y ∷ ys) = without_prefix xs ys

-- strings.TrimPrefix
trim_prefix : String → List ℕ → List ℕ
unfolding is_prefix without_prefix
trim_prefix p s = if is_prefix (codes p) s then without_prefix (codes p) s else s

abbrev slash : ℕ
slash = 47

without_slashes : List ℕ → List ℕ
without_slashes [] = []
without_slashes (c ∷ cs) = let rest = without_slashes cs in if eqb c slash then rest else c ∷ cs

-- strings.Trim(s, "/")
trimmed : List ℕ → List ℕ
unfolding without_slashes reversed
trimmed s = reversed (without_slashes (reversed (without_slashes s) [])) []

-- The rest after the first slash: for `parts` of a split, strings.Join(parts[1:], "/").
after_slash : List ℕ → List ℕ
after_slash [] = []
after_slash (c ∷ cs) = let rest = after_slash cs in if eqb c slash then cs else rest

-- Whether a split by slashes has exactly two parts, the second one the text given.
second_part : List ℕ → String → Bool
unfolding after_slash same_bytes
second_part s text = same_bytes (after_slash s) (codes text)

abbrev pub is_one_of : String → List String → Bool
is_one_of s [] = false
is_one_of s (x ∷ xs) = if s == x then true else is_one_of s xs

bytes_one_of : List ℕ → List String → Bool
unfolding same_bytes
bytes_one_of s [] = false
bytes_one_of s (x ∷ xs) = same_bytes s (codes x) || bytes_one_of s xs

-- isMutating
unfoldable pub is_mutating : String → Bool
is_mutating method = is_one_of method ("POST" ∷ "PUT" ∷ "PATCH" ∷ "DELETE" ∷ [])

-- path == p || strings.HasPrefix(path, p+"/")
under : String → String → Bool
unfolding is_prefix
under path p = path == p || is_prefix (codes p ++ slash ∷ []) (codes path)

under_any : String → List String → Bool
unfolding under
under_any path [] = false
under_any path (p ∷ ps) = under path p || under_any path ps

abbrev administer_credentials_prefixes : List String
administer_credentials_prefixes =
    "/api/mcp-tokens" ∷ "/api/config/servers" ∷ "/api/registries" ∷ "/api/notifications"
    ∷ "/api/sources" ∷ "/api/backups/storage" ∷ "/api/backups/recovery-key" ∷ "/api/backups/setup"
    ∷ "/api/audit" ∷ "/api/observe" ∷ []

-- The first case whose test holds, as a chain of early returns takes it.
pub choose : List (Bool × List String) → List String → List String
choose [] otherwise = otherwise
choose ((test, answer) ∷ rest) otherwise =
    let later = choose rest otherwise in if test then answer else later

abbrev pub only : String → List String
only c = c ∷ []

app_get : List ℕ → List String
unfolding bytes_one_of choose
app_get action =
    choose
      ((bytes_one_of action ("env" ∷ "kv/value" ∷ []), only "reveal.secrets")
        ∷ (bytes_one_of action ("log" ∷ []), only "view.logs")
        ∷ [])
      (only "view.metadata")

app_post_cases : List ℕ → List (Bool × List String)
unfolding bytes_one_of is_prefix trim_prefix second_part
app_post_cases action =
    (
      bytes_one_of action
          ("env" ∷ "kv" ∷ "secrets" ∷ "source/key" ∷ "source/host-key" ∷ "source/register" ∷ []),
      only "execute.mutate",
    )
    ∷ (
      bytes_one_of action (
          "source/reset-watermark" ∷ "source/retry" ∷ "source/install-timer" ∷ "" ∷ "stop" ∷ "start"
          ∷ "restart" ∷ "deploy" ∷ "rollback" ∷ "redeploy" ∷ "remove" ∷ "lock" ∷ "unlock"
          ∷ "maintenance/on" ∷ "maintenance/off" ∷ "backups/create" ∷ []),
      only "execute.deploy",
    )
    ∷ (bytes_one_of action ("backups/restore" ∷ []), only "restore.data")
    ∷ (
      is_prefix (codes "accessories/") action
          && second_part (trim_prefix "accessories/" action) "logs",
      only "view.logs",
    )
    ∷ (is_prefix (codes "accessories/") action, only "execute.deploy")
    ∷ []

app_post : List ℕ → List String
unfolding app_post_cases choose
app_post action = choose (app_post_cases action) (only "execute.mutate")

-- The action of an app route: what follows the server and the app.
app_action : String → List ℕ
unfolding trimmed trim_prefix after_slash
app_action path = after_slash (after_slash (trimmed (trim_prefix "/api/apps/" (codes path))))

-- appActionCapabilities
unfoldable pub app_action_capabilities : String → String → List String
unfolding app_action app_get app_post
app_action_capabilities method path =
    if method == "GET"
    then app_get (app_action path)
    else if method == "POST"
    then app_post (app_action path)
    else only "execute.mutate"

abbrev pub by_method : String → String → List String
by_method method c = if method == "GET" then only "view.metadata" else only c

is_remedy : String → Bool
unfolding trimmed trim_prefix bytes_end
is_remedy path =
    let rest = trimmed (trim_prefix "/api/cleanup/" (codes path)) in
    bytes_end rest "/audit" || bytes_end rest "/remedy"

abbrev remedy_capability : String → String
unfolding is_remedy
remedy_capability path = if is_remedy path then "execute.deploy" else "execute.mutate"

cleanup_capabilities : String → String → List String
unfolding is_remedy
cleanup_capabilities method path = by_method method (remedy_capability path)

operations_capabilities : String → String → List String
operations_capabilities method path =
    if method == "GET"
    then (if has_suffix path "/events" then only "view.logs" else only "view.metadata")
    else only "execute.deploy"

resource_cases : String → String → List (Bool × List String)
unfolding under cleanup_capabilities operations_capabilities
resource_cases method path =
    (path == "/api/apps", only "view.metadata")
    ∷ (has_prefix path "/api/apps/", app_action_capabilities method path)
    ∷ (path == "/api/deploy" || path == "/api/templates/install", only "execute.deploy")
    ∷ (under path "/api/operations", operations_capabilities method path)
    ∷ (under path "/api/restore-tests", by_method method "restore.data")
    ∷ (has_prefix path "/api/logs/", only "view.logs")
    ∷ (path == "/api/domains", by_method method "execute.mutate")
    ∷ (under path "/api/cleanup", cleanup_capabilities method path)
    ∷ (under path "/api/siblings", by_method method "execute.mutate")
    ∷ (path == "/api/onboarding/preflight" || path == "/api/onboarding/entry", only "view.metadata")
    ∷ []

-- The routes from app routes on.
resource_capabilities : String → String → List String
unfolding resource_cases choose
resource_capabilities method path =
    choose (resource_cases method path)
      (if is_mutating method then only "execute.mutate" else only "view.metadata")

required_cases : String → String → List (Bool × List String)
unfolding under under_any resource_capabilities
required_cases method path =
    (not (has_prefix path "/api/") || has_prefix path "/api/push/", [])
    ∷ (under path "/api/alerts/silences", by_method method "execute.mutate")
    ∷ (has_prefix path "/api/monitors/" && has_suffix path "/push-url", only "execute.mutate")
    ∷ (has_prefix path "/api/alerts/", by_method method "execute.mutate")
    ∷ (path == "/api/auth/me" || path == "/api/auth/password", [])
    ∷ (under_any path administer_credentials_prefixes, only "administer.credentials")
    ∷ (under path "/api/users" || under path "/api/sso", only "administer.users")
    ∷ []

-- requiredCapabilities
unfoldable pub required_capabilities : String → String → List String
unfolding required_cases choose resource_capabilities
required_capabilities method path =
    choose (required_cases method path) (resource_capabilities method path)
