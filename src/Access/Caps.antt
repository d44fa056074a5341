-- ===== src/Access/Caps.antt =====
-- internal/caps/caps.go, and the capability profiles of internal/server/caps.go.
pub mod Narrow
use teploy_dash.Common.{
  ℕ, String, Bool, true, false, not, ◌&&◌, ◌||◌, Option, none, some, List, [], ◌∷◌, ◌++◌,
  if◌then◌else◌, ◌==◌, string_eq, str_leb,
}
use teploy_dash.Alert.Channels.{contains}

abbrev pub all_tokens : List String
all_tokens =
    "view.metadata" ∷ "reveal.secrets" ∷ "execute.deploy" ∷ "execute.mutate" ∷ "restore.data"
    ∷ "administer.credentials" ∷ "administer.users" ∷ "view.logs" ∷ []

-- Valid
unfoldable pub known : String → Bool
unfolding contains
known c = contains all_tokens c

-- The first unknown token, which Validate reports.
unfoldable pub unknown_token : List String → Option String
unfolding known
unknown_token [] = none
unknown_token (c ∷ cs) = let rest = unknown_token cs in if known c then rest else some c

-- sort.Strings
sorted_into : String → List String → List String
sorted_into c [] = c ∷ []
sorted_into c (d ∷ ds) = let rest = sorted_into c ds in if str_leb c d then c ∷ d ∷ ds else d ∷ rest

unfoldable pub sort_strings : List String → List String
unfolding sorted_into
sort_strings [] = []
sort_strings (c ∷ cs) = sorted_into c (sort_strings cs)

-- The loop of Normalize: the known tokens, each once; `seen` are those kept so far.
known_once : List String → List String → List String
unfolding known contains
known_once [] seen = []
known_once (c ∷ cs) seen =
    let skip = not (known c) || contains seen c in
    let rest = known_once cs (if skip then seen else c ∷ seen) in if skip then rest else c ∷ rest

unfoldable pub normalize : List String → List String
unfolding known_once sort_strings
normalize cs = sort_strings (known_once cs [])

-- NewSet: a set is the list of what it grants.
unfoldable pub new_set : List String → List String
unfolding known_once
new_set cs = known_once cs []

-- Missing
unfoldable pub missing : List String → List String → List String
unfolding contains
missing granted [] = []
missing granted (c ∷ cs) =
    let rest = missing granted cs in if contains granted c then rest else c ∷ rest

unfoldable pub viewer_default : List String
unfolding new_set
viewer_default = new_set ("view.metadata" ∷ [])

unfoldable pub operator_default : List String
unfolding new_set
operator_default =
    new_set ("view.metadata" ∷ "execute.deploy" ∷ "execute.mutate" ∷ "view.logs" ∷ [])

unfoldable pub preset_for_role : String → List String
unfolding new_set operator_default viewer_default
preset_for_role role =
    if role == "admin"
    then new_set all_tokens
    else if role == "editor" || role == "operator"
    then operator_default
    else viewer_default

unfoldable pub legacy_for_role : String → List String
unfolding new_set
legacy_for_role role =
    if role == "admin"
    then new_set all_tokens
    else if role == "editor" || role == "operator"
    then new_set (
        "view.metadata" ∷ "reveal.secrets" ∷ "view.logs" ∷ "execute.deploy" ∷ "execute.mutate"
        ∷ "restore.data" ∷ [])
    else new_set ("view.metadata" ∷ "reveal.secrets" ∷ "view.logs" ∷ [])

-- capabilitiesForProfile
unfoldable pub capabilities_for_profile : String → List String → String → List String
unfolding preset_for_role legacy_for_role new_set
capabilities_for_profile profile explicit role =
    if profile == "preset"
    then preset_for_role role
    else if profile == "custom"
    then new_set explicit
    else legacy_for_role role

-- capBasisForProfile
unfoldable pub cap_basis_for_profile : String → String
cap_basis_for_profile profile =
    if profile == "preset" then "preset" else if profile == "custom" then "custom" else "legacy"
