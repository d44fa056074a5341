-- ===== src/Access/Routes/Viewer.antt =====
-- What the routes require of mutating requests, against the viewer's preset.
use teploy_dash.Common.{
  ℕ, String, Bool, true, false, ◌||◌, List, [], ◌∷◌, ◌≡◌, refl, ap, sym, ◌∙◌, arith, if◌then◌else◌,
  if_elim, if_cases, ◌≢◌, ◌==◌, string_eq, Bool-cases, inl, inr, All,
}
use teploy_dash.Alert.Channels.{contains}
use teploy_dash.Access.Caps.{viewer_default, missing}
use teploy_dash.Access.Caps.Narrow.{contains-viewer_default}
use teploy_dash.Access.Routes.{
  has_prefix, is_mutating, required_capabilities, resource_capabilities, app_action_capabilities,
  app_post, cleanup_capabilities, operations_capabilities, only, choose, app_post_cases,
  resource_cases, required_cases, app_action, remedy_capability, is_remedy, by_method,
}

abbrev Lacking : List String → Type 0
Lacking cs = missing viewer_default cs ≢ []

lacks : (c : String) → ("view.metadata" == c) ≡ false → Lacking (only c)
unfolding missing
lacks c n =
    let none_held : contains viewer_default c ≡ false =
      contains-viewer_default c ∙ ap (λ b. if b then true else false) n in
    rw none_held (λ h. cc)

lacks_mutate : Lacking (only "execute.mutate")
lacks_mutate = lacks "execute.mutate" refl

lacks_deploy : Lacking (only "execute.deploy")
lacks_deploy = lacks "execute.deploy" refl

lacks_restore : Lacking (only "restore.data")
lacks_restore = lacks "restore.data" refl

lacks_logs : Lacking (only "view.logs")
lacks_logs = lacks "view.logs" refl

lacks_credentials : Lacking (only "administer.credentials")
lacks_credentials = lacks "administer.credentials" refl

lacks_users : Lacking (only "administer.users")
lacks_users = lacks "administer.users" refl

mutating_get : (method : String) → is_mutating method ≡ true → (method == "GET") ≡ false
unfolding is_mutating
mutating_get method h = elim (Bool-cases (method == "GET")) [
  | inl y ↦
      let same = (string_eq.beq_iff method "GET").0 y in
      let clash : true ≡ false = sym h ∙ ap is_mutating same in cc
  | inr y ↦ y
]

-- The API routes that a principal may change something on without any capability but viewing.
unfoldable pub open_to_viewers : String → Bool
open_to_viewers path =
    has_prefix path "/api/push/"
    || path == "/api/auth/me"
    || path == "/api/auth/password"
    || path == "/api/apps"
    || path == "/api/onboarding/preflight"
    || path == "/api/onboarding/entry"

-- What holds of every case's answer, where its test holds, holds of the choice.
choose-All :
    (P : List String → Type 0) (rows : List (Bool × List String)) (otherwise : List String)
    → All (λ (row : Bool × List String). row.0 ≡ true → P row.1) rows
    → P otherwise
    → P (choose rows otherwise)
unfolding choose
choose-All P [] otherwise h d = d
choose-All P ((test, answer) ∷ rest) otherwise h d =
    if_cases P test answer (choose rest otherwise) h.0 (λ n. choose-All P rest otherwise h.1 d)

app_post-Lacking : (action : List ℕ) → Lacking (app_post action)
unfolding app_post app_post_cases
app_post-Lacking action =
    choose-All Lacking (app_post_cases action) (only "execute.mutate")
      (
        (λ y. lacks_mutate),
        (
          (λ y. lacks_deploy),
          ((λ y. lacks_restore), ((λ y. lacks_logs), ((λ y. lacks_deploy), tt))),
        ),
      )
      lacks_mutate

module _ (method path : String) (m : is_mutating method ≡ true) where
  by_method-Lacking : (c : String) → Lacking (only c) → Lacking (by_method method c)
  by_method-Lacking c h = rw (mutating_get method m) h

  app_action-Lacking : Lacking (app_action_capabilities method path)
  unfolding app_action_capabilities
  app_action-Lacking = rw (mutating_get method m) (
      if_elim Lacking (method == "POST") (app_post (app_action path)) (only "execute.mutate")
        (app_post-Lacking (app_action path)) lacks_mutate)

  operations-Lacking : Lacking (operations_capabilities method path)
  unfolding operations_capabilities
  operations-Lacking = rw (mutating_get method m) lacks_deploy

  cleanup-Lacking : Lacking (cleanup_capabilities method path)
  unfolding cleanup_capabilities
  cleanup-Lacking = by_method-Lacking (remedy_capability path) (
      if_elim (λ c. Lacking (only c)) (is_remedy path) "execute.deploy" "execute.mutate"
        lacks_deploy lacks_mutate)

  resource-Lacking : open_to_viewers path ≡ false → Lacking (resource_capabilities method path)
  unfolding resource_capabilities resource_cases open_to_viewers
  resource-Lacking o =
      choose-All Lacking (resource_cases method path)
        (if is_mutating method then only "execute.mutate" else only "view.metadata")
        (
          (λ y. absurd (ground (arith, o, y))),
          (
            (λ y. app_action-Lacking),
            (
              (λ y. lacks_deploy),
              (
                (λ y. operations-Lacking),
                (
                  (λ y. by_method-Lacking "restore.data" lacks_restore),
                  (
                    (λ y. lacks_logs),
                    (
                      (λ y. by_method-Lacking "execute.mutate" lacks_mutate),
                      (
                        (λ y. cleanup-Lacking),
                        (
                          (λ y. by_method-Lacking "execute.mutate" lacks_mutate),
                          ((λ y. absurd (ground (arith, o, y))), tt),
                        ),
                      ),
                    ),
                  ),
                ),
              ),
            ),
          ),
        )
        (rw m lacks_mutate)

-- What requiredCapabilities asks for a mutating request to an API route has something that the viewer's
-- preset lacks, but for the pings of push monitors, the principal's own identity and password, the
-- bare list of apps and the onboarding probes.
pub required_capabilities-viewer :
    (method path : String)
    → is_mutating method ≡ true
    → has_prefix path "/api/" ≡ true
    → open_to_viewers path ≡ false
    → missing viewer_default (required_capabilities method path) ≢ []
unfolding required_capabilities required_cases open_to_viewers
required_capabilities-viewer method path m a o =
    choose-All Lacking (required_cases method path) (resource_capabilities method path)
      (
        (λ y. absurd (ground (arith, a, o, y))),
        (
          (λ y. by_method-Lacking method path m "execute.mutate" lacks_mutate),
          (
            (λ y. lacks_mutate),
            (
              (λ y. by_method-Lacking method path m "execute.mutate" lacks_mutate),
              (
                (λ y. absurd (ground (arith, o, y))),
                ((λ y. lacks_credentials), ((λ y. lacks_users), tt)),
              ),
            ),
          ),
        ),
      )
      (resource-Lacking method path m o)
