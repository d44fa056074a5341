-- ===== src/Access/Gate/Viewing.antt =====
-- The gate before a session that may only view.
use teploy_dash.Common.{
  ℕ, String, true, false, none, some, Option, List, [], ◌≡◌, ◌≢◌, refl, ap, sym, ◌∙◌, eqb,
  string_eq, lookup, Bool-cases, inl, inr,
}
use teploy_dash.Access.Caps.{missing, viewer_default, capabilities_for_profile, preset_for_role}
use teploy_dash.Access.Users.{Account, UsersFile}
use teploy_dash.Access.Routes.{has_prefix, is_mutating, required_capabilities}
use teploy_dash.Access.Routes.Viewer.{open_to_viewers, required_capabilities-viewer}
use teploy_dash.Access.Sessions.{Session, Live, revalidated, live_user}
use teploy_dash.Access.Gate.{Request, Door, served, wrap, early}
use teploy_dash.Access.Gate.Authorized.{wrap-Held}

abbrev caps_or : Option Live → List String
caps_or none = []
caps_or (some live) = live.caps

live_user-caps :
    (s : Session) (u : Account) (live : Live)
    → live_user s (some u) ≡ some live
    → live.caps ≡ capabilities_for_profile u.capability_profile u.capabilities u.role
unfolding live_user
live_user-caps s u live h = elim (Bool-cases (eqb u.auth_epoch s.epoch)) [
  | inl y ↦ let one : some _ ≡ some live = rw y at h in sym (ap caps_or one)
  | inr y ↦ let clash : none ≡ some live = rw y at h in cc
]

revalidated-caps :
    (s : Session) (f : UsersFile) (u : Account) (live : Live)
    → s.local ≡ true
    → lookup s.sub f.users ≡ some u
    → revalidated s f ≡ some live
    → live.caps ≡ capabilities_for_profile u.capability_profile u.capabilities u.role
unfolding revalidated
revalidated-caps s f u live y l h = live_user-caps s u live (rw (y, l) at h)

viewer_caps :
    (u : Account)
    → u.capability_profile ≡ "preset"
    → u.role ≡ "viewer"
    → capabilities_for_profile u.capability_profile u.capabilities u.role ≡ viewer_default
unfolding capabilities_for_profile preset_for_role
viewer_caps u p r = rw (p, r) refl

-- A mutating request to an API route that asks for a session, with the token of a stored session of an
-- account that has the viewer's preset now, is not served, whatever the account's role was when the
-- session was issued: but for the requests of open_to_viewers, that are the principal's own identity
-- and password, the bare list of apps and the onboarding probes.
pub wrap-viewer :
    (digest : String → String) (r : Request) (now : ℕ) (d : Door) (token : String) (s : Session)
    (u : Account)
    → r.token ≡ some token
    → lookup (digest token) d.sessions.sessions ≡ some s
    → s.local ≡ true
    → lookup s.sub d.accounts.users ≡ some u
    → u.capability_profile ≡ "preset"
    → u.role ≡ "viewer"
    → is_mutating r.method ≡ true
    → has_prefix r.path "/api/" ≡ true
    → open_to_viewers r.path ≡ false
    → early r now d ≡ none
    → (who : Option Live) → (wrap digest r now d).1 ≢ served who
wrap-viewer digest r now d token s u cookie stored y row preset viewer mutates api guarded asks who
      h =
    let (live, same, held, origin, granted) = wrap-Held digest r now d who asks h in
    let both : some token ≡ some held.token = sym cookie ∙ held.cookie in
    let one : token ≡ held.token = cc in
    let found : some s ≡ some held.session =
      sym stored ∙ ap (λ t. lookup (digest t) d.sessions.sessions) one ∙ held.stored in
    let it : s ≡ held.session = cc in
    let valid : revalidated s d.accounts ≡ some live =
      ap (λ (x : Session). revalidated x d.accounts) it ∙ held.valid in
    let caps : live.caps ≡ viewer_default =
      revalidated-caps s d.accounts u live y row valid ∙ viewer_caps u preset viewer in
    required_capabilities-viewer r.method r.path mutates api guarded
      (ap (λ cs. missing cs (required_capabilities r.method r.path)) (sym caps) ∙ granted)
