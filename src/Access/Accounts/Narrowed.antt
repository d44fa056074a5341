-- ===== src/Access/Accounts/Narrowed.antt =====
-- What moving an account onto its role's preset does to its capabilities.
use teploy_dash.Common.{
  String, true, false, some, List, [], ◌∷◌, ◌≡◌, ◌⊎◌, refl, ap, sym, ◌∙◌, ◌==◌, string_eq, lookup,
  insert, lookup-insert_self, Bool-cases, inl, inr,
}
use teploy_dash.Alert.Channels.{contains}
use teploy_dash.Access.Caps.{preset_for_role, capabilities_for_profile}
use teploy_dash.Access.Caps.Narrow.{preset_for_role-legacy}
use teploy_dash.Access.Users.{
  Account, UsersFile, Gate, Reply, Write, wrote, lost, visible, done, commit, published,
  saved_users,
}
use teploy_dash.Access.Accounts.{narrow_to_preset, capabilities_row}

-- The capabilities that an account's live sessions have.
abbrev pub granted_to : Account → List String
granted_to u = capabilities_for_profile u.capability_profile u.capabilities u.role

live-published :
    (next : UsersFile) (r : Reply) (g : Gate) (w : Write) (ws : List Write)
    → ((published next r g w ws).0.live ≡ g.live) ⊎ ((published next r g w ws).0.live ≡ next)
unfolding published
live-published next r g wrote ws = inr refl
live-published next r g lost ws = inl refl
live-published next r g visible ws = inl refl

live-commit :
    (next : UsersFile) (r : Reply) (g : Gate) (ws : List Write)
    → ((commit next r g ws).0.live ≡ g.live) ⊎ ((commit next r g ws).0.live ≡ next)
unfolding commit
live-commit next r g [] = live-published next r g wrote []
live-commit next r g (w ∷ ws) = live-published next r g w ws

-- The preset grants no more than a profile that is not custom.
preset-granted :
    (u : Account) (c : String)
    → (u.capability_profile == "custom") ≡ false
    → contains (preset_for_role u.role) c ≡ true
    → contains (granted_to u) c ≡ true
unfolding capabilities_for_profile
preset-granted u c n h = elim (Bool-cases (u.capability_profile == "preset")) [
  | inl y ↦ rw y h
  | inr y ↦ rw (y, n) (preset_for_role-legacy u.role c h)
]

-- Narrowing an account that has no custom set of capabilities, whatever becomes of the write of
-- users.json, gives the account no capability that it did not have.
pub narrow_to_preset-narrows :
    (name : String) (g : Gate) (u u' : Account) (c : String)
    → lookup name g.live.users ≡ some u
    → (u.capability_profile == "custom") ≡ false
    → lookup name (narrow_to_preset name g).0.live.users ≡ some u'
    → contains (granted_to u') c ≡ true
    → contains (granted_to u) c ≡ true
unfolding narrow_to_preset capabilities_row saved_users
narrow_to_preset-narrows name g u u' c l n = rw l (by_write (live-commit next done g g.faults))
  where
    row : Account
    row = record u { capability_profile = "preset"; capabilities = [] }

    next : UsersFile
    next = record g.live { users = insert name row g.live.users }

    by_row :
        (f : UsersFile) (v : Account)
        → lookup name f.users ≡ some v
        → lookup name f.users ≡ some u'
        → v ≡ u'
    by_row f v a b = let one : some v ≡ some u' = sym a ∙ b in cc

    by_write :
        ((commit next done g g.faults).0.live ≡ g.live)
          ⊎ ((commit next done g g.faults).0.live ≡ next)
        → lookup name (commit next done g g.faults).0.live.users ≡ some u'
        → contains (granted_to u') c ≡ true
        → contains (granted_to u) c ≡ true
    by_write (inl e) a h =
        let same : u ≡ u' =
          by_row (commit next done g g.faults).0.live u
            (ap (λ (f : UsersFile). lookup name f.users) e ∙ l) a in
        ap (λ (x : Account). contains (granted_to x) c) same ∙ h
    by_write (inr e) a h =
        let at : lookup name (commit next done g g.faults).0.live.users ≡ some row =
          ap (λ (f : UsersFile). lookup name f.users) e
          ∙ lookup-insert_self name row g.live.users in
        let same : row ≡ u' = by_row (commit next done g g.faults).0.live row at a in
        preset-granted u c n (
          unfold capabilities_for_profile in
          ap (λ (x : Account). contains (granted_to x) c) same ∙ h)
