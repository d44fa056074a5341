-- ===== src/Access/Accounts/Moved.antt =====
-- What one change of the accounts comes to.
use teploy_dash.Common.{
  ℕ, String, Bool, true, not, ◌&&◌, ◌||◌, Option, none, some, List, [], ◌≡◌, refl, ap, sym, ◌∙◌,
  arith, leb, if◌then◌else◌, if_elim, ◌==◌, string_eq, lookup, Bool-cases, inl, inr,
}
use teploy_dash.Access.Caps.{unknown_token}
use teploy_dash.Access.Users.{
  Account, Principal, Gate, World, Reply, done, stale, refused, Hashed, hashed, unfit, saved_users,
  with_user, fresh_epoch, normalize_role, checked_password,
}
use teploy_dash.Access.Accounts.{
  upsert_principal, upsert_row, revoke_principal, revoke_row, revoke_sessions, revoke_user,
  create_user, create_row, new_account, set_password, set_password_row, reset_row, moved_on,
  set_password_migrating_env, migrate_row, set_role, set_role_row, delete_user, delete_row,
  narrow_to_preset, capabilities_row, set_capabilities, set_known, is_admin, count_admins,
}
use teploy_dash.Access.Accounts.Calls.{
  Call, signs_in, revokes_principal, revokes, creates, sets_password, migrates, sets_role, deletes,
  narrows, grants, act,
}
use teploy_dash.Access.Accounts.Edits.{
  minted_user, kept_user, removed_user, minted_principal, kept_principal, Moved, same, saved-Moved,
  opened-Moved, no_row, same_role,
}

upsert_row-Moved :
    (sub username email role at : String) (g : Gate) (x : Option Principal)
    → lookup sub g.live.principals ≡ x
    → Moved g (upsert_row sub username email role at g x)
unfolding upsert_row
upsert_row-Moved sub username email role at g (some p) l =
    saved-Moved _ _ g refl (kept_principal sub _ p l refl)
upsert_row-Moved sub username email role at g none l =
    saved-Moved _ _ g refl (minted_principal sub _ refl)

revoke_row-Moved : (sub : String) (g : Gate) (x : Option Principal) → Moved g (revoke_row sub g x)
unfolding revoke_row
revoke_row-Moved sub g none = same g _ refl
revoke_row-Moved sub g (some p) = saved-Moved _ done g refl (minted_principal sub _ refl)

revoke_user-Moved :
    (name : String) (g : Gate) (x : Option Account)
    → lookup name g.live.users ≡ x
    → Moved g (revoke_user name g x)
unfolding revoke_user
revoke_user-Moved name g none l = same g _ refl
revoke_user-Moved name g (some u) l =
    let u' : Account = record u { auth_epoch = fresh_epoch g } in
    saved-Moved _ done g refl (minted_user name u' refl (same_role name g u' u l refl))

create_row-Moved :
    (name role : String) (g : Gate) (h : Hashed) (x : Option Account)
    → lookup name g.live.users ≡ x
    → Moved g (create_row name role g h x)
unfolding create_row
create_row-Moved name role g (unfit why) x l = same g _ refl
create_row-Moved name role g (hashed h) (some u) l = same g _ refl
create_row-Moved name role g (hashed h) none l =
    let u' = new_account name h (normalize_role role) (fresh_epoch g) "preset" in
    opened-Moved g (saved_users (with_user name u' (fresh_epoch g) g) done g)
      (saved-Moved _ done g refl (minted_user name u' refl (no_row name g u' l)))

reset_row-Moved :
    (name h : String) (g : Gate) (u : Account)
    → lookup name g.live.users ≡ some u
    → Moved g (reset_row name h g u)
unfolding reset_row
reset_row-Moved name h g u l =
    let u' : Account = record u { password_hash = h; auth_epoch = fresh_epoch g } in
    saved-Moved _ done g refl (minted_user name u' refl (same_role name g u' u l refl))

set_password_row-Moved :
    (name : String) (expected : Option ℕ) (g : Gate) (h : Hashed) (x : Option Account)
    → lookup name g.live.users ≡ x
    → Moved g (set_password_row name expected g h x)
unfolding set_password_row
set_password_row-Moved name expected g (unfit why) x l = same g _ refl
set_password_row-Moved name expected g (hashed h) none l = same g _ refl
set_password_row-Moved name expected g (hashed h) (some u) l =
    if_elim (λ (y : Gate × Reply). Moved g y) (moved_on expected u) _ _ (same g stale refl)
      (reset_row-Moved name h g u l)

migrate_row-Moved :
    (name : String) (g : Gate) (h : Hashed) (x : Option Account)
    → lookup name g.live.users ≡ x
    → Moved g (migrate_row name g h x)
unfolding migrate_row
migrate_row-Moved name g (unfit why) x l = same g _ refl
migrate_row-Moved name g (hashed h) (some u) l = reset_row-Moved name h g u l
migrate_row-Moved name g (hashed h) none l =
    let u' = new_account name h "admin" (fresh_epoch g) "" in
    opened-Moved g (saved_users (with_user name u' (fresh_epoch g) g) done g)
      (saved-Moved _ done g refl (minted_user name u' refl (no_row name g u' l)))

set_role_row-Moved :
    (name role : String) (g : Gate) (x : Option Account)
    → lookup name g.live.users ≡ x
    → Moved g (set_role_row name role g x)
unfolding set_role_row
set_role_row-Moved name role g none l = same g _ refl
set_role_row-Moved name role g (some u) l =
    elim (Bool-cases (is_admin u && not (role == "admin") && leb (count_admins g.live.users) 1)) [
      | inl y ↦ rw y (same g _ refl)
      | inr y ↦
          let u' : Account = record u { role = role; auth_epoch = fresh_epoch g } in
          rw y (
            saved-Moved _ done g refl (
              minted_user name u' refl (λ old m a b.
                let one : some u ≡ some old = sym l ∙ m in
                let it : u ≡ old = cc in
                let was : is_admin u ≡ true = ap (λ (x : Account). is_admin x) it ∙ a in
                ground (arith, y, was, b))))
    ]

delete_row-Moved :
    (name : String) (g : Gate) (x : Option Account)
    → lookup name g.live.users ≡ x
    → Moved g (delete_row name g x)
unfolding delete_row
delete_row-Moved name g none l = same g _ refl
delete_row-Moved name g (some u) l =
    elim (Bool-cases (is_admin u && leb (count_admins g.live.users) 1)) [
      | inl y ↦ rw y (same g _ refl)
      | inr y ↦ rw y (saved-Moved _ done g refl (removed_user name u l (λ a. ground (arith, y, a))))
    ]

capabilities_row-Moved :
    (name profile : String) (list : List String) (g : Gate) (x : Option Account)
    → lookup name g.live.users ≡ x
    → Moved g (capabilities_row name profile list g x)
unfolding capabilities_row
capabilities_row-Moved name profile list g none l = same g _ refl
capabilities_row-Moved name profile list g (some u) l =
    saved-Moved _ done g refl (kept_user name _ u l refl refl)

set_known-Moved :
    (name : String) (list : List String) (g : Gate) (x : Option String)
    → Moved g (set_known name list g x)
unfolding set_known
set_known-Moved name list g (some c) = same g _ refl
set_known-Moved name list g none =
    capabilities_row-Moved name "custom" _ g (lookup name g.live.users) refl

guarded :
    (g : Gate) (b : Bool) (why : String) (x : Gate × Reply)
    → Moved g x
    → Moved g (if b then (g, refused why) else x)
guarded g b why x m = if_elim (λ (y : Gate × Reply). Moved g y) b _ x (same g (refused why) refl) m

pub act-Moved : (w : World) (c : Call) (g : Gate) → Moved g (act w c g)
unfolding act upsert_principal revoke_principal revoke_sessions create_user set_password
    set_password_migrating_env set_role delete_user narrow_to_preset set_capabilities
act-Moved w (signs_in sub username email role at) g = guarded g (sub == "" || username == "") _ _ (
    upsert_row-Moved sub username email (normalize_role role) at g (lookup sub g.live.principals)
      refl)
act-Moved w (revokes_principal sub) g = revoke_row-Moved sub g (lookup sub g.live.principals)
act-Moved w (revokes name) g = revoke_user-Moved name g (lookup name g.live.users) refl
act-Moved w (creates username password role) g = guarded g (w.trim username == "") _ _ (
    guarded g (not (w.valid_name (w.trim username))) _ _ (
      create_row-Moved (w.trim username) role g (checked_password w password)
        (lookup (w.trim username) g.live.users) refl))
act-Moved w (sets_password name expected password) g =
    set_password_row-Moved name expected g (checked_password w password) (lookup name g.live.users)
      refl
act-Moved w (migrates name password) g =
    guarded g (g.env_pass == "" || not (name == (if g.env_user == "" then "admin" else g.env_user)))
      _ _ (migrate_row-Moved name g (checked_password w password) (lookup name g.live.users) refl)
act-Moved w (sets_role name role) g =
    set_role_row-Moved name (normalize_role role) g (lookup name g.live.users) refl
act-Moved w (deletes name) g = delete_row-Moved name g (lookup name g.live.users) refl
act-Moved w (narrows name) g =
    capabilities_row-Moved name "preset" [] g (lookup name g.live.users) refl
act-Moved w (grants name list) g = set_known-Moved name list g (unknown_token list)
