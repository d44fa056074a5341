-- ===== src/Access/Accounts/Edits.antt =====
-- How the file of users may change.
use teploy_dash.Common.{
  ◌<◌, String, true, false, none, some, List, [], ◌∷◌, ◌≡◌, refl, ap, sym, ◌∙◌, ◌==◌, string_eq,
  lookup, remove,
}
use teploy_dash.Access.Users.{
  Account, Principal, UsersFile, Write, wrote, lost, visible, Gate, Reply, done, signed_in, stale,
  refused, published, commit, saved_users, with_user, with_principal, fresh_epoch,
}
use teploy_dash.Access.Accounts.{opened, is_admin, count_admins}
use teploy_dash.Access.Accounts.Calls.{is_failure}

-- How the file of users may change: one row is written under a fresh epoch, or keeps its epoch and
-- its role, or one account goes. No change takes away the last administrator.
pub data Edit (g : Gate) : UsersFile → Type 0 where
  minted_user :
      (name : String) (u : Account)
      → u.auth_epoch ≡ fresh_epoch g
      → ((old : Account)
          → lookup name g.live.users ≡ some old
          → is_admin old ≡ true
          → is_admin u ≡ false
          → 1 < count_admins g.live.users)
      → Edit g (with_user name u (fresh_epoch g) g)
  kept_user :
      (name : String) (u old : Account)
      → lookup name g.live.users ≡ some old
      → u.auth_epoch ≡ old.auth_epoch
      → u.role ≡ old.role
      → Edit g (with_user name u g.live.epoch_counter g)
  removed_user :
      (name : String) (old : Account)
      → lookup name g.live.users ≡ some old
      → (is_admin old ≡ true → 1 < count_admins g.live.users)
      → Edit g (record g.live { users = remove name g.live.users; epoch_counter = fresh_epoch g })
  minted_principal :
      (sub : String) (p : Principal)
      → p.auth_epoch ≡ fresh_epoch g
      → Edit g (with_principal sub p (fresh_epoch g) g)
  kept_principal :
      (sub : String) (p old : Principal)
      → lookup sub g.live.principals ≡ some old
      → p.auth_epoch ≡ old.auth_epoch
      → Edit g (with_principal sub p g.live.epoch_counter g)

-- A call fails and leaves the live state, or makes one edit, in memory and on disk.
pub data Moved (g : Gate) : Gate × Reply → Type 0 where
  kept : (g' : Gate) (r : Reply) → is_failure r ≡ true → g'.live ≡ g.live → Moved g (g', r)
  moved :
      (next : UsersFile) (g' : Gate) (r : Reply)
      → is_failure r ≡ false
      → Edit g next
      → g'.live ≡ next
      → g'.disk ≡ some next
      → Moved g (g', r)

abbrev pub same : (g : Gate) (r : Reply) → is_failure r ≡ true → Moved g (g, r)
same g r f = kept g r f refl

commit-Moved :
    (next : UsersFile) (r : Reply) (g : Gate) (ws : List Write)
    → is_failure r ≡ false
    → Edit g next
    → Moved g (commit next r g ws)
unfolding commit published
commit-Moved next r g [] f e = moved next _ r f e refl refl
commit-Moved next r g (wrote ∷ ws) f e = moved next _ r f e refl refl
commit-Moved next r g (lost ∷ ws) f e = kept _ _ refl refl
commit-Moved next r g (visible ∷ ws) f e = kept _ _ refl refl

pub saved-Moved :
    (next : UsersFile) (r : Reply) (g : Gate)
    → is_failure r ≡ false
    → Edit g next
    → Moved g (saved_users next r g)
unfolding saved_users
saved-Moved next r g f e = commit-Moved next r g g.faults f e

pub opened-Moved : (g : Gate) (x : Gate × Reply) → Moved g x → Moved g (opened x)
opened-Moved g (g', done) (kept _ _ f l) = kept _ done f l
opened-Moved g (g', done) (moved next _ _ f e l d) = moved next _ done f e l d
opened-Moved g (g', signed_in n role) m = m
opened-Moved g (g', stale) m = m
opened-Moved g (g', refused why) m = m

pub no_row :
    (name : String) (g : Gate) (u : Account)
    → lookup name g.live.users ≡ none
    → (old : Account) → lookup name g.live.users ≡ some old
    → is_admin old ≡ true
    → is_admin u ≡ false
    → 1 < count_admins g.live.users
no_row name g u l old m a b = let clash : none ≡ some old = sym l ∙ m in cc

pub same_role :
    (name : String) (g : Gate) (u q : Account)
    → lookup name g.live.users ≡ some q
    → u.role ≡ q.role
    → (old : Account) → lookup name g.live.users ≡ some old
    → is_admin old ≡ true
    → is_admin u ≡ false
    → 1 < count_admins g.live.users
same_role name g u q l e old m a b =
    let one : some q ≡ some old = sym l ∙ m in
    let it : q ≡ old = cc in
    let clash : true ≡ false =
      sym a ∙ ap (λ (x : Account). is_admin x) (sym it) ∙ ap (λ r. r == "admin") (sym e) ∙ b in
    cc
