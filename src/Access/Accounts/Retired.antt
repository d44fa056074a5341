-- ===== src/Access/Accounts/Retired.antt =====
-- The calls that end the sessions of an account.
use teploy_dash.Common.{
  ℕ, suc, ◌+◌, ◌<◌, ◌≤◌, ◌^◌, String, false, not, ◌&&◌, leb, Option, none, some, List, [], ◌∷◌, ◌≡◌,
  refl, ap, sym, ◌∙◌, arith, if◌then◌else◌, if_elim, ◌==◌, string_eq, lookup, remove,
  lookup-insert_self, lookup-remove, beq_refl,
}
use teploy_dash.Access.Users.{
  Account, UsersFile, Gate, Reply, World, done, stale, refused, Hashed, hashed, unfit, saved_users,
  commit, published, Write, wrote, lost, visible, with_user, fresh_epoch, next_epoch,
  normalize_role, checked_password,
}
use teploy_dash.Access.Accounts.{
  revoke_user, revoke_sessions, reset_row, set_password, set_password_row, moved_on, set_role,
  set_role_row, delete_user, delete_row, count_admins, is_admin,
}
use teploy_dash.Access.Accounts.Calls.{
  Call, revokes, sets_password, sets_role, deletes, act, is_failure,
}
use teploy_dash.Access.Accounts.Epochs.{PastWithin, next_epoch-small}

-- The calls that end the sessions of an account.
pub data Retires : Call → String → Type 0 where
  by_revoking : (name : String) → Retires (revokes name) name
  by_password :
      (name : String) (expected : Option ℕ) (password : String)
      → Retires (sets_password name expected password) name
  by_role : (name role : String) → Retires (sets_role name role) name
  by_deleting : (name : String) → Retires (deletes name) name

commit-live :
    (P : UsersFile → Type 0) (next : UsersFile) (g : Gate) (ws : List Write)
    → P next
    → is_failure (commit next done g ws).1 ≡ false
    → P (commit next done g ws).0.live
unfolding commit published
commit-live P next g [] p = λ f. p
commit-live P next g (wrote ∷ ws) p = λ f. p
commit-live P next g (lost ∷ ws) p = λ f. cc
commit-live P next g (visible ∷ ws) p = λ f. cc

saved-live :
    (P : UsersFile → Type 0) (next : UsersFile) (g : Gate)
    → P next
    → is_failure (saved_users next done g).1 ≡ false
    → P (saved_users next done g).0.live
unfolding saved_users
saved-live P next g = commit-live P next g g.faults

module _ (name : String) (e n : ℕ) (g : Gate) (low : e ≤ g.live.epoch_counter)
    (room : g.live.epoch_counter + suc n < 2 ^ 64) where
  Ended : Gate × Reply → Type 0
  Ended x = is_failure x.1 ≡ false → PastWithin name e n x.0.live

  failed : (why : String) → Ended (g, refused why)
  unfolding Ended
  failed why f = cc

  renewed-PastWithin :
      (u : Account)
      → u.auth_epoch ≡ fresh_epoch g
      → PastWithin name e n (with_user name u (fresh_epoch g) g)
  renewed-PastWithin u m =
      let up = next_epoch-small g.live.epoch_counter n room in
      record {
        past = record {
          low = omega (arith, up, low);
          rows = λ v l.
              let one : some u ≡ some v = sym (lookup-insert_self name u g.live.users) ∙ l in
              let it : u ≡ v = cc in
              let at : v.auth_epoch ≡ next_epoch g.live.epoch_counter =
                ap (λ (x : Account). x.auth_epoch) (sym it) ∙ m in
              omega (arith, at, up, low);
        };
        room = omega (arith, up, room);
      }

  gone-PastWithin :
      PastWithin name e n
        (record g.live { users = remove name g.live.users; epoch_counter = fresh_epoch g })
  gone-PastWithin =
      let up = next_epoch-small g.live.epoch_counter n room in
      record {
        past = record {
          low = omega (arith, up, low);
          rows = λ v l.
              let gone : lookup name (remove name g.live.users) ≡ none =
                lookup-remove name name g.live.users
                ∙ ap (λ b. if b then none else lookup name g.live.users) (beq_refl name) in
              let clash : none ≡ some v = sym gone ∙ l in cc;
        };
        room = omega (arith, up, room);
      }

  revoke_user-Ended : (x : Option Account) → Ended (revoke_user name g x)
  unfolding revoke_user Ended
  revoke_user-Ended none = λ f. cc
  revoke_user-Ended (some u) =
      saved-live (PastWithin name e n) _ g
        (renewed-PastWithin (record u { auth_epoch = fresh_epoch g }) refl)

  set_password_row-Ended :
      (expected : Option ℕ) (h : Hashed) (x : Option Account)
      → Ended (set_password_row name expected g h x)
  unfolding set_password_row reset_row Ended
  set_password_row-Ended expected (unfit why) x = λ f. cc
  set_password_row-Ended expected (hashed h) none = λ f. cc
  set_password_row-Ended expected (hashed h) (some u) =
      if_elim (λ (x : Gate × Reply). is_failure x.1 ≡ false → PastWithin name e n x.0.live)
        (moved_on expected u) (g, stale)
        (saved_users
          (with_user name (record u { password_hash = h; auth_epoch = fresh_epoch g })
            (fresh_epoch g) g)
          done g)
        (λ f. cc)
        (saved-live (PastWithin name e n) _ g
          (renewed-PastWithin (record u { password_hash = h; auth_epoch = fresh_epoch g }) refl))

  set_role_row-Ended : (role : String) (x : Option Account) → Ended (set_role_row name role g x)
  unfolding set_role_row Ended
  set_role_row-Ended role none = λ f. cc
  set_role_row-Ended role (some u) =
      if_elim (λ (x : Gate × Reply). is_failure x.1 ≡ false → PastWithin name e n x.0.live)
        (is_admin u && not (role == "admin") && leb (count_admins g.live.users) 1)
        (g, refused "cannot demote the last admin")
        (saved_users
          (with_user name (record u { role = role; auth_epoch = fresh_epoch g }) (fresh_epoch g) g)
          done g)
        (λ f. cc)
        (saved-live (PastWithin name e n) _ g
          (renewed-PastWithin (record u { role = role; auth_epoch = fresh_epoch g }) refl))

  delete_row-Ended : (x : Option Account) → Ended (delete_row name g x)
  unfolding delete_row Ended
  delete_row-Ended none = λ f. cc
  delete_row-Ended (some u) =
      if_elim (λ (x : Gate × Reply). is_failure x.1 ≡ false → PastWithin name e n x.0.live)
        (is_admin u && leb (count_admins g.live.users) 1)
        (g, refused "cannot remove the last admin")
        (saved_users
          (record g.live { users = remove name g.live.users; epoch_counter = fresh_epoch g }) done
          g)
        (λ f. cc) (saved-live (PastWithin name e n) _ g gone-PastWithin)

pub act-Past :
    (w : World) (c : Call) (name : String)
    → Retires c name
    → (e n : ℕ) (g : Gate) → e ≤ g.live.epoch_counter
    → g.live.epoch_counter + suc n < 2 ^ 64
    → is_failure (act w c g).1 ≡ false
    → PastWithin name e n (act w c g).0.live
unfolding act revoke_sessions set_password set_role delete_user Ended
act-Past w _ _ (by_revoking name) e n g low room =
    revoke_user-Ended name e n g low room (lookup name g.live.users)
act-Past w _ _ (by_password name expected password) e n g low room =
    set_password_row-Ended name e n g low room expected (checked_password w password)
      (lookup name g.live.users)
act-Past w _ _ (by_role name role) e n g low room =
    set_role_row-Ended name e n g low room (normalize_role role) (lookup name g.live.users)
act-Past w _ _ (by_deleting name) e n g low room =
    delete_row-Ended name e n g low room (lookup name g.live.users)
