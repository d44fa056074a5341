-- ===== src/Access/Sessions/Revoked.antt =====
-- A session that was revoked stays dead, and an address that keeps failing is locked out.
use mathlib.Core.Path.{subst}
use teploy_dash.Common.{
  suc, ◌+◌, ◌<◌, ◌≤◌, ◌^◌, String, true, false, none, List, ◌≡◌, refl, sym, arith, length, eqb,
  string_eq, lookup, Option-cases, inl, inr,
}
use teploy_dash.Access.Users.{UsersFile, Gate, World}
use teploy_dash.Access.Accounts.Calls.{Call, act, play, is_failure}
use teploy_dash.Access.Accounts.Epochs.{Past, play-Past}
use teploy_dash.Access.Accounts.Retired.{act-Past, Retires}
use teploy_dash.Access.Sessions.{Session, revalidated, live_user}

revalidated-Past :
    (s : Session) (f : UsersFile) → s.local ≡ true → Past s.sub s.epoch f → revalidated s f ≡ none
unfolding revalidated live_user
revalidated-Past s f y h = rw y (elim (Option-cases (lookup s.sub f.users)) [
  | inl l ↦ rw l refl
  | inr (u, l) ↦
      let over = h.rows u l in
      let apart : eqb u.auth_epoch s.epoch ≡ false = ground (arith, over) in rw (l, apart) refl
])

-- Once the sessions of an account were revoked, its password was set, its role was changed or the
-- account was deleted, and the call succeeded, no session that was issued to the account before
-- passes the revalidation again, whatever changes to the accounts follow, an account of the same
-- name included. The epoch counter is assumed not to reach 2 ^ 64.
pub revoked_dead :
    (w : World) (c : Call) (name : String)
    → Retires c name
    → (g : Gate) → is_failure (act w c g).1 ≡ false
    → (s : Session) → s.local ≡ true
    → s.sub ≡ name
    → s.epoch ≤ g.live.epoch_counter
    → (cs : List Call) → g.live.epoch_counter + suc (length cs) < 2 ^ 64
    → revalidated s (play w cs (act w c g).0).live ≡ none
revoked_dead w c name retires g done_well s y same low cs room =
    let after = act-Past w c name retires s.epoch (length cs) g low room done_well in
    let still = play-Past name s.epoch w cs (act w c g).0 after in
    revalidated-Past s (play w cs (act w c g).0).live y
      (subst (λ k. Past k s.epoch (play w cs (act w c g).0).live) (sym same) still.past)
