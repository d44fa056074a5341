-- ===== src/Access/Gate/Barred.antt =====
-- The gate after a revocation.
use teploy_dash.Common.{
  ℕ, suc, ◌+◌, ◌<◌, ◌≤◌, ◌^◌, String, true, false, Option, none, some, List, ◌≡◌, ◌≢◌, ap, sym, ◌∙◌,
  length, lookup, string_eq,
}
use teploy_dash.Access.Users.{Gate, World}
use teploy_dash.Access.Accounts.Calls.{Call, act, play, is_failure}
use teploy_dash.Access.Accounts.Retired.{Retires}
use teploy_dash.Access.Sessions.{Session, Live, revalidated}
use teploy_dash.Access.Sessions.Revoked.{revoked_dead}
use teploy_dash.Access.Gate.{Request, Door, served, wrap, early}
use teploy_dash.Access.Gate.Authorized.{Held, wrap-Held}

Held-dead :
    (digest : String → String) (r : Request) (d : Door) (token : String) (s : Session) (live : Live)
    → r.token ≡ some token
    → lookup (digest token) d.sessions.sessions ≡ some s
    → revalidated s d.accounts ≡ none
    → ¬ Held digest r d live
Held-dead digest r d token s live c l dead h =
    let both : some token ≡ some h.token = sym c ∙ h.cookie in
    let same : token ≡ h.token = cc in
    let found : some s ≡ some h.session =
      sym l ∙ ap (λ t. lookup (digest t) d.sessions.sessions) same ∙ h.stored in
    let it : s ≡ h.session = cc in
    let clash : none ≡ some live =
      sym dead ∙ ap (λ (x : Session). revalidated x d.accounts) it ∙ h.valid in
    cc

-- Once the sessions of an account were revoked, its password was set, its role was changed or the
-- account was deleted, and the call succeeded, the gate serves no request with the token of a session
-- that was issued to the account before, on any route that asks for a session: whatever changes to
-- the accounts have followed, and even if the session is still in memory. The epoch counter is
-- assumed not to reach 2 ^ 64.
pub wrap-revoked :
    (w : World) (c : Call) (name : String)
    → Retires c name
    → (g : Gate) → is_failure (act w c g).1 ≡ false
    → (s : Session) → s.local ≡ true
    → s.sub ≡ name
    → s.epoch ≤ g.live.epoch_counter
    → (cs : List Call) → g.live.epoch_counter + suc (length cs) < 2 ^ 64
    → (digest : String → String) (r : Request) (now : ℕ) (d : Door) (token : String)
    → d.accounts ≡ (play w cs (act w c g).0).live
    → r.token ≡ some token
    → lookup (digest token) d.sessions.sessions ≡ some s
    → early r now d ≡ none
    → (who : Option Live) → (wrap digest r now d).1 ≢ served who
wrap-revoked w c name retires g well s loc sub low cs room digest r now d token accounts cookie
      stored asks who h =
    let dead = revoked_dead w c name retires g well s loc sub low cs room in
    let (live, same, held, origin, granted) = wrap-Held digest r now d who asks h in
    Held-dead digest r d token s live cookie stored (ap (revalidated s) accounts ∙ dead) held
