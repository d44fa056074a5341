-- ===== src/Access/Accounts/Saved.antt =====
-- Memory and users.json after a change.
use teploy_dash.Common.{some, ◌≡◌, ◌⊎◌, inl, inr, true, false, ap, sym, ◌∙◌}
use teploy_dash.Access.Users.{Gate, Reply, World}
use teploy_dash.Access.Accounts.Calls.{Call, act, is_failure}
use teploy_dash.Access.Accounts.Edits.{Moved, kept, moved}
use teploy_dash.Access.Accounts.Moved.{act-Moved}

ends :
    (g : Gate) (x : Gate × Reply)
    → Moved g x
    → ((is_failure x.1 ≡ true) × (x.0.live ≡ g.live))
      ⊎ ((is_failure x.1 ≡ false) × (x.0.disk ≡ some x.0.live))
ends g (g', r) (kept _ _ f l) = inl (f, l)
ends g (g', r) (moved next _ _ f e l d) = inr (f, d ∙ ap (λ x. some x) (sym l))

-- Every change to the accounts and principals, whatever becomes of its write: it fails, and the
-- accounts, principals and the epoch counter in memory are as they were; or it succeeds, and
-- users.json holds exactly what is in memory.
pub act-ends :
    (w : World) (c : Call) (g : Gate)
    → ((is_failure (act w c g).1 ≡ true) × ((act w c g).0.live ≡ g.live))
      ⊎ ((is_failure (act w c g).1 ≡ false) × ((act w c g).0.disk ≡ some (act w c g).0.live))
act-ends w c g = ends g (act w c g) (act-Moved w c g)
