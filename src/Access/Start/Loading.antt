-- ===== src/Access/Start/Loading.antt =====
-- What a start makes of users.json.
use teploy_dash.Common.{
  ℕ, String, true, false, ◌&&◌, Option, none, some, List, [], ◌∷◌, ◌≡◌, refl, sym, ◌∙◌,
  if◌then◌else◌, if_elim, ◌==◌, string_eq, Bool-cases, inl, inr,
}
use teploy_dash.Access.Users.{
  Account, Principal, UsersFile, Gate, World, Reply, done, signed_in, stale, refused, Write, wrote,
  lost, visible, published, commit, saved_users, with_user,
}
use teploy_dash.Access.Accounts.{new_account, opened}
use teploy_dash.Access.Start.{
  Rows, read, broken, read_rows, normal_account, Stored, unreadable, absent, present, Legacy,
  no_legacy, bad_legacy, credentials, LoadReply, loaded_users, no_store, failed, no_rows,
  with_principals, with_users, from_legacy, load_users, hashed_env, materialize_env, env_opened,
  opened_gate, new_auth_gate,
}

commit-setup :
    (next : UsersFile) (reply : Reply) (g : Gate) (ws : List Write)
    → (commit next reply g ws).0.setup_required ≡ g.setup_required
unfolding commit published
commit-setup next reply g [] = refl
commit-setup next reply g (wrote ∷ ws) = refl
commit-setup next reply g (lost ∷ ws) = refl
commit-setup next reply g (visible ∷ ws) = refl

saved_users-setup :
    (next : UsersFile) (reply : Reply) (g : Gate)
    → (saved_users next reply g).0.setup_required ≡ g.setup_required
unfolding saved_users
saved_users-setup next reply g = commit-setup next reply g g.faults

-- Loading leaves no set-up open, and reports that there is no store only where there is none.
record Closed (stored : Stored) (old : Legacy) (pass : String) (x : Gate × LoadReply) : Type 0 where
  shut : x.0.setup_required ≡ false
  pass_kept : x.0.env_pass ≡ pass
  empty : x.1 ≡ no_store → (stored ≡ absent) × (old ≡ no_legacy)

commit-pass :
    (next : UsersFile) (reply : Reply) (g : Gate) (ws : List Write)
    → (commit next reply g ws).0.env_pass ≡ g.env_pass
unfolding commit published
commit-pass next reply g [] = refl
commit-pass next reply g (wrote ∷ ws) = refl
commit-pass next reply g (lost ∷ ws) = refl
commit-pass next reply g (visible ∷ ws) = refl

with_principals-Closed :
    (stored : Stored) (old : Legacy) (g : Gate) (us : List (String × Account)) (n : ℕ)
    (x : Rows Principal)
    → g.setup_required ≡ false
    → Closed stored old g.env_pass (with_principals g us n x)
unfolding with_principals
with_principals-Closed stored old g us n (broken ps why) e = record {
  shut = e;
  pass_kept = refl;
  empty = λ h. cc;
}
with_principals-Closed stored old g us n (read ps) e = record {
  shut = refl;
  pass_kept = refl;
  empty =
      if_elim (λ r. r ≡ no_store → (stored ≡ absent) × (old ≡ no_legacy)) (no_rows us && no_rows ps)
        _ _ (λ h. cc) (λ h. cc);
}

with_users-Closed :
    (stored : Stored) (old : Legacy) (g : Gate) (ps : List Principal) (n : ℕ) (x : Rows Account)
    → g.setup_required ≡ false
    → Closed stored old g.env_pass (with_users g ps n x)
unfolding with_users
with_users-Closed stored old g ps n (broken us why) e = record {
  shut = e;
  pass_kept = refl;
  empty = λ h. cc;
}
with_users-Closed stored old g ps n (read us) e = with_principals-Closed stored old g us n _ e

from_legacy-Closed :
    (g : Gate) (old : Legacy)
    → g.setup_required ≡ false
    → Closed absent old g.env_pass (from_legacy g old)
unfolding from_legacy saved_users
from_legacy-Closed g no_legacy e = record { shut = e; pass_kept = refl; empty = λ h. (refl, refl) }
from_legacy-Closed g (bad_legacy why) e = record { shut = e; pass_kept = refl; empty = λ h. cc }
from_legacy-Closed g (credentials username hash) e =
    let name = if username == "" then "admin" else username in
    let live : UsersFile = record g.live {
      users = (name, new_account name hash "admin" 0 "") ∷ [];
    } in
    let g' : Gate = record g { live = live; setup_required = false } in
    if_elim (λ (x : Gate × LoadReply). Closed absent (credentials username hash) g.env_pass x)
      (hash == "") _ ((saved_users live done g').0, loaded_users)
      (record { shut = e; pass_kept = refl; empty = λ h. cc })
      (record {
        shut = saved_users-setup live done g';
        pass_kept = commit-pass live done g' g.faults;
        empty = λ h. cc;
      })

load_users-Closed :
    (stored : Stored) (old : Legacy) (g : Gate)
    → g.setup_required ≡ false
    → Closed stored old g.env_pass (load_users stored old g)
unfolding load_users
load_users-Closed (unreadable why) old g e = record { shut = e; pass_kept = refl; empty = λ h. cc }
load_users-Closed absent old g e = from_legacy-Closed g old e
load_users-Closed (present us ps n) old g e =
    with_users-Closed (present us ps n) old g ps n
      (read_rows (λ (u : Account). u.username) normal_account us []) e

opened-shut :
    (x : Gate × Reply)
    → x.0.setup_required ≡ false
    → (env_opened (opened x)).0.setup_required ≡ false
unfolding env_opened
opened-shut (g, done) e = refl
opened-shut (g, signed_in n role) e = e
opened-shut (g, stale) e = e
opened-shut (g, refused why) e = e

materialize_env-shut :
    (name : String) (g : Gate) (h : Option String)
    → g.setup_required ≡ false
    → (env_opened (hashed_env name g h)).0.setup_required ≡ false
unfolding hashed_env env_opened
materialize_env-shut name g none e = e
materialize_env-shut name g (some h) e =
    let next = with_user name (new_account name h "admin" 1 "") 1 g in
    opened-shut (saved_users next done g) (saved_users-setup next done g ∙ e)

opened_gate-setup :
    (w : World) (stored : Stored) (old : Legacy) (pass : String) (x : Gate × LoadReply)
    → Closed stored old pass x
    → (opened_gate w x).0.setup_required ≡ true
    → (stored ≡ absent) × (old ≡ no_legacy) × (pass ≡ "")
unfolding opened_gate materialize_env
opened_gate-setup w stored old pass (g, loaded_users) c h =
    let clash : false ≡ true = sym c.shut ∙ h in cc
opened_gate-setup w stored old pass (g, failed why) c h =
    let clash : false ≡ true = sym c.shut ∙ h in cc
opened_gate-setup w stored old pass (g, no_store) c h = elim (Bool-cases (g.env_pass == "")) [
  | inl y ↦
      ((c.empty refl).0, (c.empty refl).1, sym c.pass_kept ∙ (string_eq.beq_iff g.env_pass "").0 y)
  | inr y ↦
      let name = if w.trim g.env_user == "" then "admin" else w.trim g.env_user in
      let clash : false ≡ true =
        sym (materialize_env-shut name g (w.hash g.env_pass) c.shut) ∙ (rw y at h) in
      cc
]

-- A start opens the first set-up, in which whoever has the bootstrap token creates the administrator,
-- only where there is no users.json, no older auth.json and no password in the environment: a store
-- that cannot be read, or has no users, does not open it.
pub new_auth_gate-setup :
    (w : World) (stored : Stored) (old : Legacy) (user pass : String) (blank : Gate)
    → (new_auth_gate w stored old user pass blank).0.setup_required ≡ true
    → (stored ≡ absent) × (old ≡ no_legacy) × (pass ≡ "")
unfolding new_auth_gate
new_auth_gate-setup w stored old user pass blank h =
    let g : Gate = record blank {
      live = record { users = []; principals = []; epoch_counter = 0 };
      setup_required = false;
      env_user = user;
      env_pass = pass;
    } in
    opened_gate-setup w stored old pass (load_users stored old g)
      (load_users-Closed stored old g refl) h
