-- ===== src/Access/SignIn/Issued.antt =====
-- The session that a sign-in issues.
use teploy_dash.Common.{
  ℕ, ◌+◌, String, Bool, true, false, Option, none, some, List, [], ◌∷◌, ◌≡◌, refl, ap, sym, ◌∙◌,
  eqb, eqb_iff, if◌then◌else◌, if_elim, ◌==◌, string_eq, lookup, insert, remove, lookup-insert_self,
  lookup-remove, beq_refl, Bool-cases, inl, inr,
}
use teploy_dash.Access.Caps.{capabilities_for_profile, cap_basis_for_profile}
use teploy_dash.Access.Users.{Account, UsersFile, normalize_role}
use teploy_dash.Access.Accounts.{new_account}
use teploy_dash.Access.Start.{authenticate, authenticated}
use teploy_dash.Access.Sessions.{
  Session, Live, Sessions, new_session_for, save_sessions, write_file, kept_alive, session_ttl,
  revalidated, live_user, locked_out,
}
use teploy_dash.Access.SignIn.{
  Front, LoginReply, too_many_attempts, welcome, logged_in, handle_login,
}

sessions-write_file :
    (now : ℕ) (g : Sessions) (ws : List Bool) → (write_file now g ws).sessions ≡ g.sessions
unfolding write_file
sessions-write_file now g [] = refl
sessions-write_file now g (true ∷ ws) = refl
sessions-write_file now g (false ∷ ws) = refl

abbrev issued : String → String → ℕ → ℕ → Session
issued sub role epoch now = record {
  sub = sub;
  user = sub;
  role = normalize_role role;
  exp = now + session_ttl;
  epoch = epoch;
  local = true;
}

lookup-new_session_for :
    (key sub role : String) (epoch now : ℕ) (g : Sessions)
    → lookup key (new_session_for key sub sub role epoch true now g).sessions
      ≡ some (issued sub role epoch now)
unfolding new_session_for save_sessions
lookup-new_session_for key sub role epoch now g =
    let s = issued sub role epoch now in
    ap (lookup key) (
      sessions-write_file now (record g { sessions = insert key s (kept_alive now g.sessions) })
        g.writable)
    ∙ lookup-insert_self key s (kept_alive now g.sessions)

-- What a sign-in rests on: a row whose password matches, under the name that was asked for.
authenticated-row :
    (matches : String → String → Bool) (password : String) (x : Option Account) (u : Account)
    → authenticated matches password x ≡ some u
    → (row : Account) × (x ≡ some row)
      × (u.username ≡ row.username)
      × (u.auth_epoch ≡ row.auth_epoch)
      × (matches row.password_hash password ≡ true)
unfolding authenticated
authenticated-row matches password none u h = cc
authenticated-row matches password (some row) u h =
    elim (Bool-cases (matches row.password_hash password)) [
      | inl y ↦
          let one : some (new_account row.username "" (normalize_role row.role) row.auth_epoch "")
              ≡ some u =
            rw y at h in
          let same : new_account row.username "" (normalize_role row.role) row.auth_epoch "" ≡ u =
            cc in
          (
            row,
            refl,
            ap (λ (a : Account). a.username) (sym same),
            ap (λ (a : Account). a.auth_epoch) (sym same),
            y,
          )
      | inr y ↦ let clash : none ≡ some u = rw y at h in cc
    ]

revalidated-row :
    (s : Session) (f : UsersFile) (row : Account)
    → s.local ≡ true
    → lookup s.sub f.users ≡ some row
    → row.auth_epoch ≡ s.epoch
    → (live : Live) × (revalidated s f ≡ some live)
      × (live.role ≡ normalize_role row.role)
      × (live.caps ≡ capabilities_for_profile row.capability_profile row.capabilities row.role)
unfolding revalidated live_user
revalidated-row s f row y l e =
    let fits : eqb row.auth_epoch s.epoch ≡ true = (eqb_iff row.auth_epoch s.epoch).1 e in
    (
      record {
        sub = s.sub;
        user = s.user;
        role = normalize_role row.role;
        exp = s.exp;
        epoch = s.epoch;
        local = true;
        caps = capabilities_for_profile row.capability_profile row.capabilities row.role;
        cap_basis = cap_basis_for_profile row.capability_profile;
      },
      rw (y, l, fits) refl,
      refl,
      refl,
    )

-- What holds after a sign-in that is welcome: the new session passes the revalidation against the row
-- whose password matched, with that row's capabilities, and no failure of the address is on record.
pub record SignedIn (matches : String → String → Bool) (key ip password : String) (now : ℕ)
    (f : Front) : Type 0 where
  pub session : Session
  pub row : Account
  pub live : Live
  pub stored : lookup key f.sessions.sessions ≡ some session
  pub known : lookup session.sub f.gate.live.users ≡ some row
  pub proved : matches row.password_hash password ≡ true
  pub valid : revalidated session f.gate.live ≡ some live
  pub granted :
      live.caps ≡ capabilities_for_profile row.capability_profile row.capabilities row.role
  pub cleared : lookup ip f.fails ≡ none

module _ (matches : String → String → Bool) (key ip password : String) (now : ℕ) (f : Front)
    (name : String)
    (keyed : (k : String) (u : Account)
      → lookup k f.gate.live.users ≡ some u
      → u.username ≡ k) where
  logged_in-SignedIn :
      (x : Option Account)
      → authenticated matches password (lookup name f.gate.live.users) ≡ x
      → (logged_in key ip now f x).1 ≡ welcome
      → SignedIn matches key ip password now (logged_in key ip now f x).0
  unfolding logged_in
  logged_in-SignedIn none a h = cc
  logged_in-SignedIn (some u) a h =
      let (row, l, same, epoch, proved) =
        authenticated-row matches password (lookup name f.gate.live.users) u a in
      let at : u.username ≡ name = same ∙ keyed name row l in
      let there : lookup u.username f.gate.live.users ≡ some row =
        ap (λ k. lookup k f.gate.live.users) at ∙ l in
      let (live, valid, role, caps) =
        revalidated-row (issued u.username u.role u.auth_epoch now) f.gate.live row refl there
          (sym epoch) in
      let gone : lookup ip (remove ip f.fails) ≡ none =
        lookup-remove ip ip f.fails
        ∙ ap (λ b. if b then none else lookup ip f.fails) (beq_refl ip) in
      record {
        session = issued u.username u.role u.auth_epoch now;
        row = row;
        live = live;
        stored = lookup-new_session_for key u.username u.role u.auth_epoch now f.sessions;
        known = there;
        proved = proved;
        valid = valid;
        granted = caps;
        cleared = gone;
      }

-- A sign-in that is welcome issues a session that passes the revalidation, against an account whose
-- password matched and with that account's capabilities of the moment, and no failed sign-in of its
-- address is on record afterwards. Accounts are assumed to stand under their own names.
pub handle_login-SignedIn :
    (matches : String → String → Bool) (key ip username password : String) (now : ℕ) (f : Front)
    → ((k : String) (u : Account) → lookup k f.gate.live.users ≡ some u → u.username ≡ k)
    → (handle_login matches key ip username password now f).1 ≡ welcome
    → SignedIn matches key ip password now (handle_login matches key ip username password now f).0
unfolding handle_login authenticate
handle_login-SignedIn matches key ip username password now f keyed =
    let env = if f.gate.env_user == "" then "admin" else f.gate.env_user in
    let name = if username == "" then env else username in
    if_elim (λ (x : Front × LoginReply). x.1 ≡ welcome → SignedIn matches key ip password now x.0)
      (locked_out ip now f.fails) (f, too_many_attempts)
      (logged_in key ip now f (authenticated matches password (lookup name f.gate.live.users)))
      (λ h. cc)
      (logged_in-SignedIn matches key ip password now f name keyed
        (authenticated matches password (lookup name f.gate.live.users)) refl)
