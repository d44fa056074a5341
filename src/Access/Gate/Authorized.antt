-- ===== src/Access/Gate/Authorized.antt =====
-- Who is served by the gate.
use teploy_dash.Common.{
  ℕ, String, false, not, ◌&&◌, Option, none, some, List, [], ◌∷◌, ◌≡◌, refl, sym, if_elim, ◌==◌,
  string_eq, lookup, remove, ltb, Bool-cases, inl, inr,
}
use teploy_dash.Access.Caps.{missing}
use teploy_dash.Access.Users.{UsersFile}
use teploy_dash.Access.Sessions.{
  Session, Live, Sessions, lookup_session, found_session, revalidated, locked_out,
}
use teploy_dash.Access.Routes.{is_mutating, required_capabilities}
use teploy_dash.Access.Gate.{
  Request, Door, served, throttled, unauthorized, cross_origin, wrap, through, late, early,
  session_of, revalidate, settle_session, judge, first_lacking, crosses,
}

-- The live session comes from a session under the token's digest, and passed the revalidation.
pub record Held (digest : String → String) (r : Request) (d : Door) (live : Live) : Type 0 where
  pub token : String
  pub cookie : r.token ≡ some token
  pub session : Session
  pub stored : lookup (digest token) d.sessions.sessions ≡ some session
  pub valid : revalidated session d.accounts ≡ some live

found_session-stored :
    (key : String) (now : ℕ) (g : Sessions) (x : Option Session) (s : Session)
    → (found_session key now g x).1 ≡ some s
    → x ≡ some s
unfolding found_session
found_session-stored key now g none s = λ h. cc
found_session-stored key now g (some t) s =
    if_elim (λ (y : Sessions × Option Session). y.1 ≡ some s → some t ≡ some s) (ltb t.exp now)
      (record g { sessions = remove key g.sessions }, none) (g, some t) (λ h. cc) (λ h. h)

lookup_session-stored :
    (digest : String → String) (token : String) (now : ℕ) (g : Sessions) (s : Session)
    → (lookup_session digest token now g).1 ≡ some s
    → lookup (digest token) g.sessions ≡ some s
unfolding lookup_session
lookup_session-stored digest token now g s =
    if_elim
      (λ (y : Sessions × Option Session). y.1 ≡ some s → lookup (digest token) g.sessions ≡ some s)
      (token == "") (g, none)
      (found_session (digest token) now g (lookup (digest token) g.sessions)) (λ h. cc)
      (found_session-stored (digest token) now g (lookup (digest token) g.sessions) s)

settle_session-live :
    (key : String) (now : ℕ) (g : Sessions) (x : Option Live) (live : Live)
    → (settle_session key now g x).1 ≡ some live
    → x ≡ some live
unfolding settle_session
settle_session-live key now g none live h = cc
settle_session-live key now g (some l) live h = h

revalidate-valid :
    (key : String) (now : ℕ) (accounts : UsersFile) (x : Sessions × Option Session) (live : Live)
    → (revalidate key now accounts x).1 ≡ some live
    → (s : Session) × (x.1 ≡ some s) × (revalidated s accounts ≡ some live)
unfolding revalidate
revalidate-valid key now accounts (g, none) live h = cc
revalidate-valid key now accounts (g, some s) live h =
    (s, refl, settle_session-live key now g (revalidated s accounts) live h)

session_of-Held :
    (digest : String → String) (r : Request) (now : ℕ) (d : Door) (x : Option String) (live : Live)
    → r.token ≡ x
    → (session_of digest x now d).1 ≡ some live
    → Held digest r d live
unfolding session_of
session_of-Held digest r now d none live e h = cc
session_of-Held digest r now d (some token) live e h =
    let (s, found, valid) =
      revalidate-valid (digest token) now d.accounts (lookup_session digest token now d.sessions)
        live h in
    record {
      token = token;
      cookie = e;
      session = s;
      stored = lookup_session-stored digest token now d.sessions s found;
      valid = valid;
    }

first_lacking-served :
    (live : Live) (cs : List String) (who : Option Live)
    → first_lacking live cs ≡ served who
    → (who ≡ some live) × (cs ≡ [])
unfolding first_lacking
first_lacking-served live [] who h = (let same : some live ≡ who = cc in sym same, refl)
first_lacking-served live (c ∷ cs) who h = cc

judge-served :
    (r : Request) (now : ℕ) (d : Door) (x : Option Live) (who : Option Live)
    → judge r now d x ≡ served who
    → (live : Live) × (x ≡ some live)
      × (who ≡ some live)
      × (crosses r ≡ false)
      × (missing live.caps (required_capabilities r.method r.path) ≡ [])
unfolding judge
judge-served r now d none who h = elim (Bool-cases (locked_out r.ip now d.fails)) [
  | inl y ↦ let clash : throttled ≡ served who = rw y at h in cc
  | inr y ↦ let clash : unauthorized ≡ served who = rw y at h in cc
]
judge-served r now d (some live) who h = elim (Bool-cases (crosses r)) [
  | inl y ↦ let clash : cross_origin ≡ served who = rw y at h in cc
  | inr y ↦
      let left : first_lacking live (missing live.caps (required_capabilities r.method r.path))
          ≡ served who =
        rw y at h in
      let (same, empty) =
        first_lacking-served live (missing live.caps (required_capabilities r.method r.path)) who
          left in
      (live, refl, same, y, empty)
]

late-served :
    (r : Request) (now : ℕ) (d : Door) (x : Sessions × Option Live) (who : Option Live)
    → (late r now d x).1 ≡ served who
    → (live : Live) × (x.1 ≡ some live)
      × (who ≡ some live)
      × (crosses r ≡ false)
      × (missing live.caps (required_capabilities r.method r.path) ≡ [])
unfolding late
late-served r now d (sessions, x) who h = judge-served r now d x who h

-- A request that the gate serves on a route that asks for a session holds the token of a stored
-- session that passes the revalidation at that moment, is not a mutating request across origins, and
-- lacks none of the capabilities that the route requires.
pub wrap-Held :
    (digest : String → String) (r : Request) (now : ℕ) (d : Door) (who : Option Live)
    → early r now d ≡ none
    → (wrap digest r now d).1 ≡ served who
    → (live : Live) × (who ≡ some live)
      × Held digest r d live
      × ((is_mutating r.method && not r.same_origin) ≡ false)
      × (missing live.caps (required_capabilities r.method r.path) ≡ [])
unfolding wrap through
wrap-Held digest r now d who asks h =
    let (live, e, same, c, m) =
      late-served r now d (session_of digest r.token now d) who (rw asks at h) in
    (live, same, session_of-Held digest r now d r.token live refl e, c, m)
