-- ===== src/Access/Sessions.antt =====
-- internal/server/server.go and sessions.go: sessions and the throttling of sign-ins.
pub mod Revoked
pub mod Lockout
use teploy_dash.Common.{
  ℕ, ◌+◌, ◌-◌, String, Bool, true, false, not, ◌&&◌, ◌||◌, Option, none, some, List, [], ◌∷◌, ltb,
  leb, eqb, if◌then◌else◌, ◌==◌, string_eq, lookup, insert, remove, byte_length,
}
use teploy_dash.Access.Caps.{capabilities_for_profile, cap_basis_for_profile}
use teploy_dash.Access.Users.{Account, Principal, UsersFile, normalize_role}

-- sessionInfo as it is stored; persistedSession is the same.
pub record Session : Type 0 where
  pub sub : String
  pub user : String
  pub role : String
  pub exp : ℕ
  pub epoch : ℕ
  pub local : Bool

-- sessionInfo after revalidation
pub record Live : Type 0 where
  pub sub : String
  pub user : String
  pub role : String
  pub exp : ℕ
  pub epoch : ℕ
  pub local : Bool
  pub caps : List String
  pub cap_basis : String

pub record FailInfo : Type 0 where
  pub count : ℕ
  pub until : ℕ

-- The sessions in memory, by the digest of their token, and sessions.json; `writable` says for each
-- later write whether it succeeds, and an empty list that all do.
pub record Sessions : Type 0 where
  pub sessions : List (String × Session)
  pub file : List (String × Session)
  pub writable : List Bool

abbrev pub session_ttl : ℕ
session_ttl = 2592000000000000

abbrev pub session_renew_after : ℕ
session_renew_after = 86400000000000

unexpired : ℕ → List (String × Session) → List (String × Session)
unexpired now [] = []
unexpired now ((k, s) ∷ rest) =
    let others = unexpired now rest in if ltb now s.exp then (k, s) ∷ others else others

unfoldable pub write_file : ℕ → Sessions → List Bool → Sessions
unfolding unexpired
write_file now g [] = record g { file = unexpired now g.sessions }
write_file now g (true ∷ ws) = record g { file = unexpired now g.sessions; writable = ws }
write_file now g (false ∷ ws) = record g { writable = ws }

-- saveSessionsLocked
unfoldable pub save_sessions : ℕ → Sessions → Sessions
unfolding write_file
save_sessions now g = write_file now g g.writable

loaded : ℕ → List (String × Session) → List (String × Session)
unfolding normalize_role
loaded now [] = []
loaded now ((k, s) ∷ rest) =
    let others = loaded now rest in
    if not (eqb (byte_length k) 64) || not (ltb now s.exp)
    then others
    else (k, record s { role = normalize_role s.role }) ∷ others

-- loadSessions on a file that can be read
unfoldable pub load_sessions : ℕ → Sessions → Sessions
unfolding loaded
load_sessions now g = record g { sessions = loaded now g.file }

-- What newSessionFor keeps.
unfoldable pub kept_alive : ℕ → List (String × Session) → List (String × Session)
kept_alive now [] = []
kept_alive now ((k, s) ∷ rest) =
    let others = kept_alive now rest in if ltb s.exp now then others else (k, s) ∷ others

-- newSessionFor; `key` is the digest of the new token.
unfoldable pub new_session_for :
    String → String → String → String → ℕ → Bool → ℕ → Sessions → Sessions
unfolding kept_alive normalize_role
new_session_for key sub user role epoch local now g =
    let s : Session = record {
      sub = sub;
      user = user;
      role = normalize_role role;
      exp = now + session_ttl;
      epoch = epoch;
      local = local;
    } in
    save_sessions now (record g { sessions = insert key s (kept_alive now g.sessions) })

unfoldable pub found_session : String → ℕ → Sessions → Option Session → Sessions × Option Session
found_session key now g none = (g, none)
found_session key now g (some s) =
    if ltb s.exp now then (record g { sessions = remove key g.sessions }, none) else (g, some s)

-- lookupSession
unfoldable pub lookup_session :
    (String → String) → String → ℕ → Sessions → Sessions × Option Session
unfolding found_session
lookup_session digest token now g =
    if token == ""
    then (g, none)
    else found_session (digest token) now g (lookup (digest token) g.sessions)

delete_found : String → ℕ → Sessions → Option Session → Sessions
delete_found key now g none = g
delete_found key now g (some s) = save_sessions now (record g { sessions = remove key g.sessions })

-- deleteSession
unfoldable pub delete_session : String → ℕ → Sessions → Sessions
unfolding delete_found
delete_session key now g = delete_found key now g (lookup key g.sessions)

without_user : String → List (String × Session) → List (String × Session) × Bool
without_user sub [] = ([], false)
without_user sub ((k, s) ∷ rest) =
    let (others, removed) = without_user sub rest in
    if s.sub == sub then (others, true) else ((k, s) ∷ others, removed)

-- deleteUserSessions
unfoldable pub delete_user_sessions : String → ℕ → Sessions → Sessions
unfolding without_user
delete_user_sessions sub now g =
    let (rest, removed) = without_user sub g.sessions in
    let g' = record g { sessions = rest } in if removed then save_sessions now g' else g'

renew_found : String → ℕ → Sessions → Option Session → Sessions × Bool
renew_found key now g none = (g, false)
renew_found key now g (some s) =
    if not (ltb now s.exp) || leb (session_ttl - session_renew_after) (s.exp - now)
    then (g, false)
    else (
      save_sessions now
          (record g { sessions = insert key (record s { exp = now + session_ttl }) g.sessions }),
      true,
    )

-- renewSession
unfoldable pub renew_session : String → ℕ → Sessions → Sessions × Bool
unfolding renew_found
renew_session key now g = renew_found key now g (lookup key g.sessions)

unfoldable pub live_user : Session → Option Account → Option Live
live_user s none = none
live_user s (some u) =
    if eqb u.auth_epoch s.epoch
    then some (record {
      sub = s.sub;
      user = s.user;
      role = normalize_role u.role;
      exp = s.exp;
      epoch = s.epoch;
      local = true;
      caps = capabilities_for_profile u.capability_profile u.capabilities u.role;
      cap_basis = cap_basis_for_profile u.capability_profile;
    })
    else none

live_principal : Session → Option Principal → Option Live
live_principal s none = none
live_principal s (some p) =
    if eqb p.auth_epoch s.epoch
    then some (record {
      sub = s.sub;
      user = s.user;
      role = normalize_role p.role;
      exp = s.exp;
      epoch = s.epoch;
      local = false;
      caps = capabilities_for_profile p.capability_profile p.capabilities p.role;
      cap_basis = cap_basis_for_profile p.capability_profile;
    })
    else none

-- The revalidation of a session in wrap, against the rows of the moment.
unfoldable pub revalidated : Session → UsersFile → Option Live
unfolding live_user live_principal
revalidated s f =
    if s.local
    then live_user s (lookup s.sub f.users)
    else live_principal s (lookup s.sub f.principals)

-- lockedOut
unfoldable pub locked_info : ℕ → Option FailInfo → Bool
locked_info now none = false
locked_info now (some i) = leb 5 i.count && ltb now i.until

unfoldable pub locked_out : String → ℕ → List (String × FailInfo) → Bool
unfolding locked_info
locked_out ip now fails = locked_info now (lookup ip fails)

pruned : String → ℕ → List (String × FailInfo) → List (String × FailInfo)
pruned ip now [] = []
pruned ip now ((k, i) ∷ rest) =
    let others = pruned ip now rest in
    if not (k == ip) && ltb i.until now then others else (k, i) ∷ others

abbrev pub failures : ℕ → Option FailInfo → ℕ
failures now none = 0
failures now (some i) = if ltb i.until now then 0 else i.count

-- recordFail
unfoldable pub record_fail : String → ℕ → List (String × FailInfo) → List (String × FailInfo)
unfolding pruned
record_fail ip now fails =
    let kept = pruned ip now fails in
    insert ip (record { count = failures now (lookup ip kept) + 1; until = now + 60000000000 }) kept
