-- ===== src/Examples/Access.antt =====
-- Accounts, sessions and requests of a small dashboard.
use teploy_dash.Common.{
  Bool, ◌==◌, String, Bool-cases, inl, inr, sym, ap, ◌∙◌, ℕ, ◌<◌, true, false, not, ◌&&◌, none,
  some, List, [], ◌∷◌, ◌≡◌, ◌≢◌, ◌⊎◌, refl, arith, lookup, insert, tally, string_eq,
}
use teploy_dash.Alert.Channels.{contains}
use teploy_dash.Access.Caps.{
  normalize, new_set, known, missing, preset_for_role, capabilities_for_profile,
  cap_basis_for_profile,
}
use teploy_dash.Access.Caps.Narrow.{normalize-contains}
use teploy_dash.Access.Users.{Account, UsersFile, Gate, World, saved_users, normalize_role}
use teploy_dash.Access.Accounts.{count_admins, revoke_sessions, narrow_to_preset}
use teploy_dash.Access.Accounts.Calls.{Call, revokes, deletes, sets_role, act, play, is_failure}
use teploy_dash.Access.Accounts.Saved.{act-ends}
use teploy_dash.Access.Accounts.Admins.{play-admins}
use teploy_dash.Access.Accounts.Retired.{by_revoking}
use teploy_dash.Access.Start.{
  absent, present, no_legacy, loaded_users, load_users, normal_account, new_auth_gate,
}
use teploy_dash.Access.Start.Loading.{new_auth_gate-setup}
use teploy_dash.Access.Start.Restored.{load_users-rows_of}
use teploy_dash.Access.Start.{authenticate}
use teploy_dash.Access.SignIn.{Front, handle_login}
use teploy_dash.Access.SignIn.Issued.{SignedIn, handle_login-SignedIn}
use teploy_dash.Access.Sessions.{Session, Live, revalidated, locked_out, lookup_session}
use teploy_dash.Access.Sessions.Revoked.{revoked_dead}
use teploy_dash.Access.Sessions.Lockout.{fails_at, fails_at_locked}
use teploy_dash.Access.Routes.{has_prefix, is_mutating, required_capabilities}
use teploy_dash.Access.Routes.Viewer.{open_to_viewers}
use teploy_dash.Access.Gate.Viewing.{wrap-viewer}
use teploy_dash.Access.Accounts.Narrowed.{narrow_to_preset-narrows, granted_to}
use teploy_dash.Access.Gate.{Request, Door, served, wrap, early}
use teploy_dash.Access.Gate.Authorized.{Held, wrap-Held}
use teploy_dash.Access.Gate.Barred.{wrap-revoked}

abbrev root : Account
root = record {
  username = "root";
  password_hash = "h";
  role = "admin";
  auth_epoch = 1;
  capability_profile = "preset";
  capabilities = [];
}

abbrev store : UsersFile
store = record { users = ("root", root) ∷ []; principals = []; epoch_counter = 1 }

abbrev gate : Gate
gate = record {
  live = store;
  setup_required = false;
  env_user = "";
  env_pass = "";
  disk = some store;
  faults = [];
}

abbrev world : World
world = record { hash = λ p. some p; trim = λ s. s; valid_name = λ s. true }

normalize-contains_example :
    (contains (normalize ("view.logs" ∷ "nonsense" ∷ [])) "view.logs"
      ≡ (known "view.logs" && contains ("view.logs" ∷ "nonsense" ∷ []) "view.logs"))
    × (contains (new_set ("view.logs" ∷ "nonsense" ∷ [])) "view.logs"
        ≡ contains (normalize ("view.logs" ∷ "nonsense" ∷ [])) "view.logs")
normalize-contains_example = normalize-contains ("view.logs" ∷ "nonsense" ∷ []) "view.logs"

abbrev old_account : Account
old_account = record root { capability_profile = "" }

abbrev old_gate : Gate
old_gate = record gate { live = record store { users = ("root", old_account) ∷ [] } }

narrow_to_preset-narrows_example : contains (granted_to old_account) "view.logs" ≡ true
unfolding lookup narrow_to_preset saved_users contains capabilities_for_profile preset_for_role
    insert
narrow_to_preset-narrows_example =
    narrow_to_preset-narrows "root" old_gate old_account root "view.logs" refl refl refl refl

act-ends_example :
    ((is_failure (act world (deletes "root") gate).1 ≡ true)
      × ((act world (deletes "root") gate).0.live ≡ store))
    ⊎ ((is_failure (act world (deletes "root") gate).1 ≡ false)
        × ((act world (deletes "root") gate).0.disk
            ≡ some (act world (deletes "root") gate).0.live))
act-ends_example = act-ends world (deletes "root") gate

abbrev attacks : List Call
attacks = deletes "root" ∷ sets_role "root" "viewer" ∷ []

play-admins_example : 0 < count_admins (play world attacks gate).live.users
unfolding count_admins tally lookup
play-admins_example = play-admins world attacks gate (refl, tt) (omega arith)

abbrev signed_in_before : Session
signed_in_before = record {
  sub = "root";
  user = "root";
  role = "admin";
  exp = 99;
  epoch = 1;
  local = true;
}

revoked_dead_example :
    revalidated signed_in_before (play world attacks (act world (revokes "root") gate).0).live
    ≡ none
unfolding act revoke_sessions saved_users lookup
revoked_dead_example =
    revoked_dead world (revokes "root") "root" (by_revoking "root") gate refl signed_in_before refl
      refl (omega arith) attacks (omega arith)

abbrev failures_at : List ℕ
failures_at = 11 ∷ 12 ∷ 13 ∷ 14 ∷ []

fails_at_locked_example :
    locked_out "10.0.0.1" 20 (fails_at "10.0.0.1" (10 ∷ failures_at) []) ≡ true
fails_at_locked_example =
    fails_at_locked "10.0.0.1" 10 failures_at [] 20
      (omega arith, (omega arith, (omega arith, (omega arith, tt)))) (omega arith) (omega arith)

abbrev deploy_request : Request
deploy_request = record {
  method = "POST";
  path = "/api/deploy";
  same_origin = true;
  token = some "t";
  ip = "10.0.0.1";
}

abbrev door : Door
door = record {
  init_failed = false;
  setup_required = false;
  accounts = store;
  sessions = record { sessions = ("t", signed_in_before) ∷ []; file = []; writable = [] };
  fails = [];
}

abbrev live_root : Live
live_root = record {
  sub = "root";
  user = "root";
  role = "admin";
  exp = 99;
  epoch = 1;
  local = true;
  caps = preset_for_role "admin";
  cap_basis = "preset";
}

wrap-Held_example :
    (live : Live) × (some live_root ≡ some live)
    × Held (λ t. t) deploy_request door live
    × ((is_mutating "POST" && not true) ≡ false)
    × (missing live.caps (required_capabilities "POST" "/api/deploy") ≡ [])
unfolding early has_prefix wrap lookup_session lookup revalidated is_mutating missing
    required_capabilities capabilities_for_profile normalize_role cap_basis_for_profile
wrap-Held_example = wrap-Held (λ t. t) deploy_request 5 door (some live_root) refl refl

abbrev guest : Account
guest = record root { role = "viewer" }

abbrev guest_door : Door
guest_door = record door { accounts = record store { users = ("root", guest) ∷ [] } }

wrap-viewer_example : (wrap (λ t. t) deploy_request 5 guest_door).1 ≢ served (some live_root)
unfolding is_mutating has_prefix open_to_viewers lookup early
wrap-viewer_example =
    wrap-viewer (λ t. t) deploy_request 5 guest_door "t" signed_in_before guest refl refl refl refl
      refl refl refl refl refl refl (some live_root)

abbrev fresh_install : Gate
fresh_install = record gate {
  live = record { users = []; principals = []; epoch_counter = 0 };
  disk = none;
}

new_auth_gate-setup_example : (absent ≡ absent) × (no_legacy ≡ no_legacy) × (◌≡◌ {A = String} "" "")
unfolding new_auth_gate load_users
new_auth_gate-setup_example = new_auth_gate-setup world absent no_legacy "" "" fresh_install refl

load_users-rows_of_example :
    ((load_users (present (root ∷ []) [] 1) no_legacy fresh_install).1 ≡ loaded_users)
    × ((load_users (present (root ∷ []) [] 1) no_legacy fresh_install).0.live
        ≡ record { users = ("root", normal_account root) ∷ []; principals = []; epoch_counter = 1 })
unfolding lookup
load_users-rows_of_example =
    load_users-rows_of store no_legacy fresh_install (refl, tt) tt ((refl, refl), tt) tt refl

abbrev door_after : Door
door_after = record door {
  accounts = (play world attacks (act world (revokes "root") gate).0).live;
}

wrap-revoked_example : (wrap (λ t. t) deploy_request 5 door_after).1 ≢ served (some live_root)
unfolding act revoke_sessions saved_users lookup early has_prefix
wrap-revoked_example =
    wrap-revoked world (revokes "root") "root" (by_revoking "root") gate refl signed_in_before refl
      refl (omega arith) attacks (omega arith) (λ t. t) deploy_request 5 door_after "t" refl refl
      refl refl (some live_root)

abbrev front : Front
front = record {
  gate = gate;
  sessions = record { sessions = []; file = []; writable = [] };
  fails = [];
}

gate-keyed : (k : String) (u : Account) → lookup k gate.live.users ≡ some u → u.username ≡ k
unfolding lookup
gate-keyed k u h = elim (Bool-cases ("root" == k)) [
  | inl y ↦
      let one : some root ≡ some u = rw y at h in
      let same : root ≡ u = cc in
      ap (λ (a : Account). a.username) (sym same) ∙ (string_eq.beq_iff "root" k).0 y
  | inr y ↦ let clash : none ≡ some u = rw y at h in cc
]

abbrev same_text : String → String → Bool
same_text a b = a == b

handle_login-SignedIn_example :
    SignedIn same_text "t" "10.0.0.1" "h" 5
      (handle_login same_text "t" "10.0.0.1" "root" "h" 5 front).0
unfolding handle_login authenticate locked_out lookup
handle_login-SignedIn_example =
    handle_login-SignedIn same_text "t" "10.0.0.1" "root" "h" 5 front gate-keyed refl
