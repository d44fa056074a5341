-- ===== src/Access/Accounts/Admins.antt =====
-- There is always an administrator.
use mathlib.Core.Path.{subst}
use teploy_dash.Common.{
  ℕ, suc, ◌+◌, ◌<◌, String, Bool, Option, none, some, List, [], ◌∷◌, ◌≡◌, refl, ap, sym, ◌∙◌, arith,
  if◌then◌else◌, ◌==◌, string_eq, lookup, insert, remove, tally, Unique, insert-Unique,
  remove-Unique, Option-cases, Bool-cases, inl, inr,
}
use teploy_dash.Access.Users.{Account, UsersFile, Gate, Reply, World}
use teploy_dash.Access.Accounts.{is_admin, count_admins}
use teploy_dash.Access.Accounts.Calls.{Call, act, play}
use teploy_dash.Access.Accounts.Edits.{
  Edit, minted_user, kept_user, removed_user, minted_principal, kept_principal, Moved, kept, moved,
}
use teploy_dash.Access.Accounts.Moved.{act-Moved}

abbrev one_if : Bool → ℕ
one_if b = if b then 1 else 0

abbrev admin_count : Option Account → ℕ
admin_count none = 0
admin_count (some u) = one_if (is_admin u)

-- Writing a row changes the count by that row only.
count_admins-insert :
    (name : String) (u : Account) (m : List (String × Account))
    → count_admins (insert name u m) + admin_count (lookup name m)
      ≡ count_admins m + one_if (is_admin u)
unfolding count_admins tally insert lookup
count_admins-insert name u [] = ground arith
count_admins-insert name u ((k, v) ∷ m) = elim (Bool-cases (k == name)) [
  | inl y ↦ rw y (ground arith)
  | inr y ↦ rw y (ground (arith, count_admins-insert name u m))
]

count_admins-absent :
    (name : String) (m : List (String × Account))
    → lookup name m ≡ none
    → count_admins (remove name m) ≡ count_admins m
unfolding count_admins tally remove lookup
count_admins-absent name [] h = refl
count_admins-absent name ((k, v) ∷ m) h = elim (Bool-cases (k == name)) [
  | inl y ↦ let clash : some v ≡ none = rw y at h in cc
  | inr y ↦
      rw y (ap (λ n. if is_admin v then suc n else n) (count_admins-absent name m (rw y at h)))
]

count_admins-remove :
    (name : String) (u : Account) (m : List (String × Account))
    → Unique m
    → lookup name m ≡ some u
    → count_admins (remove name m) + one_if (is_admin u) ≡ count_admins m
unfolding count_admins tally remove lookup
count_admins-remove name u [] un h = cc
count_admins-remove name u ((k, v) ∷ m) un h = elim (Bool-cases (k == name)) [
  | inl y ↦
      let one : some v ≡ some u = rw y at h in
      let it : v ≡ u = cc in
      let same : is_admin v ≡ is_admin u = ap (λ (x : Account). is_admin x) it in
      let gone =
        count_admins-absent name m
          (ap (λ x. lookup x m) (sym ((string_eq.beq_iff k name).0 y)) ∙ un.0) in
      rw y (ground (arith, same, gone))
  | inr y ↦ let ih = count_admins-remove name u m un.1 (rw y at h) in rw y (ground (arith, ih))
]

record Manned (f : UsersFile) : Type 0 where
  unique : Unique f.users
  some_admin : 0 < count_admins f.users

Edit-Manned : (g : Gate) (next : UsersFile) → Edit g next → Manned g.live → Manned next
Edit-Manned g _ (minted_user name u e safe) h = record {
  unique = insert-Unique name u g.live.users h.unique;
  some_admin = elim (Option-cases (lookup name g.live.users)) [
    | inl f ↦
        let c = count_admins-insert name u g.live.users in
        let z : admin_count (lookup name g.live.users) ≡ 0 = ap (λ x. admin_count x) f in
        let before = h.some_admin in omega (arith, c, z, before)
    | inr (old, f) ↦
        let c = count_admins-insert name u g.live.users in
        let z : admin_count (lookup name g.live.users) ≡ one_if (is_admin old) =
          ap (λ x. admin_count x) f in
        let before = h.some_admin in ground (arith, c, z, before, safe old f)
  ];
}
Edit-Manned g _ (kept_user name u old f e r) h = record {
  unique = insert-Unique name u g.live.users h.unique;
  some_admin =
      let c = count_admins-insert name u g.live.users in
      let z : admin_count (lookup name g.live.users) ≡ one_if (is_admin u) =
        ap (λ x. admin_count x) f ∙ ap (λ x. one_if (x == "admin")) (sym r) in
      let before = h.some_admin in omega (arith, c, z, before);
}
Edit-Manned g _ (removed_user name old f safe) h = record {
  unique = remove-Unique name g.live.users h.unique;
  some_admin =
      let c = count_admins-remove name old g.live.users h.unique f in
      let before = h.some_admin in ground (arith, c, before, safe);
}
Edit-Manned g _ (minted_principal sub p e) h = record {
  unique = h.unique;
  some_admin = h.some_admin;
}
Edit-Manned g _ (kept_principal sub p old f e) h = record {
  unique = h.unique;
  some_admin = h.some_admin;
}

Moved-Manned : (g : Gate) (x : Gate × Reply) → Moved g x → Manned g.live → Manned x.0.live
Moved-Manned g _ (kept g' r f l) h = subst Manned (sym l) h
Moved-Manned g _ (moved next g' r f e l d) h = subst Manned (sym l) (Edit-Manned g next e h)

play-Manned : (w : World) (cs : List Call) (g : Gate) → Manned g.live → Manned (play w cs g).live
unfolding play
play-Manned w [] g h = h
play-Manned w (c ∷ cs) g h =
    play-Manned w cs (act w c g).0 (Moved-Manned g (act w c g) (act-Moved w c g) h)

-- Where a dashboard has an administrator and each name one account, it has an administrator after
-- any sequence of changes to its accounts, whatever becomes of their writes.
pub play-admins :
    (w : World) (cs : List Call) (g : Gate)
    → Unique g.live.users
    → 0 < count_admins g.live.users
    → 0 < count_admins (play w cs g).live.users
play-admins w cs g u a = (play-Manned w cs g (record { unique = u; some_admin = a })).some_admin
