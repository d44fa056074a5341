-- ===== src/Access/Caps/Narrow.antt =====
-- What the operations on capability sets keep.
use teploy_dash.Common.{
  String, Bool, true, false, not, ◌&&◌, ◌||◌, List, [], ◌∷◌, ◌≡◌, refl, ap, sym, ◌∙◌, arith,
  if◌then◌else◌, ◌==◌, string_eq, Bool-cases, inl, inr,
}
use teploy_dash.Alert.Channels.{contains}
use teploy_dash.Access.Caps.{
  known, known_once, sorted_into, sort_strings, normalize, new_set, preset_for_role,
  legacy_for_role, viewer_default, operator_default,
}

contains-sorted_into :
    (c d : String) (ds : List String) → contains (sorted_into c ds) d ≡ ((c == d) || contains ds d)
unfolding contains sorted_into
contains-sorted_into c d [] = ground arith
contains-sorted_into c d (e ∷ ds) = ground (arith, contains-sorted_into c d ds)

contains-sort_strings :
    (cs : List String) (d : String) → contains (sort_strings cs) d ≡ contains cs d
unfolding contains sort_strings
contains-sort_strings [] d = refl
contains-sort_strings (c ∷ cs) d =
    contains-sorted_into c d (sort_strings cs) ∙ ground (arith, contains-sort_strings cs d)

-- What the loop does with one token, on the tests' values: it is passed over, or kept.
passed_over :
    (same kc sc kd sd rest : Bool)
    → (same ≡ true → kc ≡ kd)
    → (same ≡ true → sc ≡ sd)
    → (not kc || sc) ≡ true
    → (kd && not sd && rest) ≡ (kd && not sd && (if same then true else rest))
passed_over same kc sc kd sd rest k s h = ground (arith, k, s, h)

taken_up :
    (same kc sc kd sd rest : Bool)
    → (same ≡ true → kc ≡ kd)
    → (same ≡ true → sc ≡ sd)
    → (not kc || sc) ≡ false
    → (if same then true else (kd && not (if same then true else sd) && rest))
      ≡ (kd && not sd && (if same then true else rest))
taken_up same kc sc kd sd rest k s h = ground (arith, k, s, h)

contains-known_once :
    (cs seen : List String) (d : String)
    → contains (known_once cs seen) d ≡ (known d && not (contains seen d) && contains cs d)
unfolding contains known_once
contains-known_once [] seen d = none_left (known d) (not (contains seen d))
  where
    none_left : (a b : Bool) → false ≡ (a && b && false)
    none_left a b = ground arith
contains-known_once (c ∷ cs) seen d =
    let k : (c == d) ≡ true → known c ≡ known d = λ y. ap known ((string_eq.beq_iff c d).0 y) in
    let s : (c == d) ≡ true → contains seen c ≡ contains seen d =
      λ y. ap (contains seen) ((string_eq.beq_iff c d).0 y) in
    elim (Bool-cases (not (known c) || contains seen c)) [
      | inl y ↦ rw y (
          contains-known_once cs seen d
          ∙ passed_over (c == d) (known c) (contains seen c) (known d) (contains seen d)
              (contains cs d) k s y)
      | inr y ↦ rw y (
          ap (λ x. if c == d then true else x) (contains-known_once cs (c ∷ seen) d)
          ∙ taken_up (c == d) (known c) (contains seen c) (known d) (contains seen d)
              (contains cs d) k s y)
    ]

-- Normalizing keeps exactly the known tokens of a list, and grants what the set of the list grants.
pub normalize-contains :
    (cs : List String) (d : String)
    → (contains (normalize cs) d ≡ (known d && contains cs d))
      × (contains (new_set cs) d ≡ contains (normalize cs) d)
unfolding normalize new_set contains
normalize-contains cs d =
    let once : contains (known_once cs []) d ≡ (known d && contains cs d) =
      contains-known_once cs [] d ∙ shorter (known d) (contains cs d) in
    let sorted = contains-sort_strings (known_once cs []) d in (sorted ∙ once, sym sorted)
  where
    shorter : (a b : Bool) → (a && true && b) ≡ (a && b)
    shorter a b = ground arith

pub contains-viewer_default :
    (c : String) → contains viewer_default c ≡ (if "view.metadata" == c then true else false)
unfolding viewer_default new_set known_once known contains
contains-viewer_default c = refl

-- The three kinds of role.
data RoleKind (role : String) : Type 0 where
  admin_role : (role == "admin") ≡ true → RoleKind role
  editor_role :
      (role == "admin") ≡ false → (role == "editor" || role == "operator") ≡ true → RoleKind role
  viewer_role :
      (role == "admin") ≡ false → (role == "editor" || role == "operator") ≡ false → RoleKind role

role_kind : (role : String) → RoleKind role
role_kind role = elim (Bool-cases (role == "admin")) [
  | inl y ↦ admin_role y
  | inr y ↦ elim (Bool-cases (role == "editor" || role == "operator")) [
    | inl z ↦ editor_role y z
    | inr z ↦ viewer_role y z
  ]
]

-- Whatever the preset of a role grants, the role granted before there were presets.
pub preset_for_role-legacy :
    (role c : String)
    → contains (preset_for_role role) c ≡ true
    → contains (legacy_for_role role) c ≡ true
unfolding preset_for_role legacy_for_role
preset_for_role-legacy role c = by_kind (role_kind role)
  where
    by_kind :
        RoleKind role
        → contains (preset_for_role role) c ≡ true
        → contains (legacy_for_role role) c ≡ true
    by_kind (admin_role y) = rw y (λ h. h)
    by_kind (editor_role y z) =
        rw (y, z)
          (unfold operator_default in
            unfold new_set in
            unfold known_once in unfold known in unfold contains in λ h. ground (arith, h))
    by_kind (viewer_role y z) =
        rw (y, z)
          (unfold viewer_default in
            unfold new_set in
            unfold known_once in unfold known in unfold contains in λ h. ground (arith, h))
