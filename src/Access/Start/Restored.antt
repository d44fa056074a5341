-- ===== src/Access/Start/Restored.antt =====
-- What a start reads back of the accounts that were saved.
use teploy_dash.Common.{
  String, false, ◌&&◌, none, some, List, [], ◌∷◌, ◌++◌, ◌≡◌, refl, ap, sym, ◌∙◌, arith,
  if◌then◌else◌, ◌==◌, string_eq, lookup, insert, lookup-insert, Unique, All, Bool-cases, inl, inr,
}
use teploy_dash.Access.Users.{Account, Principal, UsersFile, Gate}
use teploy_dash.Access.Start.{
  read, found_row, read_rows, normal_account, normal_principal, present, Legacy, loaded_users,
  no_rows, with_principals, with_users, load_users,
}

module _ {ℓ} {A : Type ℓ} (key : A → String) (normal : A → A) where
  abbrev pub rows_of : List (String × A) → List A
  rows_of [] = []
  rows_of ((k, x) ∷ m) = x ∷ rows_of m

  abbrev pub normals : List (String × A) → List (String × A)
  normals [] = []
  normals ((k, x) ∷ m) = (k, normal x) ∷ normals m

  -- Every row stands under its own key, which is not empty.
  abbrev pub Named : List (String × A) → Type 0
  Named m = All (λ (e : String × A). (key e.1 ≡ e.0) × ((e.0 == "") ≡ false)) m

  insert-absent :
      (k : String) (x : A) (m : List (String × A))
      → lookup k m ≡ none
      → insert k x m ≡ m ++ (k, x) ∷ []
  unfolding insert lookup
  insert-absent k x [] h = refl
  insert-absent k x ((j, y) ∷ m) h = elim (Bool-cases (j == k)) [
    | inl e ↦ let clash : some y ≡ none = rw e at h in cc
    | inr e ↦ rw e (ap (λ rest. (j, y) ∷ rest) (insert-absent k x m (rw e at h)))
  ]

  abbrev Absent : List (String × A) → List (String × A) → Type ℓ
  Absent acc m = All (λ (e : String × A). lookup e.0 acc ≡ none) m

  insert-Absent :
      (k : String) (x : A) (acc m : List (String × A))
      → lookup k m ≡ none
      → Absent acc m
      → Absent (insert k x acc) m
  unfolding lookup
  insert-Absent k x acc [] h a = tt
  insert-Absent k x acc ((j, y) ∷ m) h a = elim (Bool-cases (j == k)) [
    | inl e ↦ let clash : some y ≡ none = rw e at h in cc
    | inr e ↦
        let apart : (k == j) ≡ false =
          ground (arith, e, string_eq.beq_iff j k, string_eq.beq_iff k j) in
        (
          lookup-insert k j x acc ∙ ap (λ b. if b then some x else lookup j acc) apart ∙ a.0,
          insert-Absent k x acc m (rw e at h) a.1,
        )
  ]

  append_one :
      (acc : List (String × A)) (e : String × A) (m : List (String × A))
      → (acc ++ e ∷ []) ++ m ≡ acc ++ e ∷ m
  append_one [] e m = refl
  append_one (a ∷ acc) e m = ap (λ rest. a ∷ rest) (append_one acc e m)

  append_nil : (acc : List (String × A)) → acc ++ [] ≡ acc
  append_nil [] = refl
  append_nil (a ∷ acc) = ap (λ rest. a ∷ rest) (append_nil acc)

  read_rows-rows_of :
      (m acc : List (String × A))
      → Unique m
      → Named m
      → Absent acc m
      → read_rows key normal (rows_of m) acc ≡ read (acc ++ normals m)
  unfolding read_rows found_row
  read_rows-rows_of [] acc u n a = ap (λ rows. read rows) (sym (append_nil acc))
  read_rows-rows_of ((k, x) ∷ m) acc u n a =
      rw (n.0.0, n.0.1, a.0)
        (read_rows-rows_of m (insert k (normal x) acc) u.1 n.1
            (insert-Absent k (normal x) acc m u.0 a.1)
          ∙ ap (λ rows. read rows)
              (ap (λ rows. rows ++ normals m) (insert-absent k (normal x) acc a.0)
                ∙ append_one acc (k, normal x) (normals m)))

  nil-Absent : (m : List (String × A)) → Absent [] m
  unfolding lookup
  nil-Absent [] = tt
  nil-Absent (e ∷ m) = (refl, nil-Absent m)

  no_rows-normals : (m : List (String × A)) → no_rows (normals m) ≡ no_rows m
  no_rows-normals [] = refl
  no_rows-normals (e ∷ m) = refl

abbrev pub user_key : Account → String
user_key u = u.username

abbrev pub principal_key : Principal → String
principal_key p = p.subject

-- A start reads back what was saved: from the rows of a file in which every account and principal
-- stands under its own name, once, and which is not empty, it loads these, with their roles and
-- capabilities normalized, and the epoch counter.
pub load_users-rows_of :
    (f : UsersFile) (old : Legacy) (g : Gate)
    → Unique f.users
    → Unique f.principals
    → Named user_key normal_account f.users
    → Named principal_key normal_principal f.principals
    → (no_rows f.users && no_rows f.principals) ≡ false
    → ((load_users
          (present
            (rows_of user_key normal_account f.users)
            (rows_of principal_key normal_principal f.principals)
            f.epoch_counter)
          old
          g).1
        ≡ loaded_users)
      × ((load_users
            (present
              (rows_of user_key normal_account f.users)
              (rows_of principal_key normal_principal f.principals)
              f.epoch_counter)
            old
            g).0.live
          ≡ record {
            users = normals user_key normal_account f.users;
            principals = normals principal_key normal_principal f.principals;
            epoch_counter = f.epoch_counter;
          })
unfolding load_users with_users with_principals
load_users-rows_of f old g uu up nu np some_row =
    let us =
      read_rows-rows_of user_key normal_account f.users [] uu nu
        (nil-Absent user_key normal_account f.users) in
    let ps =
      read_rows-rows_of principal_key normal_principal f.principals [] up np
        (nil-Absent principal_key normal_principal f.principals) in
    let kept : (no_rows (normals user_key normal_account f.users)
          && no_rows (normals principal_key normal_principal f.principals))
        ≡ false =
      ground (
        arith,
        no_rows-normals user_key normal_account f.users,
        no_rows-normals principal_key normal_principal f.principals,
        some_row,
      ) in
    rw (us, ps, kept) (refl, refl)
