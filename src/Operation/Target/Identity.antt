-- ===== src/Operation/Target/Identity.antt =====
-- A target check that passes names the machine that was admitted.
use Prim.Native.String.append.{cons}
use teploy_dash.Common.{
  ℕ, arith, zero, suc, get_elem?, [], if_elim, String, Bool, true, false, not, ◌&&◌, ◌||◌, Option,
  none, some, List, ◌∷◌, ◌≡◌, refl, ap, sym, ◌∙◌, inl, inr, ◌==◌, string_eq, join, Bool-cases,
  if◌then◌else◌,
}
use teploy_dash.Operation.Types.{Operation, Server, Command, Error, Result, ok, err}
use teploy_dash.Operation.Manager.{Setup}
use teploy_dash.Operation.Target.{
  same_host, retarget_command, Checked, renamed, unresolved, repointed, resolved, check_target,
  check_admitted, retarget_rest, retarget_args,
}

abbrev has_text : String → Bool
has_text String.[] = false
has_text (String.◌∷◌ c s) = true

message-has_text : (rest : List String) → has_text (join ("server " ∷ rest)) ≡ true
unfolding join
message-has_text rest = ap has_text (λ i. cons "s" "erver " (join rest) i)

-- Whether the argument at a position is the text.
abbrev pub says : List String → ℕ → String → Bool
says [] i t = false
says (a ∷ rest) zero t = a == t
says (a ∷ rest) (suc i) t = says rest i t

-- The positions at which a command names its server: behind `--server`, and behind a leading `deploy`.
abbrev pub names_server : List String → ℕ → Bool
names_server args zero = false
names_server args (suc zero) = says args zero "deploy" || says args zero "--server"
names_server args (suc (suc i)) = says args (suc i) "--server"

-- One argument after a rename of the server.
abbrev pub renamed_to : String → String → Bool → Option String → Option String
renamed_to from to here none = none
renamed_to from to here (some a) = if here && a == from then some to else some a

-- The command `after` is `before` with the new name of the server wherever `before` names it by the
-- old one.
pub record Renamed (from to : String) (before after : Command) : Type 0 where
  pub timeout : after.timeout ≡ before.timeout
  pub secrets : after.secrets ≡ before.secrets
  pub stdin : after.stdin ≡ before.stdin
  pub args :
      (i : ℕ)
      → get_elem? after.args i
        ≡ renamed_to from to (names_server before.args i) (get_elem? before.args i)

-- How the machine that runs a command is the admitted one: the name still resolves to it, or the
-- name is gone and the admitted id finds it under another name.
pub data Bound (a : Server) (name : String) (cmd : Command) (found : Result Server)
    (by_id : Option (String → Option Server)) (run : Command) : Type 0 where
  same_name :
      (now : Server)
      → found ≡ ok now
      → same_host now a ≡ true
      → (a.id == "") || (now.id == a.id) ≡ true
      → run ≡ cmd
      → Bound a name cmd found by_id run
  new_name :
      (f : String → Option Server) (now : Server)
      → by_id ≡ some f
      → f a.id ≡ some now
      → a.id == "" ≡ false
      → same_host now a ≡ true
      → Renamed name now.name cmd run
      → Bound a name cmd found by_id run

module _ (from to : String) (old : (from == "--server") ≡ false)
    (new : (to == "--server") ≡ false) where
  -- A replaced argument is no `--server`, and replaced none.
  kept_flag :
      (a : String) (here : Bool)
      → ((if a == from && here then to else a) == "--server") ≡ (a == "--server")
  kept_flag a here = elim (Bool-cases (a == from)) [
    | inl y ↦
        let same = (string_eq.beq_iff a from).0 y in
        let flag : (a == "--server") ≡ false = ap (λ x. x == "--server") same ∙ old in
        rw (y, flag) (if_elim (λ x. (x == "--server") ≡ false) here to a new flag)
    | inr y ↦ rw y refl
  ]

  -- Whether the position behind `prev` names the server.
  place : Bool → String → List String → ℕ → Bool
  place first prev args zero = (first && prev == "deploy") || prev == "--server"
  place first prev args (suc i) = says args i "--server"

  get_elem?-retarget_rest :
      (first : Bool) (prev : String) (args : List String) (i : ℕ)
      → get_elem? (retarget_rest from to first prev args) i
        ≡ renamed_to from to (place first prev args i) (get_elem? args i)
  unfolding retarget_rest place
  get_elem?-retarget_rest first prev [] i = refl
  get_elem?-retarget_rest first prev (a ∷ rest) zero = ground arith
  get_elem?-retarget_rest first prev (a ∷ rest) (suc zero) =
      let here = (first && prev == "deploy") || prev == "--server" in
      get_elem?-retarget_rest false (if a == from && here then to else a) rest zero
      ∙ ap (λ b. renamed_to from to b (get_elem? rest zero)) (kept_flag a here)
  get_elem?-retarget_rest first prev (a ∷ rest) (suc (suc i)) =
      get_elem?-retarget_rest false _ rest (suc i)

  get_elem?-retarget_args :
      (args : List String) (i : ℕ)
      → get_elem? (retarget_args from to args) i
        ≡ renamed_to from to (names_server args i) (get_elem? args i)
  unfolding retarget_args place
  get_elem?-retarget_args [] i = refl
  get_elem?-retarget_args (a ∷ rest) zero = refl
  get_elem?-retarget_args (a ∷ rest) (suc zero) = get_elem?-retarget_rest true a rest zero
  get_elem?-retarget_args (a ∷ rest) (suc (suc i)) = get_elem?-retarget_rest true a rest (suc i)

  retarget_command-Renamed :
      (cmd : Command) → (from == "") ≡ false → Renamed from to cmd (retarget_command cmd from to)
  unfolding retarget_command
  retarget_command-Renamed cmd n = elim (Bool-cases (from == to)) [
    | inl y ↦
        rw (n, y)
          (record {
            timeout = refl;
            secrets = refl;
            stdin = refl;
            args = λ i.
                unmoved ((string_eq.beq_iff from to).0 y) (names_server cmd.args i)
                  (get_elem? cmd.args i);
          })
    | inr y ↦
        rw (n, y)
          (record {
            timeout = refl;
            secrets = refl;
            stdin = refl;
            args = get_elem?-retarget_args cmd.args;
          })
  ]
    where
      unmoved : from ≡ to → (here : Bool) (x : Option String) → x ≡ renamed_to from to here x
      unmoved e here none = refl
      unmoved e here (some a) = ground (arith, e, string_eq.beq_iff a from)

-- The three tests on a name that still resolves, in their order.
gate :
    (P : Checked → Type 0) (no_id gone same host : Bool) {r1 r2 r3 r4 : Checked}
    → P r1
    → P r2
    → P r3
    → (host ≡ true → no_id || same ≡ true → P r4)
    → P (
        if not no_id && gone
        then r1
        else if not no_id && not same
        then r2
        else if not host
        then r3
        else r4)
gate P true gone same true a b c d = d refl refl
gate P true gone same false a b c d = c
gate P false true same host a b c d = a
gate P false false false host a b c d = b
gate P false false true true a b c d = d refl refl
gate P false false true false a b c d = c

module _ (c : Setup) where
  abbrev Passes :
      Server → String → Command → Result Server → Option (String → Option Server) → Checked → Type 0
  Passes a name cmd found by_id r = r.mismatch ≡ "" → Bound a name cmd found by_id r.command

  said : (rest : List String) (P : Type 0) → join ("server " ∷ rest) ≡ "" → P
  said rest P h = let e = sym (message-has_text rest) ∙ ap has_text h in cc

  -- No server that an id leads to is called like the flag.
  abbrev Named : Server → Option (String → Option Server) → Type 0
  Named a b =
      (f : String → Option Server) (now : Server)
      → b ≡ some f
      → f a.id ≡ some now
      → (now.name == "--server") ≡ false

  module _ (a : Server) (name : String) (cmd : Command) (present : (name == "") ≡ false)
      (plain : (name == "--server") ≡ false) where
    renamed-Bound :
        (e : Error) (f : String → Option Server) (x : Option Server)
        → Named a (some f)
        → f a.id ≡ x
        → a.id == "" ≡ false
        → Passes a name cmd (err e) (some f) (renamed c name a cmd e x)
    unfolding renamed
    renamed-Bound e f none named g n = said _ _
    renamed-Bound e f (some srv) named g n = elim (Bool-cases (same_host srv a)) [
      | inl y ↦ rw y (λ h.
          new_name f srv refl g n y
            (retarget_command-Renamed name srv.name plain (named f srv refl g) cmd present))
      | inr y ↦ rw y (said _ _)
    ]

    unresolved-Bound :
        (e : Error) (b : Option (String → Option Server))
        → Named a b
        → Passes a name cmd (err e) b (unresolved c name a cmd e b)
    unfolding unresolved
    unresolved-Bound e none named = said _ _
    unresolved-Bound e (some f) named = elim (Bool-cases (a.id == "")) [
      | inl y ↦ rw y (said _ _)
      | inr y ↦ rw y (renamed-Bound e f (f a.id) named refl y)
    ]

    repointed-Bound :
        (now : Server) (b : Option (String → Option Server))
        → Passes a name cmd (ok now) b (repointed c name a cmd now)
    unfolding repointed
    repointed-Bound now b =
        gate (Passes a name cmd (ok now) b) (a.id == "") (now.id == "") (now.id == a.id)
          (same_host now a) (said _ _) (said _ _) (said _ _) (λ y x h. same_name now refl y x refl)

    resolved-Bound :
        (found : Result Server)
        → Named a c.resolver_by_id
        → Passes a name cmd found c.resolver_by_id (resolved c name a cmd found)
    unfolding resolved
    resolved-Bound (err e) named = unresolved-Bound e c.resolver_by_id named
    resolved-Bound (ok now) named = repointed-Bound now c.resolver_by_id

  -- If the check of an operation with an admitted server passes, and a resolver is set, then either
  -- the requested name resolves to a server with the admitted host, user and (if one was admitted)
  -- id, and the command is unchanged; or the name does not resolve, the admitted id finds a server with
  -- that host and user, and in the command that runs each argument that is the old name and follows
  -- `--server`, or follows a leading `deploy`, is the new name, and all else is unchanged. A name is
  -- assumed not to be empty and not to be `--server`.
  pub check_target-Bound :
      (op : Operation) (cmd : Command) (a : Server) (resolve : String → Result Server)
      → op.admitted_server ≡ some a
      → c.resolver ≡ some resolve
      → (op.request.server == "") ≡ false
      → (op.request.server == "--server") ≡ false
      → ((f : String → Option Server) (now : Server)
          → c.resolver_by_id ≡ some f
          → f a.id ≡ some now
          → (now.name == "--server") ≡ false)
      → (check_target c op cmd).mismatch ≡ ""
      → Bound a op.request.server cmd
          (resolve op.request.server)
          c.resolver_by_id
          (check_target c op cmd).command
  unfolding check_target check_admitted
  check_target-Bound op cmd a resolve e r present plain named =
      rw (e, r)
        (resolved-Bound a op.request.server cmd present plain (resolve op.request.server) named)
