-- ===== src/B2.antt =====
-- internal/b2/rules.go: the lifecycle rules of a bucket. The bytes that a rule was read from are
-- `raw`, empty where it is to be written anew; reading and writing JSON is left out.
pub mod Kept
pub mod Changed
use teploy_dash.Operation.Build.{sort_strings}
use teploy_dash.Common.{
  ℕ, String, Bool, true, false, not, ◌&&◌, ◌||◌, Option, none, some, List, [], ◌∷◌, ltb, length,
  map, if◌then◌else◌, ℤ, pos, negsuc, is_positive, ◌==◌, string_eq, eqb, join,
}

pub record Rule : Type 0 where
  pub prefix : String
  pub hide_to_delete : Option ℤ
  pub upload_to_hide : Option ℤ
  pub cancel_unfinished_large : Option ℤ
  pub foreign : Bool
  pub raw : String

abbrev pub max_rules : ℕ
max_rules = 100

-- set
unfoldable pub is_set : Option ℤ → Bool
is_set none = false
is_set (some n) = is_positive n

same_int : ℤ → ℤ → Bool
same_int (pos m) (pos n) = eqb m n
same_int (negsuc m) (negsuc n) = eqb m n
same_int _ _ = false

-- `v != nil && *v == n`
is_int : ℤ → Option ℤ → Bool
unfolding same_int
is_int n none = false
is_int n (some m) = same_int m n

-- BasePrefix
unfoldable pub base_prefix : String → String
base_prefix base = if base == "" then "" else join (base ∷ "/" ∷ [])

-- IncomingPrefix
unfoldable pub incoming_prefix : String → String
incoming_prefix server = join (server ∷ "/.incoming/" ∷ [])

-- The prefixes that get a rule with the recovery window.
unfoldable pub window_prefixes : String → List String → List String
unfolding base_prefix
window_prefixes base sorted =
    if base == ""
    then map (λ (server : String). join (server ∷ "/" ∷ [])) sorted
    else base_prefix base ∷ []

replaced : Rule → List Rule → Option Rule → List Rule × Bool
replaced r rest none = (r ∷ rest, false)
replaced r rest (some r') = (r' ∷ rest, true)

-- The first rule with the prefix is changed by `f`, where this has an answer; if there is no such
-- rule then `fresh` is appended. The Boolean says whether anything was changed.
put : (Rule → Option Rule) → Rule → List Rule → List Rule × Bool
unfolding replaced
put f fresh [] = (fresh ∷ [], true)
put f fresh (r ∷ rest) =
    let (rest', b) = put f fresh rest in
    if r.prefix == fresh.prefix then replaced r rest (f r) else (r ∷ rest', b)

-- The update of a rule for the window.
with_window : ℤ → Bool → Rule → Option Rule
unfolding is_int
with_window days explicit r =
    let hide = not (is_set r.hide_to_delete) || (explicit && not (is_int days r.hide_to_delete)) in
    let cancel = not (is_set r.cancel_unfinished_large) in
    if hide || cancel
    then some (record r {
      hide_to_delete = if hide then some days else r.hide_to_delete;
      cancel_unfinished_large = if cancel then some (pos 7) else r.cancel_unfinished_large;
      raw = "";
    })
    else none

with_incoming : Rule → Option Rule
unfolding is_int
with_incoming r =
    if is_int (pos 1) r.upload_to_hide && is_int (pos 1) r.hide_to_delete
    then none
    else some (record r { upload_to_hide = some (pos 1); hide_to_delete = some (pos 1); raw = "" })

window_rule : ℤ → String → Rule
window_rule days prefix = record {
  prefix = prefix;
  hide_to_delete = some days;
  upload_to_hide = none;
  cancel_unfinished_large = some (pos 7);
  foreign = false;
  raw = "";
}

incoming_rule : String → Rule
incoming_rule prefix = record {
  prefix = prefix;
  hide_to_delete = some (pos 1);
  upload_to_hide = some (pos 1);
  cancel_unfinished_large = none;
  foreign = false;
  raw = "";
}

put_windows : ℤ → Bool → List String → List Rule × Bool → List Rule × Bool
unfolding put with_window window_rule
put_windows days explicit [] done = done
put_windows days explicit (p ∷ ps) (rules, changed) =
    let (rules', b) = put (with_window days explicit) (window_rule days p) rules in
    put_windows days explicit ps (rules', changed || b)

put_incoming : List String → List Rule × Bool → List Rule × Bool
unfolding put with_incoming incoming_rule
put_incoming [] done = done
put_incoming (p ∷ ps) (rules, changed) =
    let (rules', b) = put with_incoming (incoming_rule p) rules in
    put_incoming ps (rules', changed || b)

-- Merge; `none` is the refusal of a list that Backblaze would not take.
unfoldable pub merge : List Rule → String → List String → ℤ → Bool → Option (List Rule × Bool)
unfolding put_windows put_incoming
merge existing base servers days explicit =
    let sorted = sort_strings servers in
    let (out, changed) =
      put_incoming (map incoming_prefix sorted)
        (put_windows days explicit (window_prefixes base sorted) (existing, false)) in
    if changed && ltb max_rules (length out) then none else some (out, changed)

has_prefix : List String → Rule → Bool
has_prefix [] r = false
has_prefix (p ∷ ps) r = has_prefix ps r || r.prefix == p

-- WithoutPrefixes
unfoldable pub without_prefixes : List Rule → List String → List Rule × Bool
unfolding has_prefix
without_prefixes [] prefixes = ([], false)
without_prefixes (r ∷ rest) prefixes =
    let (out, removed) = without_prefixes rest prefixes in
    if has_prefix prefixes r then (out, true) else (r ∷ out, removed)
