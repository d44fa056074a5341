-- ===== src/Operation/Build/Rules.antt =====
-- The grammars of internal/operation/build.go, by recursion on the code points of a text.
use text.Mathlib.Text.{starts_with}
use teploy_dash.Common.{
  ℕ, zero, suc, String, Bool, true, false, not, ◌&&◌, ◌||◌, List, [], ◌∷◌, leb, eqb, ◌==◌,
  string_eq, codes,
}

abbrev pub is_digit : ℕ → Bool
is_digit c = leb b'0' c && leb c b'9'

abbrev pub is_letter : ℕ → Bool
is_letter c = (leb b'a' c && leb c b'z') || (leb b'A' c && leb c b'Z')

abbrev pub is_hex : ℕ → Bool
is_hex c = is_digit c || (leb b'a' c && leb c b'f')

-- `[A-Za-z0-9._-]`
abbrev pub is_identifier_char : ℕ → Bool
is_identifier_char c = is_letter c || is_digit c || eqb c b'.' || eqb c b'_' || eqb c b'-'

unfoldable pub every : (ℕ → Bool) → List ℕ → Bool
every p [] = true
every p (c ∷ cs) = p c && every p cs

-- `^[class]+$`
unfoldable pub one_or_more : (ℕ → Bool) → List ℕ → Bool
unfolding every
one_or_more p [] = false
one_or_more p (c ∷ cs) = p c && every p cs

unfoldable pub valid_identifier : String → Bool
unfolding one_or_more
valid_identifier value =
    not (value == ".")
    && not (value == "..")
    && not (starts_with value "-")
    && one_or_more is_identifier_char (codes value)

-- `^[A-Za-z_][A-Za-z0-9_]*$`
var_name_codes : List ℕ → Bool
unfolding every
var_name_codes [] = false
var_name_codes (c ∷ cs) =
    (is_letter c || eqb c b'_') && every (λ d. is_letter d || is_digit d || eqb d b'_') cs

unfoldable pub valid_var_name : String → Bool
unfolding var_name_codes
valid_var_name name = var_name_codes (codes name)

-- `{1,n}` of a class at the end of the text, or nothing left.
up_to : ℕ → List ℕ → Bool
up_to n [] = true
up_to zero (c ∷ cs) = false
up_to (suc n) (c ∷ cs) = is_hex c && up_to n cs

-- `(-[0-9a-f]{1,16})?$`
backup_suffix : List ℕ → Bool
unfolding up_to
backup_suffix [] = true
backup_suffix (c ∷ []) = false
backup_suffix (c ∷ d ∷ cs) = eqb c b'-' && is_hex d && up_to 15 cs

-- `[0-9]{n}` and what follows.
digits_then : ℕ → (List ℕ → Bool) → List ℕ → Bool
digits_then zero rest cs = rest cs
digits_then (suc n) rest [] = false
digits_then (suc n) rest (c ∷ cs) = is_digit c && digits_then n rest cs

dash_then : (List ℕ → Bool) → List ℕ → Bool
dash_then rest [] = false
dash_then rest (c ∷ cs) = eqb c b'-' && rest cs

-- `^[0-9]{8}-[0-9]{6}(-[0-9a-f]{1,16})?$`
unfoldable pub valid_backup_id : String → Bool
unfolding digits_then dash_then backup_suffix
valid_backup_id id = digits_then 8 (dash_then (digits_then 6 backup_suffix)) (codes id)
