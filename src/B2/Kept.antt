-- ===== src/B2/Kept.antt =====
-- What a merge leaves alone.
use mathlib.Core.Path.{subst}
use teploy_dash.Operation.Build.{sort_strings}
use teploy_dash.Common.{
  String, Bool, true, false, ◌||◌, Option, none, some, List, [], ◌∷◌, ◌++◌, map, ◌≡◌, refl, sym,
  ◌∙◌, arith, if◌then◌else◌, ℤ, ◌==◌, string_eq, Bool-cases, inl, inr,
}
use teploy_dash.B2.{
  Rule, replaced, put, put_windows, put_incoming, with_window, with_incoming, window_rule,
  incoming_rule, merge, window_prefixes, incoming_prefix,
}

unfoldable pub names : List String → String → Bool
names [] p = false
names (q ∷ qs) p = if q == p then true else names qs p

-- `out` has the rules of `rules` in their places, then perhaps others; a rule whose prefix is not
-- in `owned` is the same, with the bytes it was read from.
pub data Keeps (owned : List String) : List Rule → List Rule → Type 0 where
  rest : (more : List Rule) → Keeps owned [] more
  kept :
      (r q : Rule) (rs qs : List Rule)
      → q.prefix ≡ r.prefix
      → (names owned r.prefix ≡ false → q ≡ r)
      → Keeps owned rs qs
      → Keeps owned (r ∷ rs) (q ∷ qs)

prefix-with_window :
    (days : ℤ) (explicit : Bool) (r r' : Rule)
    → with_window days explicit r ≡ some r'
    → r'.prefix ≡ r.prefix
unfolding with_window
prefix-with_window days explicit r r' h = ground arith

prefix-with_incoming : (r r' : Rule) → with_incoming r ≡ some r' → r'.prefix ≡ r.prefix
unfolding with_incoming
prefix-with_incoming r r' h = ground arith

module _ (owned : List String) where
  Keeps-refl : (rules : List Rule) → Keeps owned rules rules
  Keeps-refl [] = rest []
  Keeps-refl (r ∷ rs) = kept r r rs rs refl (λ n. refl) (Keeps-refl rs)

  Keeps-trans : {a b c : List Rule} → Keeps owned a b → Keeps owned b c → Keeps owned a c
  Keeps-trans {c = c} (rest more) k = rest c
  Keeps-trans (kept r q rs qs e f h) (kept _ s _ ss e' f' h') =
      kept r s rs ss (e' ∙ e) (λ n. f' (rw e n) ∙ f n) (Keeps-trans h h')

  replaced-Keeps :
      (r : Rule) (rs : List Rule) (x : Option Rule)
      → ((r' : Rule) → x ≡ some r' → r'.prefix ≡ r.prefix)
      → names owned r.prefix ≡ true
      → Keeps owned (r ∷ rs) (replaced r rs x).0
  unfolding replaced
  replaced-Keeps r rs none h n = Keeps-refl (r ∷ rs)
  replaced-Keeps r rs (some r') h n =
      kept r r' rs rs (h r' refl) (λ k. let e = sym n ∙ k in cc) (Keeps-refl rs)

  put-Keeps :
      (f : Rule → Option Rule) (fresh : Rule) (rules : List Rule)
      → ((r r' : Rule) → f r ≡ some r' → r'.prefix ≡ r.prefix)
      → names owned fresh.prefix ≡ true
      → Keeps owned rules (put f fresh rules).0
  unfolding put
  put-Keeps f fresh [] h n = rest (fresh ∷ [])
  put-Keeps f fresh (r ∷ rs) h n = elim (Bool-cases (r.prefix == fresh.prefix)) [
    | inl y ↦
        rw y
          (replaced-Keeps r rs (f r) (h r) (rw ((string_eq.beq_iff r.prefix fresh.prefix).0 y) n))
    | inr y ↦ rw y (kept r r rs (put f fresh rs).0 refl (λ k. refl) (put-Keeps f fresh rs h n))
  ]

  put_windows-Keeps :
      (days : ℤ) (explicit : Bool) (ps : List String) (rules : List Rule) (b : Bool)
      → ((p : String) → names ps p ≡ true → names owned p ≡ true)
      → Keeps owned rules (put_windows days explicit ps (rules, b)).0
  unfolding put_windows names window_rule
  put_windows-Keeps days explicit [] rules b h = Keeps-refl rules
  put_windows-Keeps days explicit (p ∷ ps) rules b h =
      let r = put (with_window days explicit) (window_rule days p) rules in
      Keeps-trans
        (put-Keeps (with_window days explicit) (window_rule days p) rules
          (prefix-with_window days explicit) (h p (ground (arith, string_eq.beq_iff p p))))
        (put_windows-Keeps days explicit ps r.0 (b || r.1) (λ q k. h q (ground (arith, k))))

  put_incoming-Keeps :
      (ps : List String) (rules : List Rule) (b : Bool)
      → ((p : String) → names ps p ≡ true → names owned p ≡ true)
      → Keeps owned rules (put_incoming ps (rules, b)).0
  unfolding put_incoming names incoming_rule
  put_incoming-Keeps [] rules b h = Keeps-refl rules
  put_incoming-Keeps (p ∷ ps) rules b h =
      let r = put with_incoming (incoming_rule p) rules in
      Keeps-trans
        (put-Keeps with_incoming (incoming_rule p) rules prefix-with_incoming
          (h p (ground (arith, string_eq.beq_iff p p))))
        (put_incoming-Keeps ps r.0 (b || r.1) (λ q k. h q (ground (arith, k))))

names-append :
    (p : String) (xs ys : List String)
    → (names xs p ≡ true → names (xs ++ ys) p ≡ true)
      × (names ys p ≡ true → names (xs ++ ys) p ≡ true)
unfolding names
names-append p [] ys = (λ h. cc, λ h. h)
names-append p (x ∷ xs) ys =
    (λ h. ground (arith, (names-append p xs ys).0), λ h. ground (arith, (names-append p xs ys).1 h))

-- The prefixes of the rules that a merge is allowed to write.
unfoldable pub owned_prefixes : String → List String → List String
owned_prefixes base servers =
    window_prefixes base (sort_strings servers) ++ map incoming_prefix (sort_strings servers)

-- A merge that is not refused leaves every rule in its place with its prefix, and a rule is left as
-- it was, with the bytes it was read from, if its prefix is neither a window prefix nor a server's
-- pending-upload prefix.
pub merge-Keeps :
    (existing : List Rule) (base : String) (servers : List String) (days : ℤ) (explicit : Bool)
    (out : List Rule) (changed : Bool)
    → merge existing base servers days explicit ≡ some (out, changed)
    → Keeps (owned_prefixes base servers) existing out
unfolding merge owned_prefixes
merge-Keeps existing base servers days explicit out changed h =
    let sorted = sort_strings servers in
    let owned = owned_prefixes base servers in
    let r = put_windows days explicit (window_prefixes base sorted) (existing, false) in
    let all = put_incoming (map incoming_prefix sorted) r in
    let e : all ≡ (out, changed) = ground arith in
    subst (λ (x : List Rule × Bool). Keeps owned existing x.0) e
      (Keeps-trans owned
        (put_windows-Keeps owned days explicit (window_prefixes base sorted) existing false
          (λ p. (names-append p _ _).0))
        (put_incoming-Keeps owned (map incoming_prefix sorted) r.0 r.1
          (λ p. (names-append p (window_prefixes base sorted) _).1)))
