-- ===== src/B2/Changed.antt =====
-- What the report of a merge means.
use teploy_dash.Operation.Build.{sort_strings}
use teploy_dash.Common.{
  ◌≤◌, String, Bool, true, false, ◌||◌, Option, none, some, List, [], ◌∷◌, length, map, ◌≡◌, refl,
  ap, sym, ◌∙◌, arith, ℤ, ◌==◌, string_eq, Bool-cases, inl, inr,
}
use teploy_dash.B2.{
  Rule, max_rules, replaced, put, put_windows, put_incoming, with_window, with_incoming,
  window_rule, incoming_rule, merge, window_prefixes, incoming_prefix,
}

replaced-same :
    (r : Rule) (rs : List Rule) (x : Option Rule)
    → (replaced r rs x).1 ≡ false
    → (replaced r rs x).0 ≡ r ∷ rs
unfolding replaced
replaced-same r rs none h = refl
replaced-same r rs (some y) h = cc

put-same :
    (f : Rule → Option Rule) (fresh : Rule) (rules : List Rule)
    → (put f fresh rules).1 ≡ false
    → (put f fresh rules).0 ≡ rules
unfolding put
put-same f fresh [] = λ h. cc
put-same f fresh (r ∷ rs) = elim (Bool-cases (r.prefix == fresh.prefix)) [
  | inl y ↦ rw y (replaced-same r rs (f r))
  | inr y ↦ rw y (λ h. ap (λ (x : List Rule). r ∷ x) (put-same f fresh rs h))
]

put_windows-same :
    (days : ℤ) (explicit : Bool) (ps : List String) (rules : List Rule) (b : Bool)
    → (put_windows days explicit ps (rules, b)).1 ≡ false
    → (b ≡ false) × ((put_windows days explicit ps (rules, b)).0 ≡ rules)
unfolding put_windows
put_windows-same days explicit [] rules b h = (h, refl)
put_windows-same days explicit (p ∷ ps) rules b h =
    let r = put (with_window days explicit) (window_rule days p) rules in
    let (c, e) = put_windows-same days explicit ps r.0 (b || r.1) h in
    (
      ground (arith, c),
      e ∙ put-same (with_window days explicit) (window_rule days p) rules (ground (arith, c)),
    )

put_incoming-same :
    (ps : List String) (rules : List Rule) (b : Bool)
    → (put_incoming ps (rules, b)).1 ≡ false
    → (b ≡ false) × ((put_incoming ps (rules, b)).0 ≡ rules)
unfolding put_incoming
put_incoming-same [] rules b h = (h, refl)
put_incoming-same (p ∷ ps) rules b h =
    let r = put with_incoming (incoming_rule p) rules in
    let (c, e) = put_incoming-same ps r.0 (b || r.1) h in
    (ground (arith, c), e ∙ put-same with_incoming (incoming_rule p) rules (ground (arith, c)))

-- A merge that is not refused and reports no change returns the bucket's rules as they were; one
-- that reports a change returns no more rules than Backblaze allows.
pub merge-changed :
    (existing : List Rule) (base : String) (servers : List String) (days : ℤ) (explicit : Bool)
    (out : List Rule) (changed : Bool)
    → merge existing base servers days explicit ≡ some (out, changed)
    → (changed ≡ false → out ≡ existing) × (changed ≡ true → length out ≤ max_rules)
unfolding merge
merge-changed existing base servers days explicit out changed h =
    let sorted = sort_strings servers in
    let r = put_windows days explicit (window_prefixes base sorted) (existing, false) in
    let all = put_incoming (map incoming_prefix sorted) r in
    let e : all ≡ (out, changed) = ground arith in
    (
      λ c.
          let (d, f) =
            put_incoming-same (map incoming_prefix sorted) r.0 r.1
              (ap (λ (x : List Rule × Bool). x.1) e ∙ c) in
          let (g, k) =
            put_windows-same days explicit (window_prefixes base sorted) existing false d in
          sym (ap (λ (x : List Rule × Bool). x.0) e) ∙ f ∙ k,
      λ c. ground (arith, c),
    )
