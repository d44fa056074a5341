-- ===== src/Access/Sessions/Lockout.antt =====
-- An address that keeps failing is locked out.
use teploy_dash.Common.{
  ℕ, suc, ◌+◌, ◌<◌, ◌≤◌, String, true, some, List, [], ◌∷◌, ◌≡◌, refl, ap, ◌∙◌, arith, length, ltb,
  ◌==◌, string_eq, lookup, lookup-insert_self, Bool-cases, inl, inr,
}
use teploy_dash.Access.Sessions.{FailInfo, failures, locked_out, locked_info, record_fail, pruned}

abbrev pub window : ℕ
window = 60000000000

-- Failed sign-ins of one address, one after another.
unfoldable pub fails_at : String → List ℕ → List (String × FailInfo) → List (String × FailInfo)
fails_at ip [] fails = fails
fails_at ip (t ∷ ts) fails = fails_at ip ts (record_fail ip t fails)

abbrev pub last_of : ℕ → List ℕ → ℕ
last_of t [] = t
last_of t (u ∷ us) = last_of u us

-- No failure comes later than a window after the one before it.
abbrev pub Paced : ℕ → List ℕ → Type 0
Paced t [] = Unit
Paced t (u ∷ us) = (u ≤ t + window) × Paced u us

lookup-pruned :
    (ip : String) (now : ℕ) (fails : List (String × FailInfo))
    → lookup ip (pruned ip now fails) ≡ lookup ip fails
unfolding pruned lookup
lookup-pruned ip now [] = refl
lookup-pruned ip now ((k, i) ∷ rest) = elim (Bool-cases (k == ip)) [
  | inl y ↦ rw y (rw y refl)
  | inr y ↦ elim (Bool-cases (ltb i.until now)) [
    | inl z ↦ rw (y, z) (lookup-pruned ip now rest)
    | inr z ↦ rw (y, z) (rw y (lookup-pruned ip now rest))
  ]
]

lookup-record_fail :
    (ip : String) (t : ℕ) (fails : List (String × FailInfo))
    → lookup ip (record_fail ip t fails)
      ≡ some (record { count = failures t (lookup ip fails) + 1; until = t + window })
unfolding record_fail
lookup-record_fail ip t fails =
    lookup-insert_self ip _ (pruned ip t fails)
    ∙ ap (λ x. some (record { count = failures t x + 1; until = t + window }))
        (lookup-pruned ip t fails)

lookup-fails_at :
    (ip : String) (c t : ℕ) (ts : List ℕ) (fails : List (String × FailInfo))
    → Paced t ts
    → lookup ip fails ≡ some (record { count = c; until = t + window })
    → lookup ip (fails_at ip ts fails)
      ≡ some (record { count = c + length ts; until = last_of t ts + window })
unfolding fails_at
lookup-fails_at ip c t [] fails p l =
    l ∙ ap (λ n. some (record { count = n; until = t + window })) (omega arith)
lookup-fails_at ip c t (u ∷ us) fails p l =
    let counted : failures u (lookup ip fails) ≡ c = ap (failures u) l ∙ ground (arith, p.0) in
    let step : lookup ip (record_fail ip u fails)
        ≡ some (record { count = c + 1; until = u + window }) =
      lookup-record_fail ip u fails
      ∙ ap (λ n. some (record { count = n + 1; until = u + window })) counted in
    let sum : c + 1 + length us ≡ c + suc (length us) = omega arith in
    lookup-fails_at ip (c + 1) u us (record_fail ip u fails) p.1 step
    ∙ ap (λ n. some (record { count = n; until = last_of u us + window })) sum

-- After five failed sign-ins from one address, none more than a minute after the one before it, the
-- address is locked out for a minute from the last one, whatever was recorded before.
pub fails_at_locked :
    (ip : String) (t : ℕ) (ts : List ℕ) (fails : List (String × FailInfo)) (now : ℕ)
    → Paced t ts
    → 5 ≤ length (t ∷ ts)
    → now < last_of t ts + window
    → locked_out ip now (fails_at ip (t ∷ ts) fails) ≡ true
unfolding locked_out locked_info fails_at
fails_at_locked ip t ts fails now p enough h =
    let c = failures t (lookup ip fails) + 1 in
    let end =
      lookup-fails_at ip c t ts (record_fail ip t fails) p (lookup-record_fail ip t fails) in
    ap (locked_info now) end ∙ ground (arith, enough, h)
