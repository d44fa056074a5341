-- ===== src/Outbox/Backoff.antt =====
-- The backoff in closed form.
use native.Mathlib.Nat.{mul-one, pow-succ', mul_assoc, one-le-pow, le-mul_of_pos_right}
use teploy_dash.Common.{
  ℕ, zero, suc, ◌-◌, ◌*◌, ◌^◌, ◌≤◌, ◌≡◌, ap, sym, ◌∙◌, arith, ltb, if◌then◌else◌, pos_part,
  Bool-cases, inl, inr,
}
use teploy_dash.Outbox.{Options, doubled, backoff}

abbrev pub capped : ℕ → ℕ → ℕ
capped d limit = if ltb limit d then limit else d

capped-above : (d limit : ℕ) → limit ≤ d → capped d limit ≡ limit
capped-above d limit h = ground arith

doubled-capped : (k d limit : ℕ) → capped (doubled k d limit) limit ≡ capped (d * 2 ^ k) limit
unfolding doubled
doubled-capped zero d limit = ap (λ x. capped x limit) (sym (mul-one d))
doubled-capped (suc k) d limit = elim (Bool-cases (ltb d limit)) [
  | inl y ↦ rw y (
      doubled-capped k (d * 2) limit
      ∙ ap (λ x. capped x limit) (mul_assoc d 2 (2 ^ k) ∙ ap (λ x. d * x) (sym (pow-succ' 2 k))))
  | inr y ↦
      let big : d ≤ d * 2 ^ (suc k) = le-mul_of_pos_right d (one-le-pow (suc k) 2 (omega arith)) in
      rw y (
        capped-above d limit (ground (arith, y))
        ∙ sym (capped-above (d * 2 ^ (suc k)) limit (ground (arith, y, big))))
]

-- The wait after the n-th failed attempt is the base doubled n - 1 times, but no longer than the
-- limit.
pub backoff-capped :
    (o : Options) (attempts : ℕ)
    → backoff o attempts
      ≡ capped (pos_part o.backoff_base * 2 ^ (attempts - 1)) (pos_part o.backoff_max)
unfolding backoff
backoff-capped o attempts =
    doubled-capped (attempts - 1) (pos_part o.backoff_base) (pos_part o.backoff_max)
