-- ===== src/Operation/Journal/Retained.antt =====
-- What a rewrite of an event journal keeps.
use teploy_dash.Common.{
  ℕ, zero, suc, ◌-◌, ◌≤◌, ◌<◌, List, [], ◌∷◌, ◌≡◌, refl, ap, ◌∙◌, ◌⊎◌, inl, inr, arith, length,
  drop, length-drop, ℤ, pos_part, ltb, leb, Bool-cases,
}
use teploy_dash.Operation.Types.{Event}
use teploy_dash.Operation.Journal.{total_size, trim, retained_suffix, window}

drop-drop : (m n : ℕ) (xs : List Event) → (k : ℕ) × (drop n (drop m xs) ≡ drop k xs)
drop-drop zero n xs = (n, refl)
drop-drop (suc m) n [] = (n, refl)
drop-drop (suc m) n (x ∷ xs) = let (k, e) = drop-drop m n xs in (suc k, e)

-- `kept` is the newest of `events`, no more than `budget` bytes unless it is one event, and no suffix within the budget is longer.
pub record Trimmed (size : Event → ℕ) (events : List Event) (budget : ℕ) (kept : List Event)
    : Type 0 where
  pub newest : (n : ℕ) × (kept ≡ drop n events)
  pub fits : (total_size size kept ≤ budget) ⊎ (length kept ≤ 1)
  pub longest :
      (k : ℕ) → total_size size (drop k events) ≤ budget → length (drop k events) ≤ length kept
  pub one : 1 ≤ length events → 1 ≤ length kept

module _ (size : Event → ℕ) where
  longest-suc :
      (e : Event) (es : List Event) (budget n : ℕ)
      → budget < total_size size (e ∷ es)
      → ((k : ℕ) → total_size size (drop k es) ≤ budget → length (drop k es) ≤ n)
      → (k : ℕ) → total_size size (drop k (e ∷ es)) ≤ budget
      → length (drop k (e ∷ es)) ≤ n
  longest-suc e es budget n h f zero g = omega (arith, h, g)
  longest-suc e es budget n h f (suc k) g = f k g

  trim-Trimmed :
      (events : List Event) (total budget : ℕ)
      → total ≡ total_size size events
      → Trimmed size events budget (trim size events total budget)
  unfolding trim total_size
  trim-Trimmed [] total budget h = record {
    newest = (0, refl);
    fits = inr (omega arith);
    longest = λ k f. omega (arith, length-drop {A = Event} k []);
    one = λ l. l;
  }
  trim-Trimmed (e ∷ []) total budget h = record {
    newest = (0, refl);
    fits = inr (omega arith);
    longest = λ k f. omega (arith, length-drop k (e ∷ []));
    one = λ l. l;
  }
  trim-Trimmed (e ∷ f ∷ es) total budget h =
      let r = trim-Trimmed (f ∷ es) (total - size e) budget (omega (arith, h)) in
      elim (Bool-cases (ltb budget total)) [
        | inl y ↦ rw y (record {
          newest = (suc r.newest.0, r.newest.1);
          fits = r.fits;
          longest = longest-suc e (f ∷ es) budget _ (ground (arith, y, h)) r.longest;
          one = λ l. r.one (omega arith);
        })
        | inr y ↦ rw y (record {
          newest = (0, refl);
          fits = inl (ground (arith, y, h));
          longest = λ k _. omega (arith, length-drop k (e ∷ f ∷ es));
          one = λ l. l;
        })
      ]

  window-length :
      (n : ℕ) (events : List Event)
      → ((k : ℕ) × (window n events ≡ drop k events))
        × (length (window n events) ≤ n)
        × (1 ≤ n → 1 ≤ length events → 1 ≤ length (window n events))
  unfolding window
  window-length n events = elim (Bool-cases (ltb n (length events))) [
    | inl y ↦ rw y (
      (length events - n, refl),
      ground (arith, y, length-drop (length events - n) events),
      λ a b. ground (arith, y, length-drop (length events - n) events),
    )
    | inr y ↦ rw y ((0, refl), ground (arith, y), λ a b. b)
  ]

  -- What is kept of `events`, for a cap and a budget.
  abbrev pub Retained : List Event → ℕ → ℕ → List Event → Type 0
  Retained events cap budget kept =
      ((n : ℕ) × (kept ≡ drop n events))
      × (1 ≤ length events → 1 ≤ length kept)
      × (1 ≤ cap → length kept ≤ cap)
      × ((total_size size kept ≤ budget) ⊎ (length kept ≤ 1))

  trim-Retained :
      (events kept : List Event) (cap budget m : ℕ)
      → kept ≡ drop m events
      → (1 ≤ cap → length kept ≤ cap)
      → (1 ≤ length events → 1 ≤ length kept)
      → Retained events cap budget (trim size kept (total_size size kept) budget)
  trim-Retained events kept cap budget m e h g =
      let t = trim-Trimmed kept (total_size size kept) budget refl in
      let (n, f) = t.newest in
      let (k, d) = drop-drop m n events in
      (
        (k, f ∙ ap (drop n) e ∙ d),
        λ x. t.one (g x),
        λ x. omega (arith, h x, length-drop n kept, ap length f),
        t.fits,
      )

  -- A rewritten journal keeps the newest events: where there were any it keeps at least one, no
  -- more than the cap if one is set, and no more bytes than the budget unless it keeps at most one.
  pub retained_suffix-newest :
      (events : List Event) (cap : ℕ) (budget : ℤ)
      → Retained events cap (pos_part budget) (retained_suffix size events cap budget)
  unfolding retained_suffix
  retained_suffix-newest events cap budget = elim (Bool-cases (leb (length events) 1)) [
    | inl y ↦ rw y ((0, refl), λ x. x, λ x. ground (arith, y), inr (ground (arith, y)))
    | inr y ↦ rw y (elim (Bool-cases (ltb 0 cap)) [
      | inl z ↦ rw z (
          let ((k, e), l, o) = window-length cap events in
          trim-Retained events (window cap events) cap (pos_part budget) k e (λ x. l)
            (λ x. o (ground (arith, z)) x))
      | inr z ↦ rw z (
          trim-Retained events events cap (pos_part budget) 0 refl (λ x. ground (arith, z))
            (λ x. x))
    ])
  ]
