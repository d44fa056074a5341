-- ===== src/Common/Maps.antt =====
-- Go's `map[K]V` as an association list: a write replaces in place or appends.
use Prim.Native.Nat.{ℕ, suc, ◌+◌, ◌≤◌}
use mathlib.Core.Path.{◌≡◌, refl, sym, ap, ◌∙◌}
use mathlib.Core.Logic.{inl, inr}
use mathlib.Core.Bool.{Bool, true, false}
use mathlib.Core.Option.{Option, none, some}
use mathlib.Core.List.{List, [], ◌∷◌}
use native.Mathlib.Omega.{arith}
use teploy_dash.Common.Tests.{Eq, Bool-cases, ◌==◌, if◌then◌else◌}

module _ {ℓ κ} {K : Type ℓ} {V : Type κ} ⦃e : Eq K⦄ where
  unfoldable pub lookup : K → List (K × V) → Option V
  lookup k [] = none
  lookup k ((j, v) ∷ m) = if j == k then some v else lookup k m

  unfoldable pub insert : K → V → List (K × V) → List (K × V)
  insert k v [] = (k, v) ∷ []
  insert k v ((old, was) ∷ rest) = if old == k then (k, v) ∷ rest else (old, was) ∷ insert k v rest

  unfoldable pub remove : K → List (K × V) → List (K × V)
  remove k [] = []
  remove k ((j, v) ∷ m) = let rest = remove k m in if j == k then rest else (j, v) ∷ rest

  pub lookup-insert :
      (k j : K) (v : V) (m : List (K × V))
      → lookup j (insert k v m) ≡ (if k == j then some v else lookup j m)
  unfolding lookup insert
  lookup-insert k j v [] = refl
  lookup-insert k j v ((old, was) ∷ rest) =
      ground (arith, lookup-insert k j v rest, e.beq_iff old k, e.beq_iff old j, e.beq_iff k j)

  pub lookup-remove :
      (k j : K) (m : List (K × V)) → lookup j (remove k m) ≡ (if k == j then none else lookup j m)
  unfolding lookup remove
  lookup-remove k j [] = ground arith
  lookup-remove k j ((i, w) ∷ m) =
      ground (arith, e.beq_iff k j, e.beq_iff i k, e.beq_iff i j, lookup-remove k j m)

  pub lookup-insert_self : (k : K) (v : V) (m : List (K × V)) → lookup k (insert k v m) ≡ some v
  lookup-insert_self k v m = ground (arith, lookup-insert k k v m, e.beq_iff k k)

  unfoldable pub keys : List (K × V) → List K
  keys [] = []
  keys ((k, v) ∷ m) = k ∷ keys m

  -- How many values pass a test.
  unfoldable pub tally : (V → Bool) → List (K × V) → ℕ
  tally p [] = 0
  tally p ((k, v) ∷ m) = let rest = tally p m in if p v then suc rest else rest

  pub tally-insert :
      (p : V → Bool) (k : K) (v : V) (m : List (K × V))
      → tally p (insert k v m) ≤ tally p m + (if p v then 1 else 0)
  unfolding insert tally
  tally-insert p k v [] = ground arith
  tally-insert p k v ((j, w) ∷ m) = ground (arith, tally-insert p k v m)

  -- Replacing a value by one that passes no test the old one failed adds nothing.
  pub tally-insert_over :
      (p : V → Bool) (k : K) (v w : V) (m : List (K × V))
      → lookup k m ≡ some w
      → (p v ≡ true → p w ≡ true)
      → tally p (insert k v m) ≤ tally p m
  unfolding insert tally lookup
  tally-insert_over p k v w [] h imp = cc
  tally-insert_over p k v w ((j, x) ∷ m) h imp =
      ground (arith, tally-insert_over p k v w m, imp, e.beq_iff j k)

  pub tally-remove : (p : V → Bool) (k : K) (m : List (K × V)) → tally p (remove k m) ≤ tally p m
  unfolding remove tally
  tally-remove p k [] = omega arith
  tally-remove p k ((j, w) ∷ m) = ground (arith, tally-remove p k m)

  -- No key stands twice.
  abbrev pub Unique : List (K × V) → Type κ
  Unique [] = Unit
  Unique ((k, v) ∷ m) = (lookup k m ≡ none) × Unique m

  pub insert-Unique : (k : K) (v : V) (m : List (K × V)) → Unique m → Unique (insert k v m)
  unfolding insert lookup
  insert-Unique k v [] h = (refl, tt)
  insert-Unique k v ((j, w) ∷ m) h = elim (Bool-cases (j == k)) [
    | inl y ↦ rw y ((ap (λ x. lookup x m) (sym ((e.beq_iff j k).0 y)) ∙ h.0, h.1))
    | inr y ↦ rw y (
        (
          lookup-insert k j v m ∙ ground (arith, y, e.beq_iff j k, e.beq_iff k j, h.0),
          insert-Unique k v m h.1,
        ))
  ]

  pub remove-Unique : (k : K) (m : List (K × V)) → Unique m → Unique (remove k m)
  unfolding remove
  remove-Unique k [] h = tt
  remove-Unique k ((j, w) ∷ m) h = elim (Bool-cases (j == k)) [
    | inl y ↦ rw y (remove-Unique k m h.1)
    | inr y ↦ rw y ((lookup-remove k j m ∙ ground (arith, h.0), remove-Unique k m h.1))
  ]

  -- What stands later under another key is found behind the first entry.
  pub lookup-behind :
      (j k : K) (v w : V) (m : List (K × V))
      → Unique ((j, v) ∷ m)
      → lookup k m ≡ some w
      → (j == k) ≡ false
  unfolding lookup
  lookup-behind j k v w m u h = elim (Bool-cases (j == k)) [
    | inl y ↦
        let clash : none ≡ some w = sym u.0 ∙ ap (λ x. lookup x m) ((e.beq_iff j k).0 y) ∙ h in cc
    | inr y ↦ y
  ]
