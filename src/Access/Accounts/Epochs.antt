-- ===== src/Access/Accounts/Epochs.antt =====
-- The epochs of an account only go up.
use mathlib.Core.Path.{subst}
use teploy_dash.Common.{
  ℕ, suc, ◌+◌, ◌<◌, ◌≤◌, ◌^◌, String, none, some, List, [], ◌∷◌, ◌≡◌, ap, sym, ◌∙◌, arith, length,
  ◌==◌, string_eq, lookup, lookup-insert, lookup-remove, Bool-cases, inl, inr,
}
use teploy_dash.Access.Users.{Account, UsersFile, Gate, Reply, World, next_epoch}
use teploy_dash.Access.Accounts.Calls.{Call, act, play}
use teploy_dash.Access.Accounts.Edits.{
  Edit, minted_user, kept_user, removed_user, minted_principal, kept_principal, Moved, kept, moved,
}
use teploy_dash.Access.Accounts.Moved.{act-Moved}

-- No account of the name has an epoch of e or below, and none will get one.
pub record Past (name : String) (e : ℕ) (f : UsersFile) : Type 0 where
  pub low : e ≤ f.epoch_counter
  pub rows : (u : Account) → lookup name f.users ≡ some u → e < u.auth_epoch

pub record PastWithin (name : String) (e n : ℕ) (f : UsersFile) : Type 0 where
  pub past : Past name e f
  pub room : f.epoch_counter + n < 2 ^ 64

pub next_epoch-small : (e n : ℕ) → e + suc n < 2 ^ 64 → next_epoch e ≡ e + 1
unfolding next_epoch
next_epoch-small e n h = omega (arith, h)

module _ (name : String) (e : ℕ) where
  Edit-Past :
      (g : Gate) (next : UsersFile) (n : ℕ)
      → Edit g next
      → PastWithin name e (suc n) g.live
      → PastWithin name e n next
  Edit-Past g _ n (minted_user k u m safe) h =
      let up = next_epoch-small g.live.epoch_counter n h.room in
      let low = h.past.low in
      let room = h.room in
      record {
        past = record {
          low = omega (arith, up, low);
          rows = λ v l. elim (Bool-cases (k == name)) [
            | inl y ↦
                let one : some u ≡ some v =
                  sym (ground (arith, y, lookup-insert k name u g.live.users)) ∙ l in
                let it : u ≡ v = cc in
                let at : v.auth_epoch ≡ next_epoch g.live.epoch_counter =
                  ap (λ (x : Account). x.auth_epoch) (sym it) ∙ m in
                omega (arith, at, up, low)
            | inr y ↦
                h.past.rows v (sym (ground (arith, y, lookup-insert k name u g.live.users)) ∙ l)
          ];
        };
        room = omega (arith, up, room);
      }
  Edit-Past g _ n (kept_user k u old f m r) h =
      let room = h.room in
      record {
        past = record {
          low = h.past.low;
          rows = λ v l. elim (Bool-cases (k == name)) [
            | inl y ↦
                let one : some u ≡ some v =
                  sym (ground (arith, y, lookup-insert k name u g.live.users)) ∙ l in
                let it : u ≡ v = cc in
                let at : v.auth_epoch ≡ old.auth_epoch =
                  ap (λ (x : Account). x.auth_epoch) (sym it) ∙ m in
                let was =
                  h.past.rows old
                    (ap (λ x. lookup x g.live.users) (sym ((string_eq.beq_iff k name).0 y)) ∙ f) in
                omega (arith, at, was)
            | inr y ↦
                h.past.rows v (sym (ground (arith, y, lookup-insert k name u g.live.users)) ∙ l)
          ];
        };
        room = omega (arith, room);
      }
  Edit-Past g _ n (removed_user k old f safe) h =
      let up = next_epoch-small g.live.epoch_counter n h.room in
      let low = h.past.low in
      let room = h.room in
      record {
        past = record {
          low = omega (arith, up, low);
          rows = λ v l. elim (Bool-cases (k == name)) [
            | inl y ↦
                let clash : none ≡ some v =
                  sym (ground (arith, y, lookup-remove k name g.live.users)) ∙ l in
                cc
            | inr y ↦ h.past.rows v (sym (ground (arith, y, lookup-remove k name g.live.users)) ∙ l)
          ];
        };
        room = omega (arith, up, room);
      }
  Edit-Past g _ n (minted_principal sub p m) h =
      let up = next_epoch-small g.live.epoch_counter n h.room in
      let low = h.past.low in
      let room = h.room in
      record {
        past = record { low = omega (arith, up, low); rows = h.past.rows };
        room = omega (arith, up, room);
      }
  Edit-Past g _ n (kept_principal sub p old f m) h =
      let room = h.room in
      record { past = record { low = h.past.low; rows = h.past.rows }; room = omega (arith, room) }

  Moved-Past :
      (g : Gate) (n : ℕ) (x : Gate × Reply)
      → Moved g x
      → PastWithin name e (suc n) g.live
      → PastWithin name e n x.0.live
  Moved-Past g n _ (kept g' r f l) h =
      let room = h.room in
      subst (λ f. PastWithin name e n f) (sym l)
        (record { past = h.past; room = omega (arith, room) })
  Moved-Past g n _ (moved next g' r f d l k) h =
      subst (λ f. PastWithin name e n f) (sym l) (Edit-Past g next n d h)

  pub play-Past :
      (w : World) (cs : List Call) (g : Gate)
      → PastWithin name e (length cs) g.live
      → PastWithin name e 0 (play w cs g).live
  unfolding play
  play-Past w [] g h = h
  play-Past w (c ∷ cs) g h =
      play-Past w cs (act w c g).0 (Moved-Past g (length cs) (act w c g) (act-Moved w c g) h)
