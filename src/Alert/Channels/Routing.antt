-- ===== src/Alert/Channels/Routing.antt =====
-- Where an event is sent.
use mathlib.Core.List.{Memᴰ}
use teploy_dash.Common.{
  String, true, false, List, [], ◌∷◌, select, map, ◌≡◌, refl, ap, arith, ◌==◌, string_eq,
  Bool-cases, inl, inr, Bool, not, ◌&&◌, ◌||◌, ◌⊎◌, ◌↔◌, sym, ◌∙◌, if_elim,
}
use teploy_dash.Alert.{Alert, Audience, everyone, human, machine, wire_kind}
use teploy_dash.Alert.Channels.{
  Channel, Config, migrate, legacy_webhook, legacy_email, channels_for, receives, is_usable,
  contains, is_nil, in_audience, wants_kind, is_human,
}

-- Migrating a configuration twice is migrating it once: so a saved configuration routes every event
-- to the channels that the one it was migrated from does.
pub migrate_again : (c : Config) → migrate (migrate c) ≡ migrate c
unfolding migrate legacy_webhook legacy_email
migrate_again c = refl

pub channels_for-migrate : (c : Config) (e : Alert) → channels_for (migrate c) e ≡ channels_for c e
unfolding channels_for
channels_for-migrate c e =
    ap (λ (x : Config). map (λ (ch : Channel). ch.id) (select (receives e) x.channels))
      (migrate_again c)

-- A channel of the list that the event goes to stands under the identifier.
abbrev Receiver : Alert → String → List Channel → Type 0
Receiver e id chs = (ch : Channel) × Memᴰ ch chs × (ch.id ≡ id) × (receives e ch ≡ true)

Receiver-later :
    (e : Alert) (id : String) (d : Channel) (chs : List Channel)
    → Receiver e id chs
    → Receiver e id (d ∷ chs)
Receiver-later e id d chs (ch, at, f, y) = (ch, Memᴰ.tail at, f, y)

contains-select :
    (e : Alert) (id : String) (chs : List Channel)
    → contains (map (λ (ch : Channel). ch.id) (select (receives e) chs)) id ≡ true
    → Receiver e id chs
unfolding contains
contains-select e id [] h = cc
contains-select e id (ch ∷ chs) h = elim (Bool-cases (receives e ch)) [
  | inl y ↦ elim (Bool-cases (ch.id == id)) [
    | inl z ↦ (ch, Memᴰ.head refl, (string_eq.beq_iff ch.id id).0 z, y)
    | inr z ↦ Receiver-later e id ch chs (contains-select e id chs (rw (y, z) at h))
  ]
  | inr y ↦ Receiver-later e id ch chs (contains-select e id chs (rw y at h))
]

select-contains :
    (e : Alert) (ch : Channel) (chs : List Channel)
    → Memᴰ ch chs
    → receives e ch ≡ true
    → contains (map (λ (d : Channel). d.id) (select (receives e) chs)) ch.id ≡ true
unfolding contains
select-contains e ch [] at y = elim at [ ]
select-contains e ch (d ∷ chs) (Memᴰ.head f) y =
    let on : receives e d ≡ true = ap (receives e) (sym f) ∙ y in
    let same : (d.id == ch.id) ≡ true =
      (string_eq.beq_iff d.id ch.id).1 (ap (λ (x : Channel). x.id) (sym f)) in
    rw (on, same) refl
select-contains e ch (d ∷ chs) (Memᴰ.tail at) y =
    let ih = select-contains e ch chs at y in
    elim (Bool-cases (receives e d)) [
      | inl on ↦ rw on (if_elim (λ x. x ≡ true) (d.id == ch.id) true _ refl ih)
      | inr off ↦ rw off ih
    ]

-- What a channel must be to get an event: usable, among those that the event is limited to (where it
-- is), not excluded by it, of its audience, and not closed to its kind.
pub record Wanted (e : Alert) (ch : Channel) : Type 0 where
  pub usable : is_usable ch ≡ true
  pub limited : (e.only_channels ≡ []) ⊎ (contains e.only_channels ch.id ≡ true)
  pub allowed : contains e.exclude_channels ch.id ≡ false
  pub audience :
      (e.audience ≡ everyone)
      ⊎ (((e.audience ≡ human) × (is_human ch ≡ true))
          ⊎ ((e.audience ≡ machine) × (is_human ch ≡ false)))
  pub open_to_kind : wants_kind ch.kinds (wire_kind e) ≡ true

Audience-iff :
    (a : Audience) (h : Bool)
    → (in_audience a h ≡ true)
      ↔ ((a ≡ everyone) ⊎ (((a ≡ human) × (h ≡ true)) ⊎ ((a ≡ machine) × (h ≡ false))))
unfolding in_audience
Audience-iff everyone h = (λ x. inl refl, λ x. refl)
Audience-iff human h = (
  λ x. inr (inl (refl, x)),
  λ x. elim x [ inl e ↦ cc | inr (inl (e, y)) ↦ y | inr (inr (e, y)) ↦ cc ],
)
Audience-iff machine true =
    (λ x. cc, λ x. elim x [ inl e ↦ cc | inr (inl (e, y)) ↦ cc | inr (inr (e, y)) ↦ cc ])
Audience-iff machine false = (λ x. inr (inr (refl, refl)), λ x. refl)

limited_iff :
    (only : List String) (id : String)
    → ((is_nil only || contains only id) ≡ true) ↔ ((only ≡ []) ⊎ (contains only id ≡ true))
unfolding is_nil contains
limited_iff [] id = (λ h. inl refl, λ h. refl)
limited_iff (x ∷ xs) id = (λ h. inr h, λ h. elim h [ inl e ↦ cc | inr y ↦ y ])

-- The five tests on their values.
five :
    (a b c d f : Bool)
    → ((a && b && not c && d && f) ≡ true)
    → (a ≡ true) × (b ≡ true) × (c ≡ false) × (d ≡ true) × (f ≡ true)
five a b c d f h = (ground arith, ground arith, ground arith, ground arith, ground arith)

receives_iff : (e : Alert) (ch : Channel) → (receives e ch ≡ true) ↔ Wanted e ch
unfolding receives
receives_iff e ch = (
  λ h.
      let (u, l, x, a, k) =
        five (is_usable ch) (is_nil e.only_channels || contains e.only_channels ch.id)
          (contains e.exclude_channels ch.id) (in_audience e.audience (is_human ch))
          (wants_kind ch.kinds (wire_kind e)) h in
      record {
        usable = u;
        limited = (limited_iff e.only_channels ch.id).0 l;
        allowed = x;
        audience = (Audience-iff e.audience (is_human ch)).0 a;
        open_to_kind = k;
      },
  λ w.
      rw
        (
          w.usable,
          (limited_iff e.only_channels ch.id).1 w.limited,
          w.allowed,
          (Audience-iff e.audience (is_human ch)).1 w.audience,
          w.open_to_kind,
        )
        refl,
)

-- An event is sent to an identifier exactly when a channel of the migrated configuration stands under
-- it that is usable, among those the event is limited to (if it is), not excluded, of the event's
-- audience, and open to its kind.
pub channels_for_iff :
    (c : Config) (e : Alert) (id : String)
    → (contains (channels_for c e) id ≡ true)
      ↔ ((ch : Channel) × Memᴰ ch (migrate c).channels × (ch.id ≡ id) × Wanted e ch)
unfolding channels_for
channels_for_iff c e id = (
  λ h.
      let (ch, at, f, y) = contains-select e id (migrate c).channels h in
      (ch, at, f, (receives_iff e ch).0 y),
  λ (ch, at, f, w).
      ap (contains (map (λ (d : Channel). d.id) (select (receives e) (migrate c).channels))) (sym f)
      ∙ select-contains e ch (migrate c).channels at ((receives_iff e ch).1 w),
)
