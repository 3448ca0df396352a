-- ===== src/Groups/Sighting.antt =====
-- src/groups.rs, `agree` and `take_sighting`: what one sighting changes.
use mathlib.Core.Option.{get_or as or}
use fan_control_lian_li_wire.Base.{
  ℕ, ◌≡◌, refl, ap, ◌∙◌, inl, inr, Bool, true, Option, none, some, if◌then◌else◌, Bool-cases,
}
use fan_control_lian_li_wire.Discovery.{Device}
use fan_control_lian_li_wire.Groups.{
  Identity, Shape, identity, shape, identity_eq, shape_eq, Group, online, acknowledged, agree, keep,
  with_identity, with_shape, settle_identity, settle_shape, note_heard, take_sighting,
}

-- What one sighting of `seen` does to a kept value and the candidate for its place.
module _ {T : Type 0} (eq : T → T → Bool) where
  abbrev pub settle : T → Option (T × ℕ) → T → T × Option (T × ℕ)
  settle kept candidate seen =
      if eq seen kept
      then (kept, none)
      else (or (agree eq candidate seen).1 kept, (agree eq candidate seen).0)

identity-with_shape : (d : Device) (s : Option Shape) → identity (with_shape d s) ≡ identity d
unfolding identity
identity-with_shape d none = refl
identity-with_shape d (some s) = refl

shape-with_shape : (d : Device) (s : Option Shape) → shape (with_shape d s) ≡ or s (shape d)
unfolding shape
shape-with_shape d none = refl
shape-with_shape d (some s) = refl

identity-with_identity :
    (d : Device) (i : Option Identity) → identity (with_identity d i) ≡ or i (identity d)
unfolding identity
identity-with_identity d none = refl
identity-with_identity d (some s) = refl

shape-with_identity : (d : Device) (i : Option Identity) → shape (with_identity d i) ≡ shape d
unfolding shape
shape-with_identity d none = refl
shape-with_identity d (some s) = refl

-- What `settle_identity` leaves, for a group that still has the kept identity.
module _ (kept seen : Device) (g : Group) (same : identity g.device ≡ identity kept) where
  abbrev to_identity : Identity × Option (Identity × ℕ)
  to_identity = settle identity_eq (identity kept) g.identity (identity seen)

  settle_identity_lem :
      (identity (settle_identity kept seen g).device ≡ to_identity.0)
      × ((settle_identity kept seen g).identity ≡ to_identity.1)
      × (shape (settle_identity kept seen g).device ≡ shape g.device)
      × ((settle_identity kept seen g).shape ≡ g.shape)
  unfolding settle_identity
  settle_identity_lem = elim (Bool-cases (identity_eq (identity seen) (identity kept))) [
    | inl e ↦ rw (e, settle_identity) (same, refl, refl, refl)
    | inr e ↦
        let agreed = (agree identity_eq g.identity (identity seen)).1 in
        rw (e, settle_identity)
          (
            identity-with_identity g.device agreed ∙ ap (or agreed) same,
            refl,
            shape-with_identity g.device agreed,
            refl,
          )
  ]

-- What `settle_shape` leaves, for a group that still has the kept shape.
module _ (kept seen : Device) (g : Group) (same : shape g.device ≡ shape kept) where
  abbrev to_shape : Shape × Option (Shape × ℕ)
  to_shape = settle shape_eq (shape kept) g.shape (shape seen)

  settle_shape_lem :
      (shape (settle_shape kept seen g).device ≡ to_shape.0)
      × ((settle_shape kept seen g).shape ≡ to_shape.1)
      × (identity (settle_shape kept seen g).device ≡ identity g.device)
      × ((settle_shape kept seen g).identity ≡ g.identity)
  unfolding settle_shape
  settle_shape_lem = elim (Bool-cases (shape_eq (shape seen) (shape kept))) [
    | inl e ↦ rw (e, settle_shape) (same, refl, refl, refl)
    | inr e ↦
        let agreed = (agree shape_eq g.shape (shape seen)).1 in
        rw (e, settle_shape)
          (
            shape-with_shape g.device agreed ∙ ap (or agreed) same,
            refl,
            identity-with_shape g.device agreed,
            refl,
          )
  ]

-- The identity and the shape of an online group, and the candidates for them, each go through
-- `settle` on their own.
pub record Settled (g : Group) (seen : Device) (g' : Group) : Type 0 where
  pub identity_kept :
      identity g'.device ≡ (settle identity_eq (identity g.device) g.identity (identity seen)).0
  pub identity_candidate :
      g'.identity ≡ (settle identity_eq (identity g.device) g.identity (identity seen)).1
  pub shape_kept : shape g'.device ≡ (settle shape_eq (shape g.device) g.shape (shape seen)).0
  pub shape_candidate : g'.shape ≡ (settle shape_eq (shape g.device) g.shape (shape seen)).1

pub note_heard_lem :
    (g : Group) (now : ℕ)
    → ((note_heard g now).device ≡ g.device)
      × ((note_heard g now).identity ≡ g.identity)
      × ((note_heard g now).shape ≡ g.shape)
      × ((note_heard g now).target ≡ g.target)
      × ((note_heard g now).last_sent ≡ g.last_sent)
      × ((note_heard g now).last_seen ≡ now)
unfolding note_heard
note_heard_lem g now = elim (Bool-cases (acknowledged (record g { last_seen = now }) now)) [
  | inl e ↦ rw (e, note_heard) (refl, refl, refl, refl, refl, refl)
  | inr e ↦ rw (e, note_heard) (refl, refl, refl, refl, refl, refl)
]

-- A sighting of an online group puts its identity and its shape through `settle`.
pub take_sighting-Settled :
    (g : Group) (seen : Device) (now : ℕ)
    → online g now ≡ true
    → Settled g seen (take_sighting g seen now)
unfolding take_sighting identity shape
take_sighting-Settled g seen now on =
    let kept : Group = record g { device = keep g.device seen } in
    let mid : Group = settle_identity g.device seen kept in
    let end : Group = settle_shape g.device seen mid in
    let i = settle_identity_lem g.device seen kept refl in
    let s = settle_shape_lem g.device seen mid (i.2) in
    let n = note_heard_lem end now in
    rw (on, take_sighting)
      (record {
        identity_kept = ap identity n.0 ∙ s.2 ∙ i.0;
        identity_candidate = n.1 ∙ s.3 ∙ i.1;
        shape_kept =
            ap shape n.0 ∙ s.0 ∙ ap (λ c. (settle shape_eq (shape g.device) c (shape seen)).0) i.3;
        shape_candidate =
            n.2 ∙ s.1 ∙ ap (λ c. (settle shape_eq (shape g.device) c (shape seen)).1) i.3;
      })
