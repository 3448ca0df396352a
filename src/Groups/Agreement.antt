-- ===== src/Groups/Agreement.antt =====
-- src/groups.rs, `agree`: how the identity and the shape of a group change.
use mathlib.Core.Option.{get_or as or}
use fan_control_lian_li_wire.Base.{
  ℕ, zero, suc, ◌≤◌, ◌≡◌, refl, sym, ap, subst, ◌∙◌, ◌≢◌, ◌↔◌, ◌⊎◌, inl, inr, Bool, true, false,
  Option, none, some, List, [], ◌∷◌, map, arith, Bool-cases, bytes_eq_iff,
}
use fan_control_lian_li_wire.Groups.{
  Identity, Shape, identity, shape, identity_eq, shape_eq, Group, new, online, agree, take_sighting,
}
use fan_control_lian_li_wire.Groups.Sighting.{settle, take_sighting-Settled}
use fan_control_lian_li_wire.Discovery.{Device}

module _ {T : Type 0} (eq : T → T → Bool) where
  -- The kept value and its candidate after a history of sightings, the latest one first.
  abbrev pub settled : T → List T → T × Option (T × ℕ)
  settled kept [] = (kept, none)
  settled kept (seen ∷ before) = settle eq (settled kept before).0 (settled kept before).1 seen

-- The latest `n` sightings were all of `v`.
abbrev pub Streak : {T : Type 0} → T → ℕ → List T → Type 0
Streak v zero history = Unit {0}
Streak v (suc n) [] = ⊥
Streak v (suc n) (x ∷ before) = (x ≡ v) × Streak v n before

module _ {T : Type 0} (eq : T → T → Bool) (eq_iff : (a b : T) → (eq a b ≡ true) ↔ (a ≡ b)) where
  -- What is known of the candidate: its count is 1 or 2, and that many latest sightings were of it.
  abbrev IsPending : Option (T × ℕ) → List T → Type 0
  IsPending none history = Unit {0}
  IsPending (some (value, count)) history = (1 ≤ count) × (count ≤ 2) × Streak value count history

  -- One sighting: either the kept value stays, or the last two sightings were of the new one too.
  abbrev Moves : T → T → List T → T × Option (T × ℕ) → Type 0
  Moves kept seen before s =
      IsPending s.1 (seen ∷ before) × ((s.0 ≡ kept) ⊎ ((s.0 ≡ seen) × Streak seen 2 before))

  agree-Moves :
      (kept : T) (candidate : Option (T × ℕ)) (seen : T) (before : List T)
      → IsPending candidate before
      → Moves kept seen before (or (agree eq candidate seen).1 kept, (agree eq candidate seen).0)
  unfolding agree
  agree-Moves kept none seen before h = ((omega arith, omega arith, (refl, tt)), inl refl)
  agree-Moves kept (some (value, zero)) seen before h = absurd (omega arith)
  agree-Moves kept (some (value, suc zero)) seen before h = elim (Bool-cases (eq value seen)) [
    | inl e ↦ rw e ((omega arith, omega arith, (sym ((eq_iff value seen).0 e), h.2)), inl refl)
    | inr e ↦ rw e ((omega arith, omega arith, (refl, tt)), inl refl)
  ]
  agree-Moves kept (some (value, suc (suc zero))) seen before h =
      elim (Bool-cases (eq value seen)) [
        | inl e ↦
            rw e (tt, inr (refl, subst (λ v. Streak v 2 before) ((eq_iff value seen).0 e) h.2))
        | inr e ↦ rw e ((omega arith, omega arith, (refl, tt)), inl refl)
      ]
  agree-Moves kept (some (value, suc (suc (suc n)))) seen before h = absurd (omega arith)

  settle-Moves :
      (kept : T) (candidate : Option (T × ℕ)) (seen : T) (before : List T)
      → IsPending candidate before
      → Moves kept seen before (settle eq kept candidate seen)
  settle-Moves kept candidate seen before h = elim (Bool-cases (eq seen kept)) [
    | inl e ↦ rw e (tt, inl refl)
    | inr e ↦ rw e (agree-Moves kept candidate seen before h)
  ]

  settled-IsPending : (kept : T) (history : List T) → IsPending (settled eq kept history).1 history
  settled-IsPending kept [] = tt
  settled-IsPending kept (seen ∷ before) =
      (settle-Moves (settled eq kept before).0 (settled eq kept before).1 seen before
        (settled-IsPending kept before)).0

  -- After any history that began with no candidate, one more sighting leaves the kept value as it
  -- was, or it is the third in a row of the value that is now kept.
  pub settled-third :
      (kept seen : T) (before : List T)
      → ((settled eq kept (seen ∷ before)).0 ≡ (settled eq kept before).0)
        ⊎ (((settled eq kept (seen ∷ before)).0 ≡ seen) × Streak seen 2 before)
  settled-third kept seen before =
      (settle-Moves (settled eq kept before).0 (settled eq kept before).1 seen before
        (settled-IsPending kept before)).1

  -- Three sightings of another value with no candidate before them make it the kept one.
  pub settle_three :
      (kept v : T)
      → v ≢ kept
      → let s1 = settle eq kept none v in
        let s2 = settle eq s1.0 s1.1 v in settle eq s2.0 s2.1 v ≡ (v, none)
  unfolding agree
  settle_three kept v h =
      let off : eq v kept ≡ false = ground (arith, eq_iff v kept) in
      let on : eq v v ≡ true = (eq_iff v v).1 refl in rw (off, on, off, on, off)

identity_eq_iff : (a b : Identity) → (identity_eq a b ≡ true) ↔ (a ≡ b)
unfolding identity_eq
identity_eq_iff a b = (
  (λ h. ground (arith, bytes_eq_iff a.master_mac b.master_mac)),
  λ h. ground (arith, bytes_eq_iff a.master_mac b.master_mac),
)

shape_eq_iff : (a b : Shape) → (shape_eq a b ≡ true) ↔ (a ≡ b)
unfolding shape_eq
shape_eq_iff a b = (
  (λ h. ground (arith, bytes_eq_iff a.fan_types b.fan_types)),
  λ h. ground (arith, bytes_eq_iff a.fan_types b.fan_types),
)

-- A group after a history of sightings with their times, the latest one first.
unfoldable pub heard : Group → List (Device × ℕ) → Group
heard g [] = g
heard g ((seen, now) ∷ before) = take_sighting (heard g before) seen now

-- No gap of the history took the group offline.
abbrev pub StaysOnline : Group → List (Device × ℕ) → Type 0
StaysOnline g [] = Unit {0}
StaysOnline g ((seen, now) ∷ before) = (online (heard g before) now ≡ true) × StaysOnline g before

abbrev pub identities : List (Device × ℕ) → List Identity
identities = map (λ s. identity s.0)

abbrev pub shapes : List (Device × ℕ) → List Shape
shapes = map (λ s. shape s.0)

heard-identity :
    (g : Group) (history : List (Device × ℕ))
    → g.identity ≡ none
    → StaysOnline g history
    → let s = settled identity_eq (identity g.device) (identities history) in
      (identity (heard g history).device ≡ s.0) × ((heard g history).identity ≡ s.1)
unfolding heard
heard-identity g [] fresh on = (refl, fresh)
heard-identity g ((seen, now) ∷ before) fresh on =
    let s = take_sighting-Settled (heard g before) seen now on.0 in
    let ih = heard-identity g before fresh on.1 in
    (s.identity_kept ∙ rw (ih.0, ih.1) refl, s.identity_candidate ∙ rw (ih.0, ih.1) refl)

heard-shape :
    (g : Group) (history : List (Device × ℕ))
    → g.shape ≡ none
    → StaysOnline g history
    → let s = settled shape_eq (shape g.device) (shapes history) in
      (shape (heard g history).device ≡ s.0) × ((heard g history).shape ≡ s.1)
unfolding heard
heard-shape g [] fresh on = (refl, fresh)
heard-shape g ((seen, now) ∷ before) fresh on =
    let s = take_sighting-Settled (heard g before) seen now on.0 in
    let ih = heard-shape g before fresh on.1 in
    (s.shape_kept ∙ rw (ih.0, ih.1) refl, s.shape_candidate ∙ rw (ih.0, ih.1) refl)

-- While a group that began with no candidates stays online, a sighting changes its identity only
-- if it and the two before it all named the new one, and so for its shape: one garbled record, or
-- two, change neither.
pub heard-third :
    (g : Group) (seen : Device) (now : ℕ) (before : List (Device × ℕ))
    → g.identity ≡ none
    → g.shape ≡ none
    → StaysOnline g ((seen, now) ∷ before)
    → let old = (heard g before).device in
      let new = (heard g ((seen, now) ∷ before)).device in
      ((identity new ≡ identity old)
        ⊎ ((identity new ≡ identity seen) × Streak (identity seen) 2 (identities before)))
      × ((shape new ≡ shape old)
          ⊎ ((shape new ≡ shape seen) × Streak (shape seen) 2 (shapes before)))
heard-third g seen now before no_identity no_shape on =
    let i = heard-identity g ((seen, now) ∷ before) no_identity on in
    let i' = heard-identity g before no_identity on.1 in
    let s = heard-shape g ((seen, now) ∷ before) no_shape on in
    let s' = heard-shape g before no_shape on.1 in
    (
      rw (i.0, i'.0)
          (settled-third identity_eq identity_eq_iff (identity g.device) (identity seen)
            (identities before)),
      rw (s.0, s'.0)
          (settled-third shape_eq shape_eq_iff (shape g.device) (shape seen) (shapes before)),
    )

-- Three sightings in a row of one new identity do change it, while the group stays online.
pub heard_three :
    (g : Group) (a b c : Device) (now now' now'' : ℕ)
    → g.identity ≡ none
    → identity a ≢ identity g.device
    → identity b ≡ identity a
    → identity c ≡ identity a
    → StaysOnline g ((c, now'') ∷ (b, now') ∷ (a, now) ∷ [])
    → identity (heard g ((c, now'') ∷ (b, now') ∷ (a, now) ∷ [])).device ≡ identity a
heard_three g a b c now now' now'' fresh new eb ec on =
    (heard-identity g ((c, now'') ∷ (b, now') ∷ (a, now) ∷ []) fresh on).0
    ∙ rw (eb, ec)
        (ap (λ s. s.0)
          (settle_three identity_eq identity_eq_iff (identity g.device) (identity a) new))
