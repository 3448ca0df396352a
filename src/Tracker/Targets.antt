-- ===== src/Tracker/Targets.antt =====
-- src/groups.rs, `set_target`, `clear_target` and `sent`: what becomes of one group, and of the
-- others.
use mathlib.Core.Option
use fan_control_lian_li_wire.Base.{
  ◌≡◌, refl, ap, subst, ◌∙◌, ◌≢◌, inl, inr, true, false, Option, none, some, List, [], ◌∷◌, arith,
  if◌then◌else◌, Bool-cases, find, Bytes, bytes_eq, bytes_eq_sound, bytes_eq_refl, bytes_eq_iff,
}
use fan_control_lian_li_wire.Groups.{Group}
use fan_control_lian_li_wire.Tracker.{
  Tracker, has_mac, group, update_group, same_target, retarget, set_target,
}
use fan_control_lian_li_wire.Speed

pub find-update_group :
    (mac m : Bytes) (f : Group → Group) (gs : List Group)
    → ((g : Group) → (f g).device.mac ≡ g.device.mac)
    → find (has_mac m) (update_group mac f gs)
      ≡ (if bytes_eq mac m then Option.map f (find (has_mac m) gs) else find (has_mac m) gs)
find-update_group mac m f [] h = ground arith
find-update_group mac m f (g ∷ gs) h = elim (Bool-cases (has_mac mac g)) [
  | inl e ↦
      let same : bytes_eq g.device.mac m ≡ bytes_eq mac m =
        ap (λ x. bytes_eq x m) (bytes_eq_sound g.device.mac mac e) in
      let moved : bytes_eq (f g).device.mac m ≡ bytes_eq mac m =
        ap (λ x. bytes_eq x m) (h g) ∙ same in
      elim (Bool-cases (bytes_eq mac m)) [
        | inl k ↦ rw (e, moved, same, k)
        | inr k ↦ rw (e, moved, same, k)
      ]
  | inr e ↦ elim (Bool-cases (has_mac m g)) [
    | inl k ↦
        let other : bytes_eq mac m ≡ false =
          ground (
            arith,
            bytes_eq_iff g.device.mac m,
            bytes_eq_iff mac m,
            bytes_eq_iff g.device.mac mac,
          ) in
        rw (e, k, other)
    | inr k ↦ rw (e, k) (find-update_group mac m f gs h)
  ]
]

pub retarget-mac : (p : Bytes) (g : Group) → (retarget p g).device.mac ≡ g.device.mac
unfolding retarget
retarget-mac p g = elim (Bool-cases (same_target g.target (some p))) [
  | inl e ↦ rw (e, retarget)
  | inr e ↦ rw (e, retarget)
]

same_target_sound : (a : Option Bytes) (p : Bytes) → same_target a (some p) ≡ true → a ≡ some p
same_target_sound none p h = cc
same_target_sound (some a) p h = ap some (bytes_eq_sound a p h)

different_target : (a : Option Bytes) (p : Bytes) → same_target a (some p) ≡ false → a ≢ some p
different_target none p e h = cc
different_target (some a) p e h = ground (arith, bytes_eq_iff a p)

-- A group whose target is set to `p`.
pub record Retargeted (g : Group) (p : Bytes) (g' : Group) : Type 0 where
  pub target : g'.target ≡ some p
  pub device : g'.device ≡ g.device
  pub heard : g'.last_seen ≡ g.last_seen
  pub kept : g.target ≡ some p → g' ≡ g
  pub reset : g.target ≢ some p → (g'.last_sent ≡ none) × (g'.unacknowledged ≡ 0)

pub retarget-Retargeted : (p : Bytes) (g : Group) → Retargeted g p (retarget p g)
unfolding retarget
retarget-Retargeted p g = elim (Bool-cases (same_target g.target (some p))) [
  | inl e ↦
      let same = same_target_sound g.target p e in
      rw (e, retarget)
        (record {
          target = same;
          device = refl;
          heard = refl;
          kept = λ h. refl;
          reset = λ h. absurd (h same);
        })
  | inr e ↦
      rw (e, retarget)
        (record {
          target = refl;
          device = refl;
          heard = refl;
          kept = λ h. absurd (different_target g.target p e h);
          reset = λ h. (refl, refl);
        })
]

other_mac : (mac m : Bytes) → m ≢ mac → bytes_eq mac m ≡ false
other_mac mac m n = ground (arith, bytes_eq_iff mac m)

-- An address that is not known, and one that is.
pub set_target_lem :
    (t : Tracker) (mac wanted : Bytes)
    → (group t mac ≡ none → set_target t mac wanted ≡ (t, none))
      × ((g : Group)
          → group t mac ≡ some g
          → let p = Speed.prepare g.device wanted in
            let t' = (set_target t mac wanted).0 in
            ((set_target t mac wanted).1 ≡ some p)
            × ((g' : Group) × (group t' mac ≡ some g') × Retargeted g p g')
            × ((m : Bytes) → m ≢ mac → group t' m ≡ group t m)
            × (t'.order ≡ t.order))
unfolding set_target group
set_target_lem t mac wanted = (
  (λ e. rw (e, set_target)),
  λ g e.
      let p = Speed.prepare g.device wanted in
      let found = λ (m : Bytes). find-update_group mac m (retarget p) t.groups (retarget-mac p) in
      rw (e, set_target)
        (
          refl,
          (
            retarget p g,
            found mac ∙ rw (bytes_eq_refl mac) (ap (Option.map (retarget p)) e),
            retarget-Retargeted p g,
          ),
          (λ m n. found m ∙ rw (other_mac mac m n) refl),
          refl,
        ),
)

-- Setting a target on a known group returns the prepared duties and makes them its target. A target
-- that was the same already keeps when it was sent and how often; a new one counts as never sent.
-- No other group changes, nor the order.
pub group-set_target :
    (t : Tracker) (mac wanted m : Bytes) (g : Group)
    → group t mac ≡ some g
    → let p = Speed.prepare g.device wanted in
      let t' = (set_target t mac wanted).0 in
      ((set_target t mac wanted).1 ≡ some p)
      × (group t' m ≡ (
          if bytes_eq mac m
          then some (
              if same_target g.target (some p)
              then g
              else record g { target = some p; last_sent = none; unacknowledged = 0 })
          else group t m))
      × (t'.order ≡ t.order)
unfolding set_target group retarget
group-set_target t mac wanted m g e =
    let p = Speed.prepare g.device wanted in
    let found = find-update_group mac m (retarget p) t.groups (retarget-mac p) in
    rw (e, set_target)
      (
        refl,
        found ∙ elim (Bool-cases (bytes_eq mac m)) [
          | inl k ↦
              let at = bytes_eq_sound mac m k in
              rw k (
                ap (Option.map (retarget p)) (subst (λ x. find (has_mac x) t.groups ≡ some g) at e))
          | inr k ↦ rw k refl
        ],
        refl,
      )
