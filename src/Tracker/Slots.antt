-- ===== src/Tracker/Slots.antt =====
-- src/groups.rs, `Tracker::slot`: what leaves the slots, and the other groups, as they are.
use fan_control_lian_li_wire.Base.{
  ℕ, ◌≡◌, refl, ap, ◌∙◌, inl, inr, false, some, List, [], ◌∷◌, map, Bool-cases, Option-cases, find,
  Bytes, bytes_eq, bytes_eq_refl,
}
use fan_control_lian_li_wire.Discovery.{Device}
use fan_control_lian_li_wire.Groups.{Group}
use fan_control_lian_li_wire.Tracker.{
  Tracker, has_mac, group, keeps, lookup_all, slot, update_group, retarget, set_target, mark_sent,
  sent,
}
use fan_control_lian_li_wire.Tracker.Targets.{find-update_group, retarget-mac, retarget-Retargeted}
use mathlib.Core.Option
use fan_control_lian_li_wire.Speed
use fan_control_lian_li_wire.Tracker

devices-update_group :
    (mac : Bytes) (f : Group → Group) (gs : List Group) (order : List Bytes)
    → ((g : Group) → (f g).device ≡ g.device)
    → map (λ (g : Group). g.device) (lookup_all (update_group mac f gs) order)
      ≡ map (λ (g : Group). g.device) (lookup_all gs order)
devices-update_group mac f gs [] keeps = refl
devices-update_group mac f gs (x ∷ rest) keeps =
    let found = find-update_group mac x f gs (λ g. ap (λ (d : Device). d.mac) (keeps g)) in
    let ih = devices-update_group mac f gs rest keeps in
    elim (Bool-cases (bytes_eq mac x)) [
      | inr n ↦
          let same = rw n at found in
          elim (Option-cases (find (has_mac x) gs)) [
            | inl e ↦ rw (same, e) ih
            | inr (g, e) ↦ rw (same, e, ih) refl
          ]
      | inl s ↦
          let same = rw s at found in
          elim (Option-cases (find (has_mac x) gs)) [
            | inl e ↦ rw (same, e) ih
            | inr (g, e) ↦ rw (same, e, keeps g, ih) refl
          ]
    ]

pub slot-sent : (t : Tracker) (mac m : Bytes) (now : ℕ) → slot (sent t mac now) m ≡ slot t m
unfolding slot Tracker.online sent
slot-sent t mac m now =
    ap (λ ds. Speed.slot ds t.master_mac m)
      (devices-update_group mac (mark_sent now) t.groups t.order (λ g. refl))

pub slot-set_target :
    (t : Tracker) (mac wanted m : Bytes) → slot (set_target t mac wanted).0 m ≡ slot t m
unfolding slot Tracker.online set_target group
slot-set_target t mac wanted m = elim (Option-cases (group t mac)) [
  | inl e ↦ rw (e, set_target) refl
  | inr (g, e) ↦
      let p = Speed.prepare g.device wanted in
      rw (e, set_target)
        (ap (λ ds. Speed.slot ds t.master_mac m)
          (devices-update_group mac (retarget p) t.groups t.order
            (λ g. (retarget-Retargeted p g).device)))
]

pub group-sent :
    (t : Tracker) (mac m : Bytes) (now : ℕ)
    → bytes_eq mac m ≡ false
    → group (sent t mac now) m ≡ group t m
unfolding group sent
group-sent t mac m now other =
    find-update_group mac m (mark_sent now) t.groups (λ g. refl) ∙ rw other refl

pub set_target_found :
    (t : Tracker) (mac wanted : Bytes) (g : Group)
    → group t mac ≡ some g
    → let p = Speed.prepare g.device wanted in
      group (set_target t mac wanted).0 mac ≡ some (retarget p g)
unfolding group set_target
set_target_found t mac wanted g e =
    let p = Speed.prepare g.device wanted in
    let found = find-update_group mac mac (retarget p) t.groups (retarget-mac p) in
    rw (e, set_target) (found ∙ rw (bytes_eq_refl mac) (ap (Option.map (retarget p)) e))
