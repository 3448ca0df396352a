-- ===== src/Tracker/Holding.antt =====
-- src/groups.rs: what is true of one known group through `sent` and `observe`.
use fan_control_lian_li_wire.Base.{
  ℕ, ◌≡◌, refl, sym, ap, ◌∙◌, inl, inr, Option, some, List, [], ◌∷◌, Bool-cases, find, Bytes,
  bytes_eq, bytes_eq_sound,
}
use fan_control_lian_li_wire.Discovery.{Device, Reply}
use fan_control_lian_li_wire.Groups.{Group, take_sighting}
use fan_control_lian_li_wire.Groups.Live.{take_sighting-Live}
use fan_control_lian_li_wire.Tracker.{
  Tracker, has_mac, group, upsert, upsert_all, rebuild, observe, mark_sent, sent,
}
use fan_control_lian_li_wire.Tracker.Targets.{find-update_group}
use mathlib.Core.Option

-- The group at this address is known, and it is as `P` says.
pub record Holds (P : Group → Type 0) (t : Tracker) (mac : Bytes) : Type 0 where
  pub held : Group
  pub found : group t mac ≡ some held
  pub so : P held

abbrev pub Closed : ℕ → (Group → Type 0) → Type 0
Closed now P = (g : Group) → P g → P (mark_sent now g)

pub sent-Holds :
    (P : Group → Type 0) (t : Tracker) (mac m : Bytes) (now : ℕ)
    → Closed now P
    → Holds P t m
    → Holds P (sent t mac now) m
unfolding sent group
sent-Holds P t mac m now closed h =
    let found = find-update_group mac m (mark_sent now) t.groups (λ g. refl) in
    elim (Bool-cases (bytes_eq mac m)) [
      | inl e ↦ record {
        held = mark_sent now h.held;
        found = found ∙ rw e (ap (Option.map (mark_sent now)) h.found);
        so = closed h.held h.so;
      }
      | inr e ↦ record { held = h.held; found = found ∙ rw e h.found; so = h.so }
    ]

-- A group in this list at this address has this target.
abbrev Aims : Option Bytes → List Group → Bytes → Type 0
Aims target gs m = (g : Group) × (find (has_mac m) gs ≡ some g) × (g.target ≡ target)

upsert-Aims :
    (target : Option Bytes) (seen : Device) (now : ℕ) (m : Bytes) (gs : List Group)
    → Aims target gs m
    → Aims target (upsert seen now gs) m
unfolding upsert
upsert-Aims target seen now m [] (g, found, so) = absurd (cc found)
upsert-Aims target seen now m (h ∷ hs) (g, found, so) =
    let live = (take_sighting-Live h seen now).0 in
    elim (Bool-cases (has_mac seen.mac h)) [
      | inl hit ↦
          let mac : (take_sighting h seen now).device.mac ≡ h.device.mac =
            live.mac ∙ sym (bytes_eq_sound h.device.mac seen.mac hit) in
          let same : bytes_eq (take_sighting h seen now).device.mac m ≡ bytes_eq h.device.mac m =
            ap (λ x. bytes_eq x m) mac in
          elim (Bool-cases (has_mac m h)) [
            | inl e ↦
                let is : h ≡ g = cc (rw e at found) in
                rw (hit, same, e)
                  (
                    take_sighting h seen now,
                    refl,
                    live.target ∙ ap (λ (x : Group). x.target) is ∙ so,
                  )
            | inr e ↦ rw (hit, same, e) (g, rw e at found, so)
          ]
      | inr miss ↦ elim (Bool-cases (has_mac m h)) [
        | inl e ↦ rw (miss, e) (g, rw e at found, so)
        | inr e ↦ rw (miss, e) (upsert-Aims target seen now m hs (g, rw e at found, so))
      ]
    ]

upsert_all-Aims :
    (target : Option Bytes) (seen : List Device) (now : ℕ) (m : Bytes) (gs : List Group)
    → Aims target gs m
    → Aims target (upsert_all seen now gs) m
unfolding upsert_all
upsert_all-Aims target [] now m gs h = h
upsert_all-Aims target (d ∷ ds) now m gs h =
    upsert_all-Aims target ds now m (upsert d now gs) (upsert-Aims target d now m gs h)

-- A poll that is taken in leaves a known group's target alone.
pub observe-target :
    (target : Option Bytes) (t : Tracker) (reply : Reply) (now : ℕ) (m : Bytes)
    → Holds (λ g. g.target ≡ target) t m
    → Holds (λ g. g.target ≡ target) (observe t reply now) m
unfolding observe rebuild group
observe-target target t reply now m h =
    let (g, found, so) =
      upsert_all-Aims target reply.devices now m t.groups (h.held, h.found, h.so) in
    record { held = g; found = found; so = so }
