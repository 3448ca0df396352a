-- ===== src/Engine/Sent.antt =====
-- src/engine.rs, `drive`: what goes out over the link.
use fan_control_lian_li_wire.Base.{
  ℕ, ◌≡◌, refl, sym, ap, subst, ◌∙◌, inl, inr, Bool, true, false, some, List, [], ◌∷◌, arith,
  if◌then◌else◌, Bool-cases, Option-cases, Bytes, bytes_eq, bytes_eq_sound, bytes_eq_iff, get,
}
use fan_control_lian_li_wire.Groups.{Group, online, due}
use fan_control_lian_li_wire.Tracker.{
  Tracker, macs, contains, group, fans, slot, retarget, set_target, sent,
}
use fan_control_lian_li_wire.Tracker.Targets.{retarget-Retargeted, set_target_lem}
use fan_control_lian_li_wire.Tracker.Slots.{slot-set_target, set_target_found}
use fan_control_lian_li_wire.Engine.{Link, Core, is_some}
use fan_control_lian_li_wire.Engine.Drive.{
  percent_for, wanted_duties, send_if_due, note_change, drive_group, drive_groups, drive,
}
use fan_control_lian_li_wire.Engine.Steady.{Settings, note_change-Logged}
use fan_control_lian_li_wire.Engine.Sending.{
  IsOneOf, Taking, frame_of, find_mac_of, Grows, Aside, send_if_due-Grows, send_if_due-Aside,
  send_if_due-IsOneOf,
}
use fan_control_lian_li_wire.Engine.Driving.{settings-drive_group, percent_for_kept}
use fan_control_lian_li_wire.Groups
use fan_control_lian_li_wire.Speed
use fan_control_lian_li_wire.Tracker

module _ (message : ℕ → Bytes) (link : Link) (taking : Taking link) where
  drive_group-Grows :
      (c : Core) (l : link.Carrier) (mac : Bytes) (now : ℕ)
      → Grows message link taking l (drive_group message link c l mac now).1
  unfolding drive_group
  drive_group-Grows c l mac now x h = elim (Option-cases (percent_for c mac)) [
    | inl e ↦ rw (e, drive_group) h
    | inr (percent, e) ↦ elim (Option-cases (group c.tracker mac)) [
      | inl f ↦ rw (e, f, drive_group) h
      | inr (g, f) ↦
          let w = wanted_duties percent g.device.fan_count in
          let set = (set_target_lem c.tracker mac w).1 g f in
          let c1 = record c { tracker = (Tracker.set_target c.tracker mac w).0 } in
          rw (e, f, drive_group, set.0)
            (send_if_due-Grows message link taking
              (note_change message link c1 g percent (Speed.prepare g.device w) now) l g.device.mac
              now x h)
    ]
  ]

  drive_group-Aside :
      (c : Core) (l : link.Carrier) (mac m : Bytes) (now : ℕ)
      → bytes_eq mac m ≡ false
      → let (c', l') = drive_group message link c l mac now in Aside message link taking m c l c' l'
  unfolding drive_group
  drive_group-Aside c l mac m now other = elim (Option-cases (percent_for c mac)) [
    | inl e ↦
        rw (e, drive_group) (record { group_kept = refl; slot_kept = refl; master_kept = refl })
    | inr (percent, e) ↦ elim (Option-cases (group c.tracker mac)) [
      | inl f ↦
          rw (e, f, drive_group)
            (record { group_kept = refl; slot_kept = refl; master_kept = refl })
      | inr (g, f) ↦
          let w = wanted_duties percent g.device.fan_count in
          let duties = Speed.prepare g.device w in
          let set = (set_target_lem c.tracker mac w).1 g f in
          let c1 = record c { tracker = (Tracker.set_target c.tracker mac w).0 } in
          let c2 = note_change message link c1 g percent duties now in
          let noted = (note_change-Logged message link c1 g percent duties now).tracker_kept in
          let at : g.device.mac ≡ mac = find_mac_of c.tracker mac g f in
          let apart : bytes_eq g.device.mac m ≡ false = rw at other in
          let aside = send_if_due-Aside message link taking c2 l g.device.mac m now apart in
          rw (e, f, drive_group, set.0)
            (record {
              group_kept =
                  aside.group_kept
                  ∙ ap (λ t. group t m) noted
                  ∙ set.2 m (ground (arith, bytes_eq_iff mac m));
              slot_kept =
                  aside.slot_kept
                  ∙ ap (λ t. Tracker.slot t m) noted
                  ∙ slot-set_target c.tracker mac w m;
              master_kept = aside.master_kept;
            })
    ]
  ]

  -- The frame that a group is sent if it is due, with the duties of this percentage.
  abbrev pub driving_frame : Core → link.Carrier → Group → ℕ → ℕ × ℕ × Bytes
  driving_frame c l g percent =
      frame_of (link.master_mac l) c g
        (Speed.prepare g.device (wanted_duties percent g.device.fan_count))

  -- Whether the group is due once its target is set.
  abbrev pub is_due_at : Group → ℕ → ℕ → Bool
  is_due_at g percent now =
      Groups.due (retarget (Speed.prepare g.device (wanted_duties percent g.device.fan_count)) g)
        now

  drive_group-IsOneOf :
      (c : Core) (l : link.Carrier) (mac : Bytes) (now percent : ℕ) (g : Group)
      → percent_for c mac ≡ some percent
      → group c.tracker mac ≡ some g
      → is_due_at g percent now ≡ true
      → IsOneOf
          (driving_frame c l g percent)
          (taking.taken (drive_group message link c l mac now).1)
  unfolding drive_group
  drive_group-IsOneOf c l mac now percent g e f due =
      let w = wanted_duties percent g.device.fan_count in
      let p = Speed.prepare g.device w in
      let set = (set_target_lem c.tracker mac w).1 g f in
      let c1 = record c { tracker = (Tracker.set_target c.tracker mac w).0 } in
      let c2 = note_change message link c1 g percent p now in
      let noted = note_change-Logged message link c1 g percent p now in
      let at : g.device.mac ≡ mac = find_mac_of c.tracker mac g f in
      let found : group c2.tracker g.device.mac ≡ some (retarget p g) =
        subst (λ x. group c2.tracker x ≡ some (retarget p g)) (sym at)
          (ap (λ t. group t mac) noted.tracker_kept ∙ set_target_found c.tracker mac w g f) in
      let aimed = retarget-Retargeted p g in
      let hit =
        send_if_due-IsOneOf message link taking c2 l g.device.mac now (retarget p g) p found due
          aimed.target in
      let channel : c2.channel ≡ c.channel = ap (λ (x : Settings). x.channel) noted.settings_kept in
      let slots : Tracker.slot c2.tracker g.device.mac ≡ Tracker.slot c.tracker g.device.mac =
        ap (λ t. Tracker.slot t g.device.mac) noted.tracker_kept
        ∙ slot-set_target c.tracker mac w g.device.mac in
      let same : frame_of (link.master_mac l) c2 (retarget p g) p ≡ driving_frame c l g percent =
        rw (aimed.device, channel, slots) refl in
      rw (e, f, drive_group, set.0)
        (subst (λ x. IsOneOf x (taking.taken (send_if_due message link c2 l g.device.mac now).1))
          same hit)

  drive_groups-Grows :
      (c : Core) (l : link.Carrier) (ms : List Bytes) (now : ℕ)
      → Grows message link taking l (drive_groups message link c l ms now).1
  unfolding drive_groups
  drive_groups-Grows c l [] now x h = h
  drive_groups-Grows c l (mac ∷ rest) now x h =
      let next = drive_group message link c l mac now in
      drive_groups-Grows next.0 next.1 rest now x (drive_group-Grows c l mac now x h)

  drive_groups-IsOneOf :
      (c : Core) (l : link.Carrier) (ms : List Bytes) (now : ℕ) (m : Bytes) (percent : ℕ)
      (g : Group)
      → contains ms m ≡ true
      → percent_for c m ≡ some percent
      → group c.tracker m ≡ some g
      → is_due_at g percent now ≡ true
      → IsOneOf
          (driving_frame c l g percent)
          (taking.taken (drive_groups message link c l ms now).1)
  unfolding drive_groups
  drive_groups-IsOneOf c l [] now m percent g i e f due = absurd (ground (arith, i))
  drive_groups-IsOneOf c l (mac ∷ rest) now m percent g i e f due =
      let next = drive_group message link c l mac now in
      elim (Bool-cases (bytes_eq mac m)) [
        | inl s ↦
            let at : m ≡ mac = sym (bytes_eq_sound mac m s) in
            drive_groups-Grows next.0 next.1 rest now (driving_frame c l g percent) (
              drive_group-IsOneOf c l mac now percent g
                (subst (λ x. percent_for c x ≡ some percent) at e)
                (subst (λ x. group c.tracker x ≡ some g) at f) due)
        | inr other ↦
            let aside = drive_group-Aside c l mac m now other in
            let settled = settings-drive_group message link c l mac now in
            let at : g.device.mac ≡ m = find_mac_of c.tracker m g f in
            let same : driving_frame next.0 next.1 g percent ≡ driving_frame c l g percent =
              rw (at, aside.slot_kept, aside.master_kept, ap (λ (x : Settings). x.channel) settled)
                refl in
            subst
              (λ x. IsOneOf x (taking.taken (drive_groups message link next.0 next.1 rest now).1))
              same
              (drive_groups-IsOneOf next.0 next.1 rest now m percent g (rw other at i)
                (percent_for_kept message link c next.0 m settled ∙ e) (aside.group_kept ∙ f) due)
      ]

-- On a link that takes every payload: after `drive`, each online fan group that is bound to the
-- dongle, that a percentage is wanted for (100 while the failsafe is in force), and that is due once
-- its target is set, has been sent that target, on its own channel and to its own receiver, in a
-- payload made with the dongle's address, the dongle's channel and the group's slot.
pub drive-IsOneOf :
    (message : ℕ → Bytes) (link : Link) (taking : Taking link) (c : Core) (l : link.Carrier)
    (now : ℕ) (m : Bytes) (percent : ℕ) (g : Group)
    → contains (macs (Tracker.fans c.tracker)) m ≡ true
    → (if is_some c.alarm then some 100 else get c.wanted m) ≡ some percent
    → group c.tracker m ≡ some g
    → is_due_at message link taking g percent now ≡ true
    → IsOneOf
        (driving_frame message link taking c l g percent)
        (taking.taken (drive message link c l now).1)
unfolding drive Tracker.fans Tracker.online percent_for
drive-IsOneOf message link taking c l now m percent g i e f due =
    drive_groups-IsOneOf message link taking c l (macs (Tracker.fans c.tracker)) now m percent g i e
      f due
