-- ===== src/Engine/Driving.antt =====
-- src/engine.rs, `drive`: the rounds of its loop.
use fan_control_lian_li_wire.Base.{
  ℕ, ◌≡◌, sym, ap, subst, ◌∙◌, inl, inr, true, false, some, List, [], ◌∷◌, arith, if◌then◌else◌,
  Bool-cases, Option-cases, Bytes, bytes_eq, bytes_eq_sound, bytes_eq_iff, get,
}
use fan_control_lian_li_wire.Groups.{Group}
use fan_control_lian_li_wire.Tracker.{Tracker, macs, contains, group, set_target}
use fan_control_lian_li_wire.Tracker.Targets.{set_target_lem}
use fan_control_lian_li_wire.Engine.{failsafe_percent, Link, Core, is_some}
use fan_control_lian_li_wire.Engine.Drive.{
  percent_for, wanted_duties, note_change, drive_group, drive_groups,
}
use fan_control_lian_li_wire.Engine.Steady.{Settings, settings, note_change-Logged}
use fan_control_lian_li_wire.Tracker.Holding.{Holds, Closed}
use fan_control_lian_li_wire.Engine.Targets.{
  Aims, IsAny, send_if_due_lem, send_if_due-Holds, set_target-Aims,
}
use fan_control_lian_li_wire.Speed
use fan_control_lian_li_wire.Tracker

module _ (message : ℕ → Bytes) (link : Link) where
  -- A round of `drive` for a known group: it has its target, and the other groups stay as they are.
  record Driven (c c' : Core) (mac : Bytes) (now percent : ℕ) : Type 1 where
    settings_kept : settings c' ≡ settings c
    driven : Holds (Aims percent) c'.tracker mac
    others :
        (P : Group → Type 0) (m : Bytes)
        → Closed now P
        → bytes_eq m mac ≡ false
        → Holds P c.tracker m
        → Holds P c'.tracker m

  drive_group-Driven :
      (c : Core) (l : link.Carrier) (mac : Bytes) (now percent : ℕ) (g : Group)
      → percent_for c mac ≡ some percent
      → group c.tracker mac ≡ some g
      → Driven c (drive_group message link c l mac now).0 mac now percent
  unfolding drive_group group
  drive_group-Driven c l mac now percent g p e =
      let w = wanted_duties percent g.device.fan_count in
      let t = (Tracker.set_target c.tracker mac w).0 in
      let duties = Speed.prepare g.device w in
      let set = (set_target_lem c.tracker mac w).1 g e in
      let c1 = record c { tracker = t } in
      let n = note_change-Logged message link c1 g percent duties now in
      let c2 = note_change message link c1 g percent duties now in
      let s = send_if_due_lem message link c2 l g.device.mac now in
      rw (p, e, drive_group, set.0)
        (record {
          settings_kept = s.0 ∙ n.settings_kept;
          driven =
              send_if_due-Holds message link (Aims percent) c2 l g.device.mac now mac (λ g h. h)
                (subst (λ t. Holds (Aims percent) t mac) (sym n.tracker_kept)
                  (set_target-Aims message link c.tracker mac percent g e));
          others = λ P m closed d h.
              send_if_due-Holds message link P c2 l g.device.mac now m closed (
                subst (λ t. Holds P t m) (sym n.tracker_kept)
                  (record {
                    held = h.held;
                    found = set.2 m (ground (arith, bytes_eq_iff m mac)) ∙ h.found;
                    so = h.so;
                  }));
        })

  -- The settings stay, whether there is a group to drive or not.
  pub settings-drive_group :
      (c : Core) (l : link.Carrier) (mac : Bytes) (now : ℕ)
      → settings (drive_group message link c l mac now).0 ≡ settings c
  unfolding drive_group
  settings-drive_group c l mac now = elim (Option-cases (percent_for c mac)) [
    | inl e ↦ rw (e, drive_group)
    | inr (q, e) ↦ elim (Option-cases (group c.tracker mac)) [
      | inl f ↦ rw (e, f, drive_group)
      | inr (g, f) ↦ (drive_group-Driven c l mac now q g e f).settings_kept
    ]
  ]

  -- `P` is so of a group that is driven at this percentage.
  abbrev Reached : (Group → Type 0) → Bytes → ℕ → ℕ → Type 1
  Reached P m now percent = (c c' : Core) → Driven c c' m now percent → Holds P c'.tracker m

  drive_group-Holds :
      (P : Group → Type 0) (c : Core) (l : link.Carrier) (mac : Bytes) (now : ℕ) (m : Bytes)
      (percent : ℕ)
      → Closed now P
      → Reached P m now percent
      → percent_for c m ≡ some percent
      → Holds P c.tracker m
      → Holds P (drive_group message link c l mac now).0.tracker m
  unfolding drive_group
  drive_group-Holds P c l mac now m percent closed reached p h =
      elim (Option-cases (percent_for c mac)) [
        | inl e ↦ rw (e, drive_group) h
        | inr (q, e) ↦ elim (Option-cases (group c.tracker mac)) [
          | inl f ↦ rw (e, f, drive_group) h
          | inr (g, f) ↦ elim (Bool-cases (bytes_eq m mac)) [
            | inl same ↦
                let at : m ≡ mac = bytes_eq_sound m mac same in
                subst (λ x. Holds P (drive_group message link c l x now).0.tracker m) at
                  (reached c _ (drive_group-Driven c l m now percent h.held p h.found))
            | inr other ↦ (drive_group-Driven c l mac now q g e f).others P m closed other h
          ]
        ]
      ]

  -- `percent_for` reads nothing that a round of `drive` changes.
  pub percent_for_kept :
      (c c' : Core) (m : Bytes) → settings c' ≡ settings c → percent_for c' m ≡ percent_for c m
  unfolding percent_for
  percent_for_kept c c' m s =
      ap (λ (x : Settings). if is_some x.alarm then some failsafe_percent else get x.wanted m) s

  drive_groups-Holds :
      (P : Group → Type 0) (c : Core) (l : link.Carrier) (macs : List Bytes) (now : ℕ) (m : Bytes)
      (percent : ℕ)
      → Closed now P
      → Reached P m now percent
      → percent_for c m ≡ some percent
      → Holds P c.tracker m
      → Holds P (drive_groups message link c l macs now).0.tracker m
  unfolding drive_groups
  drive_groups-Holds P c l [] now m percent closed reached p h = h
  drive_groups-Holds P c l (mac ∷ rest) now m percent closed reached p h =
      let next = drive_group message link c l mac now in
      let k = percent_for_kept c next.0 m (settings-drive_group c l mac now) in
      drive_groups-Holds P next.0 next.1 rest now m percent closed reached (k ∙ p)
        (drive_group-Holds P c l mac now m percent closed reached p h)

  drive_groups_reach :
      (P : Group → Type 0) (c : Core) (l : link.Carrier) (macs : List Bytes) (now : ℕ) (m : Bytes)
      (percent : ℕ)
      → Closed now P
      → Reached P m now percent
      → percent_for c m ≡ some percent
      → Holds IsAny c.tracker m
      → contains macs m ≡ true
      → Holds P (drive_groups message link c l macs now).0.tracker m
  unfolding drive_groups
  drive_groups_reach P c l [] now m percent closed reached p h i = absurd (ground (arith, i))
  drive_groups_reach P c l (mac ∷ rest) now m percent closed reached p h i =
      let next = drive_group message link c l mac now in
      let k = percent_for_kept c next.0 m (settings-drive_group c l mac now) in
      elim (Bool-cases (bytes_eq mac m)) [
        | inl e ↦
            let at : m ≡ mac = sym (bytes_eq_sound mac m e) in
            drive_groups-Holds P next.0 next.1 rest now m percent closed reached (k ∙ p) (
              subst (λ x. Holds P (drive_group message link c l x now).0.tracker m) at
                (reached c _ (drive_group-Driven c l m now percent h.held p h.found)))
        | inr e ↦
            drive_groups_reach P next.0 next.1 rest now m percent closed reached (k ∙ p)
              (drive_group-Holds IsAny c l mac now m percent (λ g h. h)
                (λ c c' d. record { held = d.driven.held; found = d.driven.found; so = tt }) p h)
              (rw e at i)
      ]

  -- In a list of addresses, each of a known group that a percentage is wanted for.
  pub reach-Aims :
      (c : Core) (l : link.Carrier) (macs : List Bytes) (now : ℕ) (m : Bytes) (percent : ℕ)
      → percent_for c m ≡ some percent
      → Holds IsAny c.tracker m
      → contains macs m ≡ true
      → Holds (Aims percent) (drive_groups message link c l macs now).0.tracker m
  reach-Aims c l macs now m percent =
      drive_groups_reach (Aims percent) c l macs now m percent (λ g h. h) (λ c c' d. d.driven)
