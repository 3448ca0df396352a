-- ===== src/Engine/Targets.antt =====
-- src/engine.rs, `drive`: the targets that the groups are left with.
use fan_control_lian_li_wire.Base.{
  ℕ, ◌≡◌, refl, sym, ap, subst, ◌∙◌, ◌⊎◌, inl, inr, some, Bool-cases, Option-cases, Bytes,
  Result-cases,
}
use fan_control_lian_li_wire.Tracker.{
  Tracker, group, slot, update_group, set_target, mark_sent, sent,
}
use fan_control_lian_li_wire.Engine.{Link, Core}
use fan_control_lian_li_wire.Groups.{Group, due}
use fan_control_lian_li_wire.Tracker.Targets.{set_target_lem}
use fan_control_lian_li_wire.Engine.Drive.{failed_send, wanted_duties, send_target, send_if_due}
use fan_control_lian_li_wire.Tracker.Holding.{Holds, Closed, sent-Holds}
use fan_control_lian_li_wire.Engine.Steady.{settings, fail-Logged}
use fan_control_lian_li_wire.Speed
use fan_control_lian_li_wire.Groups
use fan_control_lian_li_wire.Tracker

-- The target is what `percent` makes of the device.
abbrev pub Aims : ℕ → Group → Type 0
Aims percent g = g.target ≡ some (Speed.prepare g.device (wanted_duties percent g.device.fan_count))

abbrev pub IsAny : Group → Type 0
IsAny g = Unit {0}

module _ (message : ℕ → Bytes) (link : Link) where
  -- Sending a group's target leaves the tracker as it is, or notes that the target went out.
  pub send_target_lem :
      (c : Core) (l : link.Carrier) (g : Group) (target : Bytes) (now : ℕ)
      → let c' = (send_target message link c l g target now).0 in
        (settings c' ≡ settings c)
        × ((c'.tracker ≡ c.tracker) ⊎ (c'.tracker ≡ Tracker.sent c.tracker g.device.mac now))
  unfolding send_target
  send_target_lem c l g target now =
      let payload =
        Speed.payload g.device (link.master_mac l) c.channel (Tracker.slot c.tracker g.device.mac)
          target in
      elim (Result-cases (link.send l g.device.channel g.device.receiver payload).0) [
        | inl (a, e) ↦ rw (e, send_target) (refl, inr refl)
        | inr (x, e) ↦
            let f = fail-Logged c (failed_send message g.device.mac x) now in
            rw (e, send_target) (f.settings_kept, inl f.tracker_kept)
      ]

  pub send_if_due_lem :
      (c : Core) (l : link.Carrier) (mac : Bytes) (now : ℕ)
      → let c' = (send_if_due message link c l mac now).0 in
        (settings c' ≡ settings c)
        × ((c'.tracker ≡ c.tracker) ⊎ ((m : Bytes) × (c'.tracker ≡ Tracker.sent c.tracker m now)))
  unfolding send_if_due
  send_if_due_lem c l mac now = elim (Option-cases (group c.tracker mac)) [
    | inl e ↦ rw (e, send_if_due) (refl, inl refl)
    | inr (g, e) ↦ elim (Bool-cases (Groups.due g now)) [
      | inr d ↦ rw (e, send_if_due, d) (refl, inl refl)
      | inl d ↦ elim (Option-cases g.target) [
        | inl f ↦ rw (e, send_if_due, d, f) (refl, inl refl)
        | inr (target, f) ↦
            let s = send_target_lem c l g target now in
            rw (e, send_if_due, d, f)
              (s.0, elim s.1 [ inl same ↦ inl same | inr went ↦ inr (g.device.mac, went) ])
      ]
    ]
  ]

  pub send_if_due-Holds :
      (P : Group → Type 0) (c : Core) (l : link.Carrier) (mac : Bytes) (now : ℕ) (m : Bytes)
      → Closed now P
      → Holds P c.tracker m
      → Holds P (send_if_due message link c l mac now).0.tracker m
  send_if_due-Holds P c l mac now m closed h = elim (send_if_due_lem c l mac now).1 [
    | inl same ↦ subst (λ t. Holds P t m) (sym same) h
    | inr (sent_to, went) ↦
        subst (λ t. Holds P t m) (sym went) (sent-Holds P c.tracker sent_to m now closed h)
  ]

  pub set_target-Aims :
      (t : Tracker) (mac : Bytes) (percent : ℕ) (g : Group)
      → group t mac ≡ some g
      → Holds
          (Aims percent)
          (Tracker.set_target t mac (wanted_duties percent g.device.fan_count)).0
          mac
  set_target-Aims t mac percent g e =
      let s = (set_target_lem t mac (wanted_duties percent g.device.fan_count)).1 g e in
      let (g', found, r) = s.1 in
      record {
        held = g';
        found = found;
        so =
            r.target
            ∙ ap (λ d. some (Speed.prepare d (wanted_duties percent d.fan_count))) (sym r.device);
      }
